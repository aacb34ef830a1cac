-- ===== src/Balancer/Safety.antt =====
-- A packet that the balancer processes, in either direction.
use Prim.{tt}
use mathlib.Core.Path.{subst}
use balancer_go.Base.{
  ℕ, ◌<◌, ◌≡◌, ap, sym, ◌∙◌, Bool, true, false, not, ◌&&◌, ◌||◌, if◌then◌else◌, Option, none, some,
  arith, Bool-cases, Option-cases, inl, inr, max_u64,
}
use balancer_go.Model.{ClientKey, Packet}
use balancer_go.Connections.{supported_mapping_packet, has_base_flags}
use balancer_go.Engine.{Engine, Result, ok, panic}
use balancer_go.Engine.Queue.{IsEngine}
use balancer_go.Engine.Returns.{Returns, Returns-elim, IsNext}
use balancer_go.Balancer.Tables.{is_at}
use balancer_go.Balancer.{
  LoadBalancer, Callback, Routed, routed, not_picked, unknown_backend, has_client, route,
}
use balancer_go.Balancer.Invariant.{Algorithm, IsBalancer}
use balancer_go.Balancer.Routing.{HasOutcome, route-IsBalancer}
use balancer_go.Balancer.Passing.{IsSeen, IsSent, unchanged, pass_on-Returns}
use balancer_go.Balancer.Handling.{
  Handled, pass_on, server_of, server_for, pass_to, process_client_packet, process_server_packet,
}

module _ {S D K : Type 0} (key_of : ℕ → ClientKey) (algorithm : Algorithm S)
    (callback : Callback D → K) (host_done : ℕ → K) (a n : ℕ) (e : Engine K)
    (v : IsEngine a n e) where
  -- The server that takes the packet is the one that the key is mapped to.
  abbrev IsTaken : ClientKey → LoadBalancer S D × Option ℕ → Type 0
  IsTaken key (lb, none) = IsBalancer key_of lb
  IsTaken key (lb, some s) = IsBalancer key_of lb × (lb.by_key key ≡ some s)

  taken_lem :
      (cl : ℕ) (key : ClientKey) (lb : LoadBalancer S D) (r : LoadBalancer S D × Routed)
      → key_of cl ≡ key
      → IsBalancer key_of r.0
      → HasOutcome key_of cl lb r.0 r.1
      → IsTaken key (server_of key_of algorithm.pick callback host_done r)
  taken_lem cl key lb (l, routed s) k w o = (w, ap l.by_key (sym k) ∙ o.0)
  taken_lem cl key lb (l, not_picked error) k w o = w
  taken_lem cl key lb (l, unknown_backend) k w o = w

  abbrev first_packet : ℕ → Packet → LoadBalancer S D → Result (LoadBalancer S D × Option ℕ)
  first_packet cl pkt lb =
      if has_base_flags pkt.flag true false false false false && supported_mapping_packet pkt false
      then elim (route key_of algorithm.pick cl e.now lb) [
        | panic ↦ panic
        | ok r ↦ ok (server_of key_of algorithm.pick callback host_done r)
      ]
      else ok (lb, none)

  first_packet-Returns :
      (cl : ℕ) (pkt : Packet) (lb : LoadBalancer S D)
      → has_client key_of (some cl) lb ≡ true
      → key_of cl ≡ pkt.key
      → IsBalancer key_of lb
      → Returns {A = LoadBalancer S D × Option ℕ} (IsTaken pkt.key) (first_packet cl pkt lb)
  first_packet-Returns cl pkt lb h k w =
      elim (Bool-cases (
        has_base_flags pkt.flag true false false false false
        && supported_mapping_packet pkt false)) [
          | inl f ↦ rw f (
              Returns-elim
                (λ r. Returns {A = LoadBalancer S D × Option ℕ} (IsTaken pkt.key) (elim r [
                  | panic ↦ panic
                  | ok r ↦ ok (server_of key_of algorithm.pick callback host_done r)
                ]))
                (route key_of algorithm.pick cl e.now lb)
                (route-IsBalancer key_of algorithm cl e.now lb h w)
                (λ r o. taken_lem cl pkt.key lb r k o.0 o.1))
          | inr f ↦ rw f w
        ]

  server_for-Returns :
      (cl : ℕ) (pkt : Packet) (lb : LoadBalancer S D)
      → has_client key_of (some cl) lb ≡ true
      → key_of cl ≡ pkt.key
      → IsBalancer key_of lb
      → Returns {A = LoadBalancer S D × Option ℕ}
          (IsTaken pkt.key)
          (server_for key_of algorithm.pick callback host_done cl pkt lb e)
  unfolding server_for
  server_for-Returns cl pkt lb h k w = elim (Option-cases (lb.by_key pkt.key)) [
    | inr (s, m) ↦
        subst
          (λ o.
            Returns {A = LoadBalancer S D × Option ℕ} (IsTaken pkt.key)
              (elim o [ some srv ↦ ok (lb, some srv) | none ↦ first_packet cl pkt lb ]))
          (sym m) (w, m)
    | inl m ↦
        subst
          (λ o.
            Returns {A = LoadBalancer S D × Option ℕ} (IsTaken pkt.key)
              (elim o [ some srv ↦ ok (lb, some srv) | none ↦ first_packet cl pkt lb ]))
          (sym m) (first_packet-Returns cl pkt lb h k w)
  ]

  -- What a client's packet leaves: what is sent is the packet, to the server of the packet's key.
  abbrev pub IsForwarded : Packet → LoadBalancer S D → Option (D × Packet) → Type 0
  IsForwarded pkt lb none = Unit
  IsForwarded pkt lb (some (d, p)) =
      (p ≡ pkt) × ((s : ℕ) × (lb.by_key pkt.key ≡ some s) × (lb.to_server s ≡ some d))

  forwarded_lem :
      (s : ℕ) (pkt : Packet) (lb b : LoadBalancer S D) (o : Option (D × Packet))
      → lb.by_key pkt.key ≡ some s
      → IsSeen key_of lb b
      → IsSent (lb.to_server s) pkt o
      → IsForwarded pkt b o
  forwarded_lem s pkt lb b none m seen sent = tt
  forwarded_lem s pkt lb b (some (d, p)) m seen sent =
      (sent.1, (s, ap (λ t. t pkt.key) seen.by_key ∙ m, ap (λ t. t s) seen.to_server ∙ sent.0))

  abbrev IsProcessed : Packet → Handled S D K → Type 0
  IsProcessed pkt r = IsBalancer key_of r.0 × IsNext a n e v r.1 × IsForwarded pkt r.0 r.2

  pass_to-Returns :
      (cl : ℕ) (pkt : Packet) (draw : Bool) (r : LoadBalancer S D × Option ℕ)
      → e.next_id < max_u64
      → IsTaken pkt.key r
      → Returns {A = Handled S D K}
          (IsProcessed pkt)
          (pass_to key_of algorithm.pick callback host_done cl pkt draw e r)
  pass_to-Returns cl pkt draw (lb, none) h w = (w, unchanged a n e v, tt)
  pass_to-Returns cl pkt draw (lb, some s) h (w, m) =
      Returns-elim (λ r. Returns {A = Handled S D K} (IsProcessed pkt) r)
        (pass_on key_of algorithm.pick callback host_done false (lb.to_server s) cl pkt draw lb e)
        (pass_on-Returns key_of algorithm callback host_done a n e v false (lb.to_server s) cl s pkt
          draw lb h m w)
        (λ r p. (p.0.balancer, p.1, forwarded_lem s pkt lb r.0 r.2 m p.0 p.2))

  -- A client's packet, once the host has processed it, is handled without a panic while the engine
  -- has an id left, for an algorithm that picks only candidates below their limit and fails only
  -- when there are none. What is handed on at once is the packet itself, to the server that its key
  -- is mapped to. The balancer's tables agree afterwards, and the engine is valid, with its clock
  -- and bounds unchanged.
  pub process_client_packet-Returns :
      (pkt : Packet) (draw : Bool) (lb : LoadBalancer S D)
      → e.next_id < max_u64
      → IsBalancer key_of lb
      → Returns {A = Handled S D K}
          (λ r. IsBalancer key_of r.0 × IsNext a n e v r.1 × IsForwarded pkt r.0 r.2)
          (process_client_packet key_of algorithm.pick callback host_done pkt draw lb e)
  unfolding process_client_packet
  process_client_packet-Returns pkt draw lb h w = elim (Option-cases (lb.clients pkt.key)) [
    | inl f ↦
        subst
          (λ o.
            Returns {A = Handled S D K} (IsProcessed pkt)
              (elim o [ none ↦ ok (lb, e, none) | some cl ↦ at_client cl ]))
          (sym f) (w, unchanged a n e v, tt)
    | inr (cl, f) ↦
        subst
          (λ o.
            Returns {A = Handled S D K} (IsProcessed pkt)
              (elim o [ none ↦ ok (lb, e, none) | some cl ↦ at_client cl ]))
          (sym f)
          (elim (Bool-cases (has_client key_of (some cl) lb)) [
            | inl c ↦ rw c (
                Returns-elim
                  (λ r. Returns {A = Handled S D K} (IsProcessed pkt) (elim r [
                    | panic ↦ panic
                    | ok r ↦ pass_to key_of algorithm.pick callback host_done cl pkt draw e r
                  ]))
                  (server_for key_of algorithm.pick callback host_done cl pkt lb e)
                  (server_for-Returns cl pkt lb c (w.keyed pkt.key cl f) w)
                  (λ r t. pass_to-Returns cl pkt draw r h t))
            | inr c ↦ rw c (w, unchanged a n e v, tt)
          ])
  ]
    where
      at_client : ℕ → Result (Handled S D K)
      at_client cl =
          if not (has_client key_of (some cl) lb)
          then ok (lb, e, none)
          else elim (server_for key_of algorithm.pick callback host_done cl pkt lb e) [
            | panic ↦ panic
            | ok r ↦ pass_to key_of algorithm.pick callback host_done cl pkt draw e r
          ]

  pointed_lem : (s : ℕ) (o : Option ℕ) → is_at s o ≡ true → o ≡ some s
  pointed_lem s none f = ground (arith, f)
  pointed_lem s (some t) f = let same : t ≡ s = ground (arith, f) in ap some same

  -- A server's packet goes to the client's Sender, and only from the server that the key is mapped to.
  abbrev pub IsReturned : ℕ → Packet → LoadBalancer S D → Option (D × Packet) → Type 0
  IsReturned srv pkt lb none = Unit
  IsReturned srv pkt lb (some (d, p)) =
      (p ≡ pkt) × (lb.by_key pkt.key ≡ some srv) × (lb.client_tx pkt.key ≡ some d)

  returned_lem :
      (srv : ℕ) (pkt : Packet) (lb : LoadBalancer S D) (o : Option (D × Packet))
      → lb.by_key pkt.key ≡ some srv
      → IsSent (lb.client_tx pkt.key) pkt o
      → IsReturned srv pkt lb o
  returned_lem srv pkt lb none m sent = tt
  returned_lem srv pkt lb (some (d, p)) m sent = (sent.1, m, sent.0)

  -- A server's packet, once the host has processed it, is handled without a panic while the engine has an
  -- id left. What is handed on at once is the packet itself, to the Sender of its key's client, and only
  -- when the key is mapped to that server. The balancer's tables agree afterwards, and the engine is valid.
  pub process_server_packet-Returns :
      (srv : ℕ) (pkt : Packet) (draw : Bool) (lb : LoadBalancer S D)
      → e.next_id < max_u64
      → IsBalancer key_of lb
      → Returns {A = Handled S D K}
          (λ r. IsBalancer key_of r.0 × IsNext a n e v r.1 × IsReturned srv pkt lb r.2)
          (process_server_packet key_of algorithm.pick callback host_done srv pkt draw lb e)
  unfolding process_server_packet
  process_server_packet-Returns srv pkt draw lb h w = elim (Option-cases (lb.clients pkt.key)) [
    | inl f ↦ subst Handles (sym f) (w, unchanged a n e v, tt)
    | inr (cl, f) ↦ subst Handles (sym f) (elim (Bool-cases (has_client key_of (some cl) lb)) [
      | inl c ↦ elim (Bool-cases (is_at srv (lb.by_key pkt.key))) [
        | inl p ↦
            let m = pointed_lem srv (lb.by_key pkt.key) p in
            rw (c, p)
              (Returns-elim
                (λ r.
                  Returns {A = Handled S D K}
                    (λ r. IsBalancer key_of r.0 × IsNext a n e v r.1 × IsReturned srv pkt lb r.2) r)
                (pass_on key_of algorithm.pick callback host_done true (lb.client_tx pkt.key) cl pkt
                  draw lb e)
                (pass_on-Returns key_of algorithm callback host_done a n e v true
                  (lb.client_tx pkt.key) cl srv pkt draw lb h m w)
                (λ r q. (q.0.balancer, q.1, returned_lem srv pkt lb r.2 m q.2)))
        | inr p ↦ rw (c, p) (w, unchanged a n e v, tt)
      ]
      | inr c ↦ rw c (w, unchanged a n e v, tt)
    ])
  ]
    where
      Handles : Option ℕ → Type 0
      Handles o =
          Returns {A = Handled S D K}
            (λ r. IsBalancer key_of r.0 × IsNext a n e v r.1 × IsReturned srv pkt lb r.2)
            (elim o [
              | none ↦ ok (lb, e, none)
              | some cl ↦
                  if not (has_client key_of (some cl) lb) || not (is_at srv (lb.by_key pkt.key))
                  then ok (lb, e, none)
                  else pass_on key_of algorithm.pick callback host_done true (lb.client_tx pkt.key)
                      cl pkt draw lb e
            ])
