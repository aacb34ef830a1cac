-- ===== src/Balancer/Passing.antt =====
-- A packet of a mapped key is observed and handed on.
use Prim.{tt}
use mathlib.Core.Path.{subst}
use balancer_go.Base.{
  ℕ, ◌<◌, ◌≡◌, refl, ap, sym, ◌∙◌, Bool, true, ◌==◌, if◌then◌else◌, Option, none, some, arith,
  Bool-cases, Option-cases, inl, inr, max_u64,
}
use balancer_go.Base.Int.{pos}
use balancer_go.Model.{ClientKey, Packet}
use balancer_go.Model.Keys.{same_key}
use balancer_go.Connections.{observe, supported_mapping_packet}
use balancer_go.Engine.{Engine, ok, panic, schedule_after}
use balancer_go.Engine.Queue.{IsEngine}
use balancer_go.Engine.Operations.{IsKept-refl}
use balancer_go.Engine.Returns.{Returns, Returns-elim, IsNext, schedule_after-Returns}
use balancer_go.Network.Link.{happens}
use balancer_go.Balancer.Tables.{put, put-same, put-other, is_some}
use balancer_go.Balancer.{LoadBalancer, Connection, Callback, deliver}
use balancer_go.Balancer.Invariant.{Algorithm, IsBalancer}
use balancer_go.Balancer.Traffic.{forward, pointer_of}
use balancer_go.Balancer.Handling.{Handled, observe_at, pass_on}

module _ {S D : Type 0} (key_of : ℕ → ClientKey) where
  -- What `observe_at` leaves of a balancer.
  pub record IsSeen (a b : LoadBalancer S D) : Type 0 where
    pub balancer : IsBalancer key_of b
    pub by_key : b.by_key ≡ a.by_key
    pub to_server : b.to_server ≡ a.to_server
    pub client_tx : b.client_tx ≡ a.client_tx

  observed_lem :
      (key : ClientKey) (c : Connection) (lb : LoadBalancer S D)
      → is_some (lb.connections key) ≡ true
      → IsBalancer key_of lb
      → IsSeen lb (record lb { connections = put same_key key (some c) lb.connections })
  observed_lem key c lb there w = record {
    balancer = record {
      listed = w.listed;
      mapped = w.mapped;
      keyed = w.keyed;
      ordered = w.ordered;
      tracked = λ k. elim (same_key k key) [
        | yes p ↦
            w.tracked k
            ∙ ap (λ k. is_some (lb.connections k)) p
            ∙ there
            ∙ sym (ap is_some (put-same same_key key k (some c) lb.connections p))
        | no n ↦ w.tracked k ∙ sym (ap is_some (put-other same_key key k (some c) lb.connections n))
      ];
      registered = w.registered;
      checked = w.checked;
      bounded = w.bounded;
      narrow = w.narrow;
    };
    by_key = refl;
    to_server = refl;
    client_tx = refl;
  }

  -- A mapped key has a connection to observe.
  observe_at_lem :
      (pkt : Packet) (server_side : Bool) (now s : ℕ) (lb : LoadBalancer S D)
      → lb.by_key pkt.key ≡ some s
      → IsBalancer key_of lb
      → (b : LoadBalancer S D) × (observe_at pkt server_side now lb ≡ some b) × IsSeen lb b
  unfolding observe_at
  observe_at_lem pkt server_side now s lb m w =
      let there : is_some (lb.connections pkt.key) ≡ true =
        sym (w.tracked pkt.key) ∙ ap is_some m in
      elim (Option-cases (lb.connections pkt.key)) [
        | inl e ↦ ground (arith, sym there ∙ ap is_some e)
        | inr (c, e) ↦
            let next = record c { state = observe pkt server_side now c.state } in
            (
              record lb { connections = put same_key pkt.key (some next) lb.connections },
              ap
                  (λ o. elim o [
                    | none ↦ if supported_mapping_packet pkt server_side then none else some lb
                    | some c ↦ some (record lb {
                      connections =
                          put same_key pkt.key
                            (some (record c { state = observe pkt server_side now c.state }))
                            lb.connections;
                    })
                  ])
                  e,
              observed_lem pkt.key next lb there w,
            )
      ]

-- What is sent is the packet, by the given Sender.
module _ {D : Type 0} where
  abbrev pub IsSent : Option D → Packet → Option (D × Packet) → Type 0
  IsSent send pkt none = Unit
  IsSent send pkt (some (d, p)) = (send ≡ some d) × (p ≡ pkt)

module _ {K : Type 0} (a n : ℕ) (e : Engine K) (v : IsEngine a n e) where
  pub unchanged : IsNext a n e v e
  unchanged = record { valid = v; kept = IsKept-refl e; ids = omega arith }

module _ {S D K : Type 0} (callback : Callback D → K) (a n : ℕ) (e : Engine K)
    (v : IsEngine a n e) where
  forward-Returns :
      (send : Option D) (cl : ℕ) (connection : Option ℕ) (pkt : Packet) (draw : Bool)
      (lb : LoadBalancer S D)
      → e.next_id < max_u64
      → Returns {A = Handled S D K}
          (λ r. (r.0 ≡ lb) × IsNext a n e v r.1 × IsSent send pkt r.2)
          (forward callback send cl connection pkt draw lb e)
  unfolding forward
  forward-Returns none cl connection pkt draw lb h = (refl, unchanged a n e v, tt)
  forward-Returns (some send) cl connection pkt draw lb h =
      elim (Bool-cases (happens lb.chaos.packet_drop_rate draw)) [
        | inl d ↦ simp d (refl, unchanged a n e v, tt)
        | inr d ↦ elim (Bool-cases (lb.chaos.latency == 0)) [
          | inl z ↦ simp (d, z) (refl, unchanged a n e v, (refl, refl))
          | inr z ↦
              simp (d, z)
                (Returns-elim
                  (λ r.
                    Returns {A = Handled S D K}
                      (λ r. (r.0 ≡ lb) × IsNext a n e v r.1 × IsSent (some send) pkt r.2)
                      (elim r [ panic ↦ panic | ok (f, id) ↦ ok (lb, f, none) ]))
                  (schedule_after (pos lb.chaos.latency) (callback (deliver send cl connection pkt))
                    e)
                  (schedule_after-Returns a n e v lb.chaos.latency
                    (callback (deliver send cl connection pkt)) h)
                  (λ r m. (refl, m, tt)))
        ]
      ]

module _ {S D K : Type 0} (key_of : ℕ → ClientKey) (algorithm : Algorithm S)
    (callback : Callback D → K) (host_done : ℕ → K) (a n : ℕ) (e : Engine K)
    (v : IsEngine a n e) where
  pub pass_on-Returns :
      (server_side : Bool) (send : Option D) (cl s : ℕ) (pkt : Packet) (draw : Bool)
      (lb : LoadBalancer S D)
      → e.next_id < max_u64
      → lb.by_key pkt.key ≡ some s
      → IsBalancer key_of lb
      → Returns {A = Handled S D K}
          (λ r. IsSeen key_of lb r.0 × IsNext a n e v r.1 × IsSent send pkt r.2)
          (pass_on key_of algorithm.pick callback host_done server_side send cl pkt draw lb e)
  unfolding pass_on
  pass_on-Returns server_side send cl s pkt draw lb h m w =
      let (seen, found, here) = observe_at_lem key_of pkt server_side e.now s lb m w in
      let connection = pointer_of (lb.connections pkt.key) in
      subst
        (λ o.
          Returns {A = Handled S D K}
            (λ r. IsSeen key_of lb r.0 × IsNext a n e v r.1 × IsSent send pkt r.2)
            (elim o [
              | none ↦ panic
              | some seen ↦ forward callback send cl connection pkt draw seen e
            ]))
        (sym found)
        (Returns-elim
          (λ r.
            Returns {A = Handled S D K}
              (λ r. IsSeen key_of lb r.0 × IsNext a n e v r.1 × IsSent send pkt r.2) r)
          (forward callback send cl connection pkt draw seen e)
          (forward-Returns callback a n e v send cl connection pkt draw seen h)
          (λ r m. (subst (IsSeen key_of lb) (sym m.0) here, m.1, m.2)))
