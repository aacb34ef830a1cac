-- ===== src/Balancer/Routing.antt =====
-- `Route`: the choice of a backend, and the new mapping.
use mathlib.Core.Path.{subst}
use balancer_go.Base.{
  ℕ, zero, suc, ◌%◌, ◌≤◌, ◌<◌, ◌≡◌, ◌⊎◌, refl, ap, sym, ◌∙◌, Bool, true, false, not, ◌&&◌, ◌==◌,
  if◌then◌else◌, Option, none, some, List, [], ◌∷◌, length, get_elem?, map, arith, Bool-cases,
  Option-cases, inl, inr,
}
use balancer_go.Model.{ClientKey}
use balancer_go.Model.Keys.{same_key}
use balancer_go.Algorithms.{Candidate, Picked, PickError, picked, failed, is_open, is_available}
use balancer_go.Engine.{ok}
use balancer_go.Engine.Returns.{Returns}
use balancer_go.Balancer.Tables.{put-same, put-other, count, get_elem?-each, is_at, is_some, lookup}
use balancer_go.Balancer.{
  LoadBalancer, HealthCheck, Routed, routed, not_picked, unknown_backend, has_client, candidate_of,
  add_backend, healthy_backends, assign, route, route_among, route_to, finish_route,
}
use balancer_go.Balancer.Invariant.{Algorithm, IsBalancer}
use balancer_go.Balancer.Assignment.{HasRoom, assign-IsBalancer}

-- A backend that the algorithm may choose.
abbrev IsBackend : List ℕ → (ℕ → List ℕ) → List (ℕ × HealthCheck) → ℕ × Candidate → Type 0
IsBackend servers table health b =
    (check : HealthCheck) × (lookup b.0 health ≡ some check)
    × (check.healthy ≡ true)
    × (b.1 ≡ candidate_of check (table b.0))
    × (0 < count b.0 servers)

abbrev check_in : HealthCheck → Option HealthCheck → HealthCheck
check_in c none = c
check_in c (some d) = d

check-injective : {c d : HealthCheck} → some c ≡ some d → c ≡ d
check-injective {c} e = ap (check_in c) e

healthy_backends_lem :
    (servers : List ℕ) (table : ℕ → List ℕ) (health : List (ℕ × HealthCheck))
    → ((s : ℕ) → 0 < count s servers → is_some (lookup s health) ≡ true)
    → (backends : List (ℕ × Candidate)) × (healthy_backends servers table health ≡ some backends)
      × ((i : ℕ) (b : ℕ × Candidate)
          → get_elem? backends i ≡ some b
          → IsBackend servers table health b)
      × ((s : ℕ) (check : HealthCheck)
          → 0 < count s servers
          → lookup s health ≡ some check
          → check.healthy ≡ true
          → (i : ℕ) × (get_elem? backends i ≡ some (s, candidate_of check (table s))))
unfolding healthy_backends
healthy_backends_lem [] table health v =
    ([], refl, λ i b e. ground arith, λ s check n l h. absurd (omega (arith, n)))
healthy_backends_lem (srv ∷ servers) table health v =
    let (rest, found, each, all_there) =
      healthy_backends_lem servers table health (λ s h. v s (ground (arith, h))) in
    let wider : (i : ℕ) (b : ℕ × Candidate)
        → get_elem? rest i ≡ some b
        → IsBackend (srv ∷ servers) table health b =
      λ i b e. let (check, l, h, c, n) = each i b e in (check, l, h, c, ground (arith, n)) in
    elim (Option-cases (lookup srv health)) [
      | inl e ↦ ground (arith, sym (ap is_some e) ∙ v srv (ground arith))
      | inr (check, e) ↦
          let all : healthy_backends (srv ∷ servers) table health
              ≡ some
                  (if check.healthy then (srv, candidate_of check (table srv)) ∷ rest else rest) =
            ap (λ c. add_backend srv (table srv) c (healthy_backends servers table health)) e
            ∙ ap (add_backend srv (table srv) (some check)) found in
          elim (Bool-cases check.healthy) [
            | inl h ↦ (
              (srv, candidate_of check (table srv)) ∷ rest,
              rw h at all,
              get_elem?-each (IsBackend (srv ∷ servers) table health) _ rest
                  (check, e, h, refl, ground arith) wider,
              λ s c n l k. elim (Bool-cases (srv == s)) [
                | inl q ↦
                    let here : srv ≡ s = ground arith in
                    let same : check ≡ c =
                      check-injective (sym e ∙ ap (λ s. lookup s health) here ∙ l) in
                    (
                      zero,
                      ap (λ s. some (s, candidate_of check (table s))) here
                          ∙ ap (λ c. some (s, candidate_of c (table s))) same,
                    )
                | inr q ↦ let (i, at) = all_there s c (ground (arith, q, n)) l k in (suc i, at)
              ],
            )
            | inr h ↦ (
              rest,
              rw h at all,
              wider,
              λ s c n l k. elim (Bool-cases (srv == s)) [
                | inl q ↦
                    let here : srv ≡ s = ground arith in
                    let same : check ≡ c =
                      check-injective (sym e ∙ ap (λ s. lookup s health) here ∙ l) in
                    ground (arith, sym h ∙ ap (λ (c : HealthCheck). c.healthy) same ∙ k)
                | inr q ↦ all_there s c (ground (arith, q, n)) l k
              ],
            )
          ]
    ]

open_lem :
    (backends : List (ℕ × Candidate)) (i : ℕ)
    → is_open (map (λ (b : ℕ × Candidate). b.1) backends) i ≡ true
    → (b : ℕ × Candidate) × (get_elem? backends i ≡ some b) × (is_available b.1 ≡ true)
open_lem [] i e = ground (arith, e)
open_lem (b ∷ backends) zero e = (b, refl, e)
open_lem (b ∷ backends) (suc i) e = open_lem backends i e

-- The count that a candidate shows is exact where there is a limit.
room_lem :
    (check : HealthCheck) (clients : List ℕ)
    → (check.max_connections ≡ 0) ⊎ (length clients ≤ check.max_connections)
    → check.max_connections < 4294967296
    → is_available (candidate_of check clients) ≡ true
    → HasRoom (length clients) check
room_lem check clients (inl z) n e = inl z
room_lem check clients (inr l) n e = elim (Bool-cases (check.max_connections == 0)) [
  | inl z ↦ inl (ground arith)
  | inr z ↦
      let exact : length clients % 4294967296 ≡ length clients = omega arith in
      inr (ground (arith, exact, e))
]

-- A candidate that is closed, and its server.
closed_lem :
    (backends : List (ℕ × Candidate)) (i : ℕ) (b : ℕ × Candidate)
    → get_elem? backends i ≡ some b
    → is_open (map (λ (b : ℕ × Candidate). b.1) backends) i ≡ false
    → is_available b.1 ≡ false
closed_lem [] i b e h = ground (arith, e)
closed_lem (x ∷ xs) zero b e h = sym (ap available_in e) ∙ h
  where
    available_in : Option (ℕ × Candidate) → Bool
    available_in none = false
    available_in (some x) = is_available x.1
closed_lem (x ∷ xs) (suc i) b e h = closed_lem xs i b e h

full_lem :
    (check : HealthCheck) (clients : List ℕ)
    → (check.max_connections ≡ 0) ⊎ (length clients ≤ check.max_connections)
    → check.max_connections < 4294967296
    → is_available (candidate_of check clients) ≡ false
    → ¬ HasRoom (length clients) check
full_lem check clients bound n e (inl z) =
    let none_left : (check.max_connections == 0) ≡ true = ground arith in
    ground (arith, none_left, e)
full_lem check clients bound n e (inr l) =
    let exact : length clients % 4294967296 ≡ length clients = omega arith in
    ground (arith, exact, l, e)

registered_lem :
    (cl : ℕ) (o : Option ℕ) (closed : Bool) → not closed && is_at cl o ≡ true → o ≡ some cl
registered_lem cl none true e = ground (arith, e)
registered_lem cl none false e = ground (arith, e)
registered_lem cl (some p) true e = ground (arith, e)
registered_lem cl (some p) false e = let same : p ≡ cl = ground (arith, e) in ap some same

module _ {S D : Type 0} (key_of : ℕ → ClientKey) where
  -- How `Route` ends: the client's key was mapped to the server, or is mapped anew to a healthy one below
  -- its limit; or it is mapped to none, and each healthy server is at its limit.
  abbrev pub HasOutcome : ℕ → LoadBalancer S D → LoadBalancer S D → Routed → Type 0
  HasOutcome cl a b (routed s) =
      (b.by_key (key_of cl) ≡ some s)
      × ((k : ClientKey) → ¬ (k ≡ key_of cl) → b.by_key k ≡ a.by_key k)
      × ((a.by_key (key_of cl) ≡ some s)
          ⊎ ((check : HealthCheck) × (a.by_key (key_of cl) ≡ none)
              × (lookup s a.health ≡ some check)
              × (check.healthy ≡ true)
              × HasRoom (length (a.conn_table s)) check))
  HasOutcome cl a b (not_picked error) =
      (a.by_key (key_of cl) ≡ none)
      × (b.by_key ≡ a.by_key)
      × ((s : ℕ) (check : HealthCheck)
          → 0 < count s a.servers
          → lookup s a.health ≡ some check
          → check.healthy ≡ true
          → ¬ HasRoom (length (a.conn_table s)) check)
  HasOutcome cl a b unknown_backend = ⊥

module _ {S D : Type 0} (key_of : ℕ → ClientKey) (algorithm : Algorithm S) where
  abbrev IsAfter : ℕ → LoadBalancer S D → LoadBalancer S D × Routed → Type 0
  IsAfter cl lb r = IsBalancer key_of r.0 × HasOutcome key_of cl lb r.0 r.1

  algo-IsBalancer :
      (lb : LoadBalancer S D) (s : S)
      → IsBalancer key_of lb
      → IsBalancer key_of (record lb { algo = s })
  algo-IsBalancer lb s w = record {
    listed = w.listed;
    mapped = w.mapped;
    keyed = w.keyed;
    ordered = w.ordered;
    tracked = w.tracked;
    registered = w.registered;
    checked = w.checked;
    bounded = w.bounded;
    narrow = w.narrow;
  }

  assigned_lem :
      (cl srv now : ℕ) (lb : LoadBalancer S D) (s : S)
      → (lb.by_key (key_of cl) ≡ some srv)
        ⊎ ((check : HealthCheck) × (lb.by_key (key_of cl) ≡ none)
            × (lookup srv lb.health ≡ some check)
            × (check.healthy ≡ true)
            × HasRoom (length (lb.conn_table srv)) check)
      → HasOutcome key_of cl lb (assign key_of cl srv now (record lb { algo = s })) (routed srv)
  unfolding assign
  assigned_lem cl srv now lb s h = (
    put-same same_key (key_of cl) (key_of cl) (some srv) lb.by_key refl,
    λ k n. put-other same_key (key_of cl) k (some srv) lb.by_key n,
    h,
  )

  placed_lem :
      (cl now : ℕ) (backends : List (ℕ × Candidate)) (lb : LoadBalancer S D) (s : S)
      (choice : Picked)
      → IsBalancer key_of lb
      → lb.by_key (key_of cl) ≡ none
      → lb.clients (key_of cl) ≡ some cl
      → ((i : ℕ) (b : ℕ × Candidate)
          → get_elem? backends i ≡ some b
          → IsBackend lb.servers lb.conn_table lb.health b)
      → ((i : ℕ) → choice ≡ picked i → is_open (map (λ (b : ℕ × Candidate). b.1) backends) i ≡ true)
      → ((s : ℕ) (check : HealthCheck)
          → 0 < count s lb.servers
          → lookup s lb.health ≡ some check
          → check.healthy ≡ true
          → (i : ℕ) × (get_elem? backends i ≡ some (s, candidate_of check (lb.conn_table s))))
      → ((error : PickError)
          → choice ≡ failed error
          → (i : ℕ) → is_open (map (λ (b : ℕ × Candidate). b.1) backends) i ≡ false)
      → IsAfter cl lb
          (route_to key_of algorithm.pick cl now backends (record lb { algo = s }) choice)
  placed_lem cl now backends lb s (failed error) w new mine each free all shut = (
    algo-IsBalancer lb s w,
    (
      new,
      refl,
      λ srv check n l h.
          let (i, at) = all srv check n l h in
          full_lem check (lb.conn_table srv) (w.bounded srv check l) (w.narrow srv check l) (
            closed_lem backends i (srv, candidate_of check (lb.conn_table srv)) at
              (shut error refl i)),
    ),
  )
  placed_lem cl now backends lb s (picked i) w new mine each free all shut =
      let ((srv, candidate), at, available) = open_lem backends i (free i refl) in
      let (check, found, healthy, known, there) = each i (srv, candidate) at in
      let room : HasRoom (length (lb.conn_table srv)) check =
        room_lem check (lb.conn_table srv) (w.bounded srv check found) (w.narrow srv check found)
          (rw known at available) in
      let same : (c : HealthCheck)
          → lookup srv lb.health ≡ some c
          → HasRoom (length (lb.conn_table srv)) c =
        λ c e.
          subst (HasRoom (length (lb.conn_table srv))) (check-injective (sym found ∙ e)) room in
      subst
        (λ o. IsAfter cl lb (finish_route key_of algorithm.pick cl now (record lb { algo = s }) o))
        (sym at)
        (
          assign-IsBalancer key_of cl srv now (record lb { algo = s }) (algo-IsBalancer lb s w) new
              mine there same,
          assigned_lem cl srv now lb s (inr (check, new, found, healthy, room)),
        )

  -- For a client that the balancer has, and an algorithm that picks only candidates below their limit and
  -- fails only when there are none, `Route` returns: it keeps the mapping that the client's key has;
  -- otherwise it maps this key alone to a healthy server that was below its limit, or, exactly when no
  -- healthy server is, maps nothing. The tables agree afterwards, so each server stays within its limit.
  pub route-IsBalancer :
      (cl now : ℕ) (lb : LoadBalancer S D)
      → has_client key_of (some cl) lb ≡ true
      → IsBalancer key_of lb
      → Returns {A = LoadBalancer S D × Routed}
          (λ r. IsBalancer key_of r.0 × HasOutcome key_of cl lb r.0 r.1)
          (route key_of algorithm.pick cl now lb)
  unfolding route has_client
  route-IsBalancer cl now lb h w =
      let free : lb.clients (key_of cl) ≡ some cl =
        registered_lem cl (lb.clients (key_of cl)) lb.closed h in
      elim (Option-cases (lb.by_key (key_of cl))) [
        | inr (s, e) ↦
            subst
              (λ o. Returns {A = LoadBalancer S D × Routed} (IsAfter cl lb) (elim o [
                | some mapped ↦ ok (lb, routed mapped)
                | none ↦
                    route_among key_of algorithm.pick cl now lb
                      (healthy_backends lb.servers lb.conn_table lb.health)
              ]))
              (sym e) (w, (e, λ k n. refl, inl e))
        | inl e ↦
            let (backends, found, each, all) =
              healthy_backends_lem lb.servers lb.conn_table lb.health w.checked in
            let (choice, algo) =
              algorithm.pick lb.algo (map (λ (b : ℕ × Candidate). b.1) backends) in
            subst
              (λ o. Returns {A = LoadBalancer S D × Routed} (IsAfter cl lb) (elim o [
                | some mapped ↦ ok (lb, routed mapped)
                | none ↦
                    route_among key_of algorithm.pick cl now lb
                      (healthy_backends lb.servers lb.conn_table lb.health)
              ]))
              (sym e)
              (subst
                (λ o.
                  Returns {A = LoadBalancer S D × Routed} (IsAfter cl lb)
                    (route_among key_of algorithm.pick cl now lb o))
                (sym found)
                (placed_lem cl now backends lb algo choice w e free each
                  (λ i c. algorithm.picks_open lb.algo _ i c) all
                  (λ error c. algorithm.fails_closed lb.algo _ error c)))
      ]
