-- ===== src/Balancer/Servers.antt =====
-- A server is registered, and its health checks.
use Prim.{tt}
use balancer_go.Base.{
  ℕ, ◌<◌, ◌≡◌, refl, ap, sym, ◌∙◌, Bool, true, false, ◌||◌, ◌==◌, if◌then◌else◌, Option, none, some,
  List, [], ◌∷◌, ◌++◌, length, arith, Bool-cases, inl, inr, max_u64,
}
use balancer_go.Model.{ClientKey}
use balancer_go.Engine.{Engine, ok, panic, schedule_after}
use balancer_go.Engine.Queue.{IsEngine}
use balancer_go.Engine.Returns.{Returns, Returns-elim, IsNext, schedule_after-Returns}
use balancer_go.Base.Int.{pos}
use balancer_go.Balancer.Tables.{count, count-append, lookup, change, is_some}
use balancer_go.Balancer.{LoadBalancer, HealthCheck, Callback, check_health, health_interval}
use balancer_go.Balancer.Invariant.{IsBalancer}
use balancer_go.Balancer.Traffic.{schedule_health_check}
use balancer_go.Balancer.Registration.{is_duplicate, add_server}

abbrev Keeps : Option HealthCheck → Option HealthCheck → Type 0
Keeps none none = Unit
Keeps (some c) (some d) = c.max_connections ≡ d.max_connections
Keeps none (some d) = ⊥
Keeps (some c) none = ⊥

Keeps-refl : (o : Option HealthCheck) → Keeps o o
Keeps-refl none = tt
Keeps-refl (some c) = refl

change_lem :
    (s k : ℕ) (f : HealthCheck → HealthCheck) (m : List (ℕ × HealthCheck))
    → ((c : HealthCheck) → (f c).max_connections ≡ c.max_connections)
    → Keeps (lookup s m) (lookup s (change k f m))
change_lem s k f [] h = tt
change_lem s k f ((j, c) ∷ m) h = elim (Bool-cases (j == k)) [
  | inl e ↦ elim (Bool-cases (j == s)) [
    | inl g ↦ rw (e, g) (sym (h c))
    | inr g ↦ rw (e, g) (Keeps-refl (lookup s m))
  ]
  | inr e ↦ elim (Bool-cases (j == s)) [
    | inl g ↦ rw (e, g) refl
    | inr g ↦ rw (e, g) (change_lem s k f m h)
  ]
]

kept_check :
    (o p : Option HealthCheck) (d : HealthCheck)
    → Keeps o p
    → p ≡ some d
    → (c : HealthCheck) × (o ≡ some c) × (c.max_connections ≡ d.max_connections)
kept_check none none d v e = ground (arith, e)
kept_check (some c) (some x) d v e = (c, refl, v ∙ ap limit e)
  where
    limit : Option HealthCheck → ℕ
    limit none = 0
    limit (some x) = x.max_connections
kept_check none (some x) d v e = absurd v
kept_check (some c) none d v e = absurd v

kept_there : (o p : Option HealthCheck) → Keeps o p → is_some o ≡ is_some p
kept_there none none v = refl
kept_there (some c) (some d) v = refl
kept_there none (some d) v = absurd v
kept_there (some c) none v = absurd v

fresh_lem :
    (same_id : ℕ → ℕ → Bool) (srv : ℕ) (servers : List ℕ)
    → is_duplicate same_id srv servers ≡ false
    → count srv servers ≡ 0
fresh_lem same_id srv [] e = refl
fresh_lem same_id srv (s ∷ servers) e = elim (Bool-cases (s == srv)) [
  | inl f ↦ ground (arith, e, f)
  | inr f ↦ ground (arith, f, fresh_lem same_id srv servers (ground (arith, e)))
]

module _ {S D : Type 0} (key_of : ℕ → ClientKey) where
  -- The limits do not change with what a check has found.
  changed-IsBalancer :
      (srv : ℕ) (f : HealthCheck → HealthCheck) (lb : LoadBalancer S D)
      → ((c : HealthCheck) → (f c).max_connections ≡ c.max_connections)
      → IsBalancer key_of lb
      → IsBalancer key_of (record lb { health = change srv f lb.health })
  changed-IsBalancer srv f lb h w = record {
    listed = w.listed;
    mapped = w.mapped;
    keyed = w.keyed;
    ordered = w.ordered;
    tracked = w.tracked;
    registered = w.registered;
    checked = λ s n. sym (kept_there _ _ (change_lem s srv f lb.health h)) ∙ w.checked s n;
    bounded = λ s d e.
        let (c, found, same) = kept_check _ _ d (change_lem s srv f lb.health h) e in
        elim (w.bounded s c found) [
          | inl z ↦ inl (sym same ∙ z)
          | inr l ↦ inr (omega (arith, same, l))
        ];
    narrow = λ s d e.
        let (c, found, same) = kept_check _ _ d (change_lem s srv f lb.health h) e in
        omega (arith, same, w.narrow s c found);
  }

  -- A server that is not registered has no clients.
  unlisted_lem :
      (srv : ℕ) (lb : LoadBalancer S D)
      → IsBalancer key_of lb
      → count srv lb.servers ≡ 0
      → length (lb.conn_table srv) ≡ 0
  unlisted_lem srv lb w e =
      empty_lem (lb.conn_table srv)
        (λ c h. let old = w.listed srv c h in omega (arith, e, w.registered (key_of c) srv old.0))
    where
      empty_lem : (xs : List ℕ) → ((c : ℕ) → 0 < count c xs → ⊥) → length xs ≡ 0
      empty_lem [] h = refl
      empty_lem (x ∷ xs) h =
          let here : (x == x) ≡ true = ground arith in absurd (h x (ground (arith, here)))

  -- A new server has a check, and no clients.
  pub served_lem :
      (srv : ℕ) (check : HealthCheck) (to : ℕ → Option D) (lb : LoadBalancer S D)
      → count srv lb.servers ≡ 0
      → check.max_connections < 4294967296
      → IsBalancer key_of lb
      → IsBalancer key_of (record lb {
        servers = lb.servers ++ srv ∷ [];
        to_server = to;
        health = (srv, check) ∷ lb.health;
      })
  served_lem srv check to lb new narrow w =
      let empty = unlisted_lem srv lb w new in
      record {
        listed = w.listed;
        mapped = w.mapped;
        keyed = w.keyed;
        ordered = w.ordered;
        tracked = w.tracked;
        registered =
            λ k s e. omega (arith, w.registered k s e, count-append s lb.servers (srv ∷ []));
        checked = λ s n. elim (Bool-cases (srv == s)) [
          | inl q ↦ rw q refl
          | inr q ↦ rw q (w.checked s (ground (arith, q, n, count-append s lb.servers (srv ∷ []))))
        ];
        bounded = λ s c e. elim (Bool-cases (srv == s)) [
          | inl q ↦
              let same : srv ≡ s = ground arith in
              inr (omega (arith, empty, ap (λ s. length (lb.conn_table s)) same))
          | inr q ↦ w.bounded s c (rw q at e)
        ];
        narrow = λ s c e. elim (Bool-cases (srv == s)) [
          | inl q ↦ rw (sym (ap limit (rw q at e))) narrow
          | inr q ↦ w.narrow s c (rw q at e)
        ];
      }
    where
      limit : Option HealthCheck → ℕ
      limit none = 0
      limit (some x) = x.max_connections

module _ {S D K : Type 0} (key_of : ℕ → ClientKey) (callback : Callback D → K)
    (same_id : ℕ → ℕ → Bool) (a n : ℕ) (e : Engine K) (v : IsEngine a n e) where
  schedule_health_check-Returns :
      (srv : ℕ) (lb : LoadBalancer S D)
      → e.next_id < max_u64
      → IsBalancer key_of lb
      → Returns {A = LoadBalancer S D × Engine K}
          (λ r. IsBalancer key_of r.0 × (r.0.servers ≡ lb.servers) × IsNext a n e v r.1)
          (schedule_health_check callback srv lb e)
  unfolding schedule_health_check
  schedule_health_check-Returns srv lb h w =
      Returns-elim
        (λ r.
          Returns {A = LoadBalancer S D × Engine K}
            (λ r. IsBalancer key_of r.0 × (r.0.servers ≡ lb.servers) × IsNext a n e v r.1)
            (elim r [
              | panic ↦ panic
              | ok (f, id) ↦
                  ok (record lb { health = change srv (λ c. record c { tick = id }) lb.health }, f)
            ]))
        (schedule_after (pos health_interval) (callback (check_health srv)) e)
        (schedule_after-Returns a n e v health_interval (callback (check_health srv)) h)
        (λ r m.
          (changed-IsBalancer key_of srv (λ c. record c { tick = r.1 }) lb (λ c. refl) w, refl, m))

  -- What `add_server` gives for a server's address and a Sender.
  abbrev IsServed : ℕ → LoadBalancer S D → Option (LoadBalancer S D × Engine K) → Type 0
  IsServed srv lb none = lb.closed || is_duplicate same_id srv lb.servers ≡ true
  IsServed srv lb (some (b, f)) =
      (lb.closed || is_duplicate same_id srv lb.servers ≡ false)
      × IsBalancer key_of b
      × (b.servers ≡ lb.servers ++ srv ∷ [])
      × IsNext a n e v f

  -- A server is refused exactly by a closed balancer or as a duplicate. Otherwise it is the last of the
  -- servers and its first health check is scheduled, without a panic while the engine has an id left,
  -- and the balancer's tables agree.
  add_server-IsBalancer :
      (srv max_connections : ℕ) (send : D) (lb : LoadBalancer S D)
      → max_connections < 4294967296
      → e.next_id < max_u64
      → IsBalancer key_of lb
      → Returns {A = Option (LoadBalancer S D × Engine K)}
          (IsServed srv lb)
          (add_server callback same_id (some srv) max_connections (some send) lb e)
  unfolding add_server
  add_server-IsBalancer srv max_connections send lb narrow h w =
      elim (Bool-cases (lb.closed || is_duplicate same_id srv lb.servers)) [
        | inl r ↦ rw r r
        | inr r ↦
            let new = fresh_lem same_id srv lb.servers (ground (arith, r)) in
            let check : HealthCheck = record {
              tick = 0;
              timeout = 0;
              serial = 0;
              healthy = true;
              max_connections = max_connections;
            } in
            let to : ℕ → Option D = λ s. if s == srv then some send else lb.to_server s in
            let b = record lb {
              servers = lb.servers ++ srv ∷ [];
              to_server = to;
              health = (srv, check) ∷ lb.health;
            } in
            rw r (
              Returns-elim
                (λ r.
                  Returns {A = Option (LoadBalancer S D × Engine K)} (IsServed srv lb)
                    (elim r [ panic ↦ panic | ok (l, f) ↦ ok (some (l, f)) ]))
                (schedule_health_check callback srv b e)
                (schedule_health_check-Returns srv b h
                  (served_lem key_of srv check to lb new narrow w))
                (λ x m. (r, m.0, m.1, m.2)))
      ]
