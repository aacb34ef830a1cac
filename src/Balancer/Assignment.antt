-- ===== src/Balancer/Assignment.antt =====
-- simulator/balancer/balancer.go: the end of `Route`, where a mapping is added.
use balancer_go.Base.{
  ℕ, ◌+◌, ◌<◌, ◌≡◌, ◌⊎◌, refl, ap, sym, ◌∙◌, false, ◌&&◌, ◌==◌, if◌then◌else◌, none, some, List, [],
  ◌∷◌, ◌++◌, length, length-append, arith, Bool-cases, inl, inr,
}
use balancer_go.Model.{ClientKey}
use balancer_go.Model.Keys.{same_key}
use balancer_go.Connections.{state_half_open}
use balancer_go.Balancer.Tables.{
  put, put-same, put-other, count, count-append, is_some, lookup, some-injective,
}
use balancer_go.Balancer.{LoadBalancer, HealthCheck, Connection, assign}
use balancer_go.Balancer.Invariant.{IsBalancer}

-- A server that is not at its limit.
abbrev pub HasRoom : ℕ → HealthCheck → Type 0
HasRoom mapped check = (check.max_connections ≡ 0) ⊎ (mapped < check.max_connections)

module _ {S D : Type 0} (key_of : ℕ → ClientKey) (cl srv now : ℕ) (lb : LoadBalancer S D)
    (w : IsBalancer key_of lb) (new : lb.by_key (key_of cl) ≡ none)
    (mine : lb.clients (key_of cl) ≡ some cl) where
  abbrev table : ℕ → List ℕ
  table s = if s == srv then lb.conn_table s ++ cl ∷ [] else lb.conn_table s

  unlisted : (s c : ℕ) → key_of c ≡ key_of cl → count c (lb.conn_table s) ≡ 0
  unlisted s c p = elim (Bool-cases (count c (lb.conn_table s) == 0)) [
    | inl e ↦ ground arith
    | inr e ↦
        let old = w.listed s c (ground arith) in ground (arith, sym (ap lb.by_key p ∙ new) ∙ old.0)
  ]

  table_lem :
      (s c : ℕ)
      → count c (table s) ≡ count c (lb.conn_table s) + (if s == srv && (c == cl) then 1 else 0)
  table_lem s c = ground (arith, count-append c (lb.conn_table s) (cl ∷ []))

  assigned-mapped :
      (k : ClientKey) (s : ℕ)
      → put same_key (key_of cl) (some srv) lb.by_key k ≡ some s
      → (c : ℕ) × (lb.clients k ≡ some c) × (count c (table s) ≡ 1)
  assigned-mapped k s e = elim (same_key k (key_of cl)) [
    | yes p ↦
        let here : srv ≡ s =
          some-injective (sym (put-same same_key (key_of cl) k (some srv) lb.by_key p) ∙ e) in
        let count_of = table_lem s cl in
        (cl, ap lb.clients p ∙ mine, ground (arith, here, table_lem s cl, unlisted s cl refl))
    | no n ↦
        let (c, there, once) =
          w.mapped k s (sym (put-other same_key (key_of cl) k (some srv) lb.by_key n) ∙ e) in
        let other : (c == cl) ≡ false = elim (Bool-cases (c == cl)) [
          | inl q ↦
              let same : c ≡ cl = ground arith in
              absurd (n (sym (w.keyed k c there) ∙ ap key_of same))
          | inr q ↦ q
        ] in
        (c, there, ground (arith, table_lem s c, other, once))
  ]

  assigned-listed :
      (s c : ℕ)
      → 0 < count c (table s)
      → (put same_key (key_of cl) (some srv) lb.by_key (key_of c) ≡ some s)
        × (lb.clients (key_of c) ≡ some c)
  assigned-listed s c h = elim (Bool-cases (count c (lb.conn_table s) == 0)) [
    | inl z ↦
        let here : s ≡ srv = ground (arith, h, table_lem s c) in
        let same : c ≡ cl = ground (arith, h, table_lem s c) in
        (
          put-same same_key (key_of cl) (key_of c) (some srv) lb.by_key (ap key_of same)
              ∙ ap some (sym here),
          ap lb.clients (ap key_of same) ∙ mine ∙ ap some (sym same),
        )
    | inr z ↦
        let old = w.listed s c (ground arith) in
        let other : ¬ (key_of c ≡ key_of cl) = λ p. ground (arith, z, unlisted s c p) in
        (put-other same_key (key_of cl) (key_of c) (some srv) lb.by_key other ∙ old.0, old.1)
  ]

  pub assign-IsBalancer :
      0 < count srv lb.servers
      → ((check : HealthCheck)
          → lookup srv lb.health ≡ some check
          → HasRoom (length (lb.conn_table srv)) check)
      → IsBalancer key_of (assign key_of cl srv now lb)
  unfolding assign
  assign-IsBalancer there room =
      let key = key_of cl in
      let made : Connection = record {
        pointer = lb.next_pointer;
        state = record { last_activity = now; phase = state_half_open };
      } in
      record {
        listed = assigned-listed;
        mapped = assigned-mapped;
        keyed = w.keyed;
        ordered = w.ordered;
        tracked = λ k. elim (same_key k key) [
          | yes p ↦
              ap is_some (put-same same_key key k (some srv) lb.by_key p)
              ∙ sym (ap is_some (put-same same_key key k (some made) lb.connections p))
          | no n ↦
              ap is_some (put-other same_key key k (some srv) lb.by_key n)
              ∙ w.tracked k
              ∙ sym (ap is_some (put-other same_key key k (some made) lb.connections n))
        ];
        registered = λ k s e. elim (same_key k key) [
          | yes p ↦
              let here : srv ≡ s =
                some-injective (sym (put-same same_key key k (some srv) lb.by_key p) ∙ e) in
              rw here at there
          | no n ↦ w.registered k s (sym (put-other same_key key k (some srv) lb.by_key n) ∙ e)
        ];
        checked = w.checked;
        bounded = λ s check e. elim (Bool-cases (s == srv)) [
          | inl q ↦
              let here : s ≡ srv = ground arith in
              let longer = length-append (lb.conn_table s) (cl ∷ []) in
              elim (room check (ap (λ s. lookup s lb.health) (sym here) ∙ e)) [
                | inl z ↦ inl z
                | inr z ↦
                    simp q (inr (omega (arith, longer, z, ap (λ s. length (lb.conn_table s)) here)))
              ]
          | inr q ↦ simp q (w.bounded s check e)
        ];
        narrow = w.narrow;
      }
