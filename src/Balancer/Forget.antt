-- ===== src/Balancer/Forget.antt =====
-- A mapping that is taken away.
use balancer_go.Base.{
  ℕ, ◌≤◌, ◌≡◌, refl, ap, sym, ◌∙◌, false, ◌==◌, if◌then◌else◌, none, some, List, length, arith,
  Bool-cases, Option-cases, inl, inr,
}
use balancer_go.Model.{ClientKey}
use balancer_go.Model.Keys.{same_key}
use balancer_go.Balancer.Tables.{
  put, put-same, put-other, count, count-without_first, length-without_first, without_first,
  is_some, some-injective,
}
use balancer_go.Balancer.{LoadBalancer, forget_route}
use balancer_go.Balancer.Invariant.{IsBalancer}

module _ {S D : Type 0} (key_of : ℕ → ClientKey) (key : ClientKey) (lb : LoadBalancer S D)
    (w : IsBalancer key_of lb) where
  -- A table in which no client of the key is left, and the others are as before.
  record IsWithout (table : ℕ → List ℕ) : Type 0 where
    others : (s d : ℕ) → ¬ (key_of d ≡ key) → count d (table s) ≡ count d (lb.conn_table s)
    gone : (s d : ℕ) → key_of d ≡ key → count d (table s) ≡ 0
    shorter : (s : ℕ) → length (table s) ≤ length (lb.conn_table s)

  forgotten_lem :
      (table : ℕ → List ℕ)
      → IsWithout table
      → IsBalancer key_of (record lb {
        conn_table = table;
        by_key = put same_key key none lb.by_key;
        connections = put same_key key none lb.connections;
      })
  forgotten_lem table t =
      let by_key = put same_key key none lb.by_key in
      let other : (k : ClientKey) (s : ℕ)
          → by_key k ≡ some s
          → ¬ (k ≡ key) × (lb.by_key k ≡ some s) =
        λ k s e. elim (same_key k key) [
          | yes p ↦ ground (arith, put-same same_key key k none lb.by_key p, e)
          | no n ↦ (n, sym (put-other same_key key k none lb.by_key n) ∙ e)
        ] in
      record {
        listed = λ s c h. elim (same_key (key_of c) key) [
          | yes p ↦ absurd (omega (arith, t.gone s c p))
          | no n ↦
              let old = w.listed s c (omega (arith, t.others s c n)) in
              (put-other same_key key (key_of c) none lb.by_key n ∙ old.0, old.1)
        ];
        mapped = λ k s e.
            let (n, old) = other k s e in
            let (c, there, once) = w.mapped k s old in
            let different : ¬ (key_of c ≡ key) = λ p. n (sym (w.keyed k c there) ∙ p) in
            (c, there, t.others s c different ∙ once);
        keyed = w.keyed;
        ordered = w.ordered;
        tracked = λ k. elim (same_key k key) [
          | yes p ↦
              ap is_some (put-same same_key key k none lb.by_key p)
              ∙ sym (ap is_some (put-same same_key key k none lb.connections p))
          | no n ↦
              ap is_some (put-other same_key key k none lb.by_key n)
              ∙ w.tracked k
              ∙ sym (ap is_some (put-other same_key key k none lb.connections n))
        ];
        registered = λ k s e. w.registered k s (other k s e).1;
        checked = w.checked;
        bounded = λ s check e. elim (w.bounded s check e) [
          | inl f ↦ inl f
          | inr f ↦ inr (omega (arith, t.shorter s))
        ];
        narrow = w.narrow;
      }

  unmapped_lem : lb.by_key key ≡ none → IsWithout lb.conn_table
  unmapped_lem e = record {
    others = λ s d n. refl;
    gone = λ s d p. elim (Bool-cases (count d (lb.conn_table s) == 0)) [
      | inl z ↦ ground arith
      | inr z ↦
          let old = w.listed s d (ground arith) in ground (arith, sym (ap lb.by_key p ∙ e) ∙ old.0)
    ];
    shorter = λ s. omega arith;
  }

  removed_lem :
      (srv c : ℕ)
      → lb.by_key key ≡ some srv
      → lb.clients key ≡ some c
      → count c (lb.conn_table srv) ≡ 1
      → IsWithout
          (λ s. if s == srv then without_first (some c) (lb.conn_table s) else lb.conn_table s)
  removed_lem srv c e f once = record {
    others = λ s d n.
        let different : (d == c) ≡ false = elim (Bool-cases (d == c)) [
          | inl q ↦ let same : d ≡ c = ground arith in absurd (n (ap key_of same ∙ w.keyed key c f))
          | inr q ↦ q
        ] in
        ground (arith, different, count-without_first d c (lb.conn_table s));
    gone = λ s d p. elim (Bool-cases (count d (lb.conn_table s) == 0)) [
      | inl z ↦ ground (arith, count-without_first d c (lb.conn_table s))
      | inr z ↦
          let old = w.listed s d (ground arith) in
          let here : s ≡ srv = some-injective (sym old.0 ∙ ap lb.by_key p ∙ e) in
          let same : d ≡ c = some-injective (sym old.1 ∙ ap lb.clients p ∙ f) in
          let alone : count d (lb.conn_table s) ≡ 1 = rw (here, same) once in
          ground (arith, alone, count-without_first d c (lb.conn_table s))
    ];
    shorter = λ s. ground (arith, length-without_first (some c) (lb.conn_table s));
  }

module _ {S D : Type 0} (key_of : ℕ → ClientKey) where
  -- The tables still agree when a mapping is taken away.
  pub forget_route-IsBalancer :
      (key : ClientKey) (lb : LoadBalancer S D)
      → IsBalancer key_of lb
      → IsBalancer key_of (forget_route key_of key lb)
  unfolding forget_route
  forget_route-IsBalancer key lb w = elim (Option-cases (lb.by_key key)) [
    | inl e ↦ simp e (forgotten_lem key_of key lb w lb.conn_table (unmapped_lem key_of key lb w e))
    | inr (srv, e) ↦
        let (c, f, once) = w.mapped key srv e in
        simp (e, f) (forgotten_lem key_of key lb w _ (removed_lem key_of key lb w srv c e f once))
  ]
