-- ===== src/Balancer/Sweep.antt =====
-- The cleanup's sweep over the clients.
use balancer_go.Base.{
  ℕ, ◌<◌, ◌≡◌, ◌⊎◌, refl, ap, sym, ◌∙◌, Bool, true, false, ◌==◌, if◌then◌else◌, none, some, List,
  [], ◌∷◌, arith, Bool-cases, Option-cases, inl, inr,
}
use balancer_go.Model.{ClientKey}
use balancer_go.Model.Keys.{same_key}
use balancer_go.Balancer.Tables.{put-same, put-other, count, is_some}
use balancer_go.Balancer.{LoadBalancer, forget_route, is_expired, sweep}
use balancer_go.Balancer.Invariant.{IsBalancer}
use balancer_go.Balancer.Forget.{forget_route-IsBalancer}

module _ {S D : Type 0} (key_of : ℕ → ClientKey) (now : ℕ) where
  abbrev is_overdue : ClientKey → LoadBalancer S D → Bool
  is_overdue k lb = is_expired now lb.timeouts (lb.connections k)

  step : ℕ → LoadBalancer S D → LoadBalancer S D
  step cl lb = if is_overdue (key_of cl) lb then forget_route key_of (key_of cl) lb else lb

  -- A key keeps its mapping, or was overdue and has none.
  abbrev HasFate : ClientKey → LoadBalancer S D → LoadBalancer S D → Type 0
  HasFate k a b =
      ((b.connections k ≡ a.connections k) × (b.by_key k ≡ a.by_key k))
      ⊎ ((is_overdue k a ≡ true) × (b.connections k ≡ none) × (b.by_key k ≡ none))

  is_overdue-ap :
      (k : ClientKey) (a b : LoadBalancer S D)
      → b.timeouts ≡ a.timeouts
      → b.connections k ≡ a.connections k
      → is_overdue k b ≡ is_overdue k a
  is_overdue-ap k a b t e =
      ap (λ t. is_expired now t (b.connections k)) t ∙ ap (is_expired now a.timeouts) e

  is_overdue-none :
      (k : ClientKey) (lb : LoadBalancer S D) → lb.connections k ≡ none → is_overdue k lb ≡ false
  is_overdue-none k lb e = ap (is_expired now lb.timeouts) e

  HasFate-trans :
      (k : ClientKey) (a b c : LoadBalancer S D)
      → b.timeouts ≡ a.timeouts
      → HasFate k a b
      → HasFate k b c
      → HasFate k a c
  HasFate-trans k a b c t (inl (e, f)) (inl (g, h)) = inl (g ∙ e, h ∙ f)
  HasFate-trans k a b c t (inl (e, f)) (inr (o, g, h)) =
      inr (sym (is_overdue-ap k a b t e) ∙ o, g, h)
  HasFate-trans k a b c t (inr (o, e, f)) (inl (g, h)) = inr (o, g ∙ e, h ∙ f)
  HasFate-trans k a b c t (inr (o, e, f)) (inr (p, g, h)) = inr (o, g, h)

  step-HasFate : (k : ClientKey) (cl : ℕ) (lb : LoadBalancer S D) → HasFate k lb (step cl lb)
  unfolding step forget_route
  step-HasFate k cl lb = elim (Bool-cases (is_overdue (key_of cl) lb)) [
    | inl o ↦ elim (same_key k (key_of cl)) [
      | yes p ↦ simp o (
          inr (
            ap (λ k. is_overdue k lb) p ∙ o,
            put-same same_key (key_of cl) k none lb.connections p,
            put-same same_key (key_of cl) k none lb.by_key p,
          ))
      | no n ↦ simp o (
          inl (
            put-other same_key (key_of cl) k none lb.connections n,
            put-other same_key (key_of cl) k none lb.by_key n,
          ))
    ]
    | inr o ↦ simp o (inl (refl, refl))
  ]

  step-timeouts : (cl : ℕ) (lb : LoadBalancer S D) → (step cl lb).timeouts ≡ lb.timeouts
  unfolding step forget_route
  step-timeouts cl lb = elim (Bool-cases (is_overdue (key_of cl) lb)) [
    | inl o ↦ simp o refl
    | inr o ↦ simp o refl
  ]

  step_lem :
      (k : ClientKey) (cl : ℕ) (lb : LoadBalancer S D)
      → key_of cl ≡ k
      → is_overdue k (step cl lb) ≡ false
  unfolding step forget_route
  step_lem k cl lb p = elim (Bool-cases (is_overdue (key_of cl) lb)) [
    | inl o ↦ simp o (
        is_overdue-none k (forget_route key_of (key_of cl) lb)
          (put-same same_key (key_of cl) k none lb.connections (sym p)))
    | inr o ↦ simp o (sym (ap (λ k. is_overdue k lb) p) ∙ o)
  ]

  step-IsBalancer :
      (cl : ℕ) (lb : LoadBalancer S D) → IsBalancer key_of lb → IsBalancer key_of (step cl lb)
  unfolding step
  step-IsBalancer cl lb w = elim (Bool-cases (is_overdue (key_of cl) lb)) [
    | inl o ↦ simp o (forget_route-IsBalancer key_of (key_of cl) lb w)
    | inr o ↦ simp o w
  ]

  sweep_fate :
      (k : ClientKey) (cls : List ℕ) (lb : LoadBalancer S D)
      → HasFate k lb (sweep key_of now cls lb)
  unfolding sweep step
  sweep_fate k [] lb = inl (refl, refl)
  sweep_fate k (cl ∷ rest) lb =
      HasFate-trans k lb (step cl lb) (sweep key_of now rest (step cl lb)) (step-timeouts cl lb)
        (step-HasFate k cl lb) (sweep_fate k rest (step cl lb))

  after :
      (k : ClientKey) (a b : LoadBalancer S D)
      → b.timeouts ≡ a.timeouts
      → is_overdue k a ≡ false
      → HasFate k a b
      → is_overdue k b ≡ false
  after k a b t o (inl (e, f)) = is_overdue-ap k a b t e ∙ o
  after k a b t o (inr (p, e, f)) = is_overdue-none k b e

  sweep-timeouts :
      (cls : List ℕ) (lb : LoadBalancer S D) → (sweep key_of now cls lb).timeouts ≡ lb.timeouts
  unfolding sweep step
  sweep-timeouts [] lb = refl
  sweep-timeouts (cl ∷ rest) lb = sweep-timeouts rest (step cl lb) ∙ step-timeouts cl lb

  sweep_reached :
      (k : ClientKey) (cl : ℕ) (cls : List ℕ) (lb : LoadBalancer S D)
      → 0 < count cl cls
      → key_of cl ≡ k
      → is_overdue k (sweep key_of now cls lb) ≡ false
  unfolding sweep step
  sweep_reached k cl [] lb h p = absurd (omega (arith, h))
  sweep_reached k cl (x ∷ rest) lb h p = elim (Bool-cases (x == cl)) [
    | inl e ↦
        let same : x ≡ cl = ground arith in
        after k (step x lb) (sweep key_of now rest (step x lb)) (sweep-timeouts rest (step x lb))
          (step_lem k x lb (ap key_of same ∙ p)) (sweep_fate k rest (step x lb))
    | inr e ↦ sweep_reached k cl rest (step x lb) (ground (arith, h)) p
  ]

  sweep-IsBalancer :
      (cls : List ℕ) (lb : LoadBalancer S D)
      → IsBalancer key_of lb
      → IsBalancer key_of (sweep key_of now cls lb)
  unfolding sweep step
  sweep-IsBalancer [] lb w = w
  sweep-IsBalancer (cl ∷ rest) lb w = sweep-IsBalancer rest (step cl lb) (step-IsBalancer cl lb w)

  overdue-mapped :
      (k : ClientKey) (lb : LoadBalancer S D)
      → IsBalancer key_of lb
      → is_overdue k lb ≡ true
      → (s : ℕ) × (lb.by_key k ≡ some s)
  overdue-mapped k lb w o = elim (Option-cases (lb.by_key k)) [
    | inr found ↦ found
    | inl e ↦ elim (Option-cases (lb.connections k)) [
      | inl f ↦ ground (arith, o, is_overdue-none k lb f)
      | inr (c, f) ↦ ground (arith, sym (ap is_some e) ∙ w.tracked k ∙ ap is_some f)
    ]
  ]

  -- A cleanup over the clients of a balancer whose tables agree takes away the mappings whose connection
  -- has expired, and no others; the tables agree afterwards.
  pub sweep_lem :
      (lb : LoadBalancer S D)
      → IsBalancer key_of lb
      → let swept = sweep key_of now lb.client_order lb in
        IsBalancer key_of swept
        × ((k : ClientKey)
            → (swept.by_key k
                ≡ (if is_expired now lb.timeouts (lb.connections k) then none else lb.by_key k))
              × (swept.connections k ≡ (
                  if is_expired now lb.timeouts (lb.connections k)
                  then none
                  else lb.connections k)))
  sweep_lem lb w = (
    sweep-IsBalancer lb.client_order lb w,
    λ k. elim (Bool-cases (is_overdue k lb)) [
      | inl o ↦ elim (sweep_fate k lb.client_order lb) [
        | inl (e, f) ↦
            let (s, m) = overdue-mapped k lb w o in
            let (c, there, once) = w.mapped k s m in
            let reached =
              sweep_reached k c lb.client_order lb (w.ordered k c there) (w.keyed k c there) in
            let same =
              is_overdue-ap k lb (sweep key_of now lb.client_order lb)
                (sweep-timeouts lb.client_order lb) e in
            ground (arith, sym reached ∙ same ∙ o)
        | inr (p, e, f) ↦ simp o (f, e)
      ]
      | inr o ↦ elim (sweep_fate k lb.client_order lb) [
        | inl (e, f) ↦ simp o (f, e)
        | inr (p, e, f) ↦ ground (arith, o, p)
      ]
    ],
  )
