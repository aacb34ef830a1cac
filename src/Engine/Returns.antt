-- ===== src/Engine/Returns.antt =====
-- simulator/engine/engine.go: `ScheduleAfter` for a delay that is not negative.
use balancer_go.Base.{
  refl, ap, ℕ, ◌+◌, ◌≤◌, ◌<◌, ◌≡◌, false, ◌-◌, ltb, ◌==◌, arith, max_u64, Bool-cases, inl, inr,
}
use balancer_go.Base.Int.{pos}
use balancer_go.Engine.{Engine, Result, ok, panic, schedule_at, schedule_after}
use balancer_go.Engine.Queue.{IsEngine}
use balancer_go.Engine.Operations.{IsKept, IsKept-refl, Scheduled, schedule_after_lem}

-- The call returns, with a result of which `P` holds.
abbrev pub Returns {ℓ} : {A : Type ℓ} → (A → Type 0) → Result A → Type 0
Returns P (ok x) = P x
Returns P panic = ⊥

-- What holds of every result that `P` allows holds of the call's.
pub Returns-elim {ℓ μ} :
    {A : Type ℓ} {P : A → Type 0} (R : Result A → Type μ) (r : Result A)
    → Returns P r
    → ((x : A) → P x → R (ok x))
    → R r
Returns-elim R (ok x) h f = f x h
Returns-elim R panic h f = absurd h

pub Returns-both {ℓ} :
    {A : Type ℓ} (P Q : A → Type 0) (r : Result A)
    → Returns P r
    → Returns Q r
    → Returns (λ x. P x × Q x) r
Returns-both P Q (ok x) p q = (p, q)
Returns-both P Q panic p q = p

-- What holds of the value that the call returns holds of its result.
pub Returns-with {ℓ} :
    {A : Type ℓ} (P Q : A → Type 0) (r : Result A)
    → Returns P r
    → ((x : A) → r ≡ ok x → Q x)
    → Returns (λ x. P x × Q x) r
Returns-with P Q (ok x) p q = (p, q x refl)
Returns-with P Q panic p q = p

abbrev value_or {ℓ} : {A : Type ℓ} → A → Result A → A
value_or x (ok y) = y
value_or x panic = x

pub ok-injective {ℓ} : {A : Type ℓ} (x y : A) → ok x ≡ ok y → x ≡ y
ok-injective x y e = ap (value_or x) e

module _ {K : Type 0} (a i : ℕ) (e : Engine K) (v : IsEngine a i e) where
  -- What a call leaves of the engine.
  pub record IsNext (f : Engine K) : Type 0 where
    pub valid : IsEngine a i f
    pub kept : IsKept e f
    pub ids : f.next_id ≤ e.next_id + 1

  next_id-lem :
      (delay : ℕ) (callback : K)
      → e.next_id < max_u64
      → Returns (λ r. r.0.next_id ≤ e.next_id + 1) (schedule_after (pos delay) callback e)
  unfolding schedule_after schedule_at
  next_id-lem delay callback h =
      let at = e.now + delay in
      let left : (e.next_id == max_u64) ≡ false = ground arith in
      let past : ltb at e.now ≡ false = ground arith in
      elim (Bool-cases (ltb (e.end_time - e.now) delay)) [
        | inl f ↦ rw f (omega arith)
        | inr f ↦ elim (Bool-cases (ltb e.end_time at)) [
          | inl g ↦ rw (f, past, g) (omega arith)
          | inr g ↦ rw (f, past, g, left) (omega arith)
        ]
      ]

  -- A call for any delay returns while the engine has ids left, and keeps the engine valid.
  pub schedule_after-Returns :
      (delay : ℕ) (callback : K)
      → e.next_id < max_u64
      → Returns (λ r. IsNext r.0) (schedule_after (pos delay) callback e)
  schedule_after-Returns delay callback h =
      cases (schedule_after (pos delay) callback e) (schedule_after_lem a i e v delay callback)
        (next_id-lem delay callback h)
    where
      cases :
          (r : Result (Engine K × ℕ))
          → Scheduled a i e (e.now + delay) callback r
          → Returns (λ r. r.0.next_id ≤ e.next_id + 1) r
          → Returns (λ r. IsNext r.0) r
      cases r (Scheduled.too_late late eq) n =
          rw eq (record { valid = v; kept = IsKept-refl e; ids = omega arith })
      cases r (Scheduled.overflows full eq t) n = absurd (omega arith)
      cases r (Scheduled.is_queued_now f id eq w k z q t j) n =
          rw eq (record { valid = w; kept = k; ids = rw eq at n })
