-- ===== src/Ranges/Count.antt =====
-- How many positions a test picks out below a bound, and the bytes of separated ranges as such a
-- count.
use balancer_go.Base.{
  ℕ, zero, suc, ◌+◌, ◌-◌, ◌≤◌, ◌<◌, ◌≡◌, refl, Bool, true, false, ◌&&◌, ◌||◌, List, [], ◌∷◌,
  if◌then◌else◌, arith, min, not, ap, inl, inr, Bool-cases,
}
use native.Mathlib.Decide.{ℕ_discrete}
use balancer_go.Ranges.{Range, within, covered, IsSeparated, IsBelow, bytes, covered_below}

pub count : ℕ → (ℕ → Bool) → ℕ
count zero p = 0
count (suc n) p = (if p n then 1 else 0) + count n p

pub count-cong : (n : ℕ) (p q : ℕ → Bool) → ((x : ℕ) → x < n → p x ≡ q x) → count n p ≡ count n q
unfolding count
count-cong zero p q h = refl
count-cong (suc n) p q h = ground (arith, h n, count-cong n p q (λ x k. h x (omega arith)))

pub count-or :
    (n : ℕ) (p q : ℕ → Bool)
    → count n (λ x. p x || q x) + count n (λ x. p x && q x) ≡ count n p + count n q
unfolding count
count-or zero p q = refl
count-or (suc n) p q = ground (arith, count-or n p q)

pub count-none : (n : ℕ) (p : ℕ → Bool) → ((x : ℕ) → x < n → p x ≡ false) → count n p ≡ 0
unfolding count
count-none zero p h = refl
count-none (suc n) p h = ground (arith, h n, count-none n p (λ x k. h x (omega arith)))

pub count-within : (n : ℕ) (r : Range) → count n (λ x. within x r) ≡ min n r.end - min n r.start
unfolding count
count-within zero r = omega arith
count-within (suc n) r = ground (arith, count-within n r)

pub count-bytes :
    (lo hi : ℕ) (rs : List Range)
    → IsSeparated lo rs
    → IsBelow hi rs
    → count hi (λ x. covered x rs) ≡ bytes rs
count-bytes lo hi [] s u = count-none hi _ (λ x k. refl)
count-bytes lo hi (r ∷ rs) s u = omega (
  arith,
  count-or hi (λ x. within x r) (λ x. covered x rs),
  count-none hi (λ x. within x r && covered x rs)
      (λ x k. ground (arith, covered_below x (suc r.end) rs s.2)),
  count-within hi r,
  count-bytes (suc r.end) hi rs s.2 u.1,
)

-- A test that holds wherever another does picks out more exactly when it holds somewhere else.
pub count-le :
    (n : ℕ) (p q : ℕ → Bool) → ((x : ℕ) → x < n → p x ≡ true → q x ≡ true) → count n p ≤ count n q
unfolding count
count-le zero p q h = omega arith
count-le (suc n) p q h = ground (arith, h n, count-le n p q (λ x k. h x (omega arith)))

pub count-lt :
    (n : ℕ) (p q : ℕ → Bool)
    → ((x : ℕ) → x < n → p x ≡ true → q x ≡ true)
    → count n p < count n q
    → (x : ℕ) × (x < n) × (p x ≡ false) × (q x ≡ true)
unfolding count
count-lt zero p q h k = absurd (omega arith)
count-lt (suc n) p q h k = elim (Bool-cases (p n)) [
  | inl e ↦
      let (x, a, b, c) = count-lt n p q (λ x l. h x (omega arith)) (ground (arith, h n)) in
      (x, omega arith, b, c)
  | inr e ↦ elim (Bool-cases (q n)) [
    | inl f ↦ (n, omega arith, e, f)
    | inr f ↦
        let (x, a, b, c) = count-lt n p q (λ x l. h x (omega arith)) (ground arith) in
        (x, omega arith, b, c)
  ]
]

pub lt-count :
    (n : ℕ) (p q : ℕ → Bool) (y : ℕ)
    → ((x : ℕ) → x < n → p x ≡ true → q x ≡ true)
    → y < n
    → p y ≡ false
    → q y ≡ true
    → count n p < count n q
unfolding count
lt-count zero p q y h k a b = absurd (omega arith)
lt-count (suc n) p q y h k a b = elim (ℕ_discrete y n) [
  | yes e ↦ ground (arith, e, ap p e, ap q e, count-le n p q (λ x k. h x (omega arith)))
  | no e ↦ ground (arith, h n, lt-count n p q y (λ x k. h x (omega arith)) (omega arith) a b)
]

pub count-diff :
    (n : ℕ) (p q : ℕ → Bool)
    → count n (λ x. p x && q x) + count n (λ x. p x && not (q x)) ≡ count n p
unfolding count
count-diff zero p q = refl
count-diff (suc n) p q = ground (arith, count-diff n p q)
