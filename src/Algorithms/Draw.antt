-- ===== src/Algorithms/Draw.antt =====
-- simulator/algorithms/random.go: the draw of `Random.Pick`.
use balancer_go.Base.{
  ℕ, zero, suc, ◌+◌, ◌-◌, ◌≤◌, ◌<◌, ◌≡◌, refl, true, false, List, [], ◌∷◌, ◌==◌, some, length,
  get_elem?, arith, ◌⊎◌, inl, inr, Bool-cases,
}
use balancer_go.Algorithms.{
  Candidate, is_available, is_open, no_available_backends, picked, failed, available_from,
  random_pick,
}

Kept : ℕ → List Candidate → ℕ → Type 0
Kept base cs i = (base ≤ i) × (i < base + length cs) × (is_open cs (i - base) ≡ true)

Kept-later :
    (base : ℕ) (c : Candidate) (cs : List Candidate) (i : ℕ)
    → Kept (base + 1) cs i
    → Kept base (c ∷ cs) i
unfolding Kept
Kept-later base c cs i k =
    let e : i - base ≡ suc (i - (base + 1)) = omega (arith, k.0) in
    (omega (arith, k.0), omega (arith, k.1), rw e k.2)

chosen :
    (base : ℕ) (c : Candidate) (cs : List Candidate) (j i : ℕ)
    → is_available c ≡ true
    → ((j i : ℕ) → get_elem? (available_from (base + 1) cs) j ≡ some i → Kept (base + 1) cs i)
    → get_elem? (base ∷ available_from (base + 1) cs) j ≡ some i
    → Kept base (c ∷ cs) i
unfolding Kept
chosen base c cs zero i e ih h =
    let same : base ≡ i = ground arith in
    let z : i - base ≡ 0 = omega arith in (omega arith, omega arith, rw z e)
chosen base c cs (suc j) i e ih h = Kept-later base c cs i (ih j i h)

available_from-Kept :
    (base : ℕ) (cs : List Candidate) (j i : ℕ)
    → get_elem? (available_from base cs) j ≡ some i
    → Kept base cs i
unfolding available_from
available_from-Kept base [] j i h = cc
available_from-Kept base (c ∷ cs) j i h = elim (Bool-cases (is_available c)) [
  | inl e ↦ chosen base c cs j i e (available_from-Kept (base + 1) cs) (rw e at h)
  | inr e ↦ Kept-later base c cs i (available_from-Kept (base + 1) cs j i (rw e at h))
]

none_available :
    (base : ℕ) (cs : List Candidate) (i : ℕ)
    → length (available_from base cs) ≡ 0
    → is_open cs i ≡ false
unfolding available_from
none_available base [] i h = refl
none_available base (c ∷ cs) zero h = ground arith
none_available base (c ∷ cs) (suc i) h = ground (arith, none_available (base + 1) cs i)

get_elem?-lt {ℓ} :
    {A : Type ℓ} (xs : List A) (i : ℕ) → i < length xs → (a : A) × (get_elem? xs i ≡ some a)
get_elem?-lt [] i h = absurd (omega arith)
get_elem?-lt (x ∷ xs) zero h = (x, refl)
get_elem?-lt (x ∷ xs) (suc i) h = get_elem?-lt xs i (omega arith)

Kept-is_open : (cs : List Candidate) (i : ℕ) → Kept 0 cs i → is_open cs i ≡ true
unfolding Kept
Kept-is_open cs i k = let z : i - 0 ≡ i = omega arith in rw z at k.2

-- When `Intn` keeps its promise to return a number below its argument, `Random.Pick` does not panic:
-- it picks an available candidate, or fails because no candidate is available.
pub random_pick_lem :
    (intn : ℕ → ℕ) (candidates : List Candidate)
    → ((n : ℕ) → 0 < n → intn n < n)
    → ((random_pick intn candidates ≡ some (failed no_available_backends))
        × ((i : ℕ) → is_open candidates i ≡ false))
      ⊎ ((i : ℕ) × (random_pick intn candidates ≡ some (picked i)) × (is_open candidates i ≡ true))
unfolding random_pick
random_pick_lem intn cs below =
    let available = available_from 0 cs in
    elim (Bool-cases (length available == 0)) [
      | inl e ↦ rw e (inl (refl, λ i. none_available 0 cs i (ground arith)))
      | inr e ↦
          let n = length available in
          let (i, at) = get_elem?-lt available (intn n) (below n (ground arith)) in
          let kept = available_from-Kept 0 cs (intn n) i at in
          rw (e, at) (inr (i, refl, Kept-is_open cs i kept))
    ]
