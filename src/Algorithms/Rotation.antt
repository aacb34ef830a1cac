-- ===== src/Algorithms/Rotation.antt =====
-- simulator/algorithms/round-robin.go: the rotation of `RoundRobin.Pick`.
use balancer_go.Base.{
  ℕ, zero, suc, ◌+◌, ◌-◌, ◌%◌, ◌≤◌, ◌<◌, ◌≡◌, refl, ap, ◌∙◌, true, false, List, [], ◌∷◌, leb, ◌==◌,
  length, arith, ◌⊎◌, inl, inr, Bool-cases,
}
use native.Mathlib.Nat.{mod-add-mod, mod-eq_of_lt, mod-lt, add-zero, add-mod_right}
use native.Mathlib.Numerals.{add-one}
use balancer_go.Algorithms.{
  Candidate, is_open, no_backends, no_available_backends, picked, failed, rotate, round_robin,
}

-- The candidate `k` places after `idx` in the rotation.
abbrev pub place : ℕ → ℕ → List Candidate → ℕ
place idx k candidates = (idx + k) % length candidates

place-zero : (idx : ℕ) (cs : List Candidate) → idx < length cs → place idx 0 cs ≡ idx
place-zero idx cs h = rw add-zero (mod-eq_of_lt h)

place-next :
    (idx k : ℕ) (cs : List Candidate)
    → 0 < length cs
    → place ((idx + 1) % length cs) k cs ≡ place idx (k + 1) cs
place-next idx k cs h = rw mod-add-mod (ap (λ (n : ℕ). n % length cs) (omega arith))

below_suc {ℓ} :
    (P : ℕ → Type ℓ) (n : ℕ) → P 0 → ((k : ℕ) → k < n → P (k + 1)) → (k : ℕ) → k < suc n → P k
below_suc P n z s zero h = z
below_suc P n z s (suc k) h = rw (add-one k) at (s k (omega arith))

rotate_lem :
    (rounds idx : ℕ) (candidates : List Candidate)
    → idx < length candidates
    → rounds ≤ length candidates
    → (((rotate rounds idx candidates).0 ≡ failed no_available_backends)
        × ((k : ℕ) → k < rounds → is_open candidates (place idx k candidates) ≡ false))
      ⊎ ((k : ℕ) × (k < rounds)
          × (rotate rounds idx candidates
              ≡ (picked (place idx k candidates), place idx (k + 1) candidates))
          × (is_open candidates (place idx k candidates) ≡ true)
          × ((j : ℕ) → j < k → is_open candidates (place idx j candidates) ≡ false))
unfolding rotate
rotate_lem zero idx cs h l = inl (refl, λ k a. absurd (omega arith))
rotate_lem (suc rounds) idx cs h l =
    let n = length cs in
    let next = (idx + 1) % n in
    let here = place-zero idx cs h in
    let Closed : ℕ → Type 0 = λ k. is_open cs (place idx k cs) ≡ false in
    let shift : (k : ℕ) → place next k cs ≡ place idx (k + 1) cs =
      λ k. place-next idx k cs (omega arith) in
    elim (Bool-cases (is_open cs idx)) [
      | inl e ↦ rw e (inr (zero, omega arith, rw here, rw here e, λ j a. absurd (omega arith)))
      | inr e ↦
          let here_closed : Closed 0 = rw here e in
          rw e (elim (rotate_lem rounds next cs (mod-lt (idx + 1) (omega arith)) (omega arith)) [
            | inl (f, closed) ↦
                inl (f, below_suc Closed rounds here_closed (λ k a. rw (shift k) at (closed k a)))
            | inr (k, a, f, o, closed) ↦ inr (
              suc k,
              omega arith,
              f ∙ (rw (shift k, shift (k + 1)) (rw add-one)),
              rw add-one at (rw (shift k) at o),
              below_suc Closed k here_closed (λ j b. rw (shift j) at (closed j b)),
            )
          ])
    ]

all_places :
    (base : ℕ) (cs : List Candidate)
    → base < length cs
    → ((k : ℕ) → k < length cs → is_open cs (place base k cs) ≡ false)
    → (i : ℕ) → i < length cs
    → is_open cs i ≡ false
all_places base cs b closed i h = elim (Bool-cases (leb base i)) [
  | inl e ↦
      let sum : base + (i - base) ≡ i = ground arith in
      let at : place base (i - base) cs ≡ i = ap (λ (n : ℕ). n % length cs) sum ∙ mod-eq_of_lt h in
      rw at at (closed (i - base) (omega arith))
  | inr e ↦
      let sum : base + (i + length cs - base) ≡ i + length cs = omega arith in
      let at : place base (i + length cs - base) cs ≡ i =
        ap (λ (n : ℕ). n % length cs) sum ∙ (add-mod_right i (length cs) ∙ mod-eq_of_lt h) in
      rw at at (closed (i + length cs - base) (ground arith))
]

-- From the kept index, `RoundRobin.Pick` chooses the first available candidate in the rotation and
-- keeps the place after it; it fails exactly when no candidate is available.
pub round_robin_lem :
    (idx : ℕ) (candidates : List Candidate)
    → let n = length candidates in
      let r = round_robin idx candidates in
      ((((r.0 ≡ failed no_backends) × (n ≡ 0)) ⊎ ((r.0 ≡ failed no_available_backends) × (0 < n)))
        × ((i : ℕ) → i < n → is_open candidates i ≡ false))
      ⊎ ((k : ℕ) × (k < n)
          × (r ≡ (picked (place idx k candidates), place idx (k + 1) candidates))
          × (is_open candidates (place idx k candidates) ≡ true)
          × ((j : ℕ) → j < k → is_open candidates (place idx j candidates) ≡ false))
unfolding round_robin
round_robin_lem idx [] = inl ((inl (refl, refl), λ i h. absurd (omega arith)))
round_robin_lem idx (c ∷ rest) =
    let cs = c ∷ rest in
    let n = length cs in
    let base = idx % n in
    let some_there : (n == 0) ≡ false = ground arith in
    let same : (k : ℕ) → place base k cs ≡ place idx k cs = λ k. mod-add-mod idx n k in
    rw some_there (elim (rotate_lem n base cs (mod-lt idx (omega arith)) (omega arith)) [
      | inl (f, closed) ↦
          inl
            (inr (f, omega arith), λ i h. all_places base cs (mod-lt idx (omega arith)) closed i h)
      | inr (k, a, f, o, closed) ↦ inr (
        k,
        a,
        f ∙ (rw (same k, same (k + 1))),
        rw (same k) at o,
        λ j b. rw (same j) at (closed j b),
      )
    ])
