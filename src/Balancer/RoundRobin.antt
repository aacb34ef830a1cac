-- ===== src/Balancer/RoundRobin.antt =====
-- simulator/algorithms/round-robin.go as the algorithm of the balancer.
use balancer_go.Base.{
  zero, suc, ◌≤◌, refl, false, [], ◌∷◌, length, ltb, Bool-cases, ℕ, ◌≡◌, ◌∙◌, sym, ap, true, List,
  arith, inl, inr,
}
use balancer_go.Algorithms.{Candidate, Picked, PickError, picked, failed, is_open, round_robin}
use balancer_go.Algorithms.Rotation.{round_robin_lem, place}
use balancer_go.Balancer.Invariant.{Algorithm}

abbrev index_of : Picked → ℕ
index_of (picked i) = i
index_of (failed error) = 0

pub round_robin-IsOpen :
    (idx : ℕ) (cs : List Candidate) (i : ℕ)
    → (round_robin idx cs).0 ≡ picked i
    → is_open cs i ≡ true
round_robin-IsOpen idx cs i e = elim (round_robin_lem idx cs) [
  | inl (inl (f, g), h) ↦ ground (arith, sym f ∙ e)
  | inl (inr (f, g), h) ↦ ground (arith, sym f ∙ e)
  | inr (k, l, f, o, h) ↦
      let here : place idx k cs ≡ i = ap index_of (sym (ap (λ r. r.0) f) ∙ e) in rw here at o
]

closed_above : (cs : List Candidate) (i : ℕ) → length cs ≤ i → is_open cs i ≡ false
closed_above [] i h = refl
closed_above (c ∷ cs) zero h = absurd (omega arith)
closed_above (c ∷ cs) (suc i) h = closed_above cs i (omega arith)

pub round_robin-IsClosed :
    (idx : ℕ) (cs : List Candidate) (error : PickError)
    → (round_robin idx cs).0 ≡ failed error
    → (i : ℕ) → is_open cs i ≡ false
round_robin-IsClosed idx cs error e i = elim (Bool-cases (ltb i (length cs))) [
  | inr above ↦ closed_above cs i (ground arith)
  | inl below ↦ elim (round_robin_lem idx cs) [
    | inl (f, h) ↦ h i (ground arith)
    | inr (k, l, f, o, h) ↦ ground (arith, sym (ap (λ r. r.0) f) ∙ e)
  ]
]

abbrev pub round_robin_algorithm : Algorithm ℕ
round_robin_algorithm = record {
  pick = round_robin;
  picks_open = round_robin-IsOpen;
  fails_closed = round_robin-IsClosed;
}
