-- ===== src/Algorithms.antt =====
-- simulator/algorithms: the choice of a backend among the candidates. `RoundRobin` keeps its index;
-- `Random` draws from the source of random numbers that it is given.
pub mod Rotation
pub mod Draw
use balancer_go.Base.{
  ℕ, zero, suc, ◌+◌, ◌%◌, ◌≡◌, Bool, ◌||◌, List, [], ◌∷◌, ltb, leb, ◌==◌, if◌then◌else◌, Option,
  none, some, length, get_elem?, false,
}

pub record Candidate : Type 0 where
  pub max_connections : ℕ
  pub mapped_connections : ℕ

-- The test that both algorithms make of a candidate.
abbrev pub is_available : Candidate → Bool
is_available c = c.max_connections == 0 || ltb c.mapped_connections c.max_connections

-- The candidate at an index is there and below its limit.
abbrev pub is_open : List Candidate → ℕ → Bool
is_open candidates i = elim (get_elem? candidates i) [ none ↦ false | some c ↦ is_available c ]

pub data PickError : Type 0 where
  no_backends no_available_backends : PickError

pub data Picked : Type 0 where
  picked : ℕ → Picked
  failed : PickError → Picked

-- The rounds of the loop in `RoundRobin.Pick` that are left, from the current index.
pub rotate : ℕ → ℕ → List Candidate → Picked × ℕ
rotate zero idx candidates = (failed no_available_backends, idx)
rotate (suc rounds) idx candidates =
    let next = (idx + 1) % length candidates in
    let rest = rotate rounds next candidates in
    if is_open candidates idx then (picked idx, next) else rest

pub round_robin : ℕ → List Candidate → Picked × ℕ
unfolding rotate
round_robin idx candidates =
    if length candidates == 0
    then (failed no_backends, idx)
    else rotate (length candidates) (idx % length candidates) candidates

-- The indices that `Random.Pick` collects, from the given index on.
pub available_from : ℕ → List Candidate → List ℕ
available_from index [] = []
available_from index (c ∷ cs) =
    let rest = available_from (index + 1) cs in if is_available c then index ∷ rest else rest

-- `intn n` is what `RNG.Intn(n)` returns; out of range it would be a panic, `none`.
pub random_pick : (ℕ → ℕ) → List Candidate → Option Picked
unfolding available_from
random_pick intn candidates =
    let available = available_from 0 candidates in
    if length available == 0
    then some (failed no_available_backends)
    else elim (get_elem? available (intn (length available))) [
      | none ↦ none
      | some i ↦ some (picked i)
    ]
