-- ===== src/Ranges/Union.antt =====
-- The union of a range with a list of ranges, by plain recursion.
use balancer_go.Base.{
  ℕ, suc, ◌+◌, ◌≤◌, ◌<◌, ◌≡◌, refl, ap, ◌||◌, List, [], ◌∷◌, ltb, leb, if◌then◌else◌, arith, drop,
  Bool-cases, inl, inr,
}
use native.Mathlib.Nat.{zero-add, suc-add}
use balancer_go.Ranges.{
  Range, within, covered, IsSeparated, IsBelow, IsSeparated-mono, hull, count_before, replace,
}

pub join : Range → List Range → List Range
join b [] = b ∷ []
join b (r ∷ rs) = let rest = join (hull b r) rs in if leb r.start b.end then rest else b ∷ r ∷ rs

pub union : Range → List Range → List Range
unfolding join
union b [] = b ∷ []
union b (r ∷ rs) = let rest = union b rs in if ltb r.end b.start then r ∷ rest else join b (r ∷ rs)

covered-join :
    (x lo : ℕ) (b : Range) (rs : List Range)
    → IsSeparated lo rs
    → b.start ≤ lo
    → b.start < b.end
    → covered x (join b rs) ≡ (within x b || covered x rs)
unfolding join
covered-join x lo b [] s h k = refl
covered-join x lo b (r ∷ rs) s h k = ground (arith, covered-join x (suc r.end) (hull b r) rs s.2)

pub covered-union :
    (x lo : ℕ) (b : Range) (rs : List Range)
    → IsSeparated lo rs
    → b.start < b.end
    → covered x (union b rs) ≡ (within x b || covered x rs)
unfolding union
covered-union x lo b [] s k = refl
covered-union x lo b (r ∷ rs) s k =
    ground
      (arith, covered-union x (suc r.end) b rs s.2, covered-join x (suc r.end) (hull b r) rs s.2)

join-IsSeparated :
    (lo hi : ℕ) (b : Range) (rs : List Range)
    → IsSeparated lo rs
    → IsBelow hi rs
    → b.start ≤ lo
    → b.start < b.end
    → b.end ≤ hi
    → IsSeparated b.start (join b rs) × IsBelow hi (join b rs)
unfolding join
join-IsSeparated lo hi b [] s u h k e = omega arith
join-IsSeparated lo hi b (r ∷ rs) s u h k e =
    ground (arith, join-IsSeparated (suc r.end) hi (hull b r) rs s.2 u.1)

pub union-IsSeparated :
    (lo hi : ℕ) (b : Range) (rs : List Range)
    → IsSeparated lo rs
    → IsBelow hi rs
    → lo ≤ b.start
    → b.start < b.end
    → b.end ≤ hi
    → IsSeparated lo (union b rs) × IsBelow hi (union b rs)
unfolding union
union-IsSeparated lo hi b [] s u h k e = omega arith
union-IsSeparated lo hi b (r ∷ rs) s u h k e = ground (
  arith,
  union-IsSeparated (suc r.end) hi b rs s.2 u.1,
  join-IsSeparated (suc r.end) hi (hull b r) rs s.2 u.1,
  IsSeparated-mono {a = lo} {b = (hull b r).start} (join (hull b r) rs),
)

-- The second loop of `insert`: the range grows over those that it touches, and counts them.
unfoldable pub absorb : Range → List Range → Range × ℕ
absorb b [] = (b, 0)
absorb b (r ∷ rs) =
    let rest = absorb (hull b r) rs in if leb r.start b.end then (rest.0, suc rest.1) else (b, 0)

absorb-join : (b : Range) (rs : List Range) → (absorb b rs).0 ∷ drop (absorb b rs).1 rs ≡ join b rs
unfolding absorb join
absorb-join b [] = refl
absorb-join b (r ∷ rs) = ground (arith, absorb-join (hull b r) rs)

-- Both loops and the replacement that follows them compute the union.
pub replace-union :
    (b : Range) (rs : List Range)
    → let first = count_before b.start rs in
      let grown = absorb b (drop first rs) in
      replace rs first (first + grown.1) (grown.0 ∷ []) ≡ union b rs
unfolding replace count_before absorb union
replace-union b [] = refl
replace-union b (r ∷ rs) = elim (Bool-cases (ltb r.end b.start)) [
  | inl e ↦ rw e (rw suc-add (ap (◌∷◌ r) (replace-union b rs)))
  | inr e ↦ rw e (rw zero-add (absorb-join b (r ∷ rs)))
]

pub absorb-start-le : (b : Range) (rs : List Range) → (absorb b rs).0.start ≤ b.start
unfolding absorb
absorb-start-le b [] = omega arith
absorb-start-le b (r ∷ rs) = ground (arith, absorb-start-le (hull b r) rs)
