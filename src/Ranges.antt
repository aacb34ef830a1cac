-- ===== src/Ranges.antt =====
-- Half-open byte ranges [start, end), which model/sack.go reports and the receive buffer keeps, and
-- the lemmas on lists of them that both components use.
pub mod Union
pub mod Count
pub mod Overlap
use balancer_go.Base.{
  ℕ, suc, ◌+◌, ◌-◌, ◌≤◌, ◌<◌, ◌≡◌, refl, Bool, false, ◌&&◌, ◌||◌, List, [], ◌∷◌, ltb, leb,
  if◌then◌else◌, arith, min, max, ◌++◌, take, drop,
}

pub record Range : Type 0 where
  pub start : ℕ
  pub end : ℕ

-- The position lies in the range.
abbrev pub within : ℕ → Range → Bool
within x r = leb r.start x && ltb x r.end

-- The position lies in one of the ranges.
abbrev pub covered : ℕ → List Range → Bool
covered x [] = false
covered x (r ∷ rs) = within x r || covered x rs

-- The ranges are not empty, stand in ascending order from `lo` on, and do not touch.
abbrev pub IsSeparated : ℕ → List Range → Type 0
IsSeparated lo [] = Unit {0}
IsSeparated lo (r ∷ rs) = (lo ≤ r.start) × (r.start < r.end) × IsSeparated (suc r.end) rs

-- No range reaches beyond `hi`.
abbrev pub IsBelow : ℕ → List Range → Type 0
IsBelow hi [] = Unit {0}
IsBelow hi (r ∷ rs) = (r.end ≤ hi) × IsBelow hi rs

-- The positions in all ranges, counted.
abbrev pub bytes : List Range → ℕ
bytes [] = 0
bytes (r ∷ rs) = (r.end - r.start) + bytes rs

-- The smallest range that holds both.
abbrev pub hull : Range → Range → Range
hull a b = record { start = min a.start b.start; end = max a.end b.end }

-- Indices of the first range that does not end before `start`, and past the last one that touches
-- the growing range: the two loops of `insert` and `accept`.
unfoldable pub count_before : ℕ → List Range → ℕ
count_before start [] = 0
count_before start (r ∷ rs) = let n = count_before start rs in if ltb r.end start then suc n else 0

-- The ranges that replace those from index `first` up to, but excluding, `after`.
unfoldable pub replace : List Range → ℕ → ℕ → List Range → List Range
replace rs first after new = take first rs ++ (new ++ drop after rs)

pub IsSeparated-mono : {a b : ℕ} (rs : List Range) → a ≤ b → IsSeparated b rs → IsSeparated a rs
IsSeparated-mono [] h s = tt
IsSeparated-mono (r ∷ rs) h s = (omega arith, s.1, s.2)

pub covered_below : (x lo : ℕ) (rs : List Range) → IsSeparated lo rs → x < lo → covered x rs ≡ false
covered_below x lo [] s h = refl
covered_below x lo (r ∷ rs) s h = ground (arith, covered_below x (suc r.end) rs s.2)

pub covered_above : (x hi : ℕ) (rs : List Range) → IsBelow hi rs → hi ≤ x → covered x rs ≡ false
covered_above x hi [] u h = refl
covered_above x hi (r ∷ rs) u h = ground (arith, covered_above x hi rs u.1)

pub bytes-le :
    (lo hi : ℕ) (board : List Range)
    → IsSeparated lo board
    → IsBelow hi board
    → lo ≤ hi
    → lo + bytes board ≤ hi
bytes-le lo hi [] s u h = omega arith
bytes-le lo hi (r ∷ rs) s u h =
    omega
      (arith, bytes-le r.end hi rs (IsSeparated-mono {b = suc r.end} rs (omega arith) s.2) u.1 u.0)

pub IsBelow-mono : {a b : ℕ} (rs : List Range) → a ≤ b → IsBelow a rs → IsBelow b rs
IsBelow-mono [] h u = tt
IsBelow-mono (r ∷ rs) h u = (omega arith, IsBelow-mono rs h u.1)
