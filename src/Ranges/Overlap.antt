-- ===== src/Ranges/Overlap.antt =====
-- The positions that a range shares with separated ones, and the bytes of a union.
use balancer_go.Base.{
  ℕ, suc, ◌+◌, ◌-◌, ◌≤◌, ◌<◌, ◌≡◌, refl, Bool, ◌&&◌, ◌||◌, List, [], ◌∷◌, arith, min, max,
}
use balancer_go.Ranges.{Range, within, covered, IsSeparated, IsBelow, bytes, covered_below}
use balancer_go.Ranges.Union.{union, covered-union, union-IsSeparated}
use balancer_go.Ranges.Count.{count, count-cong, count-or, count-none, count-within, count-bytes}

abbrev pub overlap : Range → List Range → ℕ
overlap b [] = 0
overlap b (r ∷ rs) = (min b.end r.end - max b.start r.start) + overlap b rs

pub overlap_above :
    (lo : ℕ) (b : Range) (rs : List Range) → IsSeparated lo rs → b.end ≤ lo → overlap b rs ≡ 0
overlap_above lo b [] s h = refl
overlap_above lo b (r ∷ rs) s h = omega (arith, overlap_above (suc r.end) b rs s.2)

count-both :
    (hi : ℕ) (b r : Range)
    → b.end ≤ hi
    → count hi (λ x. within x b && within x r) ≡ min b.end r.end - max b.start r.start
count-both hi b r h =
    let shared : Range = record { start = max b.start r.start; end = min b.end r.end } in
    omega (
      arith,
      count-cong hi (λ x. within x b && within x r) (λ x. within x shared) (λ x k. ground arith),
      count-within hi shared,
    )

pub count-overlap :
    (lo hi : ℕ) (b : Range) (rs : List Range)
    → IsSeparated lo rs
    → b.end ≤ hi
    → count hi (λ x. within x b && covered x rs) ≡ overlap b rs
count-overlap lo hi b [] s h = count-none hi _ (λ x k. ground arith)
count-overlap lo hi b (r ∷ rs) s h =
    let p : ℕ → Bool = λ x. within x b && within x r in
    let q : ℕ → Bool = λ x. within x b && covered x rs in
    omega (
      arith,
      count-cong hi (λ x. within x b && (within x r || covered x rs)) (λ x. p x || q x)
          (λ x k. ground arith),
      count-or hi p q,
      count-none hi (λ x. p x && q x) (λ x k. ground (arith, covered_below x (suc r.end) rs s.2)),
      count-both hi b r h,
      count-overlap (suc r.end) hi b rs s.2 h,
    )

pub bytes-union :
    (lo hi : ℕ) (b : Range) (rs : List Range)
    → IsSeparated lo rs
    → IsBelow hi rs
    → lo ≤ b.start
    → b.start < b.end
    → b.end ≤ hi
    → bytes (union b rs) + overlap b rs ≡ bytes rs + (b.end - b.start)
bytes-union lo hi b rs s u h k e =
    let shape = union-IsSeparated lo hi b rs s u h k e in
    omega (
      arith,
      count-or hi (λ x. within x b) (λ x. covered x rs),
      count-cong hi (λ x. covered x (union b rs)) (λ x. within x b || covered x rs)
          (λ x l. covered-union x lo b rs s k),
      count-overlap lo hi b rs s e,
      count-within hi b,
      count-bytes lo hi rs s u,
      count-bytes lo hi (union b rs) shape.0 shape.1,
    )
