-- ===== src/ReceiveBuffer/Loop.antt =====
-- simulator/protocols/tcp/receiver_buffer.go: the merge loop of `accept`.
use balancer_go.Base.{
  ℕ, suc, ◌-◌, ◌≤◌, ◌≡◌, refl, List, [], ◌∷◌, arith, max_u64, min, max, ltb, Bool-cases, inl, inr,
  -u64_lem, ◌-u64◌, if◌then◌else◌,
}
use balancer_go.Ranges.{Range, IsSeparated, hull}
use balancer_go.Ranges.Union.{absorb}
use balancer_go.Ranges.Overlap.{overlap, overlap_above}
use balancer_go.ReceiveBuffer.{merge_loop}

pub merge_loop-absorb :
    (b m : Range) (n : ℕ) (rs : List Range)
    → ((merge_loop b m n rs).merged ≡ (absorb m rs).0)
      × ((merge_loop b m n rs).passed ≡ (absorb m rs).1)
unfolding merge_loop absorb
merge_loop-absorb b m n [] = (refl, refl)
merge_loop-absorb b m n (r ∷ rs) =
    let from = max b.start r.start in
    let to = min b.end r.end in
    ground
      (arith, merge_loop-absorb b (hull m r) (if ltb from to then n -u64 (to -u64 from) else n) rs)

fewer_lem :
    (n from to : ℕ)
    → to ≤ max_u64
    → to - from ≤ n
    → n ≤ max_u64
    → (if ltb from to then n -u64 (to -u64 from) else n) ≡ n - (to - from)
fewer_lem n from to h k l = elim (Bool-cases (ltb from to)) [
  | inl e ↦ rw (e, -u64_lem to from (ground arith) h, -u64_lem n (to - from) k l)
  | inr e ↦ rw e (ground arith)
]

pub new_bytes-merge_loop :
    (lo : ℕ) (b m : Range) (n : ℕ) (rs : List Range)
    → IsSeparated lo rs
    → b.end ≤ m.end
    → b.end ≤ max_u64
    → overlap b rs ≤ n
    → n ≤ max_u64
    → (merge_loop b m n rs).new_bytes ≡ n - overlap b rs
unfolding merge_loop
new_bytes-merge_loop lo b m n [] s h z k l = omega arith
new_bytes-merge_loop lo b m n (r ∷ rs) s h z k l =
    let part = min b.end r.end - max b.start r.start in
    rw (fewer_lem n (max b.start r.start) (min b.end r.end) (omega arith) (omega arith) l) (
      ground (
        arith,
        new_bytes-merge_loop (suc r.end) b (hull m r) (n - part) rs s.2 (omega arith) z
            (omega arith) (omega arith),
        overlap_above (suc r.end) b rs s.2,
      ))
