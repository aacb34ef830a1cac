-- ===== src/ReceiveBuffer/Accept.antt =====
-- simulator/protocols/tcp/receiver_buffer.go: `accept` of data inside the window.
use balancer_go.Base.{
  ℕ, zero, suc, ◌+◌, ◌-◌, ◌≤◌, ◌<◌, ◌≡◌, refl, sym, ◌∙◌, ap, ◌≢◌, Bool, ◌&&◌, ◌||◌, List, [], ◌∷◌,
  ◌++◌, arith, max_u64, min, ltb, ◌==◌, Bool-cases, inl, inr, -u64_lem, +u64_lem, ◌-u64◌, ◌+u64◌,
  take, drop,
}
use balancer_go.Ranges.{
  Range, within, covered, IsSeparated, IsBelow, IsSeparated-mono, IsBelow-mono, bytes, bytes-le,
  count_before, replace,
}
use balancer_go.Ranges.Union.{
  union, covered-union, union-IsSeparated, replace-union, absorb-start-le,
}
use balancer_go.Ranges.Count.{count-le, count-within}
use balancer_go.Ranges.Overlap.{overlap, bytes-union, count-overlap}
use balancer_go.ReceiveBuffer.{
  ReceiveBuffer, window_bytes, window_end, Merged, merge_loop, accept_cut,
}
use balancer_go.ReceiveBuffer.Loop.{merge_loop-absorb, new_bytes-merge_loop}

-- The position of the payload has arrived: it lies before the ACK or in a range.
abbrev pub received : ℕ → ReceiveBuffer → Bool
received x buffer = ltb x buffer.next_expected_seq || covered x buffer.ranges

pub record IsBuffer (buffer : ReceiveBuffer) : Type 0 where
  pub sequence : buffer.next_expected_seq ≤ max_u64
  pub small : buffer.capacity ≤ 65535
  pub separated : IsSeparated (suc buffer.next_expected_seq) buffer.ranges
  pub below : IsBelow (window_end buffer) buffer.ranges
  pub counted : buffer.buffered_bytes ≡ bytes buffer.ranges

pub window_end_lem :
    (buffer : ReceiveBuffer)
    → buffer.next_expected_seq ≤ max_u64
    → window_end buffer ≡ min (buffer.next_expected_seq + buffer.capacity) max_u64
unfolding window_end window_bytes
window_end_lem buffer h =
    rw
      (
        -u64_lem max_u64 buffer.next_expected_seq h (omega arith),
        +u64_lem buffer.next_expected_seq (min buffer.capacity (max_u64 - buffer.next_expected_seq))
            (omega arith),
      )
      (omega arith)

-- The found ranges, as the union.
loop_union :
    (b : Range) (rs : List Range)
    → let first = count_before b.start rs in
      let found = merge_loop b b (b.end -u64 b.start) (drop first rs) in
      replace rs first (first + found.passed) (found.merged ∷ []) ≡ union b rs
loop_union b rs =
    let first = count_before b.start rs in
    let same = merge_loop-absorb b b (b.end -u64 b.start) (drop first rs) in
    rw (same.0, same.1) (replace-union b rs)

drop-overlap :
    (lo : ℕ) (b : Range) (rs : List Range)
    → IsSeparated lo rs
    → let rest = drop (count_before b.start rs) rs in
      IsSeparated lo rest × (overlap b rest ≡ overlap b rs)
unfolding count_before
drop-overlap lo b [] s = (tt, refl)
drop-overlap lo b (r ∷ rs) s = ground (
  arith,
  drop-overlap (suc r.end) b rs s.2,
  IsSeparated-mono {a = lo} {b = suc r.end} (drop (count_before b.start rs) rs),
)

after_front :
    (lo k : ℕ) (rs ys : List Range) (m : Range)
    → IsSeparated lo (take k rs ++ (m ∷ ys))
    → lo ≤ m.start
after_front lo zero rs ys m s = s.0
after_front lo (suc k) [] ys m s = s.0
after_front lo (suc k) (r ∷ rs) ys m s = omega (arith, after_front (suc r.end) k rs ys m s.2)

no_front :
    (lo k : ℕ) (rs ys : List Range) (m : Range)
    → IsSeparated lo (take k rs ++ (m ∷ ys))
    → m.start ≡ lo
    → take k rs ≡ []
no_front lo zero rs ys m s e = refl
no_front lo (suc k) [] ys m s e = refl
no_front lo (suc k) (r ∷ rs) ys m s e =
    absurd (omega (arith, after_front (suc r.end) k rs ys m s.2))

-- What `accept` has done with data that lies in the window.
pub record IsAccepted (buffer : ReceiveBuffer) (b : Range) (done : ReceiveBuffer × ℕ) : Type 0 where
  pub valid : IsBuffer done.0
  pub merged : (x : ℕ) → received x done.0 ≡ (received x buffer || within x b)
  pub fresh : done.1 + overlap b buffer.ranges ≡ b.end - b.start
  kept : done.0.capacity ≡ buffer.capacity

module _ (buffer : ReceiveBuffer) (v : IsBuffer buffer) (b : Range)
    (inside : buffer.next_expected_seq ≤ b.start) (nonempty : b.start < b.end)
    (ends : b.end ≤ window_end buffer) where
  abbrev next : ℕ
  next = buffer.next_expected_seq

  abbrev rs : List Range
  rs = buffer.ranges

  edge_le : window_end buffer ≤ max_u64
  edge_le = omega (arith, window_end_lem buffer v.sequence)

  loose : IsSeparated next rs
  loose = IsSeparated-mono rs (omega arith) v.separated

  shape : IsSeparated next (union b rs) × IsBelow (window_end buffer) (union b rs)
  shape = union-IsSeparated next (window_end buffer) b rs loose v.below inside nonempty ends

  overlap_le : overlap b rs ≤ b.end - b.start
  overlap_le =
      let hi = window_end buffer in
      omega (
        arith,
        count-overlap next hi b rs loose ends,
        count-le hi (λ x. within x b && covered x rs) (λ x. within x b) (λ x k e. ground arith),
        count-within hi b,
      )

  abbrev fresh_bytes : ℕ
  fresh_bytes = b.end - b.start - overlap b rs

  bytes_total : bytes (union b rs) ≡ bytes rs + fresh_bytes
  bytes_total = omega (
    arith,
    overlap_le,
    bytes-union next (window_end buffer) b rs loose v.below inside nonempty ends,
  )

  bytes_fit : next + bytes (union b rs) ≤ max_u64
  bytes_fit =
      omega (
        arith,
        edge_le,
        bytes-le next (window_end buffer) (union b rs) shape.0 shape.1 (omega arith),
      )

  loop_fresh :
      (merge_loop b b (b.end -u64 b.start) (drop (count_before b.start rs) rs)).new_bytes
      ≡ fresh_bytes
  loop_fresh =
      let rest = drop-overlap next b rs loose in
      rw (-u64_lem b.end b.start (omega arith) (omega (arith, edge_le))) (
        new_bytes-merge_loop next b b (b.end - b.start) _ rest.0 (omega arith)
          (omega (arith, edge_le)) (omega (arith, rest.1, overlap_le)) (omega (arith, edge_le))
        ∙ ap (λ (n : ℕ). b.end - b.start - n) rest.1)

  abbrev first : ℕ
  first = count_before b.start rs

  abbrev found : Merged
  found = merge_loop b b (b.end -u64 b.start) (drop first rs)

  abbrev later : List Range
  later = drop (first + found.passed) rs

  whole : take first rs ++ (found.merged ∷ later) ≡ union b rs
  unfolding replace
  whole = loop_union b rs

  merged-covered :
      (x : ℕ) → covered x (take first rs ++ (found.merged ∷ later)) ≡ (within x b || covered x rs)
  merged-covered x = rw whole (covered-union x next b rs loose nonempty)

  bytes_sum : buffer.buffered_bytes +u64 found.new_bytes ≡ bytes (union b rs)
  bytes_sum =
      rw
        (
          v.counted,
          loop_fresh,
          +u64_lem (bytes rs) fresh_bytes (omega (arith, bytes_total, bytes_fit)),
        )
        (sym bytes_total)

  consumed :
      found.merged.start ≡ next
      → IsAccepted buffer b (
        record buffer {
          next_expected_seq = found.merged.end;
          buffered_bytes =
              buffer.buffered_bytes +u64 found.new_bytes -u64 (found.merged.end -u64 next);
          ranges = replace rs first (first + found.passed) [];
        },
        found.new_bytes,
      )
  unfolding replace
  consumed e =
      let s : IsSeparated next (take first rs ++ (found.merged ∷ later)) = rw whole shape.0 in
      let u : IsBelow (window_end buffer) (take first rs ++ (found.merged ∷ later)) =
        rw whole shape.1 in
      let empty = no_front next first rs later found.merged s e in
      let s' : IsSeparated next (found.merged ∷ later) = rw empty at s in
      let u' : IsBelow (window_end buffer) (found.merged ∷ later) = rw empty at u in
      let total : bytes (found.merged ∷ later) ≡ bytes (union b rs) =
        rw empty at (ap bytes whole) in
      let covers : (x : ℕ) → covered x (found.merged ∷ later) ≡ (within x b || covered x rs) =
        rw empty at merged-covered in
      let old = window_end_lem buffer v.sequence in
      let high : found.merged.end ≤ max_u64 = omega (arith, edge_le) in
      let left : buffer.buffered_bytes +u64 found.new_bytes -u64 (found.merged.end -u64 next)
          ≡ bytes later =
        rw
          (
            bytes_sum,
            -u64_lem found.merged.end next (omega arith) high,
            -u64_lem (bytes (union b rs)) (found.merged.end - next) (omega arith)
                (omega (arith, bytes_fit)),
          )
          (omega arith) in
      rw (empty, left)
        (record {
          valid = record {
            sequence = high;
            small = v.small;
            separated = s'.2;
            below =
                IsBelow-mono later
                  (omega (
                    arith,
                    old,
                    window_end_lem
                        (record buffer {
                          next_expected_seq = found.merged.end;
                          buffered_bytes = bytes later;
                          ranges = later;
                        })
                        high,
                  ))
                  u'.1;
            counted = refl;
          };
          merged = λ x. ground (arith, covers x);
          fresh = rw loop_fresh (omega (arith, overlap_le));
          kept = refl;
        })

  stored :
      found.merged.start ≢ next
      → IsAccepted buffer b (
        record buffer {
          buffered_bytes = buffer.buffered_bytes +u64 found.new_bytes;
          ranges = replace rs first (first + found.passed) (found.merged ∷ []);
        },
        found.new_bytes,
      )
  unfolding replace
  stored e =
      let low : found.merged.start ≤ b.start =
        rw (merge_loop-absorb b b (b.end -u64 b.start) (drop first rs)).0
          (absorb-start-le b (drop first rs)) in
      let from : next ≤ found.merged.start =
        after_front next first rs later found.merged (rw whole shape.0) in
      let strict =
        union-IsSeparated (suc next) (window_end buffer) b rs v.separated v.below (omega arith)
          nonempty ends in
      rw (whole, bytes_sum, loop_fresh)
        (record {
          valid = record {
            sequence = v.sequence;
            small = v.small;
            separated = strict.0;
            below =
                IsBelow-mono (union b rs)
                  (omega (
                    arith,
                    window_end_lem buffer v.sequence,
                    window_end_lem
                        (record buffer { buffered_bytes = bytes (union b rs); ranges = union b rs })
                        v.sequence,
                  ))
                  shape.1;
            counted = refl;
          };
          merged = λ x. ground (arith, covered-union x next b rs loose nonempty);
          fresh = omega (arith, overlap_le);
          kept = refl;
        })

  pub accept_cut-IsAccepted : IsAccepted buffer b (accept_cut buffer b)
  unfolding accept_cut
  accept_cut-IsAccepted = elim (Bool-cases (found.merged.start == next)) [
    | inl e ↦ rw e (consumed (ground arith))
    | inr e ↦ rw e (stored (ground arith))
  ]
