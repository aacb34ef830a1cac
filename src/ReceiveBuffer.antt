-- ===== src/ReceiveBuffer.antt =====
-- simulator/protocols/tcp/receiver_buffer.go: the ranges of payload that the receiver holds beyond
-- the next expected position. Positions are uint64; `bufferedBytes` is the bit pattern of an int.
pub mod Loop
pub mod Accept
pub mod Window
use balancer_go.Base.{
  ℕ, ◌+◌, ◌<◌, ◌≡◌, Bool, ◌&&◌, List, [], ◌∷◌, ltb, leb, ◌==◌, if◌then◌else◌, min, max, max_u64,
  ◌+u64◌, ◌-u64◌, drop, suc,
}
use balancer_go.Ranges.{Range, count_before, replace, hull}

pub record ReceiveBuffer : Type 0 where
  pub next_expected_seq : ℕ
  pub capacity : ℕ
  pub buffered_bytes : ℕ
  pub ranges : List Range

unfoldable pub window_bytes : ReceiveBuffer → ℕ
window_bytes buffer = min buffer.capacity (max_u64 -u64 buffer.next_expected_seq)

unfoldable pub window_end : ReceiveBuffer → ℕ
unfolding window_bytes
window_end buffer = buffer.next_expected_seq +u64 window_bytes buffer

pub overlaps_window : ReceiveBuffer → ℕ → ℕ → Bool
unfolding window_end
overlaps_window buffer start end = ltb start (window_end buffer) && ltb buffer.next_expected_seq end

-- The second loop of `accept`: the merged range, the bytes that are new, and the ranges passed.
pub record Merged : Type 0 where
  pub merged : Range
  pub new_bytes : ℕ
  pub passed : ℕ

pub merge_loop : Range → Range → ℕ → List Range → Merged
merge_loop incoming merged new_bytes [] = record {
  merged = merged;
  new_bytes = new_bytes;
  passed = 0;
}
merge_loop incoming merged new_bytes (r ∷ rs) =
    let overlap_start = max incoming.start r.start in
    let overlap_end = min incoming.end r.end in
    let fewer =
      if ltb overlap_start overlap_end
      then new_bytes -u64 (overlap_end -u64 overlap_start)
      else new_bytes in
    let rest = merge_loop incoming (hull merged r) fewer rs in
    if leb r.start merged.end
    then record rest { passed = suc rest.passed }
    else record { merged = merged; new_bytes = new_bytes; passed = 0 }

-- `accept` after the incoming data has been cut to the window.
pub accept_cut : ReceiveBuffer → Range → ReceiveBuffer × ℕ
accept_cut buffer incoming =
    let first = count_before incoming.start buffer.ranges in
    let found =
      merge_loop incoming incoming (incoming.end -u64 incoming.start) (drop first buffer.ranges) in
    let merged = found.merged in
    let after = first + found.passed in
    let buffered = buffer.buffered_bytes +u64 found.new_bytes in
    if merged.start == buffer.next_expected_seq
    then (
      record buffer {
        next_expected_seq = merged.end;
        buffered_bytes = buffered -u64 (merged.end -u64 buffer.next_expected_seq);
        ranges = replace buffer.ranges first after [];
      },
      found.new_bytes,
    )
    else (
      record buffer {
        buffered_bytes = buffered;
        ranges = replace buffer.ranges first after (merged ∷ []);
      },
      found.new_bytes,
    )

pub accept : ReceiveBuffer → ℕ → ℕ → ReceiveBuffer × ℕ
unfolding window_end accept_cut
accept buffer start end =
    let from = max start buffer.next_expected_seq in
    let to = min end (window_end buffer) in
    if leb to from then (buffer, 0) else accept_cut buffer (record { start = from; end = to })
