-- ===== src/Model/Packets.antt =====
-- simulator/model/packet.go: a packet's sequence range and the sizes of its options.
use balancer_go.Base.{
  ℕ, ◌+◌, ◌≤◌, ◌≡◌, true, if◌then◌else◌, max_u64, max_i64, none, some, arith, +u64_lem, -u64_lem,
  ltb,
}
use balancer_go.Base.Int.{pos}
use balancer_go.Model.{Packet, sequence_end, wire_size, valid_sack_options}

-- The sequence positions that a packet takes up.
abbrev pub sequence_length : Packet → ℕ → ℕ
sequence_length p size = size + (if p.flag.syn then 1 else 0) + (if p.flag.fin then 1 else 0)

-- For a payload size that an int holds, `SequenceEnd` is the position after the payload, SYN and
-- FIN, without wrapping: it fails exactly when that position does not fit a uint64.
pub sequence_end_lem :
    (p : Packet) (size : ℕ)
    → p.size ≡ pos size
    → size ≤ max_i64
    → p.seq ≤ max_u64
    → sequence_end p ≡ (
        if ltb max_u64 (p.seq + sequence_length p size)
        then none
        else some (p.seq + sequence_length p size))
unfolding sequence_end
sequence_end_lem p size e h k = rw e (
    ground (
      arith,
      +u64_lem size 1,
      +u64_lem (size + 1) 1,
      -u64_lem max_u64 p.seq,
      +u64_lem p.seq (sequence_length p size),
    ))

-- A packet with valid SACK options has at most 36 bytes of options beside its 40 bytes of headers.
wire_size_bounds :
    (p : Packet) (size : ℕ)
    → valid_sack_options p ≡ true
    → (size + 40 ≤ wire_size p size) × (wire_size p size ≤ size + 76)
unfolding wire_size valid_sack_options
wire_size_bounds p size e = ground arith
