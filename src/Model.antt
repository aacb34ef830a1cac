-- ===== src/Model.antt =====
-- simulator/model: packets, flags and the shared constants. A Flag is its eight bits; an unknown
-- protocol keeps its text.
pub mod Packets
pub mod Keys
use Prim.Native.String.{String}
use balancer_go.Base.{
  ℕ, ◌+◌, ◌-◌, ◌*◌, ◌/◌, Bool, true, false, ◌&&◌, ◌||◌, not, List, [], ◌∷◌, ltb, leb, if◌then◌else◌,
  min, max_u64, max_i64, ◌+u64◌, ◌-u64◌, Option, none, some, length,
}
use balancer_go.Base.Int.{ℤ, pos, negsuc}
use balancer_go.Ranges.{Range}

pub data Protocol : Type 0 where
  tcp udp : Protocol
  other : String → Protocol

pub record ClientKey : Type 0 where
  pub src_ip : String
  pub src_port : ℕ
  pub dst_ip : String
  pub dst_port : ℕ
  pub protocol : Protocol

pub record Flag : Type 0 where
  pub syn : Bool
  pub fin : Bool
  pub rst : Bool
  pub ack : Bool
  pub psh : Bool
  pub urg : Bool
  pub ece : Bool
  pub cwr : Bool

pub data EcnCodepoint : Type 0 where
  not_ect ect1 ect0 ce : EcnCodepoint

pub record Packet : Type 0 where
  pub key : ClientKey
  pub flag : Flag
  pub size : ℤ
  pub seq : ℕ
  pub ack : ℕ
  pub ecn : EcnCodepoint
  pub receive_window_bytes : ℕ
  pub sack_permitted : Bool
  pub sack_blocks : List Range

abbrev pub max_sack_blocks : ℕ
max_sack_blocks = 4

abbrev pub default_mss_bytes : ℕ
default_mss_bytes = 1024

abbrev pub max_mss_bytes : ℕ
max_mss_bytes = 65535 - 40

unfoldable pub valid_mss_bytes : ℤ → Bool
valid_mss_bytes (pos bytes) = leb 1 bytes && leb bytes max_mss_bytes
valid_mss_bytes (negsuc n) = false

-- `none` where the source returns false.
pub sequence_end : Packet → Option ℕ
sequence_end p = elim p.size [
  | negsuc n ↦ none
  | pos size ↦
      let with_syn = if p.flag.syn then size +u64 1 else size in
      let len = if p.flag.fin then with_syn +u64 1 else with_syn in
      if ltb (max_u64 -u64 p.seq) len then none else some (p.seq +u64 len)
]

pub option_bytes : Packet → ℕ
option_bytes p =
    let permitted : ℕ = if p.sack_permitted then 2 else 0 in
    let with_blocks =
      if ltb 0 (length p.sack_blocks)
      then permitted + (2 + 8 * min (length p.sack_blocks) max_sack_blocks)
      else permitted in
    (with_blocks + 3) / 4 * 4

-- WireSize of a packet whose Size is not negative.
pub wire_size : Packet → ℕ → ℕ
unfolding option_bytes
wire_size p size = size + 40 + option_bytes p

unfoldable pub all_nonempty : List Range → Bool
all_nonempty [] = true
all_nonempty (b ∷ blocks) =
    let rest = all_nonempty blocks in if leb b.end b.start then false else rest

unfoldable pub valid_sack_options : Packet → Bool
unfolding all_nonempty
valid_sack_options p =
    if p.sack_permitted && not p.flag.syn
    then false
    else if leb (length p.sack_blocks) 0
    then true
    else if ltb max_sack_blocks (length p.sack_blocks)
        || (not p.flag.ack)
        || (p.flag.syn || p.flag.rst)
    then false
    else all_nonempty p.sack_blocks
