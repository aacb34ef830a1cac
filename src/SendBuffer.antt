-- ===== src/SendBuffer.antt =====
-- simulator/protocols/tcp/send_buffer.go: the sent segments that still need an ACK.
pub mod Acknowledge
use balancer_go.Base.{
  ℕ, suc, ◌+◌, ◌-◌, ◌≡◌, Bool, List, [], ◌∷◌, ◌++◌, ltb, leb, if◌then◌else◌, ◌+u64◌, ◌-u64◌, Option,
  none, some, length, take, drop, get_elem?, false,
}
use balancer_go.Base.Int.{ℤ, pos, to_u64}
use balancer_go.Model.{Packet, Protocol, not_ect}

pub record SendBuffer : Type 0 where
  pub segments : List Packet
  pub first_pending_index : ℕ

-- The zero value of model.Packet.
abbrev pub zero_packet : Packet
zero_packet = record {
  key = record {
    src_ip = "";
    src_port = 0;
    dst_ip = "";
    dst_port = 0;
    protocol = Protocol.other "";
  };
  flag = record {
    syn = false;
    fin = false;
    rst = false;
    ack = false;
    psh = false;
    urg = false;
    ece = false;
    cwr = false;
  };
  size = pos 0;
  seq = 0;
  ack = 0;
  ecn = not_ect;
  receive_window_bytes = 0;
  sack_permitted = false;
  sack_blocks = [];
}

pub has_pending : SendBuffer → Bool
has_pending buffer = ltb buffer.first_pending_index (length buffer.segments)

-- `none` is the panic of an index out of range.
pub oldest : SendBuffer → Option Packet
oldest buffer = get_elem? buffer.segments buffer.first_pending_index

pub append : Packet → SendBuffer → SendBuffer
append packet buffer = record buffer { segments = buffer.segments ++ packet ∷ [] }

-- The loop of `acknowledge` over the pending segments: how many it passes, and what it leaves.
pub confirm : ℕ → List Packet → ℕ × List Packet
confirm ack [] = (0, [])
confirm ack (p ∷ ps) =
    let segment_end = p.seq +u64 to_u64 p.size in
    let rest = confirm ack ps in
    if leb ack p.seq
    then (0, p ∷ ps)
    else if ltb ack segment_end
    then (0, record p { size = pos (segment_end -u64 ack); seq = ack } ∷ ps)
    else (suc rest.0, zero_packet ∷ rest.1)

-- The emptied or shifted slice that `acknowledge` keeps.
pub compact : SendBuffer → SendBuffer
compact buffer =
    let remaining = length buffer.segments - buffer.first_pending_index in
    if leb remaining 0
    then record { segments = []; first_pending_index = 0 }
    else if leb remaining buffer.first_pending_index
    then record {
      segments = take remaining (drop buffer.first_pending_index buffer.segments);
      first_pending_index = 0;
    }
    else buffer

pub acknowledge : ℕ → SendBuffer → SendBuffer
unfolding confirm compact
acknowledge ack buffer =
    let index = buffer.first_pending_index in
    let passed = confirm ack (drop index buffer.segments) in
    compact (record {
      segments = take index buffer.segments ++ passed.1;
      first_pending_index = index + passed.0;
    })

pub reset : SendBuffer → SendBuffer
reset buffer = record { segments = []; first_pending_index = 0 }
