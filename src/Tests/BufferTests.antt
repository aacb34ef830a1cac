-- ===== src/Tests/BufferTests.antt =====
-- The send and the receive buffer, and the packet's sizes, at concrete inputs.
use Prim.{tt}
use balancer_go.Base.{
  ℕ, ◌≡◌, refl, true, false, ◌&&◌, ◌||◌, not, ltb, leb, [], ◌∷◌, ◌++◌, arith, some, map, ◌+u64◌,
  ◌-u64◌,
}
use balancer_go.Base.Int.{pos}
use balancer_go.Ranges.{covered}
use balancer_go.Ranges.Count.{count}
use balancer_go.ReceiveBuffer.{ReceiveBuffer, accept, window_end, window_bytes}
use balancer_go.ReceiveBuffer.Accept.{IsBuffer, received}
use balancer_go.ReceiveBuffer.Window.{accept-IsBuffer, received-accept, accept_counts}
use balancer_go.Model.{Packet, tcp, not_ect, sequence_end}
use balancer_go.Model.Packets.{sequence_end_lem}
use balancer_go.SendBuffer.{SendBuffer, acknowledge, append}
use balancer_go.SendBuffer.Acknowledge as Send

-- Bytes 5 to 7 have arrived, and byte 3 is expected next.
abbrev waiting : ReceiveBuffer
waiting = record {
  next_expected_seq = 3;
  capacity = 10;
  buffered_bytes = 3;
  ranges = record { start = 5; end = 8 } ∷ [];
}

waiting-IsBuffer : IsBuffer waiting
unfolding window_bytes window_end ◌+u64◌ ◌-u64◌
waiting-IsBuffer = record {
  sequence = omega arith;
  small = omega arith;
  separated = (omega arith, omega arith, tt);
  below = (omega arith, tt);
  counted = refl;
}

accept-IsBuffer_example : IsBuffer (accept waiting 3 6).0
accept-IsBuffer_example = accept-IsBuffer waiting waiting-IsBuffer 3 6

received-accept_example :
    received 4 (accept waiting 3 6).0
    ≡ (received 4 waiting || (leb 3 4 && ltb 4 6 && ltb 4 (window_end waiting)))
received-accept_example = received-accept waiting waiting-IsBuffer 3 6 4

accept_counts_example :
    (accept waiting 3 6).1
    ≡ count
        (window_end waiting)
        (λ x. received x (accept waiting 3 6).0 && not (received x waiting))
accept_counts_example = accept_counts waiting waiting-IsBuffer 3 6

abbrev data_packet : ℕ → ℕ → Packet
data_packet seq size = record {
  key = record { src_ip = "a"; src_port = 1; dst_ip = "b"; dst_port = 2; protocol = tcp };
  flag = record {
    syn = false;
    fin = false;
    rst = false;
    ack = true;
    psh = false;
    urg = false;
    ece = false;
    cwr = false;
  };
  size = pos size;
  seq = seq;
  ack = 0;
  ecn = not_ect;
  receive_window_bytes = 0;
  sack_permitted = false;
  sack_blocks = [];
}

abbrev sent : SendBuffer
sent = record { segments = data_packet 1 4 ∷ data_packet 5 4 ∷ []; first_pending_index = 0 }

sent-IsBuffer : Send.IsBuffer sent
sent-IsBuffer = record {
  bounded = omega arith;
  ordered = (omega arith, omega arith, omega arith, (omega arith, omega arith, omega arith, tt));
}

acknowledge_lem_example :
    Send.IsBuffer (acknowledge 3 sent)
    × ((x : ℕ)
        → covered x (map Send.payload (Send.pending (acknowledge 3 sent)))
          ≡ (leb 3 x && covered x (map Send.payload (Send.pending sent))))
acknowledge_lem_example = Send.acknowledge_lem 3 sent sent-IsBuffer

append_lem_example :
    Send.IsBuffer (append (data_packet 9 2) sent)
    × (Send.pending (append (data_packet 9 2) sent) ≡ Send.pending sent ++ data_packet 9 2 ∷ [])
append_lem_example =
    Send.append_lem (data_packet 9 2) sent sent-IsBuffer (λ x h. ground arith) (omega arith)
      (omega arith)

sequence_end_lem_example : sequence_end (data_packet 5 4) ≡ some 9
sequence_end_lem_example = sequence_end_lem (data_packet 5 4) 4 refl (omega arith) (omega arith)
