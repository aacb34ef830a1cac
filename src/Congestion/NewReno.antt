-- ===== src/Congestion/NewReno.antt =====
-- simulator/protocols/tcp/congestion_control/newreno.go.
use balancer_go.Base.{
  ℕ, ◌-◌, ◌/◌, Bool, true, false, ◌&&◌, ◌||◌, not, ltb, leb, if◌then◌else◌, min, max, ◌*u64◌,
  ◌-u64◌,
}
use balancer_go.Congestion.{
  ClassicWindow, State, fast_recovery, Ack, AckResponse, no_response, Loss, CongestionConfig,
  LossKind, fast_retransmit_loss, timeout_loss, handshake_loss, add_bytes, set_window, grow,
  reduce_for_ecn, restart_after_loss, restart_after_handshake_loss, window_state,
  new_classic_window,
}

pub record NewRenoPolicy : Type 0 where
  pub window : ClassicWindow
  pub active_recovery : Bool
  pub recovery_end_seq : ℕ
  pub remaining_inflations : ℕ
  pub partial_ack_seen : Bool
  pub recovery_window_bytes : ℕ

unfoldable pub new : CongestionConfig → ℕ → NewRenoPolicy
new config mss = record {
  window = new_classic_window config mss;
  active_recovery = false;
  recovery_end_seq = 1;
  remaining_inflations = 0;
  partial_ack_seen = false;
  recovery_window_bytes = 0;
}

unfoldable pub stop_recovery : NewRenoPolicy → NewRenoPolicy
stop_recovery p = record p {
  active_recovery = false;
  remaining_inflations = 0;
  partial_ack_seen = false;
}

-- Leaves recovery with the given window.
unfoldable pub finish_recovery : ℕ → NewRenoPolicy → NewRenoPolicy
finish_recovery bytes p = record (stop_recovery p) {
  window = record (set_window bytes p.window) { avoidance_acknowledged_bytes = 0 };
}

-- The end of `OnACK`, for a partial ACK without SACK.
unfoldable pub deflate : ℕ → ClassicWindow → ClassicWindow
deflate new_bytes window =
    let smaller =
      set_window (window.congestion_window_bytes -u64 min window.congestion_window_bytes new_bytes)
        window in
    let refilled =
      if leb window.mss_bytes new_bytes
      then set_window (add_bytes smaller.congestion_window_bytes window.mss_bytes) smaller
      else smaller in
    set_window (max refilled.congestion_window_bytes window.mss_bytes) refilled

unfoldable pub on_ack : Ack → NewRenoPolicy → NewRenoPolicy × AckResponse
on_ack ack p =
    if not p.active_recovery
    then (record p { window = grow ack p.window }, no_response)
    else if ack.sack_recovery
    then (
      if ack.end_sack_recovery then finish_recovery p.recovery_window_bytes p else p,
      no_response,
    )
    else if leb p.recovery_end_seq ack.cumulative_ack
    then (
      finish_recovery
          (min p.recovery_window_bytes
            (add_bytes (max ack.flight_bytes p.window.mss_bytes) p.window.mss_bytes))
          p,
      no_response,
    )
    else (
      record p { window = deflate ack.new_bytes p.window; partial_ack_seen = true },
      record { retransmit_oldest = true; preserve_retransmit_timer = p.partial_ack_seen },
    )

unfoldable pub on_duplicate_ack : NewRenoPolicy → NewRenoPolicy
on_duplicate_ack p =
    if p.active_recovery && ltb 0 p.remaining_inflations
    then record p {
      remaining_inflations = p.remaining_inflations - 1;
      window = set_window (add_bytes p.window.congestion_window_bytes p.window.mss_bytes) p.window;
    }
    else p

unfoldable pub enter_recovery : Loss → NewRenoPolicy → NewRenoPolicy
enter_recovery loss p =
    let threshold =
      if loss.already_reduced
      then p.window.slow_start_threshold_bytes
      else max (loss.flight_bytes / 2) (2 *u64 p.window.mss_bytes) in
    let recovery = if loss.already_reduced then p.window.congestion_window_bytes else threshold in
    let reduced =
      record (set_window recovery (record p.window { slow_start_threshold_bytes = threshold })) {
        avoidance_acknowledged_bytes = 0;
      } in
    record {
      window =
          if loss.sack_recovery
          then reduced
          else set_window (add_bytes recovery (3 *u64 p.window.mss_bytes)) reduced;
      active_recovery = true;
      recovery_end_seq = loss.next_send_seq;
      remaining_inflations = if loss.sack_recovery then 0 else loss.pending_segments - 3;
      partial_ack_seen = false;
      recovery_window_bytes = recovery;
    }

-- The loss is of a flight that recovery, or a timeout, has already dealt with.
abbrev pub is_old_flight : Loss → NewRenoPolicy → Bool
is_old_flight loss p =
    p.active_recovery
    || (not loss.sack_recovery
        && not loss.already_reduced
        && leb loss.cumulative_ack p.recovery_end_seq)

-- The cases of `OnLoss`. The second part of the result is `SuppressFastRetransmit`.
unfoldable pub on_loss_of : LossKind → Loss → NewRenoPolicy → NewRenoPolicy × Bool
on_loss_of fast_retransmit_loss loss p =
    if is_old_flight loss p then (p, true) else (enter_recovery loss p, false)
on_loss_of timeout_loss loss p = (
  record (stop_recovery p) {
    recovery_end_seq = loss.next_send_seq;
    window =
        restart_after_loss loss.flight_bytes (loss.already_timed_out || loss.already_reduced)
          p.window;
  },
  false,
)
on_loss_of handshake_loss loss p =
    (record (stop_recovery p) { window = restart_after_handshake_loss p.window }, false)

unfoldable pub on_loss : Loss → NewRenoPolicy → NewRenoPolicy × Bool
unfolding on_loss_of
on_loss loss p = on_loss_of loss.kind loss p

unfoldable pub on_ecn : ℕ → NewRenoPolicy → NewRenoPolicy
on_ecn flight p =
    let window = reduce_for_ecn flight p.window in
    record p {
      window = window;
      recovery_window_bytes =
          if p.active_recovery then window.congestion_window_bytes else p.recovery_window_bytes;
    }

unfoldable pub state : NewRenoPolicy → State
state p =
    let base = window_state p.window in
    record base { phase = if p.active_recovery then fast_recovery else base.phase }
