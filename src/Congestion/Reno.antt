-- ===== src/Congestion/Reno.antt =====
-- simulator/protocols/tcp/congestion_control/reno.go.
use balancer_go.Base.{
  ℕ, ◌-◌, ◌/◌, Bool, true, false, ◌&&◌, ◌||◌, not, ltb, if◌then◌else◌, max, ◌*u64◌,
}
use balancer_go.Congestion.{
  ClassicWindow, State, fast_recovery, Ack, Loss, LossKind, fast_retransmit_loss, timeout_loss,
  handshake_loss, add_bytes, set_window, grow, reduce_for_ecn, restart_after_loss,
  restart_after_handshake_loss, window_state,
}

pub record RenoPolicy : Type 0 where
  pub window : ClassicWindow
  pub active_recovery : Bool
  pub remaining_inflations : ℕ
  pub recovery_window_bytes : ℕ

unfoldable pub stop_recovery : RenoPolicy → RenoPolicy
stop_recovery p = record p { active_recovery = false; remaining_inflations = 0 }

unfoldable pub on_ack : Ack → RenoPolicy → RenoPolicy
on_ack ack p =
    if p.active_recovery
    then if ack.sack_recovery && not ack.end_sack_recovery then p else record (stop_recovery p) {
      window = record (set_window p.recovery_window_bytes p.window) {
        avoidance_acknowledged_bytes = 0;
      };
    }
    else record p { window = grow ack p.window }

unfoldable pub on_duplicate_ack : RenoPolicy → RenoPolicy
on_duplicate_ack p =
    if p.active_recovery && ltb 0 p.remaining_inflations
    then record p {
      remaining_inflations = p.remaining_inflations - 1;
      window = set_window (add_bytes p.window.congestion_window_bytes p.window.mss_bytes) p.window;
    }
    else p

-- The case of `OnLoss` for a fast retransmit.
unfoldable pub enter_recovery : Loss → RenoPolicy → RenoPolicy
enter_recovery loss p =
    let threshold =
      if loss.already_reduced
      then p.window.slow_start_threshold_bytes
      else max (loss.flight_bytes / 2) (2 *u64 p.window.mss_bytes) in
    let recovery = if loss.already_reduced then p.window.congestion_window_bytes else threshold in
    let reduced =
      record (set_window recovery (record p.window { slow_start_threshold_bytes = threshold })) {
        avoidance_acknowledged_bytes = 0;
      } in
    if loss.sack_recovery
    then record {
      window = reduced;
      active_recovery = true;
      remaining_inflations = 0;
      recovery_window_bytes = recovery;
    }
    else record {
      window = set_window (add_bytes recovery (3 *u64 p.window.mss_bytes)) reduced;
      active_recovery = true;
      remaining_inflations = loss.pending_segments - 3;
      recovery_window_bytes = recovery;
    }

-- The cases of `OnLoss`.
unfoldable pub on_loss_of : LossKind → Loss → RenoPolicy → RenoPolicy
on_loss_of fast_retransmit_loss loss p = enter_recovery loss p
on_loss_of timeout_loss loss p = record (stop_recovery p) {
  window =
      restart_after_loss loss.flight_bytes (loss.already_timed_out || loss.already_reduced)
        p.window;
}
on_loss_of handshake_loss loss p = record p { window = restart_after_handshake_loss p.window }

unfoldable pub on_loss : Loss → RenoPolicy → RenoPolicy
unfolding on_loss_of
on_loss loss p = on_loss_of loss.kind loss p

unfoldable pub on_ecn : ℕ → RenoPolicy → RenoPolicy
on_ecn flight p =
    let window = reduce_for_ecn flight p.window in
    record p {
      window = window;
      recovery_window_bytes =
          if p.active_recovery then window.congestion_window_bytes else p.recovery_window_bytes;
    }

unfoldable pub state : RenoPolicy → State
state p =
    let base = window_state p.window in
    record base { phase = if p.active_recovery then fast_recovery else base.phase }
