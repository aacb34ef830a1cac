-- ===== src/Congestion.antt =====
-- simulator/protocols/tcp/congestion_control/window.go and policy.go: the window rules that the Reno
-- variants share, and the events that TCP hands to a policy.
pub mod Reno
pub mod NewReno
pub mod Tahoe
pub mod CubicClock
pub mod Policy
pub mod Bounds
pub mod Recovery
pub mod Invariant
pub mod RenoBounds
pub mod NewRenoBounds
pub mod Limits
pub mod Lifetime
use balancer_go.Base.{
  ℕ, ◌+◌, ◌-◌, ◌/◌, Bool, true, false, ◌&&◌, ◌||◌, not, ltb, leb, ◌==◌, if◌then◌else◌, min, max,
  max_i64, ◌*u64◌, ◌-u64◌, ◌+u64◌,
}
use balancer_go.Base.Int.{ℤ, pos, negsuc, to_u64}

-- model.MaxCongestionWindowBytes
abbrev pub max_congestion_window_bytes : ℕ
max_congestion_window_bytes = max_i64

pub data Mode : Type 0 where
  none reno new_reno tahoe cubic : Mode

pub record CongestionConfig : Type 0 where
  pub mode : Mode
  pub fast_retransmit : Bool
  pub cubic_fast_convergence : Bool
  pub initial_window_segments : ℤ
  pub maximum_window_segments : ℤ
  pub initial_slow_start_threshold_bytes : ℕ

pub record ClassicWindow : Type 0 where
  pub mss_bytes : ℕ
  pub startup_window_bytes : ℕ
  pub congestion_window_bytes : ℕ
  pub maximum_window_bytes : ℕ
  pub slow_start_threshold_bytes : ℕ
  pub avoidance_acknowledged_bytes : ℕ

pub data Phase : Type 0 where
  disabled slow_start congestion_avoidance fast_recovery : Phase

pub record State : Type 0 where
  pub window_bytes : ℕ
  pub threshold_bytes : ℕ
  pub phase : Phase
  pub limits_new_data : Bool

-- The fields of `ACK` that the Reno variants read.
pub record Ack : Type 0 where
  pub new_bytes : ℕ
  pub cumulative_ack : ℕ
  pub flight_bytes : ℕ
  pub ecn : Bool
  pub sack_recovery : Bool
  pub end_sack_recovery : Bool

pub record AckResponse : Type 0 where
  pub retransmit_oldest : Bool
  pub preserve_retransmit_timer : Bool

abbrev pub no_response : AckResponse
no_response = record { retransmit_oldest = false; preserve_retransmit_timer = false }

pub data LossKind : Type 0 where
  fast_retransmit_loss timeout_loss handshake_loss : LossKind

-- `pending_segments` counts segments: it is not negative.
pub record Loss : Type 0 where
  pub kind : LossKind
  pub flight_bytes : ℕ
  pub cumulative_ack : ℕ
  pub next_send_seq : ℕ
  pub pending_segments : ℕ
  pub already_timed_out : Bool
  pub already_reduced : Bool
  pub sack_recovery : Bool

-- addCongestionBytes
unfoldable pub add_bytes : ℕ → ℕ → ℕ
add_bytes current increase =
    if leb (max_congestion_window_bytes -u64 current) increase
    then max_congestion_window_bytes
    else current +u64 increase

unfoldable pub set_window : ℕ → ClassicWindow → ClassicWindow
set_window bytes window =
    let maximum =
      if window.maximum_window_bytes == 0
      then max_congestion_window_bytes
      else window.maximum_window_bytes in
    record window { congestion_window_bytes = min bytes maximum }

unfoldable pub new_classic_window : CongestionConfig → ℕ → ClassicWindow
new_classic_window config mss =
    let maximum : ℕ = elim config.maximum_window_segments [
      | negsuc n ↦ max_congestion_window_bytes
      | pos segments ↦
          if ltb 0 segments then to_u64 (pos segments) *u64 mss else max_congestion_window_bytes
    ] in
    let initial = min (to_u64 config.initial_window_segments *u64 mss) maximum in
    record {
      mss_bytes = mss;
      startup_window_bytes = initial;
      congestion_window_bytes = initial;
      maximum_window_bytes = maximum;
      slow_start_threshold_bytes = config.initial_slow_start_threshold_bytes;
      avoidance_acknowledged_bytes = 0;
    }

-- classicWindow.OnACK, which always answers with the zero response.
unfoldable pub grow : Ack → ClassicWindow → ClassicWindow
grow ack window =
    if ack.ecn
    then window
    else if ltb window.congestion_window_bytes window.slow_start_threshold_bytes
    then set_window (add_bytes window.congestion_window_bytes (min ack.new_bytes window.mss_bytes))
        window
    else let acknowledged = add_bytes window.avoidance_acknowledged_bytes ack.new_bytes in
      if leb window.congestion_window_bytes acknowledged
      then set_window (add_bytes window.congestion_window_bytes window.mss_bytes) (record window {
        avoidance_acknowledged_bytes = acknowledged -u64 window.congestion_window_bytes;
      })
      else record window { avoidance_acknowledged_bytes = acknowledged }

-- classicWindow.OnECN
unfoldable pub reduce_for_ecn : ℕ → ClassicWindow → ClassicWindow
reduce_for_ecn flight window =
    let reduced =
      set_window (max (window.congestion_window_bytes / 2) window.mss_bytes) (record window {
        slow_start_threshold_bytes = max (flight / 2) (2 *u64 window.mss_bytes);
      }) in
    record reduced { avoidance_acknowledged_bytes = 0 }

unfoldable pub restart_after_loss : ℕ → Bool → ClassicWindow → ClassicWindow
restart_after_loss flight already_timed_out window =
    let threshold =
      if already_timed_out
      then window.slow_start_threshold_bytes
      else max (flight / 2) (2 *u64 window.mss_bytes) in
    let reduced =
      set_window window.mss_bytes (record window { slow_start_threshold_bytes = threshold }) in
    record reduced { avoidance_acknowledged_bytes = 0 }

unfoldable pub restart_after_handshake_loss : ClassicWindow → ClassicWindow
restart_after_handshake_loss window =
    let reduced =
      set_window window.mss_bytes (record window { startup_window_bytes = window.mss_bytes }) in
    record reduced { avoidance_acknowledged_bytes = 0 }

-- classicWindow.OnIdle
unfoldable pub restart_after_idle : ClassicWindow → ClassicWindow
restart_after_idle window =
    let reduced =
      set_window (min window.congestion_window_bytes window.startup_window_bytes) window in
    record reduced { avoidance_acknowledged_bytes = 0 }

unfoldable pub window_state : ClassicWindow → State
window_state window = record {
  window_bytes = window.congestion_window_bytes;
  threshold_bytes = window.slow_start_threshold_bytes;
  phase =
      if ltb window.congestion_window_bytes window.slow_start_threshold_bytes
      then slow_start
      else congestion_avoidance;
  limits_new_data = true;
}
