-- ===== src/Tests/CongestionTests.antt =====
-- Congestion control and the retransmission timeout at concrete settings.
use Prim.{tt}
use Prim.Native.Nat.{◌^◌}
use balancer_go.Base.{
  ℕ, ◌+◌, ◌*◌, ◌/◌, ◌≡◌, ◌≤◌, refl, true, false, [], ◌∷◌, arith, some, min, max, ◌*u64◌,
}
use balancer_go.Base.Int.{pos}
use balancer_go.Congestion.{
  CongestionConfig, ClassicWindow, Ack, Loss, fast_retransmit_loss, Mode, new_classic_window,
}
use balancer_go.Congestion.Reno
use balancer_go.Congestion.Reno.{RenoPolicy}
use balancer_go.Congestion.Policy.{
  reno, made, acked, lost, duplicated, new_with_mss, apply_all, policy_state, make, is_valid_config,
}
use balancer_go.Congestion.Bounds.{IsWindow}
use balancer_go.Congestion.Lifetime.{IsBounded, ceiling, state-IsBounded}
use balancer_go.Congestion.Recovery.{duplicates, recovery_lem}
use balancer_go.Model.{valid_mss_bytes}
use balancer_go.Congestion.CubicClock.{
  CubicClock, SenderState, on_sender_state, active_at, on_sender_state_lem, cubic_retained_bytes,
  cubic_loss_threshold, cubic_loss_threshold_lem,
}
use balancer_go.Rto
use balancer_go.Rto.{RtoEstimator, RtoConfig, RtoState, default_rto_config, measured_timeout}
use balancer_go.Rto.Estimate.{timeouts, timeouts_lem, measured_timeout_lem, smooth_duration_lem}
use balancer_go.Rto.Lifetime as Life

-- Segments of 1000 bytes, and at most 20 of them in the window.
abbrev reno_settings : CongestionConfig
reno_settings = record {
  mode = Mode.reno;
  fast_retransmit = true;
  cubic_fast_convergence = false;
  initial_window_segments = pos 10;
  maximum_window_segments = pos 20;
  initial_slow_start_threshold_bytes = 65535;
}

abbrev window_at : ℕ → ClassicWindow
window_at bytes = record {
  mss_bytes = 1000;
  startup_window_bytes = 10000;
  congestion_window_bytes = bytes;
  maximum_window_bytes = 20000;
  slow_start_threshold_bytes = 65535;
  avoidance_acknowledged_bytes = 0;
}

abbrev first_policy : RenoPolicy
first_policy = record {
  window = window_at 10000;
  active_recovery = false;
  remaining_inflations = 0;
  recovery_window_bytes = 0;
}

settings_accepted : new_with_mss reno_settings (pos 1000) ≡ some (made (reno first_policy))
unfolding new_with_mss make is_valid_config valid_mss_bytes new_classic_window ◌*u64◌
settings_accepted = refl

abbrev first_loss : Loss
first_loss = record {
  kind = fast_retransmit_loss;
  flight_bytes = 10000;
  cumulative_ack = 1;
  next_send_seq = 10001;
  pending_segments = 10;
  already_timed_out = false;
  already_reduced = false;
  sack_recovery = false;
}

abbrev new_ack : Ack
new_ack = record {
  new_bytes = 10000;
  flight_bytes = 0;
  cumulative_ack = 10001;
  ecn = false;
  sack_recovery = false;
  end_sack_recovery = false;
}

state-IsBounded_example : IsBounded 1000 (ceiling (pos 20) 1000) (
    policy_state
      (apply_all (lost first_loss ∷ duplicated ∷ acked new_ack ∷ []) (reno first_policy)))
state-IsBounded_example =
    state-IsBounded reno_settings 1000 (reno first_policy) (omega arith) (omega arith)
      settings_accepted (lost first_loss ∷ duplicated ∷ acked new_ack ∷ [])
      (omega arith, (tt, (omega arith, tt)))

first-IsWindow : IsWindow (window_at 10000)
first-IsWindow = ground arith

recovery_lem_example :
    let q = Reno.on_ack new_ack (duplicates 4 (Reno.on_loss first_loss first_policy)) in
    let half = max (10000 / 2) (2 * 1000) in
    (q.active_recovery ≡ false)
    × (q.window.congestion_window_bytes ≡ min half 20000)
    × (q.window.slow_start_threshold_bytes ≡ half)
    × (q.window.avoidance_acknowledged_bytes ≡ 0)
recovery_lem_example = recovery_lem first_policy first_loss 4 new_ack first-IsWindow refl refl refl

abbrev first_estimator : RtoEstimator
first_estimator = record {
  config = default_rto_config;
  state = record {
    latest_rtt = 0;
    smoothed_rtt = 0;
    rtt_variation = 0;
    base_rto = 1000000000;
    current_rto = 1000000000;
    samples = 0;
  };
}

estimator_made : Rto.new default_rto_config ≡ some first_estimator
unfolding Rto.new default_rto_config
estimator_made = refl

run-IsEstimator_example :
    Life.Ends default_rto_config
      (Life.run (Life.sample (pos 400000000) ∷ Life.timeout ∷ []) first_estimator)
run-IsEstimator_example =
    Life.run-IsEstimator default_rto_config first_estimator estimator_made
      (Life.sample (pos 400000000) ∷ Life.timeout ∷ []) tt

default_limits :
    (default_rto_config.exponential_backoff ≡ true)
    × (1 ≤ default_rto_config.minimum_timeout)
    × (default_rto_config.minimum_timeout ≤ default_rto_config.maximum_timeout)
    × (1000000000 ≤ default_rto_config.maximum_timeout)
unfolding default_rto_config
default_limits = (refl, omega arith, omega arith, omega arith)

timeouts_lem_example :
    (timeouts 3 first_estimator).state.current_rto
    ≡ min default_rto_config.maximum_timeout (1000000000 * 2 ^ 3)
timeouts_lem_example = timeouts_lem 3 first_estimator default_limits.0 default_limits.3

measured_timeout_lem_example :
    measured_timeout first_estimator
    ≡ max default_rto_config.minimum_timeout
        (min default_rto_config.maximum_timeout (0 + max 1 (4 * 0)))
measured_timeout_lem_example =
    measured_timeout_lem first_estimator default_limits.1 default_limits.2

smooth_duration_lem_example :
    (Rto.smooth_duration 400 600 4 ≡ (3 * 400 + 600) / 4)
    × (Rto.smooth_duration 400 600 8 ≡ (7 * 400 + 600) / 8)
smooth_duration_lem_example = smooth_duration_lem 400 600

-- The sender has waited since the time 10, and still has nothing to send at 20.
abbrev paused_clock : CubicClock
paused_clock = record { limited = true; paused_at = 10; paused_until = 0; total_paused = 4 }

abbrev no_data : SenderState
no_data = record {
  at = 20;
  flight_bytes = 0;
  receive_window_bytes = 65535;
  has_data = false;
  ready_at = 0;
}

on_sender_state_lem_example :
    (active_at 20 (on_sender_state 10000 no_data paused_clock) ≡ active_at 20 paused_clock)
    × (active_at 25 (on_sender_state 10000 no_data paused_clock)
        ≤ active_at 30 (on_sender_state 10000 no_data paused_clock))
    × (active_at 30 (on_sender_state 10000 no_data paused_clock)
        ≤ active_at 25 (on_sender_state 10000 no_data paused_clock) + 5)
    × ((on_sender_state 10000 no_data paused_clock).total_paused
        ≤ (on_sender_state 10000 no_data paused_clock).paused_at)
on_sender_state_lem_example =
    on_sender_state_lem 10000 no_data paused_clock 25 30 (omega arith) (omega arith) (omega arith)
      (omega arith)

cubic_loss_threshold_lem_example :
    (cubic_retained_bytes 10000 ≡ 7 * 10000 / 10)
    × (cubic_loss_threshold 10000 1000 ≡ max (7 * 10000 / 10) (2 * 1000))
cubic_loss_threshold_lem_example = cubic_loss_threshold_lem 10000 1000 (omega arith) (omega arith)
