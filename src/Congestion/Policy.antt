-- ===== src/Congestion/Policy.antt =====
-- simulator/protocols/tcp/congestion_control/factory.go, and the dispatch of policy.go's interface.
-- CUBIC computes with floats: only the settings that it is made from are kept.
use balancer_go.Base.{
  ℕ, ◌/◌, Bool, true, false, ◌&&◌, ◌||◌, not, leb, ◌==◌, if◌then◌else◌, Option, none, some, List,
  [], ◌∷◌, ◌*u64◌,
}
use balancer_go.Base.Int.{ℤ, pos, negsuc, to_u64}
use balancer_go.Model.{valid_mss_bytes}
use balancer_go.Congestion.{
  Mode, CongestionConfig, ClassicWindow, Ack, Loss, State, disabled, max_congestion_window_bytes,
  new_classic_window, restart_after_idle, grow, reduce_for_ecn, window_state,
}
use balancer_go.Congestion.Reno.{RenoPolicy}
use balancer_go.Congestion.NewReno.{NewRenoPolicy}
use balancer_go.Congestion.Reno
use balancer_go.Congestion.NewReno
use balancer_go.Congestion.Tahoe

pub data Policy : Type 0 where
  unlimited : Policy
  reno : RenoPolicy → Policy
  new_reno : NewRenoPolicy → Policy
  tahoe : ClassicWindow → Policy

-- What the factory makes: one of these policies, or CUBIC's from its settings.
pub data Made : Type 0 where
  made : Policy → Made
  cubic : CongestionConfig → ℕ → Made

-- The calls of the interface that change a policy.
pub data Event : Type 0 where
  acked : Ack → Event
  duplicated stopped idled : Event
  lost : Loss → Event
  marked : ℕ → Event

abbrev pub is_none : Mode → Bool
is_none Mode.none = true
is_none _ = false

-- An int that is at least `least`, and as a uint64 at most `most`.
abbrev pub in_range : ℕ → ℕ → ℤ → Bool
in_range least most (pos n) = leb least n && leb (to_u64 (pos n)) most
in_range least most (negsuc n) = false

abbrev pub is_zero : ℤ → Bool
is_zero (pos n) = n == 0
is_zero (negsuc n) = false

unfoldable pub is_valid_config : CongestionConfig → ℕ → Bool
is_valid_config config segment_bytes =
    let maximum_initial_segments = max_congestion_window_bytes / segment_bytes in
    let valid_initial = in_range 1 maximum_initial_segments config.initial_window_segments in
    let valid_maximum =
      in_range 0 maximum_initial_segments config.maximum_window_segments
      && not (is_none config.mode && not (is_zero config.maximum_window_segments)) in
    let valid_threshold =
      leb (2 *u64 segment_bytes) config.initial_slow_start_threshold_bytes
      && leb config.initial_slow_start_threshold_bytes max_congestion_window_bytes in
    let valid_retransmit = not config.fast_retransmit || not (is_none config.mode) in
    valid_initial && valid_maximum && valid_threshold && valid_retransmit

unfoldable pub make : CongestionConfig → ℕ → Made
make config mss = elim config.mode [
  | Mode.reno ↦ made (
      reno (record {
        window = new_classic_window config mss;
        active_recovery = false;
        remaining_inflations = 0;
        recovery_window_bytes = 0;
      }))
  | Mode.new_reno ↦ made (new_reno (NewReno.new config mss))
  | Mode.tahoe ↦ made (tahoe (new_classic_window config mss))
  | Mode.cubic ↦ cubic config mss
  | Mode.none ↦ made unlimited
]

-- NewWithMSS; `none` is its panic. Every `Mode` of the model is one of the supported modes.
unfoldable pub new_with_mss : CongestionConfig → ℤ → Option Made
new_with_mss config (negsuc n) = none
new_with_mss config (pos mss) =
    if valid_mss_bytes (pos mss) && is_valid_config config mss then some (make config mss) else none

unfoldable pub apply : Event → Policy → Policy
apply event unlimited = unlimited
apply (acked a) (reno p) = reno (Reno.on_ack a p)
apply duplicated (reno p) = reno (Reno.on_duplicate_ack p)
apply stopped (reno p) = reno (Reno.stop_recovery p)
apply idled (reno p) = reno (record p { window = restart_after_idle p.window })
apply (lost l) (reno p) = reno (Reno.on_loss l p)
apply (marked flight) (reno p) = reno (Reno.on_ecn flight p)
apply (acked a) (new_reno p) = new_reno (NewReno.on_ack a p).0
apply duplicated (new_reno p) = new_reno (NewReno.on_duplicate_ack p)
apply stopped (new_reno p) = new_reno (NewReno.stop_recovery p)
apply idled (new_reno p) = new_reno (record p { window = restart_after_idle p.window })
apply (lost l) (new_reno p) = new_reno (NewReno.on_loss l p).0
apply (marked flight) (new_reno p) = new_reno (NewReno.on_ecn flight p)
apply (acked a) (tahoe w) = tahoe (grow a w)
apply duplicated (tahoe w) = tahoe w
apply stopped (tahoe w) = tahoe w
apply idled (tahoe w) = tahoe (restart_after_idle w)
apply (lost l) (tahoe w) = tahoe (Tahoe.on_loss l w)
apply (marked flight) (tahoe w) = tahoe (reduce_for_ecn flight w)

unfoldable pub apply_all : List Event → Policy → Policy
apply_all [] p = p
apply_all (e ∷ es) p = apply_all es (apply e p)

unfoldable pub policy_state : Policy → State
policy_state unlimited = record {
  window_bytes = 0;
  threshold_bytes = 0;
  phase = disabled;
  limits_new_data = false;
}
policy_state (reno p) = Reno.state p
policy_state (new_reno p) = NewReno.state p
policy_state (tahoe w) = window_state w
