-- ===== src/Congestion/CubicClock.antt =====
-- simulator/protocols/tcp/congestion_control/cubic_clock.go: CUBIC's clock, which stops while the sender
-- cannot use its window; and the whole-number part of cubic_math.go. A time is a count of nanoseconds on the engine's clock.
use balancer_go.Base.{
  ℕ, ◌+◌, ◌-◌, ◌≤◌, ◌≡◌, Bool, ◌&&◌, ◌||◌, not, ltb, ◌==◌, if◌then◌else◌, min, max, arith, max_u64,
  ◌*◌, ◌/◌, ◌%◌, ◌*u64◌, ◌+u64◌, *u64_lem, +u64_lem,
}

pub record CubicClock : Type 0 where
  pub limited : Bool
  pub paused_at : ℕ
  pub paused_until : ℕ
  pub total_paused : ℕ

pub record SenderState : Type 0 where
  pub at : ℕ
  pub flight_bytes : ℕ
  pub receive_window_bytes : ℕ
  pub has_data : Bool
  pub ready_at : ℕ

-- The end of a pause that has lasted until `now`, where it is known to end.
abbrev pub pause_end : ℕ → CubicClock → ℕ
pause_end now clock = if clock.paused_until == 0 then now else min now clock.paused_until

-- OnSenderState, of a policy whose congestion window is so large.
unfoldable pub on_sender_state : ℕ → SenderState → CubicClock → CubicClock
on_sender_state window sender clock =
    let total =
      if clock.limited
      then clock.total_paused + (pause_end sender.at clock - clock.paused_at)
      else clock.total_paused in
    let has_spare_window = ltb sender.flight_bytes window in
    let no_data = not sender.has_data in
    let receiver_limited = ltb sender.receive_window_bytes window in
    let waiting_for_gap = ltb sender.at sender.ready_at in
    let limited = has_spare_window && (no_data || receiver_limited || waiting_for_gap) in
    record {
      limited = limited;
      paused_at = sender.at;
      paused_until =
          if limited && waiting_for_gap && not no_data && not receiver_limited
          then sender.ready_at
          else 0;
      total_paused = total;
    }

unfoldable pub active_at : ℕ → CubicClock → ℕ
active_at now clock =
    let paused =
      if clock.limited
      then clock.total_paused + (pause_end now clock - clock.paused_at)
      else clock.total_paused in
    now - paused

-- From an observation on, the clock shows what it showed before it, never runs backward, and never
-- runs faster than the engine's. It keeps its pauses within the time that has passed.
pub on_sender_state_lem :
    (window : ℕ) (s : SenderState) (c : CubicClock) (a b : ℕ)
    → c.total_paused ≤ c.paused_at
    → c.paused_at ≤ s.at
    → s.at ≤ a
    → a ≤ b
    → let d = on_sender_state window s c in
      (active_at s.at d ≡ active_at s.at c)
      × (active_at a d ≤ active_at b d)
      × (active_at b d ≤ active_at a d + (b - a))
      × (d.total_paused ≤ d.paused_at)
unfolding on_sender_state active_at
on_sender_state_lem window s c a b h k l m = ground arith

unfoldable pub cubic_retained_bytes : ℕ → ℕ
cubic_retained_bytes bytes = (bytes / 10 *u64 7) +u64 (bytes % 10 *u64 7) / 10

unfoldable pub cubic_loss_threshold : ℕ → ℕ → ℕ
cubic_loss_threshold flight mss = max (cubic_retained_bytes flight) (2 *u64 mss)

-- For any uint64 CUBIC keeps seven tenths of it, rounded down, although that product may not fit one;
-- and for a segment size that can be doubled, its threshold is at least two segments, and no more than
-- the flight or two segments.
pub cubic_loss_threshold_lem :
    (flight mss : ℕ)
    → flight ≤ max_u64
    → 2 * mss ≤ max_u64
    → (cubic_retained_bytes flight ≡ 7 * flight / 10)
      × (cubic_loss_threshold flight mss ≡ max (7 * flight / 10) (2 * mss))
unfolding cubic_loss_threshold cubic_retained_bytes
cubic_loss_threshold_lem flight mss h k =
    let tenths = *u64_lem (flight / 10) 7 (omega arith) in
    let rest = *u64_lem (flight % 10) 7 (omega arith) in
    let sum = +u64_lem (flight / 10 * 7) (flight % 10 * 7 / 10) (omega arith) in
    let double = *u64_lem 2 mss k in rw (tenths, rest, sum, double) (omega arith, omega arith)
