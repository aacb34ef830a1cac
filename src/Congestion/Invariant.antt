-- ===== src/Congestion/Invariant.antt =====
-- simulator/protocols/tcp/congestion_control: a policy's state, and the windows of a recovery.
use balancer_go.Base.{
  ℕ, ◌*◌, ◌/◌, ◌≤◌, ◌≡◌, refl, Bool, true, if◌then◌else◌, max, max_i64, max_u64, ◌*u64◌, arith,
}
use balancer_go.Congestion.{
  ClassicWindow, Ack, Loss, add_bytes, set_window, grow, restart_after_handshake_loss,
  restart_after_idle,
}
use balancer_go.Congestion.Policy.{
  Policy, unlimited, reno, new_reno, tahoe, Event, acked, lost, marked,
}
use balancer_go.Congestion.Bounds.{
  IsWindow, add_bytes_lem, set_window-IsWindow, counter-IsWindow, threshold-IsWindow, halved,
}

-- While it recovers, a policy remembers a window of at least a segment.
pub record IsRecovering (active : Bool) (w : ClassicWindow) (recovery : ℕ) : Type 0 where
  pub window : IsWindow w
  pub remembered : active ≡ true → (w.mss_bytes ≤ recovery) × (recovery ≤ max_i64)

abbrev pub IsPolicy : Policy → Type 0
IsPolicy unlimited = Unit
IsPolicy (reno p) = IsRecovering p.active_recovery p.window p.recovery_window_bytes
IsPolicy (new_reno p) = IsRecovering p.active_recovery p.window p.recovery_window_bytes
IsPolicy (tahoe w) = IsWindow w

-- The flights that TCP reports: a uint64, and an acknowledged one that an int64 holds too.
abbrev pub IsEvent : Event → Type 0
IsEvent (acked a) = a.flight_bytes ≤ max_i64
IsEvent (lost l) = l.flight_bytes ≤ max_u64
IsEvent (marked flight) = flight ≤ max_u64
IsEvent _ = Unit

pub cwnd_fits : (w : ClassicWindow) → IsWindow w → w.congestion_window_bytes ≤ max_i64
cwnd_fits w v = omega (arith, v.at_most, v.ceiling_fits)

-- One segment more.
pub inflate-IsWindow :
    (bytes : ℕ) (w : ClassicWindow) (more : ℕ)
    → IsWindow w
    → w.mss_bytes ≤ bytes
    → bytes ≤ max_i64
    → IsWindow (set_window (add_bytes bytes more) w)
inflate-IsWindow bytes w more v h k =
    set_window-IsWindow _ w v (omega (arith, add_bytes_lem bytes more k, v.segment_fits))

pub set_window_mss : (bytes : ℕ) (w : ClassicWindow) → (set_window bytes w).mss_bytes ≡ w.mss_bytes
unfolding set_window
set_window_mss bytes w = refl

pub grow_mss : (a : Ack) (w : ClassicWindow) → (grow a w).mss_bytes ≡ w.mss_bytes
unfolding grow set_window
grow_mss a w = ground arith

pub handshake_mss : (w : ClassicWindow) → (restart_after_handshake_loss w).mss_bytes ≡ w.mss_bytes
unfolding restart_after_handshake_loss set_window
handshake_mss w = refl

pub idle_mss : (w : ClassicWindow) → (restart_after_idle w).mss_bytes ≡ w.mss_bytes
unfolding restart_after_idle set_window
idle_mss w = refl

-- A recovery that ends at the remembered window.
pub settle-IsWindow :
    (bytes : ℕ) (w : ClassicWindow)
    → IsWindow w
    → w.mss_bytes ≤ bytes
    → IsWindow (record (set_window bytes w) { avoidance_acknowledged_bytes = 0 })
settle-IsWindow bytes w v h =
    counter-IsWindow 0 (set_window bytes w) (set_window-IsWindow bytes w v h) (omega arith)

-- The threshold and the window with which a recovery begins.
abbrev pub threshold_of : Loss → ClassicWindow → ℕ
threshold_of l w =
    if l.already_reduced
    then w.slow_start_threshold_bytes
    else max (l.flight_bytes / 2) (2 *u64 w.mss_bytes)

abbrev pub recovery_of : Loss → ClassicWindow → ℕ
recovery_of l w = if l.already_reduced then w.congestion_window_bytes else threshold_of l w

abbrev pub reduced_of : Loss → ClassicWindow → ClassicWindow
reduced_of l w =
    record (set_window (recovery_of l w)
      (record w { slow_start_threshold_bytes = threshold_of l w })) {
        avoidance_acknowledged_bytes = 0;
      }

pub entered :
    (l : Loss) (w : ClassicWindow)
    → IsWindow w
    → l.flight_bytes ≤ max_u64
    → (2 * w.mss_bytes ≤ threshold_of l w)
      × (threshold_of l w ≤ max_i64)
      × ((w.mss_bytes ≤ recovery_of l w) × (recovery_of l w ≤ max_i64))
      × IsWindow (reduced_of l w)
      × IsWindow (set_window (add_bytes (recovery_of l w) (3 *u64 w.mss_bytes)) (reduced_of l w))
entered l w v h =
    let half = halved l.flight_bytes w v h in
    let low : 2 * w.mss_bytes ≤ threshold_of l w = ground (arith, v.threshold, half) in
    let high : threshold_of l w ≤ max_i64 = ground (arith, v.threshold_fits, half) in
    let from : w.mss_bytes ≤ recovery_of l w = ground (arith, v.at_least, half) in
    let to : recovery_of l w ≤ max_i64 = ground (arith, cwnd_fits w v, half) in
    let reduced =
      counter-IsWindow 0 _
        (set_window-IsWindow (recovery_of l w) _
          (threshold-IsWindow (threshold_of l w) w v low high) from)
        (omega arith) in
    let same =
      set_window_mss (recovery_of l w)
        (record w { slow_start_threshold_bytes = threshold_of l w }) in
    (
      low,
      high,
      (from, to),
      reduced,
      inflate-IsWindow (recovery_of l w) (reduced_of l w) (3 *u64 w.mss_bytes) reduced
          (rw same from) to,
    )
