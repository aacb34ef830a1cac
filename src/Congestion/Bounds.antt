-- ===== src/Congestion/Bounds.antt =====
-- simulator/protocols/tcp/congestion_control/window.go: the size of the congestion window.
use balancer_go.Base.{
  ℕ, ◌+◌, ◌-◌, ◌*◌, ◌/◌, ◌≤◌, ◌≡◌, Bool, ltb, leb, if◌then◌else◌, min, max, max_i64, max_u64,
  ◌*u64◌, ◌-u64◌, arith, +u64_lem, -u64_lem, *u64_lem, Bool-cases, inl, inr,
}
use balancer_go.Congestion.{
  ClassicWindow, Ack, add_bytes, set_window, grow, reduce_for_ecn, restart_after_loss,
  restart_after_handshake_loss, restart_after_idle,
}
use balancer_go.Model.{max_mss_bytes}

pub record IsWindow (w : ClassicWindow) : Type 0 where
  pub segment : 1 ≤ w.mss_bytes
  pub segment_fits : w.mss_bytes ≤ max_mss_bytes
  pub ceiling : w.mss_bytes ≤ w.maximum_window_bytes
  pub ceiling_fits : w.maximum_window_bytes ≤ max_i64
  pub at_least : w.mss_bytes ≤ w.congestion_window_bytes
  pub at_most : w.congestion_window_bytes ≤ w.maximum_window_bytes
  pub startup : w.mss_bytes ≤ w.startup_window_bytes
  pub threshold : 2 * w.mss_bytes ≤ w.slow_start_threshold_bytes
  pub threshold_fits : w.slow_start_threshold_bytes ≤ max_i64
  pub counter_fits : w.avoidance_acknowledged_bytes ≤ max_i64

-- The saturating sum.
pub add_bytes_lem : (c i : ℕ) → c ≤ max_i64 → add_bytes c i ≡ min (c + i) max_i64
unfolding add_bytes
add_bytes_lem c i h =
    rw (-u64_lem max_i64 c h (omega arith)) (elim (Bool-cases (leb (max_i64 - c) i)) [
      | inl e ↦ rw e (ground arith)
      | inr e ↦ rw (e, +u64_lem c i (ground arith)) (ground arith)
    ])

-- Whatever the size, the set window is valid if the size is at least a segment.
pub set_window-IsWindow :
    (bytes : ℕ) (w : ClassicWindow)
    → IsWindow w
    → w.mss_bytes ≤ bytes
    → IsWindow (set_window bytes w)
unfolding set_window
set_window-IsWindow bytes w v h = ground arith

-- Only the bounds of the counter matter to it.
pub counter-IsWindow :
    (n : ℕ) (w : ClassicWindow)
    → IsWindow w
    → n ≤ max_i64
    → IsWindow (record w { avoidance_acknowledged_bytes = n })
counter-IsWindow n w v h = ground arith

pub threshold-IsWindow :
    (n : ℕ) (w : ClassicWindow)
    → IsWindow w
    → 2 * w.mss_bytes ≤ n
    → n ≤ max_i64
    → IsWindow (record w { slow_start_threshold_bytes = n })
threshold-IsWindow n w v h k = ground arith

-- The threshold after a congestion event with the given flight.
pub halved :
    (flight : ℕ) (w : ClassicWindow)
    → IsWindow w
    → flight ≤ max_u64
    → (2 * w.mss_bytes ≤ max (flight / 2) (2 *u64 w.mss_bytes))
      × (max (flight / 2) (2 *u64 w.mss_bytes) ≤ max_i64)
halved flight w v h =
    rw (*u64_lem 2 w.mss_bytes (omega (arith, v.segment_fits)))
      (omega (arith, v.segment_fits), omega (arith, v.segment_fits))

pub grow-IsWindow : (ack : Ack) (w : ClassicWindow) → IsWindow w → IsWindow (grow ack w)
unfolding grow
grow-IsWindow ack w v =
    let counted = add_bytes_lem w.avoidance_acknowledged_bytes ack.new_bytes v.counter_fits in
    let cwnd = w.congestion_window_bytes in
    let cwnd_fits : cwnd ≤ max_i64 = omega (arith, v.at_most, v.ceiling_fits) in
    elim (Bool-cases ack.ecn) [
      | inl e ↦ rw e v
      | inr e ↦ elim (Bool-cases (ltb cwnd w.slow_start_threshold_bytes)) [
        | inl f ↦
            rw (e, f)
              (set_window-IsWindow _ w v (
                omega (
                  arith,
                  v.at_least,
                  add_bytes_lem cwnd (min ack.new_bytes w.mss_bytes) cwnd_fits,
                  v.segment_fits,
                )))
        | inr f ↦
            let acknowledged = add_bytes w.avoidance_acknowledged_bytes ack.new_bytes in
            elim (Bool-cases (leb cwnd acknowledged)) [
              | inl g ↦
                  let less = -u64_lem acknowledged cwnd (ground arith) (omega (arith, counted)) in
                  rw (e, f, g)
                    (set_window-IsWindow _
                      (record w { avoidance_acknowledged_bytes = acknowledged -u64 cwnd })
                      (counter-IsWindow _ w v (omega (arith, counted, less)))
                      (omega (
                        arith,
                        v.at_least,
                        add_bytes_lem cwnd w.mss_bytes cwnd_fits,
                        v.segment_fits,
                      )))
              | inr g ↦ rw (e, f, g) (counter-IsWindow _ w v (omega (arith, counted)))
            ]
      ]
    ]

module _ (w : ClassicWindow) (v : IsWindow w) where
  pub reduce_for_ecn-IsWindow : (flight : ℕ) → flight ≤ max_u64 → IsWindow (reduce_for_ecn flight w)
  unfolding reduce_for_ecn
  reduce_for_ecn-IsWindow flight h =
      let t = halved flight w v h in
      counter-IsWindow 0 _
        (set_window-IsWindow _ _ (threshold-IsWindow _ w v t.0 t.1) (omega arith)) (omega arith)

  pub restart_after_loss-IsWindow :
      (flight : ℕ) (timed_out : Bool)
      → flight ≤ max_u64
      → IsWindow (restart_after_loss flight timed_out w)
  unfolding restart_after_loss
  restart_after_loss-IsWindow flight timed_out h =
      let t = halved flight w v h in
      let threshold =
        if timed_out then w.slow_start_threshold_bytes else max (flight / 2) (2 *u64 w.mss_bytes) in
      let kept : 2 * w.mss_bytes ≤ threshold = ground (arith, v.threshold, t) in
      let fits : threshold ≤ max_i64 = ground (arith, v.threshold_fits, t) in
      counter-IsWindow 0 _
        (set_window-IsWindow _ _ (threshold-IsWindow threshold w v kept fits) (omega arith))
        (omega arith)

  pub restart_after_handshake_loss-IsWindow : IsWindow (restart_after_handshake_loss w)
  unfolding restart_after_handshake_loss
  restart_after_handshake_loss-IsWindow =
      let smaller : IsWindow (record w { startup_window_bytes = w.mss_bytes }) = ground arith in
      counter-IsWindow 0 _ (set_window-IsWindow _ _ smaller (omega arith)) (omega arith)

  pub restart_after_idle-IsWindow : IsWindow (restart_after_idle w)
  unfolding restart_after_idle
  restart_after_idle-IsWindow =
      counter-IsWindow 0 _ (set_window-IsWindow _ w v (omega (arith, v.at_least, v.startup)))
        (omega arith)
