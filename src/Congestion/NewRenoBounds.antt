-- ===== src/Congestion/NewRenoBounds.antt =====
-- simulator/protocols/tcp/congestion_control/newreno.go: the window after each call.
use balancer_go.Base.{
  ℕ, ◌≤◌, ◌≡◌, refl, ◌||◌, leb, min, max, max_i64, max_u64, ◌*u64◌, ◌-u64◌, arith, Bool-cases, inl,
  inr,
}
use balancer_go.Congestion.{
  ClassicWindow, Ack, Loss, LossKind, add_bytes, set_window, fast_retransmit_loss, timeout_loss,
  handshake_loss, restart_after_idle,
}
use balancer_go.Congestion.NewReno
use balancer_go.Congestion.NewReno.{NewRenoPolicy}
use balancer_go.Congestion.Policy.{new_reno}
use balancer_go.Congestion.Bounds.{
  IsWindow, add_bytes_lem, set_window-IsWindow, grow-IsWindow, reduce_for_ecn-IsWindow,
  restart_after_loss-IsWindow, restart_after_handshake_loss-IsWindow, restart_after_idle-IsWindow,
}
use balancer_go.Congestion.Invariant.{
  IsPolicy, cwnd_fits, inflate-IsWindow, set_window_mss, grow_mss, idle_mss, settle-IsWindow,
  threshold_of, recovery_of, reduced_of, entered,
}

-- Only the last size set counts.
set_window_again : (b c : ℕ) (w : ClassicWindow) → set_window b (set_window c w) ≡ set_window b w
unfolding set_window
set_window_again b c w = refl

deflate-IsWindow :
    (new_bytes : ℕ) (w : ClassicWindow) → IsWindow w → IsWindow (NewReno.deflate new_bytes w)
unfolding NewReno.deflate
deflate-IsWindow new_bytes w v =
    let smaller =
      set_window (w.congestion_window_bytes -u64 min w.congestion_window_bytes new_bytes) w in
    elim (Bool-cases (leb w.mss_bytes new_bytes)) [
      | inl e ↦ rw (e, set_window_again, set_window_again) (set_window-IsWindow _ w v (omega arith))
      | inr e ↦ rw (e, set_window_again) (set_window-IsWindow _ w v (omega arith))
    ]

deflate_mss :
    (new_bytes : ℕ) (w : ClassicWindow) → (NewReno.deflate new_bytes w).mss_bytes ≡ w.mss_bytes
unfolding NewReno.deflate set_window
deflate_mss new_bytes w = ground arith

flight_window_lem :
    (flight : ℕ) (w : ClassicWindow)
    → IsWindow w
    → flight ≤ max_i64
    → w.mss_bytes ≤ add_bytes (max flight w.mss_bytes) w.mss_bytes
flight_window_lem flight w v h = omega (
  arith,
  add_bytes_lem (max flight w.mss_bytes) w.mss_bytes (omega (arith, v.segment_fits)),
  v.segment_fits,
)

module _ (p : NewRenoPolicy) (v : IsPolicy (new_reno p)) where
  pub new_reno_duplicate : IsPolicy (new_reno (NewReno.on_duplicate_ack p))
  unfolding NewReno.on_duplicate_ack
  new_reno_duplicate = ground (
    arith,
    inflate-IsWindow p.window.congestion_window_bytes p.window p.window.mss_bytes v.window
        v.window.at_least (cwnd_fits p.window v.window),
    set_window_mss (add_bytes p.window.congestion_window_bytes p.window.mss_bytes) p.window,
  )

  pub new_reno_finish :
      (bytes : ℕ)
      → p.window.mss_bytes ≤ bytes
      → IsPolicy (new_reno (NewReno.finish_recovery bytes p))
  unfolding NewReno.finish_recovery NewReno.stop_recovery
  new_reno_finish bytes h = record {
    window = settle-IsWindow bytes p.window v.window h;
    remembered = λ f. cc;
  }

  pub new_reno_enter :
      (l : Loss) → l.flight_bytes ≤ max_u64 → IsPolicy (new_reno (NewReno.enter_recovery l p))
  unfolding NewReno.enter_recovery
  new_reno_enter l h =
      let e = entered l p.window v.window h in
      ground (
        arith,
        e.2,
        e.3,
        e.4,
        set_window_mss (recovery_of l p.window)
            (record p.window { slow_start_threshold_bytes = threshold_of l p.window }),
        set_window_mss (add_bytes (recovery_of l p.window) (3 *u64 p.window.mss_bytes))
            (reduced_of l p.window),
      )

  pub new_reno_loss :
      (k : LossKind) (l : Loss)
      → l.flight_bytes ≤ max_u64
      → IsPolicy (new_reno (NewReno.on_loss_of k l p).0)
  unfolding NewReno.on_loss_of NewReno.stop_recovery
  new_reno_loss fast_retransmit_loss l h = ground (arith, new_reno_enter l h)
  new_reno_loss timeout_loss l h = record {
    window =
        restart_after_loss-IsWindow p.window v.window l.flight_bytes
          (l.already_timed_out || l.already_reduced) h;
    remembered = λ f. cc;
  }
  new_reno_loss handshake_loss l h = record {
    window = restart_after_handshake_loss-IsWindow p.window v.window;
    remembered = λ f. cc;
  }

  pub new_reno_ack :
      (a : Ack) → a.flight_bytes ≤ max_i64 → IsPolicy (new_reno (NewReno.on_ack a p).0)
  unfolding NewReno.on_ack
  new_reno_ack a h =
      let room = max a.flight_bytes p.window.mss_bytes in
      ground (
        arith,
        grow-IsWindow a p.window v.window,
        grow_mss a p.window,
        deflate-IsWindow a.new_bytes p.window v.window,
        deflate_mss a.new_bytes p.window,
        new_reno_finish p.recovery_window_bytes,
        flight_window_lem a.flight_bytes p.window v.window h,
        new_reno_finish (min p.recovery_window_bytes (add_bytes room p.window.mss_bytes)),
      )

  pub new_reno_ecn : (flight : ℕ) → flight ≤ max_u64 → IsPolicy (new_reno (NewReno.on_ecn flight p))
  unfolding NewReno.on_ecn
  new_reno_ecn flight h =
      let reduced = reduce_for_ecn-IsWindow p.window v.window flight h in
      record {
        window = reduced;
        remembered = λ f. ground (arith, reduced.at_least, cwnd_fits _ reduced);
      }

  pub new_reno_idle : IsPolicy (new_reno (record p { window = restart_after_idle p.window }))
  new_reno_idle = record {
    window = restart_after_idle-IsWindow p.window v.window;
    remembered = λ f. ground (arith, idle_mss p.window, v.remembered f);
  }

  pub new_reno_stop : IsPolicy (new_reno (NewReno.stop_recovery p))
  unfolding NewReno.stop_recovery
  new_reno_stop = record { window = v.window; remembered = λ f. cc }
