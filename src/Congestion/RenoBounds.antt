-- ===== src/Congestion/RenoBounds.antt =====
-- simulator/protocols/tcp/congestion_control/reno.go: the window after each call.
use balancer_go.Base.{ℕ, ◌≤◌, ◌||◌, max_u64, ◌*u64◌, arith}
use balancer_go.Congestion.{
  Ack, Loss, LossKind, add_bytes, fast_retransmit_loss, timeout_loss, handshake_loss,
  restart_after_idle,
}
use balancer_go.Congestion.Reno
use balancer_go.Congestion.Reno.{RenoPolicy}
use balancer_go.Congestion.Policy.{reno}
use balancer_go.Congestion.Bounds.{
  grow-IsWindow, reduce_for_ecn-IsWindow, restart_after_loss-IsWindow,
  restart_after_handshake_loss-IsWindow, restart_after_idle-IsWindow,
}
use balancer_go.Congestion.Invariant.{
  IsPolicy, cwnd_fits, inflate-IsWindow, set_window_mss, grow_mss, handshake_mss, idle_mss,
  settle-IsWindow, threshold_of, recovery_of, reduced_of, entered,
}

module _ (p : RenoPolicy) (v : IsPolicy (reno p)) where
  pub reno_ack : (a : Ack) → IsPolicy (reno (Reno.on_ack a p))
  unfolding Reno.on_ack Reno.stop_recovery
  reno_ack a = ground (
    arith,
    grow-IsWindow a p.window v.window,
    settle-IsWindow p.recovery_window_bytes p.window v.window,
    set_window_mss p.recovery_window_bytes p.window,
    grow_mss a p.window,
  )

  pub reno_duplicate : IsPolicy (reno (Reno.on_duplicate_ack p))
  unfolding Reno.on_duplicate_ack
  reno_duplicate = ground (
    arith,
    inflate-IsWindow p.window.congestion_window_bytes p.window p.window.mss_bytes v.window
        v.window.at_least (cwnd_fits p.window v.window),
    set_window_mss (add_bytes p.window.congestion_window_bytes p.window.mss_bytes) p.window,
  )

  pub reno_enter : (l : Loss) → l.flight_bytes ≤ max_u64 → IsPolicy (reno (Reno.enter_recovery l p))
  unfolding Reno.enter_recovery
  reno_enter l h =
      let e = entered l p.window v.window h in
      ground (
        arith,
        e.2,
        e.3,
        e.4,
        set_window_mss (recovery_of l p.window)
            (record p.window { slow_start_threshold_bytes = threshold_of l p.window }),
        set_window_mss (add_bytes (recovery_of l p.window) (3 *u64 p.window.mss_bytes))
            (reduced_of l p.window),
      )

  pub reno_loss :
      (k : LossKind) (l : Loss) → l.flight_bytes ≤ max_u64 → IsPolicy (reno (Reno.on_loss_of k l p))
  unfolding Reno.on_loss_of Reno.stop_recovery
  reno_loss fast_retransmit_loss l h = reno_enter l h
  reno_loss timeout_loss l h = record {
    window =
        restart_after_loss-IsWindow p.window v.window l.flight_bytes
          (l.already_timed_out || l.already_reduced) h;
    remembered = λ f. cc;
  }
  reno_loss handshake_loss l h = record {
    window = restart_after_handshake_loss-IsWindow p.window v.window;
    remembered = λ f. ground (arith, handshake_mss p.window, v.remembered f);
  }

  pub reno_ecn : (flight : ℕ) → flight ≤ max_u64 → IsPolicy (reno (Reno.on_ecn flight p))
  unfolding Reno.on_ecn
  reno_ecn flight h =
      let reduced = reduce_for_ecn-IsWindow p.window v.window flight h in
      record {
        window = reduced;
        remembered = λ f. ground (arith, reduced.at_least, cwnd_fits _ reduced);
      }

  pub reno_idle : IsPolicy (reno (record p { window = restart_after_idle p.window }))
  reno_idle = record {
    window = restart_after_idle-IsWindow p.window v.window;
    remembered = λ f. ground (arith, idle_mss p.window, v.remembered f);
  }

  pub reno_stop : IsPolicy (reno (Reno.stop_recovery p))
  unfolding Reno.stop_recovery
  reno_stop = record { window = v.window; remembered = λ f. cc }
