-- ===== src/Congestion/Limits.antt =====
-- simulator/protocols/tcp/congestion_control: a policy's segment size and its ceiling.
use balancer_go.Base.{ℕ, ◌≡◌, refl, ◌∙◌, Bool, false, ◌||◌, arith, List, [], ◌∷◌}
use balancer_go.Congestion.{
  ClassicWindow, Ack, Loss, LossKind, set_window, grow, fast_retransmit_loss, timeout_loss,
  handshake_loss, reduce_for_ecn, restart_after_loss, restart_after_handshake_loss,
  restart_after_idle,
}
use balancer_go.Congestion.Reno
use balancer_go.Congestion.Reno.{RenoPolicy}
use balancer_go.Congestion.NewReno
use balancer_go.Congestion.NewReno.{NewRenoPolicy}
use balancer_go.Congestion.Tahoe
use balancer_go.Congestion.Policy.{
  Policy, unlimited, reno, new_reno, tahoe, Event, acked, duplicated, stopped, idled, lost, marked,
  apply, apply_all,
}

-- The segment size and the ceiling of a policy's window.
abbrev pub limits : Policy → ℕ × ℕ
limits unlimited = (0, 0)
limits (reno p) = (p.window.mss_bytes, p.window.maximum_window_bytes)
limits (new_reno p) = (p.window.mss_bytes, p.window.maximum_window_bytes)
limits (tahoe w) = (w.mss_bytes, w.maximum_window_bytes)

abbrev pub sizes : ClassicWindow → ℕ × ℕ
sizes w = (w.mss_bytes, w.maximum_window_bytes)

sizes-set_window : (bytes : ℕ) (w : ClassicWindow) → sizes (set_window bytes w) ≡ sizes w
unfolding set_window
sizes-set_window bytes w = refl

sizes-grow : (a : Ack) (w : ClassicWindow) → sizes (grow a w) ≡ sizes w
unfolding grow set_window
sizes-grow a w = ground arith

sizes-reduce_for_ecn : (flight : ℕ) (w : ClassicWindow) → sizes (reduce_for_ecn flight w) ≡ sizes w
unfolding reduce_for_ecn set_window
sizes-reduce_for_ecn flight w = refl

sizes-restart_after_loss :
    (flight : ℕ) (late : Bool) (w : ClassicWindow)
    → sizes (restart_after_loss flight late w) ≡ sizes w
unfolding restart_after_loss set_window
sizes-restart_after_loss flight late w = refl

sizes-restart_after_handshake_loss :
    (w : ClassicWindow) → sizes (restart_after_handshake_loss w) ≡ sizes w
unfolding restart_after_handshake_loss set_window
sizes-restart_after_handshake_loss w = refl

sizes-restart_after_idle : (w : ClassicWindow) → sizes (restart_after_idle w) ≡ sizes w
unfolding restart_after_idle set_window
sizes-restart_after_idle w = refl

sizes-deflate : (n : ℕ) (w : ClassicWindow) → sizes (NewReno.deflate n w) ≡ sizes w
unfolding NewReno.deflate set_window
sizes-deflate n w = ground arith

reno_loss_limits :
    (k : LossKind) (l : Loss) (p : RenoPolicy)
    → limits (reno (Reno.on_loss_of k l p)) ≡ limits (reno p)
unfolding Reno.on_loss_of Reno.stop_recovery Reno.enter_recovery set_window
reno_loss_limits fast_retransmit_loss l p = ground arith
reno_loss_limits timeout_loss l p =
    sizes-restart_after_loss l.flight_bytes (l.already_timed_out || l.already_reduced) p.window
reno_loss_limits handshake_loss l p = sizes-restart_after_handshake_loss p.window

new_reno_loss_limits :
    (k : LossKind) (l : Loss) (p : NewRenoPolicy)
    → limits (new_reno (NewReno.on_loss_of k l p).0) ≡ limits (new_reno p)
unfolding NewReno.on_loss_of NewReno.stop_recovery NewReno.enter_recovery set_window
new_reno_loss_limits fast_retransmit_loss l p = ground arith
new_reno_loss_limits timeout_loss l p =
    sizes-restart_after_loss l.flight_bytes (l.already_timed_out || l.already_reduced) p.window
new_reno_loss_limits handshake_loss l p = sizes-restart_after_handshake_loss p.window

tahoe_loss_limits :
    (k : LossKind) (l : Loss) (w : ClassicWindow) → sizes (Tahoe.on_loss_of k l w) ≡ sizes w
unfolding Tahoe.on_loss_of
tahoe_loss_limits fast_retransmit_loss l w =
    ground (arith, sizes-restart_after_loss l.flight_bytes false w)
tahoe_loss_limits timeout_loss l w =
    sizes-restart_after_loss l.flight_bytes (l.already_timed_out || l.already_reduced) w
tahoe_loss_limits handshake_loss l w = sizes-restart_after_handshake_loss w

reno_ack_limits : (a : Ack) (p : RenoPolicy) → limits (reno (Reno.on_ack a p)) ≡ limits (reno p)
unfolding Reno.on_ack Reno.stop_recovery
reno_ack_limits a p =
    ground (arith, sizes-grow a p.window, sizes-set_window p.recovery_window_bytes p.window)

new_reno_ack_limits :
    (a : Ack) (p : NewRenoPolicy) → limits (new_reno (NewReno.on_ack a p).0) ≡ limits (new_reno p)
unfolding NewReno.on_ack NewReno.finish_recovery NewReno.stop_recovery set_window
new_reno_ack_limits a p = ground (arith, sizes-grow a p.window, sizes-deflate a.new_bytes p.window)

pub limits-apply : (e : Event) (p : Policy) → limits (apply e p) ≡ limits p
unfolding apply Reno.on_loss NewReno.on_loss Tahoe.on_loss Reno.on_duplicate_ack Reno.stop_recovery
    Reno.on_ecn NewReno.on_duplicate_ack NewReno.stop_recovery NewReno.on_ecn set_window
limits-apply e unlimited = refl
limits-apply (acked a) (reno p) = reno_ack_limits a p
limits-apply duplicated (reno p) = ground arith
limits-apply stopped (reno p) = refl
limits-apply idled (reno p) = sizes-restart_after_idle p.window
limits-apply (lost l) (reno p) = reno_loss_limits l.kind l p
limits-apply (marked flight) (reno p) = sizes-reduce_for_ecn flight p.window
limits-apply (acked a) (new_reno p) = new_reno_ack_limits a p
limits-apply duplicated (new_reno p) = ground arith
limits-apply stopped (new_reno p) = refl
limits-apply idled (new_reno p) = sizes-restart_after_idle p.window
limits-apply (lost l) (new_reno p) = new_reno_loss_limits l.kind l p
limits-apply (marked flight) (new_reno p) = sizes-reduce_for_ecn flight p.window
limits-apply (acked a) (tahoe w) = sizes-grow a w
limits-apply duplicated (tahoe w) = refl
limits-apply stopped (tahoe w) = refl
limits-apply idled (tahoe w) = sizes-restart_after_idle w
limits-apply (lost l) (tahoe w) = tahoe_loss_limits l.kind l w
limits-apply (marked flight) (tahoe w) = sizes-reduce_for_ecn flight w

pub limits-apply_all : (es : List Event) (p : Policy) → limits (apply_all es p) ≡ limits p
unfolding apply_all
limits-apply_all [] p = refl
limits-apply_all (e ∷ es) p = limits-apply_all es (apply e p) ∙ limits-apply e p
