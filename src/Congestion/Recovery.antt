-- ===== src/Congestion/Recovery.antt =====
-- simulator/protocols/tcp/congestion_control/reno.go: fast recovery.
use balancer_go.Base.{
  ℕ, zero, suc, ◌*◌, ◌/◌, ◌≤◌, ◌≡◌, ◌∙◌, refl, ap, Bool, true, false, not, min, max, arith,
  *u64_lem, ◌&&◌,
}
use balancer_go.Congestion.{Ack, Loss, LossKind, fast_retransmit_loss, set_window}
use balancer_go.Congestion.Reno
use balancer_go.Congestion.Reno.{RenoPolicy}
use balancer_go.Congestion.Bounds.{IsWindow}
use balancer_go.Congestion.Invariant.{threshold_of, recovery_of}

-- So many duplicate ACKs in a row.
abbrev pub duplicates : ℕ → RenoPolicy → RenoPolicy
duplicates zero p = p
duplicates (suc n) p = duplicates n (Reno.on_duplicate_ack p)

-- What duplicate ACKs leave alone in a recovery.
abbrev kept : RenoPolicy → Bool × ℕ × ℕ × ℕ
kept p = (
  p.active_recovery, p.recovery_window_bytes, p.window.maximum_window_bytes,
  p.window.slow_start_threshold_bytes,
)

duplicate_lem : (p : RenoPolicy) → kept (Reno.on_duplicate_ack p) ≡ kept p
unfolding Reno.on_duplicate_ack set_window
duplicate_lem p = ground arith

duplicates_lem : (n : ℕ) (p : RenoPolicy) → kept (duplicates n p) ≡ kept p
duplicates_lem zero p = refl
duplicates_lem (suc n) p = duplicates_lem n (Reno.on_duplicate_ack p) ∙ duplicate_lem p

enter_lem :
    (l : Loss) (p : RenoPolicy)
    → kept (Reno.enter_recovery l p)
      ≡ (true, recovery_of l p.window, p.window.maximum_window_bytes, threshold_of l p.window)
unfolding Reno.enter_recovery set_window
enter_lem l p = ground arith

-- The ACK that ends a recovery.
finish_lem :
    (a : Ack) (p : RenoPolicy) (half most : ℕ)
    → (a.sack_recovery && not a.end_sack_recovery) ≡ false
    → 1 ≤ most
    → kept p ≡ (true, half, most, half)
    → let q = Reno.on_ack a p in
      (q.active_recovery ≡ false)
      × (q.window.congestion_window_bytes ≡ min half most)
      × (q.window.slow_start_threshold_bytes ≡ half)
      × (q.window.avoidance_acknowledged_bytes ≡ 0)
unfolding Reno.on_ack Reno.stop_recovery set_window
finish_lem a p half most s one e = ground arith

loss_lem :
    (k : LossKind) (l : Loss) (p : RenoPolicy)
    → k ≡ fast_retransmit_loss
    → Reno.on_loss_of k l p ≡ Reno.enter_recovery l p
unfolding Reno.on_loss_of
loss_lem k l p e = rw e refl

-- Reno's recovery ends at half the flight: after a fast retransmit that enters recovery, any number
-- of duplicate ACKs and then an ACK that does not continue a SACK recovery, the policy is out of
-- recovery, and its window and threshold are those of the loss, whatever the duplicates had added.
pub recovery_lem :
    (p : RenoPolicy) (l : Loss) (n : ℕ) (a : Ack)
    → IsWindow p.window
    → l.kind ≡ fast_retransmit_loss
    → l.already_reduced ≡ false
    → (a.sack_recovery && not a.end_sack_recovery) ≡ false
    → let q = Reno.on_ack a (duplicates n (Reno.on_loss l p)) in
      let half = max (l.flight_bytes / 2) (2 * p.window.mss_bytes) in
      (q.active_recovery ≡ false)
      × (q.window.congestion_window_bytes ≡ min half p.window.maximum_window_bytes)
      × (q.window.slow_start_threshold_bytes ≡ half)
      × (q.window.avoidance_acknowledged_bytes ≡ 0)
unfolding Reno.on_loss
recovery_lem p l n a v k r s =
    let half = max (l.flight_bytes / 2) (2 * p.window.mss_bytes) in
    let double = *u64_lem 2 p.window.mss_bytes (omega (arith, v.segment_fits)) in
    let from : threshold_of l p.window ≡ half = ground (arith, double) in
    let to : recovery_of l p.window ≡ half = ground (arith, double) in
    finish_lem a (duplicates n (Reno.on_loss l p)) half p.window.maximum_window_bytes s
      (omega (arith, v.segment, v.ceiling))
      (duplicates_lem n (Reno.on_loss l p)
        ∙ ap kept (loss_lem l.kind l p k)
        ∙ enter_lem l p
        ∙ ground arith)
