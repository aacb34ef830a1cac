-- ===== src/Rto/Estimate.antt =====
-- simulator/protocols/tcp/rto.go: single calls of the estimator.
use balancer_go.Base.{ℕ, zero, suc, ◌+◌, ◌*◌, ◌/◌, ◌≤◌, ◌≡◌, refl, true, min, max, arith, ap, ◌∙◌}
use Prim.Native.Nat.{◌^◌}
use native.Mathlib.Nat.{pow-succ', mul_left_comm}
use balancer_go.Rto.{RtoEstimator, smooth_duration, measured_timeout, back_off}

-- The estimates move by the weighted means of RFC 6298, rounded down: with weight 4 to
-- (3 * previous + sample) / 4, and with weight 8 to (7 * previous + sample) / 8.
pub smooth_duration_lem :
    (previous sample : ℕ)
    → (smooth_duration previous sample 4 ≡ (3 * previous + sample) / 4)
      × (smooth_duration previous sample 8 ≡ (7 * previous + sample) / 8)
unfolding smooth_duration
smooth_duration_lem previous sample = ground arith

-- The measured timeout is the smoothed round trip with four variations, or one nanosecond, added,
-- brought between the two limits. The limits are positive and in order.
pub measured_timeout_lem :
    (e : RtoEstimator)
    → 1 ≤ e.config.minimum_timeout
    → e.config.minimum_timeout ≤ e.config.maximum_timeout
    → measured_timeout e
      ≡ max e.config.minimum_timeout
          (min e.config.maximum_timeout (e.state.smoothed_rtt + max 1 (4 * e.state.rtt_variation)))
unfolding measured_timeout
measured_timeout_lem e one ordered = ground arith

back_off_lem :
    (e : RtoEstimator)
    → e.config.exponential_backoff ≡ true
    → (back_off e).state.current_rto ≡ min e.config.maximum_timeout (2 * e.state.current_rto)
unfolding back_off
back_off_lem e on = ground arith

pub back_off_config : (e : RtoEstimator) → (back_off e).config ≡ e.config
unfolding back_off
back_off_config e = ground arith

-- So many timeouts in a row.
abbrev pub timeouts : ℕ → RtoEstimator → RtoEstimator
timeouts zero e = e
timeouts (suc n) e = back_off (timeouts n e)

timeouts_config : (n : ℕ) (e : RtoEstimator) → (timeouts n e).config ≡ e.config
timeouts_config zero e = refl
timeouts_config (suc n) e = back_off_config (timeouts n e) ∙ timeouts_config n e

-- With backoff on, n timeouts in a row multiply the timeout by 2 ^ n, up to the maximum.
pub timeouts_lem :
    (n : ℕ) (e : RtoEstimator)
    → e.config.exponential_backoff ≡ true
    → e.state.current_rto ≤ e.config.maximum_timeout
    → (timeouts n e).state.current_rto ≡ min e.config.maximum_timeout (e.state.current_rto * 2 ^ n)
timeouts_lem zero e on h = omega arith
timeouts_lem (suc n) e on h =
    let earlier = timeouts_lem n e on h in
    let same = timeouts_config n e in
    let doubled : e.state.current_rto * 2 ^ suc n ≡ 2 * (e.state.current_rto * 2 ^ n) =
      ap (λ k. e.state.current_rto * k) (pow-succ' 2 n)
      ∙ mul_left_comm e.state.current_rto 2 (2 ^ n) in
    let most = ap (λ c. c.maximum_timeout) same in
    let next = back_off_lem (timeouts n e) (ap (λ c. c.exponential_backoff) same ∙ on) in
    omega (arith, doubled, earlier, most, next)
