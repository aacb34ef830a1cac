-- ===== src/Rto.antt =====
-- simulator/protocols/tcp/rto.go with simulator/model/rto.go: the retransmission timeout's estimator.
-- A duration is a count of nanoseconds that an int64 holds; the settings' are not negative.
pub mod Estimate
pub mod Lifetime
use balancer_go.Base.{
  ℕ, ◌+◌, ◌-◌, ◌*◌, ◌/◌, ◌%◌, Bool, true, false, ◌&&◌, ◌||◌, not, ltb, leb, ◌==◌, if◌then◌else◌,
  min, max, Option, none, some, List, [], ◌∷◌, ◌+u64◌,
}
use balancer_go.Base.Int.{ℤ, pos, negsuc}

pub data RtoMode : Type 0 where
  fixed adaptive : RtoMode

pub record RtoConfig : Type 0 where
  pub mode : RtoMode
  pub exponential_backoff : Bool
  pub initial_timeout : ℕ
  pub minimum_timeout : ℕ
  pub maximum_timeout : ℕ

-- DefaultRTOConfig
unfoldable pub default_rto_config : RtoConfig
default_rto_config = record {
  mode = adaptive;
  exponential_backoff = true;
  initial_timeout = 1000000000;
  minimum_timeout = 200 * 1000000;
  maximum_timeout = 60 * 1000000000;
}

pub record RtoState : Type 0 where
  pub latest_rtt : ℕ
  pub smoothed_rtt : ℕ
  pub rtt_variation : ℕ
  pub base_rto : ℕ
  pub current_rto : ℕ
  pub samples : ℕ

pub record RtoEstimator : Type 0 where
  pub config : RtoConfig
  pub state : RtoState

-- `none` is the panic. Every `RtoMode` of the model is one of the valid modes.
unfoldable pub new : RtoConfig → Option RtoEstimator
new config =
    if ltb 0 config.minimum_timeout
      && leb config.minimum_timeout config.initial_timeout
      && leb config.initial_timeout config.maximum_timeout
    then some (record {
      config = config;
      state = record {
        latest_rtt = 0;
        smoothed_rtt = 0;
        rtt_variation = 0;
        base_rto = config.initial_timeout;
        current_rto = config.initial_timeout;
        samples = 0;
      };
    })
    else none

-- A negative change is divided toward zero and, where that is not exact, lowered by one.
unfoldable pub smooth_duration : ℕ → ℕ → ℕ → ℕ
smooth_duration previous sample weight =
    let decrease = previous - sample in
    if ltb sample previous
    then previous - (decrease / weight + (if decrease % weight == 0 then 0 else 1))
    else previous + (sample - previous) / weight

unfoldable pub measured_timeout : RtoEstimator → ℕ
measured_timeout estimator =
    let maximum = estimator.config.maximum_timeout in
    let variation = estimator.state.rtt_variation in
    let margin = max 1 (4 * variation) in
    let smoothed = estimator.state.smoothed_rtt in
    if ltb (maximum / 4) variation
    then maximum
    else if leb maximum smoothed || leb (maximum - smoothed) margin
    then maximum
    else max estimator.config.minimum_timeout (smoothed + margin)

abbrev pub is_adaptive : RtoMode → Bool
is_adaptive adaptive = true
is_adaptive fixed = false

-- The estimates of `observeRTT`, before the timeouts are computed from them.
unfoldable pub sampled : ℕ → RtoState → RtoState
sampled sample state =
    let difference =
      if ltb state.smoothed_rtt sample
      then sample - state.smoothed_rtt
      else state.smoothed_rtt - sample in
    if state.samples == 0
    then record state {
      smoothed_rtt = sample;
      rtt_variation = sample / 2;
      latest_rtt = sample;
      samples = state.samples +u64 1;
    }
    else record state {
      rtt_variation = smooth_duration state.rtt_variation difference 4;
      smoothed_rtt = smooth_duration state.smoothed_rtt sample 8;
      latest_rtt = sample;
      samples = state.samples +u64 1;
    }

-- `observeRTT` after its guard.
unfoldable pub observed : ℕ → RtoEstimator → RtoEstimator
observed sample estimator =
    let measured = record estimator { state = sampled sample estimator.state } in
    let base =
      if is_adaptive estimator.config.mode
      then measured_timeout measured
      else estimator.config.initial_timeout in
    record measured { state = record measured.state { base_rto = base; current_rto = base } }

-- `none` is the panic.
unfoldable pub observe_rtt : ℤ → RtoEstimator → Option RtoEstimator
observe_rtt (negsuc n) estimator = none
observe_rtt (pos sample) estimator = some (observed sample estimator)

unfoldable pub back_off : RtoEstimator → RtoEstimator
back_off estimator =
    let current = estimator.state.current_rto in
    let maximum = estimator.config.maximum_timeout in
    if not estimator.config.exponential_backoff
    then estimator
    else if leb (maximum - current) current
    then record estimator { state = record estimator.state { current_rto = maximum } }
    else record estimator { state = record estimator.state { current_rto = current * 2 } }

unfoldable pub after_syn_retry : RtoEstimator → RtoEstimator
after_syn_retry estimator =
    let conservative = min (3 * 1000000000) estimator.config.maximum_timeout in
    if is_adaptive estimator.config.mode
    then record estimator {
      state = record estimator.state { current_rto = max estimator.state.current_rto conservative };
    }
    else estimator
