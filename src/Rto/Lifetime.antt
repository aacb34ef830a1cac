-- ===== src/Rto/Lifetime.antt =====
-- simulator/protocols/tcp/rto.go: an estimator's calls one after another.
use balancer_go.Base.{ℕ, ◌≤◌, ◌≡◌, refl, arith, ◌∙◌, Option, none, some, List, [], ◌∷◌}
use balancer_go.Base.Int.{ℤ, pos, negsuc}
use balancer_go.Rto.{
  RtoEstimator, RtoConfig, new, observe_rtt, observed, sampled, back_off, after_syn_retry,
}
use balancer_go.Rto.Estimate.{measured_timeout_lem, back_off_config}

pub record IsEstimator (e : RtoEstimator) : Type 0 where
  pub positive : 1 ≤ e.config.minimum_timeout
  pub from : e.config.minimum_timeout ≤ e.config.initial_timeout
  pub to : e.config.initial_timeout ≤ e.config.maximum_timeout
  pub base_from : e.config.minimum_timeout ≤ e.state.base_rto
  pub current_from : e.state.base_rto ≤ e.state.current_rto
  pub current_to : e.state.current_rto ≤ e.config.maximum_timeout

-- The calls of a connection.
pub data Event : Type 0 where
  sample : ℤ → Event
  timeout syn_retry : Event

-- `none` is a panic.
abbrev pub run : List Event → RtoEstimator → Option RtoEstimator
run [] e = some e
run (sample rtt ∷ es) e = elim (observe_rtt rtt e) [ some f ↦ run es f | none ↦ none ]
run (timeout ∷ es) e = run es (back_off e)
run (syn_retry ∷ es) e = run es (after_syn_retry e)

abbrev pub AllSamples : List Event → Type 0
AllSamples [] = Unit
AllSamples (sample (pos n) ∷ es) = AllSamples es
AllSamples (sample (negsuc n) ∷ es) = ⊥
AllSamples (_ ∷ es) = AllSamples es

observed-IsEstimator : (n : ℕ) (e : RtoEstimator) → IsEstimator e → IsEstimator (observed n e)
unfolding observed
observed-IsEstimator n e v = ground (
  arith,
  measured_timeout_lem (record e { state = sampled n e.state }) v.positive
      (omega (arith, v.from, v.to)),
)

back_off-IsEstimator : (e : RtoEstimator) → IsEstimator e → IsEstimator (back_off e)
unfolding back_off
back_off-IsEstimator e v = ground arith

after_syn_retry-IsEstimator : (e : RtoEstimator) → IsEstimator e → IsEstimator (after_syn_retry e)
unfolding after_syn_retry
after_syn_retry-IsEstimator e v = ground arith

new-IsEstimator :
    (config : RtoConfig) (e : RtoEstimator)
    → new config ≡ some e
    → IsEstimator e × (e.config ≡ config)
unfolding new
new-IsEstimator config e h = ground arith

observed_config : (n : ℕ) (e : RtoEstimator) → (observed n e).config ≡ e.config
unfolding observed
observed_config n e = refl

after_syn_retry_config : (e : RtoEstimator) → (after_syn_retry e).config ≡ e.config
unfolding after_syn_retry
after_syn_retry_config e = ground arith

-- Where a run of calls ends.
abbrev pub Ends : RtoConfig → Option RtoEstimator → Type 0
Ends config none = ⊥
Ends config (some e) = IsEstimator e × (e.config ≡ config)

run-Ends :
    (es : List Event) (config : RtoConfig) (e : RtoEstimator)
    → AllSamples es
    → IsEstimator e
    → e.config ≡ config
    → Ends config (run es e)
unfolding observe_rtt
run-Ends [] config e h v same = (v, same)
run-Ends (sample (pos n) ∷ es) config e h v same =
    run-Ends es config (observed n e) h (observed-IsEstimator n e v) (observed_config n e ∙ same)
run-Ends (sample (negsuc n) ∷ es) config e h v same = absurd h
run-Ends (timeout ∷ es) config e h v same =
    run-Ends es config (back_off e) h (back_off-IsEstimator e v) (back_off_config e ∙ same)
run-Ends (syn_retry ∷ es) config e h v same =
    run-Ends es config (after_syn_retry e) h (after_syn_retry-IsEstimator e v)
      (after_syn_retry_config e ∙ same)

-- An estimator made from accepted settings does not panic while its samples are not negative: after
-- any measurements, timeouts and handshake retries, its base and its current timeout lie between the
-- settings' minimum and maximum, the base at most the current one, and its settings are unchanged.
pub run-IsEstimator :
    (config : RtoConfig) (e : RtoEstimator)
    → new config ≡ some e
    → (es : List Event) → AllSamples es
    → Ends config (run es e)
run-IsEstimator config e n es h =
    let start = new-IsEstimator config e n in run-Ends es config e h start.0 start.1
