-- ===== src/Connections/Idle.antt =====
-- simulator/balancer/connections.go: `expired`.
use Prim.{tt}
use balancer_go.Base.{ℕ, ◌-◌, ◌+◌, true, if◌then◌else◌, List, [], ◌∷◌, ◌≡◌, refl, arith, ◌≤◌}
use balancer_go.Base.Int.{ℤ, pos, negsuc}
use balancer_go.Connections.{
  ConnectionState, TimeoutConfig, observe, timeout_of, expired, has_passed,
}
use balancer_go.Connections.Phases.{Observation, is_supported, observe_all}

-- The times of the packets do not decrease, from the given one on.
abbrev pub IsAscending : ℕ → List Observation → Type 0
IsAscending from [] = Unit
IsAscending from (o ∷ os) = (from ≤ o.time) × IsAscending o.time os

-- Each supported packet is at least so long ago.
abbrev pub AllIdle : ℕ → ℕ → List Observation → Type 0
AllIdle now idle [] = Unit
AllIdle now idle (o ∷ os) = (is_supported o ≡ true → o.time + idle ≤ now) × AllIdle now idle os

observe_time :
    (o : Observation) (c : ConnectionState)
    → (observe o.packet o.from_server o.time c).last_activity
      ≡ (if is_supported o then o.time else c.last_activity)
unfolding observe
observe_time o c = ground arith

-- No activity is after the last one.
last-le :
    (os : List Observation) (from : ℕ) (c : ConnectionState)
    → c.last_activity ≤ from
    → IsAscending from os
    → c.last_activity ≤ (observe_all os c).last_activity
last-le [] from c h v = omega arith
last-le (o ∷ os) from c h v =
    let next = observe o.packet o.from_server o.time c in
    let seen = observe_time o c in
    let later = last-le os o.time next (ground (arith, seen)) v.1 in ground (arith, seen, later)

all_idle :
    (os : List Observation) (from now idle : ℕ) (c : ConnectionState)
    → c.last_activity ≤ from
    → IsAscending from os
    → (observe_all os c).last_activity + idle ≤ now
    → AllIdle now idle os
all_idle [] from now idle c h v k = tt
all_idle (o ∷ os) from now idle c h v k =
    let next = observe o.packet o.from_server o.time c in
    let seen = observe_time o c in
    let recent : next.last_activity ≤ o.time = ground (arith, seen) in
    (
      λ s. ground (arith, seen, last-le os o.time next recent v.1),
      all_idle os o.time now idle next recent v.1 k,
    )

passed_lem :
    (timeout : ℤ) (idle : ℕ)
    → has_passed timeout idle ≡ true
    → (t : ℕ) × (timeout ≡ pos t) × (1 ≤ t) × (t ≤ idle)
passed_lem (pos t) idle e = (t, refl, ground arith, ground arith)
passed_lem (negsuc n) idle e = ground arith

-- A mapping that has expired after packets at times that do not decrease was left alone for its
-- phase's timeout, which is positive: each supported packet is at least that long ago.
pub expired-AllIdle :
    (timeouts : TimeoutConfig) (now : ℕ) (os : List Observation) (c : ConnectionState)
    → IsAscending c.last_activity os
    → expired timeouts now (observe_all os c) ≡ true
    → (t : ℕ) × (timeout_of timeouts (observe_all os c).phase ≡ pos t) × (1 ≤ t) × AllIdle now t os
unfolding expired
expired-AllIdle timeouts now os c v e =
    let end = observe_all os c in
    let p = passed_lem (timeout_of timeouts end.phase) (now - end.last_activity) e in
    (p.0, p.1, p.2, all_idle os c.last_activity now p.0 c (omega arith) v (omega (arith, p.2, p.3)))
