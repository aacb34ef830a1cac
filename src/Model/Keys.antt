-- ===== src/Model/Keys.antt =====
-- simulator/model/client-key.go: the test by which a map finds a client's key.
use Prim.Native.String.{String}
use native.Mathlib.Decide.{ℕ_discrete}
use text.Mathlib.Text.{◌==◌}
use text.Mathlib.TextEquality.{eq_iff}
use balancer_go.Base.{Bool-cases, inl, inr, arith}
use balancer_go.Model.{ClientKey, Protocol}

unfoldable pub String_discrete : Discrete String
String_discrete s t = elim (Bool-cases (s == t)) [
  | inl e ↦ yes ((eq_iff s t).0 e)
  | inr e ↦ no (λ p. ground (arith, (eq_iff s t).1 p, e))
]

unfoldable pub Protocol-discrete : Discrete Protocol
Protocol-discrete = hlevel String_discrete

unfoldable pub same_key : Discrete ClientKey
same_key = hlevel (String_discrete, ℕ_discrete, Protocol-discrete)
