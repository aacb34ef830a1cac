-- ===== src/Network/Serialization.antt =====
-- simulator/network/link.go: how long a packet occupies a link, with the 128-bit product and quotient
-- of math/bits.
use native.Mathlib.Nat.{le-div_iff_mul-le}
use balancer_go.Base.{
  ℕ, ◌+◌, ◌*◌, ◌/◌, ◌%◌, ◌≤◌, ◌<◌, ◌≡◌, ltb, leb, ◌==◌, if◌then◌else◌, Option, none, some, u64_mod,
  max_u64, max_i64, arith, Bool-cases, inl, inr,
}

-- bits.Mul64 and bits.Div64, which panics unless hi < y.
abbrev pub mul64 : ℕ → ℕ → ℕ × ℕ
mul64 x y = (x * y / u64_mod, x * y % u64_mod)

abbrev pub div64 : ℕ → ℕ → ℕ → ℕ × ℕ
div64 hi lo y = ((hi * u64_mod + lo) / y, (hi * u64_mod + lo) % y)

-- `none` is a panic.
unfoldable pub serialization_duration : ℕ → ℕ → Option ℕ
serialization_duration size_bytes bandwidth =
    let product = mul64 size_bytes 8000000000 in
    let quotient = div64 product.0 product.1 bandwidth in
    if leb bandwidth product.0
    then none
    else if ltb 0 quotient.1
    then if quotient.0 == max_u64
      then none
      else if ltb max_i64 (quotient.0 + 1)
      then none
      else some (quotient.0 + 1)
    else if ltb max_i64 quotient.0
    then none
    else some quotient.0

-- The nanoseconds that the bits take, rounded up.
abbrev pub ceiling : ℕ → ℕ → ℕ
ceiling size_bytes bandwidth =
    let bits = size_bytes * 8000000000 in
    if bits % bandwidth == 0 then bits / bandwidth else bits / bandwidth + 1

-- For a positive bandwidth a packet takes its bits divided by the bandwidth, rounded up to whole
-- nanoseconds; it panics exactly when that duration does not fit an int64.
pub serialization_duration_lem :
    (size_bytes bandwidth : ℕ)
    → 0 < bandwidth
    → serialization_duration size_bytes bandwidth ≡ (
        if ltb max_i64 (ceiling size_bytes bandwidth)
        then none
        else some (ceiling size_bytes bandwidth))
unfolding serialization_duration
serialization_duration_lem size bandwidth h =
    let bits = size * 8000000000 in
    let whole : bits / u64_mod * u64_mod + bits % u64_mod ≡ bits = omega arith in
    let over : bandwidth ≤ bits / u64_mod → u64_mod ≤ bits / bandwidth =
      λ k. (le-div_iff_mul-le h).1 (omega (arith, k)) in
    rw whole (elim (Bool-cases (leb bandwidth (bits / u64_mod))) [
      | inl e ↦ let huge = over (ground arith) in rw e (ground (arith, huge))
      | inr e ↦ rw e (ground arith)
    ])
