-- ===== src/Base/Words.antt =====
-- Go's fixed-width integers: uint64 sums and differences wrap, and the largest int64.
use Prim.Native.Nat.{ℕ, ◌+◌, ◌-◌, ◌*◌, ◌%◌, ◌^◌, ◌≤◌}
use mathlib.Core.Path.{◌≡◌}
use native.Mathlib.Omega.{arith}

abbrev pub u64_mod : ℕ
u64_mod = 2 ^ 64

abbrev pub max_u64 : ℕ
max_u64 = 2 ^ 64 - 1

abbrev pub max_i64 : ℕ
max_i64 = 2 ^ 63 - 1

infixl 65 ◌+u64◌ ◌-u64◌
infixl 70 ◌*u64◌
unfoldable pub ◌+u64◌ : ℕ → ℕ → ℕ
a +u64 b = (a + b) % u64_mod

unfoldable pub ◌-u64◌ : ℕ → ℕ → ℕ
a -u64 b = (a + u64_mod - b) % u64_mod

unfoldable pub ◌*u64◌ : ℕ → ℕ → ℕ
a *u64 b = a * b % u64_mod

pub +u64_lem : (a b : ℕ) → a + b ≤ max_u64 → a +u64 b ≡ a + b
unfolding ◌+u64◌
+u64_lem a b h = omega arith

pub -u64_lem : (a b : ℕ) → b ≤ a → a ≤ max_u64 → a -u64 b ≡ a - b
unfolding ◌-u64◌
-u64_lem a b h k = omega arith

pub *u64_lem : (a b : ℕ) → a * b ≤ max_u64 → a *u64 b ≡ a * b
unfolding ◌*u64◌
*u64_lem a b h = omega arith
