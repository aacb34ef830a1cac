-- ===== src/Base/Int.antt =====
-- Go's signed integers: the value of an int, and its bit pattern as a uint64.
use Prim.Native.Nat.{ℕ, suc, ◌-◌, ◌%◌}
use balancer_go.Base.Words.{u64_mod}

-- `negsuc n` is -(n + 1).
pub data ℤ : Type 0 where
  pos : ℕ → ℤ
  negsuc : ℕ → ℤ

-- uint64(i) of an int.
abbrev pub to_u64 : ℤ → ℕ
to_u64 (pos n) = n % u64_mod
to_u64 (negsuc n) = (u64_mod - suc n) % u64_mod
