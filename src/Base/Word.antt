-- ===== src/Base/Word.antt =====
-- Machine words as native numbers. An `int` and a `pid_t` are 32-bit two's complement patterns.
use Prim.Native.Nat.{ℕ, ◌-◌, ◌%◌, ◌^◌}
use mathlib.Core.Bool.{Bool, ◌&&◌}
use rdma_intercept_ldperload.Base.Tests.{ltb, leb}

abbrev pub u32 : ℕ → ℕ
u32 n = n % 2 ^ 32

abbrev pub u64 : ℕ → ℕ
u64 n = n % 2 ^ 64

-- `(int)-1`.
abbrev pub minus_one : ℕ
minus_one = 2 ^ 32 - 1

-- `x > 0` of a signed 32-bit pattern.
abbrev pub int_pos : ℕ → Bool
int_pos x = ltb 0 x && ltb x (2 ^ 31)

-- `x < 0` of a signed 32-bit pattern.
abbrev pub int_neg : ℕ → Bool
int_neg x = leb (2 ^ 31) x
