-- ===== src/Prelude/Words.antt =====
-- Go's `int` as its 64-bit pattern: `int(u)` and `uint64(i)` keep the pattern, and a pattern from
-- 2 ^ 63 on stands for a negative number.
use Prim.Native.Nat.{ℕ, ◌+◌, ◌%◌, ◌^◌}
use mathlib.Core.Bool.{Bool, ◌||◌}
use dattaniddhi.Prelude.Tests.{ltb, leb, ◌==◌}

-- `a < 0`
abbrev pub is_negative : ℕ → Bool
is_negative a = leb (2 ^ 63) a

-- `a <= 0`
abbrev pub is_not_positive : ℕ → Bool
is_not_positive a = is_negative a || (a == 0)

-- `a < b`
abbrev pub int_lt : ℕ → ℕ → Bool
int_lt a b = ltb ((a + 2 ^ 63) % 2 ^ 64) ((b + 2 ^ 63) % 2 ^ 64)

-- `a + 1`
abbrev pub int_suc : ℕ → ℕ
int_suc a = (a + 1) % 2 ^ 64
