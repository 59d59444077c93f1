-- ===== src/Common/Words.antt =====
-- Arithmetic of `uint32_t`, which wraps at 2 ^ 32, and of `int32_t` on its 32-bit patterns.
use Prim.Native.Nat.{ℕ, ◌+◌, ◌-◌, ◌%◌, ◌^◌}
use mathlib.Core.Bool.{Bool, ◌&&◌, not}
use neon_eds.Common.Tests.{ltb, leb, ◌==◌, if◌then◌else◌}

abbrev pub u32_max : ℕ
u32_max = 2 ^ 32 - 1

abbrev pub u32 : ℕ → ℕ
u32 x = x % 2 ^ 32

abbrev pub add32 : ℕ → ℕ → ℕ
add32 a b = (a + b) % 2 ^ 32

abbrev pub sub32 : ℕ → ℕ → ℕ
sub32 a b = (a + 2 ^ 32 - b) % 2 ^ 32

abbrev pub inc : ℕ → ℕ
inc x = add32 x 1

abbrev pub dec : ℕ → ℕ
dec x = sub32 x 1

abbrev pub neg32 : ℕ → ℕ
neg32 x = (2 ^ 32 - x) % 2 ^ 32

abbrev pub is_positive : ℕ → Bool
is_positive x = not (x == 0) && ltb x (2 ^ 31)

abbrev pub is_negative : ℕ → Bool
is_negative x = leb (2 ^ 31) x

-- `a <= b` and `a < b` of two `int32_t`.
abbrev pub int32_le : ℕ → ℕ → Bool
int32_le a b = leb ((a + 2 ^ 31) % 2 ^ 32) ((b + 2 ^ 31) % 2 ^ 32)

abbrev pub int32_lt : ℕ → ℕ → Bool
int32_lt a b = ltb ((a + 2 ^ 31) % 2 ^ 32) ((b + 2 ^ 31) % 2 ^ 32)

-- An `int32_t` as an integer of 64 bits.
unfoldable pub sign_extend : ℕ → ℕ
sign_extend x = if ltb x (2 ^ 31) then x else x + (2 ^ 64 - 2 ^ 32)
