-- ===== src/Port.antt =====
-- port/x86-64-linux-gcc: the bit functions of the port, on its 64-bit `ncore_reg`.
pub mod Log
pub mod Exp
mod Tests
use neon_eds.Common.{
  ℕ, zero, suc, ◌+◌, ◌-◌, ◌/◌, ◌%◌, ◌^◌, List, [], ◌∷◌, ◌++◌, Option, none, some, length, ltb,
  if◌then◌else◌, get_or,
}

abbrev pub repeat {ℓ} : {A : Type ℓ} → ℕ → A → List A
repeat zero x = []
repeat (suc n) x = x ∷ repeat n x

-- The table `g_log2_lookup`: its rows hold equal entries but the first.
unfoldable pub g_log2_lookup : List ℕ
g_log2_lookup =
    0 ∷ 0 ∷ 1 ∷ 1 ∷ repeat 4 2
    ++ repeat 8 3
    ++ repeat 16 4
    ++ repeat 32 5
    ++ repeat 64 6
    ++ repeat 128 7

-- `none` is a read past the end of the table.
unfoldable pub lookup : ℕ → Option ℕ
lookup i = if ltb i 256 then some (get_or g_log2_lookup i 0) else none

unfoldable pub add_byte : Option ℕ → Option ℕ
add_byte none = none
add_byte (some n) = some ((n + 8) % 256)

unfoldable pub ncore_log2 : ℕ → Option ℕ
ncore_log2 value = if ltb 255 value then add_byte (lookup (value / 256)) else lookup value

-- `0x1u << value`.
unfoldable pub ncore_exp2 : ℕ → ℕ
ncore_exp2 value = 2 ^ value % 2 ^ 32

-- `~x` of an `ncore_reg`.
unfoldable pub complement : ℕ → ℕ
complement x = 2 ^ 64 - 1 - x
