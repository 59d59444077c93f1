-- ===== src/Common/Bits.antt =====
-- Bitwise operators read bit by bit: `testbit i x` is bit `i` of `x`.
use Prim.Native.Nat.{
  ℕ, zero, suc, ◌+◌, ◌-◌, ◌*◌, ◌/◌, ◌%◌, ◌^◌, ◌≤◌, ◌<◌, min, max, bit_and, bit_or, bit_and-bitwise,
  bit_or-bitwise, digits, bitwise,
}
use mathlib.Core.Path.{◌≡◌, refl, ap}
use mathlib.Core.Bool.{false}
use neon_eds.Common.Tests.{◌==◌, if◌then◌else◌}
use native.Mathlib.Omega.{arith}
use native.Mathlib.Nat.{pow-suc, one-le-pow, le_refl}

module _ (alone : ℕ → ℕ) (join : ℕ → ℕ → ℕ) where
  -- Any two amounts of fuel that reach the first operand give the same digits.
  digits-enough : (k l x y : ℕ) → x ≤ k → x ≤ l → digits alone join k x y ≡ digits alone join l x y
  digits-enough k l zero y hk hl = at_zero k l
    where
      at_zero : (k l : ℕ) → digits alone join k zero y ≡ digits alone join l zero y
      at_zero zero zero = refl
      at_zero zero (suc l) = refl
      at_zero (suc k) zero = refl
      at_zero (suc k) (suc l) = refl
  digits-enough zero l (suc x) y hk hl = absurd (omega arith)
  digits-enough (suc k) zero (suc x) y hk hl = absurd (omega arith)
  digits-enough (suc k) (suc l) (suc x) y hk hl =
      rw (digits-enough k l (suc x / 2) (y / 2) (omega arith) (omega arith))

  bitwise-low_digit :
      (x y : ℕ)
      → bitwise alone join (suc x) y
        ≡ bitwise alone join (suc x / 2) (y / 2) * 2 + join (suc x % 2) (y % 2)
  bitwise-low_digit x y =
      rw (digits-enough x (suc x / 2) (suc x / 2) (y / 2) (omega arith) (omega arith))

pub bit_and-low_digit : (x y : ℕ) → bit_and x y ≡ bit_and (x / 2) (y / 2) * 2 + min (x % 2) (y % 2)
bit_and-low_digit zero y = simp bit_and-bitwise (omega arith)
bit_and-low_digit (suc x) y = simp bit_and-bitwise (bitwise-low_digit (λ y. 0) min x y)

pub bit_or-low_digit : (x y : ℕ) → bit_or x y ≡ bit_or (x / 2) (y / 2) * 2 + max (x % 2) (y % 2)
bit_or-low_digit zero y = simp bit_or-bitwise (omega arith)
bit_or-low_digit (suc x) y = simp bit_or-bitwise (bitwise-low_digit (λ y. y) max x y)

unfoldable pub testbit : ℕ → ℕ → ℕ
testbit zero x = x % 2
testbit (suc i) x = testbit i (x / 2)

pub testbit-bit_and : (i x y : ℕ) → testbit i (bit_and x y) ≡ min (testbit i x) (testbit i y)
unfolding testbit
testbit-bit_and zero x y = omega (arith, bit_and-low_digit x y)
testbit-bit_and (suc i) x y =
    let half : bit_and x y / 2 ≡ bit_and (x / 2) (y / 2) = omega (arith, bit_and-low_digit x y) in
    rw half (testbit-bit_and i (x / 2) (y / 2))

pub testbit-bit_or : (i x y : ℕ) → testbit i (bit_or x y) ≡ max (testbit i x) (testbit i y)
unfolding testbit
testbit-bit_or zero x y = omega (arith, bit_or-low_digit x y)
testbit-bit_or (suc i) x y =
    let half : bit_or x y / 2 ≡ bit_or (x / 2) (y / 2) = omega (arith, bit_or-low_digit x y) in
    rw half (testbit-bit_or i (x / 2) (y / 2))

bit_and-no_ones : (n x : ℕ) → x ≤ n → bit_and x 0 ≡ 0
bit_and-no_ones n zero h = refl
bit_and-no_ones zero (suc x) h = absurd (omega arith)
bit_and-no_ones (suc n) (suc x) h =
    omega (arith, bit_and-low_digit (suc x) 0, bit_and-no_ones n (suc x / 2) (omega arith))

bit_and-low_part : (k high low : ℕ) → low < 2 ^ k → bit_and (high * 2 ^ k + low) (2 ^ k - 1) ≡ low
bit_and-low_part zero high low h =
    omega (arith, bit_and-no_ones (high * 2 ^ 0 + low) (high * 2 ^ 0 + low) (le_refl _))
bit_and-low_part (suc k) high low h =
    let doubled : high * 2 ^ suc k ≡ 2 * (high * 2 ^ k) =
      omega (arith, ap (λ (t : ℕ). high * t) (pow-suc 2 k)) in
    ground (
      arith,
      bit_and-low_digit (high * 2 ^ suc k + low) (2 ^ suc k - 1),
      doubled,
      pow-suc 2 k,
      bit_and-low_part k high (low / 2) (omega arith),
    )

-- A mask of `k` ones keeps the remainder by `2 ^ k`.
pub bit_and-mask : (k x : ℕ) → bit_and x (2 ^ k - 1) ≡ x % 2 ^ k
bit_and-mask k x = ground (arith, one-le-pow k 2, bit_and-low_part k (x / 2 ^ k) (x % 2 ^ k))

-- Where the bits of a number stop.
pub testbit-above : (i x : ℕ) → x < 2 ^ i → testbit i x ≡ 0
unfolding testbit
testbit-above zero x h = omega arith
testbit-above (suc i) x h = testbit-above i (x / 2) (omega (arith, pow-suc 2 i))

pub testbit-top : (i x : ℕ) → 2 ^ i ≤ x → x < 2 ^ suc i → testbit i x ≡ 1
unfolding testbit
testbit-top zero x h k = omega arith
testbit-top (suc i) x h k =
    testbit-top i (x / 2) (omega (arith, pow-suc 2 i))
      (omega (arith, pow-suc 2 i, pow-suc 2 (suc i)))

pub testbit-bound : (i x : ℕ) → testbit i x < 2
unfolding testbit
testbit-bound zero x = omega arith
testbit-bound (suc i) x = testbit-bound i (x / 2)

-- The only bit of a power of two.
pub testbit-power : (i k : ℕ) → testbit i (2 ^ k) ≡ (if i == k then 1 else 0)
unfolding testbit
testbit-power zero zero = refl
testbit-power zero (suc k) = grind (arith, pow-suc 2 k)
testbit-power (suc i) zero =
    let ne : (suc i == 0) ≡ false = ground arith in
    rw ne (testbit-above i 0 (omega (arith, one-le-pow i 2)))
testbit-power (suc i) (suc k) =
    let half : 2 ^ suc k / 2 ≡ 2 ^ k = omega (arith, pow-suc 2 k) in
    let same : (suc i == suc k) ≡ (i == k) = ground arith in rw (half, same) (testbit-power i k)

testbit-ones : (k i : ℕ) → i < k → testbit i (2 ^ k - 1) ≡ 1
unfolding testbit
testbit-ones zero i h = absurd (omega arith)
testbit-ones (suc k) zero h = omega (arith, pow-suc 2 k, one-le-pow k 2)
testbit-ones (suc k) (suc i) h =
    let half : (2 ^ suc k - 1) / 2 ≡ 2 ^ k - 1 = omega (arith, pow-suc 2 k, one-le-pow k 2) in
    rw half (testbit-ones k i (omega arith))

-- A remainder by a power of two keeps the bits under it.
pub testbit-low : (k i x : ℕ) → i < k → testbit i (x % 2 ^ k) ≡ testbit i x
testbit-low k i x h = ground (
  arith,
  bit_and-mask k x,
  testbit-bit_and i x (2 ^ k - 1),
  testbit-ones k i h,
  testbit-bound i x,
)

-- The complement within `k` bits.
pub testbit-complement :
    (k i x : ℕ) → i < k → x < 2 ^ k → testbit i (2 ^ k - 1 - x) ≡ 1 - testbit i x
unfolding testbit
testbit-complement zero i x h b = absurd (omega arith)
testbit-complement (suc k) zero x h b = omega (arith, pow-suc 2 k)
testbit-complement (suc k) (suc i) x h b =
    let half : (2 ^ suc k - 1 - x) / 2 ≡ 2 ^ k - 1 - x / 2 = omega (arith, pow-suc 2 k) in
    rw half (testbit-complement k i (x / 2) (omega arith) (omega (arith, pow-suc 2 k)))

bit_or-no_ones : (n x : ℕ) → x ≤ n → bit_or x 0 ≡ x
bit_or-no_ones n zero h = refl
bit_or-no_ones zero (suc x) h = absurd (omega arith)
bit_or-no_ones (suc n) (suc x) h =
    omega (arith, bit_or-low_digit (suc x) 0, bit_or-no_ones n (suc x / 2) (omega arith))

pub bit_or-zero : (x : ℕ) → bit_or x 0 ≡ x
bit_or-zero x = bit_or-no_ones x x (le_refl x)
