-- ===== src/Base/Bitop.antt =====
-- include/base/bitop.h: rounding, alignment and logarithm macros. `w` is the width of the number, `wa` that
-- of the alignment, which is an `unsigned int` in the library's own calls.
mod Tests
use neon_eds.Common.{
  ℕ, zero, suc, ◌+◌, ◌-◌, ◌*◌, ◌/◌, ◌%◌, ◌^◌, ◌<◌, ◌≤◌, ◌≡◌, Bool, true, false, not, ◌&&◌, ltb, leb,
  ◌==◌, if◌then◌else◌, arith, refl, ap, ◌∙◌, sym, subst, passes_under, passes_under-apply,
}
use Prim.Native.Nat.{bit_and, min}
use native.Mathlib.Nat.{
  one-le-pow, pow-suc, pow-succ', mod-eq_of_lt, pow-le-pow_right, mul-suc, mul-mod_left,
  mod-add-div', mod-lt, div-div-eq-div-mul,
}
use neon_eds.Common.Bits.{bit_and-low_digit, bit_and-mask}

unfoldable pub ndivision_round : ℕ → ℕ → ℕ → ℕ
ndivision_round w numerator denominator = ((numerator + denominator / 2) % 2 ^ w) / denominator

unfoldable pub ndivision_roundup : ℕ → ℕ → ℕ → ℕ
ndivision_roundup w numerator denominator = ((numerator + denominator - 1) % 2 ^ w) / denominator

unfoldable pub nalign : ℕ → ℕ → ℕ → ℕ
nalign wa num align = bit_and num (2 ^ wa - 1 - (align - 1))

unfoldable pub nalign_up : ℕ → ℕ → ℕ → ℕ → ℕ
nalign_up w wa num align = bit_and ((num + align - 1) % 2 ^ w) (2 ^ wa - 1 - (align - 1))

unfoldable pub nlog2_8 : ℕ → ℕ
nlog2_8 x =
    if ltb x 2
    then 0
    else if ltb x 4
    then 1
    else if ltb x 8
    then 2
    else if ltb x 16
    then 3
    else if ltb x 32
    then 4
    else if ltb x 64
    then 5
    else if ltb x 128
    then 6
    else 7

-- Keeping the digits from `k` on of a number with `k + n` digits.
high_digits : (k n x : ℕ) → x < 2 ^ (k + n) → bit_and x (2 ^ k * (2 ^ n - 1)) ≡ x / 2 ^ k * 2 ^ k
high_digits zero n x small =
    let all : x % 2 ^ n ≡ x = mod-eq_of_lt (subst (λ m. x < 2 ^ m) (omega arith) small) in
    ap (bit_and x) {y = 2 ^ n - 1} (omega arith) ∙ bit_and-mask n x ∙ all ∙ sym (whole x)
  where
    whole : (x : ℕ) → x / 2 ^ 0 * 2 ^ 0 ≡ x
    whole x = omega arith
high_digits (suc k) n x small =
    let mask = 2 ^ k * (2 ^ n - 1) in
    let doubled : 2 ^ suc k * (2 ^ n - 1) ≡ mask * 2 =
      swap (2 ^ k) (2 ^ n - 1) (2 ^ suc k) (pow-suc 2 k) in
    let bound : x < 2 ^ (k + n) * 2 =
      subst (λ m. x < m) (ap (λ m. 2 ^ m) (omega arith) ∙ pow-suc 2 (k + n)) small in
    let rest = high_digits k n (x / 2) (omega (arith, bound)) in
    let halves : x / 2 / 2 ^ k ≡ x / 2 ^ suc k =
      div-div-eq-div-mul x 2 (2 ^ k) ∙ ap (λ m. x / m) (sym (pow-succ' 2 k)) in
    ap (bit_and x) doubled
    ∙ bit_and-low_digit x (mask * 2)
    ∙ even (mask) (x % 2) (bit_and (x / 2))
    ∙ ap (λ m. m * 2) rest
    ∙ ap (λ m. m * 2 ^ k * 2) halves
    ∙ twice (x / 2 ^ suc k) (2 ^ k) (2 ^ suc k) (pow-suc 2 k)
  where
    swap : (p m q : ℕ) → q ≡ p * 2 → q * m ≡ p * m * 2
    swap p m q e = ap (λ q. q * m) e ∙ grind arith

    even : (m d : ℕ) (f : ℕ → ℕ) → f (m * 2 / 2) * 2 + min d (m * 2 % 2) ≡ f m * 2
    even m d f =
        let half : m * 2 / 2 ≡ m = omega arith in
        let none : m * 2 % 2 ≡ 0 = omega arith in rw (half, none) (omega arith)

    twice : (a p q : ℕ) → q ≡ p * 2 → a * p * 2 ≡ a * q
    twice a p q e = sym (ap (λ q. a * q) e ∙ grind arith)

power_sum : (k n : ℕ) → 2 ^ (k + n) ≡ 2 ^ k * 2 ^ n
power_sum zero n = ap (λ m. 2 ^ m) {y = n} (omega arith) ∙ omega arith
power_sum (suc k) n =
    ap (λ m. 2 ^ m) {y = suc (k + n)} (omega arith)
    ∙ pow-suc 2 (k + n)
    ∙ ap (λ m. m * 2) (power_sum k n)
    ∙ shift (2 ^ k) (2 ^ n) (2 ^ suc k) (pow-suc 2 k)
  where
    shift : (p q r : ℕ) → r ≡ p * 2 → p * q * 2 ≡ r * q
    shift p q r e = sym (ap (λ r. r * q) e ∙ grind arith)

-- Aligning up to a power of two, where the sum does not overflow the width of the alignment nor of the
-- number, gives the least multiple of it that is not below the number.
pub nalign_up-least :
    (w k n num : ℕ)
    → k + n ≤ w
    → num + 2 ^ k - 1 < 2 ^ (k + n)
    → (nalign_up w (k + n) num (2 ^ k) % 2 ^ k ≡ 0)
      × (num ≤ nalign_up w (k + n) num (2 ^ k))
      × (nalign_up w (k + n) num (2 ^ k) < num + 2 ^ k)
unfolding nalign_up
nalign_up-least w k n num fits small =
    let x = num + 2 ^ k - 1 in
    let positive = one-le-pow k 2 (omega arith) in
    let under : x < 2 ^ w =
      omega (arith, small, pow-le-pow_right {n = 2} (omega arith) {j = w} fits) in
    let mask : 2 ^ (k + n) - 1 - (2 ^ k - 1) ≡ 2 ^ k * (2 ^ n - 1) =
      less (2 ^ k) (2 ^ n) (2 ^ (k + n)) positive (one-le-pow n 2 (omega arith)) (power_sum k n) in
    let value = high_digits k n x small in
    let parts = mod-add-div' x (2 ^ k) in
    let rest = mod-lt x positive in
    rw (mod-eq_of_lt under, mask, value)
      (mul-mod_left (x / 2 ^ k) (2 ^ k), omega (arith, parts, rest), omega (arith, parts, positive))
  where
    less : (p q r : ℕ) → 1 ≤ p → 1 ≤ q → r ≡ p * q → r - 1 - (p - 1) ≡ p * (q - 1)
    less p zero r hp hq e = absurd (omega (arith, hq))
    less p (suc q) r hp hq e =
        let apart : p * suc q ≡ p * q + p = mul-suc p q in
        let same : suc q - 1 ≡ q = omega arith in rw same (omega (arith, e, apart, hp))

-- The logarithm of a positive number under 256.
pub nlog2_8_lem : (x : ℕ) → 0 < x → x < 256 → (2 ^ nlog2_8 x ≤ x) × (x < 2 ^ suc (nlog2_8 x))
unfolding nlog2_8
nlog2_8_lem x positive small = ground (arith, positive, small)
