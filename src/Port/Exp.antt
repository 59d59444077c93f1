-- ===== src/Port/Exp.antt =====
-- The bits of `ncore_exp2` and of its complement.
use neon_eds.Common.{ℕ, ◌<◌, ◌^◌, ◌≡◌, ◌∙◌, ◌==◌, if◌then◌else◌, arith}
use neon_eds.Common.Bits.{testbit, testbit-power, testbit-low, testbit-complement}
use neon_eds.Port.{ncore_exp2, complement}

pub testbit-ncore_exp2 : (i k : ℕ) → i < 32 → testbit i (ncore_exp2 k) ≡ (if i == k then 1 else 0)
unfolding ncore_exp2
testbit-ncore_exp2 i k h = testbit-low 32 i (2 ^ k) h ∙ testbit-power i k

bounded : (k : ℕ) → ncore_exp2 k < 2 ^ 64
unfolding ncore_exp2
bounded k = omega arith

pub testbit-complement_exp2 :
    (i k : ℕ) → i < 32 → testbit i (complement (ncore_exp2 k)) ≡ (if i == k then 0 else 1)
unfolding complement
testbit-complement_exp2 i k h = ground (
  arith,
  testbit-ncore_exp2 i k h,
  testbit-complement 64 i (ncore_exp2 k) (omega arith) (bounded k),
)
