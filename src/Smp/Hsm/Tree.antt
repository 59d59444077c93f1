-- ===== src/Smp/Hsm/Tree.antt =====
-- The tree of the states of a hierarchical machine.
use native.Mathlib.Decide.{ℕ_discrete}
use neon_eds.Common.{ℕ, zero, suc, ◌+◌, ◌≤◌, ◌<◌, ◌≡◌, ◌≢◌, arith, refl, ap, ◌∙◌}

-- `super` leads from every state to `top`, in `height` steps.
pub record Tree (super : ℕ → ℕ) (top : ℕ) : Type 0 where
  pub height : ℕ → ℕ
  pub at_top : height top ≡ 0
  pub above : (s : ℕ) → s ≢ top → height s ≡ suc (height (super s))

-- The state `k` levels above `s`.
unfoldable pub ancestor : (ℕ → ℕ) → ℕ → ℕ → ℕ
ancestor super s zero = s
ancestor super s (suc k) = super (ancestor super s k)

pub ancestor-suc : (super : ℕ → ℕ) (s k : ℕ) → ancestor super s (suc k) ≡ super (ancestor super s k)
unfolding ancestor
ancestor-suc super s k = refl

pub ancestor-zero : (super : ℕ → ℕ) (s : ℕ) → ancestor super s 0 ≡ s
unfolding ancestor
ancestor-zero super s = refl

pub ancestor-add :
    (super : ℕ → ℕ) (s i k : ℕ) → ancestor super (ancestor super s i) k ≡ ancestor super s (i + k)
unfolding ancestor
ancestor-add super s i zero = ap (ancestor super s) {y = i + 0} (omega arith)
ancestor-add super s i (suc k) =
    ap super (ancestor-add super s i k)
    ∙ ap (ancestor super s) {x = suc (i + k)} {y = i + suc k} (omega arith)

module _ {super : ℕ → ℕ} {top : ℕ} (t : Tree super top) where
  pub height-ancestor : (s k : ℕ) → k ≤ t.height s → t.height (ancestor super s k) + k ≡ t.height s
  unfolding ancestor
  height-ancestor s zero h = omega arith
  height-ancestor s (suc k) h =
      let ih = height-ancestor s k (omega arith) in
      omega (
        arith,
        ih,
        t.above (ancestor super s k) (λ e. absurd (omega (arith, ih, ap t.height e, t.at_top, h))),
      )

  -- The top is the only state of height 0.
  pub height-top : (s : ℕ) → t.height s ≡ 0 → s ≡ top
  height-top s h = elim (ℕ_discrete s top) [
    | yes e ↦ e
    | no ne ↦ absurd (omega (arith, t.above s ne))
  ]

  pub ancestor-top : (s k : ℕ) → k ≡ t.height s → ancestor super s k ≡ top
  ancestor-top s k e =
      height-top (ancestor super s k) (omega (arith, height-ancestor s k (omega arith)))

  pub ancestor_below_top : (s k : ℕ) → k < t.height s → ancestor super s k ≢ top
  ancestor_below_top s k h e =
      absurd (omega (arith, height-ancestor s k (omega arith), ap t.height e, t.at_top, h))

  -- Where two chains meet, they are equally far from the top.
  pub meeting-height :
      (s u i j : ℕ)
      → i ≤ t.height s
      → j ≤ t.height u
      → ancestor super s i ≡ ancestor super u j
      → t.height s + j ≡ t.height u + i
  meeting-height s u i j hi hj e =
      omega (arith, height-ancestor s i hi, height-ancestor u j hj, ap t.height e)
