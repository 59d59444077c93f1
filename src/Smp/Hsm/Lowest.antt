-- ===== src/Smp/Hsm/Lowest.antt =====
-- Which states `hsm_build_path` of source/smp.c leaves and enters, by where the target lies.
use neon_eds.Common.{ℕ, suc, ◌+◌, ◌≤◌, ◌<◌, ◌≡◌, ◌≢◌, done, arith, refl, ap, ◌∙◌, sym, Bool, subst}
use native.Mathlib.Decide.{ℕ_discrete}
use neon_eds.Smp.{Event, Reaction}
use neon_eds.Smp.Hsm.{Paths, hsm_build_path}
use neon_eds.Smp.Hsm.Tree.{
  Tree, ancestor, ancestor-zero, ancestor-suc, meeting-height, height-ancestor,
}
use neon_eds.Smp.Hsm.Walk.{Trace, Supers}
use neon_eds.Smp.Hsm.Path.{Joins, Route, to_parent, to_join, Built, hsm_build_path-Built}

-- What `hsm_build_path` is called with: the way up from `cur` to level `c`, and the target.
pub record Asked {ℓ} {W : Type ℓ} (super : ℕ → ℕ) (cur c t : ℕ) (b : Paths W) : Type ℓ where
  pub climbed : Trace super b.exit.buff cur (suc c)
  pub index : b.exit.index ≡ suc c
  pub target : b.entry.buff 0 ≡ t

-- The paths to leave and to enter.
pub record Leads {ℓ} {W : Type ℓ} (super : ℕ → ℕ) (cur m t j : ℕ) (b : Paths W) : Type ℓ where
  pub exit_index : b.exit.index ≡ m
  pub entry_index : b.entry.index ≡ j
  pub left : Trace super b.exit.buff cur m
  pub entered : Trace super b.entry.buff t j

module _ {super : ℕ → ℕ} {top : ℕ} (tree : Tree super top) (cur c t : ℕ)
    (below : c < tree.height cur) (proper : 0 < tree.height t) where
  -- A target off the way up is no parent, so the ways join.
  off-Joins :
      (m j : ℕ)
      → ((k : ℕ) → c ≤ k → k ≤ tree.height cur → ancestor super cur k ≢ t)
      → Route tree cur c t m j
      → Joins tree cur c t m j
  off-Joins m j off (to_parent e em ej) = absurd (off (suc c) (omega arith) below e)
  off-Joins m j off (to_join ne joins) = joins

  -- Two or more levels up the target is left and entered again.
  up-Route :
      (k m j : ℕ)
      → 2 ≤ k
      → c + k ≤ tree.height cur
      → ancestor super cur (c + k) ≡ t
      → Route tree cur c t m j
      → (m ≡ suc (c + k)) × (j ≡ 1)
  up-Route k m j far high e (to_parent p em ej) = absurd (
      omega (
        arith,
        height-ancestor tree cur (c + k) high,
        height-ancestor tree cur (suc c) below,
        ap tree.height e,
        ap tree.height p,
      ))
  up-Route k m j far high e (to_join ne joins) =
      let level : tree.height t + (c + k) ≡ tree.height cur =
        omega (arith, height-ancestor tree cur (c + k) high, ap tree.height e) in
      let same : m ≡ c + k + j =
        omega (arith, meeting-height tree cur t m j joins.up_to joins.within joins.common, level) in
      elim (ℕ_discrete j 1) [
        | yes one ↦ (omega arith, one)
        | no more ↦
            let up : ancestor super cur (suc (c + k)) ≡ ancestor super t 1 =
              ancestor-suc super cur (c + k)
              ∙ ap super e
              ∙ ap super (sym (ancestor-zero super t))
              ∙ sym (ancestor-suc super t 0) in
            absurd (
              joins.lowest (suc (c + k)) (omega arith) (omega (arith, joins.proper)) 1 (omega arith)
                proper up)
      ]

module _ {ℓ} {W : Type ℓ} (react : ℕ → Event → ℕ → W → Reaction W) (v : Bool) (depth top : ℕ)
    (super : ℕ → ℕ) (supers : Supers react super top) (tree : Tree super top) (cur c t : ℕ)
    (room : tree.height t < depth) (room' : tree.height cur < depth) (below : c < tree.height cur)
    (proper : 0 < tree.height t) (b : Paths W) (asked : Asked super cur c t b) where
  Built-Leads :
      (w : W) (b' : Paths W)
      → Built tree cur c t w b'
      → Leads super cur b'.exit.index t b'.entry.index b'
  Built-Leads w b' h = record {
    exit_index = refl;
    entry_index = refl;
    left = h.left;
    entered = h.entered;
  }

  -- In a tree of states that fits the path arrays, with a target below the top state that is
  -- neither the source nor above it, the paths of a transition end at the lowest common ancestor of
  -- the source and the target: they go up from the current state and from the target to a common
  -- ancestor, and no state on the way from the source to it lies on the way up from the target.
  pub hsm_build_path-lowest :
      ((k : ℕ) → c ≤ k → k ≤ tree.height cur → ancestor super cur k ≢ t)
      → (b' : Paths W) × (m : ℕ) × (j : ℕ) × (hsm_build_path react v depth top depth b ≡ done b')
        × Leads super cur m t j b'
        × (c ≤ m)
        × (ancestor super cur m ≡ ancestor super t j)
        × ((i k : ℕ)
            → c ≤ i
            → i < m
            → k ≤ tree.height t
            → ancestor super cur i ≢ ancestor super t k)
  hsm_build_path-lowest off =
      let (b', run, h) =
        hsm_build_path-Built react v depth top super supers tree cur c t b.world room room' below
          proper depth b (omega arith) (omega arith) asked.climbed asked.index asked.target refl in
      let joins = off-Joins tree cur c t below proper b'.exit.index b'.entry.index off h.route in
      (
        b',
        b'.exit.index,
        b'.entry.index,
        run,
        Built-Leads b.world b' h,
        joins.from,
        joins.common,
        (λ i k lo hi le e. elim (ℕ_discrete k 0) [
          | yes z ↦
              off i lo (omega (arith, joins.up_to, hi))
                (e ∙ ap (ancestor super t) z ∙ ancestor-zero super t)
          | no nz ↦ joins.lowest i lo hi k (omega arith) le e
        ]),
      )

  -- In a tree of states that fits the arrays, a target two or more levels above the source of a transition,
  -- below the top state, is left together with all states below it, and entered again.
  pub hsm_build_path-reenters :
      (k : ℕ)
      → 2 ≤ k
      → c + k ≤ tree.height cur
      → ancestor super cur (c + k) ≡ t
      → (b' : Paths W) × (hsm_build_path react v depth top depth b ≡ done b')
        × Leads super cur (suc (c + k)) t 1 b'
  hsm_build_path-reenters k far high e =
      let (b', run, h) =
        hsm_build_path-Built react v depth top super supers tree cur c t b.world room room' below
          proper depth b (omega arith) (omega arith) asked.climbed asked.index asked.target refl in
      let (em, ej) =
        up-Route tree cur c t below proper k b'.exit.index b'.entry.index far high e h.route in
      (
        b',
        run,
        subst (λ (m, j). Leads super cur m t j b') (λ i. (em i, ej i)) (Built-Leads b.world b' h),
      )
