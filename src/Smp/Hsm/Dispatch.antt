-- ===== src/Smp/Hsm/Dispatch.antt =====
-- `n_sm_hsm_dispatch` of source/smp.c runs the chart.
use neon_eds.Common.{
  ℕ, zero, suc, ◌<◌, ◌≡◌, ◌≢◌, inl, Bool, true, false, Run, done, arith, refl, ap, subst, ◌∙◌,
}
use native.Mathlib.Decide.{ℕ_discrete}
use neon_eds.Smp.{Event, nsm_init, user_event, Reaction, is_transit}
use neon_eds.Smp.Hsm.{HsmPath, Paths, at_index, climb, hsm_transit, hsm_turns, n_sm_hsm_dispatch}
use neon_eds.Smp.Hsm.Tree.{Tree, ancestor, ancestor-zero, height-top}
use neon_eds.Smp.Hsm.Walk.{Trace}
use neon_eds.Smp.Hsm.Chart.{
  Reply, pass, stay, goto, Chart, Answers, Climbs, answered, passed, ignored, Turns, rest, move,
  is_goto, leave_chain, enter_chain,
}
use neon_eds.Smp.Hsm.Steps.{Replied, react-Replied, hsm_transit-Route}
use neon_eds.Smp.Hsm.Climb.{Covered, Climbed, climb-Climbed}

module _ {ℓ} {W : Type ℓ} (react : ℕ → Event → ℕ → W → Reaction W) (v : Bool) (depth top : ℕ)
    (super : ℕ → ℕ) (m : Chart W) (ok : Answers m react super top) (tree : Tree super top) where
  -- The transitions end where the initial events go down a rank.
  abbrev pub Descends : (ℕ → ℕ) → Type ℓ
  Descends rank = (s t : ℕ) (w w' : W) → m.handle s nsm_init w ≡ (goto t, w') → rank t < rank s

  abbrev EndsAs : ℕ → ℕ → Reply → W → Run (ℕ × W) → Type ℓ
  EndsAs cur c reply w run =
      (s' : ℕ) × (w' : W) × (run ≡ done (s', w')) × Turns m tree cur c reply w s' w'

  turns_rest :
      (inner fuel : ℕ) (entry exit : HsmPath) (cur c : ℕ) (reply : Reply) (r : Reaction W) (w : W)
      → Replied react v depth top super m ok tree r reply w
      → is_goto reply ≡ false
      → EndsAs cur c reply w (hsm_turns react v depth top inner (suc fuel) entry exit cur r)
  unfolding hsm_turns
  turns_rest inner fuel entry exit cur c pass r w h g = (cur, w, rw (h.0, h.1) refl, rest refl)
  turns_rest inner fuel entry exit cur c stay r w h g = (cur, w, rw (h.0, h.2) refl, rest refl)
  turns_rest inner fuel entry exit cur c (goto t) r w h g = absurd (ground arith)

  turn_again :
      (inner fuel : ℕ) (entry exit : HsmPath) (cur u : ℕ) (r r₁ : Reaction W) (b : Paths W)
      → is_transit r.action ≡ true
      → hsm_transit react v depth top inner entry exit r ≡ done (b, r₁)
      → b.entry.buff 0 ≡ u
      → hsm_turns react v depth top inner (suc fuel) entry exit cur r
        ≡ hsm_turns react v depth top inner fuel b.entry b.exit u r₁
  unfolding hsm_turns
  turn_again inner fuel entry exit cur u r r₁ b transits run first = rw (transits, run, first) refl

  turns-Turns :
      (rank : ℕ → ℕ) (down : Descends rank) (rooms : (s : ℕ) → tree.height s < depth) (fuel : ℕ)
      (entry exit : HsmPath) (cur c : ℕ) (reply : Reply) (r : Reaction W) (w : W)
      → Replied react v depth top super m ok tree r reply w
      → Trace super exit.buff cur (suc c)
      → exit.index ≡ suc c
      → (is_goto reply ≡ true → c < tree.height cur)
      → ((t : ℕ) → reply ≡ goto t → (t ≢ top) × (rank t < fuel))
      → EndsAs cur c reply w (hsm_turns react v depth top depth (suc fuel) entry exit cur r)
  turns-Turns rank down rooms fuel entry exit cur c pass r w h t i below ranks =
      turns_rest depth fuel entry exit cur c pass r w h refl
  turns-Turns rank down rooms fuel entry exit cur c stay r w h t i below ranks =
      turns_rest depth fuel entry exit cur c stay r w h refl
  turns-Turns rank down rooms zero entry exit cur c (goto u) r w h t i below ranks =
      absurd (omega (arith, (ranks u refl).1))
  turns-Turns rank down rooms (suc fuel) entry exit cur c (goto u) r w h t i below ranks =
      let (target, lower) = ranks u refl in
      let (b, r₁, out, into, state, run, route, reacts, trace, index, first) =
        hsm_transit-Route react v depth top super m ok tree entry exit cur c u r w (rooms cur)
          (rooms u) (below refl) target t i h in
      let w₁ = enter_chain m super u into (leave_chain m super cur 0 out w) in
      let (reply₁, w₂) = m.handle u nsm_init w₁ in
      let replied : Replied react v depth top super m ok tree r₁ reply₁ w₂ =
        rw reacts (
          react-Replied react v depth top super m ok tree u nsm_init state w₁ w₂ reply₁ refl
            refl) in
      let positive : 0 < tree.height u = elim (ℕ_discrete (tree.height u) 0) [
        | yes z ↦ absurd (target (height-top tree u z))
        | no nz ↦ omega arith
      ] in
      let (s', w', rest_run, turns) =
        turns-Turns rank down rooms fuel b.entry b.exit u 0 reply₁ r₁ w₂ replied trace index
          (λ g. positive)
          (λ t' e.
            let asks : m.handle u nsm_init w₁ ≡ (goto t', w₂) = ap (λ (q : Reply). (q, w₂)) e in
            (ok.targets u nsm_init t' w₁ w₂ asks, omega (arith, down u t' w₁ w₂ asks))) in
      (
        s',
        w',
        turn_again depth (suc fuel) entry exit cur u r r₁ b (ap is_transit h.0) run first
            ∙ rest_run,
        move route refl turns,
      )

  Climbs-target :
      {e : Event} {s d : ℕ} {u u' : W} {reply : Reply} (t : ℕ)
      → Climbs m super top e s u d reply u'
      → reply ≡ goto t
      → t ≢ top
  Climbs-target {e} t (answered {s = s} {w = x} {w' = y} ne h a) q =
      ok.targets s e t x y (h ∙ ap (λ (r : Reply). (r, y)) q)
  Climbs-target t (passed ne h up) q = Climbs-target t up q
  Climbs-target t (ignored i) q = absurd (cc)

  -- Where the state functions answer as a chart on a finite tree of states does, every state's height is
  -- below the size of the path arrays, the initial events go down a rank below a bound, and no user's event
  -- reaches the top state and is refused there, the dispatcher ends within one turn more than the bound, and
  -- does what the chart does: the event climbs to the state that answers it, and each transition leaves and
  -- enters the states of its route.
  pub n_sm_hsm_dispatch-Turns :
      (rank : ℕ → ℕ) (bound : ℕ) (entry exit : HsmPath) (cur n : ℕ) (w : W)
      → Descends rank
      → ((s : ℕ) → rank s < bound)
      → ((s : ℕ) → tree.height s < depth)
      → cur ≢ top
      → Covered m super top v (user_event n)
      → (c : ℕ) × (reply : Reply) × (w₁ : W) × (s' : ℕ) × (w' : W) × (n_sm_hsm_dispatch react v
            depth top depth
            (suc bound)
            entry
            exit
            cur
            (user_event n)
            w
          ≡ done (s', w'))
        × Climbs m super top (user_event n) cur w c reply w₁
        × Turns m tree cur c reply w₁ s' w'
  unfolding n_sm_hsm_dispatch ancestor
  n_sm_hsm_dispatch-Turns rank bound entry exit cur n w down small rooms ne cov =
      let positive : 0 < tree.height cur = elim (ℕ_discrete (tree.height cur) 0) [
        | yes z ↦ absurd (ne (height-top tree cur z))
        | no nz ↦ omega arith
      ] in
      let c =
        climb-Climbed react v depth top super m ok tree cur (user_event n) refl (rooms cur) depth
          (at_index exit 0) 0 w refl (λ k hk. absurd (omega arith)) (omega arith)
          (omega (arith, rooms cur)) cov (inl positive) in
      let (s', w', run, turns) =
        turns-Turns rank down rooms bound entry c.exit cur c.levels c.reply c.reaction c.world
          c.replied (λ k hk. c.trace k (omega arith)) (omega (arith, c.index))
          (λ g. omega (arith, c.below g)) (λ t e. (climbed-target cur t c e, small t)) in
      (
        c.levels,
        c.reply,
        c.world,
        s',
        w',
        rw c.runs run,
        subst (λ s. Climbs m super top (user_event n) s w c.levels c.reply c.world)
            (ancestor-zero super cur) c.climbs,
        turns,
      )
    where
      climbed-target :
          (cur t : ℕ)
          → (c : Climbed react v depth top super m ok tree cur
              (user_event n)
              0
              w
              (climb react v depth top depth (at_index exit 0) (user_event n) cur w))
          → c.reply ≡ goto t
          → t ≢ top
      climbed-target cur t c e = Climbs-target t c.climbs e
