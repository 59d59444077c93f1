-- ===== src/Smp/Hsm/Steps.antt =====
-- The loops of `n_sm_hsm_dispatch` of source/smp.c: the exits, the entries, and one transition.
use neon_eds.Common.{
  ℕ, zero, suc, ◌+◌, ◌<◌, ◌≤◌, ◌≡◌, ◌≢◌, Bool, true, false, update, done, arith, refl, ap,
  Bool-cases, inl, inr, ◌==◌,
}
use neon_eds.Smp.{
  naction_super, naction_transit_to, Event, nsm_exit, nsm_entry, nsm_init, Reaction, is_super,
  is_transit,
}
use neon_eds.Smp.Machine.{check-true, quiet-ends}
use neon_eds.Smp.Hsm.{HsmPath, Paths, hsm_path_enter, hsm_path_exit, hsm_transit}
use neon_eds.Smp.Hsm.Tree.{Tree, ancestor, ancestor_below_top, height-top, ancestor-zero}
use neon_eds.Smp.Hsm.Walk.{Trace, call_below_top, put_lem}
use neon_eds.Smp.Hsm.Path.{Route, to_parent, to_join, hsm_build_path-Built}
use neon_eds.Smp.Hsm.Chart.{
  Reply, pass, stay, goto, Chart, Answers, leave_chain, enter_chain, is_plain,
}

module _ {ℓ} {W : Type ℓ} (react : ℕ → Event → ℕ → W → Reaction W) (v : Bool) (depth top : ℕ)
    (super : ℕ → ℕ) (m : Chart W) (ok : Answers m react super top) (tree : Tree super top) where
  hsm_path_exit-chain :
      (cur : ℕ) (buff : ℕ → ℕ) (count left state : ℕ) (w : W)
      → Trace super buff cur (count + left)
      → count + left ≤ tree.height cur
      → (state' : ℕ) × (hsm_path_exit react v depth top buff count left state w
          ≡ done (state', leave_chain m super cur count left w))
  unfolding hsm_path_exit leave_chain
  hsm_path_exit-chain cur buff count zero state w t h = (state, refl)
  hsm_path_exit-chain cur buff count (suc left) state w t h =
      let here = t count (omega arith) in
      let below = ancestor_below_top tree cur count (omega arith) in
      let (accepted, left_w) = ok.exits (ancestor super cur count) state w in
      let r = react (ancestor super cur count) nsm_exit state w in
      let (state', run) =
        hsm_path_exit-chain cur buff (count + 1) left r.state r.world (λ k hk. t k (omega arith))
          (omega arith) in
      (
        state',
        rw
            (
              here,
              call_below_top react v depth top super ok.supers (ancestor super cur count) nsm_exit
                  state w below,
              check-true v _ accepted,
              ← left_w,
            )
            run,
      )

  hsm_path_enter-chain :
      (t : ℕ) (buff : ℕ → ℕ) (count state : ℕ) (w : W)
      → Trace super buff t count
      → count ≤ tree.height t
      → (state' : ℕ) × (hsm_path_enter react v depth top buff count state w
          ≡ done (state', enter_chain m super t count w))
  unfolding hsm_path_enter enter_chain
  hsm_path_enter-chain t buff zero state w tr h = (state, refl)
  hsm_path_enter-chain t buff (suc count) state w tr h =
      let here = tr count (omega arith) in
      let below = ancestor_below_top tree t count (omega arith) in
      let (accepted, entered_w) = ok.entries (ancestor super t count) state w in
      let r = react (ancestor super t count) nsm_entry state w in
      let (state', run) =
        hsm_path_enter-chain t buff count r.state r.world (λ k hk. tr k (omega arith))
          (omega arith) in
      (
        state',
        rw
            (
              here,
              call_below_top react v depth top super ok.supers (ancestor super t count) nsm_entry
                  state w below,
              check-true v _ accepted,
              ← entered_w,
            )
            run,
      )

  -- A reaction, as the chart's reply.
  abbrev pub Replied : Reaction W → Reply → W → Type ℓ
  Replied r pass w = (r.action ≡ naction_super) × (r.world ≡ w)
  Replied r stay w = (is_transit r.action ≡ false) × (is_super r.action ≡ false) × (r.world ≡ w)
  Replied r (goto t) w = (r.action ≡ naction_transit_to) × (r.state ≡ t) × (r.world ≡ w)

  pub react-Replied :
      (s : ℕ) (e : Event) (state : ℕ) (w w' : W) (reply : Reply)
      → is_plain e ≡ true
      → m.handle s e w ≡ (reply, w')
      → Replied (react s e state w) reply w'
  react-Replied s e state w w' pass p h =
      let answer = ok.passes s e state w w' p h in
      (ap (λ r. r.action) answer, ap (λ r. r.world) answer)
  react-Replied s e state w w' stay p h =
      let (quiet, world) = ok.stays s e state w w' p h in
      let (nt, ns) = quiet-ends _ quiet in (nt, ns, world)
  react-Replied s e state w w' (goto t) p h =
      let answer = ok.goes s e state t w w' p h in
      (ap (λ r. r.action) answer, ap (λ r. r.state) answer, ap (λ r. r.world) answer)

  -- How many levels a transition can leave and enter.
  Route-bounds :
      (cur c t i j : ℕ)
      → c < tree.height cur
      → Route tree cur c t i j
      → (i ≤ tree.height cur) × (j ≤ tree.height t)
  Route-bounds cur c t i j h (to_parent e ei ej) = (omega arith, omega arith)
  Route-bounds cur c t i j h (to_join e joins) = (joins.up_to, joins.within)

  pub hsm_transit-Route :
      (entry exit : HsmPath) (cur c t : ℕ) (r : Reaction W) (w : W)
      → tree.height cur < depth
      → tree.height t < depth
      → c < tree.height cur
      → t ≢ top
      → Trace super exit.buff cur (suc c)
      → exit.index ≡ suc c
      → Replied r (goto t) w
      → (b : Paths W) × (r₁ : Reaction W) × (i : ℕ) × (j : ℕ) × (state : ℕ) × (hsm_transit react v
            depth top depth entry exit r
          ≡ done (b, r₁))
        × Route tree cur c t i j
        × (r₁ ≡ react t nsm_init state (enter_chain m super t j (leave_chain m super cur 0 i w)))
        × Trace super b.exit.buff t 1
        × (b.exit.index ≡ 1)
        × (b.entry.buff 0 ≡ t)
  unfolding hsm_transit
  hsm_transit-Route entry exit cur c t r w room room' below target climbed index
        (action, state, world) =
      let proper : 0 < tree.height t = positive in
      let start : Paths W = record {
        entry = record { buff = update entry.buff 0 r.state; index = 0 };
        exit = exit;
        state = r.state;
        world = r.world;
      } in
      let (b, built, h) =
        hsm_build_path-Built react v depth top super ok.supers tree cur c t w room' room below
          proper depth start (omega arith) (omega arith) climbed index (ground (arith, state))
          world in
      let (in_cur, in_t) = Route-bounds cur c t b.exit.index b.entry.index below h.route in
      let (st₁, exited) =
        hsm_path_exit-chain cur b.exit.buff 0 b.exit.index b.state b.world
          (λ k hk. h.left k (omega arith)) (omega arith) in
      let left_w = leave_chain m super cur 0 b.exit.index b.world in
      let (st₂, entered) =
        hsm_path_enter-chain t b.entry.buff b.entry.index st₁ left_w h.entered in_t in
      let entered_w = enter_chain m super t b.entry.index left_w in
      (
        record b { exit = record { buff = update b.exit.buff 0 t; index = 1 } },
        react t nsm_init st₂ entered_w,
        b.exit.index,
        b.entry.index,
        st₂,
        rw
            (
              put_lem react v depth top super ok.supers entry 0 r.state (omega arith),
              built,
              exited,
              entered,
              h.first,
              call_below_top react v depth top super ok.supers t nsm_init st₂ entered_w target,
              put_lem react v depth top super ok.supers b.exit 0 t (omega arith),
            )
            refl,
        h.route,
        rw h.same_world refl,
        (λ k hk. let zero_th : k ≡ 0 = omega arith in rw (zero_th, ancestor-zero super t) refl),
        refl,
        h.first,
      )
    where
      positive : 0 < tree.height t
      positive = elim (Bool-cases (tree.height t == 0)) [
        | inl e ↦ absurd (target (height-top tree t (ground arith)))
        | inr e ↦ ground arith
      ]
