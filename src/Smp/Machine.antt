-- ===== src/Smp/Machine.antt =====
-- Flat state machines, and that the dispatcher of source/smp.c runs them.
use neon_eds.Common.{
  ℕ, zero, suc, ◌<◌, ◌≡◌, Bool, true, false, Option, none, some, done, arith, refl,
}
use neon_eds.Sched.{check}
use neon_eds.Smp.{
  Naction, naction_handled, naction_ignored, naction_transit_to, Event, nsm_entry, nsm_exit,
  nsm_init, Reaction, is_quiet, is_transit, is_super, fsm_transition, fsm_loop, n_sm_fsm_dispatch,
}

-- What a state does with an event, which may name the next state, and its actions on exit and entry.
pub record Machine {ℓ} (W : Type ℓ) : Type ℓ where
  pub handle : ℕ → Event → W → Option ℕ × W
  pub leave : ℕ → W → W
  pub enter : ℕ → W → W

-- A run of the machine from a state on an event: a transition leaves the state, enters the next one and
-- sends it the initial event.
pub data Runs {ℓ} {W : Type ℓ} (m : Machine W) : ℕ → Event → W → ℕ → W → Type ℓ where
  stay : {s : ℕ} {e : Event} {w w' : W} → m.handle s e w ≡ (none, w') → Runs m s e w s w'
  move :
      {s t s' : ℕ} {e : Event} {w w₁ w' : W}
      → m.handle s e w ≡ (some t, w₁)
      → Runs m t nsm_init (m.enter t (m.leave s w₁)) s' w'
      → Runs m s e w s' w'

-- The state functions answer as the machine does, by the actions of include/ep/smp.h.
pub record Answers {ℓ} {W : Type ℓ} (m : Machine W) (react : ℕ → Event → ℕ → W → Reaction W)
    : Type ℓ where
  pub quiet :
      (s : ℕ) (e : Event) (w w' : W)
      → m.handle s e w ≡ (none, w')
      → (is_quiet (react s e s w).action ≡ true) × ((react s e s w).world ≡ w')
  pub transit :
      (s t : ℕ) (e : Event) (w w' : W)
      → m.handle s e w ≡ (some t, w')
      → react s e s w ≡ record { action = naction_transit_to; state = t; world = w' }
  -- The exit runs in the old state, with the next one in `sm->state`.
  pub exits :
      (s t : ℕ) (w : W)
      → (is_quiet (react s nsm_exit t w).action ≡ true)
        × ((react s nsm_exit t w).state ≡ t)
        × ((react s nsm_exit t w).world ≡ m.leave s w)
  pub entries :
      (s : ℕ) (w : W)
      → (is_quiet (react s nsm_entry s w).action ≡ true)
        × ((react s nsm_entry s w).state ≡ s)
        × ((react s nsm_entry s w).world ≡ m.enter s w)

pub quiet-ends : (a : Naction) → is_quiet a ≡ true → (is_transit a ≡ false) × (is_super a ≡ false)
quiet-ends naction_handled q = (refl, refl)
quiet-ends naction_ignored q = (refl, refl)
quiet-ends Naction.naction_super q = absurd (ground arith)
quiet-ends naction_transit_to q = absurd (ground arith)

pub check-true : (v b : Bool) → b ≡ true → check v b ≡ done tt
unfolding check
check-true true b e = rw e refl
check-true false b e = refl

module _ {ℓ} {W : Type ℓ} (m : Machine W) (react : ℕ → Event → ℕ → W → Reaction W)
    (ok : Answers m react) (v : Bool) where
  transition-done :
      (s t : ℕ) (w : W)
      → (r : Reaction W) × (fsm_transition react v s
            (record { action = naction_transit_to; state = t; world = w })
          ≡ done (t, r))
        × (r.state ≡ t)
        × (r.world ≡ m.enter t (m.leave s w))
  unfolding fsm_transition
  transition-done s t w =
      let (q, st, wd) = ok.exits s t w in
      let (q', st', wd') = ok.entries t (m.leave s w) in
      (
        react t nsm_entry t (m.leave s w),
        rw (st, wd, check-true v _ q, check-true v _ q') refl,
        st',
        wd',
      )

  -- The loop, on fuel enough for a run, ends as the machine does.
  abbrev Ends : ℕ → ℕ → Event → W → Type ℓ
  Ends fuel s e w =
      (s' : ℕ) × (w' : W) × (fsm_loop react v fuel s e s w ≡ done (s', w')) × Runs m s e w s' w'

  step-Runs :
      (fuel s : ℕ) (e : Event) (w : W) (a : Option ℕ × W)
      → m.handle s e w ≡ a
      → ((t : ℕ) (w₁ : W)
          → m.handle s e w ≡ (some t, w₁)
          → Ends fuel t nsm_init (m.enter t (m.leave s w₁)))
      → Ends (suc fuel) s e w
  unfolding fsm_loop
  step-Runs fuel s e w (none, w₁) h ih =
      let (q, wd) = ok.quiet s e w w₁ h in
      let (nt, ns) = quiet-ends _ q in (s, w₁, rw (nt, ns, check-true v true refl, wd) refl, stay h)
  step-Runs fuel s e w (some t, w₁) h ih =
      let (r, run, st, wd) = transition-done s t w₁ in
      let (s', w', rest, runs) = ih t w₁ h in
      (s', w', rw (ok.transit s t e w w₁ h, run, st, wd, rest) refl, move h runs)

  -- The initial transitions go down a rank.
  abbrev pub Descends : (ℕ → ℕ) → Type ℓ
  Descends rank = (s t : ℕ) (w w' : W) → m.handle s nsm_init w ≡ (some t, w') → rank t < rank s

  loop-Runs :
      (rank : ℕ → ℕ) → Descends rank → (fuel s : ℕ) (w : W) → rank s < fuel → Ends fuel s nsm_init w
  loop-Runs rank down zero s w h = absurd (omega arith)
  loop-Runs rank down (suc fuel) s w h =
      step-Runs fuel s nsm_init w (m.handle s nsm_init w) refl (λ t w₁ e.
        loop-Runs rank down fuel t (m.enter t (m.leave s w₁)) (omega (arith, down s t w w₁ e)))

  -- Where the state functions answer as the machine does, and its initial transitions go down a rank
  -- below `bound`, the dispatcher ends within `bound` further turns, and as the machine does.
  pub n_sm_fsm_dispatch-Runs :
      (rank : ℕ → ℕ) (bound : ℕ)
      → Descends rank
      → ((s : ℕ) → rank s < bound)
      → (s : ℕ) (e : Event) (w : W)
      → (s' : ℕ) × (w' : W) × (n_sm_fsm_dispatch react v (suc bound) s e w ≡ done (s', w'))
        × Runs m s e w s' w'
  unfolding n_sm_fsm_dispatch
  n_sm_fsm_dispatch-Runs rank bound down small s e w =
      step-Runs bound s e w (m.handle s e w) refl
        (λ t w₁ h. loop-Runs rank down bound t (m.enter t (m.leave s w₁)) (small t))
