-- ===== src/Smp/Hsm/Chart.antt =====
-- Hierarchical state machines: what a chart does with an event.
use neon_eds.Common.{ℕ, zero, suc, ◌+◌, ◌≡◌, ◌≢◌, Bool, true, false}
use neon_eds.Smp.{
  naction_super, naction_transit_to, Event, nsm_super, nsm_entry, nsm_exit, nsm_init, nsm_null,
  user_event, Reaction, is_quiet,
}
use neon_eds.Smp.Hsm.{is_accepted}
use neon_eds.Smp.Hsm.Tree.{Tree, ancestor}
use neon_eds.Smp.Hsm.Path.{Route}
use neon_eds.Smp.Hsm.Walk.{Supers}

-- A state passes an event on to its super state, takes it, or asks for a transition.
pub data Reply : Type 0 where
  pass : Reply
  stay : Reply
  goto : ℕ → Reply

abbrev pub is_goto : Reply → Bool
is_goto pass = false
is_goto stay = false
is_goto (goto t) = true

abbrev pub is_pass : Reply → Bool
is_pass pass = true
is_pass stay = false
is_pass (goto t) = false

pub record Chart {ℓ} (W : Type ℓ) : Type ℓ where
  pub handle : ℕ → Event → W → Reply × W
  pub leave : ℕ → W → W
  pub enter : ℕ → W → W

-- The events that ask a state to do something: those of the application, and the initial one.
abbrev pub is_plain : Event → Bool
is_plain nsm_super = false
is_plain nsm_entry = false
is_plain nsm_exit = false
is_plain nsm_init = true
is_plain nsm_null = true
is_plain (user_event n) = true

-- The state functions answer as the chart does, by the actions of include/ep/smp.h, whatever `sm->state` is.
pub record Answers {ℓ} {W : Type ℓ} (m : Chart W) (react : ℕ → Event → ℕ → W → Reaction W)
    (super : ℕ → ℕ) (top : ℕ) : Type ℓ where
  pub supers : Supers react super top
  pub passes :
      (s : ℕ) (e : Event) (state : ℕ) (w w' : W)
      → is_plain e ≡ true
      → m.handle s e w ≡ (pass, w')
      → react s e state w ≡ record { action = naction_super; state = super s; world = w' }
  pub stays :
      (s : ℕ) (e : Event) (state : ℕ) (w w' : W)
      → is_plain e ≡ true
      → m.handle s e w ≡ (stay, w')
      → (is_quiet (react s e state w).action ≡ true) × ((react s e state w).world ≡ w')
  pub goes :
      (s : ℕ) (e : Event) (state t : ℕ) (w w' : W)
      → is_plain e ≡ true
      → m.handle s e w ≡ (goto t, w')
      → react s e state w ≡ record { action = naction_transit_to; state = t; world = w' }
  pub targets : (s : ℕ) (e : Event) (t : ℕ) (w w' : W) → m.handle s e w ≡ (goto t, w') → t ≢ top
  pub exits :
      (s state : ℕ) (w : W)
      → (is_accepted (react s nsm_exit state w).action ≡ true)
        × ((react s nsm_exit state w).world ≡ m.leave s w)
  pub entries :
      (s state : ℕ) (w : W)
      → (is_accepted (react s nsm_entry state w).action ≡ true)
        × ((react s nsm_entry state w).world ≡ m.enter s w)

module _ {ℓ} {W : Type ℓ} (m : Chart W) (super : ℕ → ℕ) where
  -- The states `count` levels above `s` and on are left, the lowest first.
  unfoldable pub leave_chain : ℕ → ℕ → ℕ → W → W
  leave_chain s count zero w = w
  leave_chain s count (suc left) w =
      leave_chain s (count + 1) left (m.leave (ancestor super s count) w)

  -- The states under level `count` above `t` are entered, the highest first.
  unfoldable pub enter_chain : ℕ → ℕ → W → W
  enter_chain t zero w = w
  enter_chain t (suc count) w = enter_chain t count (m.enter (ancestor super t count) w)

  -- An event goes up from state `s`, to the state `c` levels above it that answers.
  pub data Climbs (top : ℕ) (e : Event) : ℕ → W → ℕ → Reply → W → Type ℓ where
    answered :
        {s : ℕ} {w w' : W} {r : Reply}
        → s ≢ top
        → m.handle s e w ≡ (r, w')
        → is_pass r ≡ false
        → Climbs top e s w 0 r w'
    passed :
        {s c : ℕ} {w w₁ w' : W} {r : Reply}
        → s ≢ top
        → m.handle s e w ≡ (pass, w₁)
        → Climbs top e (super s) w₁ c r w'
        → Climbs top e s w (suc c) r w'
    ignored : {s : ℕ} {w : W} → s ≡ top → Climbs top e s w 0 stay w

-- The transitions from `cur`, where the state `c` levels above it gave the reply. Each one leaves and
-- enters the states of its route, and sends the target the initial event.
pub data Turns {ℓ} {W : Type ℓ} (m : Chart W) {super : ℕ → ℕ} {top : ℕ} (tree : Tree super top)
    : ℕ → ℕ → Reply → W → ℕ → W → Type ℓ where
  rest : {cur c : ℕ} {r : Reply} {w : W} → is_goto r ≡ false → Turns m tree cur c r w cur w
  move :
      {cur c t i j s' : ℕ} {r : Reply} {w w₁ w' : W}
      → Route tree cur c t i j
      → m.handle t nsm_init (enter_chain m super t j (leave_chain m super cur 0 i w)) ≡ (r, w₁)
      → Turns m tree t 0 r w₁ s' w'
      → Turns m tree cur c (goto t) w s' w'
