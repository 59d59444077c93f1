-- ===== src/Smp.antt =====
-- source/smp.c and include/ep/smp.h: state machines, and the dispatcher of the flat ones.
pub mod Machine
pub mod Hsm
mod Tests
use neon_eds.Common.{
  ℕ, zero, suc, Bool, true, false, not, ◌||◌, if◌then◌else◌, Run, done, out_of_fuel, ◌>>=◌, ◌>>◌,
}
use neon_eds.Sched.{check}

-- `enum naction`
pub data Naction : Type 0 where
  naction_super : Naction
  naction_transit_to : Naction
  naction_handled : Naction
  naction_ignored : Naction

-- `enum nsm_event`, and the events of the application.
pub data Event : Type 0 where
  nsm_super : Event
  nsm_entry : Event
  nsm_exit : Event
  nsm_init : Event
  nsm_null : Event
  user_event : ℕ → Event

abbrev pub is_transit : Naction → Bool
is_transit naction_transit_to = true
is_transit naction_super = false
is_transit naction_handled = false
is_transit naction_ignored = false

abbrev pub is_super : Naction → Bool
is_super naction_super = true
is_super naction_transit_to = false
is_super naction_handled = false
is_super naction_ignored = false

-- `(ret == NACTION_IGNORED) || (ret == NACTION_HANDLED)`
abbrev pub is_quiet : Naction → Bool
is_quiet naction_ignored = true
is_quiet naction_handled = true
is_quiet naction_super = false
is_quiet naction_transit_to = false

-- What a call of a state function returns, with `sm->state` and the rest of the memory after it.
pub record Reaction {ℓ} (W : Type ℓ) : Type ℓ where
  pub action : Naction
  pub state : ℕ
  pub world : W

module _ {ℓ} {W : Type ℓ} (react : ℕ → Event → ℕ → W → Reaction W) (validation : Bool) where
  -- The body of the loop of `n_sm_fsm_dispatch`: the exit of a state and the entry of the next one. The
  -- result is the reaction to the entry, and the next state.
  unfoldable pub fsm_transition : ℕ → Reaction W → Run (ℕ × Reaction W)
  fsm_transition current_state r =
      let left = react current_state nsm_exit r.state r.world in
      let entered = react left.state nsm_entry left.state left.world in
      check validation (is_quiet left.action)
      >> (check validation (is_quiet entered.action) >> done (left.state, entered))

  -- `state` is `sm->state`. The result is `sm->state` and the memory at the end.
  unfoldable pub fsm_loop : ℕ → ℕ → Event → ℕ → W → Run (ℕ × W)
  fsm_loop zero current_state event state world = out_of_fuel
  fsm_loop (suc fuel) current_state event state world =
      let r = react current_state event state world in
      let rest =
        fsm_transition current_state r >>= λ t. fsm_loop fuel t.0 nsm_init t.1.state t.1.world in
      if is_transit r.action
      then rest
      else (check validation (not (is_super r.action)) >> done (current_state, r.world))

  unfoldable pub n_sm_fsm_dispatch : ℕ → ℕ → Event → W → Run (ℕ × W)
  n_sm_fsm_dispatch fuel state event world = fsm_loop fuel state event state world
