-- ===== src/Smp/Hsm.antt =====
-- source/smp.c: hierarchical state machines. A state function is its address, and `super` of a state is
-- what it leaves in `sm->state` when it is sent NSM_SUPER.
pub mod Tree
pub mod Walk
pub mod Search
pub mod Path
pub mod Chart
pub mod Steps
pub mod Climb
pub mod Dispatch
pub mod Lowest
mod Tests
use neon_eds.Common.{
  ℕ, zero, suc, ◌+◌, ◌-◌, Bool, true, false, not, ◌||◌, ltb, ◌==◌, if◌then◌else◌, update, Run, done,
  out_of_fuel, out_of_bounds, ◌>>=◌, ◌>>◌,
}
use neon_eds.Sched.{check}
use neon_eds.Smp.{
  Naction, naction_ignored, Event, nsm_super, nsm_entry, nsm_exit, nsm_init, nsm_null, user_event,
  Reaction, is_super, is_transit, is_quiet,
}

-- `struct hsm_path`
pub record HsmPath : Type 0 where
  pub buff : ℕ → ℕ
  pub index : ℕ

-- `entry`, `exit`, `sm->state` and the memory that the state functions work on.
pub record Paths {ℓ} (W : Type ℓ) : Type ℓ where
  pub entry : HsmPath
  pub exit : HsmPath
  pub state : ℕ
  pub world : W

-- `event->id < NEVENT_USER_ID`
abbrev pub is_system_event : Event → Bool
is_system_event nsm_super = true
is_system_event nsm_entry = true
is_system_event nsm_exit = true
is_system_event nsm_init = true
is_system_event nsm_null = true
is_system_event (user_event n) = false

-- `exit->buff[exit->index] == entry->buff[entry->index]`
abbrev pub meets {ℓ} : {W : Type ℓ} → Paths W → Bool
meets b = b.exit.buff b.exit.index == b.entry.buff b.entry.index

-- `path->index = index`
abbrev pub at_index : HsmPath → ℕ → HsmPath
at_index p index = record p { index = index }

-- `(ret == NACTION_IGNORED) || (ret == NACTION_HANDLED) || (ret == NACTION_SUPER)`
abbrev pub is_accepted : Naction → Bool
is_accepted a = is_quiet a || is_super a

-- `depth` is CONFIG_SMP_HSM_PATH_DEPTH, the size of the array `buff`, and `top` is `ntop_state`.
module _ {ℓ} {W : Type ℓ} (react : ℕ → Event → ℕ → W → Reaction W) (validation : Bool)
    (depth top : ℕ) where
  unfoldable pub ntop_state : Event → ℕ → W → Run (Reaction W)
  ntop_state event state world =
      check validation (is_system_event event)
      >> done (record { action = naction_ignored; state = state; world = world })

  -- A call of the state function `fn`, with `sm->state` and the memory before it.
  unfoldable pub call : ℕ → Event → ℕ → W → Run (Reaction W)
  call fn event state world =
      if fn == top then ntop_state event state world else done (react fn event state world)

  unfoldable pub hsm_get_state_super : ℕ → ℕ → W → Run (ℕ × W)
  hsm_get_state_super fn state world = call fn nsm_super state world >>= λ r.
      check validation (is_super r.action) >> done (r.state, r.world)

  -- `path->buff[index] = fn`, `path->index = index`
  unfoldable pub put : HsmPath → ℕ → ℕ → Run HsmPath
  put p index fn =
      if ltb index depth
      then done (record { buff = update p.buff index fn; index = index })
      else out_of_bounds

  -- `current_state = hsm_get_state_super(sm, path->buff[path->index++])`,
  -- `path->buff[path->index] = current_state`
  unfoldable pub raise_entry : Paths W → Run (Paths W)
  raise_entry b = hsm_get_state_super (b.entry.buff b.entry.index) b.state b.world >>= λ r.
      put b.entry (b.entry.index + 1) r.0 >>= λ p.
      done (record b { entry = p; state = r.0; world = r.1 })

  unfoldable pub raise_exit : Paths W → Run (Paths W)
  raise_exit b = hsm_get_state_super (b.exit.buff b.exit.index) b.state b.world >>= λ r.
      put b.exit (b.exit.index + 1) r.0 >>= λ p.
      done (record b { exit = p; state = r.0; world = r.1 })

  -- The loop of path e). The result tells whether the function returns there.
  unfoldable pub path_e_loop : ℕ → Paths W → Run (Bool × Paths W)
  path_e_loop zero b = out_of_fuel
  path_e_loop (suc fuel) b =
      let rest =
        raise_entry b >>= λ b₁. if meets b₁ then done (true, b₁) else path_e_loop fuel b₁ in
      if b.entry.buff b.entry.index == top then done (false, b) else rest

  -- The loop of path f).
  unfoldable pub path_f_loop : ℕ → Paths W → Run (Bool × Paths W)
  path_f_loop zero b = out_of_fuel
  path_f_loop (suc fuel) b =
      let rest = path_f_loop fuel (record b { entry = at_index b.entry (b.entry.index - 1) }) in
      if b.entry.index == 1 then done (false, b) else (if meets b then done (true, b) else rest)

  -- The inner loop of path g), from the increment of `entry->index` on.
  unfoldable pub path_g_inner : ℕ → Paths W → Run (Bool × Paths W)
  path_g_inner zero b = out_of_fuel
  path_g_inner (suc fuel) b =
      let b₁ = record b { entry = at_index b.entry (b.entry.index + 1) } in
      let rest = path_g_inner fuel b₁ in
      if meets b₁
      then done (true, b₁)
      else (if b₁.entry.buff b₁.entry.index == top then done (false, b₁) else rest)

  -- The outer loop of path g). `inner` is the fuel of the inner one.
  unfoldable pub path_g_loop : ℕ → ℕ → Paths W → Run (Paths W)
  path_g_loop inner zero b = out_of_fuel
  path_g_loop inner (suc fuel) b = raise_exit b >>= λ b₁.
      path_g_inner inner (record b₁ { entry = at_index b₁.entry 0 }) >>= λ r.
      if r.0 then done r.1 else path_g_loop inner fuel r.1

  -- The rest of `hsm_build_path` from each of its paths on.
  unfoldable pub path_g : ℕ → Bool × Paths W → Run (Paths W)
  path_g fuel r = if r.0 then done r.1 else path_g_loop fuel fuel r.1

  unfoldable pub path_f : ℕ → Bool × Paths W → Run (Paths W)
  path_f fuel r =
      if r.0
      then done r.1
      else (path_f_loop fuel (record r.1 { exit = at_index r.1.exit (r.1.exit.index + 1) })
          >>= λ r₁. path_g fuel r₁)

  unfoldable pub path_e : ℕ → Paths W → Run (Paths W)
  path_e fuel b =
      path_e_loop fuel (record b {
        exit = at_index b.exit (b.exit.index - 1);
        entry = at_index b.entry (b.entry.index + 1);
      })
      >>= λ r. path_f fuel r

  unfoldable pub path_d : ℕ → Paths W → Run (Paths W)
  path_d fuel b =
      let b₁ = record b { entry = at_index b.entry (b.entry.index - 1) } in
      if meets b₁ then done b₁ else path_e fuel b₁

  unfoldable pub path_c : ℕ → Paths W → Run (Paths W)
  path_c fuel b = raise_exit b >>= λ b₁. if meets b₁ then done b₁ else path_d fuel b₁

  unfoldable pub path_b : ℕ → Paths W → Run (Paths W)
  path_b fuel b = raise_entry b >>= λ b₁. if meets b₁ then done b₁ else path_c fuel b₁

  unfoldable pub hsm_build_path : ℕ → Paths W → Run (Paths W)
  hsm_build_path fuel b =
      let b₁ = record b { entry = at_index b.entry 0; exit = at_index b.exit (b.exit.index - 1) } in
      if meets b₁
      then done (record b₁ {
        entry = at_index b₁.entry (b₁.entry.index + 1);
        exit = at_index b₁.exit (b₁.exit.index + 1);
      })
      else path_b fuel b₁

  -- The loop of `hsm_path_enter`, from index `count` down.
  unfoldable pub hsm_path_enter : (ℕ → ℕ) → ℕ → ℕ → W → Run (ℕ × W)
  hsm_path_enter buff zero state world = done (state, world)
  hsm_path_enter buff (suc index) state world = call (buff index) nsm_entry state world >>= λ r.
      check validation (is_accepted r.action) >> hsm_path_enter buff index r.state r.world

  -- The loop of `hsm_path_exit`, with `left` rounds to go.
  unfoldable pub hsm_path_exit : (ℕ → ℕ) → ℕ → ℕ → ℕ → W → Run (ℕ × W)
  hsm_path_exit buff count zero state world = done (state, world)
  hsm_path_exit buff count (suc left) state world = call (buff count) nsm_exit state world >>= λ r.
      check validation (is_accepted r.action) >> hsm_path_exit buff (count + 1) left r.state r.world

  -- The first loop of `n_sm_hsm_dispatch`.
  unfoldable pub climb : ℕ → HsmPath → Event → ℕ → W → Run (HsmPath × Reaction W)
  climb zero exit event state world = out_of_fuel
  climb (suc fuel) exit event state world = put exit exit.index state >>= λ p.
      call state event state world >>= λ r.
      let next = at_index p (p.index + 1) in
      let rest = climb fuel next event r.state r.world in
      if is_super r.action then rest else done (next, r)

  -- One round of the second loop: the transition, and the initial event of the target.
  unfoldable pub hsm_transit : ℕ → HsmPath → HsmPath → Reaction W → Run (Paths W × Reaction W)
  hsm_transit fuel entry exit r = put entry 0 r.state >>= λ p.
      hsm_build_path fuel (record { entry = p; exit = exit; state = r.state; world = r.world })
      >>= λ b. hsm_path_exit b.exit.buff 0 b.exit.index b.state b.world >>= λ x.
          hsm_path_enter b.entry.buff b.entry.index x.0 x.1 >>= λ e.
          call (b.entry.buff 0) nsm_init e.0 e.1 >>= λ r₁.
          put b.exit 0 (b.entry.buff 0) >>= λ q. done (record b { exit = at_index q 1 }, r₁)

  -- The second loop. The result is `sm->state` and the memory at the end.
  unfoldable pub hsm_turns : ℕ → ℕ → HsmPath → HsmPath → ℕ → Reaction W → Run (ℕ × W)
  hsm_turns inner zero entry exit current_state r = out_of_fuel
  hsm_turns inner (suc fuel) entry exit current_state r =
      let rest = hsm_transit inner entry exit r >>= λ t.
      hsm_turns inner fuel t.0.entry t.0.exit (t.0.entry.buff 0) t.1 in
      if is_transit r.action then rest else done (current_state, r.world)

  -- `entry` and `exit` are the local arrays, which are not initialised.
  unfoldable pub n_sm_hsm_dispatch : ℕ → ℕ → HsmPath → HsmPath → ℕ → Event → W → Run (ℕ × W)
  n_sm_hsm_dispatch inner fuel entry exit state event world =
      climb inner (at_index exit 0) event state world >>= λ c.
      hsm_turns inner fuel entry c.0 state c.1
