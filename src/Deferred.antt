-- ===== src/Deferred.antt =====
-- source/deferred.c and include/sched/deferred.h: functions that run later, outside of the interrupt that
-- asks for them. The hooks `ncore_deferred_init` and `ncore_deferred_do` of the port do not touch this state.
pub mod Work
pub mod Order
pub mod Boot
mod Tests
use neon_eds.Common.{
  ℕ, zero, suc, ◌-◌, ◌^◌, Bool, true, false, not, ◌==◌, if◌then◌else◌, update, Run, done,
  out_of_fuel, ◌>>=◌, ◌>>◌,
}
use neon_eds.Base.Dlist.{
  Links, null, ndlist_init, ndlist_is_empty, ndlist_add_after, ndlist_next, ndlist_remove,
}
use neon_eds.Sched.{check}

-- `struct sched_deferred_ctx`, and the fields of every `struct nsched_deferred`, which stands at the address
-- of its `list`.
pub record Deferred : Type 0 where
  pub list : Links
  pub pending : ℕ
  pub working : ℕ
  pub is_initialized : Bool
  pub fn : ℕ → ℕ
  pub arg : ℕ → ℕ
  pub signature : ℕ → ℕ

abbrev pub nsignature_defer : ℕ
nsignature_defer = 3735944943

-- `g_ctx.a` and `g_ctx.b`.
abbrev pub list_a : ℕ
list_a = 1

abbrev pub list_b : ℕ
list_b = 2

unfoldable pub defer_signature : Deferred → ℕ → ℕ
defer_signature d deferred = if deferred == null then 0 else d.signature deferred

unfoldable pub prepare_lists : Deferred → Deferred
prepare_lists d = record d {
  is_initialized = true;
  list = ndlist_init (ndlist_init d.list list_a) list_b;
  pending = list_a;
  working = list_b;
}

unfoldable pub nsched_deferred_init : Bool → Deferred → ℕ → ℕ → ℕ → Run Deferred
nsched_deferred_init validation d deferred fn arg =
    let d₁ = if d.is_initialized then d else prepare_lists d in
    let d₂ = record d₁ {
      fn = update d₁.fn deferred fn;
      arg = update d₁.arg deferred arg;
      list = ndlist_init d₁.list deferred;
    } in
    check validation (not (deferred == null))
    >> (check validation (not (defer_signature d deferred == nsignature_defer))
        >> (check validation (not (fn == null))
            >> done (
                if validation
                then record d₂ { signature = update d₂.signature deferred nsignature_defer }
                else d₂)))

unfoldable pub nsched_deferred_do : Bool → Deferred → ℕ → Run Deferred
nsched_deferred_do validation d deferred =
    check validation (not (deferred == null))
    >> (check validation (defer_signature d deferred == nsignature_defer)
        >> done (
            if ndlist_is_empty d.list deferred
            then record d { list = ndlist_add_after d.list d.pending deferred }
            else d))

-- `call fn arg` is what a deferred function does to this state, and to the rest of the program.
module _ {ℓ} {W : Type ℓ} (call : ℕ → ℕ → Deferred × W → Deferred × W) (validation : Bool) where
  unfoldable pub work_loop : ℕ → Deferred × W → Run (Deferred × W)
  work_loop zero s = out_of_fuel
  work_loop (suc fuel) s =
      let next = λ (s₁ : Deferred × W). work_loop fuel s₁ in
      let current = ndlist_next s.0.list s.0.working in
      let (d, w) = call (s.0.fn current) (s.0.arg current) s in
      if ndlist_is_empty s.0.list s.0.working
      then done s
      else check validation (defer_signature s.0 current == nsignature_defer)
        >> next (record d { list = ndlist_remove validation d.list current }, w)

  unfoldable pub ncore_deferred_work : ℕ → Deferred → W → Run (Deferred × W)
  ncore_deferred_work fuel d w =
      work_loop fuel (record d { pending = d.working; working = d.pending }, w)
