-- ===== src/Timer.antt =====
-- source/timer.c: virtual timers on a list in which each timer holds the ticks after its predecessor.
-- Timers and list nodes are addresses (`NODE_TO_TIMER` keeps the address). The API validation is on, as
-- include/base/config.h sets it by default, and `ncore_is_lock_valid` is `true`, as in
-- port/x86-64-linux-gcc/arch/p_core.h; one call is one critical section.
pub mod Delta
pub mod Tick
pub mod View
pub mod Insert
pub mod Start
pub mod Cancel
pub mod Remaining
pub mod Expire
pub mod Isr
pub mod Laws
mod Tests
use Prim.Native.Nat.{bit_and}
use neon_eds.Common.{
  ℕ, zero, suc, Bool, true, false, not, ◌==◌, ltb, if◌then◌else◌, update, Run, done, out_of_fuel,
  ◌>>=◌, ◌>>◌, require, u32_max, add32, sub32, inc, dec,
}
use neon_eds.Base.Dlist.{
  Links, null, ndlist_init, ndlist_add_before, ndlist_remove, ndlist_is_empty, ndlist_next,
  ndlist_prev,
}

-- `struct ntimer` of every timer.
pub record Timers : Type 0 where
  pub signature : ℕ → ℕ
  pub links : Links
  pub rtick : ℕ → ℕ
  pub itick : ℕ → ℕ
  pub fn : ℕ → ℕ
  pub arg : ℕ → ℕ

-- `NSIGNATURE_TIMER`, the address of `g_timer_sentinel`, and `NTIMER_ATTR_REPEAT`.
abbrev pub nsignature_timer : ℕ
nsignature_timer = 0xdeadcee0

abbrev pub g_timer_sentinel : ℕ
g_timer_sentinel = 1

abbrev pub ntimer_attr_repeat : ℕ
ntimer_attr_repeat = 2

-- `NSIGNATURE_OF` and `N_IS_TIMER_OBJECT`.
unfoldable pub nsignature_of : Timers → ℕ → ℕ
nsignature_of s timer = if timer == null then 0 else s.signature timer

unfoldable pub n_is_timer_object : Timers → ℕ → Bool
unfolding nsignature_of
n_is_timer_object s timer = nsignature_of s timer == nsignature_timer

-- The static initialiser of `g_timer_sentinel`, with every other structure zeroed.
pub g_timers : Timers
g_timers = record {
  signature = update (λ _. 0) g_timer_sentinel nsignature_timer;
  links = ndlist_init (record { next = λ _. 0; prev = λ _. 0 }) g_timer_sentinel;
  rtick = update (λ _. 0) g_timer_sentinel u32_max;
  itick = λ _. 0;
  fn = λ _. 0;
  arg = λ _. 0;
}

-- The loop of `insert_timer`: the timers, and the place that it stops at.
pub insert_loop : ℕ → Timers → ℕ → ℕ → Run (record { timers : Timers; current : ℕ })
insert_loop zero s timer current = out_of_fuel
insert_loop (suc fuel) s timer current =
    let rest =
      insert_loop fuel
        (record s { rtick = update s.rtick timer (sub32 (s.rtick timer) (s.rtick current)) }) timer
        (ndlist_next s.links current) in
    if ltb (s.rtick current) (s.rtick timer)
    then rest
    else done (record { timers = s; current = current })

-- What `insert_timer` does at that place.
pub insert_here : Timers → ℕ → ℕ → Timers
insert_here s timer current =
    let linked = record s { links = ndlist_add_before s.links current timer } in
    if g_timer_sentinel == current then linked else record linked {
      rtick = update linked.rtick current (sub32 (linked.rtick current) (linked.rtick timer));
    }

pub insert_timer : ℕ → Timers → ℕ → Run Timers
insert_timer fuel s timer = do
  stop ← insert_loop fuel s timer (ndlist_next s.links g_timer_sentinel)
  done (insert_here stop.timers timer stop.current)

pub remove_timer : Timers → ℕ → Timers
remove_timer s timer = record s { links = ndlist_remove true s.links timer }

pub ntimer_init : Timers → ℕ → Run Timers
ntimer_init s timer = do
  require (not (nsignature_of s timer == nsignature_timer))
  let linked = record s { links = ndlist_init s.links timer }
  done (record linked { signature = update linked.signature timer nsignature_timer })

pub ntimer_is_running_i : Timers → ℕ → Run Bool
ntimer_is_running_i s timer = do
  require (n_is_timer_object s timer)
  done (if not (ndlist_is_empty s.links timer) then true else false)

pub ntimer_cancel_i : Timers → ℕ → Run Timers
ntimer_cancel_i s timer = do
  require (n_is_timer_object s timer)
  running ← ntimer_is_running_i s timer
  let next = ndlist_next s.links timer
  let moved =
      if g_timer_sentinel == next
      then s
      else record s { rtick = update s.rtick next (add32 (s.rtick next) (s.rtick timer)) }
  done (if running then remove_timer moved timer else s)

pub ntimer_start_i : ℕ → Timers → ℕ → ℕ → ℕ → ℕ → ℕ → Run Timers
ntimer_start_i fuel s timer tick fn arg flags = do
  require (n_is_timer_object s timer)
  require (ltb 0 tick)
  require (not (fn == null))
  running ← ntimer_is_running_i s timer
  require (not running)
  let tick' = inc tick
  let armed = record s {
    fn = update s.fn timer fn;
    arg = update s.arg timer arg;
    rtick = update s.rtick timer tick';
    itick = update s.itick timer (if bit_and flags ntimer_attr_repeat == 0 then 0 else tick');
  }
  insert_timer fuel armed timer

-- `ntimer_cancel` and `ntimer_start` add `ncore_lock_enter` and `ncore_lock_exit`, which touch no timer.
abbrev pub ntimer_cancel : Timers → ℕ → Run Timers
ntimer_cancel = ntimer_cancel_i

abbrev pub ntimer_start : ℕ → Timers → ℕ → ℕ → ℕ → ℕ → ℕ → Run Timers
ntimer_start = ntimer_start_i

-- The loop of `ntimer_remaining`, from the timer back to the sentinel.
pub remaining_loop : ℕ → Timers → ℕ → ℕ → Run ℕ
remaining_loop zero s timer remaining = out_of_fuel
remaining_loop (suc fuel) s timer remaining =
    let sum = add32 remaining (s.rtick timer) in
    let previous = ndlist_prev s.links timer in
    let rest = remaining_loop fuel s previous sum in
    if previous == g_timer_sentinel then done sum else rest

pub ntimer_remaining : ℕ → Timers → ℕ → Run ℕ
ntimer_remaining fuel s timer = do
  require (n_is_timer_object s timer)
  running ← ntimer_is_running_i s timer
  let back = remaining_loop fuel s timer 0
  if running then back else done 0

-- A callback is code of the application: it may change the timers and whatever else there is.
module _ {World : Type 0} (call : ℕ → ℕ → Timers → World → Run (Timers × World)) where
  -- The body of the loop of `ncore_timer_isr`: the timers, the world and the next `current`.
  pub expire : ℕ → Timers → World → ℕ → Run (record { timers : Timers; world : World; next : ℕ })
  expire fuel s w current = do
    let removed = remove_timer s current
    let again =
        insert_timer fuel
          (record removed { rtick = update removed.rtick current (removed.itick current) }) current
    s' ← (if removed.itick current == 0 then done removed else again)
    let next = ndlist_next s'.links g_timer_sentinel
    require (n_is_timer_object s' next)
    (s'', w') ← call (s'.fn current) (s'.arg current) s' w
    done (record { timers = s''; world = w'; next = next })

  pub isr_loop : ℕ → ℕ → Timers → World → ℕ → Run (Timers × World)
  isr_loop zero inner s w current = out_of_fuel
  isr_loop (suc fuel) inner s w current =
      let rest = expire inner s w current >>= λ e. isr_loop fuel inner e.timers e.world e.next in
      if s.rtick current == 0 then rest else done (s, w)

  -- `inner` is the fuel of each `insert_timer`.
  pub ncore_timer_isr : ℕ → ℕ → Timers → World → Run (Timers × World)
  ncore_timer_isr fuel inner s w =
      if ndlist_is_empty s.links g_timer_sentinel then done (s, w) else do
        let current = ndlist_next s.links g_timer_sentinel
        require (n_is_timer_object s current)
        let counted = record s { rtick = update s.rtick current (dec (s.rtick current)) }
        isr_loop fuel inner counted w current
