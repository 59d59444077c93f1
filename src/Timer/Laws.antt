-- ===== src/Timer/Laws.antt =====
-- Source/timer.c as a whole: every call keeps the timers valid, and what one interrupt does to each.
use neon_eds.Common.{ℕ, ◌<◌, ◌≤◌, ◌≡◌, ◌∙◌, sym, ap, subst, List, Distinct, has, Run, done, length}
use neon_eds.Timer.{Timers, ncore_timer_isr}
use neon_eds.Timer.Delta.{names, expiry}
use neon_eds.Timer.Tick.{tick, IsPending, after_tick, is_last_tick, has-tick, expiry-tick}
use neon_eds.Timer.View.{names-deltas, IsTimers, running}
use neon_eds.Timer.Isr.{fire, ncore_timer_isr-tick}

unique : (s : Timers) (xs : List ℕ) → IsTimers s xs → Distinct (names (running s xs))
unique s xs v = subst Distinct (sym (names-deltas s.rtick xs)) v.ring.distinct.1

module _ {World : Type 0} (call : ℕ → ℕ → Timers → World → Run (Timers × World))
    (effect : ℕ → ℕ → World → World)
    (quiet : (f a : ℕ) (t : Timers) (w : World) → call f a t w ≡ done (t, effect f a w)) where
  -- With callbacks that leave the timers alone, one interrupt calls back a timer exactly if it had one
  -- tick left; such a timer stops, or is due in its period again, and any other has one tick less.
  pub ncore_timer_isr-expiry :
      (fuel inner : ℕ) (s : Timers) (w : World) (xs : List ℕ)
      → IsTimers s xs
      → IsPending (running s xs)
      → length xs < fuel
      → length xs ≤ inner
      → (s' : Timers) × (order : List ℕ) × (due : List ℕ) × (ncore_timer_isr call fuel inner s w
          ≡ done (s', fire effect s.fn s.arg due w))
        × ((m : ℕ) → has m due ≡ is_last_tick (expiry m (running s xs)))
        × ((m : ℕ) → expiry m (running s' order) ≡ after_tick (s.itick m) (expiry m (running s xs)))
        × IsTimers s' order
        × IsPending (running s' order)
  ncore_timer_isr-expiry fuel inner s w xs v p h k =
      let (s', order, run, v', ticks, p', _) =
        ncore_timer_isr-tick call effect quiet fuel inner s w xs v p h k in
      let u = unique s xs v in
      (
        s',
        order,
        (tick s.itick (running s xs)).0,
        run,
        has-tick s.itick (running s xs) u p,
        λ m. ap (expiry m) ticks ∙ expiry-tick s.itick (running s xs) u p m,
        v',
        p',
      )
