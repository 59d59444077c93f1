-- ===== src/Timer/Tests.antt =====
-- Timers 2 and 3 run, due in 2 and 5 ticks; timer 3 has a period of 4 ticks; timer 4 is idle.
use neon_eds.Common.{
  ℕ, ◌≡◌, refl, List, [], ◌∷◌, ◌++◌, update, Run, done, some, arith, has, u32_max,
}
use neon_eds.Base.Dlist.{Links, ndlist_is_empty}
use neon_eds.Timer.{
  Timers, nsignature_timer, n_is_timer_object, ntimer_start_i, ntimer_cancel_i, ntimer_remaining,
  ncore_timer_isr,
}
use neon_eds.Timer.Delta.{expiry}
use neon_eds.Timer.Tick.{IsPending, after_tick, is_last_tick}
use neon_eds.Timer.View.{IsTimers, running}
use neon_eds.Timer.Start.{Started, ntimer_start_i-Started}
use neon_eds.Timer.Cancel.{Cancelled, ntimer_cancel_i-Cancelled}
use neon_eds.Timer.Remaining.{ntimer_remaining-expiry}
use neon_eds.Timer.Isr.{fire}
use neon_eds.Timer.Laws.{ncore_timer_isr-expiry}

abbrev links : Links
links = record {
  next = update (update (update (λ a. a) 1 2) 2 3) 3 1;
  prev = update (update (update (λ a. a) 1 3) 2 1) 3 2;
}

abbrev two_running : Timers
two_running = record {
  signature = λ a. nsignature_timer;
  links = links;
  rtick = update (update (update (λ a. 0) 1 u32_max) 2 2) 3 3;
  itick = update (λ a. 0) 3 4;
  fn = λ a. a;
  arg = λ a. 0;
}

two_running-IsTimers : IsTimers two_running (2 ∷ 3 ∷ [])
unfolding n_is_timer_object
two_running-IsTimers = record {
  ring = record { chain = ground arith; distinct = ground arith };
  sentinel_last = refl;
  sentinel_signed = refl;
  ticks_fit = λ a. ground arith;
  periods_fit = λ a. ground arith;
  total_fits = omega arith;
  signed = λ a m. ground arith;
}

ntimer_start_i-Started_example :
    (s' : Timers) × (ntimer_start_i 3 two_running 4 6 9 0 2 ≡ done s')
    × Started two_running (2 ∷ 3 ∷ []) 4 6 9 0 2 s'
unfolding n_is_timer_object ndlist_is_empty
ntimer_start_i-Started_example =
    ntimer_start_i-Started 3 two_running (2 ∷ 3 ∷ []) 4 6 9 0 2 two_running-IsTimers (omega arith)
      refl refl (omega arith) (omega arith) (omega arith) (omega arith)

ntimer_cancel_i-Cancelled_example :
    (s' : Timers) × (ntimer_cancel_i two_running 2 ≡ done s')
    × Cancelled two_running [] 2 (3 ∷ []) s'
ntimer_cancel_i-Cancelled_example =
    ntimer_cancel_i-Cancelled two_running [] 2 (3 ∷ []) two_running-IsTimers

ntimer_remaining-expiry_example :
    (t : ℕ) × (ntimer_remaining 2 two_running 3 ≡ done t)
    × (expiry 3 (running two_running (2 ∷ 3 ∷ [])) ≡ some t)
ntimer_remaining-expiry_example =
    ntimer_remaining-expiry 2 two_running (2 ∷ []) 3 [] two_running-IsTimers (omega arith)

-- A callback that only logs its function.
log_callback : ℕ → ℕ → List ℕ → List ℕ
log_callback f a w = w ++ f ∷ []

quiet_call : ℕ → ℕ → Timers → List ℕ → Run (Timers × List ℕ)
quiet_call f a t w = done (t, log_callback f a w)

quiet_call-quiet :
    (f a : ℕ) (t : Timers) (w : List ℕ) → quiet_call f a t w ≡ done (t, log_callback f a w)
unfolding quiet_call
quiet_call-quiet f a t w = refl

ncore_timer_isr-expiry_example :
    (s' : Timers) × (rest : List ℕ) × (due : List ℕ) × (ncore_timer_isr quiet_call 3 2 two_running
        []
      ≡ done (s', fire log_callback two_running.fn two_running.arg due []))
    × ((m : ℕ) → has m due ≡ is_last_tick (expiry m (running two_running (2 ∷ 3 ∷ []))))
    × ((m : ℕ)
        → expiry m (running s' rest)
          ≡ after_tick (two_running.itick m) (expiry m (running two_running (2 ∷ 3 ∷ []))))
    × IsTimers s' rest
    × IsPending (running s' rest)
ncore_timer_isr-expiry_example =
    ncore_timer_isr-expiry quiet_call log_callback quiet_call-quiet 3 2 two_running [] (2 ∷ 3 ∷ [])
      two_running-IsTimers (omega arith) (omega arith) (omega arith)
