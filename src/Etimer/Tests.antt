-- ===== src/Etimer/Tests.antt =====
-- The event timer 32 runs, due in 5 ticks.
use neon_eds.Common.{ℕ, ◌+◌, ◌≡◌, ◌≢◌, refl, List, [], ◌∷◌, update, done, arith, u32_max, inl}
use neon_eds.Timer.{Timers, nsignature_timer, n_is_timer_object, nsignature_of}
use neon_eds.Timer.View.{IsTimers}
use neon_eds.Etimer.{
  Etimers, is_etimer_object, nsignature_etimer, nsm_null, netimer_after, netimer_every,
  netimer_cancel,
}
use neon_eds.Etimer.Due.{Due, Stopped, netimer_after-netimer_every, netimer_cancel-Stopped}

abbrev one_running : Timers
one_running = record {
  signature = λ a. nsignature_timer;
  links = record {
    next = update (update (λ a. a) 1 48) 48 1;
    prev = update (update (λ a. a) 1 48) 48 1;
  };
  rtick = update (update (λ a. 0) 1 u32_max) 48 5;
  itick = λ a. 0;
  fn = λ a. 7;
  arg = λ a. 32;
}

one_running-IsTimers : IsTimers one_running (48 ∷ [])
unfolding n_is_timer_object nsignature_of
one_running-IsTimers = record {
  ring = record { chain = ground arith; distinct = ground arith };
  sentinel_last = refl;
  sentinel_signed = refl;
  ticks_fit = λ a. ground arith;
  periods_fit = λ a. ground arith;
  total_fits = omega arith;
  signed = λ a m. ground arith;
}

abbrev etimers : Etimers
etimers = record {
  signature = λ a. nsignature_etimer;
  epa = λ a. 0;
  timers = one_running;
  events = record {
    mem = λ e. 0;
    attrib = λ e. 0;
    ref = λ e. 0;
    signature = λ e. 0;
    id = λ e. 20;
    producer = λ e. 0;
    size = λ e. 48;
  };
}

netimer_after-netimer_every_example :
    ((s' : Etimers) × (netimer_after 7 2 etimers 32 9 21 ≡ done s')
      × Due 7 etimers (48 ∷ []) 32 9 21 0 s')
    × ((s' : Etimers) × (netimer_every 7 2 etimers 32 9 21 ≡ done s')
        × Due 7 etimers (48 ∷ []) 32 9 21 (9 + 1) s')
unfolding n_is_timer_object is_etimer_object nsignature_of
netimer_after-netimer_every_example =
    netimer_after-netimer_every 7 2 etimers (48 ∷ []) 32 9 21 one_running-IsTimers refl refl
      (inl refl) (omega arith) (omega arith) (omega arith) (omega arith)

netimer_cancel-Stopped_example :
    (s' : Etimers) × (ys : List ℕ) × (netimer_cancel etimers 32 ≡ done s')
    × Stopped one_running (48 ∷ []) 48 s'.timers ys
    × (s'.events.id 96 ≡ nsm_null)
    × ((e : ℕ) → e ≢ 96 → s'.events.id e ≡ 20)
    × (s'.events ≡ record etimers.events { id = s'.events.id })
    × (s'.epa ≡ etimers.epa)
    × (s'.signature ≡ etimers.signature)
unfolding n_is_timer_object is_etimer_object nsignature_of
netimer_cancel-Stopped_example =
    netimer_cancel-Stopped etimers (48 ∷ []) 32 one_running-IsTimers refl refl (inl refl)
