-- ===== src/Etimer/Due.antt =====
-- Event timers of source/etimer.c that are started, started again, and cancelled.
use neon_eds.Common.{
  ℕ, ◌+◌, ◌<◌, ◌≤◌, ◌≡◌, ◌≢◌, ◌⊎◌, inl, inr, List, ◌∷◌, ◌++◌, ◌∈◌, split_of_mem, length,
  length-append, true, false, ◌==◌, if◌then◌else◌, done, arith, refl, ap, ◌∙◌, sym, subst, u32_max,
  some,
}
use native.Mathlib.Decide.{ℕ_discrete}
use neon_eds.Base.Dlist.{ndlist_is_empty}
use neon_eds.Timer.{Timers, n_is_timer_object, ntimer_cancel_i}
use neon_eds.Timer.Delta.{expiry}
use neon_eds.Timer.View.{IsTimers, running, signed-frame}
use neon_eds.Timer.Start.{ntimer_start_i-Started}
use neon_eds.Timer.Cancel.{ntimer_cancel_i-Cancelled, ntimer_cancel_i-idle}
use neon_eds.Etimer.{
  Etimers, is_etimer_object, timer_of, event_of, set_event_id, nsm_null, netimer_after,
  netimer_every, netimer_cancel,
}

-- A timer that is on the list, or is off it.
abbrev pub InUse : Timers → List ℕ → ℕ → Type 0
InUse s xs n = (n ∈ xs) ⊎ (ndlist_is_empty s.links n ≡ true)

-- The timers after one of them is stopped.
pub record Stopped (s : Timers) (xs : List ℕ) (n : ℕ) (s' : Timers) (ys : List ℕ) : Type 0 where
  pub valid : IsTimers s' ys
  pub idle : ndlist_is_empty s'.links n ≡ true
  pub signature : s'.signature ≡ s.signature
  pub periods : s'.itick ≡ s.itick
  pub callbacks : s'.fn ≡ s.fn
  pub arguments : s'.arg ≡ s.arg
  pub shorter : length ys ≤ length xs
  pub others : (m : ℕ) → m ≢ n → expiry m (running s' ys) ≡ expiry m (running s xs)

pub ntimer_cancel_i-Stopped :
    (s : Timers) (xs : List ℕ) (n : ℕ)
    → IsTimers s xs
    → n_is_timer_object s n ≡ true
    → InUse s xs n
    → (s' : Timers) × (ys : List ℕ) × (ntimer_cancel_i s n ≡ done s') × Stopped s xs n s' ys
ntimer_cancel_i-Stopped s xs n v signed (inr idle) = (
  s,
  xs,
  ntimer_cancel_i-idle s n signed idle,
  record {
    valid = v;
    idle = idle;
    signature = refl;
    periods = refl;
    callbacks = refl;
    arguments = refl;
    shorter = omega arith;
    others = λ m ne. refl;
  },
)
ntimer_cancel_i-Stopped s xs n v signed (inl member) =
    let (us, vs, e) = split_of_mem n xs member in
    let (s', run, c) = ntimer_cancel_i-Cancelled s us n vs (subst (IsTimers s) e v) in
    (
      s',
      us ++ vs,
      run,
      record {
        valid = c.valid;
        idle = c.stopped;
        signature = c.signature;
        periods = c.periods;
        callbacks = c.callbacks;
        arguments = c.arguments;
        shorter = omega (arith, ap length e, length-append us vs, length-append us (n ∷ vs));
        others = λ m ne. c.others m ne ∙ ap (λ l. expiry m (running s l)) (sym e);
      },
    )

-- The event timer is due in `tick + 1` ticks, calls `handler` with itself, and its event has the identifier.
pub record Due (handler : ℕ) (s : Etimers) (xs : List ℕ) (timer tick id period : ℕ) (s' : Etimers)
    : Type 0 where
  pub order : List ℕ
  pub valid : IsTimers s'.timers order
  pub due :
      (m : ℕ)
      → expiry m (running s'.timers order)
        ≡ (if timer_of timer == m then some (tick + 1) else expiry m (running s.timers xs))
  pub period_set : s'.timers.itick (timer_of timer) ≡ period
  pub callback : s'.timers.fn (timer_of timer) ≡ handler
  pub argument : s'.timers.arg (timer_of timer) ≡ timer
  pub event_id : s'.events.id (event_of timer) ≡ id

module _ (handler fuel : ℕ) (s : Etimers) (xs : List ℕ) (timer tick id : ℕ)
    (v : IsTimers s.timers xs) (signed : is_etimer_object s timer ≡ true)
    (timer_signed : n_is_timer_object s.timers (timer_of timer) ≡ true)
    (known : InUse s.timers xs (timer_of timer)) (pos : 0 < tick) (small : tick < u32_max)
    (some_handler : handler ≢ 0) (enough : length xs < fuel) where
  -- Both start the timer again, with other flags.
  module _ (t : Timers) (ys : List ℕ) (stopped : Stopped s.timers xs (timer + 16) t ys) where
    still_signed : n_is_timer_object t (timer + 16) ≡ true
    still_signed = signed-frame s.timers t stopped.signature (timer + 16) ∙ timer_signed

    moved :
        (m : ℕ)
        → (if timer + 16 == m then some (tick + 1) else expiry m (running t ys))
          ≡ (if timer + 16 == m then some (tick + 1) else expiry m (running s.timers xs))
    moved m = elim (ℕ_discrete m (timer + 16)) [
      | yes e ↦ let same : (timer + 16 == m) ≡ true = ground (arith, e) in rw same refl
      | no ne ↦
          let other : (timer + 16 == m) ≡ false = ground (arith, ne) in
          rw other (stopped.others m ne)
    ]

  -- From valid timers, for a signed event timer that is on the list or off it, a tick count
  -- above 0 and below the greatest, and more fuel than there are running timers, netimer_after
  -- and netimer_every return: the event timer is due in tick + 1 ticks, no other timer moves,
  -- its period is 0 or the same count, its callback is the handler with the event timer as
  -- argument, and its event has the given identifier.
  pub netimer_after-netimer_every :
      ((s' : Etimers) × (netimer_after handler fuel s timer tick id ≡ done s')
        × Due handler s xs timer tick id 0 s')
      × ((s' : Etimers) × (netimer_every handler fuel s timer tick id ≡ done s')
          × Due handler s xs timer tick id (tick + 1) s')
  unfolding netimer_after netimer_every
  netimer_after-netimer_every =
      let (t, ys, run, stopped) =
        ntimer_cancel_i-Stopped s.timers xs (timer + 16) v timer_signed known in
      let fits : length ys < fuel = omega (arith, stopped.shorter, enough) in
      let (t₁, run₁, a) =
        ntimer_start_i-Started fuel t ys (timer + 16) tick handler timer 1 stopped.valid
          (omega arith) (still_signed t ys stopped) stopped.idle pos small some_handler fits in
      let (t₂, run₂, b) =
        ntimer_start_i-Started fuel t ys (timer + 16) tick handler timer 2 stopped.valid
          (omega arith) (still_signed t ys stopped) stopped.idle pos small some_handler fits in
      (
        (
          record (set_event_id s timer id) { timers = t₁ },
          rw (signed, run, run₁) refl,
          record {
            order = a.order;
            valid = a.valid;
            due = λ m. a.due m ∙ moved t ys stopped m;
            period_set = a.period;
            callback = a.callback;
            argument = a.argument;
            event_id = ground arith;
          },
        ),
        (
          record (set_event_id s timer id) { timers = t₂ },
          rw (signed, run, run₂) refl,
          record {
            order = b.order;
            valid = b.valid;
            due = λ m. b.due m ∙ moved t ys stopped m;
            period_set = b.period;
            callback = b.callback;
            argument = b.argument;
            event_id = ground arith;
          },
        ),
      )

-- From valid timers, a signed event timer that is on the list or off it is off it after
-- netimer_cancel, and its event has the identifier of the null event; every other timer is due when
-- it was, all timers keep their periods, callbacks and arguments, and no other field of any event
-- changes.
pub netimer_cancel-Stopped :
    (s : Etimers) (xs : List ℕ) (timer : ℕ)
    → IsTimers s.timers xs
    → is_etimer_object s timer ≡ true
    → n_is_timer_object s.timers (timer_of timer) ≡ true
    → InUse s.timers xs (timer_of timer)
    → (s' : Etimers) × (ys : List ℕ) × (netimer_cancel s timer ≡ done s')
      × Stopped s.timers xs (timer_of timer) s'.timers ys
      × (s'.events.id (event_of timer) ≡ nsm_null)
      × ((e : ℕ) → e ≢ event_of timer → s'.events.id e ≡ s.events.id e)
      × (s'.events ≡ record s.events { id = s'.events.id })
      × (s'.epa ≡ s.epa)
      × (s'.signature ≡ s.signature)
unfolding netimer_cancel
netimer_cancel-Stopped s xs timer v signed timer_signed known =
    let (t, ys, run, stopped) =
      ntimer_cancel_i-Stopped s.timers xs (timer + 16) v timer_signed known in
    (
      record (set_event_id s timer nsm_null) { timers = t },
      ys,
      rw (signed, run) refl,
      stopped,
      ground arith,
      λ e ne. ground (arith, ne),
      refl,
      refl,
      refl,
    )
