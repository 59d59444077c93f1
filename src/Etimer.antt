-- ===== src/Etimer.antt =====
-- source/etimer.c: event timers, each a virtual timer whose callback sends the timer's own event to an agent.
-- The API validation is on, as for the timers. The offsets in `struct netimer` are those of x86-64.
pub mod Due
mod Tests
use neon_eds.Common.{
  ℕ, ◌+◌, ◌-◌, ◌^◌, Bool, not, ◌==◌, if◌then◌else◌, update, Run, done, ◌>>=◌, ◌>>◌, require,
}
use neon_eds.Base.Dlist.{null}
use neon_eds.Timer.{
  Timers, ntimer_attr_repeat, ntimer_init, ntimer_is_running_i, ntimer_cancel_i, ntimer_cancel,
  ntimer_start_i, ntimer_remaining,
}
use neon_eds.Event.{Events, nsignature_event}
use neon_eds.Epa.{System, nepa_send_event_i}

-- `struct netimer` of every event timer: the timers and the events hold those of the others too.
pub record Etimers : Type 0 where
  pub signature : ℕ → ℕ
  pub epa : ℕ → ℕ
  pub timers : Timers
  pub events : Events

abbrev pub nsignature_etimer : ℕ
nsignature_etimer = 0xdeadfeec

abbrev pub nsm_null : ℕ
nsm_null = 14

abbrev pub ntimer_attr_one_shot : ℕ
ntimer_attr_one_shot = 1

-- `&timer->timer` and `&timer->event`.
abbrev pub timer_of : ℕ → ℕ
timer_of timer = timer + 16

abbrev pub event_of : ℕ → ℕ
event_of timer = timer + 64

unfoldable pub is_etimer_object : Etimers → ℕ → Bool
is_etimer_object s timer = (if timer == null then 0 else s.signature timer) == nsignature_etimer

-- `timer->event = g_default_event`, with `header` for sizeof(struct nevent).
unfoldable pub set_default_event : ℕ → Events → ℕ → Events
set_default_event header h event = record {
  mem = update h.mem event null;
  attrib = update h.attrib event 0;
  ref = update h.ref event 0;
  signature = update h.signature event nsignature_event;
  id = update h.id event (2 ^ 64 - 1);
  producer = update h.producer event null;
  size = update h.size event header;
}

abbrev pub set_event_id : Etimers → ℕ → ℕ → Etimers
set_event_id s timer id = record s {
  events = record s.events { id = update s.events.id (event_of timer) id };
}

-- `current` is `nepa_get_current()`.
unfoldable pub netimer_init : ℕ → ℕ → Etimers → ℕ → Run Etimers
netimer_init header current s timer =
    require (not (is_etimer_object s timer))
    >> (ntimer_init s.timers (timer_of timer) >>= λ t. done (record {
      signature = update s.signature timer nsignature_etimer;
      epa = update s.epa timer current;
      timers = t;
      events = set_default_event header s.events (event_of timer);
    }))

-- `term` is `ntimer_term`, which the library does not define.
unfoldable pub netimer_term : (Timers → ℕ → Run Timers) → Etimers → ℕ → Run Etimers
netimer_term term s timer =
    require (is_etimer_object s timer)
    >> (term s.timers (timer_of timer) >>= λ t. done (record s {
      timers = t;
      signature = update s.signature timer (2 ^ 32 - 1 - nsignature_etimer);
    }))

-- `handler` is the address of `etimer_handler`, and `fuel` that of `insert_timer`.
module _ (handler fuel : ℕ) where
  unfoldable pub netimer_after : Etimers → ℕ → ℕ → ℕ → Run Etimers
  netimer_after s timer tick event_id =
      require (is_etimer_object s timer)
      >> (ntimer_cancel_i s.timers (timer_of timer) >>= λ t.
          let s₁ = set_event_id (record s { timers = t }) timer event_id in
          ntimer_start_i fuel s₁.timers (timer_of timer) tick handler timer ntimer_attr_one_shot
          >>= λ t₁. done (record s₁ { timers = t₁ }))

  unfoldable pub netimer_every : Etimers → ℕ → ℕ → ℕ → Run Etimers
  netimer_every s timer tick event_id =
      require (is_etimer_object s timer)
      >> (ntimer_cancel_i s.timers (timer_of timer) >>= λ t.
          let s₁ = set_event_id (record s { timers = t }) timer event_id in
          ntimer_start_i fuel s₁.timers (timer_of timer) tick handler timer ntimer_attr_repeat
          >>= λ t₁. done (record s₁ { timers = t₁ }))

unfoldable pub netimer_cancel : Etimers → ℕ → Run Etimers
netimer_cancel s timer =
    let s₁ = set_event_id s timer nsm_null in
    require (is_etimer_object s timer)
    >> (ntimer_cancel s₁.timers (timer_of timer) >>= λ t. done (record s₁ { timers = t }))

unfoldable pub netimer_is_running_i : Etimers → ℕ → Run Bool
netimer_is_running_i s timer =
    require (is_etimer_object s timer) >> ntimer_is_running_i s.timers (timer_of timer)

unfoldable pub netimer_remaining : ℕ → Etimers → ℕ → Run ℕ
netimer_remaining fuel s timer =
    require (is_etimer_object s timer) >> ntimer_remaining fuel s.timers (timer_of timer)

-- The callback: `epa` are the agents of the event timers.
unfoldable pub etimer_handler {ℓ} :
    {W : Type ℓ} → (ℕ → ℕ → W → W) → Bool → (ℕ → ℕ) → System W → ℕ → Run (System W)
etimer_handler free validation epa s timer =
    nepa_send_event_i free validation s (epa timer) (event_of timer) >>= λ r. done r.1
