-- ===== src/Epa/Send.antt =====
-- What sending an event to an agent does.
use neon_eds.Common.{
  ℕ, ◌+◌, ◌-◌, ◌<◌, ◌^◌, ◌≡◌, List, [], ◌∷◌, ◌++◌, true, false, ◌==◌, if◌then◌else◌, update, done,
  arith, refl, update_self, Bool-cases, inl, inr, ◌∙◌, ap,
}
use neon_eds.Base.Queue.{nqueue_is_full, nqueue_put_fifo}
use neon_eds.Base.Queue.Window.{IsValid, contents}
use neon_eds.Base.Queue.Refine.{put_fifo-IsValid, contents-put_fifo}
use neon_eds.Sched.{check}
use neon_eds.Sched.Threads.{Managed, nthread_insert_i-Managed}
use neon_eds.Sched.RunQueue.Insert.{appended}
use neon_eds.Event.{
  Events, nevent_attr_dynamic, nevent_ref_limit, nevent_ref_up, nevent_ref_down, nevent_ref,
  ncore_atomic_inc, ncore_atomic_dec, below_limit, event_term, nevent_destroy_i,
}
use neon_eds.Event.Lifetime.{nevent_ref_lem}
use neon_eds.Epa.{
  System, nerror_none, nerror_no_resource, destroy_event, send_queued, send_refused, preconditions,
  ensure_none, nepa_send_event_i, nepa_send_event_ahead_i,
}

-- A dynamic event with room for another reference.
pub record IsCounted (h : Events) (e : ℕ) : Type 0 where
  pub dynamic : h.attrib e ≡ nevent_attr_dynamic
  pub few : h.ref e < nevent_ref_limit

atomic_inc : (r : ℕ) → r < 65535 → ncore_atomic_inc r ≡ r + 1
unfolding ncore_atomic_inc
atomic_inc r few = ground arith

atomic_dec : (r : ℕ) → 0 < r → r < 2 ^ 31 → ncore_atomic_dec r ≡ r - 1
unfolding ncore_atomic_dec
atomic_dec r some_ref few = ground arith

ref_up-Counted :
    (h : Events) (e : ℕ)
    → IsCounted h e
    → nevent_ref_up h e ≡ record h { ref = update h.ref e (h.ref e + 1) }
unfolding nevent_ref_up
ref_up-Counted h e c = rw (c.dynamic, atomic_inc (h.ref e) c.few) refl

under_limit : (h : Events) (e : ℕ) → IsCounted h e → below_limit (nevent_ref h e) ≡ true
unfolding below_limit
under_limit h e c = rw (nevent_ref_lem h e c.dynamic (omega (arith, c.few))) (ground (arith, c.few))

module _ {ℓ} {W : Type ℓ} (free : ℕ → ℕ → W → W) where
  -- With the validation off, a dynamic event with room for a reference, sent to an agent with room in its
  -- queue, is the last one in the queue, has one more reference, and the agent's thread has one more.
  pub nepa_send_event_i-queued :
      (s : System W) (k thread e : ℕ) (ready : ℕ → List ℕ)
      → IsCounted s.events e
      → IsValid k s.queue
      → nqueue_is_full s.queue ≡ false
      → Managed s.sched ready
      → 32 < thread
      → s.sched.nodes.bias thread < 32
      → s.sched.ref thread < 2 ^ 64 - 1
      → (s' : System W) × (nepa_send_event_i free false s thread e ≡ done (nerror_none, s'))
        × IsValid k s'.queue
        × (contents k s'.queue ≡ contents k s.queue ++ e ∷ [])
        × (s'.events.ref e ≡ s.events.ref e + 1)
        × Managed s'.sched (
            if s.sched.ref thread == 0
            then appended ready (s.sched.nodes.bias thread) thread
            else ready)
  unfolding nepa_send_event_i preconditions ensure_none send_queued check
  nepa_send_event_i-queued s k thread e ready c v room m big low few =
      let (sched', run, m', _, _, _) =
        nthread_insert_i-Managed s.sched ready thread m big low few in
      (
        record s {
          events = record s.events { ref = update s.events.ref e (s.events.ref e + 1) };
          queue = nqueue_put_fifo s.queue e;
          sched = sched';
        },
        rw (under_limit s.events e c, room, ref_up-Counted s.events e c, run) refl,
        put_fifo-IsValid k v e room,
        contents-put_fifo k v e room,
        update_self s.events.ref e (s.events.ref e + 1),
        m',
      )

  -- `destroy_event` of a dynamic event frees it exactly if it has no reference.
  destroy-Counted :
      (s : System W) (e : ℕ)
      → s.events.attrib e ≡ nevent_attr_dynamic
      → s.events.ref e < 2 ^ 31
      → destroy_event free false s e
        ≡ done (
            if s.events.ref e == 0
            then record s { managers = free (s.events.mem e) e s.managers }
            else s)
  unfolding destroy_event nevent_destroy_i check event_term
  destroy-Counted s e d few = elim (Bool-cases (s.events.ref e == 0)) [
    | inl z ↦ rw (nevent_ref_lem s.events e d few, z) refl
    | inr z ↦ rw (nevent_ref_lem s.events e d few, z) refl
  ]

  -- With the validation off, a full queue refuses the event: queue, thread and reference count are as
  -- before, and an event without a reference is freed.
  pub nepa_send_event_i-refused :
      (s : System W) (thread e : ℕ)
      → IsCounted s.events e
      → nqueue_is_full s.queue ≡ true
      → (s' : System W) × (nepa_send_event_i free false s thread e ≡ done (nerror_no_resource, s'))
        × (s'.queue ≡ s.queue)
        × (s'.sched ≡ s.sched)
        × (s'.events.ref e ≡ s.events.ref e)
        × (s'.managers
            ≡ (if s.events.ref e == 0 then free (s.events.mem e) e s.managers else s.managers))
  unfolding nepa_send_event_i preconditions ensure_none send_refused check nevent_ref_down
  nepa_send_event_i-refused s thread e c full =
      let raised = record s.events { ref = update s.events.ref e (s.events.ref e + 1) } in
      let lowered = record s {
        events = record raised { ref = update raised.ref e (ncore_atomic_dec (raised.ref e)) };
      } in
      let same : lowered.events.ref e ≡ s.events.ref e =
        update_self raised.ref e (ncore_atomic_dec (raised.ref e))
        ∙ ap ncore_atomic_dec (update_self s.events.ref e (s.events.ref e + 1))
        ∙ atomic_dec (s.events.ref e + 1) (omega arith) (omega (arith, c.few))
        ∙ omega arith in
      let destroyed = destroy-Counted lowered e c.dynamic (omega (arith, same, c.few)) in
      elim (Bool-cases (s.events.ref e == 0)) [
        | inl z ↦ (
          record lowered { managers = free (s.events.mem e) e s.managers },
          rw
              (
                under_limit s.events e c,
                full,
                ref_up-Counted s.events e c,
                c.dynamic,
                destroyed,
                same,
                z,
              )
              refl,
          refl,
          refl,
          same,
          rw z refl,
        )
        | inr z ↦ (
          lowered,
          rw
              (
                under_limit s.events e c,
                full,
                ref_up-Counted s.events e c,
                c.dynamic,
                destroyed,
                same,
                z,
              )
              refl,
          refl,
          refl,
          same,
          rw z refl,
        )
      ]

  -- With the validation off, a full queue refuses an event sent ahead too, but the event keeps the
  -- reference that it was given, and is not freed.
  pub nepa_send_event_ahead_i-refused :
      (s : System W) (thread e : ℕ)
      → IsCounted s.events e
      → nqueue_is_full s.queue ≡ true
      → (s' : System W) × (nepa_send_event_ahead_i free false s thread e
          ≡ done (nerror_no_resource, s'))
        × (s'.queue ≡ s.queue)
        × (s'.events.ref e ≡ s.events.ref e + 1)
        × (s'.managers ≡ s.managers)
  unfolding nepa_send_event_ahead_i preconditions ensure_none send_refused check
  nepa_send_event_ahead_i-refused s thread e c full =
      let raised = record s {
        events = record s.events { ref = update s.events.ref e (s.events.ref e + 1) };
      } in
      let at_e : raised.events.ref e ≡ s.events.ref e + 1 =
        update_self s.events.ref e (s.events.ref e + 1) in
      let some_ref : (s.events.ref e + 1 == 0) ≡ false = ground arith in
      let destroyed = destroy-Counted raised e c.dynamic (omega (arith, at_e, c.few)) in
      (
        raised,
        rw (under_limit s.events e c, full, ref_up-Counted s.events e c, destroyed, at_e, some_ref)
            refl,
        refl,
        at_e,
        refl,
      )
