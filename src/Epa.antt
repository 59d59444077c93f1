-- ===== src/Epa.antt =====
-- source/epa.c: agents, which are threads with a queue of events and a state machine.
pub mod Send
pub mod Counts
pub mod Agent
pub mod Thread
pub mod Defer
pub mod Drain
pub mod Signal
mod Tests
mod AgentTests
use neon_eds.Common.{
  ℕ, zero, suc, ◌+◌, ◌-◌, ◌%◌, ◌^◌, Bool, true, false, ◌||◌, ltb, leb, ◌==◌, not, ◌&&◌,
  if◌then◌else◌, update, Run, done, out_of_fuel, ◌>>=◌, ◌>>◌,
}
use Prim.Native.Nat.{bit_or, bit_xor}
use neon_eds.Base.Dlist.{null}
use neon_eds.Base.Queue.{
  Nqueue, nqueue_is_full, nqueue_is_empty, nqueue_put_fifo, nqueue_put_lifo, nqueue_get,
}
use neon_eds.Sched.{
  Sched, Dispatch, other_dispatch, check, nthread_insert_i, nthread_remove_i, nthread_get_current,
}
use neon_eds.Event.{
  Events, nevent_attr_dynamic, nevent_ref_limit, nsignature_event, ncore_atomic_inc,
  ncore_atomic_dec, nevent_ref_up, nevent_ref_down, nevent_ref, below_limit, event_signature,
  event_term, nevent_destroy_i, nevent_create_i,
}

-- The events, one agent (`struct nepa`) with its queue, the scheduler, and the memory managers.
pub record System {ℓ} (W : Type ℓ) : Type ℓ where
  pub events : Events
  pub epa_signature : ℕ
  pub queue : Nqueue
  pub sched : Sched
  pub managers : W

-- `epa_init_i` and `epa_dispatch_i` as functions of a thread.
abbrev pub epa_init : Dispatch
epa_init = other_dispatch 1

abbrev pub epa_dispatch : Dispatch
epa_dispatch = other_dispatch 2

abbrev pub nsignature_epa : ℕ
nsignature_epa = 3735944938

pub data Nerror : Type 0 where
  nerror_none : Nerror
  nerror_no_memory : Nerror
  nerror_no_resource : Nerror
  nerror_no_reference : Nerror

abbrev pub is_none : Nerror → Bool
is_none nerror_none = true
is_none nerror_no_memory = false
is_none nerror_no_resource = false
is_none nerror_no_reference = false

unfoldable pub set_dispatch {ℓ} : {W : Type ℓ} → System W → ℕ → Dispatch → System W
set_dispatch s thread f = record s {
  sched = record s.sched { vf_dispatch = update s.sched.vf_dispatch thread f };
}

-- `free mem event` is what the memory manager of the event does to give its block back.
module _ {ℓ} {W : Type ℓ} (free : ℕ → ℕ → W → W) (validation : Bool) where
  -- `nevent_destroy_i(event)` in the state of the system.
  unfoldable pub destroy_event : System W → ℕ → Run (System W)
  destroy_event s event = nevent_destroy_i free validation s.events s.managers event >>= λ r.
      done (record s { events = r.0; managers = r.1 })

  -- The branch of a queue with room: `put` is the insertion.
  unfoldable pub send_queued : (Nqueue → ℕ → Nqueue) → System W → ℕ → ℕ → Run (Nerror × System W)
  send_queued put s thread event = nthread_insert_i validation s.sched thread >>= λ sched.
      done (nerror_none, record s { queue = put s.queue event; sched = sched })

  -- The branch of a full queue.
  unfoldable pub send_refused : System W → ℕ → Run (Nerror × System W)
  send_refused s event = destroy_event s event >>= λ s₁. done (nerror_no_resource, s₁)

  unfoldable pub preconditions : System W → ℕ → Run (Unit {0})
  preconditions s event =
      check validation (s.epa_signature == nsignature_epa)
      >> check validation (event_signature s.events event == nsignature_event)

  unfoldable pub ensure_none : Nerror × System W → Run (Nerror × System W)
  ensure_none r = check validation (is_none r.0) >> done r

  unfoldable pub nepa_send_event_i : System W → ℕ → ℕ → Run (Nerror × System W)
  nepa_send_event_i s thread event =
      let s₁ = record s { events = nevent_ref_up s.events event } in
      let s₂ = record s₁ { events = nevent_ref_down s₁.events event } in
      preconditions s event
      >> ((if below_limit (nevent_ref s.events event)
            then (if nqueue_is_full s₁.queue
                then send_refused s₂ event
                else send_queued nqueue_put_fifo s₁ thread event)
            else done (nerror_no_reference, s))
          >>= ensure_none)

  unfoldable pub nepa_send_event_ahead_i : System W → ℕ → ℕ → Run (Nerror × System W)
  nepa_send_event_ahead_i s thread event =
      let s₁ = record s { events = nevent_ref_up s.events event } in
      preconditions s event
      >> ((if below_limit (nevent_ref s.events event)
            then (if nqueue_is_full s₁.queue
                then send_refused s₁ event
                else send_queued nqueue_put_lifo s₁ thread event)
            else done (nerror_no_reference, s))
          >>= ensure_none)

  unfoldable pub nepa_send_event : System W → ℕ → ℕ → Run (Nerror × System W)
  nepa_send_event s thread event = nepa_send_event_i s thread event

  unfoldable pub nepa_send_event_ahead : System W → ℕ → ℕ → Run (Nerror × System W)
  nepa_send_event_ahead s thread event = nepa_send_event_ahead_i s thread event

  unfoldable pub nepa_register : System W → ℕ → Run (System W)
  nepa_register s thread =
      let s₁ = set_dispatch s thread epa_init in
      check validation (s.epa_signature == nsignature_epa)
      >> (nthread_insert_i validation s₁.sched thread >>= λ sched.
          done (record s₁ { sched = sched }))

  -- The state machine of the agent: `handle event` is `nsm_dispatch(epa->sm, event)`.
  module _ (handle : ℕ → System W → Run (System W)) where
    unfoldable pub block_thread : System W → ℕ → Run (System W)
    block_thread s thread =
        nthread_remove_i validation s.sched thread >>= λ sched. done (record s { sched = sched })

    unfoldable pub epa_dispatch_i : System W → ℕ → Run (System W)
    epa_dispatch_i s thread =
        let (event, queue) = nqueue_get s.queue in
        handle event (record s { queue = queue }) >>= λ s₁.
        destroy_event (record s₁ { events = nevent_ref_down s₁.events event }) event >>= λ s₂.
        block_thread s₂ thread

    -- `init_event` is `nsm_event(NSM_INIT)`.
    unfoldable pub epa_init_i : ℕ → System W → ℕ → Run (System W)
    epa_init_i init_event s thread = handle init_event s >>= λ s₁.
        block_thread s₁ thread >>= λ s₂. done (set_dispatch s₂ thread epa_dispatch)

  -- The loop of `nepa_destroy`.
  unfoldable pub drain : ℕ → System W → Run (System W)
  drain zero s = out_of_fuel
  drain (suc fuel) s =
      let next = λ (s₁ : System W). drain fuel s₁ in
      let (event, queue) = nqueue_get s.queue in
      if nqueue_is_empty s.queue
      then done s
      else destroy_event (record s { queue = queue }) event >>= next

  -- A queue of deferred events is not the agent's own. The agent of the functions that fetch is the current one.
  unfoldable pub nepa_defer_event : System W → Nqueue → ℕ → Nerror × System W × Nqueue
  nepa_defer_event s queue event =
      if nqueue_is_full queue then (nerror_no_resource, s, queue) else (
        nerror_none,
        record s { events = nevent_ref_up s.events event },
        nqueue_put_fifo queue event,
      )

  unfoldable pub fetch : System W → Nqueue → Run (Nerror × System W × Nqueue)
  fetch s queue =
      let (event, queue₁) = nqueue_get queue in
      nepa_send_event (record s { events = nevent_ref_down s.events event })
        (nthread_get_current s.sched) event
      >>= λ r. done (r.0, r.1, queue₁)

  unfoldable pub nepa_defer_fetch_one : System W → Nqueue → Run (Nerror × System W × Nqueue)
  nepa_defer_fetch_one s queue =
      if nqueue_is_empty queue then done (nerror_none, s, queue) else fetch s queue

  -- The loop of `nepa_defer_fetch_all`.
  unfoldable pub fetch_loop : ℕ → Nerror × System W × Nqueue → Run (Nerror × System W × Nqueue)
  fetch_loop zero r = out_of_fuel
  fetch_loop (suc fuel) r =
      let next = λ (r₁ : Nerror × System W × Nqueue). fetch_loop fuel r₁ in
      if is_none r.0 && not (nqueue_is_empty r.2) then fetch r.1 r.2 >>= next else done r

  unfoldable pub nepa_defer_fetch_all : ℕ → System W → Nqueue → Run (Nerror × System W × Nqueue)
  nepa_defer_fetch_all fuel s queue = fetch_loop fuel (nerror_none, s, queue)

-- `header` is sizeof(struct nevent), and `find` is `find_memory_i`.
module _ {ℓ} {W : Type ℓ} (alloc : ℕ → ℕ → W → ℕ × W) (find : ℕ → Run ℕ) (free : ℕ → ℕ → W → W)
    (validation : Bool) where
  unfoldable pub nepa_send_signal_i : ℕ → System W → ℕ → ℕ → Run (Nerror × System W)
  nepa_send_signal_i header s thread event_id =
      nevent_create_i alloc validation find s.events (nthread_get_current s.sched) s.managers header
        event_id
      >>= λ r.
          let s₁ = record s { events = r.1; managers = r.2 } in
          if r.0 == null
          then done (nerror_no_memory, s₁)
          else nepa_send_event_i free validation s₁ thread r.0

  unfoldable pub nepa_send_signal : ℕ → System W → ℕ → ℕ → Run (Nerror × System W)
  nepa_send_signal header s thread event_id = nepa_send_signal_i header s thread event_id
