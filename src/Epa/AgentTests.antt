-- ===== src/Epa/AgentTests.antt =====
-- An agent with thread 40 and a queue of two slots, that is sent event 70; event 5 is static.
use neon_eds.Common.{
  ◌+◌, sign_extend, ℕ, ◌≡◌, inl, inr, List, [], ◌∷◌, ◌++◌, not, ◌&&◌, Bool, true, false, ◌==◌,
  if◌then◌else◌, Run, done, arith, refl, ap, ◌∙◌, sym, length, subst, Bool-cases,
}
use neon_eds.Base.Queue.{Nqueue, nqueue_init, nqueue_is_full, nqueue_get, nqueue_put_fifo}
use neon_eds.Base.Queue.Window.{IsValid, contents}
use neon_eds.Base.Queue.Refine.{
  nqueue_init_lem, nqueue_is_full_lem, put_fifo-IsValid, contents-put_fifo,
}
use neon_eds.Sched.{Sched}
use neon_eds.Sched.Boot.{idle_only}
use neon_eds.Sched.Threads.{Managed}
use neon_eds.Sched.Tests.{booted, booted-Managed, booted-ref, booted-bias}
use neon_eds.Event.{Events, nevent_attr_dynamic, nsignature_event, nevent_ref, below_limit}
use neon_eds.Epa.{
  epa_init, System, Nerror, is_none, nerror_none, nerror_no_resource, nsignature_epa, epa_dispatch,
  nepa_register, epa_init_i, epa_dispatch_i, nepa_send_event_i, nepa_defer_event,
  nepa_defer_fetch_one, nepa_defer_fetch_all, drain, nepa_send_signal_i,
}
use neon_eds.Epa.Counts.{Tracked}
use neon_eds.Epa.Agent.{IsAgent, nepa_send_event_i-IsAgent}
use neon_eds.Epa.Thread.{Handles, epa_dispatch_i-IsAgent, epa_init_i-IsAgent}
use neon_eds.Epa.Defer.{
  nepa_defer_event-IsAgent, nepa_defer_fetch_all-order, nepa_defer_fetch_one-lost,
}
use neon_eds.Epa.Drain.{drain-leaks}
use neon_eds.Epa.Signal.{nepa_send_signal_i-queued}

abbrev events : ℕ → Events
events refs = record {
  mem = λ e. 9;
  attrib = λ e. if e == 5 then 0 else nevent_attr_dynamic;
  ref = λ e. refs;
  signature = λ e. nsignature_event;
  id = λ e. 15;
  producer = λ e. 0;
  size = λ e. 0;
}

abbrev give_back : ℕ → ℕ → List ℕ → List ℕ
give_back mem event given = event ∷ given

abbrev take_block : ℕ → ℕ → List ℕ → ℕ × List ℕ
take_block mem size blocks = (70, blocks)

abbrev find_pool : ℕ → Run ℕ
find_pool size = done 9

abbrev empty_queue : Nqueue
empty_queue = nqueue_init 2 (0 ∷ 0 ∷ [])

abbrev full_queue : Nqueue
full_queue = record { head = 0; tail = 0; empty = 0; mask = 1; buf = 60 ∷ 61 ∷ [] }

-- The thread runs.
abbrev running : Sched
running = record booted { current = 40 }

abbrev agent : Nqueue → ℕ → System (List ℕ)
agent queue refs = record {
  events = events refs;
  epa_signature = nsignature_epa;
  queue = queue;
  sched = running;
  managers = [];
}

empty_queue-IsValid : IsValid 1 empty_queue
empty_queue-IsValid = (nqueue_init_lem 1 (0 ∷ 0 ∷ []) (omega arith) (omega arith) refl).0

empty_queue-contents : contents 1 empty_queue ≡ []
empty_queue-contents = (nqueue_init_lem 1 (0 ∷ 0 ∷ []) (omega arith) (omega arith) refl).1

empty_queue-room : nqueue_is_full empty_queue ≡ false
empty_queue-room = rw (nqueue_is_full_lem 1 empty_queue-IsValid, empty_queue-contents) refl

full_queue-full : nqueue_is_full full_queue ≡ true
unfolding nqueue_is_full
full_queue-full = refl

running-Managed : Managed running idle_only
running-Managed = record {
  queue = record {
    buckets = booted-Managed.queue.buckets;
    bits = booted-Managed.queue.bits;
    word = booted-Managed.queue.word;
  };
  counted = booted-Managed.counted;
  queued = booted-Managed.queued;
}

-- No event is kept.
fresh-Tracked : (e : ℕ) → Tracked (events 0) e 0
unfolding nevent_ref sign_extend below_limit
fresh-Tracked e = elim (Bool-cases (e == 5)) [
  | inl static ↦ rw static (inl (refl, refl))
  | inr dynamic ↦ rw dynamic (inr (refl, omega arith, omega arith))
]

agent-IsAgent : IsAgent 1 40 [] (contents 1 empty_queue) (agent empty_queue 0)
agent-IsAgent = record {
  queue = empty_queue-IsValid;
  ready = idle_only;
  managed = running-Managed;
  address = omega arith;
  low = omega (arith, booted-bias);
  few = omega arith;
  counted = omega (arith, booted-ref, ap length empty_queue-contents);
  tracked = λ e. rw empty_queue-contents (fresh-Tracked e);
}

at_rest : IsAgent 1 40 [] [] (agent empty_queue 0)
at_rest = subst (λ xs. IsAgent 1 40 [] xs (agent empty_queue 0)) empty_queue-contents agent-IsAgent

under : below_limit (nevent_ref (events 0) 70) ≡ true
unfolding nevent_ref sign_extend below_limit
under = refl

nepa_send_event_i-IsAgent_example :
    (error : Nerror) × (s' : System (List ℕ)) × (nepa_send_event_i give_back false
        (agent empty_queue 0)
        40
        70
      ≡ done (error, s'))
    × IsAgent 1 40 [] [] s'
    × (is_none error ≡ (below_limit (nevent_ref (events 0) 70) && not (nqueue_is_full empty_queue)))
    × (contents 1 s'.queue
        ≡ (if is_none error then contents 1 empty_queue ++ 70 ∷ [] else contents 1 empty_queue))
    × ((x : ℕ)
        → s'.events.ref x ≡ (
            if is_none error && (x == 70) && not ((events 0).attrib 70 == 0)
            then (events 0).ref x + 1
            else (events 0).ref x))
    × (s'.managers ≡ (
        if below_limit (nevent_ref (events 0) 70)
          && nqueue_is_full empty_queue
          && (nevent_ref (events 0) 70 == 0)
        then give_back ((events 0).mem 70) 70 []
        else []))
nepa_send_event_i-IsAgent_example =
    nepa_send_event_i-IsAgent give_back 1 40 [] [] (agent empty_queue 0) 70 at_rest

alone :
    (accepted : Bool) (xs : List ℕ)
    → accepted ≡ true
    → xs ≡ (if accepted then contents 1 empty_queue ++ 70 ∷ [] else contents 1 empty_queue)
    → xs ≡ 70 ∷ []
alone true xs a e = e ∙ ap (λ ys. ys ++ 70 ∷ []) empty_queue-contents
alone false xs a e = absurd (ground (arith, a))

-- Event 70 is queued.
abbrev Sent : Type 0
Sent = (s : System (List ℕ)) × IsAgent 1 40 [] [] s × (contents 1 s.queue ≡ 70 ∷ [])

sent : Sent
sent =
    let (error, s, _, a, sent_none, queued, _, _) =
      nepa_send_event_i-IsAgent give_back 1 40 [] [] (agent empty_queue 0) 70 at_rest in
    let none : is_none error ≡ true = sent_none ∙ rw (under, empty_queue-room) refl in
    (s, a, alone (is_none error) (contents 1 s.queue) none queued)

abbrev ignore : ℕ → System (List ℕ) → Run (System (List ℕ))
ignore e s = done s

ignore-Handles : (e : ℕ) → Handles give_back ignore 1 40 [] e
ignore-Handles e s a = (s, refl, a)

epa_dispatch_i-IsAgent_example :
    (s₁ : System (List ℕ)) × (s' : System (List ℕ)) × (ignore 70
        (record sent.0 { queue = (nqueue_get sent.0.queue).1 })
      ≡ done s₁)
    × (epa_dispatch_i give_back false ignore sent.0 40 ≡ done s')
    × (contents 1 (nqueue_get sent.0.queue).1 ≡ [])
    × IsAgent 1 40 [] [] s'
    × (s'.queue ≡ s₁.queue)
    × (s₁.events.attrib 70 ≡ nevent_attr_dynamic
        → s'.managers ≡ (if s₁.events.ref 70 == 1 then (70 ∷ s₁.managers) else s₁.managers))
epa_dispatch_i-IsAgent_example =
    epa_dispatch_i-IsAgent give_back ignore 1 40 [] sent.0 70 [] sent.1 sent.2 (ignore-Handles 70)

epa_init_i-IsAgent_example :
    (s₁ : System (List ℕ)) × (s₂ : System (List ℕ)) × (s' : System (List ℕ)) × (nepa_register
        give_back false
        (agent empty_queue 0)
        40
      ≡ done s₁)
    × (s₁.sched.vf_dispatch 40 ≡ epa_init)
    × (ignore 5 s₁ ≡ done s₂)
    × (epa_init_i give_back false ignore 5 s₁ 40 ≡ done s')
    × IsAgent 1 40 [] [] s'
    × (s'.queue ≡ s₂.queue)
    × (s'.sched.vf_dispatch 40 ≡ epa_dispatch)
epa_init_i-IsAgent_example =
    epa_init_i-IsAgent give_back ignore 1 40 [] (agent empty_queue 0) 5 at_rest refl
      (ignore-Handles 5)

nepa_defer_event-IsAgent_example :
    (error : Nerror) × (s' : System (List ℕ)) × (q' : Nqueue) × (nepa_defer_event give_back false
        (agent empty_queue 0)
        empty_queue
        70
      ≡ (error, s', q'))
    × (is_none error ≡ not (nqueue_is_full empty_queue))
    × IsValid 1 q'
    × (contents 1 q'
        ≡ (if is_none error then contents 1 empty_queue ++ 70 ∷ [] else contents 1 empty_queue))
    × IsAgent 1 40 [] (contents 1 q') s'
    × (s'.queue ≡ empty_queue)
    × (s'.sched ≡ running)
    × ((x : ℕ)
        → s'.events.ref x ≡ (
            if is_none error && (x == 70) && not ((events 0).attrib 70 == 0)
            then (events 0).ref x + 1
            else (events 0).ref x))
    × (s'.managers ≡ [])
nepa_defer_event-IsAgent_example =
    nepa_defer_event-IsAgent give_back 1 1 40 [] (agent empty_queue 0) empty_queue 70 agent-IsAgent
      empty_queue-IsValid under

-- Event 70 is deferred.
abbrev Deferred : Type 0
Deferred =
    (s : System (List ℕ)) × (q : Nqueue) × IsValid 1 q
    × (contents 1 q ≡ 70 ∷ [])
    × IsAgent 1 s.sched.current [] (contents 1 q) s
    × (contents 1 s.queue ≡ [])

deferred : Deferred
deferred =
    let (error, s, q, _, accepted, v, queued, a, same, same_sched, _, _) =
      nepa_defer_event-IsAgent give_back 1 1 40 [] (agent empty_queue 0) empty_queue 70
        agent-IsAgent empty_queue-IsValid under in
    let none : is_none error ≡ true = accepted ∙ rw empty_queue-room refl in
    (
      s,
      q,
      v,
      alone (is_none error) (contents 1 q) none queued,
      subst (λ n. IsAgent 1 n [] (contents 1 q) s) (sym (ap (λ (c : Sched). c.current) same_sched))
          a,
      ap (contents 1) same ∙ empty_queue-contents,
    )

nepa_defer_fetch_all-order_example :
    (s' : System (List ℕ)) × (q' : Nqueue) × (nepa_defer_fetch_all give_back false 2 deferred.0
        deferred.1
      ≡ done (nerror_none, s', q'))
    × (contents 1 q' ≡ [])
    × (contents 1 s'.queue ≡ contents 1 deferred.0.queue ++ 70 ∷ [])
    × IsAgent 1 deferred.0.sched.current [] [] s'
    × ((x : ℕ) → s'.events.ref x ≡ deferred.0.events.ref x)
nepa_defer_fetch_all-order_example =
    nepa_defer_fetch_all-order give_back 1 1 [] (70 ∷ []) deferred.0 deferred.1 2 deferred.4
      deferred.2 deferred.3 (omega (arith, ap length deferred.5)) (omega arith)

nepa_defer_fetch_one-lost_example :
    (s' : System (List ℕ)) × (q' : Nqueue) × (nepa_defer_fetch_one give_back false
        (agent full_queue 1)
        (nqueue_put_fifo empty_queue 70)
      ≡ done (nerror_no_resource, s', q'))
    × (contents 1 q' ≡ [])
    × (s'.queue ≡ full_queue)
    × (s'.managers ≡ (70 ∷ []))
nepa_defer_fetch_one-lost_example =
    nepa_defer_fetch_one-lost give_back 1 (agent full_queue 1) (nqueue_put_fifo empty_queue 70) 70
      [] (put_fifo-IsValid 1 empty_queue-IsValid 70 empty_queue-room)
      (contents-put_fifo 1 empty_queue-IsValid 70 empty_queue-room ∙ rw empty_queue-contents refl)
      full_queue-full refl refl

drain-leaks_example :
    (s' : System (List ℕ)) × (drain give_back false 2 sent.0 ≡ done s')
    × (contents 1 s'.queue ≡ [])
    × (s'.managers ≡ sent.0.managers)
    × (s'.events ≡ sent.0.events)
drain-leaks_example =
    drain-leaks give_back 1 40 [] [] sent.0 2 sent.1 (omega (arith, ap length sent.2))

nepa_send_signal_i-queued_example :
    (s' : System (List ℕ)) × (nepa_send_signal_i take_block find_pool give_back false 12
        (agent empty_queue 0)
        40
        18
      ≡ done (nerror_none, s'))
    × IsAgent 1 40 [] [] s'
    × (contents 1 s'.queue ≡ contents 1 empty_queue ++ 70 ∷ [])
    × (s'.events.id 70 ≡ 18)
    × (s'.events.ref 70 ≡ 1)
nepa_send_signal_i-queued_example =
    nepa_send_signal_i-queued take_block find_pool give_back 1 40 [] [] (agent empty_queue 0) [] 12
      18 9 70 at_rest refl refl (omega arith) (rw empty_queue-contents refl) empty_queue-room
