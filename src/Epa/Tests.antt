-- ===== src/Epa/Tests.antt =====
-- Events sent to an agent with a queue of two slots, whose thread is 40.
use neon_eds.Common.{ℕ, ◌+◌, ◌≡◌, List, [], ◌∷◌, true, false, refl, done, arith}
use neon_eds.Base.Queue.{Nqueue, nqueue_init, nqueue_is_full}
use neon_eds.Base.Queue.Window.{IsValid, contents}
use neon_eds.Base.Queue.Refine.{nqueue_init_lem, nqueue_is_full_lem}
use neon_eds.Sched.Tests.{booted}
use neon_eds.Event.{Events, nevent_attr_dynamic, nsignature_event}
use neon_eds.Epa.{System, nerror_no_resource, nsignature_epa, nepa_send_event_ahead_i}
use neon_eds.Epa.Send.{IsCounted, nepa_send_event_ahead_i-refused}

abbrev fresh_events : Events
fresh_events = record {
  mem = λ e. 9;
  attrib = λ e. nevent_attr_dynamic;
  ref = λ e. 0;
  signature = λ e. nsignature_event;
  id = λ e. 15;
  producer = λ e. 0;
  size = λ e. 0;
}

-- The memory managers, as the list of the blocks given back.
abbrev give_back : ℕ → ℕ → List ℕ → List ℕ
give_back mem event given = event ∷ given

abbrev empty_queue : Nqueue
empty_queue = nqueue_init 2 (0 ∷ 0 ∷ [])

abbrev full_queue : Nqueue
full_queue = record { head = 0; tail = 0; empty = 0; mask = 1; buf = 60 ∷ 61 ∷ [] }

abbrev system : Nqueue → System (List ℕ)
system queue = record {
  events = fresh_events;
  epa_signature = nsignature_epa;
  queue = queue;
  sched = booted;
  managers = [];
}

event-IsCounted : IsCounted fresh_events 70
event-IsCounted = record { dynamic = refl; few = omega arith }

empty_queue-IsValid : IsValid 1 empty_queue
empty_queue-IsValid = (nqueue_init_lem 1 (0 ∷ 0 ∷ []) (omega arith) (omega arith) refl).0

empty_queue-room : nqueue_is_full empty_queue ≡ false
empty_queue-room =
    let none_yet : contents 1 empty_queue ≡ [] =
      (nqueue_init_lem 1 (0 ∷ 0 ∷ []) (omega arith) (omega arith) refl).1 in
    rw (nqueue_is_full_lem 1 empty_queue-IsValid, none_yet) refl

full_queue-full : nqueue_is_full full_queue ≡ true
unfolding nqueue_is_full
full_queue-full = refl

nepa_send_event_ahead_i-refused_example :
    (s' : System (List ℕ)) × (nepa_send_event_ahead_i give_back false (system full_queue) 40 70
      ≡ done (nerror_no_resource, s'))
    × (s'.queue ≡ full_queue)
    × (s'.events.ref 70 ≡ 0 + 1)
    × (s'.managers ≡ [])
nepa_send_event_ahead_i-refused_example =
    nepa_send_event_ahead_i-refused give_back (system full_queue) 40 70 event-IsCounted
      full_queue-full
