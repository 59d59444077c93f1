-- ===== src/Epa/Agent.antt =====
-- The state of an agent between the operations of source/epa.c.
use neon_eds.Common.{
  ℕ, suc, ◌+◌, ◌<◌, ◌≤◌, ◌^◌, ◌≡◌, ◌≢◌, inl, inr, not, ◌&&◌, List, [], ◌∷◌, ◌++◌, true, false, ◌==◌,
  if◌then◌else◌, Run, done, arith, refl, ap, ap₂, ◌∙◌, sym, update_self, Bool-cases, length,
  length-append,
}
use native.Mathlib.Decide.{ℕ_discrete}
use neon_eds.Base.Queue.{Nqueue, nqueue_is_full, nqueue_put_fifo}
use neon_eds.Base.Queue.Window.{IsValid, contents}
use neon_eds.Base.Queue.Refine.{put_fifo-IsValid, contents-put_fifo, length-contents, size_fits}
use neon_eds.Base.BiasList.{nbias_list_is_empty, nbias_list_get_bias}
use neon_eds.Sched.{Sched, check, nthread_insert_i, prio_queue_insert, bitmap_set}
use neon_eds.Sched.RunQueue.Insert.{appended}
use neon_eds.Sched.Threads.{Managed, nthread_insert_i-Managed}
use neon_eds.Event.{Events, nevent_ref_up, nevent_ref_down, nevent_ref, below_limit}
use neon_eds.Epa.{
  System, Nerror, is_none, nerror_none, nerror_no_resource, nerror_no_reference, send_queued,
  send_refused, preconditions, ensure_none, nepa_send_event_i,
}
use neon_eds.Epa.Counts.{
  occurrences, occurrences-append, Tracked, Tracked-same, Tracked-up, Tracked-down, ref_up-other,
  ref_up-attrib, ref_up-count, ref_up-mem, ref_down-mem, nevent_ref-same, ref_down-other,
  ref_down-attrib, ref_up-down, destroy-rest,
}

-- How often an agent keeps an event, with `hand` for what it works on and `kept` for what it has put aside.
abbrev pub keeps {ℓ} : {W : Type ℓ} → ℕ → List ℕ → List ℕ → System W → ℕ → ℕ
keeps k hand kept s e = occurrences e kept + occurrences e hand + occurrences e (contents k s.queue)

-- The thread of an agent has a reference for each event that it works on or that is queued, and each event
-- has one for each place where the agent keeps it.
pub record IsAgent {ℓ} {W : Type ℓ} (k thread : ℕ) (hand kept : List ℕ) (s : System W)
    : Type ℓ where
  pub queue : IsValid k s.queue
  pub ready : ℕ → List ℕ
  pub managed : Managed s.sched ready
  pub address : 32 < thread
  pub low : s.sched.nodes.bias thread < 32
  pub few : length hand < 2 ^ 32
  pub counted : s.sched.ref thread ≡ length hand + length (contents k s.queue)
  pub tracked : (e : ℕ) → Tracked s.events e (keeps k hand kept s e)

-- The agent does not depend on the memory managers.
pub IsAgent-managers {ℓ} :
    {W : Type ℓ} {k thread : ℕ} {hand kept : List ℕ} (s : System W) (w : W)
    → IsAgent k thread hand kept s
    → IsAgent k thread hand kept (record s { managers = w })
IsAgent-managers s w a = record {
  queue = a.queue;
  ready = a.ready;
  managed = a.managed;
  address = a.address;
  low = a.low;
  few = a.few;
  counted = a.counted;
  tracked = a.tracked;
}

-- Nor on the events beyond what it keeps.
pub IsAgent-events {ℓ} :
    {W : Type ℓ} {k thread : ℕ} {hand kept : List ℕ} (s : System W) (h : Events) (kept' : List ℕ)
    → IsAgent k thread hand kept s
    → ((e : ℕ) → Tracked h e (keeps k hand kept' s e))
    → IsAgent k thread hand kept' (record s { events = h })
IsAgent-events s h kept' a t = record {
  queue = a.queue;
  ready = a.ready;
  managed = a.managed;
  address = a.address;
  low = a.low;
  few = a.few;
  counted = a.counted;
  tracked = t;
}

-- Keeping one event more.
pub all_kept_up :
    (h : Events) (e : ℕ) (n n' : ℕ → ℕ)
    → below_limit (nevent_ref h e) ≡ true
    → ((x : ℕ) → Tracked h x (n x))
    → n' e ≤ suc (n e)
    → ((x : ℕ) → x ≢ e → n' x ≤ n x)
    → (x : ℕ) → Tracked (nevent_ref_up h e) x (n' x)
all_kept_up h e n n' room t at others x = elim (ℕ_discrete x e) [
  | yes same ↦ rw same (
      Tracked-same (nevent_ref_up h e) (nevent_ref_up h e) e (n' e) (suc (n e)) refl refl at
        (Tracked-up h e (n e) room (t e)))
  | no ne ↦
      Tracked-same h (nevent_ref_up h e) x (n' x) (n x) (ref_up-attrib h e x)
        (ref_up-other h e x ne) (others x ne) (t x)
]

-- Keeping one event less.
pub all_kept_down :
    (h : Events) (e : ℕ) (n n' : ℕ → ℕ)
    → ((x : ℕ) → Tracked h x (n x))
    → suc (n' e) ≤ n e
    → ((x : ℕ) → x ≢ e → n' x ≤ n x)
    → (x : ℕ) → Tracked (nevent_ref_down h e) x (n' x)
all_kept_down h e n n' t at others x = elim (ℕ_discrete x e) [
  | yes same ↦
      rw same (Tracked-down h e (n' e) (Tracked-same h h e (suc (n' e)) (n e) refl refl at (t e))).0
  | no ne ↦
      Tracked-same h (nevent_ref_down h e) x (n' x) (n x) (ref_down-attrib h e x)
        (ref_down-other h e x ne) (others x ne) (t x)
]

abbrev current_of : Run Sched → ℕ → ℕ
current_of (done s) old = s.current
current_of r old = old

insert-current :
    (s s' : Sched) (n : ℕ) → nthread_insert_i false s n ≡ done s' → s'.current ≡ s.current
unfolding nthread_insert_i check prio_queue_insert bitmap_set
insert-current s s' n run =
    sym (ap (λ r. current_of r s.current) run) ∙ elim (Bool-cases (s.ref n == 0)) [
      | inl z ↦
          elim (Bool-cases (nbias_list_is_empty s.nodes (nbias_list_get_bias s.nodes n + 1))) [
            | inl e ↦ rw (z, e) refl
            | inr e ↦ rw (z, e) refl
          ]
      | inr z ↦ rw z refl
    ]

pub few_queued : (k : ℕ) (q : Nqueue) → IsValid k q → length (contents k q) < 2 ^ 32
few_queued k q v = omega (arith, length-contents k q, size_fits k v.shift_fits)

module _ {ℓ} {W : Type ℓ} (free : ℕ → ℕ → W → W) where
  -- The queue, the thread and the counts, after an event is sent to an agent with room.
  pub send-queued :
      (k thread : ℕ) (hand kept : List ℕ) (s : System W) (e : ℕ)
      → IsAgent k thread hand kept s
      → below_limit (nevent_ref s.events e) ≡ true
      → nqueue_is_full s.queue ≡ false
      → (s' : System W) × (nepa_send_event_i free false s thread e ≡ done (nerror_none, s'))
        × IsAgent k thread hand kept s'
        × (contents k s'.queue ≡ contents k s.queue ++ e ∷ [])
        × (s'.events ≡ nevent_ref_up s.events e)
        × (s'.sched.current ≡ s.sched.current)
        × (s'.managers ≡ s.managers)
  unfolding nepa_send_event_i preconditions ensure_none send_queued check
  send-queued k thread hand kept s e a under room =
      let (sched', run, m, refs, biases, _) =
        nthread_insert_i-Managed s.sched a.ready thread a.managed a.address a.low
          (omega (arith, a.counted, a.few, few_queued k s.queue a.queue)) in
      let more = contents-put_fifo k a.queue e room in
      let s' : System W = record s {
        events = nevent_ref_up s.events e;
        queue = nqueue_put_fifo s.queue e;
        sched = sched';
      } in
      (
        s',
        rw (under, room, run) refl,
        record {
          queue = put_fifo-IsValid k a.queue e room;
          ready =
              if s.sched.ref thread == 0
              then appended a.ready (s.sched.nodes.bias thread) thread
              else a.ready;
          managed = m;
          address = a.address;
          low = rw biases a.low;
          few = a.few;
          counted =
              rw (refs, more, update_self s.sched.ref thread (s.sched.ref thread + 1))
                (ground (arith, a.counted, length-append (contents k s.queue) (e ∷ [])));
          tracked =
              all_kept_up s.events e (keeps k hand kept s) (keeps k hand kept s') under a.tracked
                (ground (
                  arith,
                  ap (occurrences e) more,
                  occurrences-append e (contents k s.queue) (e ∷ []),
                ))
                (λ x ne. ground (
                  arith,
                  ne,
                  ap (occurrences x) more,
                  occurrences-append x (contents k s.queue) (e ∷ []),
                ));
        },
        more,
        refl,
        insert-current s.sched sched' thread run,
        refl,
      )

  -- A full queue.
  send-refused :
      (k thread : ℕ) (hand kept : List ℕ) (s : System W) (e : ℕ)
      → IsAgent k thread hand kept s
      → below_limit (nevent_ref s.events e) ≡ true
      → nqueue_is_full s.queue ≡ true
      → (s' : System W) × (nepa_send_event_i free false s thread e ≡ done (nerror_no_resource, s'))
        × IsAgent k thread hand kept s'
        × (s'.queue ≡ s.queue)
        × ((x : ℕ) → s'.events.ref x ≡ s.events.ref x)
        × (s'.managers ≡ (
            if nevent_ref s.events e == 0 then free (s.events.mem e) e s.managers else s.managers))
  unfolding nepa_send_event_i preconditions ensure_none send_refused check
  send-refused k thread hand kept s e a under full =
      let h = nevent_ref_down (nevent_ref_up s.events e) e in
      let s₂ : System W = record s { events = h } in
      let (w, run, gone) = destroy-rest free s₂ e in
      let attribs =
        λ (x : ℕ). ref_down-attrib (nevent_ref_up s.events e) e x ∙ ref_up-attrib s.events e x in
      let refs = λ (x : ℕ). ref_up-down s.events e x (keeps k hand kept s e) under (a.tracked e) in
      let owner =
        ap (λ (m : ℕ → ℕ). m e)
          (ref_down-mem (nevent_ref_up s.events e) e ∙ ref_up-mem s.events e) in
      (
        record s₂ { managers = w },
        rw (under, full, run) refl,
        IsAgent-managers s₂ w (
            IsAgent-events s h kept a (λ x.
              Tracked-same s.events h x (keeps k hand kept s x) (keeps k hand kept s x) (attribs x)
                (refs x) (omega arith) (a.tracked x))),
        refl,
        refs,
        gone
            ∙ ap₂ (λ (r m : ℕ). if r == 0 then free m e s.managers else s.managers)
                (nevent_ref-same s.events h e (attribs e) (refs e)) owner,
      )

  -- With the validation off, sending an event keeps the counts of an agent in agreement with its
  -- queue: the event is queued last where it has room for a reference and the queue is not full,
  -- and then it has exactly one reference more, if it is dynamic; otherwise an error is returned,
  -- and the queue and every reference count stay as they are; at a full queue, an event without a
  -- reference is given back.
  pub nepa_send_event_i-IsAgent :
      (k thread : ℕ) (hand kept : List ℕ) (s : System W) (e : ℕ)
      → IsAgent k thread hand kept s
      → (error : Nerror) × (s' : System W) × (nepa_send_event_i free false s thread e
          ≡ done (error, s'))
        × IsAgent k thread hand kept s'
        × (is_none error ≡ (below_limit (nevent_ref s.events e) && not (nqueue_is_full s.queue)))
        × (contents k s'.queue
            ≡ (if is_none error then contents k s.queue ++ e ∷ [] else contents k s.queue))
        × ((x : ℕ)
            → s'.events.ref x ≡ (
                if is_none error && (x == e) && not (s.events.attrib e == 0)
                then s.events.ref x + 1
                else s.events.ref x))
        × (s'.managers ≡ (
            if below_limit (nevent_ref s.events e)
              && nqueue_is_full s.queue
              && (nevent_ref s.events e == 0)
            then free (s.events.mem e) e s.managers
            else s.managers))
  unfolding nepa_send_event_i preconditions ensure_none check
  nepa_send_event_i-IsAgent k thread hand kept s e a =
      elim (Bool-cases (below_limit (nevent_ref s.events e))) [
        | inr over ↦
            (nerror_no_reference, s, rw over refl, a, rw over refl, refl, λ x. refl, rw over refl)
        | inl under ↦ elim (Bool-cases (nqueue_is_full s.queue)) [
          | inl full ↦
              let (s', run, a', same, refs, gone) =
                send-refused k thread hand kept s e a under full in
              (
                nerror_no_resource,
                s',
                run,
                a',
                rw (under, full) refl,
                ap (contents k) same,
                refs,
                rw (under, full) gone,
              )
          | inr room ↦
              let (s', run, a', more, events, _, kept_all) =
                send-queued k thread hand kept s e a under room in
              (
                nerror_none,
                s',
                run,
                a',
                rw (under, room) refl,
                more,
                λ x.
                    ap (λ (h : Events). h.ref x) events
                    ∙ ref_up-count s.events e (keeps k hand kept s e) x (a.tracked e),
                rw (under, room) kept_all,
              )
        ]
      ]
