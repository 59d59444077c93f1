-- ===== src/Epa/Defer.antt =====
-- `nepa_defer_event`, `nepa_defer_fetch_one` and `nepa_defer_fetch_all` of source/epa.c.
use neon_eds.Common.{
  ℕ, zero, suc, ◌+◌, ◌<◌, ◌≤◌, ◌^◌, ◌≡◌, inl, inr, not, ◌&&◌, List, [], ◌∷◌, ◌++◌, true, false,
  ◌==◌, if◌then◌else◌, done, arith, refl, ap, ◌∙◌, sym, Bool-cases, length, length-append, subst,
  append-nil, append_assoc,
}
use neon_eds.Base.Queue.{Nqueue, nqueue_is_full, nqueue_is_empty, nqueue_put_fifo, nqueue_get}
use neon_eds.Base.Queue.Window.{IsValid, contents}
use neon_eds.Base.Queue.Refine.{
  put_fifo-IsValid, contents-put_fifo, get-IsValid, contents-get, nqueue_is_full_lem,
  nqueue_is_empty_lem,
}
use neon_eds.Sched.{nthread_get_current}
use neon_eds.Event.{
  Events, nevent_attr_dynamic, nevent_ref_up, nevent_ref_down, nevent_ref, below_limit,
}
use neon_eds.Epa.{
  System, Nerror, is_none, nerror_none, nerror_no_resource, nepa_send_event, nepa_defer_event,
  fetch, nepa_defer_fetch_one, fetch_loop, nepa_defer_fetch_all,
}
use neon_eds.Epa.Counts.{
  occurrences, occurrences-append, Tracked, Tracked-same, Tracked-down, dynamic_down,
  ref_down-attrib, ref_down-mem, ref_down-up, ref_up-count,
}
use neon_eds.Epa.Agent.{keeps, IsAgent, IsAgent-events, all_kept_up, all_kept_down, send-queued}
use neon_eds.Epa.Send.{IsCounted, nepa_send_event_i-refused}

-- Taking an item off a queue that holds one.
pub get-first :
    (k : ℕ) (q : Nqueue) (e : ℕ) (rest : List ℕ)
    → IsValid k q
    → contents k q ≡ e ∷ rest
    → (nqueue_is_empty q ≡ false)
      × ((nqueue_get q).0 ≡ e)
      × IsValid k (nqueue_get q).1
      × (contents k (nqueue_get q).1 ≡ rest)
get-first k q e rest v first =
    let some_item : nqueue_is_empty q ≡ false =
      nqueue_is_empty_lem k v ∙ ground (arith, ap length first) in
    let both : (nqueue_get q).0 ∷ contents k (nqueue_get q).1 ≡ e ∷ rest =
      sym (contents-get k v some_item) ∙ first in
    (some_item, ground (arith, both), get-IsValid k v some_item, ground (arith, both))

module _ {ℓ} {W : Type ℓ} (free : ℕ → ℕ → W → W) where
  -- An event with room for a reference is deferred exactly if the queue is not full: it is then the
  -- last one in the queue and has exactly one reference more, if it is dynamic; a full queue leaves
  -- every reference count as it is; in both cases each event that the agent works on, has queued or
  -- has deferred keeps its references, and its own queue, its thread and the memory managers stay
  -- as they are.
  pub nepa_defer_event-IsAgent :
      (k k' thread : ℕ) (hand : List ℕ) (s : System W) (q : Nqueue) (e : ℕ)
      → IsAgent k thread hand (contents k' q) s
      → IsValid k' q
      → below_limit (nevent_ref s.events e) ≡ true
      → (error : Nerror) × (s' : System W) × (q' : Nqueue) × (nepa_defer_event free false s q e
          ≡ (error, s', q'))
        × (is_none error ≡ not (nqueue_is_full q))
        × IsValid k' q'
        × (contents k' q' ≡ (if is_none error then contents k' q ++ e ∷ [] else contents k' q))
        × IsAgent k thread hand (contents k' q') s'
        × (s'.queue ≡ s.queue)
        × (s'.sched ≡ s.sched)
        × ((x : ℕ)
            → s'.events.ref x ≡ (
                if is_none error && (x == e) && not (s.events.attrib e == 0)
                then s.events.ref x + 1
                else s.events.ref x))
        × (s'.managers ≡ s.managers)
  unfolding nepa_defer_event
  nepa_defer_event-IsAgent k k' thread hand s q e a v under = elim (Bool-cases (nqueue_is_full q)) [
    | inl full ↦ (
      nerror_no_resource,
      s,
      q,
      rw full refl,
      rw full refl,
      v,
      refl,
      a,
      refl,
      refl,
      λ x. refl,
      refl,
    )
    | inr room ↦
        let more = contents-put_fifo k' v e room in
        let added = λ (x : ℕ). occurrences-append x (contents k' q) (e ∷ []) in
        (
          nerror_none,
          record s { events = nevent_ref_up s.events e },
          nqueue_put_fifo q e,
          rw room refl,
          rw room refl,
          put_fifo-IsValid k' v e room,
          more,
          IsAgent-events s (nevent_ref_up s.events e) (contents k' (nqueue_put_fifo q e)) a (
              all_kept_up s.events e (keeps k hand (contents k' q) s)
                (keeps k hand (contents k' (nqueue_put_fifo q e)) s) under a.tracked
                (ground (arith, ap (occurrences e) more, added e))
                (λ x ne. ground (arith, ne, ap (occurrences x) more, added x))),
          refl,
          refl,
          λ x. ref_up-count s.events e (keeps k hand (contents k' q) s e) x (a.tracked e),
          refl,
        )
  ]

  -- One deferred event goes back to the agent's own queue.
  record Fetched (k k' : ℕ) (hand : List ℕ) (s : System W) (e : ℕ) (rest : List ℕ) (s' : System W)
      (q' : Nqueue) : Type ℓ where
    valid : IsValid k' q'
    left : contents k' q' ≡ rest
    agent : IsAgent k s.sched.current hand rest s'
    more : contents k s'.queue ≡ contents k s.queue ++ e ∷ []
    current : s'.sched.current ≡ s.sched.current
    refs : (x : ℕ) → s'.events.ref x ≡ s.events.ref x

  fetch-Fetched :
      (k k' : ℕ) (hand : List ℕ) (s : System W) (q : Nqueue) (e : ℕ) (rest : List ℕ)
      → IsAgent k s.sched.current hand (contents k' q) s
      → IsValid k' q
      → contents k' q ≡ e ∷ rest
      → nqueue_is_full s.queue ≡ false
      → (s' : System W) × (q' : Nqueue) × (fetch free false s q ≡ done (nerror_none, s', q'))
        × Fetched k k' hand s e rest s' q'
  unfolding fetch nepa_send_event nthread_get_current
  fetch-Fetched k k' hand s q e rest a v first room =
      let (_, head, v', left) = get-first k' q e rest v first in
      let h = nevent_ref_down s.events e in
      let here = ap (occurrences e) first in
      let held : Tracked s.events e (suc (keeps k hand rest s e)) =
        Tracked-same s.events s.events e (suc (keeps k hand rest s e))
          (keeps k hand (contents k' q) s e) refl refl (ground (arith, here)) (a.tracked e) in
      let a₁ : IsAgent k s.sched.current hand rest (record s { events = h }) =
        IsAgent-events s h rest a (
          all_kept_down s.events e (keeps k hand (contents k' q) s) (keeps k hand rest s) a.tracked
            (ground (arith, here)) (λ x ne. ground (arith, ne, ap (occurrences x) first))) in
      let under = (Tracked-down s.events e (keeps k hand rest s e) held).1 in
      let (s', run, a₂, more, events, same, _) =
        send-queued free k s.sched.current hand rest (record s { events = h }) e a₁ under room in
      (
        s',
        (nqueue_get q).1,
        rw (head, run) refl,
        record {
          valid = v';
          left = left;
          agent = a₂;
          more = more;
          current = same;
          refs = λ x.
              ap (λ (h' : Events). h'.ref x) events
              ∙ ref_down-up s.events e x (keeps k hand rest s e) held;
        },
      )

  -- With the validation off, where the queue of the current agent has room for all the events that are
  -- deferred, `nepa_defer_fetch_all` needs one round more than there are events: it moves them all, in their
  -- order, behind the events of that queue, and leaves every reference count as it was.
  pub nepa_defer_fetch_all-order :
      (k k' : ℕ) (hand deferred : List ℕ) (s : System W) (q : Nqueue) (fuel : ℕ)
      → IsAgent k s.sched.current hand (contents k' q) s
      → IsValid k' q
      → contents k' q ≡ deferred
      → length (contents k s.queue) + length deferred ≤ 2 ^ k
      → length deferred < fuel
      → (s' : System W) × (q' : Nqueue) × (nepa_defer_fetch_all free false fuel s q
          ≡ done (nerror_none, s', q'))
        × (contents k' q' ≡ [])
        × (contents k s'.queue ≡ contents k s.queue ++ deferred)
        × IsAgent k s.sched.current hand [] s'
        × ((x : ℕ) → s'.events.ref x ≡ s.events.ref x)
  unfolding nepa_defer_fetch_all fetch_loop
  nepa_defer_fetch_all-order k k' hand deferred s q zero a v all room enough =
      absurd (omega (arith, enough))
  nepa_defer_fetch_all-order k k' hand [] s q (suc fuel) a v all room enough =
      let none_left : nqueue_is_empty q ≡ true =
        nqueue_is_empty_lem k' v ∙ ground (arith, ap length all) in
      (
        s,
        q,
        rw none_left refl,
        all,
        sym (append-nil (contents k s.queue)),
        subst (λ xs. IsAgent k s.sched.current hand xs s) all a,
        λ x. refl,
      )
  nepa_defer_fetch_all-order k k' hand (e ∷ rest) s q (suc fuel) a v all room enough =
      let (some_item, _, _, _) = get-first k' q e rest v all in
      let not_full : nqueue_is_full s.queue ≡ false =
        nqueue_is_full_lem k a.queue ∙ ground (arith, room) in
      let (s₁, q₁, run, f) = fetch-Fetched k k' hand s q e rest a v all not_full in
      let (s', q', again, none_left, behind, a', refs) =
        nepa_defer_fetch_all-order k k' hand rest s₁ q₁ fuel
          (subst (λ (n, xs). IsAgent k n hand xs s₁) (λ i. (sym f.current i, sym f.left i)) f.agent)
          f.valid f.left
          (ground (arith, room, ap length f.more, length-append (contents k s.queue) (e ∷ [])))
          (omega (arith, enough)) in
      (
        s',
        q',
        rw (some_item, run) again,
        none_left,
        behind ∙ ap (λ xs. xs ++ rest) f.more ∙ append_assoc (contents k s.queue) (e ∷ []) rest,
        subst (λ n. IsAgent k n hand [] s') f.current a',
        λ x. refs x ∙ f.refs x,
      )

  -- With the validation off, where the queue of the current agent is full, `nepa_defer_fetch_one` takes a
  -- dynamic event with one reference, the first of the deferred ones, off their queue all the same, and
  -- gives it back.
  pub nepa_defer_fetch_one-lost :
      (k' : ℕ) (s : System W) (q : Nqueue) (e : ℕ) (rest : List ℕ)
      → IsValid k' q
      → contents k' q ≡ e ∷ rest
      → nqueue_is_full s.queue ≡ true
      → s.events.attrib e ≡ nevent_attr_dynamic
      → s.events.ref e ≡ 1
      → (s' : System W) × (q' : Nqueue) × (nepa_defer_fetch_one free false s q
          ≡ done (nerror_no_resource, s', q'))
        × (contents k' q' ≡ rest)
        × (s'.queue ≡ s.queue)
        × (s'.managers ≡ free (s.events.mem e) e s.managers)
  unfolding nepa_defer_fetch_one fetch nepa_send_event nthread_get_current
  nepa_defer_fetch_one-lost k' s q e rest v first full d one =
      let (some_item, head, v', left) = get-first k' q e rest v first in
      let h = nevent_ref_down s.events e in
      let down = dynamic_down s.events e d (omega (arith, one)) (omega (arith, one)) in
      let counted : IsCounted h e = record {
        dynamic = ref_down-attrib s.events e e ∙ d;
        few = omega (arith, down, one);
      } in
      let (s', run, same, _, _, given) =
        nepa_send_event_i-refused free (record s { events = h }) s.sched.current e counted full in
      let none : (h.ref e == 0) ≡ true = ground (arith, down, one) in
      (
        s',
        (nqueue_get q).1,
        rw (some_item, head, run) refl,
        left,
        same,
        given ∙ rw (none, ref_down-mem s.events e) refl,
      )
