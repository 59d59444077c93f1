-- ===== src/Epa/Thread.antt =====
-- `nepa_register`, `epa_init_i` and `epa_dispatch_i` of source/epa.c.
use neon_eds.Common.{
  ℕ, ◌+◌, ◌-◌, ◌<◌, ◌≤◌, ◌≡◌, inl, inr, List, [], ◌∷◌, ◌++◌, true, false, ◌==◌, if◌then◌else◌,
  update, Run, done, arith, refl, ap, ◌∙◌, sym, update_self, Bool-cases, length, split_of_mem,
}
use neon_eds.Base.Queue.{nqueue_is_empty, nqueue_get}
use neon_eds.Base.Queue.Window.{contents}
use neon_eds.Base.Queue.Refine.{get-IsValid, contents-get, nqueue_is_empty_lem}
use neon_eds.Base.BiasList.{nbias_list_is_empty, nbias_list_get_bias}
use neon_eds.Sched.{Sched, Dispatch, check, nthread_insert_i, prio_queue_insert, bitmap_set}
use neon_eds.Sched.RunQueue.Insert.{appended}
use neon_eds.Sched.Threads.{nthread_insert_i-Managed, nthread_remove_i-Managed}
use neon_eds.Event.{Events, nevent_attr_dynamic, nevent_ref_down, nevent_ref, nevent_destroy_i}
use neon_eds.Event.Lifetime.{nevent_ref_lem}
use neon_eds.Epa.{
  System, epa_init, epa_dispatch, destroy_event, set_dispatch, nepa_register, block_thread,
  epa_dispatch_i, epa_init_i,
}
use neon_eds.Epa.Counts.{
  occurrences, Tracked, Tracked-same, dynamic_down, ref_down-attrib, ref_down-mem, destroy-rest,
}
use neon_eds.Epa.Agent.{keeps, IsAgent, all_kept_down, few_queued}

-- The function of the thread plays no part.
set_dispatch-IsAgent {ℓ} :
    {W : Type ℓ} {k thread : ℕ} {hand kept : List ℕ} (s : System W) (f : Dispatch)
    → IsAgent k thread hand kept s
    → IsAgent k thread hand kept (set_dispatch s thread f)
unfolding set_dispatch
set_dispatch-IsAgent s f a = record {
  queue = a.queue;
  ready = a.ready;
  managed = record {
    queue = record {
      buckets = a.managed.queue.buckets;
      bits = a.managed.queue.bits;
      word = a.managed.queue.word;
    };
    counted = a.managed.counted;
    queued = a.managed.queued;
  };
  address = a.address;
  low = a.low;
  few = a.few;
  counted = a.counted;
  tracked = a.tracked;
}

abbrev dispatch_of : Run Sched → (ℕ → Dispatch) → ℕ → Dispatch
dispatch_of (done s) old = s.vf_dispatch
dispatch_of r old = old

-- Making a thread ready does not change its function.
insert-dispatch :
    (s s' : Sched) (n : ℕ) → nthread_insert_i false s n ≡ done s' → s'.vf_dispatch ≡ s.vf_dispatch
unfolding nthread_insert_i check prio_queue_insert bitmap_set
insert-dispatch s s' n run =
    sym (ap (λ r. dispatch_of r s.vf_dispatch) run) ∙ elim (Bool-cases (s.ref n == 0)) [
      | inl z ↦
          elim (Bool-cases (nbias_list_is_empty s.nodes (nbias_list_get_bias s.nodes n + 1))) [
            | inl e ↦ rw (z, e) refl
            | inr e ↦ rw (z, e) refl
          ]
      | inr z ↦ rw z refl
    ]

-- An agent takes a static event in hand, as its registration does.
nepa_register-IsAgent {ℓ} :
    {W : Type ℓ} (free : ℕ → ℕ → W → W) (k thread : ℕ) (kept : List ℕ) (s : System W)
    (init_event : ℕ)
    → IsAgent k thread [] kept s
    → s.events.attrib init_event ≡ 0
    → (s' : System W) × (nepa_register free false s thread ≡ done s')
      × IsAgent k thread (init_event ∷ []) kept s'
      × (s'.queue ≡ s.queue)
      × (s'.sched.vf_dispatch thread ≡ epa_init)
unfolding nepa_register check set_dispatch
nepa_register-IsAgent {W} free k thread kept s init_event a static =
    let s₁ : System W = set_dispatch s thread epa_init in
    let a₁ = set_dispatch-IsAgent s epa_init a in
    let (sched', run, m, refs, biases, _) =
      nthread_insert_i-Managed s₁.sched a₁.ready thread a₁.managed a.address a₁.low
        (omega (arith, a₁.counted, few_queued k s.queue a.queue)) in
    (
      record s₁ { sched = sched' },
      rw run refl,
      record {
        queue = a.queue;
        ready =
            if s.sched.ref thread == 0
            then appended a₁.ready (s.sched.nodes.bias thread) thread
            else a₁.ready;
        managed = m;
        address = a.address;
        low = rw biases a.low;
        few = omega arith;
        counted =
            rw (refs, update_self s.sched.ref thread (s.sched.ref thread + 1))
              (ground (arith, a.counted));
        tracked = λ x. elim (Bool-cases (x == init_event)) [
          | inl same ↦ elim (a.tracked x) [
            | inl t ↦ inl t
            | inr (d, _, _) ↦ absurd (ground (arith, same, d, static))
          ]
          | inr other ↦
              Tracked-same s.events s.events x (keeps k (init_event ∷ []) kept s x)
                (keeps k [] kept s x) refl refl (ground (arith, other)) (a.tracked x)
        ];
      },
      refl,
      ap (λ (f : ℕ → Dispatch). f thread) (insert-dispatch s₁.sched sched' thread run)
          ∙ update_self s.sched.vf_dispatch thread epa_init,
    )

module _ {ℓ} {W : Type ℓ} (free : ℕ → ℕ → W → W) (handle : ℕ → System W → Run (System W)) where
  -- What a state machine has to do with the event in its hand: to end, and to leave the counts in agreement.
  abbrev pub Handles : ℕ → ℕ → List ℕ → ℕ → Type ℓ
  Handles k thread kept e =
      (s : System W)
      → IsAgent k thread (e ∷ []) kept s
      → (s' : System W) × (handle e s ≡ done s') × IsAgent k thread (e ∷ []) kept s'

  -- The thread loses the reference of what is in hand.
  block-IsAgent :
      (k thread : ℕ) (hand kept : List ℕ) (s : System W) (e : ℕ) (h : Events) (w : W)
      → IsAgent k thread (e ∷ hand) kept s
      → ((x : ℕ) → Tracked h x (keeps k hand kept s x))
      → (sched' : Sched) × (block_thread free false handle
            (record s { events = h; managers = w })
            thread
          ≡ done (record s { events = h; managers = w; sched = sched' }))
        × IsAgent k thread hand kept (record s { events = h; managers = w; sched = sched' })
  unfolding block_thread
  block-IsAgent k thread hand kept s e h w a t =
      let some_ref : 0 < s.sched.ref thread = omega (arith, a.counted) in
      let (xs, ys, place) =
        split_of_mem thread (a.ready (s.sched.nodes.bias thread))
          (a.managed.queued thread some_ref).1 in
      let (sched', run, m, refs, biases) =
        nthread_remove_i-Managed s.sched a.ready thread xs ys a.managed some_ref
          (omega (arith, a.counted, a.few, few_queued k s.queue a.queue)) place in
      (
        sched',
        rw run refl,
        record {
          queue = a.queue;
          ready =
              if s.sched.ref thread == 1
              then update a.ready (s.sched.nodes.bias thread) (xs ++ ys)
              else a.ready;
          managed = m;
          address = a.address;
          low = rw biases a.low;
          few = omega (arith, a.few);
          counted =
              rw (refs, update_self s.sched.ref thread (s.sched.ref thread - 1))
                (omega (arith, a.counted));
          tracked = t;
        },
      )

  abbrev managers_of : Run (System W) → W → W
  managers_of (done s) old = s.managers
  managers_of r old = old

  -- The reference of what was in hand is the last one exactly if the event is given back.
  destroy-last :
      (s : System W) (e : ℕ)
      → s.events.attrib e ≡ nevent_attr_dynamic
      → 0 < s.events.ref e
      → s.events.ref e ≤ 65535
      → managers_of
          (destroy_event free false (record s { events = nevent_ref_down s.events e }) e)
          s.managers
        ≡ (if s.events.ref e == 1 then free (s.events.mem e) e s.managers else s.managers)
  unfolding destroy_event nevent_destroy_i check
  destroy-last s e d some_ref few =
      let h = nevent_ref_down s.events e in
      let down : h.ref e ≡ s.events.ref e - 1 =
        dynamic_down s.events e d some_ref (omega (arith, few)) in
      let counted =
        nevent_ref_lem h e (ref_down-attrib s.events e e ∙ d) (omega (arith, down, few)) in
      elim (Bool-cases (s.events.ref e == 1)) [
        | inl one ↦
            let none : (nevent_ref h e == 0) ≡ true = ground (arith, counted, down, one) in
            rw (none, one, ref_down-mem s.events e) refl
        | inr more ↦
            let some_left : (nevent_ref h e == 0) ≡ false =
              ground (arith, counted, down, more, some_ref) in
            rw (some_left, more) refl
      ]

  -- The first event of the queue is taken in hand.
  get-IsAgent :
      (k thread : ℕ) (kept : List ℕ) (s : System W) (e : ℕ) (rest : List ℕ)
      → IsAgent k thread [] kept s
      → contents k s.queue ≡ e ∷ rest
      → ((nqueue_get s.queue).0 ≡ e)
        × (contents k (nqueue_get s.queue).1 ≡ rest)
        × IsAgent k thread (e ∷ []) kept (record s { queue = (nqueue_get s.queue).1 })
  get-IsAgent k thread kept s e rest a first =
      let some_item : nqueue_is_empty s.queue ≡ false =
        nqueue_is_empty_lem k a.queue ∙ ground (arith, ap length first) in
      let both : (nqueue_get s.queue).0 ∷ contents k (nqueue_get s.queue).1 ≡ e ∷ rest =
        sym (contents-get k a.queue some_item) ∙ first in
      let left : contents k (nqueue_get s.queue).1 ≡ rest = ground (arith, both) in
      (
        ground (arith, both),
        left,
        record {
          queue = get-IsValid k a.queue some_item;
          ready = a.ready;
          managed = a.managed;
          address = a.address;
          low = a.low;
          few = omega arith;
          counted = a.counted ∙ ground (arith, ap length first, ap length left);
          tracked = λ x.
              Tracked-same s.events s.events x
                (keeps k (e ∷ []) kept (record s { queue = (nqueue_get s.queue).1 }) x)
                (keeps k [] kept s x) refl refl
                (ground (arith, ap (occurrences x) first, ap (occurrences x) left)) (a.tracked x);
        },
      )

  -- With the validation off, for a state machine that ends and leaves the counts in agreement, the thread of
  -- an agent with an event in its queue takes the first one off, has the state machine handle it, and is
  -- left with a reference less; a dynamic event whose last reference this was is given back, and every event
  -- of the queue has its reference still.
  pub epa_dispatch_i-IsAgent :
      (k thread : ℕ) (kept : List ℕ) (s : System W) (e : ℕ) (rest : List ℕ)
      → IsAgent k thread [] kept s
      → contents k s.queue ≡ e ∷ rest
      → Handles k thread kept e
      → (s₁ : System W) × (s' : System W) × (handle e (record s { queue = (nqueue_get s.queue).1 })
          ≡ done s₁)
        × (epa_dispatch_i free false handle s thread ≡ done s')
        × (contents k (nqueue_get s.queue).1 ≡ rest)
        × IsAgent k thread [] kept s'
        × (s'.queue ≡ s₁.queue)
        × (s₁.events.attrib e ≡ nevent_attr_dynamic
            → s'.managers ≡ (
                if s₁.events.ref e == 1 then free (s₁.events.mem e) e s₁.managers else s₁.managers))
  unfolding epa_dispatch_i
  epa_dispatch_i-IsAgent k thread kept s e rest a first handles =
      let (head, left, a₀) = get-IsAgent k thread kept s e rest a first in
      let s₀ : System W = record s { queue = (nqueue_get s.queue).1 } in
      let (s₁, handled, a₁) = handles s₀ a₀ in
      let h = nevent_ref_down s₁.events e in
      let (w, destroyed, _) = destroy-rest free (record s₁ { events = h }) e in
      let (sched', blocked, a₂) = block-IsAgent k thread [] kept s₁ e h w a₁ (
        all_kept_down s₁.events e (keeps k (e ∷ []) kept s₁) (keeps k [] kept s₁) a₁.tracked
          (ground arith) (λ x ne. ground (arith, ne))) in
      (
        s₁,
        record s₁ { events = h; managers = w; sched = sched' },
        handled,
        rw (head, handled, destroyed, blocked) refl,
        left,
        a₂,
        refl,
        λ d. elim (a₁.tracked e) [
          | inl (static, _) ↦ absurd (omega (arith, static, d))
          | inr (_, few, enough) ↦
              sym (ap (λ r. managers_of r s₁.managers) destroyed)
              ∙ destroy-last s₁ e d (ground (arith, enough)) few
        ],
      )

  -- With the validation off, registering an agent makes its thread ready with epa_init_i as its
  -- function; for a state machine that ends and leaves the counts in agreement when it is sent the
  -- initial event, which is static, that function sends it this event, takes back the reference of
  -- the registration, and leaves the thread to dispatch events from then on.
  pub epa_init_i-IsAgent :
      (k thread : ℕ) (kept : List ℕ) (s : System W) (init_event : ℕ)
      → IsAgent k thread [] kept s
      → s.events.attrib init_event ≡ 0
      → Handles k thread kept init_event
      → (s₁ : System W) × (s₂ : System W) × (s' : System W) × (nepa_register free false s thread
          ≡ done s₁)
        × (s₁.sched.vf_dispatch thread ≡ epa_init)
        × (handle init_event s₁ ≡ done s₂)
        × (epa_init_i free false handle init_event s₁ thread ≡ done s')
        × IsAgent k thread [] kept s'
        × (s'.queue ≡ s₂.queue)
        × (s'.sched.vf_dispatch thread ≡ epa_dispatch)
  unfolding epa_init_i set_dispatch
  epa_init_i-IsAgent k thread kept s init_event a static handles =
      let (s₁, registered, a₁, _, installed) =
        nepa_register-IsAgent free k thread kept s init_event a static in
      let (s₂, handled, a₂) = handles s₁ a₁ in
      let (sched', blocked, a₃) =
        block-IsAgent k thread [] kept s₂ init_event s₂.events s₂.managers a₂ (λ x.
          Tracked-same s₂.events s₂.events x (keeps k [] kept s₂ x)
            (keeps k (init_event ∷ []) kept s₂ x) refl refl (ground arith) (a₂.tracked x)) in
      (
        s₁,
        s₂,
        set_dispatch (record s₂ { sched = sched' }) thread epa_dispatch,
        registered,
        installed,
        handled,
        rw (handled, blocked) refl,
        set_dispatch-IsAgent (record s₂ { sched = sched' }) epa_dispatch a₃,
        refl,
        update_self sched'.vf_dispatch thread epa_dispatch,
      )
