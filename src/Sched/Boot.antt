-- ===== src/Sched/Boot.antt =====
-- `nthread_init` of source/sched.c, which prepares the run queue at its first call.
use neon_eds.Common.{
  ℕ, zero, suc, ◌<◌, ◌≤◌, ◌≡◌, ◌≢◌, List, [], ◌∷◌, ◌∈◌, ◌∉◌, has, update, arith, true, false, refl,
  done, asserted, ◌==◌, Bool-cases, inl, inr, ==_ne,
}
use native.Mathlib.Decide.{ℕ_discrete}
use neon_eds.Common.Bits.{testbit-above}
use native.Mathlib.Nat.{one-le-pow}
use neon_eds.Base.Dlist.{null}
use neon_eds.Base.Dlist.Ring.{Ring, init-Ring}
use neon_eds.Base.Dlist.Frame.{init-other}
use neon_eds.Base.BiasList.{BiasNodes, nbias_list_init, nbias_list_max_prio}
use neon_eds.Sched.{
  Sched, Dispatch, sentinel, nsignature_thread, idle_thread, init_sentinels, prio_queue_init,
  bitmap_init, check, sign, signature_of, init_fields, init_idle, prepare_run_queue, nthread_init,
  nthread_insert_i,
}
use neon_eds.Sched.RunQueue.{RunQueue}
use neon_eds.Sched.Threads.{Managed, nthread_insert_i-Managed}

-- No thread is ready.
abbrev pub no_threads : ℕ → List ℕ
no_threads b = []

-- The loop of `prio_queue_init` keeps the lists that it does not reach.
init_sentinels-above :
    (count : ℕ) (h : BiasNodes) (b : ℕ)
    → count ≤ b
    → Ring h.list (sentinel b) []
    → Ring (init_sentinels count h).list (sentinel b) []
unfolding init_sentinels nbias_list_init
init_sentinels-above zero h b le r = r
init_sentinels-above (suc count) h b le r =
    init_sentinels-above count (nbias_list_init h (sentinel count) nbias_list_max_prio) b
      (omega arith) (init-other h.list (sentinel b) [] r (sentinel count) (ground arith))

init_sentinels-Ring :
    (count : ℕ) (h : BiasNodes) (b : ℕ)
    → b < count
    → Ring (init_sentinels count h).list (sentinel b) []
unfolding init_sentinels nbias_list_init
init_sentinels-Ring zero h b lt = absurd (omega arith)
init_sentinels-Ring (suc count) h b lt =
    let h₁ = nbias_list_init h (sentinel count) nbias_list_max_prio in
    elim (ℕ_discrete b count) [
      | yes e ↦
          init_sentinels-above count h₁ b (omega arith) (rw e (init-Ring h.list (sentinel count)))
      | no ne ↦ init_sentinels-Ring count h₁ b (omega arith)
    ]

prio_queue_init-RunQueue : (s : Sched) → RunQueue (prio_queue_init s) no_threads
unfolding prio_queue_init bitmap_init
prio_queue_init-RunQueue s = record {
  buckets = record {
    rings = λ b hb. init_sentinels-Ring 32 s.nodes b hb;
    biases = λ b x hb m. absurd (ground arith);
    threads = λ b x hb m. absurd (ground arith);
  };
  bits = λ b hb. testbit-above b 0 (omega (arith, one-le-pow b 2));
  word = omega arith;
}

-- `nbias_list_init` of a thread that stands in no list.
init-RunQueue :
    (s : Sched) (ready : ℕ → List ℕ) (n priority : ℕ)
    → RunQueue s ready
    → 32 < n
    → ((b : ℕ) → b < 32 → n ∉ ready b)
    → RunQueue (record s { nodes = nbias_list_init s.nodes n priority }) ready
unfolding nbias_list_init
init-RunQueue s ready n priority q big out = record {
  buckets = record {
    rings = λ b hb.
        init-other s.nodes.list (sentinel b) (ready b) (q.buckets.rings b hb) n
          (ground (arith, out b hb));
    biases = λ b x hb m. ground (arith, q.buckets.biases b x hb m, out b hb, m, out_of b x hb m);
    threads = q.buckets.threads;
  };
  bits = q.bits;
  word = q.word;
}
  where
    out_of : (b x : ℕ) → b < 32 → x ∈ ready b → (x == n) ≡ false
    out_of b x hb m = elim (ℕ_discrete x n) [
      | yes e ↦ absurd (ground (arith, e, m, out b hb))
      | no ne ↦ ==_ne x n ne
    ]

-- `nthread_init` fills the fields of a thread without a reference, and leaves the queue as it is.
pub init_fields-Managed :
    (s : Sched) (ready : ℕ → List ℕ) (n name priority : ℕ) (d : Dispatch)
    → Managed s ready
    → 32 < n
    → s.ref n ≡ 0
    → Managed (init_fields false s n name priority d) ready
unfolding init_fields sign nbias_list_init
init_fields-Managed s ready n name priority d m big idle =
    let q = init-RunQueue s ready n priority m.queue big out in
    record {
      queue = record { buckets = q.buckets; bits = q.bits; word = q.word };
      counted = λ b x hb i. ground (arith, out b hb, i, m.counted b x hb i, idle, ne_of b x hb i);
      queued = λ x c. ground (arith, m.queued x, c);
    }
  where
    out : (b : ℕ) → b < 32 → n ∉ ready b
    out b hb = elim (Bool-cases (has n (ready b))) [
      | inl i ↦ absurd (omega (arith, m.counted b n hb i, idle))
      | inr o ↦ o
    ]

    ne_of : (b x : ℕ) → b < 32 → x ∈ ready b → (x == n) ≡ false
    ne_of b x hb i = elim (ℕ_discrete x n) [
      | yes e ↦ absurd (ground (arith, e, i, out b hb))
      | no ne ↦ ==_ne x n ne
    ]

-- The state of the queue after the first `nthread_init`: the idle thread is ready at priority 0.
abbrev pub idle_only : ℕ → List ℕ
idle_only = update no_threads 0 (idle_thread ∷ [])

prepare_run_queue-Managed :
    (s : Sched)
    → ((x : ℕ) → s.ref x ≡ 0)
    → (s' : Sched) × (prepare_run_queue false s ≡ done s')
      × Managed s' idle_only
      × (s'.is_initialized ≡ true)
      × ((x : ℕ) → x ≢ idle_thread → s'.ref x ≡ 0)
unfolding prepare_run_queue init_idle init_fields sign prio_queue_init bitmap_init check
    nbias_list_init
prepare_run_queue-Managed s none_ready =
    let start = prio_queue_init (record s { is_initialized = true; current = null }) in
    let m : Managed start no_threads = record {
      queue = prio_queue_init-RunQueue (record s { is_initialized = true; current = null });
      counted = λ b x hb i. absurd (ground arith);
      queued = λ x c. absurd (ground (arith, none_ready x, c));
    } in
    let m₁ =
      init_fields-Managed start no_threads idle_thread 0 0 Dispatch.idle_dispatch m (omega arith)
        (none_ready 33) in
    let (s', run, m', refs, biases, init) =
      nthread_insert_i-Managed (init_fields false start idle_thread 0 0 Dispatch.idle_dispatch)
        no_threads idle_thread m₁ (omega arith) (omega arith) (omega arith) in
    (s', run, m', init, λ x ne. rw refs (ground (arith, none_ready x, ne)))

pub nthread_init-first :
    (s : Sched) (n name priority : ℕ) (d : Dispatch)
    → s.is_initialized ≡ false
    → ((x : ℕ) → s.ref x ≡ 0)
    → idle_thread < n
    → (s' : Sched) × (nthread_init false s n name priority d ≡ done s')
      × Managed s' idle_only
      × (s'.is_initialized ≡ true)
      × (s'.ref n ≡ 0)
      × (s'.nodes.bias n ≡ priority)
      × (s'.vf_dispatch n ≡ d)
unfolding nthread_init check init_fields sign nbias_list_init
nthread_init-first s n name priority d first none_ready other =
    let (s₁, run, m, init, refs) = prepare_run_queue-Managed s none_ready in
    let m' =
      init_fields-Managed s₁ idle_only n name priority d m (omega (arith, other))
        (refs n (omega (arith, other))) in
    (
      init_fields false s₁ n name priority d,
      simp (first, run) refl,
      m',
      init,
      ground arith,
      ground arith,
      ground arith,
    )

-- With the validation on the idle thread is signed, and then asserted not to be.
prepare_run_queue-asserted : (s : Sched) → prepare_run_queue true s ≡ asserted
unfolding prepare_run_queue init_idle nthread_insert_i check init_fields sign signature_of
    prio_queue_init bitmap_init
prepare_run_queue-asserted s = elim (Bool-cases (s.signature 33 == nsignature_thread)) [
  | inl e ↦ rw e refl
  | inr e ↦ rw e refl
]

-- With the validation on the first `nthread_init` never returns: it signs the idle thread, and
-- `nthread_insert_i` asserts that the thread is not signed.
pub nthread_init-asserted :
    (s : Sched) (n name priority : ℕ) (d : Dispatch)
    → s.is_initialized ≡ false
    → nthread_init true s n name priority d ≡ asserted
unfolding nthread_init check
nthread_init-asserted s n name priority d first =
    elim (Bool-cases (signature_of s n == nsignature_thread)) [
      | inl e ↦ simp e refl
      | inr e ↦ simp (e, first, prepare_run_queue-asserted s) refl
    ]
