-- ===== src/Sched/Threads.antt =====
-- The reference counts of the threads: a thread stands in the run queue while its count is not 0.
use neon_eds.Common.{
  ℕ, ◌+◌, ◌-◌, ◌<◌, ◌%◌, ◌^◌, ◌≡◌, List, [], ◌∷◌, ◌++◌, ◌∈◌, has, has-append, update, arith, Bool,
  true, false, refl, done, ==_refl, if◌then◌else◌, ◌==◌, Bool-cases, inl, inr, update_self, subst,
  Distinct-middle, ==_ne, Distinct,
}
use native.Mathlib.Decide.{ℕ_discrete}
use neon_eds.Base.BiasList.{
  nbias_list_fifo_insert, nbias_list_remove, nbias_list_get_bias, nbias_list_is_empty,
}
use neon_eds.Sched.{
  Sched, check, nthread_insert_i, nthread_remove_i, prio_queue_insert, prio_queue_remove,
  bitmap_set, bitmap_clear,
}
use neon_eds.Sched.RunQueue.{RunQueue, Fresh}
use neon_eds.Sched.RunQueue.Insert.{appended, prio_queue_insert-RunQueue}
use neon_eds.Sched.RunQueue.Remove.{prio_queue_remove-RunQueue}

-- The run queue, and that the threads in it are those with a reference.
pub record Managed (s : Sched) (ready : ℕ → List ℕ) : Type 0 where
  pub queue : RunQueue s ready
  pub counted : (b n : ℕ) → b < 32 → n ∈ ready b → 0 < s.ref n
  pub queued : (n : ℕ) → 0 < s.ref n → (s.nodes.bias n < 32) × (n ∈ ready (s.nodes.bias n))

-- What the operations of the queue leave alone.
insert-others :
    (s : Sched) (n : ℕ)
    → ((prio_queue_insert s n).ref ≡ s.ref)
      × ((prio_queue_insert s n).nodes.bias ≡ s.nodes.bias)
      × ((prio_queue_insert s n).is_initialized ≡ s.is_initialized)
unfolding prio_queue_insert bitmap_set nbias_list_fifo_insert
insert-others s n =
    elim (Bool-cases (nbias_list_is_empty s.nodes (nbias_list_get_bias s.nodes n + 1))) [
      | inl e ↦ rw e (refl, refl, refl)
      | inr e ↦ rw e (refl, refl, refl)
    ]

remove-others :
    (v : Bool) (s : Sched) (n : ℕ)
    → ((prio_queue_remove v s n).ref ≡ s.ref)
      × ((prio_queue_remove v s n).nodes.bias ≡ s.nodes.bias)
unfolding prio_queue_remove bitmap_clear nbias_list_remove
remove-others v s n =
    elim (Bool-cases
      (nbias_list_is_empty (nbias_list_remove v s.nodes n) (nbias_list_get_bias s.nodes n + 1))) [
        | inl e ↦ rw e (refl, refl)
        | inr e ↦ rw e (refl, refl)
      ]

-- A change of the counts alone.
recount :
    {s : Sched} {ready : ℕ → List ℕ} (ref : ℕ → ℕ)
    → RunQueue s ready
    → RunQueue (record s { ref = ref }) ready
recount ref q = record { buckets = q.buckets; bits = q.bits; word = q.word }

-- With the validation off `nthread_insert_i` counts one more reference, and the first one appends the
-- thread to the list of its priority.
pub nthread_insert_i-Managed :
    (s : Sched) (ready : ℕ → List ℕ) (n : ℕ)
    → Managed s ready
    → 32 < n
    → s.nodes.bias n < 32
    → s.ref n < 2 ^ 64 - 1
    → (s' : Sched) × (nthread_insert_i false s n ≡ done s')
      × Managed s' (if s.ref n == 0 then appended ready (s.nodes.bias n) n else ready)
      × (s'.ref ≡ update s.ref n (s.ref n + 1))
      × (s'.nodes.bias ≡ s.nodes.bias)
      × (s'.is_initialized ≡ s.is_initialized)
unfolding nthread_insert_i check
nthread_insert_i-Managed s ready n m big low room = elim (Bool-cases (s.ref n == 0)) [
  | inl e ↦
      let (same_ref, same_bias, same_init) = insert-others s n in
      let fresh : Fresh n ready = (
        big,
        λ b hb. elim (Bool-cases (has n (ready b))) [
          | inl i ↦ absurd (ground (arith, m.counted b n hb i, e))
          | inr o ↦ o
        ],
      ) in
      let q = prio_queue_insert-RunQueue s ready n (s.nodes.bias n) m.queue fresh refl low in
      let one_more : (s.ref n + 1) % 2 ^ 64 ≡ s.ref n + 1 = omega arith in
      (
        record (prio_queue_insert s n) { ref = update s.ref n (s.ref n + 1) },
        rw (e, same_ref, one_more) refl,
        rw e (record {
          queue = recount (update s.ref n (s.ref n + 1)) q;
          counted = λ b x hb i.
              ground (arith, m.counted b x hb, i, has-append x (ready (s.nodes.bias n)) (n ∷ []));
          queued = λ x c. rw same_bias (appended_queued x c);
        }),
        refl,
        same_bias,
        same_init,
      )
  | inr e ↦
      let one_more : (s.ref n + 1) % 2 ^ 64 ≡ s.ref n + 1 = omega arith in
      (
        record s { ref = update s.ref n (s.ref n + 1) },
        rw (e, one_more) refl,
        rw e (record {
          queue = recount (update s.ref n (s.ref n + 1)) m.queue;
          counted = λ b x hb i. ground (arith, m.counted b x hb i);
          queued = λ x c. m.queued x (ground arith);
        }),
        refl,
        refl,
        refl,
      )
]
  where
    appended_queued :
        (x : ℕ)
        → 0 < update s.ref n (s.ref n + 1) x
        → (s.nodes.bias x < 32) × (x ∈ appended ready (s.nodes.bias n) n (s.nodes.bias x))
    appended_queued x c = elim (ℕ_discrete x n) [
      | yes e ↦
          rw (e, ==_refl (s.nodes.bias n))
            (low, ground (arith, has-append n (ready (s.nodes.bias n)) (n ∷ [])))
      | no ne ↦
          let (small, i) = m.queued x (ground arith) in
          (small, ground (arith, i, has-append x (ready (s.nodes.bias n)) (n ∷ [])))
    ]

less_one : (r : ℕ) → 0 < r → r < 2 ^ 64 → (r + 2 ^ 64 - 1) % 2 ^ 64 ≡ r - 1
less_one r p h = omega arith

-- With the validation off `nthread_remove_i` counts one reference less, and the last one takes the
-- thread off the list of its priority.
pub nthread_remove_i-Managed :
    (s : Sched) (ready : ℕ → List ℕ) (n : ℕ) (xs ys : List ℕ)
    → Managed s ready
    → 0 < s.ref n
    → s.ref n < 2 ^ 64
    → ready (s.nodes.bias n) ≡ xs ++ n ∷ ys
    → (s' : Sched) × (nthread_remove_i false s n ≡ done s')
      × Managed s' (if s.ref n == 1 then update ready (s.nodes.bias n) (xs ++ ys) else ready)
      × (s'.ref ≡ update s.ref n (s.ref n - 1))
      × (s'.nodes.bias ≡ s.nodes.bias)
unfolding nthread_remove_i check
nthread_remove_i-Managed s ready n xs ys m some_ref bounded place =
    elim (Bool-cases (s.ref n == 1)) [
      | inl e ↦
          let last : (s.ref n - 1 == 0) ≡ true = ground arith in
          let (same_ref, same_bias) = remove-others false counted_s n in
          (
            prio_queue_remove false counted_s n,
            rw (less_one (s.ref n) some_ref bounded, update_self s.ref n (s.ref n - 1), last) refl,
            rw e (record {
              queue =
                  prio_queue_remove-RunQueue false counted_s ready (s.nodes.bias n) n xs ys
                    (recount (update s.ref n (s.ref n - 1)) m.queue) low place;
              counted = λ b x hb i. rw same_ref (still_counted b x hb i);
              queued = λ x c. rw same_bias (still_queued e x (subst (λ r. 0 < r x) same_ref c));
            }),
            same_ref,
            same_bias,
          )
      | inr e ↦
          let more : (s.ref n - 1 == 0) ≡ false = ground arith in
          (
            counted_s,
            rw (less_one (s.ref n) some_ref bounded, update_self s.ref n (s.ref n - 1), more) refl,
            rw e (record {
              queue = recount (update s.ref n (s.ref n - 1)) m.queue;
              counted = λ b x hb i. ground (arith, m.counted b x hb i);
              queued = λ x c. m.queued x (ground arith);
            }),
            refl,
            refl,
          )
    ]
  where
    counted_s : Sched
    counted_s = record s { ref = update s.ref n (s.ref n - 1) }

    low : s.nodes.bias n < 32
    low = (m.queued n some_ref).0

    distinct : Distinct (xs ++ n ∷ ys)
    distinct = subst Distinct place (m.queue.buckets.rings (s.nodes.bias n) low).distinct.1

    still_counted :
        (b x : ℕ)
        → b < 32
        → x ∈ update ready (s.nodes.bias n) (xs ++ ys) b
        → 0 < update s.ref n (s.ref n - 1) x
    still_counted b x hb i = elim (ℕ_discrete x n) [
      | yes e ↦
          let (_, o, o') = Distinct-middle xs n ys distinct in
          elim (ℕ_discrete b (s.nodes.bias n)) [
            | yes e' ↦ absurd (ground (arith, e, e', o, o', has-append n xs ys))
            | no ne ↦ absurd (ground (arith, e, ne, i, m.queue.buckets.biases b n hb))
          ]
      | no ne ↦ elim (ℕ_discrete b (s.nodes.bias n)) [
        | yes e' ↦
            let old : x ∈ ready (s.nodes.bias n) =
              rw place (ground (arith, i, e', has-append x xs ys, has-append x xs (n ∷ ys))) in
            ground (arith, ne, m.counted (s.nodes.bias n) x low old)
        | no ne' ↦ ground (arith, ne, ne', i, m.counted b x hb)
      ]
    ]

    still_queued :
        (s.ref n == 1) ≡ true
        → (x : ℕ) → 0 < update s.ref n (s.ref n - 1) x
        → (s.nodes.bias x < 32) × (x ∈ update ready (s.nodes.bias n) (xs ++ ys) (s.nodes.bias x))
    still_queued one x c = elim (ℕ_discrete x n) [
      | yes e ↦ absurd (ground (arith, e, c, one))
      | no ne ↦
          let (small, i) = m.queued x (ground arith) in
          (
            small,
            elim (ℕ_discrete (s.nodes.bias x) (s.nodes.bias n)) [
              | yes e' ↦
                  let old : x ∈ xs ++ n ∷ ys =
                    subst (λ l. x ∈ l) place (subst (λ b. x ∈ ready b) e' i) in
                  rw (e', ==_refl (s.nodes.bias n))
                    (ground (arith, ne, old, has-append x xs ys, has-append x xs (n ∷ ys)))
              | no ne' ↦ rw (==_ne (s.nodes.bias x) (s.nodes.bias n) ne') i
            ],
          )
    ]
