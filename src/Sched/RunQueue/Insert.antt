-- ===== src/Sched/RunQueue/Insert.antt =====
-- `prio_queue_insert` appends a thread to the list of its priority.
use neon_eds.Common.{
  ℕ, ◌<◌, ◌≡◌, ◌≢◌, List, [], ◌∷◌, ◌++◌, ◌∈◌, ◌∉◌, has-append, if◌then◌else◌, update, arith, false,
  ◌^◌, ◌%◌, Bool-cases, inl, inr, refl, append-nil, ◌==◌, ==_refl, ==_ne, sym,
}
use native.Mathlib.Decide.{ℕ_discrete}
use Prim.Native.Nat.{bit_or}
use neon_eds.Common.Bits.{testbit, testbit-bit_or, testbit-low, testbit-bound}
use neon_eds.Port.Exp.{testbit-ncore_exp2}
use neon_eds.Port.{ncore_exp2}
use neon_eds.Base.Dlist.{ndlist_add_before}
use neon_eds.Base.Dlist.Ring.{Ring, is_nil}
use neon_eds.Base.Dlist.Chain.{prev-mem}
use neon_eds.Base.Dlist.Insert.{add_before-Ring}
use neon_eds.Base.Dlist.Frame.{add_before-other}
use neon_eds.Base.BiasList.{BiasNodes, nbias_list_fifo_insert, nbias_list_get_bias}
use neon_eds.Sched.{Sched, sentinel, prio_queue_insert, bitmap_set}
use neon_eds.Sched.RunQueue.{
  Buckets, RunQueue, Fresh, bucket-outside, fresh-outside, bucket_is_empty,
}

abbrev pub appended : (ℕ → List ℕ) → ℕ → ℕ → ℕ → List ℕ
appended ready b n = update ready b (ready b ++ n ∷ [])

pub fifo_insert-Buckets :
    (h : BiasNodes) (ready : ℕ → List ℕ) (b n : ℕ)
    → b < 32
    → Buckets h ready
    → Fresh n ready
    → h.bias n ≡ b
    → Buckets (nbias_list_fifo_insert h (sentinel b) n) (appended ready b n)
unfolding nbias_list_fifo_insert
fifo_insert-Buckets h ready b n hb q f e = record {
  rings = rings;
  biases = biases;
  threads = threads;
}
  where
    ring_at : Ring (ndlist_add_before h.list (sentinel b) n) (sentinel b) (ready b ++ n ∷ [])
    ring_at =
        add_before-Ring h.list (sentinel b) n (ready b) [] (rw append-nil (q.rings b hb))
          (rw append-nil (fresh-outside q n b f hb))

    prev-outside : (c : ℕ) → c < 32 → b ≢ c → h.list.prev (sentinel b) ∉ sentinel c ∷ ready c
    prev-outside c hc ne =
        bucket-outside q b c _ hb hc ne
          (prev-mem h.list (sentinel b) (ready b) (sentinel b) (q.rings b hb).chain)

    rings :
        (c : ℕ)
        → c < 32
        → Ring (ndlist_add_before h.list (sentinel b) n) (sentinel c) (appended ready b n c)
    rings c hc = elim (ℕ_discrete c b) [
      | yes e ↦ rw (e, ==_refl b) ring_at
      | no ne ↦ rw (==_ne c b ne) (
          add_before-other h.list (sentinel c) (ready c) (q.rings c hc) (sentinel b) n
            (omega (arith, f.0))
            (bucket-outside q b c (sentinel b) hb hc (λ e. ne (sym e)) (ground arith))
            (prev-outside c hc (λ e. ne (sym e))) (fresh-outside q n c f hc))
    ]

    biases : (c x : ℕ) → c < 32 → x ∈ appended ready b n c → h.bias x ≡ c
    biases c x hc m = ground (arith, has-append x (ready b) (n ∷ []), q.biases c x hc, m, e)

    threads : (c x : ℕ) → c < 32 → x ∈ appended ready b n c → 32 < x
    threads c x hc m = ground (arith, has-append x (ready b) (n ∷ []), q.threads c x hc, m, f.0)

pub is_nil-appended : (xs : List ℕ) (n : ℕ) → is_nil (xs ++ n ∷ []) ≡ false
is_nil-appended [] n = refl
is_nil-appended (x ∷ xs) n = refl

-- The bitmap after `bitmap_set`.
set-bits :
    (b c x : ℕ)
    → c < 32
    → testbit c (bit_or x (ncore_exp2 b) % 2 ^ 32) ≡ (if c == b then 1 else testbit c x)
set-bits b c x h = ground (
  arith,
  testbit-low 32 c (bit_or x (ncore_exp2 b)) h,
  testbit-bit_or c x (ncore_exp2 b),
  testbit-ncore_exp2 c b h,
  testbit-bound c x,
)

pub prio_queue_insert-RunQueue :
    (s : Sched) (ready : ℕ → List ℕ) (n b : ℕ)
    → RunQueue s ready
    → Fresh n ready
    → s.nodes.bias n ≡ b
    → b < 32
    → RunQueue (prio_queue_insert s n) (appended ready b n)
unfolding prio_queue_insert nbias_list_get_bias bitmap_set
prio_queue_insert-RunQueue s ready n b q f e hb =
    let buckets = fifo_insert-Buckets s.nodes ready b n hb q.buckets f e in
    let empty = bucket_is_empty q.buckets b hb in
    elim (Bool-cases (is_nil (ready b))) [
      | inl h ↦
          rw (e, empty, h)
            (record {
              buckets = buckets;
              bits = λ c hc.
                  ground (arith, set-bits b c s.bit hc, q.bits c hc, is_nil-appended (ready b) n);
              word = omega arith;
            })
      | inr h ↦
          rw (e, empty, h)
            (record {
              buckets = buckets;
              bits = λ c hc. ground (arith, q.bits c hc, is_nil-appended (ready b) n, h);
              word = q.word;
            })
    ]
