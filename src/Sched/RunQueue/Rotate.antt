-- ===== src/Sched/RunQueue/Rotate.antt =====
-- `prio_queue_rotate` moves a thread to the end of the list of its priority.
use neon_eds.Common.{ℕ, ◌<◌, ◌≡◌, List, [], ◌∷◌, ◌++◌, if◌then◌else◌, update, arith, Bool, ==_refl}
use neon_eds.Common.Bits.{testbit}
use neon_eds.Base.Dlist.Ring.{is_nil}
use neon_eds.Base.BiasList.{nbias_list_remove, nbias_list_get_bias}
use neon_eds.Sched.{Sched, prio_queue_rotate}
use neon_eds.Sched.RunQueue.{RunQueue, same_ready}
use neon_eds.Sched.RunQueue.Insert.{fifo_insert-Buckets, appended, is_nil-appended}
use neon_eds.Sched.RunQueue.Remove.{remove-Buckets, removed-Fresh, member, is_nil-member}

pub prio_queue_rotate-RunQueue :
    (v : Bool) (s : Sched) (ready : ℕ → List ℕ) (b n : ℕ) (xs ys : List ℕ)
    → RunQueue s ready
    → b < 32
    → ready b ≡ xs ++ n ∷ ys
    → RunQueue (prio_queue_rotate v s n) (update ready b ((xs ++ ys) ++ n ∷ []))
unfolding prio_queue_rotate nbias_list_get_bias nbias_list_remove
prio_queue_rotate-RunQueue v s ready b n xs ys q hb place =
    let buckets = remove-Buckets v s.nodes ready b n xs ys hb q.buckets place in
    let fresh = removed-Fresh v s.nodes ready b n xs ys hb q.buckets place in
    let e : s.nodes.bias n ≡ b =
      q.buckets.biases b n hb (member v s.nodes ready b n xs ys hb q.buckets place) in
    same_ready twice (
      rw e (record {
        buckets =
            fifo_insert-Buckets (nbias_list_remove v s.nodes n) (update ready b (xs ++ ys)) b n hb
              buckets fresh e;
        bits = λ c hc. still c hc;
        word = q.word;
      }))
  where
    twice :
        (c : ℕ)
        → appended (update ready b (xs ++ ys)) b n c ≡ update ready b ((xs ++ ys) ++ n ∷ []) c
    twice c = ground (arith, ==_refl b)

    still :
        (c : ℕ)
        → c < 32
        → testbit c s.bit ≡ (if is_nil (appended (update ready b (xs ++ ys)) b n c) then 0 else 1)
    still c hc = ground (
      arith,
      q.bits c hc,
      is_nil-member (ready b) xs n ys place,
      is_nil-appended (update ready b (xs ++ ys) b) n,
    )
