-- ===== src/Sched/RunQueue/Remove.antt =====
-- `prio_queue_remove` takes a thread off the list of its priority.
use neon_eds.Common.{
  ℕ, ◌<◌, ◌≡◌, ◌≢◌, List, [], ◌∷◌, ◌++◌, ◌∈◌, ◌∉◌, has-append, if◌then◌else◌, update, arith, Bool,
  false, ◌^◌, ◌%◌, Bool-cases, inl, inr, refl, subst, ◌==◌, ==_refl, ==_ne, sym, Distinct-middle,
}
use native.Mathlib.Decide.{ℕ_discrete}
use Prim.Native.Nat.{bit_and}
use neon_eds.Common.Bits.{testbit, testbit-bit_and, testbit-low, testbit-bound}
use neon_eds.Port.Exp.{testbit-complement_exp2}
use neon_eds.Port.{ncore_exp2, complement}
use neon_eds.Base.Dlist.{ndlist_remove}
use neon_eds.Base.Dlist.Ring.{Ring, is_nil}
use neon_eds.Base.Dlist.Chain.{prev-mem, next-mem, Chain-split}
use neon_eds.Base.Dlist.Remove.{remove-Ring}
use neon_eds.Base.Dlist.Frame.{remove-other}
use neon_eds.Base.BiasList.{BiasNodes, nbias_list_is_empty, nbias_list_remove, nbias_list_get_bias}
use neon_eds.Sched.{Sched, sentinel, prio_queue_remove, bitmap_clear}
use neon_eds.Sched.RunQueue.{
  Buckets, RunQueue, Fresh, bucket-outside, thread-outside, bucket_is_empty,
}

module _ (v : Bool) (h : BiasNodes) (ready : ℕ → List ℕ) (b n : ℕ) (xs ys : List ℕ) (hb : b < 32)
    (q : Buckets h ready) (place : ready b ≡ xs ++ n ∷ ys) where
  bucket-Ring : Ring h.list (sentinel b) (xs ++ n ∷ ys)
  bucket-Ring = subst (λ l. Ring h.list (sentinel b) l) place (q.rings b hb)

  pub member : n ∈ ready b
  member = rw place (ground (arith, has-append n xs (n ∷ ys)))

  neighbour :
      (x : ℕ)
      → x ∈ sentinel b ∷ (xs ++ n ∷ ys)
      → (c : ℕ) → c < 32
      → b ≢ c
      → x ∉ sentinel c ∷ ready c
  neighbour x m c hc ne = bucket-outside q b c x hb hc ne (rw place m)

  remove-rings :
      (c : ℕ) → c < 32 → Ring (ndlist_remove v h.list n) (sentinel c) (update ready b (xs ++ ys) c)
  remove-rings c hc = elim (ℕ_discrete c b) [
    | yes e ↦ rw (e, ==_refl b) (remove-Ring v h.list (sentinel b) n xs ys bucket-Ring)
    | no ne ↦
        let apart : b ≢ c = λ e. ne (sym e) in
        let (before, after) =
          Chain-split h.list (sentinel b) xs n ys (sentinel b) bucket-Ring.chain in
        let p = prev-mem h.list (sentinel b) xs n before in
        let m = next-mem h.list n ys (sentinel b) after in
        rw (==_ne c b ne) (
          remove-other h.list (sentinel c) (ready c) (q.rings c hc) v n
            (thread-outside q b c n hb hc apart member)
            (neighbour (h.list.prev n) (ground (arith, p, has-append (h.list.prev n) xs (n ∷ ys))) c
              hc apart)
            (neighbour (h.list.next n)
              (ground (
                arith,
                m,
                has-append (h.list.next n) xs (n ∷ ys),
                has-append (h.list.next n) ys (sentinel b ∷ []),
              ))
              c hc apart))
  ]

  kept : (c x : ℕ) → x ∈ update ready b (xs ++ ys) c → x ∈ ready c
  kept c x m = elim (ℕ_discrete c b) [
    | yes e ↦ rw (e, place) (ground (arith, e, m, has-append x xs (n ∷ ys), has-append x xs ys))
    | no ne ↦ ground arith
  ]

  pub remove-Buckets : Buckets (nbias_list_remove v h n) (update ready b (xs ++ ys))
  unfolding nbias_list_remove
  remove-Buckets = record {
    rings = remove-rings;
    biases = λ c x hc m. q.biases c x hc (kept c x m);
    threads = λ c x hc m. q.threads c x hc (kept c x m);
  }

  pub removed-Fresh : Fresh n (update ready b (xs ++ ys))
  removed-Fresh = (q.threads b n hb member, outside)
    where
      outside : (c : ℕ) → c < 32 → n ∉ update ready b (xs ++ ys) c
      outside c hc = elim (ℕ_discrete c b) [
        | yes e ↦
            let (_, o, o') = Distinct-middle xs n ys bucket-Ring.distinct.1 in
            ground (arith, e, o, o', has-append n xs ys)
        | no ne ↦ ground (arith, thread-outside q b c n hb hc (λ e. ne (sym e)) member)
      ]

-- The bitmap after `bitmap_clear`.
clear-bits :
    (b c x : ℕ)
    → c < 32
    → testbit c (bit_and x (complement (ncore_exp2 b)) % 2 ^ 32)
      ≡ (if c == b then 0 else testbit c x)
clear-bits b c x h = ground (
  arith,
  testbit-low 32 c (bit_and x (complement (ncore_exp2 b))) h,
  testbit-bit_and c x (complement (ncore_exp2 b)),
  testbit-complement_exp2 c b h,
  testbit-bound c x,
)

pub is_nil-member : (l xs : List ℕ) (n : ℕ) (ys : List ℕ) → l ≡ xs ++ n ∷ ys → is_nil l ≡ false
is_nil-member l xs n ys e = rw e (is_nil-middle xs)
  where
    is_nil-middle : (xs : List ℕ) → is_nil (xs ++ n ∷ ys) ≡ false
    is_nil-middle [] = refl
    is_nil-middle (x ∷ xs) = refl

pub prio_queue_remove-RunQueue :
    (v : Bool) (s : Sched) (ready : ℕ → List ℕ) (b n : ℕ) (xs ys : List ℕ)
    → RunQueue s ready
    → b < 32
    → ready b ≡ xs ++ n ∷ ys
    → RunQueue (prio_queue_remove v s n) (update ready b (xs ++ ys))
unfolding prio_queue_remove nbias_list_get_bias bitmap_clear
prio_queue_remove-RunQueue v s ready b n xs ys q hb place =
    let buckets = remove-Buckets v s.nodes ready b n xs ys hb q.buckets place in
    let e : s.nodes.bias n ≡ b =
      q.buckets.biases b n hb (member v s.nodes ready b n xs ys hb q.buckets place) in
    let empty : nbias_list_is_empty (nbias_list_remove v s.nodes n) (sentinel b)
        ≡ is_nil (xs ++ ys) =
      rw (bucket_is_empty buckets b hb, ==_refl b) refl in
    let some_before = is_nil-member (ready b) xs n ys place in
    elim (Bool-cases (is_nil (xs ++ ys))) [
      | inl h ↦
          rw (e, empty, h)
            (record {
              buckets = buckets;
              bits = λ c hc. ground (arith, clear-bits b c s.bit hc, q.bits c hc, h);
              word = omega arith;
            })
      | inr h ↦
          rw (e, empty, h)
            (record {
              buckets = buckets;
              bits = λ c hc. ground (arith, q.bits c hc, some_before, h);
              word = q.word;
            })
    ]
