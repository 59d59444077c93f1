-- ===== src/Sched/Schedule.antt =====
-- What `sched_schedule_i` of source/sched.c chooses.
use neon_eds.Common.{
  ℕ, zero, suc, ◌+◌, ◌<◌, ◌≤◌, ◌^◌, ◌≡◌, List, [], ◌∷◌, ◌++◌, update, arith, Bool, true, false,
  refl, ap, some, Bool-cases, inl, inr, ltb, ◌==◌, ◌∙◌,
}
use native.Mathlib.Nat.{pow-le-pow_right, one-le-pow}
use neon_eds.Common.Bits.{testbit, testbit-top, testbit-above}
use neon_eds.Port.Log.{ncore_log2-Log2}
use neon_eds.Base.Dlist.{ndlist_next}
use neon_eds.Base.Dlist.Ring.{is_nil, next-front, front}
use neon_eds.Base.BiasList.{nbias_list_next}
use neon_eds.Sched.{
  Sched, sentinel, bitmap_get_highest, peek_bucket, prio_queue_peek, prio_queue_rotate,
  schedule_node, sched_schedule_i,
}
use neon_eds.Sched.RunQueue.{RunQueue}
use neon_eds.Sched.RunQueue.Rotate.{prio_queue_rotate-RunQueue}

-- Bucket `b` is the highest one that holds a thread, and the table of the port can tell it.
pub record Highest (ready : ℕ → List ℕ) (b : ℕ) : Type 0 where
  pub below : b < 16
  pub inhabited : is_nil (ready b) ≡ false
  pub top : (c : ℕ) → b < c → c < 32 → is_nil (ready c) ≡ true

-- A number whose bits from `k` on are zero is under `2 ^ k`.
no_high_bits :
    (d k x : ℕ) → x < 2 ^ (k + d) → ((i : ℕ) → k ≤ i → i < k + d → testbit i x ≡ 0) → x < 2 ^ k
no_high_bits zero k x h z = ground arith
no_high_bits (suc d) k x h z =
    no_high_bits d k x
      (elim (Bool-cases (ltb x (2 ^ (k + d)))) [
        | inl e ↦ ground arith
        | inr e ↦
            let step : k + suc d ≡ suc (k + d) = omega arith in
            let bound : x < 2 ^ suc (k + d) = rw (← step) h in
            absurd (
              omega (
                arith,
                z (k + d) (omega arith) (omega arith),
                testbit-top (k + d) x (ground arith) bound,
              ))
      ])
      (λ i lo hi. z i lo (omega arith))

module _ (s : Sched) (ready : ℕ → List ℕ) (b : ℕ) (q : RunQueue s ready)
    (high : Highest ready b) where
  word_bound : s.bit < 2 ^ 16
  word_bound = no_high_bits 16 16 s.bit q.word (λ i lo hi.
      ground (arith, q.bits i (omega arith), high.top i (omega (arith, high.below)) (omega arith)))

  bit_set : testbit b s.bit ≡ 1
  bit_set = ground (arith, q.bits b (omega (arith, high.below)), high.inhabited)

  word_positive : 0 < s.bit
  word_positive = elim (Bool-cases (s.bit == 0)) [
    | inl e ↦
        let zero_word : s.bit ≡ 0 = ground arith in
        let b0 : testbit b s.bit ≡ 0 =
          testbit-above b s.bit (omega (arith, zero_word, one-le-pow b 2)) in
        absurd (omega (arith, bit_set, b0))
    | inr e ↦ ground arith
  ]

  pub bitmap_get_highest-Highest : bitmap_get_highest s ≡ some b
  unfolding bitmap_get_highest
  bitmap_get_highest-Highest =
      let (p, run, small, (lo, hi)) = ncore_log2-Log2 s.bit word_bound word_positive in
      run ∙ ap some (unique p small lo hi)
    where
      unique : (p : ℕ) → p < 16 → 2 ^ p ≤ s.bit → s.bit < 2 ^ suc p → p ≡ b
      unique p small lo hi =
          let at_p = testbit-top p s.bit lo hi in
          elim (Bool-cases (ltb p b)) [
            | inl e ↦
                let le =
                  pow-le-pow_right {n = 2} (omega arith) {i = suc p} {j = b} (ground arith) in
                let b0 = testbit-above b s.bit (omega arith) in absurd (omega (arith, bit_set, b0))
            | inr e ↦ elim (Bool-cases (ltb b p)) [
              | inl e' ↦ absurd (
                  ground
                    (arith, q.bits p (omega arith), high.top p (ground arith) (omega arith), at_p))
              | inr e' ↦ ground arith
            ]
          ]

  pub prio_queue_peek-Highest :
      (x : ℕ) (xs : List ℕ) → ready b ≡ x ∷ xs → prio_queue_peek s ≡ some x
  unfolding prio_queue_peek peek_bucket nbias_list_next ndlist_next
  prio_queue_peek-Highest x xs e =
      let r = q.buckets.rings b (omega (arith, high.below)) in
      rw bitmap_get_highest-Highest (
        ap some (
          next-front s.nodes.list (sentinel b) (ready b) (sentinel b) r.chain
          ∙ ap (front (sentinel b)) e))

-- Where the highest priority with a ready thread is under 16, `sched_schedule_i` returns its first
-- thread, makes it the current one, and moves it behind the others of its priority.
pub sched_schedule_i-Highest :
    (v : Bool) (s : Sched) (ready : ℕ → List ℕ) (b x : ℕ) (xs : List ℕ)
    → RunQueue s ready
    → Highest ready b
    → ready b ≡ x ∷ xs
    → (s' : Sched) × (sched_schedule_i v s ≡ some (x, s'))
      × RunQueue s' (update ready b (xs ++ x ∷ []))
      × (s'.current ≡ x)
unfolding sched_schedule_i schedule_node prio_queue_rotate
sched_schedule_i-Highest v s ready b x xs q high e = (
  prio_queue_rotate v (record s { current = x }) x,
  rw (prio_queue_peek-Highest s ready b q high x xs e) refl,
  prio_queue_rotate-RunQueue v (record s { current = x }) ready b x [] xs
      (record { buckets = q.buckets; bits = q.bits; word = q.word }) (omega (arith, high.below)) e,
  refl,
)
