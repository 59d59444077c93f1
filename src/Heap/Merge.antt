-- ===== src/Heap/Merge.antt =====
-- The four branches of `heap_free` of source/heap.c, as writes to the fields of the blocks.
use neon_eds.Common.{ℕ, ◌+◌, ◌<◌, ◌≤◌, ◌^◌, ◌≡◌, true, false, ◌==◌, arith, refl, neg32, add32}
use neon_eds.Heap.{Blocks, set_size, merge_prev, merge_next, merge_both, add_free}
use neon_eds.Heap.Invariant.{block_after_lem}
use neon_eds.Heap.Coalesce.{IsMerged}

-- Block `c` of `n` bytes, which is marked as free.
abbrev pub freed : Blocks → ℕ → Blocks
freed h c = set_size h c (neg32 (h.size c))

module _ (h : Blocks) (s c n : ℕ) (used : h.size c ≡ neg32 n) (some_bytes : 16 ≤ n) where
  size-freed : n < 2 ^ 31 → neg32 (h.size c) ≡ n
  size-freed small = omega (arith, used, small, some_bytes)

  pub add_free-IsMerged :
      n < 2 ^ 31 → h.prev (c + 16 + n) ≡ c → IsMerged h (add_free (freed h c) s c) c n
  unfolding add_free
  add_free-IsMerged small end = rw (size-freed small) (record {
    size_at = ground arith;
    prev_at = refl;
    prev_end = end;
    below = λ x lt. (refl, ground (arith, lt));
    beyond = λ x lt. refl;
    behind = λ x le. ground (arith, le);
  })

  -- With a free block of `m` bytes before it.
  module _ (p m : ℕ) (adjacent : p + 16 + m ≡ c) (link : h.prev c ≡ p) (before : h.size p ≡ m)
      (total : m + n + 48 < 2 ^ 31) where
    pub merge_prev-IsMerged : IsMerged h (merge_prev (freed h c) c (c + 16 + n)) p (m + n + 16)
    unfolding merge_prev
    merge_prev-IsMerged =
        let other : (p == c) ≡ false = ground (arith, adjacent) in
        let self : (p == p) ≡ true = ground arith in
        let here : (c == c) ≡ true = ground arith in
        rw (size-freed (omega (arith, total)), link, other, self, here, before)
          (record {
            size_at = ground (arith, total);
            prev_at = ground (arith, adjacent, total);
            prev_end = ground (arith, adjacent, total);
            below = λ x lt. (ground (arith, lt, adjacent), ground (arith, lt, adjacent));
            beyond = λ x lt. ground (arith, lt, adjacent);
            behind = λ x le. ground (arith, le, adjacent);
          })

    -- And one of `q` bytes behind it.
    pub merge_both-IsMerged :
        (q : ℕ)
        → h.size (c + 16 + n) ≡ q
        → m + n + q + 80 < 2 ^ 31
        → c + 16 + n + 16 + q < 2 ^ 64
        → IsMerged h (merge_both (freed h c) c (c + 16 + n)) p (m + n + q + 32)
    unfolding merge_both
    merge_both-IsMerged q after bytes space =
        let other : (p == c) ≡ false = ground (arith, adjacent) in
        let self : (p == p) ≡ true = ground arith in
        let here : (c == c) ≡ true = ground arith in
        let away : (c + 16 + n == c) ≡ false = ground arith in
        let first : add32 m (add32 n q) ≡ m + n + q = omega (arith, bytes) in
        let all : add32 (m + n + q) 32 ≡ m + n + q + 32 = omega (arith, bytes) in
        let end =
          block_after_lem p (m + n + q + 32) (omega (arith, bytes))
            (omega (arith, adjacent, space)) in
        rw
          (
            size-freed (omega (arith, total)),
            link,
            other,
            self,
            here,
            away,
            before,
            after,
            first,
            all,
            end,
          )
          (record {
            size_at = ground arith;
            prev_at = ground (arith, adjacent, total);
            prev_end = ground (arith, adjacent, total);
            below = λ x lt. (ground (arith, lt, adjacent), ground (arith, lt, adjacent));
            beyond = λ x lt. ground (arith, lt, adjacent);
            behind = λ x le. ground (arith, le, adjacent);
          })

  -- With a free block of `m` bytes behind it.
  pub merge_next-IsMerged :
      (m : ℕ)
      → h.size (c + 16 + n) ≡ m
      → n + m + 48 < 2 ^ 31
      → c + 16 + n + 16 + m < 2 ^ 64
      → IsMerged h (merge_next (freed h c) c (c + 16 + n)) c (n + m + 16)
  unfolding merge_next
  merge_next-IsMerged m after total space =
      let here : (c == c) ≡ true = ground arith in
      let away : (c + 16 + n == c) ≡ false = ground arith in
      let first : add32 n m ≡ n + m = omega (arith, total) in
      let all : add32 (n + m) 16 ≡ n + m + 16 = omega (arith, total) in
      let end = block_after_lem c (n + m + 16) (omega (arith, total)) (omega (arith, space)) in
      rw (size-freed (omega (arith, total)), here, away, after, first, all, end)
        (record {
          size_at = ground arith;
          prev_at = ground (arith, total);
          prev_end = ground (arith, total);
          below = λ x lt. (ground (arith, lt), ground (arith, lt));
          beyond = λ x lt. ground (arith, lt);
          behind = λ x le. ground (arith, le);
        })
