-- ===== src/Heap/Free.antt =====
-- `heap_free` of source/heap.c.
use neon_eds.Common.{
  ℕ, ◌+◌, ◌-◌, ◌^◌, ◌%◌, ◌≡◌, ◌≢◌, List, ◌∷◌, ◌++◌, Bool, true, false, ◌==◌, arith, refl, ap,
  if◌then◌else◌, neg32, is_positive, is_negative, Bool-cases, inl, inr, done, ◌&&◌,
}
use neon_eds.Sched.{check}
use neon_eds.Heap.{
  Blocks, Heap, free_block, heap_free, merge_prev, merge_next, merge_both, add_free,
  nsignature_heap,
}
use neon_eds.Heap.Layout.{Block, used_of, span}
use neon_eds.Heap.Invariant.{IsHeap, block_after_lem}
use neon_eds.Heap.Merge.{freed}
use neon_eds.Heap.Freed.{Freed, add_free-Freed, merge_prev-Freed}
use neon_eds.Heap.Joined.{merge_next-Freed, merge_both-Freed}
use neon_eds.Heap.Neighbours.{used_block, before, behind}

module _ (h : Blocks) (base s : ℕ) (xs : List Block) (n : ℕ) (ys : List Block) (fs : List ℕ)
    (w : IsHeap h base s (xs ++ used_of n ∷ ys) fs) where
  c : ℕ
  c = base + span xs

  tmp : ℕ
  tmp = c + 16 + n

  -- The branch that the marks of the neighbours choose.
  free_block-branch :
      h.prev c ≢ c
      → free_block h s (c + 16) ≡ (
          if is_positive (h.size (h.prev c)) && is_negative (h.size tmp)
          then merge_prev (freed h c) c tmp
          else if is_negative (h.size (h.prev c)) && is_positive (h.size tmp)
          then merge_next (freed h c) c tmp
          else if is_positive (h.size (h.prev c)) && is_positive (h.size tmp)
          then merge_both (freed h c) c tmp
          else add_free (freed h c) s c)
  unfolding free_block tmp c
  free_block-branch ne =
      let u = used_block h base s xs n ys fs w in
      let at : (c + 16 + 2 ^ 64 - 16) % 2 ^ 64 ≡ c = omega (arith, u.end, w.space) in
      let self : (c == c) ≡ true = ground arith in
      let bytes : neg32 (h.size c) ≡ n = omega (arith, u.size, u.total) in
      let end = block_after_lem c n (omega (arith, u.total)) (omega (arith, u.end, w.space)) in
      let away : (c + 16 + n == c) ≡ false = ground arith in
      let other : (h.prev c == c) ≡ false = ground (arith, ne) in
      rw (at, self, bytes, end, away, other) refl

pub free_block-Freed :
    (h : Blocks) (base s : ℕ) (xs : List Block) (n : ℕ) (ys : List Block) (fs : List ℕ)
    → IsHeap h base s (xs ++ used_of n ∷ ys) fs
    → Freed (free_block h s (base + span xs + 16)) base s xs n ys
unfolding c tmp
free_block-Freed h base s xs n ys fs w =
    let small = (used_block h base s xs n ys fs w).total in
    elim (before h base s xs n ys fs w) [
      | inl (init, m, b) ↦
          let apart : h.prev (base + span xs) ≢ base + span xs =
            omega (arith, b.link, b.adjacent) in
          let free : is_positive (h.size (h.prev (base + span xs))) ≡ true =
            ground (arith, ap h.size b.link, b.size, b.some_bytes, b.adjacent, small) in
          let not_used : is_negative (h.size (h.prev (base + span xs))) ≡ false =
            ground (arith, free) in
          elim (behind h base s xs n ys fs w) [
            | inl (q, rest, a) ↦
                let next_free : is_positive (h.size (base + span xs + 16 + n)) ≡ true =
                  ground (arith, a.size, a.some_bytes, small, ap span a.row) in
                let next_not : is_negative (h.size (base + span xs + 16 + n)) ≡ false =
                  ground (arith, next_free) in
                rw
                  (
                    free_block-branch h base s xs n ys fs w apart,
                    free,
                    not_used,
                    next_free,
                    next_not,
                  )
                  (merge_both-Freed h base s xs n ys fs w init m b q rest a)
            | inr u ↦
                let next_used : is_negative (h.size (base + span xs + 16 + n)) ≡ true =
                  ground (arith, u.negative) in
                rw (free_block-branch h base s xs n ys fs w apart, free, next_used)
                  (merge_prev-Freed h base s xs n ys fs w init m b u.opened)
          ]
      | inr b ↦
          let used : is_negative (h.size (h.prev (base + span xs))) ≡ true =
            ground (arith, b.negative) in
          let not_free : is_positive (h.size (h.prev (base + span xs))) ≡ false =
            ground (arith, b.negative) in
          elim (behind h base s xs n ys fs w) [
            | inl (q, rest, a) ↦
                let next_free : is_positive (h.size (base + span xs + 16 + n)) ≡ true =
                  ground (arith, a.size, a.some_bytes, small, ap span a.row) in
                rw (free_block-branch h base s xs n ys fs w b.other, used, not_free, next_free)
                  (merge_next-Freed h base s xs n ys fs w q rest a b.closed)
            | inr u ↦
                let next_not : is_positive (h.size (base + span xs + 16 + n)) ≡ false =
                  ground (arith, u.negative) in
                rw (free_block-branch h base s xs n ys fs w b.other, used, not_free, next_not)
                  (add_free-Freed h base s xs n ys fs w b.closed u.opened)
          ]
    ]

-- Giving a used block back keeps the blocks tiled and the list that of the free ones, leaves the
-- other used blocks as they are, and leaves no two free blocks next to each other if there were
-- none before.
pub heap_free-IsHeap :
    (validation : Bool) (st : Heap) (base : ℕ) (xs : List Block) (n : ℕ) (ys : List Block)
    (fs : List ℕ)
    → IsHeap st.blocks base st.base (xs ++ used_of n ∷ ys) fs
    → st.signature ≡ nsignature_heap
    → (g : Blocks) × (heap_free validation st (base + span xs + 16)
        ≡ done (record st { blocks = g }))
      × Freed g base st.base xs n ys
unfolding heap_free check
heap_free-IsHeap validation st base xs n ys fs w signed =
    let sign : (st.signature == nsignature_heap) ≡ true = ground (arith, signed) in
    let some_mem : (base + span xs + 16 == 0) ≡ false = ground arith in
    (
      free_block st.blocks st.base (base + span xs + 16),
      elim (Bool-cases validation) [
        | inl on ↦ rw (on, sign, some_mem) refl
        | inr off ↦ rw off refl
      ],
      free_block-Freed st.blocks base st.base xs n ys fs w,
    )
