-- ===== src/Heap/Alloc.antt =====
-- `heap_alloc` of source/heap.c.
use neon_eds.Common.{
  ℕ, ◌+◌, ◌-◌, ◌<◌, ◌≤◌, ◌^◌, ◌%◌, ◌≡◌, ◌≢◌, ◌⊎◌, List, ◌∷◌, ◌++◌, ◌∈◌, has, has-append, length,
  Bool, true, false, ◌==◌, arith, refl, ap, ◌∙◌, sym, Bool-cases, inl, inr, if◌then◌else◌, done,
  asserted, int32_lt, subst, ltb,
}
use neon_eds.Sched.{check}
use neon_eds.Base.Bitop.{nalign_up, nalign_up-least}
use neon_eds.Base.Dlist.{null}
use neon_eds.Base.Dlist.Ring.{next-front}
use neon_eds.Heap.{Blocks, Heap, take_block, alloc_loop, heap_alloc, nsignature_heap, int32_max}
use neon_eds.Heap.Layout.{Block, free_of, used_of, span, used_at, used_at-append}
use neon_eds.Heap.Settled.{is_settled, is_settled-append}
use neon_eds.Heap.Invariant.{IsHeap, IsFree, find_free, find_listed}
use neon_eds.Heap.Split.{split_block-IsHeap}
use neon_eds.Heap.Taken.{take_whole-IsHeap}
use neon_eds.Heap.Search.{FirstFit, alloc_loop-FirstFit}

-- The state `g` after an allocation of `size` bytes at `c`: one more block is used, and nothing else changes.
pub record Allocated (g : Blocks) (base s : ℕ) (bs : List Block) (c size : ℕ) : Type 0 where
  pub blocks : List Block
  pub frees : List ℕ
  pub state : IsHeap g base s blocks frees
  pub before : List (ℕ × ℕ)
  pub after : List (ℕ × ℕ)
  pub bytes : ℕ
  pub enough : size ≤ bytes
  pub old : used_at base bs ≡ before ++ after
  pub held : used_at base blocks ≡ before ++ (c, bytes) ∷ after
  pub settled : is_settled bs ≡ true → is_settled blocks ≡ true

module _ (h : Blocks) (base s : ℕ) (bs : List Block) (fs : List ℕ) (w : IsHeap h base s bs fs)
    (c : ℕ) (xs : List Block) (n : ℕ) (ys : List Block) (free : IsFree h base s bs c xs n ys)
    (size : ℕ) (room : 16 ≤ size) (fits : size ≤ n) where
  old_used : used_at base bs ≡ used_at base xs ++ used_at (base + span xs + 16 + n) ys
  old_used = ap (used_at base) free.row ∙ used_at-append base xs (free_of n ∷ ys)

  row_state : IsHeap h base s (xs ++ free_of n ∷ ys) fs
  row_state = subst (λ l. IsHeap h base s l fs) free.row w

  pub take_block-Allocated : Allocated (take_block h c size) base s bs c size
  unfolding take_block
  take_block-Allocated =
      let (us, vs, e, found) = find_free h base s xs n ys fs row_state in
      let state = subst (λ l. IsHeap h base s (xs ++ free_of n ∷ ys) l) e row_state in
      let large : h.size (base + span xs) ≡ n = ap h.size (sym free.at) ∙ free.size in
      elim (Bool-cases (int32_lt ((size + 32) % 2 ^ 32) n)) [
        | inl over ↦
            let gap : size + 32 < n = ground (arith, over, fits, free.small) in
            let at : base + span xs + 16 + size + 16 + (n - size - 16) ≡ base + span xs + 16 + n =
              omega (arith, gap) in
            rw (free.at, large, over)
              (record {
                blocks = xs ++ used_of size ∷ free_of (n - size - 16) ∷ ys;
                frees = us ++ (base + span xs + 16 + size) ∷ vs;
                state = split_block-IsHeap h base s xs n ys us vs state found size room gap;
                before = used_at base xs;
                after = used_at (base + span xs + 16 + n) ys;
                bytes = size;
                enough = omega arith;
                old = old_used;
                held =
                    used_at-append base xs (used_of size ∷ free_of (n - size - 16) ∷ ys)
                    ∙ ap (λ a. used_at base xs ++ (base + span xs, size) ∷ used_at a ys) at;
                settled = λ e. ground (
                  arith,
                  sym (ap is_settled free.row) ∙ e,
                  is_settled-append xs (free_of n ∷ ys),
                  is_settled-append xs (used_of size ∷ free_of (n - size - 16) ∷ ys),
                );
              })
        | inr tight ↦
            rw (free.at, large, tight)
              (record {
                blocks = xs ++ used_of n ∷ ys;
                frees = us ++ vs;
                state = take_whole-IsHeap h base s xs n ys us vs state found;
                before = used_at base xs;
                after = used_at (base + span xs + 16 + n) ys;
                bytes = n;
                enough = fits;
                old = old_used;
                held = used_at-append base xs (used_of n ∷ ys);
                settled = λ e. ground (
                  arith,
                  sym (ap is_settled free.row) ∙ e,
                  is_settled-append xs (free_of n ∷ ys),
                  is_settled-append xs (used_of n ∷ ys),
                );
              })
      ]

-- The size that a request of `size` bytes takes.
pub aligned :
    (size : ℕ)
    → size ≢ 0
    → size + 16 ≤ 2 ^ 31
    → (size ≤ nalign_up 64 64 size 16)
      × (16 ≤ nalign_up 64 64 size 16)
      × (nalign_up 64 64 size 16 < 2 ^ 31)
aligned size some_size bound =
    let (whole, least, next) = nalign_up-least 64 4 60 size (omega arith) (omega (arith, bound)) in
    (least, omega (arith, whole, least, some_size), omega (arith, whole, next, bound))

module _ (validation : Bool) (fuel : ℕ) (st : Heap) (base : ℕ) (bs : List Block) (fs : List ℕ)
    (size : ℕ) (w : IsHeap st.blocks base st.base bs fs) (signed : st.signature ≡ nsignature_heap)
    (some_size : size ≢ 0) (bound : size + 16 ≤ 2 ^ 31) (enough : length fs < fuel) where
  sought :
      FirstFit st.blocks
        (nalign_up 64 64 size 16)
        fs
        (alloc_loop fuel st.blocks st.base (nalign_up 64 64 size 16) (st.blocks.free.next st.base))
  sought = rw (next-front st.blocks.free st.base fs st.base w.links.chain) (
      alloc_loop-FirstFit fuel st.blocks st.base (nalign_up 64 64 size 16) st.base fs w.links.chain
        w.links.distinct.0
        (λ x i.
          let (xs, n, ys, f) = find_listed st.blocks base st.base bs fs w x i in
          omega (arith, f.size, f.small))
        (aligned size some_size bound).2 enough)

  -- For a size above 0 and not above 2 ^ 31 - 16, with more fuel than there are free blocks,
  -- heap_alloc either changes nothing, where every free block is smaller than the aligned size,
  -- and returns null or fails its assertion, or hands out memory of at least the aligned size:
  -- the blocks stay tiled, the list stays that of the free ones, the other used blocks stay as
  -- they are, and no two free blocks come to stand next to each other.
  pub heap_alloc-IsHeap :
      (((x : ℕ) → x ∈ fs → st.blocks.size x < nalign_up 64 64 size 16)
        × (heap_alloc validation fuel st size ≡ (if validation then asserted else done (null, st))))
      ⊎ ((c : ℕ) × (g : Blocks) × (heap_alloc validation fuel st size
            ≡ done (c + 16, record st { blocks = g }))
          × Allocated g base st.base bs c (nalign_up 64 64 size 16))
  unfolding heap_alloc check
  heap_alloc-IsHeap =
      let sign : (st.signature == nsignature_heap) ≡ true = ground (arith, signed) in
      let positive : (size == 0) ≡ false = ground (arith, some_size) in
      let below : ltb size int32_max ≡ true = ground (arith, bound) in
      elim sought [
        | inl (none, run) ↦ inl (
          none,
          elim (Bool-cases validation) [
            | inl on ↦ rw (on, sign, positive, below, run) refl
            | inr off ↦ rw (off, run) refl
          ],
        )
        | inr (front, c, back, e, smaller, fits, run) ↦
            let member : c ∈ fs = ap (has c) e ∙ ground (arith, has-append c front (c ∷ back)) in
            let (xs, n, ys, free) = find_listed st.blocks base st.base bs fs w c member in
            let g = take_block st.blocks c (nalign_up 64 64 size 16) in
            let mem : (c + 16) % 2 ^ 64 ≡ c + 16 = omega (arith, free.inside, w.space) in
            let some_mem : (c + 16 == 0) ≡ false = ground arith in
            inr (
              c,
              g,
              elim (Bool-cases validation) [
                | inl on ↦ rw (on, sign, positive, below, run, mem, some_mem) refl
                | inr off ↦ rw (off, run, mem) refl
              ],
              take_block-Allocated st.blocks base st.base bs fs w c xs n ys free
                  (nalign_up 64 64 size 16) (aligned size some_size bound).1
                  (omega (arith, fits, free.size)),
            )
      ]
