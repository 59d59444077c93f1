-- ===== src/Heap/Freed.antt =====
-- The four ways in which `heap_free` of source/heap.c gives a block back.
use neon_eds.Common.{
  ℕ, ◌+◌, ◌<◌, ◌^◌, ◌≡◌, List, [], ◌∷◌, ◌++◌, ◌∉◌, has, has-append, append_assoc, append-nil, ap₂,
  true, ◌||◌, arith, ap, ◌∙◌, sym, subst,
}
use neon_eds.Heap.{Blocks, merge_prev, add_free}
use neon_eds.Heap.Layout.{
  Block, free_of, used_of, span, free_at, used_at, used_at-append, free_at-append, free_at-below,
  free_at-above, Whole-prev,
}
use neon_eds.Heap.Settled.{opens_used, closes_used, is_settled, is_settled-append}
use neon_eds.Heap.FreeLinks.{push_free-Ring}
use neon_eds.Heap.Invariant.{IsHeap}
use neon_eds.Heap.Coalesce.{coalesce-IsHeap}
use neon_eds.Heap.Merge.{freed, add_free-IsMerged, merge_prev-IsMerged}
use neon_eds.Heap.Neighbours.{used_block, FreeBefore}

-- The state `g` after block `c` of `n` bytes is given back: the other used blocks stay where they were.
pub record Freed (g : Blocks) (base s : ℕ) (xs : List Block) (n : ℕ) (ys : List Block)
    : Type 0 where
  pub blocks : List Block
  pub frees : List ℕ
  pub state : IsHeap g base s blocks frees
  pub held : used_at base blocks ≡ used_at base xs ++ used_at (base + span xs + 16 + n) ys
  pub settled : is_settled (xs ++ used_of n ∷ ys) ≡ true → is_settled blocks ≡ true

module _ (h : Blocks) (base s : ℕ) (xs : List Block) (n : ℕ) (ys : List Block) (fs : List ℕ)
    (w : IsHeap h base s (xs ++ used_of n ∷ ys) fs) where
  pub listed :
      (x : ℕ) → has x fs ≡ (has x (free_at base xs) || has x (free_at (base + span xs + 16 + n) ys))
  listed x =
      w.same x
      ∙ ap (has x) (free_at-append base xs (used_of n ∷ ys))
      ∙ has-append x (free_at base xs) (free_at (base + span xs + 16 + n) ys)

  -- The block is not free.
  pub unlisted : base + span xs ∉ s ∷ fs
  unlisted =
      let c = base + span xs in
      ground (
        arith,
        listed c,
        free_at-below base c xs (omega arith),
        free_at-above (c + 16 + n) c ys (omega arith),
        (used_block h base s xs n ys fs w).end,
      )

  pub add_free-Freed :
      closes_used xs ≡ true
      → opens_used ys ≡ true
      → Freed (add_free (freed h (base + span xs)) s (base + span xs)) base s xs n ys
  unfolding add_free
  add_free-Freed closed opened =
      let c = base + span xs in
      let u = used_block h base s xs n ys fs w in
      let small : n < 2 ^ 31 = omega (arith, u.total) in
      let end = Whole-prev h c (c + 16 + n) ys u.tail in
      record {
        blocks = xs ++ free_of n ∷ ys;
        frees = c ∷ fs;
        state =
            coalesce-IsHeap h (add_free (freed h c) s c) base s xs (used_of n ∷ []) ys fs (c ∷ fs) n
              w (omega arith) u.some_bytes (add_free-IsMerged h s c n u.size u.some_bytes small end)
              (push_free-Ring h.free s c fs w.links unlisted) (λ x. ground (arith, listed x));
        held = used_at-append base xs (free_of n ∷ ys);
        settled = λ e. ground (
          arith,
          e,
          closed,
          opened,
          is_settled-append xs (used_of n ∷ ys),
          is_settled-append xs (free_of n ∷ ys),
        );
      }

  module _ (init : List Block) (m : ℕ) (b : FreeBefore h base s xs n ys fs w init m) where
    pub row_before : xs ++ used_of n ∷ ys ≡ init ++ free_of m ∷ used_of n ∷ ys
    row_before =
        ap (λ l. l ++ used_of n ∷ ys) b.row ∙ append_assoc init (free_of m ∷ []) (used_of n ∷ ys)

    pub free_before : free_at base xs ≡ free_at base init ++ (base + span init) ∷ []
    free_before = ap (free_at base) b.row ∙ free_at-append base init (free_of m ∷ [])

    pub used_before : used_at base xs ≡ used_at base init
    used_before =
        ap (used_at base) b.row
        ∙ used_at-append base init (free_of m ∷ [])
        ∙ append-nil (used_at base init)

    pub merge_prev-Freed :
        opens_used ys ≡ true
        → Freed
            (merge_prev (freed h (base + span xs)) (base + span xs) (base + span xs + 16 + n))
            base
            s
            xs
            n
            ys
    unfolding merge_prev
    merge_prev-Freed opened =
        let c = base + span xs in
        let p = base + span init in
        let u = used_block h base s xs n ys fs w in
        let total : m + n + 48 < 2 ^ 31 = omega (arith, u.total, b.adjacent) in
        let end : p + 16 + (m + n + 16) ≡ c + 16 + n = omega (arith, b.adjacent) in
        let outer : (x : ℕ)
            → has x fs
              ≡ (has x (free_at base init) || has x (p ∷ free_at (p + 16 + (m + n + 16)) ys)) =
          λ x. ground (
            arith,
            listed x,
            ap (has x) free_before,
            has-append x (free_at base init) (p ∷ []),
            ap (λ e. has x (free_at e ys)) end,
          ) in
        record {
          blocks = init ++ free_of (m + n + 16) ∷ ys;
          frees = fs;
          state =
              coalesce-IsHeap h (merge_prev (freed h c) c (c + 16 + n)) base s init
                (free_of m ∷ used_of n ∷ []) ys fs fs (m + n + 16)
                (subst (λ l. IsHeap h base s l fs) row_before w) (omega arith) (omega arith)
                (merge_prev-IsMerged h s c n u.size u.some_bytes p m b.adjacent b.link b.size total)
                w.links outer;
          held =
              used_at-append base init (free_of (m + n + 16) ∷ ys)
              ∙ ap₂ (λ l e. l ++ used_at e ys) (sym used_before) end;
          settled = λ e. ground (
            arith,
            opened,
            sym (ap is_settled row_before) ∙ e,
            is_settled-append init (free_of m ∷ used_of n ∷ ys),
            is_settled-append init (free_of (m + n + 16) ∷ ys),
          );
        }
