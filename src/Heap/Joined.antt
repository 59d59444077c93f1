-- ===== src/Heap/Joined.antt =====
-- `heap_free` of source/heap.c where the block behind is free: it leaves the list of the free ones.
use neon_eds.Common.{
  refl, ℕ, ◌+◌, ◌≡◌, List, [], ◌∷◌, ◌++◌, ◌∉◌, has, has-append, append_assoc, ap₂, true, ◌||◌,
  arith, ap, ◌∙◌, sym, subst,
}
use neon_eds.Base.Dlist.Ring.{Ring}
use neon_eds.Heap.{Blocks, merge_next, merge_both}
use neon_eds.Heap.Layout.{
  Block, free_of, used_of, span, free_at, used_at, used_at-append, free_at-append, span-append,
}
use neon_eds.Heap.Settled.{closes_used, is_settled, is_settled-append}
use neon_eds.Heap.FreeLinks.{unlink_merged-Ring, take_place-Ring}
use neon_eds.Heap.Invariant.{IsHeap}
use neon_eds.Heap.Coalesce.{coalesce-IsHeap}
use neon_eds.Heap.Merge.{freed, merge_next-IsMerged, merge_both-IsMerged}
use neon_eds.Heap.Neighbours.{used_block, FreeBefore, FreeBehind}
use neon_eds.Heap.Freed.{Freed, unlisted, row_before, free_before, used_before}
use neon_eds.Heap.Invariant.{find_free_at}

module _ (h : Blocks) (base s : ℕ) (xs : List Block) (n : ℕ) (ys : List Block) (fs : List ℕ)
    (w : IsHeap h base s (xs ++ used_of n ∷ ys) fs) where
  -- Where the free block behind stands in the list.
  record Position (q : ℕ) (rest : List Block) : Type 0 where
    us : List ℕ
    vs : List ℕ
    split : fs ≡ us ++ (base + span xs + 16 + n) ∷ vs
    links : Ring h.free s (us ++ (base + span xs + 16 + n) ∷ vs)
    others :
        (x : ℕ)
        → (has x us || has x vs)
          ≡ (has x (free_at base xs) || has x (free_at (base + span xs + 16 + n + 16 + q) rest))

  whole_row :
      (q : ℕ) (rest : List Block)
      → FreeBehind h base s xs n ys fs w q rest
      → xs ++ used_of n ∷ ys ≡ xs ++ used_of n ∷ free_of q ∷ rest
  whole_row q rest a = ap (λ l. xs ++ used_of n ∷ l) a.row

  find_behind :
      (q : ℕ) (rest : List Block) → FreeBehind h base s xs n ys fs w q rest → Position q rest
  find_behind q rest a =
      let joined = xs ++ used_of n ∷ [] in
      let row : xs ++ used_of n ∷ ys ≡ joined ++ free_of q ∷ rest =
        whole_row q rest a ∙ sym (append_assoc xs (used_of n ∷ []) (free_of q ∷ rest)) in
      let (us, vs, e, found) =
        find_free_at h base s joined q rest fs (base + span xs + 16 + n)
          (subst (λ l. IsHeap h base s l fs) row w)
          (omega (arith, span-append xs (used_of n ∷ []))) in
      record {
        us = us;
        vs = vs;
        split = e;
        links = subst (λ l. Ring h.free s l) e w.links;
        others = λ x. ground (
          arith,
          found.rest x,
          ap (has x) (free_at-append base xs (used_of n ∷ [])),
          has-append x (free_at base xs) [],
        );
      }

  -- The used blocks that stay, where the free one reaches up to the end of the block behind.
  held_on :
      (before : List Block) (k q : ℕ) (rest : List Block)
      → FreeBehind h base s xs n ys fs w q rest
      → used_at base before ≡ used_at base xs
      → base + span before + 16 + k ≡ base + span xs + 16 + n + 16 + q
      → used_at base (before ++ free_of k ∷ rest)
        ≡ used_at base xs ++ used_at (base + span xs + 16 + n) ys
  held_on before k q rest a same end =
      used_at-append base before (free_of k ∷ rest)
      ∙ ap₂ (λ l e. l ++ used_at e rest) same end
      ∙ ap (λ l. used_at base xs ++ used_at (base + span xs + 16 + n) l) (sym a.row)

  pub merge_next-Freed :
      (m : ℕ) (rest : List Block)
      → FreeBehind h base s xs n ys fs w m rest
      → closes_used xs ≡ true
      → Freed
          (merge_next (freed h (base + span xs)) (base + span xs) (base + span xs + 16 + n))
          base
          s
          xs
          n
          ys
  unfolding merge_next
  merge_next-Freed m rest a closed =
      let c = base + span xs in
      let t = c + 16 + n in
      let u = used_block h base s xs n ys fs w in
      let wide = ap span a.row in
      let l = find_behind m rest a in
      let new : c ∉ s ∷ (l.us ++ t ∷ l.vs) =
        subst (λ k. c ∉ s ∷ k) l.split (unlisted h base s xs n ys fs w) in
      let end : c + 16 + (n + m + 16) ≡ t + 16 + m = omega arith in
      let outer : (x : ℕ)
          → has x (l.us ++ c ∷ l.vs)
            ≡ (has x (free_at base xs) || has x (c ∷ free_at (c + 16 + (n + m + 16)) rest)) =
        λ x.
          ground (
            arith,
            l.others x,
            has-append x l.us (c ∷ l.vs),
            ap (λ o. has x (free_at o rest)) end,
          ) in
      let merged =
        merge_next-IsMerged h s c n u.size u.some_bytes m a.size (omega (arith, u.total, wide))
          (omega (arith, u.end, w.space, wide)) in
      record {
        blocks = xs ++ free_of (n + m + 16) ∷ rest;
        frees = l.us ++ c ∷ l.vs;
        state =
            coalesce-IsHeap h (merge_next (freed h c) c t) base s xs (used_of n ∷ free_of m ∷ [])
              rest fs (l.us ++ c ∷ l.vs) (n + m + 16)
              (subst (λ l. IsHeap h base s l fs) (whole_row m rest a) w) (omega arith) (omega arith)
              merged (take_place-Ring h.free s l.us t l.vs l.links c new) outer;
        held = held_on xs (n + m + 16) m rest a refl end;
        settled = λ e. ground (
          arith,
          closed,
          sym (ap is_settled (whole_row m rest a)) ∙ e,
          is_settled-append xs (used_of n ∷ free_of m ∷ rest),
          is_settled-append xs (free_of (n + m + 16) ∷ rest),
        );
      }

  -- With a free block before it too.
  pub merge_both-Freed :
      (init : List Block) (m : ℕ)
      → FreeBefore h base s xs n ys fs w init m
      → (q : ℕ) (rest : List Block) → FreeBehind h base s xs n ys fs w q rest
      → Freed
          (merge_both (freed h (base + span xs)) (base + span xs) (base + span xs + 16 + n))
          base
          s
          xs
          n
          ys
  unfolding merge_both
  merge_both-Freed init m b q rest a =
      let c = base + span xs in
      let t = c + 16 + n in
      let p = base + span init in
      let k = m + n + q + 32 in
      let u = used_block h base s xs n ys fs w in
      let wide = ap span a.row in
      let l = find_behind q rest a in
      let row =
        row_before h base s xs n ys fs w init m b
        ∙ ap (λ l. init ++ free_of m ∷ used_of n ∷ l) a.row in
      let end : p + 16 + k ≡ t + 16 + q = omega (arith, b.adjacent) in
      let outer : (x : ℕ)
          → has x (l.us ++ l.vs)
            ≡ (has x (free_at base init) || has x (p ∷ free_at (p + 16 + k) rest)) =
        λ x. ground (
          arith,
          l.others x,
          has-append x l.us l.vs,
          ap (has x) (free_before h base s xs n ys fs w init m b),
          has-append x (free_at base init) (p ∷ []),
          ap (λ o. has x (free_at o rest)) end,
        ) in
      let merged =
        merge_both-IsMerged h s c n u.size u.some_bytes p m b.adjacent b.link b.size
          (omega (arith, u.total, b.adjacent)) q a.size (omega (arith, u.total, b.adjacent, wide))
          (omega (arith, u.end, w.space, wide)) in
      record {
        blocks = init ++ free_of k ∷ rest;
        frees = l.us ++ l.vs;
        state =
            coalesce-IsHeap h (merge_both (freed h c) c t) base s init
              (free_of m ∷ used_of n ∷ free_of q ∷ []) rest fs (l.us ++ l.vs) k
              (subst (λ l. IsHeap h base s l fs) row w) (omega arith) (omega arith) merged
              (unlink_merged-Ring h.free s l.us t l.vs l.links) outer;
        held = held_on init k q rest a (sym (used_before h base s xs n ys fs w init m b)) end;
        settled = λ e. ground (
          arith,
          sym (ap is_settled row) ∙ e,
          is_settled-append init (free_of m ∷ used_of n ∷ free_of q ∷ rest),
          is_settled-append init (free_of k ∷ rest),
        );
      }
