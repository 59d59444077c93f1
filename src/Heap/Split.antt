-- ===== src/Heap/Split.antt =====
-- `heap_alloc` of source/heap.c where the block that it finds is larger than the request: the block is split.
use neon_eds.Common.{
  ℕ, ◌+◌, ◌-◌, ◌<◌, ◌≤◌, ◌^◌, ◌%◌, ◌≡◌, List, ◌∷◌, ◌++◌, ◌∉◌, has, has-append, true, false, ◌==◌,
  arith, refl, ap, ◌∙◌, sym, if◌then◌else◌, subst, neg32, sub32,
}
use neon_eds.Base.Dlist.Ring.{Ring}
use neon_eds.Heap.{Blocks, block_after, split_block, replace_free}
use neon_eds.Heap.Layout.{
  Block, free_of, used_of, span, last_of, free_at, Row, Whole, span-append, free_at-append,
  free_at-below, free_at-above, Whole-split, Whole-join, Whole-relink, Row-frame,
}
use neon_eds.Heap.FreeLinks.{replace_free-Ring}
use neon_eds.Heap.Invariant.{IsHeap, Found, block_after_lem}

-- What the writes leave in the fields, at block `c` of `n` bytes.
module _ (h : Blocks) (c n size : ℕ) (large : h.size c ≡ n) (small : n < 2 ^ 31)
    (space : c + 16 + n + 32 ≤ 2 ^ 64) (room : 16 ≤ size) (over : size + 32 < n) where
  rest : ℕ
  rest = n - size - 16

  tmp_eq : (c + size + 16) % 2 ^ 64 ≡ c + 16 + size
  tmp_eq = omega arith

  shrunk : sub32 (sub32 n (size % 2 ^ 32)) 16 ≡ n - size - 16
  shrunk = omega arith

  -- The block behind the new one.
  behind : block_after (c + 16 + size) (n - size - 16) ≡ c + 16 + n
  behind = block_after_lem (c + 16 + size) (n - size - 16) (omega arith) (omega arith) ∙ omega arith

  size-split_block :
      (x : ℕ)
      → (split_block h c size).size x
        ≡ (if x == c then neg32 size else if x == c + 16 + size then n - size - 16 else h.size x)
  unfolding split_block
  size-split_block x = rw tmp_eq (ground (arith, large))

  prev-split_block :
      (x : ℕ)
      → (split_block h c size).prev x
        ≡ (if x == c + 16 + n then c + 16 + size else if x == c + 16 + size then c else h.prev x)
  unfolding split_block
  prev-split_block x =
      let self : (c + 16 + size == c + 16 + size) ≡ true = ground arith in
      let other : (c + 16 + size == c) ≡ false = ground arith in
      rw (tmp_eq, large, self, other, shrunk, behind) refl

  free-split_block : (split_block h c size).free ≡ replace_free h.free c (c + 16 + size)
  unfolding split_block
  free-split_block = rw tmp_eq refl

-- The block becomes an allocated one of `size` bytes, with a free one behind it.
module _ (h : Blocks) (base s : ℕ) (xs : List Block) (n : ℕ) (ys : List Block) (us vs : List ℕ)
    (w : IsHeap h base s (xs ++ free_of n ∷ ys) (us ++ (base + span xs) ∷ vs))
    (found : Found us (base + span xs) vs (free_at base xs) (free_at (base + span xs + 16 + n) ys))
    (size : ℕ) (room : 16 ≤ size) (over : size + 32 < n) where
  c : ℕ
  c = base + span xs

  g : Blocks
  g = split_block h c size

  bounds :
      (n < 2 ^ 31)
      × (c + 16 + n + 32 ≤ 2 ^ 64)
      × (span (xs ++ free_of n ∷ ys) ≡ span xs + (16 + n + span ys))
  unfolding c
  bounds =
      let sum = span-append xs (free_of n ∷ ys) in
      (omega (arith, sum, w.small), omega (arith, sum, w.ends, w.space), sum)

  parts : Row h s base xs × Whole h (last_of s base xs) c (free_of n ∷ ys)
  unfolding c
  parts = Whole-split h s base xs (free_of n ∷ ys) w.whole

  large : h.size c ≡ n
  unfolding Whole
  large = parts.1.1

  tail : Whole h c (c + 16 + n) ys
  unfolding Whole
  tail = parts.1.3

  sizes :
      (x : ℕ)
      → g.size x
        ≡ (if x == c then neg32 size else if x == c + 16 + size then n - size - 16 else h.size x)
  unfolding g
  sizes = size-split_block h c n size large bounds.0 bounds.1 room over

  prevs :
      (x : ℕ)
      → g.prev x
        ≡ (if x == c + 16 + n then c + 16 + size else if x == c + 16 + size then c else h.prev x)
  unfolding g
  prevs = prev-split_block h c n size large bounds.0 bounds.1 room over

  front : Row g s base xs
  unfolding c
  front =
      Row-frame h g s base xs
        (λ x lo hi. (ground (arith, prevs x, lo, hi), ground (arith, sizes x, lo, hi))) parts.0

  back : Whole g (c + 16 + size) (c + 16 + n) ys
  back =
      Whole-relink h g c (c + 16 + size) (c + 16 + n) ys (ground (arith, prevs (c + 16 + n)))
        (λ x lo. ground (arith, prevs x, lo, room, over))
        (λ x lo. ground (arith, sizes x, lo, room, over)) tail

  middle : Whole g (last_of s base xs) c (used_of size ∷ free_of (n - size - 16) ∷ ys)
  unfolding Whole
  middle = (
    ground (arith, prevs c, parts.1.0, room, over),
    ground (arith, sizes c),
    room,
    (
      ground (arith, prevs (c + 16 + size), over),
      ground (arith, sizes (c + 16 + size), over),
      omega (arith, over),
      subst (λ e. Whole g (c + 16 + size) e ys) (omega (arith, over)) back,
    ),
  )

  new : c + 16 + size ∉ s ∷ (us ++ c ∷ vs)
  unfolding c
  new =
      let t = c + 16 + size in
      let apart : t ∉ free_at base xs = free_at-below base t xs (omega arith) in
      let beyond : t ∉ free_at (c + 16 + n) ys =
        free_at-above (c + 16 + n) t ys (omega (arith, over)) in
      ground (arith, apart, beyond, found.rest t, has-append t us (c ∷ vs), bounds.2, w.ends, over)

  links : Ring g.free s (us ++ (c + 16 + size) ∷ vs)
  unfolding c g
  links =
      subst (λ f. Ring f s (us ++ (c + 16 + size) ∷ vs))
        (sym (free-split_block h c n size large bounds.0 bounds.1 room over))
        (replace_free-Ring h.free s us c vs w.links (c + 16 + size) new)

  pub split_block-IsHeap :
      IsHeap
        (split_block h (base + span xs) size)
        base
        s
        (xs ++ used_of size ∷ free_of (n - size - 16) ∷ ys)
        (us ++ (base + span xs + 16 + size) ∷ vs)
  unfolding c g
  split_block-IsHeap =
      let sum = span-append xs (used_of size ∷ free_of (n - size - 16) ∷ ys) in
      record {
        ends = omega (arith, sum, bounds.2, w.ends, over);
        whole = Whole-join g s base xs (used_of size ∷ free_of (n - size - 16) ∷ ys) front middle;
        links = links;
        same = λ x.
            let at : c + 16 + size + 16 + (n - size - 16) ≡ c + 16 + n = omega (arith, over) in
            let inside = free_at-append base xs (used_of size ∷ free_of (n - size - 16) ∷ ys) in
            ground (
              arith,
              found.rest x,
              has-append x us ((c + 16 + size) ∷ vs),
              ap (has x) inside,
              has-append x (free_at base xs)
                  ((c + 16 + size) ∷ free_at (c + 16 + size + 16 + (n - size - 16)) ys),
              ap (λ e. has x (free_at e ys)) at,
            );
        small = omega (arith, sum, bounds.2, w.small, over);
        space = w.space;
        some_base = w.some_base;
      }
