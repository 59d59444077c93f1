-- ===== src/Heap/Taken.antt =====
-- `heap_alloc` of source/heap.c where the block that it finds has no room for another one: it is taken whole.
use neon_eds.Common.{
  ℕ, ◌+◌, ◌≡◌, List, ◌∷◌, ◌++◌, has, has-append, ◌==◌, arith, refl, ap, ◌∙◌, if◌then◌else◌, neg32,
}
use neon_eds.Base.Dlist.Ring.{Ring}
use neon_eds.Heap.{Blocks, take_whole}
use neon_eds.Heap.Layout.{
  Block, free_of, used_of, span, last_of, free_at, Row, Whole, span-append, free_at-append,
  Whole-split, Whole-join, Whole-relink, Whole-prev, Row-frame,
}
use neon_eds.Heap.FreeLinks.{unlink_taken-Ring}
use neon_eds.Heap.Invariant.{IsHeap, Found}

module _ (h : Blocks) (base s : ℕ) (xs : List Block) (n : ℕ) (ys : List Block) (us vs : List ℕ)
    (w : IsHeap h base s (xs ++ free_of n ∷ ys) (us ++ (base + span xs) ∷ vs))
    (found : Found us
      (base + span xs)
      vs
      (free_at base xs)
      (free_at (base + span xs + 16 + n) ys)) where
  c : ℕ
  c = base + span xs

  g : Blocks
  g = take_whole h c

  parts : Row h s base xs × Whole h (last_of s base xs) c (free_of n ∷ ys)
  unfolding c
  parts = Whole-split h s base xs (free_of n ∷ ys) w.whole

  large : h.size c ≡ n
  unfolding Whole
  large = parts.1.1

  tail : Whole h c (c + 16 + n) ys
  unfolding Whole
  tail = parts.1.3

  sizes : (x : ℕ) → g.size x ≡ (if x == c then neg32 n else h.size x)
  unfolding g take_whole
  sizes x = ground (arith, large)

  prevs : (x : ℕ) → g.prev x ≡ h.prev x
  unfolding g take_whole
  prevs x = refl

  front : Row g s base xs
  unfolding c
  front = Row-frame h g s base xs (λ x lo hi. (prevs x, ground (arith, sizes x, lo, hi))) parts.0

  middle : Whole g (last_of s base xs) c (used_of n ∷ ys)
  unfolding Whole
  middle = (
    prevs c ∙ parts.1.0,
    ground (arith, sizes c),
    parts.1.2,
    Whole-relink h g c c (c + 16 + n) ys (prevs (c + 16 + n) ∙ Whole-prev h c (c + 16 + n) ys tail)
        (λ x lo. prevs x) (λ x lo. ground (arith, sizes x, lo)) tail,
  )

  links : Ring g.free s (us ++ vs)
  unfolding c g take_whole
  links = unlink_taken-Ring h.free s us c vs w.links

  pub take_whole-IsHeap :
      IsHeap (take_whole h (base + span xs)) base s (xs ++ used_of n ∷ ys) (us ++ vs)
  unfolding c g
  take_whole-IsHeap =
      let sum = span-append xs (used_of n ∷ ys) in
      let old = span-append xs (free_of n ∷ ys) in
      record {
        ends = omega (arith, sum, old, w.ends);
        whole = Whole-join g s base xs (used_of n ∷ ys) front middle;
        links = links;
        same = λ x. ground (
          arith,
          found.rest x,
          has-append x us vs,
          ap (has x) (free_at-append base xs (used_of n ∷ ys)),
          has-append x (free_at base xs) (free_at (c + 16 + n) ys),
        );
        small = omega (arith, sum, old, w.small);
        space = w.space;
        some_base = w.some_base;
      }
