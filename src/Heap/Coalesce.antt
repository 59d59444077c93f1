-- ===== src/Heap/Coalesce.antt =====
-- Blocks of a heap of source/heap.c that become one free block.
use neon_eds.Common.{
  ℕ, ◌+◌, ◌<◌, ◌≤◌, ◌≡◌, List, ◌∷◌, ◌++◌, has, has-append, ◌||◌, arith, ap, ◌∙◌, subst,
}
use neon_eds.Base.Dlist.Ring.{Ring}
use neon_eds.Heap.{Blocks}
use neon_eds.Heap.Layout.{
  Block, free_of, span, last_of, free_at, Row, Whole, span-append, free_at-append, Whole-split,
  Whole-join, Whole-relink, Whole-prev, Row-frame,
}
use neon_eds.Heap.Invariant.{IsHeap}

-- `g` has one free block of `k` bytes in place of the blocks `mid`, which stood at `c`.
pub record IsMerged (h g : Blocks) (c k : ℕ) : Type 0 where
  pub size_at : g.size c ≡ k
  pub prev_at : g.prev c ≡ h.prev c
  pub prev_end : g.prev (c + 16 + k) ≡ c
  pub below : (x : ℕ) → x < c → (g.prev x ≡ h.prev x) × (g.size x ≡ h.size x)
  pub beyond : (x : ℕ) → c + 16 + k < x → g.prev x ≡ h.prev x
  pub behind : (x : ℕ) → c + 16 + k ≤ x → g.size x ≡ h.size x

module _ (h g : Blocks) (base s : ℕ) (xs mid ys : List Block) (fs gs : List ℕ) (k : ℕ)
    (w : IsHeap h base s (xs ++ (mid ++ ys)) fs) (bytes : span mid ≡ 16 + k) (room : 16 ≤ k)
    (merged : IsMerged h g (base + span xs) k) (ring : Ring g.free s gs)
    (frees : (x : ℕ)
      → has x gs ≡ (
          has x (free_at base xs)
          || has x ((base + span xs) ∷ free_at (base + span xs + 16 + k) ys))) where
  c : ℕ
  c = base + span xs

  sum : span (xs ++ (mid ++ ys)) ≡ span xs + (16 + k + span ys)
  sum = omega (arith, span-append xs (mid ++ ys), span-append mid ys, bytes)

  parts : Row h s base xs × Whole h (last_of s base xs) c (mid ++ ys)
  unfolding c
  parts = Whole-split h s base xs (mid ++ ys) w.whole

  tail : Whole h (last_of (last_of s base xs) c mid) (c + 16 + k) ys
  tail =
      subst (λ e. Whole h (last_of (last_of s base xs) c mid) e ys) (omega (arith, bytes))
        (Whole-split h (last_of s base xs) c mid ys parts.1).1

  front : Row g s base xs
  unfolding c
  front = Row-frame h g s base xs (λ x lo hi. merged.below x hi) parts.0

  back : Whole g c (c + 16 + k) ys
  unfolding c
  back =
      Whole-relink h g (last_of (last_of s base xs) c mid) c (c + 16 + k) ys merged.prev_end
        merged.beyond merged.behind tail

  pub coalesce-IsHeap : IsHeap g base s (xs ++ free_of k ∷ ys) gs
  unfolding c Whole
  coalesce-IsHeap =
      let new = span-append xs (free_of k ∷ ys) in
      record {
        ends = omega (arith, sum, new, w.ends);
        whole = Whole-join g s base xs (free_of k ∷ ys) front (
          merged.prev_at ∙ Whole-prev h (last_of s base xs) c (mid ++ ys) parts.1,
          merged.size_at,
          room,
          back,
        );
        links = ring;
        same = λ x. ground (
          arith,
          frees x,
          ap (has x) (free_at-append base xs (free_of k ∷ ys)),
          has-append x (free_at base xs) (c ∷ free_at (c + 16 + k) ys),
        );
        small = omega (arith, sum, new, w.small);
        space = w.space;
        some_base = w.some_base;
      }
