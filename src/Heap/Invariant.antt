-- ===== src/Heap/Invariant.antt =====
-- The state of a heap of source/heap.c: blocks that tile the region, and the list of the free ones.
use neon_eds.Common.{
  ℕ, ◌+◌, ◌<◌, ◌≤◌, ◌^◌, ◌≡◌, List, ◌∷◌, ◌++◌, ◌∈◌, has, has-append, false, ◌==◌, ◌||◌, arith, ap,
  ◌∙◌, Bool-cases, inl, inr, Distinct, Distinct-middle, split_of_mem, sign_extend, subst,
}
use neon_eds.Base.Dlist.Ring.{Ring}
use neon_eds.Heap.{Blocks, block_after}
use neon_eds.Heap.Layout.{
  Block, free_of, span, free_at, free_at-append, free_at-below, free_at-above, Whole, free_at-split,
  span-append, Whole-split,
}

pub record IsHeap (h : Blocks) (base s : ℕ) (bs : List Block) (fs : List ℕ) : Type 0 where
  pub ends : base + span bs ≡ s
  pub whole : Whole h s base bs
  pub links : Ring h.free s fs
  pub same : (x : ℕ) → has x fs ≡ has x (free_at base bs)
  pub small : span bs + 32 < 2 ^ 31
  pub space : s + 32 ≤ 2 ^ 64
  pub some_base : 0 < base

pub block_after_lem :
    (block size : ℕ)
    → size < 2 ^ 31
    → block + size + 16 < 2 ^ 64
    → block_after block size ≡ block + 16 + size
unfolding block_after sign_extend
block_after_lem block size small space = ground (arith, small, space)

-- Where block `c` stands among the free ones, in the list and in the row.
pub record Found (us : List ℕ) (c : ℕ) (vs front back : List ℕ) : Type 0 where
  pub out_us : has c us ≡ false
  pub out_vs : has c vs ≡ false
  pub out_front : has c front ≡ false
  pub out_back : has c back ≡ false
  pub rest : (x : ℕ) → (has x us || has x vs) ≡ (has x front || has x back)

pub find_free :
    (h : Blocks) (base s : ℕ) (xs : List Block) (n : ℕ) (ys : List Block) (fs : List ℕ)
    → IsHeap h base s (xs ++ free_of n ∷ ys) fs
    → (us : List ℕ) × (vs : List ℕ) × (fs ≡ us ++ (base + span xs) ∷ vs)
      × Found us (base + span xs) vs (free_at base xs) (free_at (base + span xs + 16 + n) ys)
find_free h base s xs n ys fs w =
    let c = base + span xs in
    let front = free_at base xs in
    let back = free_at (c + 16 + n) ys in
    let member : c ∈ fs =
      w.same c
      ∙ ground (
        arith,
        ap (has c) (free_at-append base xs (free_of n ∷ ys)),
        has-append c front (c ∷ back),
      ) in
    let (us, vs, e) = split_of_mem c fs member in
    let (_, out_us, out_vs) = Distinct-middle us c vs (subst Distinct e w.links.distinct.1) in
    let out_front : has c front ≡ false = free_at-below base c xs (omega arith) in
    let out_back : has c back ≡ false = free_at-above (c + 16 + n) c ys (omega arith) in
    (
      us,
      vs,
      e,
      record {
        out_us = out_us;
        out_vs = out_vs;
        out_front = out_front;
        out_back = out_back;
        rest = λ x. elim (Bool-cases (x == c)) [
          | inl at ↦ ground (arith, at, out_us, out_vs, out_front, out_back)
          | inr ne ↦ ground (
            arith,
            ne,
            w.same x,
            ap (has x) e,
            has-append x us (c ∷ vs),
            ap (has x) (free_at-append base xs (free_of n ∷ ys)),
            has-append x front (c ∷ back),
          )
        ];
      },
    )

-- The same where the address of the block is known by another name.
pub find_free_at :
    (h : Blocks) (base s : ℕ) (xs : List Block) (n : ℕ) (ys : List Block) (fs : List ℕ) (c : ℕ)
    → IsHeap h base s (xs ++ free_of n ∷ ys) fs
    → base + span xs ≡ c
    → (us : List ℕ) × (vs : List ℕ) × (fs ≡ us ++ c ∷ vs)
      × Found us c vs (free_at base xs) (free_at (c + 16 + n) ys)
find_free_at h base s xs n ys fs c w at =
    subst
      (λ a.
        (us : List ℕ) × (vs : List ℕ) × (fs ≡ us ++ a ∷ vs)
        × Found us a vs (free_at base xs) (free_at (a + 16 + n) ys))
      at (find_free h base s xs n ys fs w)

-- Block `c` is free and has `n` bytes.
pub record IsFree (h : Blocks) (base s : ℕ) (bs : List Block) (c : ℕ) (xs : List Block) (n : ℕ)
    (ys : List Block) : Type 0 where
  pub row : bs ≡ xs ++ free_of n ∷ ys
  pub at : c ≡ base + span xs
  pub size : h.size c ≡ n
  pub inside : c + 16 + n ≤ s
  pub small : n + 48 < 2 ^ 31

pub find_listed :
    (h : Blocks) (base s : ℕ) (bs : List Block) (fs : List ℕ)
    → IsHeap h base s bs fs
    → (c : ℕ) → c ∈ fs
    → (xs : List Block) × (n : ℕ) × (ys : List Block) × IsFree h base s bs c xs n ys
unfolding Whole
find_listed h base s bs fs w c i =
    let (xs, n, ys, e, at) = free_at-split base c bs (ground (arith, i, w.same c)) in
    let sum = ap span e ∙ span-append xs (free_of n ∷ ys) in
    let whole = Whole-split h s base xs (free_of n ∷ ys) (subst (Whole h s base) e w.whole) in
    (
      xs,
      n,
      ys,
      record {
        row = e;
        at = at;
        size = ap h.size at ∙ whole.1.1;
        inside = omega (arith, at, sum, w.ends);
        small = omega (arith, sum, w.small);
      },
    )
