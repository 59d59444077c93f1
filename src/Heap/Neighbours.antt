-- ===== src/Heap/Neighbours.antt =====
-- The blocks before and behind a used block of a heap of source/heap.c, as `heap_free` tells them apart.
use neon_eds.Common.{
  ℕ, ◌+◌, ◌-◌, ◌<◌, ◌≤◌, ◌^◌, ◌≡◌, ◌≢◌, ◌⊎◌, List, [], ◌∷◌, ◌++◌, true, false, arith, refl, ap, ◌∙◌,
  append_assoc, neg32, Bool-cases, inl, inr, subst,
}
use neon_eds.Heap.{Blocks}
use neon_eds.Heap.Layout.{
  Block, free_of, used_of, span, last_of, Whole, span-append, last_of-append, Whole-split,
}
use neon_eds.Heap.Settled.{opens_used, closes_used, closes_used-last}
use neon_eds.Heap.Invariant.{IsHeap}

last_view :
    (xs : List Block) → (xs ≡ []) ⊎ ((init : List Block) × (b : Block) × (xs ≡ init ++ b ∷ []))
last_view [] = inl refl
last_view (x ∷ xs) = elim (last_view xs) [
  | inl e ↦ inr ([], x, ap (λ l. x ∷ l) e)
  | inr (init, b, e) ↦ inr (x ∷ init, b, ap (λ l. x ∷ l) e)
]

Whole-sentinel :
    (h : Blocks) (p a : ℕ) (bs : List Block) → Whole h p a bs → h.size (a + span bs) ≡ 2 ^ 32 - 1
unfolding Whole
Whole-sentinel h p a [] w = ap h.size (omega arith) ∙ w.1
Whole-sentinel h p a (b ∷ bs) w =
    ap h.size (omega arith) ∙ Whole-sentinel h a (a + 16 + b.size) bs w.3

as_free : (b : Block) → b.used ≡ false → b ≡ free_of b.size
as_free b e k = record { size = b.size; used = e k }

module _ (h : Blocks) (base s : ℕ) (xs : List Block) (n : ℕ) (ys : List Block) (fs : List ℕ)
    (w : IsHeap h base s (xs ++ used_of n ∷ ys) fs) where
  pub record IsUsed : Type 0 where
    pub size : h.size (base + span xs) ≡ neg32 n
    pub some_bytes : 16 ≤ n
    pub prev : h.prev (base + span xs) ≡ last_of s base xs
    pub tail : Whole h (base + span xs) (base + span xs + 16 + n) ys
    pub total : span xs + n + span ys + 48 < 2 ^ 31
    pub end : base + span xs + 16 + n + span ys ≡ s

  pub used_block : IsUsed
  unfolding Whole
  used_block =
      let sum = span-append xs (used_of n ∷ ys) in
      let parts = Whole-split h s base xs (used_of n ∷ ys) w.whole in
      record {
        size = parts.1.1;
        some_bytes = parts.1.2;
        prev = parts.1.0;
        tail = parts.1.3;
        total = omega (arith, sum, w.small);
        end = omega (arith, sum, w.ends);
      }

  -- The block before is free, or is marked as allocated; it may be the sentinel.
  pub record FreeBefore (init : List Block) (m : ℕ) : Type 0 where
    pub row : xs ≡ init ++ free_of m ∷ []
    pub link : h.prev (base + span xs) ≡ base + span init
    pub size : h.size (base + span init) ≡ m
    pub some_bytes : 16 ≤ m
    pub adjacent : base + span init + 16 + m ≡ base + span xs

  pub record UsedBefore : Type 0 where
    pub negative : 2 ^ 31 ≤ h.size (h.prev (base + span xs))
    pub other : h.prev (base + span xs) ≢ base + span xs
    pub closed : closes_used xs ≡ true

  pub before : ((init : List Block) × (m : ℕ) × FreeBefore init m) ⊎ UsedBefore
  unfolding Whole
  before = elim (last_view xs) [
    | inl e ↦
        let first : h.prev (base + span xs) ≡ s = used_block.prev ∙ ap (last_of s base) e in
        let mark =
          ap h.size first
          ∙ ap h.size (omega (arith, used_block.end))
          ∙ Whole-sentinel h (base + span xs) (base + span xs + 16 + n) ys used_block.tail in
        inr (record {
          negative = omega (arith, mark);
          other = omega (arith, first, used_block.end);
          closed = ap closes_used e;
        })
    | inr (init, b, e) ↦
        let sum = ap span e ∙ span-append init (b ∷ []) in
        let link = used_block.prev ∙ ap (last_of s base) e ∙ last_of-append s base init (b ∷ []) in
        let shifted = ap (λ l. l ++ used_of n ∷ ys) e in
        let parts = Whole-split h s base init (b ∷ used_of n ∷ ys) (
          subst (Whole h s base) (shifted ∙ append_assoc init (b ∷ []) (used_of n ∷ ys)) w.whole) in
        elim (Bool-cases b.used) [
          | inl u ↦ inr (record {
            negative =
                ground
                  (arith, link, ap h.size link, parts.1.1, parts.1.2, u, sum, used_block.total);
            other = omega (arith, link, sum);
            closed = ap closes_used e ∙ closes_used-last init b ∙ u;
          })
          | inr f ↦ inl (
            init,
            b.size,
            record {
              row = e ∙ ap (λ d. init ++ d ∷ []) (as_free b f);
              link = link;
              size = ground (arith, parts.1.1, f);
              some_bytes = parts.1.2;
              adjacent = omega (arith, sum);
            },
          )
        ]
  ]

  pub record FreeBehind (m : ℕ) (rest : List Block) : Type 0 where
    pub row : ys ≡ free_of m ∷ rest
    pub size : h.size (base + span xs + 16 + n) ≡ m
    pub some_bytes : 16 ≤ m

  pub record UsedBehind : Type 0 where
    pub negative : 2 ^ 31 ≤ h.size (base + span xs + 16 + n)
    pub opened : opens_used ys ≡ true

  pub behind : ((m : ℕ) × (rest : List Block) × FreeBehind m rest) ⊎ UsedBehind
  unfolding Whole
  behind = go ys refl
    where
      go :
          (bs : List Block)
          → ys ≡ bs
          → ((m : ℕ) × (rest : List Block) × FreeBehind m rest) ⊎ UsedBehind
      go [] e = inr (record {
        negative = omega (
          arith,
          (subst (Whole h (base + span xs) (base + span xs + 16 + n)) e used_block.tail).1,
        );
        opened = ap opens_used e;
      })
      go (b ∷ bs) e =
          let t = subst (Whole h (base + span xs) (base + span xs + 16 + n)) e used_block.tail in
          elim (Bool-cases b.used) [
            | inl u ↦ inr (record {
              negative = ground (arith, t.1, t.2, u, ap span e, used_block.total);
              opened = ap opens_used e ∙ u;
            })
            | inr f ↦ inl (
              b.size,
              bs,
              record {
                row = e ∙ ap (λ d. d ∷ bs) (as_free b f);
                size = ground (arith, t.1, f);
                some_bytes = t.2;
              },
            )
          ]
