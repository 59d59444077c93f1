-- ===== src/Heap/Disjoint.antt =====
-- The pieces of memory that a client of the heap of source/heap.c holds do not overlap.
use neon_eds.Common.{ℕ, ◌+◌, ◌≤◌, ◌≡◌, ◌⊎◌, inl, inr, List, [], ◌∷◌, ◌++◌, Bool-cases, arith, subst}
use neon_eds.Heap.Layout.{Block, span, used_at}
use neon_eds.Heap.Owned.{Pieces, Owned}

-- `size` bytes at `mem` lie apart from all of the pieces.
abbrev pub Away : ℕ → ℕ → Pieces → Type 0
Away mem size [] = Unit {0}
Away mem size ((m, z) ∷ held) = ((mem + size ≤ m) ⊎ (m + z ≤ mem)) × Away mem size held

-- The pieces lie in the region from `lo` to `hi`, and no two of them overlap.
abbrev pub Disjoint : ℕ → ℕ → Pieces → Type 0
Disjoint lo hi [] = Unit {0}
Disjoint lo hi ((m, z) ∷ held) = (lo ≤ m) × (m + z ≤ hi) × Away m z held × Disjoint lo hi held

-- The blocks behind `lo`, in order, with their headers.
abbrev Tiled : ℕ → ℕ → Pieces → Type 0
Tiled lo hi [] = lo ≤ hi
Tiled lo hi ((c, n) ∷ used) = (lo ≤ c) × Tiled (c + 16 + n) hi used

Tiled-weaken : (lo lo' hi : ℕ) (used : Pieces) → lo' ≤ lo → Tiled lo hi used → Tiled lo' hi used
Tiled-weaken lo lo' hi [] le t = omega (arith, le, t)
Tiled-weaken lo lo' hi ((c, n) ∷ used) le t = (omega (arith, le, t.0), t.1)

used_at-Tiled : (a : ℕ) (bs : List Block) → Tiled a (a + span bs) (used_at a bs)
used_at-Tiled a [] = omega arith
used_at-Tiled a (b ∷ bs) =
    let next = a + 16 + b.size in
    let rest : Tiled next (a + (16 + b.size + span bs)) (used_at next bs) =
      subst (λ e. Tiled next e (used_at next bs)) (omega arith) (used_at-Tiled next bs) in
    elim (Bool-cases b.used) [
      | inl u ↦ rw u (omega arith, rest)
      | inr f ↦
          rw f
            (Tiled-weaken next a (a + (16 + b.size + span bs)) (used_at next bs) (omega arith) rest)
    ]

-- All blocks lie apart from a block, header and all.
abbrev Clear : ℕ → ℕ → Pieces → Type 0
Clear c n [] = Unit {0}
Clear c n ((d, m) ∷ used) = ((c + 16 + n ≤ d) ⊎ (d + 16 + m ≤ c)) × Clear c n used

Tiled-Clear : (c n lo hi : ℕ) (used : Pieces) → c + 16 + n ≤ lo → Tiled lo hi used → Clear c n used
Tiled-Clear c n lo hi [] le t = tt
Tiled-Clear c n lo hi ((d, m) ∷ used) le t = (
  inl (omega (arith, le, t.0)),
  Tiled-Clear c n (d + 16 + m) hi used (omega (arith, le, t.0)) t.1,
)

Tiled-end : (lo hi : ℕ) (used : Pieces) → Tiled lo hi used → lo ≤ hi
Tiled-end lo hi [] t = t
Tiled-end lo hi ((c, n) ∷ used) t = omega (arith, t.0, Tiled-end (c + 16 + n) hi used t.1)

Tiled-middle :
    (lo hi : ℕ) (b : Pieces) (c n : ℕ) (a : Pieces)
    → Tiled lo hi (b ++ (c, n) ∷ a)
    → (lo ≤ c) × (c + 16 + n ≤ hi) × Clear c n (b ++ a) × Tiled lo hi (b ++ a)
Tiled-middle lo hi [] c n a t = (
  t.0,
  Tiled-end (c + 16 + n) hi a t.1,
  Tiled-Clear c n (c + 16 + n) hi a (omega arith) t.1,
  Tiled-weaken (c + 16 + n) lo hi a (omega (arith, t.0)) t.1,
)
Tiled-middle lo hi ((d, m) ∷ b) c n a t =
    let (low, high, clear, rest) = Tiled-middle (d + 16 + m) hi b c n a t.1 in
    (omega (arith, low, t.0), high, (inr low, clear), (t.0, rest))

Clear-middle :
    (c n : ℕ) (b : Pieces) (d m : ℕ) (a : Pieces)
    → Clear c n (b ++ (d, m) ∷ a)
    → ((c + 16 + n ≤ d) ⊎ (d + 16 + m ≤ c)) × Clear c n (b ++ a)
Clear-middle c n [] d m a k = k
Clear-middle c n ((e, l) ∷ b) d m a k =
    let (here, rest) = Clear-middle c n b d m a k.1 in (here, (k.0, rest))

Owned-Away :
    (c n mem size : ℕ) (used held : Pieces)
    → mem ≡ c + 16
    → size ≤ n
    → Clear c n used
    → Owned used held
    → Away mem size held
Owned-Away c n mem size used [] at fits k o = tt
Owned-Away c n mem size used ((m, z) ∷ held) at fits k (b, d, l, a, split, at', fits', rest) =
    let (here, others) = Clear-middle c n b d l a (subst (Clear c n) split k) in
    (
      elim here [
        | inl lt ↦ inl (omega (arith, lt, at, at', fits))
        | inr gt ↦ inr (omega (arith, gt, at, at', fits'))
      ],
      Owned-Away c n mem size (b ++ a) held at fits others rest,
    )

Tiled-Disjoint :
    (lo hi : ℕ) (used held : Pieces) → Tiled lo hi used → Owned used held → Disjoint lo hi held
Tiled-Disjoint lo hi used [] t o = tt
Tiled-Disjoint lo hi used ((m, z) ∷ held) t (b, c, n, a, split, at, fits, rest) =
    let (low, high, clear, others) = Tiled-middle lo hi b c n a (subst (Tiled lo hi) split t) in
    (
      omega (arith, low, at),
      omega (arith, high, at, fits),
      Owned-Away c n m z (b ++ a) held at fits clear rest,
      Tiled-Disjoint lo hi (b ++ a) held others rest,
    )

pub Owned-Disjoint :
    (base : ℕ) (bs : List Block) (held : Pieces)
    → Owned (used_at base bs) held
    → Disjoint base (base + span bs) held
Owned-Disjoint base bs held =
    Tiled-Disjoint base (base + span bs) (used_at base bs) held (used_at-Tiled base bs)
