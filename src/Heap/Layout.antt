-- ===== src/Heap/Layout.antt =====
-- The blocks of a heap of source/heap.c, one behind the other.
use neon_eds.Common.{
  ℕ, ◌+◌, ◌-◌, ◌<◌, ◌≤◌, ◌^◌, ◌≡◌, List, [], ◌∷◌, ◌++◌, ◌∈◌, ◌∉◌, has, Bool, true, false,
  if◌then◌else◌, arith, ap, ◌∙◌, subst, neg32, Bool-cases, inl, inr,
}
use native.Mathlib.Decide.{ℕ_discrete}
use neon_eds.Heap.{Blocks}

-- A block of the region: its bytes behind `struct heap_phy`, and whether it is allocated.
pub record Block : Type 0 where
  pub size : ℕ
  pub used : Bool

abbrev pub free_of : ℕ → Block
free_of n = record { size = n; used = false }

abbrev pub used_of : ℕ → Block
used_of n = record { size = n; used = true }

-- `phy.size`, which is negative in an allocated block.
abbrev pub mark : Block → ℕ
mark b = if b.used then neg32 b.size else b.size

-- The bytes of a row of blocks.
abbrev pub span : List Block → ℕ
span [] = 0
span (b ∷ bs) = 16 + b.size + span bs

-- The last block of a row that starts at `a`, behind block `p`.
abbrev pub last_of : ℕ → ℕ → List Block → ℕ
last_of p a [] = p
last_of p a (b ∷ bs) = last_of a (a + 16 + b.size) bs

-- The addresses of the free blocks.
abbrev pub free_at : ℕ → List Block → List ℕ
free_at a [] = []
free_at a (b ∷ bs) =
    if b.used then free_at (a + 16 + b.size) bs else a ∷ free_at (a + 16 + b.size) bs

-- What stands in the blocks of a row: the size, and the block before. Each has room for its free links.
unfoldable pub Row : Blocks → ℕ → ℕ → List Block → Type 0
Row h p a [] = Unit {0}
Row h p a (b ∷ bs) =
    (h.prev a ≡ p) × (h.size a ≡ mark b) × (16 ≤ b.size) × Row h a (a + 16 + b.size) bs

-- The same up to the sentinel behind the row, which is marked as allocated.
unfoldable pub Whole : Blocks → ℕ → ℕ → List Block → Type 0
Whole h p a [] = (h.prev a ≡ p) × (h.size a ≡ 2 ^ 32 - 1)
Whole h p a (b ∷ bs) =
    (h.prev a ≡ p) × (h.size a ≡ mark b) × (16 ≤ b.size) × Whole h a (a + 16 + b.size) bs

-- The allocated blocks: address and size.
abbrev pub used_at : ℕ → List Block → List (ℕ × ℕ)
used_at a [] = []
used_at a (b ∷ bs) =
    if b.used then (a, b.size) ∷ used_at (a + 16 + b.size) bs else used_at (a + 16 + b.size) bs

pub span-append : (xs ys : List Block) → span (xs ++ ys) ≡ span xs + span ys
span-append [] ys = omega arith
span-append (x ∷ xs) ys = omega (arith, span-append xs ys)

pub last_of-append :
    (p a : ℕ) (xs ys : List Block)
    → last_of p a (xs ++ ys) ≡ last_of (last_of p a xs) (a + span xs) ys
last_of-append p a [] ys = ap (λ e. last_of p e ys) (omega arith)
last_of-append p a (x ∷ xs) ys =
    last_of-append a (a + 16 + x.size) xs ys
    ∙ ap (λ e. last_of (last_of a (a + 16 + x.size) xs) e ys) (omega arith)

pub free_at-append :
    (a : ℕ) (xs ys : List Block) → free_at a (xs ++ ys) ≡ free_at a xs ++ free_at (a + span xs) ys
free_at-append a [] ys = ap (λ e. free_at e ys) (omega arith)
free_at-append a (x ∷ xs) ys =
    let next = a + 16 + x.size in
    let rest : free_at next (xs ++ ys)
        ≡ free_at next xs ++ free_at (a + (16 + x.size + span xs)) ys =
      free_at-append next xs ys ∙ ap (λ e. free_at next xs ++ free_at e ys) (omega arith) in
    elim (Bool-cases x.used) [ inl e ↦ rw e rest | inr e ↦ rw e (ap (λ l. a ∷ l) rest) ]

-- The free blocks lie in the row.
pub free_at-from : (a x : ℕ) (bs : List Block) → x ∈ free_at a bs → (a ≤ x) × (x + 16 ≤ a + span bs)
free_at-from a x [] i = absurd (ground arith)
free_at-from a x (b ∷ bs) i = elim (Bool-cases b.used) [
  | inl e ↦
      let j : x ∈ free_at (a + 16 + b.size) bs =
        subst
          (λ (u : Bool).
            x ∈ (if u then free_at (a + 16 + b.size) bs else a ∷ free_at (a + 16 + b.size) bs))
          e i in
      let (lo, hi) = free_at-from (a + 16 + b.size) x bs j in (omega (arith, lo), omega (arith, hi))
  | inr e ↦
      let j : x ∈ a ∷ free_at (a + 16 + b.size) bs =
        subst
          (λ (u : Bool).
            x ∈ (if u then free_at (a + 16 + b.size) bs else a ∷ free_at (a + 16 + b.size) bs))
          e i in
      elim (ℕ_discrete x a) [
        | yes at ↦ (omega (arith, at), omega (arith, at))
        | no ne ↦
            let (lo, hi) = free_at-from (a + 16 + b.size) x bs (ground (arith, j, ne)) in
            (omega (arith, lo), omega (arith, hi))
      ]
]

pub free_at-below : (a x : ℕ) (bs : List Block) → a + span bs ≤ x → x ∉ free_at a bs
free_at-below a x bs hi = elim (Bool-cases (has x (free_at a bs))) [
  | inl i ↦ absurd (omega (arith, hi, free_at-from a x bs i))
  | inr o ↦ o
]

pub free_at-above : (a x : ℕ) (bs : List Block) → x < a → x ∉ free_at a bs
free_at-above a x bs lo = elim (Bool-cases (has x (free_at a bs))) [
  | inl i ↦ absurd (omega (arith, lo, free_at-from a x bs i))
  | inr o ↦ o
]

pub used_at-append :
    (a : ℕ) (xs ys : List Block) → used_at a (xs ++ ys) ≡ used_at a xs ++ used_at (a + span xs) ys
used_at-append a [] ys = ap (λ e. used_at e ys) (omega arith)
used_at-append a (x ∷ xs) ys =
    let next = a + 16 + x.size in
    let rest : used_at next (xs ++ ys)
        ≡ used_at next xs ++ used_at (a + (16 + x.size + span xs)) ys =
      used_at-append next xs ys ∙ ap (λ e. used_at next xs ++ used_at e ys) (omega arith) in
    elim (Bool-cases x.used) [ inl e ↦ rw e (ap (λ l. (a, x.size) ∷ l) rest) | inr e ↦ rw e rest ]

pub Whole-split :
    (h : Blocks) (p a : ℕ) (xs ys : List Block)
    → Whole h p a (xs ++ ys)
    → Row h p a xs × Whole h (last_of p a xs) (a + span xs) ys
unfolding Row Whole
Whole-split h p a [] ys r = (tt, subst (λ e. Whole h p e ys) {y = a + 0} (omega arith) r)
Whole-split h p a (x ∷ xs) ys (before, size, room, r) =
    let (front, back) = Whole-split h a (a + 16 + x.size) xs ys r in
    (
      (before, size, room, front),
      subst (λ e. Whole h (last_of a (a + 16 + x.size) xs) e ys) (omega arith) back,
    )

pub Whole-join :
    (h : Blocks) (p a : ℕ) (xs ys : List Block)
    → Row h p a xs
    → Whole h (last_of p a xs) (a + span xs) ys
    → Whole h p a (xs ++ ys)
unfolding Row Whole
Whole-join h p a [] ys front back = subst (λ e. Whole h p e ys) {x = a + 0} (omega arith) back
Whole-join h p a (x ∷ xs) ys (before, size, room, r) back = (
  before,
  size,
  room,
  Whole-join h a (a + 16 + x.size) xs ys r
      (subst (λ e. Whole h (last_of a (a + 16 + x.size) xs) e ys) (omega arith) back),
)

pub Whole-prev : (h : Blocks) (p a : ℕ) (bs : List Block) → Whole h p a bs → h.prev a ≡ p
unfolding Whole
Whole-prev h p a [] w = w.0
Whole-prev h p a (b ∷ bs) w = w.0

-- A row with its sentinel, with another block before it.
pub Whole-relink :
    (h g : Blocks) (p q a : ℕ) (bs : List Block)
    → g.prev a ≡ q
    → ((x : ℕ) → a < x → g.prev x ≡ h.prev x)
    → ((x : ℕ) → a ≤ x → g.size x ≡ h.size x)
    → Whole h p a bs
    → Whole g q a bs
unfolding Whole
Whole-relink h g p q a [] here prevs sizes w = (here, sizes a (omega arith) ∙ w.1)
Whole-relink h g p q a (b ∷ bs) here prevs sizes (before, size, room, w) = (
  here,
  sizes a (omega arith) ∙ size,
  room,
  Whole-relink h g a a (a + 16 + b.size) bs
      (prevs (a + 16 + b.size) (omega arith) ∙ Whole-prev h a (a + 16 + b.size) bs w)
      (λ x lo. prevs x (omega (arith, lo))) (λ x lo. sizes x (omega (arith, lo))) w,
)

-- A row depends on the blocks that stand in it.
pub Row-frame :
    (h g : Blocks) (p a : ℕ) (bs : List Block)
    → ((x : ℕ) → a ≤ x → x < a + span bs → (g.prev x ≡ h.prev x) × (g.size x ≡ h.size x))
    → Row h p a bs
    → Row g p a bs
unfolding Row
Row-frame h g p a [] same r = tt
Row-frame h g p a (b ∷ bs) same (before, size, room, r) = (
  (same a (omega arith) (omega arith)).0 ∙ before,
  (same a (omega arith) (omega arith)).1 ∙ size,
  room,
  Row-frame h g a (a + 16 + b.size) bs (λ x lo hi. same x (omega (arith, lo)) (omega (arith, hi)))
      r,
)

-- A free block stands somewhere in the row.
abbrev pub FreeBlock : ℕ → ℕ → List Block → Type 0
FreeBlock a x bs =
    (xs : List Block) × (n : ℕ) × (ys : List Block) × (bs ≡ xs ++ free_of n ∷ ys)
    × (x ≡ a + span xs)

pub free_at-split : (a x : ℕ) (bs : List Block) → x ∈ free_at a bs → FreeBlock a x bs
free_at-split a x [] i = absurd (ground arith)
free_at-split a x (b ∷ bs) i =
    let next = a + 16 + b.size in
    let deeper : x ∈ free_at next bs → FreeBlock a x (b ∷ bs) = λ j.
      let (xs, n, ys, e, at) = free_at-split next x bs j in
      (b ∷ xs, n, ys, ap (λ l. b ∷ l) e, omega (arith, at)) in
    elim (Bool-cases b.used) [
      | inl e ↦
          deeper
            (subst (λ (u : Bool). x ∈ (if u then free_at next bs else a ∷ free_at next bs)) e i)
      | inr e ↦
          let j : x ∈ a ∷ free_at next bs =
            subst (λ (u : Bool). x ∈ (if u then free_at next bs else a ∷ free_at next bs)) e i in
          elim (ℕ_discrete x a) [
            | yes at ↦
                ([], b.size, bs, λ k. record { size = b.size; used = e k } ∷ bs, omega (arith, at))
            | no ne ↦ deeper (ground (arith, j, ne))
          ]
    ]
