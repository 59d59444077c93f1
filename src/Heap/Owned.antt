-- ===== src/Heap/Owned.antt =====
-- The memory that a client of the heap of source/heap.c holds: one block of the row for each piece.
use neon_eds.Common.{
  ℕ, zero, suc, ◌+◌, ◌≤◌, ◌≡◌, inl, inr, List, [], ◌∷◌, ◌++◌, true, false, Bool-cases, Option, none,
  some, arith, refl, ap, ap₂, ◌∙◌, sym, subst,
}
use neon_eds.Heap.Layout.{Block, used_of, span, used_at}

abbrev pub Pieces : Type 0
Pieces = List (ℕ × ℕ)

-- Each piece (address, size) lies in its own block (address, bytes), and no block is left over.
abbrev pub Owned : Pieces → Pieces → Type 0
Owned used [] = used ≡ []
Owned used ((mem, size) ∷ held) =
    (b : Pieces) × (c : ℕ) × (n : ℕ) × (a : Pieces) × (used ≡ b ++ (c, n) ∷ a)
    × (mem ≡ c + 16)
    × (size ≤ n)
    × Owned (b ++ a) held

unfoldable pub pick : Pieces → ℕ → Option (ℕ × ℕ)
pick [] i = none
pick (x ∷ xs) zero = some x
pick (x ∷ xs) (suc i) = pick xs i

unfoldable pub drop_at : Pieces → ℕ → Pieces
drop_at [] i = []
drop_at (x ∷ xs) zero = xs
drop_at (x ∷ xs) (suc i) = x ∷ drop_at xs i

head_eq : {x y : ℕ × ℕ} {xs ys : Pieces} → (x ∷ xs) ≡ (y ∷ ys) → x ≡ y
head_eq e = cc e

tail_eq : {x y : ℕ × ℕ} {xs ys : Pieces} → (x ∷ xs) ≡ (y ∷ ys) → xs ≡ ys
tail_eq e = cc e

-- Two members taken in either order.
swap_taken :
    (x e : ℕ × ℕ) (b a b' a' : Pieces)
    → b ++ a ≡ b' ++ e ∷ a'
    → (b₂ : Pieces) × (a₂ : Pieces) × (b₃ : Pieces) × (a₃ : Pieces) × (b ++ x ∷ a ≡ b₂ ++ e ∷ a₂)
      × (b₂ ++ a₂ ≡ b₃ ++ x ∷ a₃)
      × (b₃ ++ a₃ ≡ b' ++ a')
swap_taken x e [] a b' a' h = (x ∷ b', a', [], b' ++ a', ap (λ l. x ∷ l) h, refl, refl)
swap_taken x e (y ∷ b) a [] a' h =
    ([], b ++ x ∷ a, b, a, ap (λ z. z ∷ b ++ x ∷ a) (head_eq h), refl, tail_eq h)
swap_taken x e (y ∷ b) a (y' ∷ b') a' h =
    let (b₂, a₂, b₃, a₃, p, q, r) = swap_taken x e b a b' a' (tail_eq h) in
    (y ∷ b₂, a₂, y ∷ b₃, a₃, ap (λ l. y ∷ l) p, ap (λ l. y ∷ l) q, ap₂ (λ z l. z ∷ l) (head_eq h) r)

-- A piece that is given up leaves the others with their blocks.
pub Owned-drop :
    (used held : Pieces) (i mem size : ℕ)
    → pick held i ≡ some (mem, size)
    → Owned used held
    → Owned used ((mem, size) ∷ drop_at held i)
unfolding pick drop_at
Owned-drop used [] i mem size e o = absurd (ground arith)
Owned-drop used ((m, z) ∷ held) zero mem size e (b, c, n, a, split, at, room, rest) =
    let same : m ≡ mem = cc e in
    let fits : z ≡ size = cc e in
    (b, c, n, a, split, sym same ∙ at, omega (arith, fits, room), rest)
Owned-drop used ((m, z) ∷ held) (suc i) mem size e (b, c, n, a, split, at, room, rest) =
    let (b', c', n', a', split', at', room', rest') = Owned-drop (b ++ a) held i mem size e rest in
    let (b₂, a₂, b₃, a₃, p, q, r) = swap_taken (c, n) (c', n') b a b' a' split' in
    (
      b₂,
      c',
      n',
      a₂,
      split ∙ p,
      at',
      room',
      (b₃, c, n, a₃, q, at, room, subst (λ l. Owned l (drop_at held i)) (sym r) rest'),
    )

-- A used block stands somewhere in the row.
abbrev pub UsedBlock : ℕ → List Block → Pieces → ℕ → ℕ → Pieces → Type 0
UsedBlock base bs b c n a =
    (xs : List Block) × (ys : List Block) × (bs ≡ xs ++ used_of n ∷ ys)
    × (c ≡ base + span xs)
    × (used_at base xs ≡ b)
    × (used_at (c + 16 + n) ys ≡ a)

-- What a row that starts with `d` lists, whether `d` is used or not.
module _ (base : ℕ) (d : Block) (bs : List Block) (c n : ℕ) (a : Pieces) where
  Deeper : Type 0
  Deeper =
      (b : Pieces)
      → used_at (base + 16 + d.size) bs ≡ b ++ (c, n) ∷ a
      → UsedBlock (base + 16 + d.size) bs b c n a

  listed_used :
      d.used ≡ true → used_at base (d ∷ bs) ≡ (base, d.size) ∷ used_at (base + 16 + d.size) bs
  listed_used u = rw u refl

  behind_used :
      (b : Pieces)
      → Deeper
      → d.used ≡ true
      → used_at base (d ∷ bs) ≡ b ++ (c, n) ∷ a
      → UsedBlock base (d ∷ bs) b c n a
  unfolding Deeper
  behind_used [] deeper u e =
      let at : base ≡ c = ap (λ p. p.0) (head_eq (sym (listed_used u) ∙ e)) in
      let bytes : d.size ≡ n = ap (λ p. p.1) (head_eq (sym (listed_used u) ∙ e)) in
      (
        [],
        bs,
        λ k. record { size = bytes k; used = u k } ∷ bs,
        omega (arith, at),
        refl,
        ap (λ o. used_at o bs) (omega (arith, at, bytes)) ∙ tail_eq (sym (listed_used u) ∙ e),
      )
  behind_used (x ∷ b) deeper u e =
      let (xs, ys, row, at, l, r) = deeper b (tail_eq (sym (listed_used u) ∙ e)) in
      (
        d ∷ xs,
        ys,
        ap (λ l. d ∷ l) row,
        omega (arith, at),
        rw u (ap₂ (λ z l. z ∷ l) (head_eq (sym (listed_used u) ∙ e)) l),
        r,
      )

  behind_free :
      (b : Pieces)
      → Deeper
      → d.used ≡ false
      → used_at base (d ∷ bs) ≡ b ++ (c, n) ∷ a
      → UsedBlock base (d ∷ bs) b c n a
  unfolding Deeper
  behind_free b deeper f e =
      let listed : used_at base (d ∷ bs) ≡ used_at (base + 16 + d.size) bs = rw f refl in
      let (xs, ys, row, at, l, r) = deeper b (sym listed ∙ e) in
      (d ∷ xs, ys, ap (λ l. d ∷ l) row, omega (arith, at), rw f l, r)

pub used_at-split :
    (base : ℕ) (bs : List Block) (b : Pieces) (c n : ℕ) (a : Pieces)
    → used_at base bs ≡ b ++ (c, n) ∷ a
    → UsedBlock base bs b c n a
unfolding Deeper
used_at-split base [] [] c n a e = absurd (ground arith)
used_at-split base [] (x ∷ b) c n a e = absurd (ground arith)
used_at-split base (d ∷ bs) b c n a e = elim (Bool-cases d.used) [
  | inl u ↦ behind_used base d bs c n a b (λ b. used_at-split (base + 16 + d.size) bs b c n a) u e
  | inr f ↦ behind_free base d bs c n a b (λ b. used_at-split (base + 16 + d.size) bs b c n a) f e
]
