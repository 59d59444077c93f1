-- ===== src/Base/Dlist/Ring.antt =====
-- A circular list through a sentinel.
use neon_eds.Common.{
  ℕ, ◌≡◌, ◌≢◌, List, [], ◌∷◌, ◌++◌, Bool, true, false, Distinct, arith, refl, ◌∉◌, has, Bool-cases,
  inl, inr, split_of_mem, Distinct-right, subst,
}
use neon_eds.Base.Dlist.{Links, ndlist_init, ndlist_is_empty}
use neon_eds.Base.Dlist.Chain.{Chain}
use neon_eds.Base.Dlist.Fields.{next-init, prev-init}

-- The list with sentinel `s` holds the nodes `xs`, in order, no node twice.
pub record Ring (h : Links) (s : ℕ) (xs : List ℕ) : Type 0 where
  pub chain : Chain h s xs s
  pub distinct : Distinct (s ∷ xs)

-- The first node of a run that ends in `s`.
abbrev pub front : ℕ → List ℕ → ℕ
front s [] = s
front s (x ∷ xs) = x

pub next-front : (h : Links) (a : ℕ) (xs : List ℕ) (b : ℕ) → Chain h a xs b → h.next a ≡ front b xs
next-front h a [] b c = c.0
next-front h a (x ∷ xs) b c = c.0

abbrev pub back : ℕ → List ℕ → ℕ
back a [] = a
back a (x ∷ xs) = back x xs

pub prev-back : (h : Links) (a : ℕ) (xs : List ℕ) (b : ℕ) → Chain h a xs b → h.prev b ≡ back a xs
prev-back h a [] b c = c.1
prev-back h a (x ∷ xs) b c = prev-back h x xs b c.2

-- `ndlist_init` makes an empty list.
pub init-Ring : (h : Links) (s : ℕ) → Ring (ndlist_init h s) s []
init-Ring h s = record {
  chain = ground (arith, next-init h s s, prev-init h s s);
  distinct = (refl, tt);
}

abbrev pub is_nil : List ℕ → Bool
is_nil [] = true
is_nil (x ∷ xs) = false

-- At a sentinel `ndlist_is_empty` tells whether the list holds a node.
pub is_empty-Ring :
    (h : Links) (s : ℕ) (xs : List ℕ) → Ring h s xs → ndlist_is_empty h s ≡ is_nil xs
unfolding ndlist_is_empty
is_empty-Ring h s [] r = ground arith
is_empty-Ring h s (x ∷ xs) r = ground arith

-- At a node of a list it is false.
pub is_empty-node :
    (h : Links) (a : ℕ) (xs : List ℕ) (n : ℕ) (ys : List ℕ) (b : ℕ)
    → Chain h a (xs ++ n ∷ ys) b
    → Distinct (n ∷ ys)
    → n ≢ b
    → ndlist_is_empty h n ≡ false
unfolding ndlist_is_empty
is_empty-node h a [] n [] b c d e = ground arith
is_empty-node h a [] n (y ∷ ys) b c d e = ground arith
is_empty-node h a (x ∷ xs) n ys b c d e = is_empty-node h x xs n ys b c.2 d e

-- A node that is its own successor stands in no list.
pub is_empty-outside :
    (h : Links) (s : ℕ) (xs : List ℕ) (n : ℕ)
    → Ring h s xs
    → n ≢ s
    → ndlist_is_empty h n ≡ true
    → n ∉ s ∷ xs
is_empty-outside h s xs n r ne idle = elim (Bool-cases (has n xs)) [
  | inl m ↦ let (ys, zs, e) = split_of_mem n xs m in absurd (linked ys zs e)
  | inr o ↦ ground arith
]
  where
    linked : (ys zs : List ℕ) → xs ≡ ys ++ n ∷ zs → ⊥
    linked ys zs e =
        let chain : Chain h s (ys ++ n ∷ zs) s = subst (λ l. Chain h s l s) e r.chain in
        let unique : Distinct (ys ++ n ∷ zs) = subst Distinct e r.distinct.1 in
        cc (is_empty-node h s ys n zs s chain (Distinct-right ys (n ∷ zs) unique) ne)
