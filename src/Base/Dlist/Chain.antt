-- ===== src/Base/Dlist/Chain.antt =====
-- Runs of linked nodes: from `a` the `next` pointers lead through `xs` to `b`, and `prev` leads back.
use neon_eds.Common.{ℕ, ◌≡◌, ◌∙◌, List, [], ◌∷◌, ◌++◌, ◌∈◌, arith}
use neon_eds.Base.Dlist.{Links}

abbrev pub Chain : Links → ℕ → List ℕ → ℕ → Type 0
Chain h a [] b = (h.next a ≡ b) × (h.prev b ≡ a)
Chain h a (x ∷ xs) b = (h.next a ≡ x) × (h.prev x ≡ a) × Chain h x xs b

-- A chain depends on `next` at its nodes but the last and on `prev` at its nodes but the first.
pub Chain-frame :
    {h g : Links} (a : ℕ) (xs : List ℕ) (b : ℕ)
    → ((x : ℕ) → x ∈ a ∷ xs → g.next x ≡ h.next x)
    → ((x : ℕ) → x ∈ xs ++ b ∷ [] → g.prev x ≡ h.prev x)
    → Chain h a xs b
    → Chain g a xs b
Chain-frame a [] b n p c = (n a (ground arith) ∙ c.0, p b (ground arith) ∙ c.1)
Chain-frame a (x ∷ xs) b n p c = (
  n a (ground arith) ∙ c.0,
  p x (ground arith) ∙ c.1,
  Chain-frame x xs b (λ y m. n y (ground arith)) (λ y m. p y (ground arith)) c.2,
)

pub Chain-append :
    (h : Links) (a : ℕ) (xs : List ℕ) (m : ℕ) (ys : List ℕ) (b : ℕ)
    → Chain h a xs m
    → Chain h m ys b
    → Chain h a (xs ++ m ∷ ys) b
Chain-append h a [] m ys b c d = (c.0, c.1, d)
Chain-append h a (x ∷ xs) m ys b c d = (c.0, c.1, Chain-append h x xs m ys b c.2 d)

pub Chain-split :
    (h : Links) (a : ℕ) (xs : List ℕ) (m : ℕ) (ys : List ℕ) (b : ℕ)
    → Chain h a (xs ++ m ∷ ys) b
    → Chain h a xs m × Chain h m ys b
Chain-split h a [] m ys b c = ((c.0, c.1), c.2)
Chain-split h a (x ∷ xs) m ys b c = let (l, r) = Chain-split h x xs m ys b c.2 in ((c.0, c.1, l), r)

-- The node before the end of a chain is its start or one of its nodes.
pub prev-mem : (h : Links) (a : ℕ) (xs : List ℕ) (b : ℕ) → Chain h a xs b → h.prev b ∈ a ∷ xs
prev-mem h a [] b c = ground arith
prev-mem h a (x ∷ xs) b c = ground (arith, prev-mem h x xs b)

pub next-mem : (h : Links) (a : ℕ) (xs : List ℕ) (b : ℕ) → Chain h a xs b → h.next a ∈ xs ++ b ∷ []
next-mem h a [] b c = ground arith
next-mem h a (x ∷ xs) b c = ground arith
