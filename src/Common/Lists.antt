-- ===== src/Common/Lists.antt =====
-- Lists measured and indexed by native numbers, under the library's names, and lists of addresses.
use Prim.Native.Nat.{ℕ, zero, suc, ◌+◌, ◌<◌}
use mathlib.Core.Path.{◌≡◌, refl, ap}
use mathlib.Core.Logic.{◌≢◌}
use mathlib.Core.Bool.{Bool, true, false, ◌||◌}
use mathlib.Core.List.{List, [], ◌∷◌, ◌++◌}
use native.Mathlib.Omega.{arith}
use native.Mathlib.Decide.{ℕ_discrete}
use neon_eds.Common.Tests.{◌==◌}

module _ {ℓ} {A : Type ℓ} where
  abbrev pub length : List A → ℕ
  length [] = 0
  length (x ∷ xs) = suc (length xs)

  abbrev pub get_or : List A → ℕ → A → A
  get_or [] i d = d
  get_or (x ∷ xs) zero d = x
  get_or (x ∷ xs) (suc i) d = get_or xs i d

  -- A write out of bounds changes nothing.
  abbrev pub set : List A → ℕ → A → List A
  set [] i v = []
  set (x ∷ xs) zero v = v ∷ xs
  set (x ∷ xs) (suc i) v = x ∷ set xs i v

  pub length-append : (xs ys : List A) → length (xs ++ ys) ≡ length xs + length ys
  length-append [] ys = omega arith
  length-append (x ∷ xs) ys = omega (arith, length-append xs ys)

  pub length-set : (xs : List A) (i : ℕ) (v : A) → length (set xs i v) ≡ length xs
  length-set [] i v = refl
  length-set (x ∷ xs) zero v = refl
  length-set (x ∷ xs) (suc i) v = ap suc (length-set xs i v)

  pub get_or-set_self :
      (xs : List A) (i : ℕ) (v d : A) → i < length xs → get_or (set xs i v) i d ≡ v
  get_or-set_self [] i v d h = absurd (omega arith)
  get_or-set_self (x ∷ xs) zero v d h = refl
  get_or-set_self (x ∷ xs) (suc i) v d h = get_or-set_self xs i v d (omega arith)

  pub get_or-set_ne :
      (xs : List A) (i j : ℕ) (v d : A) → i ≢ j → get_or (set xs i v) j d ≡ get_or xs j d
  get_or-set_ne [] i j v d h = refl
  get_or-set_ne (x ∷ xs) zero zero v d h = absurd (h refl)
  get_or-set_ne (x ∷ xs) zero (suc j) v d h = refl
  get_or-set_ne (x ∷ xs) (suc i) zero v d h = refl
  get_or-set_ne (x ∷ xs) (suc i) (suc j) v d h = get_or-set_ne xs i j v d (λ e. h (ap suc e))

-- Membership in a list of addresses, as a test.
abbrev pub has : ℕ → List ℕ → Bool
has a [] = false
has a (x ∷ xs) = (a == x) || has a xs

infix 40 ◌∈◌ ◌∉◌
abbrev pub ◌∈◌ : ℕ → List ℕ → Type 0
a ∈ xs = has a xs ≡ true

abbrev pub ◌∉◌ : ℕ → List ℕ → Type 0
a ∉ xs = has a xs ≡ false

-- No address stands twice.
abbrev pub Distinct : List ℕ → Type 0
Distinct [] = Unit
Distinct (x ∷ xs) = (x ∉ xs) × Distinct xs

pub has-append : (a : ℕ) (xs ys : List ℕ) → has a (xs ++ ys) ≡ (has a xs || has a ys)
has-append a [] ys = refl
has-append a (x ∷ xs) ys = ground (arith, has-append a xs ys)

pub ne_of_mem : (a b : ℕ) (xs : List ℕ) → a ∈ xs → b ∉ xs → a ≢ b
ne_of_mem a b [] h k = absurd (ground arith)
ne_of_mem a b (x ∷ xs) h k = ground (arith, ne_of_mem a b xs)

pub Distinct-middle :
    (xs : List ℕ) (n : ℕ) (ys : List ℕ)
    → Distinct (xs ++ n ∷ ys)
    → Distinct (xs ++ ys) × (n ∉ xs) × (n ∉ ys)
Distinct-middle [] n ys d = (d.1, refl, d.0)
Distinct-middle (x ∷ xs) n ys d =
    let ih = Distinct-middle xs n ys d.1 in
    ground (arith, ih, has-append x xs (n ∷ ys), has-append x xs ys)

pub Distinct-insert :
    (xs : List ℕ) (n : ℕ) (ys : List ℕ)
    → Distinct (xs ++ ys)
    → n ∉ xs
    → n ∉ ys
    → Distinct (xs ++ n ∷ ys)
Distinct-insert [] n ys d p q = (q, d)
Distinct-insert (x ∷ xs) n ys d p q =
    ground (arith, Distinct-insert xs n ys d.1, has-append x xs (n ∷ ys), has-append x xs ys)

pub Distinct-left : (xs ys : List ℕ) → Distinct (xs ++ ys) → Distinct xs
Distinct-left [] ys d = tt
Distinct-left (x ∷ xs) ys d = (ground (arith, has-append x xs ys), Distinct-left xs ys d.1)

pub Distinct-right : (xs ys : List ℕ) → Distinct (xs ++ ys) → Distinct ys
Distinct-right [] ys d = d
Distinct-right (x ∷ xs) ys d = Distinct-right xs ys d.1

pub Distinct-apart : (xs ys : List ℕ) (a : ℕ) → Distinct (xs ++ ys) → a ∈ xs → a ∉ ys
Distinct-apart [] ys a d m = absurd (ground arith)
Distinct-apart (x ∷ xs) ys a d m = ground (arith, has-append x xs ys, Distinct-apart xs ys a d.1)

-- A member splits its list.
pub split_of_mem :
    (a : ℕ) (xs : List ℕ) → a ∈ xs → (ys : List ℕ) × (zs : List ℕ) × (xs ≡ ys ++ a ∷ zs)
split_of_mem a [] h = absurd (ground arith)
split_of_mem a (x ∷ xs) h = elim (ℕ_discrete a x) [
  | yes e ↦ ([], xs, ap (λ (y : ℕ). y ∷ xs) (ground arith))
  | no ne ↦ let (ys, zs, e) = split_of_mem a xs (ground arith) in (x ∷ ys, zs, ap (λ l. x ∷ l) e)
]
