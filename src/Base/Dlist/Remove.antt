-- ===== src/Base/Dlist/Remove.antt =====
-- Removal from a circular list: `ndlist_remove` and `ndlist_rotate_left`.
use neon_eds.Common.{
  Bool, ℕ, ◌≡◌, ◌≢◌, List, [], ◌∷◌, ◌++◌, ◌∉◌, Distinct, arith, has-append, ne_of_mem,
  Distinct-middle, append-nil, true, sym,
}
use neon_eds.Base.Dlist.{Links, ndlist_remove, ndlist_is_empty, ndlist_rotate_left}
use neon_eds.Base.Dlist.Chain.{Chain, Chain-frame, Chain-split, prev-mem, next-mem}
use neon_eds.Base.Dlist.Fields.{next-remove, prev-remove}
use neon_eds.Base.Dlist.Ring.{Ring, is_empty-Ring}
use neon_eds.Base.Dlist.Insert.{add_before-Ring}

module _ (v : Bool) (h : Links) (n : ℕ) where
  -- The neighbours of the removed node are linked to each other.
  bridge-Chain :
      (a : ℕ) (ys : List ℕ) (b : ℕ)
      → Chain h a [] n
      → Chain h n ys b
      → a ≢ n
      → n ≢ b
      → a ∉ ys
      → n ∉ ys
      → b ∉ ys
      → Distinct ys
      → Chain (ndlist_remove v h n) a ys b
  bridge-Chain a [] b l r p q o o' e d = ground (arith, next-remove v h n a, prev-remove v h n b)
  bridge-Chain a (y ∷ ys) b l r p q o o' e d = (
    ground (arith, next-remove v h n a),
    ground (arith, prev-remove v h n y),
    Chain-frame y ys b
        (λ x m.
          ground (arith, next-remove v h n x, ne_of_mem x a (y ∷ ys) m, ne_of_mem x n (y ∷ ys) m))
        (λ x m. ground (
          arith,
          prev-remove v h n x,
          has-append y ys (b ∷ []),
          has-append n ys (b ∷ []),
          ne_of_mem x y (ys ++ b ∷ []) m,
          ne_of_mem x n (ys ++ b ∷ []) m,
        ))
        r.2,
  )

  shrink-Chain :
      (a : ℕ) (xs ys : List ℕ) (b : ℕ)
      → Chain h a (xs ++ n ∷ ys) b
      → Distinct (a ∷ (xs ++ n ∷ ys))
      → n ≢ b
      → b ∉ xs ++ n ∷ ys
      → Chain (ndlist_remove v h n) a (xs ++ ys) b
  shrink-Chain a [] ys b c d q e =
      bridge-Chain a ys b (c.0, c.1) c.2 (ground arith) q (ground arith) (ground arith)
        (ground arith) d.1.1
  shrink-Chain a (x ∷ xs) ys b c d q e =
      let (l, r) = Chain-split h x xs n ys b c.2 in
      let (_, out, _) = Distinct-middle (a ∷ x ∷ xs) n ys d in
      let far : a ≢ h.prev n = λ p.
        ne_of_mem (h.prev n) a (x ∷ xs) (prev-mem h x xs n l)
          (ground (arith, has-append a (x ∷ xs) (n ∷ ys))) (sym p) in
      let far' : x ≢ h.next n = λ p.
        ne_of_mem (h.next n) x (ys ++ b ∷ []) (next-mem h n ys b r)
          (ground (arith, has-append x xs (n ∷ ys), has-append x ys (b ∷ []))) (sym p) in
      (
        ground (arith, next-remove v h n a),
        ground (arith, prev-remove v h n x),
        shrink-Chain x xs ys b c.2 d.1 q (ground arith),
      )

-- `ndlist_remove` takes the node out of its list.
pub remove-Ring :
    (v : Bool) (h : Links) (s n : ℕ) (xs ys : List ℕ)
    → Ring h s (xs ++ n ∷ ys)
    → Ring (ndlist_remove v h n) s (xs ++ ys)
remove-Ring v h s n xs ys r =
    let (d, o, o') = Distinct-middle (s ∷ xs) n ys r.distinct in
    record {
      chain = shrink-Chain v h n s xs ys s r.chain r.distinct (ground arith) r.distinct.0;
      distinct = d;
    }

-- The removed node is empty: it is its own successor.
pub remove-is_empty :
    (v : Bool) (h : Links) (n : ℕ) → ndlist_is_empty (ndlist_remove v h n) n ≡ true
unfolding ndlist_is_empty
remove-is_empty v h n = ground (arith, next-remove v h n n)

-- `ndlist_rotate_left` moves the first node to the end.
pub rotate_left-Ring :
    (v : Bool) (h : Links) (s x : ℕ) (xs : List ℕ)
    → Ring h s (x ∷ xs)
    → Ring (ndlist_rotate_left v h s) s (xs ++ x ∷ [])
unfolding ndlist_rotate_left
rotate_left-Ring v h s x xs r =
    let (_, _, new) = Distinct-middle (s ∷ []) x xs r.distinct in
    let rest = remove-Ring v h s x [] xs r in
    let shorter : Ring (ndlist_remove v h x) s (xs ++ []) = rw append-nil rest in
    rw (is_empty-Ring h s (x ∷ xs) r, r.chain.0)
      (add_before-Ring (ndlist_remove v h x) s x xs [] shorter (ground (arith, has-append x xs [])))
