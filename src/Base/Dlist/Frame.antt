-- ===== src/Base/Dlist/Frame.antt =====
-- An operation on one list leaves the others as they are.
use neon_eds.Common.{Bool, ℕ, ◌≡◌, ◌≢◌, List, [], ◌∷◌, ◌∈◌, ◌∉◌, arith, has-append, ne_of_mem}
use neon_eds.Base.Dlist.{Links, ndlist_init, ndlist_add_before, ndlist_add_after, ndlist_remove}
use neon_eds.Base.Dlist.Chain.{Chain-frame}
use neon_eds.Base.Dlist.Fields.{
  next-add_before, prev-add_before, next-add_after, prev-add_after, next-remove, prev-remove,
  next-init, prev-init,
}
use neon_eds.Base.Dlist.Ring.{Ring}

-- Two states that agree on the nodes of a list.
pub Ring-frame :
    (h g : Links) (s : ℕ) (xs : List ℕ)
    → ((a : ℕ) → a ∈ s ∷ xs → g.next a ≡ h.next a)
    → ((a : ℕ) → a ∈ s ∷ xs → g.prev a ≡ h.prev a)
    → Ring h s xs
    → Ring g s xs
Ring-frame h g s xs n p r = record {
  chain = Chain-frame s xs s n (λ a m. p a (ground (arith, has-append a xs (s ∷ [])))) r.chain;
  distinct = r.distinct;
}

module _ (h : Links) (s : ℕ) (xs : List ℕ) (r : Ring h s xs) where
  pub add_before-other :
      (c n : ℕ)
      → c ≢ n
      → c ∉ s ∷ xs
      → h.prev c ∉ s ∷ xs
      → n ∉ s ∷ xs
      → Ring (ndlist_add_before h c n) s xs
  add_before-other c n ne o o' o'' =
      Ring-frame h (ndlist_add_before h c n) s xs
        (λ a m. ground (
          arith,
          next-add_before h c n ne a,
          ne_of_mem a (h.prev c) (s ∷ xs) m,
          ne_of_mem a n (s ∷ xs) m,
        ))
        (λ a m.
          ground
            (arith, prev-add_before h c n ne a, ne_of_mem a c (s ∷ xs) m, ne_of_mem a n (s ∷ xs) m))
        r

  pub add_after-other :
      (c n : ℕ)
      → c ≢ n
      → c ∉ s ∷ xs
      → h.next c ∉ s ∷ xs
      → n ∉ s ∷ xs
      → Ring (ndlist_add_after h c n) s xs
  add_after-other c n ne o o' o'' =
      Ring-frame h (ndlist_add_after h c n) s xs
        (λ a m.
          ground
            (arith, next-add_after h c n ne a, ne_of_mem a c (s ∷ xs) m, ne_of_mem a n (s ∷ xs) m))
        (λ a m. ground (
          arith,
          prev-add_after h c n ne a,
          ne_of_mem a (h.next c) (s ∷ xs) m,
          ne_of_mem a n (s ∷ xs) m,
        ))
        r

  pub remove-other :
      (v : Bool) (n : ℕ)
      → n ∉ s ∷ xs
      → h.prev n ∉ s ∷ xs
      → h.next n ∉ s ∷ xs
      → Ring (ndlist_remove v h n) s xs
  remove-other v n o o' o'' =
      Ring-frame h (ndlist_remove v h n) s xs
        (λ a m.
          ground (
            arith,
            next-remove v h n a,
            ne_of_mem a (h.prev n) (s ∷ xs) m,
            ne_of_mem a n (s ∷ xs) m,
          ))
        (λ a m.
          ground (
            arith,
            prev-remove v h n a,
            ne_of_mem a (h.next n) (s ∷ xs) m,
            ne_of_mem a n (s ∷ xs) m,
          ))
        r

  pub init-other : (n : ℕ) → n ∉ s ∷ xs → Ring (ndlist_init h n) s xs
  init-other n o =
      Ring-frame h (ndlist_init h n) s xs
        (λ a m. ground (arith, next-init h n a, ne_of_mem a n (s ∷ xs) m))
        (λ a m. ground (arith, prev-init h n a, ne_of_mem a n (s ∷ xs) m)) r
