-- ===== src/Base/BiasList/SortInsert.antt =====
-- What `nbias_list_sort_insert` does to a list.
use neon_eds.Common.{
  ℕ, zero, suc, ◌<◌, ◌≡◌, refl, List, [], ◌∷◌, ◌++◌, ◌∉◌, false, Bool-cases, inl, inr, leb, ◌==◌,
  if◌then◌else◌, done, length, arith, has-append, append_assoc,
}
use neon_eds.Base.Dlist.{Links, ndlist_add_before, ndlist_next}
use neon_eds.Base.Dlist.Chain.{Chain-split}
use neon_eds.Base.Dlist.Ring.{Ring, front, next-front}
use neon_eds.Base.Dlist.Insert.{add_before-Ring}
use neon_eds.Base.BiasList.{BiasNodes, sort_insert_loop, nbias_list_sort_insert}

-- The list with `n` before the first node of at least its bias, if there is one.
unfoldable pub sort_insert : (ℕ → ℕ) → ℕ → List ℕ → List ℕ
sort_insert bias n [] = []
sort_insert bias n (x ∷ xs) =
    if leb (bias n) (bias x) then n ∷ x ∷ xs else x ∷ sort_insert bias n xs

sort_insert_loop-Ring :
    (fuel : ℕ) (h : BiasNodes) (s n : ℕ) (xs ys : List ℕ)
    → Ring h.list s (xs ++ ys)
    → n ∉ s ∷ (xs ++ ys)
    → length ys < fuel
    → (h' : BiasNodes) × (sort_insert_loop fuel h s n (front s ys) ≡ done h')
      × Ring h'.list s (xs ++ sort_insert h.bias n ys)
      × (h'.bias ≡ h.bias)
unfolding sort_insert_loop sort_insert ndlist_next
sort_insert_loop-Ring zero h s n xs ys r o k = absurd (omega arith)
sort_insert_loop-Ring (suc fuel) h s n xs [] r o k = (h, ground arith, r, refl)
sort_insert_loop-Ring (suc fuel) h s n xs (y ∷ ys) r o k =
    let ne : (y == s) ≡ false = ground (arith, r.distinct, has-append s xs (y ∷ ys)) in
    elim (Bool-cases (leb (h.bias n) (h.bias y))) [
      | inl e ↦ (
        record h { list = ndlist_add_before h.list y n },
        rw (ne, e) refl,
        rw e (add_before-Ring h.list s n xs (y ∷ ys) r o),
        refl,
      )
      | inr e ↦
          let (h', run, ring, b) =
            sort_insert_loop-Ring fuel h s n (xs ++ y ∷ []) ys (rw append_assoc r)
              (rw append_assoc o) (omega arith) in
          (
            h',
            rw (ne, e, following h.list s xs y ys r) run,
            rw (e, ← append_assoc xs (y ∷ []) (sort_insert h.bias n ys)) ring,
            b,
          )
    ]
  where
    following :
        (h : Links) (s : ℕ) (xs : List ℕ) (y : ℕ) (ys : List ℕ)
        → Ring h s (xs ++ y ∷ ys)
        → ndlist_next h y ≡ front s ys
    following h s xs y ys r = next-front h y ys s (Chain-split h s xs y ys s r.chain).1

-- `nbias_list_sort_insert` puts the node before the first one of at least its bias. Where every node
-- of the list has a smaller bias, the list stays as it is: the node is not inserted.
pub nbias_list_sort_insert-Ring :
    (fuel : ℕ) (h : BiasNodes) (s n : ℕ) (xs : List ℕ)
    → Ring h.list s xs
    → n ∉ s ∷ xs
    → length xs < fuel
    → (h' : BiasNodes) × (nbias_list_sort_insert fuel h s n ≡ done h')
      × Ring h'.list s (sort_insert h.bias n xs)
      × (h'.bias ≡ h.bias)
unfolding nbias_list_sort_insert ndlist_next
nbias_list_sort_insert-Ring fuel h s n xs r o k =
    let (h', run, ring, b) = sort_insert_loop-Ring fuel h s n [] xs r o k in
    (h', rw (first h.list s xs r) run, ring, b)
  where
    first : (h : Links) (s : ℕ) (xs : List ℕ) → Ring h s xs → ndlist_next h s ≡ front s xs
    first h s xs r = next-front h s xs s r.chain
