-- ===== src/Heap/FreeLinks.antt =====
-- The list of the free blocks of source/heap.c, under the writes of `heap_alloc` and `heap_free`.
use neon_eds.Common.{
  ℕ, ◌≡◌, ◌≢◌, List, [], ◌∷◌, ◌++◌, ◌∈◌, ◌∉◌, has-append, Distinct-middle, false, ◌==◌,
  if◌then◌else◌, arith, refl, sym, subst, append_assoc,
}
use neon_eds.Base.Dlist.{Links, ndlist_add_before, ndlist_add_after, ndlist_remove}
use neon_eds.Base.Dlist.Chain.{Chain-split}
use neon_eds.Base.Dlist.Fields.{
  next-add_before, prev-add_before, next-add_after, prev-add_after, next-remove, prev-remove,
}
use neon_eds.Base.Dlist.Ring.{Ring, front, back, next-front, prev-back}
use neon_eds.Base.Dlist.Insert.{add_before-Ring, add_after-Ring}
use neon_eds.Base.Dlist.Remove.{remove-Ring}
use neon_eds.Base.Dlist.Frame.{Ring-frame}
use neon_eds.Heap.{
  link_next_back, link_prev_on, replace_free, unlink_taken, unlink_merged, take_place, push_free,
  first_links,
}

back-in : (s : ℕ) (xs : List ℕ) → back s xs ∈ s ∷ xs
back-in s [] = ground arith
back-in s (x ∷ xs) = ground (arith, back-in x xs)

front-in : (s : ℕ) (ys : List ℕ) → front s ys ∈ s ∷ ys
front-in s [] = ground arith
front-in s (y ∷ ys) = ground arith

-- What stands before and behind a node of the list.
record Neighbours (f : Links) (s : ℕ) (xs : List ℕ) (c : ℕ) (ys : List ℕ) : Type 0 where
  before : f.prev c ∈ s ∷ xs
  behind : f.next c ∈ s ∷ ys
  not_head : c ∉ s ∷ xs
  not_tail : c ∉ s ∷ ys

neighbours :
    (f : Links) (s : ℕ) (xs : List ℕ) (c : ℕ) (ys : List ℕ)
    → Ring f s (xs ++ c ∷ ys)
    → Neighbours f s xs c ys
neighbours f s xs c ys r =
    let (one, other) = Chain-split f s xs c ys s r.chain in
    let (_, o, o') = Distinct-middle xs c ys r.distinct.1 in
    let apart : s ∉ c ∷ [] = ground (arith, r.distinct.0, has-append s xs (c ∷ ys)) in
    record {
      before = subst (λ x. x ∈ s ∷ xs) (sym (prev-back f s xs c one)) (back-in s xs);
      behind = subst (λ x. x ∈ s ∷ ys) (sym (next-front f c ys s other)) (front-in s ys);
      not_head = ground (arith, o, apart);
      not_tail = ground (arith, o', apart);
    }

module _ (f : Links) (s : ℕ) (xs : List ℕ) (c : ℕ) (ys : List ℕ) (r : Ring f s (xs ++ c ∷ ys)) where
  outside : (x : ℕ) → x ∈ s ∷ (xs ++ ys) → (x == c) ≡ false
  outside x m =
      let n = neighbours f s xs c ys r in
      ground (arith, m, n.not_head, n.not_tail, has-append x xs ys)

  pub unlink_taken-Ring : Ring (unlink_taken f c) s (xs ++ ys)
  unfolding unlink_taken link_next_back link_prev_on
  unlink_taken-Ring =
      Ring-frame (ndlist_remove false f c) (unlink_taken f c) s (xs ++ ys)
        (λ x m. ground (arith, outside x m, next-remove false f c x))
        (λ x m. ground (arith, outside x m, prev-remove false f c x))
        (remove-Ring false f s c xs ys r)

  pub unlink_merged-Ring : Ring (unlink_merged f c) s (xs ++ ys)
  unfolding unlink_merged link_next_back link_prev_on
  unlink_merged-Ring =
      Ring-frame (ndlist_remove false f c) (unlink_merged f c) s (xs ++ ys)
        (λ x m. ground (arith, outside x m, next-remove false f c x))
        (λ x m. ground (arith, outside x m, prev-remove false f c x))
        (remove-Ring false f s c xs ys r)

  module _ (t : ℕ) (new : t ∉ s ∷ (xs ++ c ∷ ys)) where
    -- The same list by the operations of include/base/dlist.h.
    moved : Links
    moved = ndlist_remove false (ndlist_add_before f c t) c

    moved-Ring : Ring moved s (xs ++ t ∷ ys)
    unfolding moved
    moved-Ring =
        let added = add_before-Ring f s t xs (c ∷ ys) r new in
        let shifted =
          subst (λ l. Ring (ndlist_add_before f c t) s l) (sym (append_assoc xs (t ∷ []) (c ∷ ys)))
            added in
        subst (λ l. Ring moved s l) (append_assoc xs (t ∷ []) ys)
          (remove-Ring false (ndlist_add_before f c t) s c (xs ++ t ∷ []) ys shifted)

    -- The node is new, and none of its neighbours.
    apart :
        (c ≢ t)
        × ((f.next c == t) ≡ false)
        × ((f.prev c == t) ≡ false)
        × ((f.prev c == c) ≡ false)
        × ((f.next c == c) ≡ false)
    apart =
        let n = neighbours f s xs c ys r in
        (
          ground (arith, new, has-append t xs (c ∷ ys)),
          ground (arith, new, n.behind, has-append t xs (c ∷ ys)),
          ground (arith, new, n.before, has-append t xs (c ∷ ys)),
          ground (arith, n.not_head, n.before),
          ground (arith, n.not_tail, n.behind),
        )

    fresh_or_old : (x : ℕ) → x ∈ s ∷ (xs ++ t ∷ ys) → (x == c) ≡ false
    fresh_or_old x m =
        let n = neighbours f s xs c ys r in
        ground (arith, m, apart.0, n.not_head, n.not_tail, has-append x xs (t ∷ ys))

    next-moved :
        (x : ℕ)
        → x ∈ s ∷ (xs ++ t ∷ ys)
        → moved.next x ≡ (if x == f.prev c then t else if x == t then f.next c else f.next x)
    unfolding moved
    next-moved x m = ground (
      arith,
      fresh_or_old x m,
      apart,
      next-remove false (ndlist_add_before f c t) c x,
      next-add_before f c t apart.0 x,
      next-add_before f c t apart.0 c,
      prev-add_before f c t apart.0 c,
    )

    prev-moved :
        (x : ℕ)
        → x ∈ s ∷ (xs ++ t ∷ ys)
        → moved.prev x ≡ (if x == f.next c then t else if x == t then f.prev c else f.prev x)
    unfolding moved
    prev-moved x m = ground (
      arith,
      fresh_or_old x m,
      apart,
      prev-remove false (ndlist_add_before f c t) c x,
      prev-add_before f c t apart.0 x,
      next-add_before f c t apart.0 c,
      prev-add_before f c t apart.0 c,
    )

    pub replace_free-Ring : Ring (replace_free f c t) s (xs ++ t ∷ ys)
    unfolding replace_free link_next_back link_prev_on
    replace_free-Ring =
        Ring-frame moved (replace_free f c t) s (xs ++ t ∷ ys)
          (λ x m. ground (arith, next-moved x m, apart))
          (λ x m. ground (arith, prev-moved x m, apart)) moved-Ring

    pub take_place-Ring : Ring (take_place f t c) s (xs ++ t ∷ ys)
    unfolding take_place link_next_back link_prev_on
    take_place-Ring =
        Ring-frame moved (take_place f t c) s (xs ++ t ∷ ys)
          (λ x m. ground (arith, next-moved x m, apart))
          (λ x m. ground (arith, prev-moved x m, apart)) moved-Ring

pub push_free-Ring :
    (f : Links) (s c : ℕ) (xs : List ℕ)
    → Ring f s xs
    → c ∉ s ∷ xs
    → Ring (push_free f s c) s (c ∷ xs)
unfolding push_free link_next_back link_prev_on
push_free-Ring f s c xs r new =
    let ne : s ≢ c = ground (arith, new) in
    let behind : f.next s ∈ s ∷ xs =
      subst (λ x. x ∈ s ∷ xs) (sym (next-front f s xs s r.chain)) (front-in s xs) in
    let far : (f.next s == c) ≡ false = ground (arith, new, behind) in
    Ring-frame (ndlist_add_after f s c) (push_free f s c) s (c ∷ xs)
      (λ x m. ground (arith, far, ne, next-add_after f s c ne x))
      (λ x m. ground (arith, far, ne, prev-add_after f s c ne x)) (add_after-Ring f s c xs r new)

pub first_links-Ring :
    (f : Links) (begin sentinel : ℕ)
    → begin ≢ sentinel
    → Ring (first_links f begin sentinel) sentinel (begin ∷ [])
unfolding first_links
first_links-Ring f begin sentinel ne = record {
  chain = (ground (arith, ne), ground (arith, ne), (ground (arith, ne), ground (arith, ne)));
  distinct = (ground (arith, ne), (refl, tt));
}
