-- ===== src/Base/Dlist/Insert.antt =====
-- Insertion into a circular list: `ndlist_add_before` and `ndlist_add_after`.
use neon_eds.Common.{
  ℕ, ◌≢◌, refl, subst, List, [], ◌∷◌, ◌++◌, ◌∉◌, Distinct, arith, has-append, ne_of_mem,
  Distinct-middle, Distinct-insert, Distinct-left, Distinct-apart, append-nil,
}
use neon_eds.Base.Dlist.{Links, ndlist_add_before, ndlist_add_after}
use neon_eds.Base.Dlist.Chain.{Chain, Chain-frame, Chain-append, Chain-split, prev-mem}
use neon_eds.Base.Dlist.Fields.{next-add_before, prev-add_before, next-add_after, prev-add_after}
use neon_eds.Base.Dlist.Ring.{Ring, front}

module _ (h : Links) (n c : ℕ) (apart : c ≢ n) where
  -- `ndlist_add_before` puts the node at the end of the chain that led to `c`.
  extend-Chain :
      (a : ℕ) (xs : List ℕ)
      → Chain h a xs c
      → Distinct (a ∷ xs)
      → n ∉ a ∷ xs
      → c ∉ xs
      → Chain (ndlist_add_before h c n) a (xs ++ n ∷ []) c
  extend-Chain a [] l d out o = ground (
    arith,
    next-add_before h c n apart a,
    prev-add_before h c n apart n,
    next-add_before h c n apart n,
    prev-add_before h c n apart c,
  )
  extend-Chain a (x ∷ xs) l d out o = (
    ground (
      arith,
      next-add_before h c n apart a,
      ne_of_mem (h.prev c) a (x ∷ xs) (prev-mem h x xs c l.2) d.0,
    ),
    ground (arith, prev-add_before h c n apart x),
    extend-Chain x xs l.2 d.1 (ground arith) (ground arith),
  )

  -- A chain that starts at `c`, with no other node of it changed.
  keep-Chain :
      (ys : List ℕ) (b : ℕ)
      → Chain h c ys b
      → h.prev c ∉ c ∷ ys
      → n ∉ ys ++ b ∷ []
      → c ∉ ys ++ b ∷ []
      → n ∉ ys
      → Chain (ndlist_add_before h c n) c ys b
  keep-Chain ys b l out new self new' =
      Chain-frame c ys b
        (λ x m. ground (
          arith,
          next-add_before h c n apart x,
          ne_of_mem x (h.prev c) (c ∷ ys) m,
          ne_of_mem x n (c ∷ ys) m,
        ))
        (λ x m. ground (
          arith,
          prev-add_before h c n apart x,
          ne_of_mem x c (ys ++ b ∷ []) m,
          ne_of_mem x n (ys ++ b ∷ []) m,
        ))
        l

-- `ndlist_add_before` inserts the node in front of `current`, which is a node or the sentinel.
pub add_before-Ring :
    (h : Links) (s n : ℕ) (xs ys : List ℕ)
    → Ring h s (xs ++ ys)
    → n ∉ s ∷ (xs ++ ys)
    → Ring (ndlist_add_before h (front s ys) n) s (xs ++ n ∷ ys)
add_before-Ring h s n xs [] r out =
    let chain : Chain h s xs s = subst (λ l. Chain h s l s) (append-nil xs) r.chain in
    let distinct : Distinct (s ∷ xs) = Distinct-left (s ∷ xs) [] r.distinct in
    record {
      chain =
          extend-Chain h n s (ground arith) s xs chain distinct (ground (arith, has-append n xs []))
            distinct.0;
      distinct = Distinct-insert (s ∷ xs) n [] r.distinct (ground (arith, has-append n xs [])) refl;
    }
add_before-Ring h s n xs (y ∷ ys) r out =
    let (l, t) = Chain-split h s xs y ys s r.chain in
    let (_, y_out, y_new) = Distinct-middle (s ∷ xs) y ys r.distinct in
    let apart : y ≢ n = ground (arith, has-append n xs (y ∷ ys)) in
    let before : n ∉ s ∷ xs = ground (arith, has-append n xs (y ∷ ys)) in
    let after : n ∉ y ∷ ys = ground (arith, has-append n xs (y ∷ ys)) in
    let extended =
      extend-Chain h n y apart s xs l (Distinct-left (s ∷ xs) (y ∷ ys) r.distinct) before
        (ground arith) in
    let (l', e) = Chain-split (ndlist_add_before h y n) s xs n [] y extended in
    let kept =
      keep-Chain h n y apart ys s t
        (Distinct-apart (s ∷ xs) (y ∷ ys) (h.prev y) r.distinct (prev-mem h s xs y l))
        (ground (arith, has-append n ys (s ∷ []))) (ground (arith, has-append y ys (s ∷ [])))
        (ground arith) in
    record {
      chain = Chain-append (ndlist_add_before h y n) s xs n (y ∷ ys) s l' (e.0, e.1, kept);
      distinct = Distinct-insert (s ∷ xs) n (y ∷ ys) r.distinct before after;
    }

after-Chain :
    (h : Links) (s n : ℕ) (xs : List ℕ)
    → Chain h s xs s
    → Distinct (s ∷ xs)
    → n ∉ s ∷ xs
    → Chain (ndlist_add_after h s n) s (n ∷ xs) s
after-Chain h s n [] c d out = ground (
  arith,
  next-add_after h s n (ground arith) s,
  next-add_after h s n (ground arith) n,
  prev-add_after h s n (ground arith) s,
  prev-add_after h s n (ground arith) n,
)
after-Chain h s n (x ∷ xs) c d out =
    let apart : s ≢ n = ground arith in
    (
      ground (arith, next-add_after h s n apart s),
      ground (arith, prev-add_after h s n apart n),
      (
        ground (arith, next-add_after h s n apart n),
        ground (arith, prev-add_after h s n apart x),
        Chain-frame x xs s
            (λ a m. ground (
              arith,
              next-add_after h s n apart a,
              ne_of_mem a s (x ∷ xs) m,
              ne_of_mem a n (x ∷ xs) m,
            ))
            (λ a m. ground (
              arith,
              prev-add_after h s n apart a,
              has-append x xs (s ∷ []),
              has-append n xs (s ∷ []),
              ne_of_mem a x (xs ++ s ∷ []) m,
              ne_of_mem a n (xs ++ s ∷ []) m,
            ))
            c.2,
      ),
    )

-- `ndlist_add_after` at the sentinel makes the node the first one.
pub add_after-Ring :
    (h : Links) (s n : ℕ) (xs : List ℕ)
    → Ring h s xs
    → n ∉ s ∷ xs
    → Ring (ndlist_add_after h s n) s (n ∷ xs)
add_after-Ring h s n xs r out = record {
  chain = after-Chain h s n xs r.chain r.distinct out;
  distinct = Distinct-insert (s ∷ []) n xs r.distinct (ground arith) (ground arith);
}
