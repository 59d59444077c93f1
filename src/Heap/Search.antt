-- ===== src/Heap/Search.antt =====
-- The loop of `heap_alloc` of source/heap.c, over the list of the free blocks.
use neon_eds.Common.{
  ℕ, zero, suc, ◌+◌, ◌<◌, ◌≤◌, ◌^◌, ◌%◌, ◌≡◌, ◌⊎◌, List, [], ◌∷◌, ◌++◌, ◌∈◌, ◌∉◌, length, true,
  false, ◌==◌, arith, refl, ap, Bool-cases, inl, inr, Run, done, int32_le,
}
use neon_eds.Base.Dlist.{null}
use neon_eds.Base.Dlist.Chain.{Chain}
use neon_eds.Base.Dlist.Ring.{front, next-front}
use neon_eds.Heap.{Blocks, alloc_loop, take_block}

-- No block is as large as the request, or `c` is the first one.
abbrev pub FirstFit : Blocks → ℕ → List ℕ → Run (ℕ × Blocks) → Type 0
FirstFit h size vs run =
    (((x : ℕ) → x ∈ vs → h.size x < size) × (run ≡ done (null, h)))
    ⊎ ((before : List ℕ) × (c : ℕ) × (after : List ℕ) × (vs ≡ before ++ c ∷ after)
        × ((x : ℕ) → x ∈ before → h.size x < size)
        × (size ≤ h.size c)
        × (run ≡ done ((c + 16) % 2 ^ 64, take_block h c size)))

pub alloc_loop-FirstFit :
    (fuel : ℕ) (h : Blocks) (s size p : ℕ) (vs : List ℕ)
    → Chain h.free p vs s
    → s ∉ vs
    → ((x : ℕ) → x ∈ vs → h.size x < 2 ^ 31)
    → size < 2 ^ 31
    → length vs < fuel
    → FirstFit h size vs (alloc_loop fuel h s size (front s vs))
unfolding alloc_loop
alloc_loop-FirstFit zero h s size p vs chain out sizes small enough = absurd (omega (arith, enough))
alloc_loop-FirstFit (suc fuel) h s size p [] chain out sizes small enough =
    let self : (s == s) ≡ true = ground arith in
    inl (λ x i. absurd (ground (arith, i)), rw self refl)
alloc_loop-FirstFit (suc fuel) h s size p (v ∷ vs) chain out sizes small enough =
    let other : (v == s) ≡ false = ground (arith, out) in
    elim (Bool-cases (int32_le (size % 2 ^ 32) (h.size v))) [
      | inl fits ↦ inr (
        [],
        v,
        vs,
        refl,
        λ x i. absurd (ground (arith, i)),
        ground (arith, fits, small, sizes v (ground arith)),
        rw (other, fits) refl,
      )
      | inr over ↦
          let less : h.size v < size = ground (arith, over, small, sizes v (ground arith)) in
          let next = next-front h.free v vs s chain.2 in
          elim (alloc_loop-FirstFit fuel h s size v vs chain.2 (ground (arith, out))
            (λ x i. sizes x (ground (arith, i))) small (omega (arith, enough))) [
              | inl (none, run) ↦
                  inl (λ x i. ground (arith, i, less, none x), rw (other, over, next) run)
              | inr (before, c, after, e, small_ones, fits, run) ↦ inr (
                v ∷ before,
                c,
                after,
                ap (λ l. v ∷ l) e,
                λ x i. ground (arith, i, less, small_ones x),
                fits,
                rw (other, over, next) run,
              )
            ]
    ]
