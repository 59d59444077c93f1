-- ===== src/Heap/Fuel.antt =====
-- How long the list of the free blocks of source/heap.c can be.
use neon_eds.Common.{
  ℕ, ◌+◌, ◌*◌, ◌<◌, ◌≤◌, ◌^◌, List, [], ◌∷◌, ◌++◌, ◌∈◌, has, has-append, length, length-append,
  Distinct, split_of_mem, Bool-cases, inl, inr, arith, ap,
}
use neon_eds.Heap.{Blocks}
use neon_eds.Heap.Layout.{Block, span, free_at, Whole}
use neon_eds.Heap.Invariant.{IsHeap}

-- Distinct members of a list are not more than the list holds.
length-sub : (xs ys : List ℕ) → Distinct xs → ((x : ℕ) → x ∈ xs → x ∈ ys) → length xs ≤ length ys
length-sub [] ys d sub = omega arith
length-sub (x ∷ xs) ys d sub =
    let (us, vs, e) = split_of_mem x ys (sub x (ground arith)) in
    let rest : (y : ℕ) → y ∈ xs → y ∈ us ++ vs = λ y i.
      ground (arith, i, d.0, sub y, ap (has y) e, has-append y us (x ∷ vs), has-append y us vs) in
    omega (
      arith,
      length-sub xs (us ++ vs) d.1 rest,
      ap length e,
      length-append us (x ∷ vs),
      length-append us vs,
    )

free_at-room :
    (h : Blocks) (p a : ℕ) (bs : List Block) → Whole h p a bs → length (free_at a bs) * 32 ≤ span bs
unfolding Whole
free_at-room h p a [] w = omega arith
free_at-room h p a (b ∷ bs) w =
    let next = a + 16 + b.size in
    let ih = free_at-room h a next bs w.3 in
    elim (Bool-cases b.used) [
      | inl u ↦ rw u (omega (arith, ih))
      | inr f ↦ rw f (omega (arith, ih, w.2))
    ]

-- Fuel for the loop of `heap_alloc`.
abbrev pub heap_fuel : ℕ
heap_fuel = 2 ^ 26

pub heap_fuel_lem :
    (h : Blocks) (base s : ℕ) (bs : List Block) (fs : List ℕ)
    → IsHeap h base s bs fs
    → length fs < heap_fuel
heap_fuel_lem h base s bs fs w =
    let few =
      length-sub fs (free_at base bs) w.links.distinct.1 (λ x i. ground (arith, i, w.same x)) in
    omega (arith, few, free_at-room h s base bs w.whole, w.small)
