-- ===== src/Heap/Overflow.antt =====
-- `heap_alloc` of source/heap.c at the largest requests that its assertions let through.
use neon_eds.Common.{
  ℕ, suc, ◌+◌, ◌<◌, ◌^◌, ◌%◌, ◌≡◌, List, ◌∷◌, Bool, true, false, ◌==◌, arith, refl, Bool-cases, inl,
  inr, done, ltb, int32_le, int32_lt,
}
use neon_eds.Sched.{check}
use neon_eds.Base.Bitop.{nalign_up, nalign_up-least}
use neon_eds.Heap.{
  Heap, take_block, split_block, alloc_loop, heap_alloc, nsignature_heap, int32_max,
}
use neon_eds.Heap.Layout.{Block}
use neon_eds.Heap.Invariant.{IsHeap, find_listed}

-- A request in the last 16 bytes under INT32_MAX is aligned to 2 ^ 31, which is negative as an `int32_t`.
aligned : (size : ℕ) → 2 ^ 31 < size + 16 → size < int32_max → nalign_up 64 64 size 16 ≡ 2 ^ 31
aligned size near below =
    let (whole, least, next) = nalign_up-least 64 4 60 size (omega arith) (omega (arith, below)) in
    omega (arith, whole, least, next, near, below)

-- For a size above 2 ^ 31 - 16 and below INT32_MAX, heap_alloc hands out the first free block,
-- which is smaller, and splits it 2 ^ 31 bytes further on.
pub heap_alloc-overflow :
    (validation : Bool) (fuel : ℕ) (st : Heap) (base : ℕ) (bs : List Block) (c : ℕ) (vs : List ℕ)
    (size : ℕ)
    → IsHeap st.blocks base st.base bs (c ∷ vs)
    → st.signature ≡ nsignature_heap
    → 2 ^ 31 < size + 16
    → size < int32_max
    → (st.blocks.size c < size)
      × (heap_alloc validation (suc fuel) st size
          ≡ done (c + 16, record st { blocks = split_block st.blocks c (2 ^ 31) }))
unfolding heap_alloc check alloc_loop take_block
heap_alloc-overflow validation fuel st base bs c vs size w signed near below =
    let (xs, n, ys, free) = find_listed st.blocks base st.base bs (c ∷ vs) w c (ground arith) in
    let sign : (st.signature == nsignature_heap) ≡ true = ground (arith, signed) in
    let positive : (size == 0) ≡ false = ground (arith, near) in
    let under : ltb size int32_max ≡ true = ground (arith, below) in
    let large : st.blocks.size c < 2 ^ 31 = omega (arith, free.size, free.small) in
    let first = w.links.chain.0 in
    let other : (c == st.base) ≡ false = ground (arith, w.links.distinct.0) in
    let fits : int32_le (2 ^ 31) (st.blocks.size c) ≡ true = ground (arith, large) in
    let splits : int32_lt (2 ^ 31 + 32) (st.blocks.size c) ≡ true = ground (arith, large) in
    let mem : (c + 16) % 2 ^ 64 ≡ c + 16 = omega (arith, free.inside, w.space) in
    let some_mem : (c + 16 == 0) ≡ false = ground arith in
    (
      omega (arith, free.size, free.small, near),
      elim (Bool-cases validation) [
        | inl on ↦
            rw
              (
                on,
                sign,
                positive,
                under,
                aligned size near below,
                first,
                other,
                fits,
                splits,
                mem,
                some_mem,
              )
              refl
        | inr off ↦ rw (off, aligned size near below, first, other, fits, splits, mem) refl
      ],
    )
