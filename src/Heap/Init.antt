-- ===== src/Heap/Init.antt =====
-- `heap_init_alloc` of source/heap.c: a region becomes one free block and a sentinel.
use neon_eds.Common.{
  ℕ, ◌+◌, ◌-◌, ◌<◌, ◌≤◌, ◌^◌, ◌%◌, ◌≡◌, [], ◌∷◌, Bool, true, false, ◌==◌, arith, refl, Bool-cases,
  inl, inr, sub32, ltb,
}
use neon_eds.Sched.{check}
use neon_eds.Heap.{
  Heap, init_heap, init_blocks, heap_init_alloc, heap_alloc, nsignature_heap, int32_max,
}
use neon_eds.Heap.Layout.{free_of, Whole}
use neon_eds.Heap.FreeLinks.{first_links-Ring}
use neon_eds.Heap.Invariant.{IsHeap}

module _ (st : Heap) (some_base : 0 < st.base) (large : 64 < st.size) (small : st.size < int32_max)
    (space : st.base + st.size ≤ 2 ^ 64) where
  pub sentinel_eq : (st.base + st.size + 2 ^ 64 - 32) % 2 ^ 64 ≡ st.base + st.size - 32
  sentinel_eq = omega (arith, some_base, large, space)

  size_eq : sub32 (sub32 (st.size % 2 ^ 32) 32) 16 ≡ st.size - 48
  size_eq = omega (arith, large, small)

  pub init_heap-IsHeap :
      IsHeap
        (init_heap st).blocks
        st.base
        (init_heap st).base
        (free_of (st.size - 48) ∷ [])
        (st.base ∷ [])
  unfolding init_heap init_blocks Whole
  init_heap-IsHeap =
      let s = st.base + st.size - 32 in
      let ne : (st.base == s) ≡ false = ground (arith, large) in
      let self : (s == s) ≡ true = ground arith in
      let here : (st.base == st.base) ≡ true = ground arith in
      let other : (s == st.base) ≡ false = ground (arith, large) in
      let next : st.base + 16 + (st.size - 48) ≡ s = omega (arith, large) in
      rw (sentinel_eq, size_eq)
        (record {
          ends = omega (arith, large);
          whole = rw (next, ne, self, here) (refl, refl, omega (arith, large), (refl, refl));
          links = first_links-Ring st.blocks.free st.base s (omega (arith, large));
          same = λ x. refl;
          small = omega (arith, large, small);
          space = omega (arith, large, space);
          some_base = some_base;
        })

  -- Heap_init_alloc makes one free block of a region of more than 64 bytes and fewer than
  -- INT32_MAX, with the sentinel behind it, and makes the first allocation from it.
  pub heap_init_alloc-IsHeap :
      (validation : Bool) (fuel size : ℕ)
      → st.signature ≡ nsignature_heap
      → (heap_init_alloc validation fuel st size ≡ heap_alloc validation fuel (init_heap st) size)
        × IsHeap
            (init_heap st).blocks
            st.base
            (init_heap st).base
            (free_of (st.size - 48) ∷ [])
            (st.base ∷ [])
  unfolding heap_init_alloc check
  heap_init_alloc-IsHeap validation fuel size signed =
      let sign : (st.signature == nsignature_heap) ≡ true = ground (arith, signed) in
      let based : (st.base == 0) ≡ false = ground (arith, some_base) in
      let over : ltb 64 st.size ≡ true = ground (arith, large) in
      let under : ltb st.size int32_max ≡ true = ground (arith, small) in
      (
        elim (Bool-cases validation) [
          | inl on ↦ rw (on, sign, based, over, under) refl
          | inr off ↦ rw off refl
        ],
        init_heap-IsHeap,
      )
