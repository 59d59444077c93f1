-- ===== src/Heap/Tests.antt =====
-- A region of 4096 bytes, in which blocks are taken and given back.
use neon_eds.Common.{
  ℕ, ◌+◌, ◌<◌, ◌^◌, ◌≡◌, ◌⊎◌, ◌∈◌, List, [], ◌∷◌, true, false, done, asserted, arith, refl,
}
use neon_eds.Base.Bitop.{nalign_up}
use neon_eds.Heap.{
  Blocks, Heap, init_heap, heap_alloc, heap_free, heap_init_alloc, split_block, nsignature_heap,
}
use neon_eds.Heap.Layout.{Block, free_of, used_of}
use neon_eds.Heap.Invariant.{IsHeap, Found}
use neon_eds.Heap.Split.{split_block-IsHeap}
use neon_eds.Heap.Alloc.{Allocated, heap_alloc-IsHeap}
use neon_eds.Heap.Overflow.{heap_alloc-overflow}
use neon_eds.Heap.Freed.{Freed}
use neon_eds.Heap.Free.{heap_free-IsHeap}
use neon_eds.Heap.Init.{init_heap-IsHeap, heap_init_alloc-IsHeap}
use neon_eds.Heap.Fuel.{heap_fuel}
use neon_eds.Heap.Disjoint.{Disjoint}
use neon_eds.Heap.Clients.{Client, take, give, serve, serve_all, Answered}
use neon_eds.Heap.Released.{new_client, give_all, serve_all-Disjoint, serve_all-released}

abbrev region : Heap
region = record {
  base = 4096;
  free = 0;
  size = 4096;
  signature = nsignature_heap;
  is_ready = false;
  blocks = record { prev = λ x. 0; size = λ x. 0; free = record { next = λ x. 0; prev = λ x. 0 } };
}

abbrev new_region : Heap
new_region = init_heap region

new_region-IsHeap : IsHeap new_region.blocks 4096 new_region.base (free_of 4048 ∷ []) (4096 ∷ [])
new_region-IsHeap = init_heap-IsHeap region (omega arith) (omega arith) (omega arith) (omega arith)

signed : new_region.signature ≡ nsignature_heap
unfolding init_heap
signed = refl

heap_init_alloc-IsHeap_example :
    (heap_init_alloc true 2 region 100 ≡ heap_alloc true 2 new_region 100)
    × IsHeap new_region.blocks 4096 new_region.base (free_of 4048 ∷ []) (4096 ∷ [])
heap_init_alloc-IsHeap_example =
    heap_init_alloc-IsHeap region (omega arith) (omega arith) (omega arith) (omega arith) true 2 100
      refl

heap_alloc-IsHeap_example :
    (((x : ℕ) → x ∈ (4096 ∷ []) → new_region.blocks.size x < nalign_up 64 64 100 16)
      × (heap_alloc true 2 new_region 100 ≡ asserted))
    ⊎ ((c : ℕ) × (g : Blocks) × (heap_alloc true 2 new_region 100
          ≡ done (c + 16, record new_region { blocks = g }))
        × Allocated g 4096 new_region.base (free_of 4048 ∷ []) c (nalign_up 64 64 100 16))
heap_alloc-IsHeap_example =
    heap_alloc-IsHeap true 2 new_region 4096 (free_of 4048 ∷ []) (4096 ∷ []) 100 new_region-IsHeap
      signed (omega arith) (omega arith) (omega arith)

heap_alloc-overflow_example :
    (new_region.blocks.size 4096 < 2147483640)
    × (heap_alloc true 2 new_region 2147483640
        ≡ done (4112, record new_region { blocks = split_block new_region.blocks 4096 (2 ^ 31) }))
heap_alloc-overflow_example =
    heap_alloc-overflow true 1 new_region 4096 (free_of 4048 ∷ []) 4096 [] 2147483640
      new_region-IsHeap signed (omega arith) (omega arith)

-- The heap with one used block of 112 bytes.
abbrev used_region : Heap
used_region = record new_region { blocks = split_block new_region.blocks 4096 112 }

alone : Found [] 4096 [] [] []
alone = record { out_us = refl; out_vs = refl; out_front = refl; out_back = refl; rest = λ x. refl }

used_region-IsHeap :
    IsHeap used_region.blocks 4096 new_region.base (used_of 112 ∷ free_of 3920 ∷ []) (4224 ∷ [])
used_region-IsHeap =
    split_block-IsHeap new_region.blocks 4096 new_region.base [] 4048 [] [] [] new_region-IsHeap
      alone 112 (omega arith) (omega arith)

heap_free-IsHeap_example :
    (g : Blocks) × (heap_free true used_region 4112 ≡ done (record used_region { blocks = g }))
    × Freed g 4096 used_region.base [] 112 (free_of 3920 ∷ [])
heap_free-IsHeap_example =
    heap_free-IsHeap true used_region 4096 [] 112 (free_of 3920 ∷ []) (4224 ∷ []) used_region-IsHeap
      signed

serve_all-Disjoint_example :
    (c : Client) × (c₁ : Client) × (bs : List Block) × (fs : List ℕ) × (serve_all heap_fuel
        (new_client region)
        (take 100 ∷ take 24 ∷ give 1 ∷ take 7 ∷ [])
      ≡ done c)
    × IsHeap c.heap.blocks 4096 8160 bs fs
    × Disjoint 4096 8160 c.held
    × (serve heap_fuel c (take 24) ≡ done c₁)
    × Answered c fs 24 c₁
    × Disjoint 4096 8160 c₁.held
serve_all-Disjoint_example =
    serve_all-Disjoint region refl (omega arith) (omega arith) (omega arith) (omega arith)
      (take 100 ∷ take 24 ∷ give 1 ∷ take 7 ∷ [])
      (
        (omega arith, omega arith),
        ((omega arith, omega arith), (tt, ((omega arith, omega arith), tt))),
      )
      24 (omega arith, omega arith)

serve_all-released_example :
    (c : Client) × (c₁ : Client) × (fs : List ℕ) × (serve_all heap_fuel
        (new_client region)
        (take 100 ∷ take 24 ∷ [])
      ≡ done c)
    × (serve_all heap_fuel c (give_all c.held) ≡ done c₁)
    × IsHeap c₁.heap.blocks 4096 8160 (free_of 4048 ∷ []) fs
serve_all-released_example =
    serve_all-released region refl (omega arith) (omega arith) (omega arith) (omega arith)
      (take 100 ∷ take 24 ∷ []) ((omega arith, omega arith), ((omega arith, omega arith), tt))
