-- ===== src/Heap.antt =====
-- source/heap.c: memory blocks of any size, tiled in a region, with a list of the free ones. The sizes are
-- those of port/x86-64-linux-gcc: 16 bytes for `struct heap_phy`, 32 for `struct heap_block`.
pub mod Layout
pub mod Settled
pub mod FreeLinks
pub mod Invariant
pub mod Split
pub mod Taken
pub mod Search
pub mod Alloc
pub mod Overflow
pub mod Coalesce
pub mod Merge
pub mod Neighbours
pub mod Freed
pub mod Joined
pub mod Free
pub mod Init
pub mod Fuel
pub mod Owned
pub mod Disjoint
pub mod Clients
pub mod Released
mod Tests
use neon_eds.Common.{
  ℕ, zero, suc, ◌+◌, ◌-◌, ◌%◌, ◌^◌, Bool, true, false, not, ◌&&◌, ltb, leb, ◌==◌, if◌then◌else◌,
  update, Run, done, out_of_fuel, ◌>>=◌, ◌>>◌, add32, sub32, neg32, is_positive, is_negative,
  int32_le, int32_lt, sign_extend,
}
use neon_eds.Base.Bitop.{nalign_up}
use neon_eds.Base.Dlist.{null, Links, set_next, set_prev}
use neon_eds.Sched.{check}

-- `struct heap_block` of every block, by its address: `prev` and `size` of `phy`, and the links of `free`.
pub record Blocks : Type 0 where
  pub prev : ℕ → ℕ
  pub size : ℕ → ℕ
  pub free : Links

-- The fields of `struct nmem` that a heap uses; `is_ready` tells that `vf_alloc` is `heap_alloc`.
pub record Heap : Type 0 where
  pub base : ℕ
  pub free : ℕ
  pub size : ℕ
  pub signature : ℕ
  pub is_ready : Bool
  pub blocks : Blocks

abbrev pub nsignature_heap : ℕ
nsignature_heap = 3735928544

abbrev pub int32_max : ℕ
int32_max = 2 ^ 31 - 1

-- The block at the end of a block of `size` bytes, which is an `int32_t`.
unfoldable pub block_after : ℕ → ℕ → ℕ
block_after block size = (block + sign_extend size + 16) % 2 ^ 64

abbrev pub set_phy_prev : Blocks → ℕ → ℕ → Blocks
set_phy_prev h block v = record h { prev = update h.prev block v }

abbrev pub set_size : Blocks → ℕ → ℕ → Blocks
set_size h block v = record h { size = update h.size block v }

-- `block->free.next->free.prev = block` and `block->free.prev->free.next = block`.
unfoldable pub link_next_back : Links → ℕ → ℕ → Links
link_next_back f block to = set_prev f (f.next block) to

unfoldable pub link_prev_on : Links → ℕ → ℕ → Links
link_prev_on f block to = set_next f (f.prev block) to

-- A new free block takes the place of `curr` in the list.
unfoldable pub replace_free : Links → ℕ → ℕ → Links
replace_free f curr tmp =
    let f₁ = set_next f tmp (f.next curr) in
    let f₂ = set_prev f₁ tmp (f₁.prev curr) in
    let f₃ = link_next_back f₂ tmp tmp in link_prev_on f₃ tmp tmp

-- A block leaves the list: when it is allocated, and when it is merged.
unfoldable pub unlink_taken : Links → ℕ → Links
unlink_taken f curr =
    let f₁ = link_next_back f curr (f.prev curr) in link_prev_on f₁ curr (f₁.next curr)

unfoldable pub unlink_merged : Links → ℕ → Links
unlink_merged f tmp =
    let f₁ = link_prev_on f tmp (f.next tmp) in link_next_back f₁ tmp (f₁.prev tmp)

-- A freed block takes the place of the free block behind it.
unfoldable pub take_place : Links → ℕ → ℕ → Links
take_place f curr tmp =
    let f₁ = set_next f curr (f.next tmp) in
    let f₂ = set_prev f₁ curr (f₁.prev tmp) in
    let f₃ = link_prev_on f₂ curr curr in link_next_back f₃ curr curr

-- A freed block comes first in the list.
unfoldable pub push_free : Links → ℕ → ℕ → Links
push_free f sentinel curr =
    let f₁ = set_next f curr (f.next sentinel) in
    let f₂ = set_prev f₁ curr sentinel in
    let f₃ = link_prev_on f₂ curr curr in link_next_back f₃ curr curr

-- The two branches of `heap_alloc` where block `curr` is large enough: the block is split, or taken whole.
unfoldable pub split_block : Blocks → ℕ → ℕ → Blocks
split_block h curr size =
    let tmp = (curr + size + 16) % 2 ^ 64 in
    let h₁ = set_phy_prev h tmp curr in
    let h₂ = set_size h₁ tmp (h₁.size curr) in
    let h₃ = set_size h₂ tmp (sub32 (h₂.size tmp) (size % 2 ^ 32)) in
    let h₄ = set_size h₃ tmp (sub32 (h₃.size tmp) 16) in
    let h₅ = set_size h₄ curr (neg32 (size % 2 ^ 32)) in
    let h₆ = record h₅ { free = replace_free h₅.free curr tmp } in
    set_phy_prev h₆ (block_after tmp (h₆.size tmp)) tmp

unfoldable pub take_whole : Blocks → ℕ → Blocks
take_whole h curr =
    let h₁ = record h { free = unlink_taken h.free curr } in set_size h₁ curr (neg32 (h₁.size curr))

unfoldable pub take_block : Blocks → ℕ → ℕ → Blocks
take_block h curr size =
    if int32_lt ((size + 32) % 2 ^ 32) (h.size curr)
    then split_block h curr size
    else take_whole h curr

-- The loop of `heap_alloc`, at block `curr`: the memory that it finds, and the blocks.
unfoldable pub alloc_loop : ℕ → Blocks → ℕ → ℕ → ℕ → Run (ℕ × Blocks)
alloc_loop zero h sentinel size curr = out_of_fuel
alloc_loop (suc fuel) h sentinel size curr =
    let rest = alloc_loop fuel h sentinel size (h.free.next curr) in
    if curr == sentinel
    then done (null, h)
    else if int32_le (size % 2 ^ 32) (h.size curr)
    then done ((curr + 16) % 2 ^ 64, take_block h curr size)
    else rest

unfoldable pub heap_alloc : Bool → ℕ → Heap → ℕ → Run (ℕ × Heap)
heap_alloc validation fuel s size =
    let sentinel = s.base in
    check validation (s.signature == nsignature_heap)
    >> (check validation (not (size == 0) && ltb size int32_max)
        >> (alloc_loop fuel s.blocks sentinel (nalign_up 64 64 size 16)
              (s.blocks.free.next sentinel)
            >>= λ r. check validation (not (r.0 == null)) >> done (r.0, record s { blocks = r.1 })))

-- The four branches of `heap_free`, with `curr` marked as free and `tmp` behind it.
unfoldable pub merge_prev : Blocks → ℕ → ℕ → Blocks
merge_prev h curr tmp =
    let h₁ = set_size h (h.prev curr) (add32 (h.size (h.prev curr)) (h.size curr)) in
    let h₂ = set_size h₁ (h₁.prev curr) (add32 (h₁.size (h₁.prev curr)) 16) in
    set_phy_prev h₂ tmp (h₂.prev curr)

unfoldable pub merge_next : Blocks → ℕ → ℕ → Blocks
merge_next h curr tmp =
    let h₁ = record h { free = take_place h.free curr tmp } in
    let h₂ = set_size h₁ curr (add32 (h₁.size curr) (h₁.size tmp)) in
    let h₃ = set_size h₂ curr (add32 (h₂.size curr) 16) in
    set_phy_prev h₃ (block_after curr (h₃.size curr)) curr

unfoldable pub merge_both : Blocks → ℕ → ℕ → Blocks
merge_both h curr tmp =
    let h₁ = record h { free = unlink_merged h.free tmp } in
    let h₂ =
      set_size h₁ (h₁.prev curr)
        (add32 (h₁.size (h₁.prev curr)) (add32 (h₁.size curr) (h₁.size tmp))) in
    let h₃ = set_size h₂ (h₂.prev curr) (add32 (h₂.size (h₂.prev curr)) 32) in
    set_phy_prev h₃ (block_after (h₃.prev curr) (h₃.size (h₃.prev curr))) (h₃.prev curr)

unfoldable pub add_free : Blocks → ℕ → ℕ → Blocks
add_free h sentinel curr = record h { free = push_free h.free sentinel curr }

unfoldable pub free_block : Blocks → ℕ → ℕ → Blocks
free_block h sentinel mem =
    let curr = (mem + 2 ^ 64 - 16) % 2 ^ 64 in
    let h₁ = set_size h curr (neg32 (h.size curr)) in
    let tmp = block_after curr (h₁.size curr) in
    let before = h₁.size (h₁.prev curr) in
    let after = h₁.size tmp in
    if is_positive before && is_negative after
    then merge_prev h₁ curr tmp
    else if is_negative before && is_positive after
    then merge_next h₁ curr tmp
    else if is_positive before && is_positive after
    then merge_both h₁ curr tmp
    else add_free h₁ sentinel curr

unfoldable pub heap_free : Bool → Heap → ℕ → Run Heap
heap_free validation s mem =
    check validation (s.signature == nsignature_heap)
    >> (check validation (not (mem == null))
        >> done (record s { blocks = free_block s.blocks s.base mem }))

-- The list of one free block.
unfoldable pub first_links : Links → ℕ → ℕ → Links
first_links f begin sentinel =
    let f₁ = set_prev (set_next f begin sentinel) begin sentinel in
    set_prev (set_next f₁ sentinel begin) sentinel begin

-- The fields that `heap_init_alloc` sets.
unfoldable pub init_blocks : Blocks → ℕ → ℕ → Blocks
init_blocks h begin sentinel =
    let h₁ = record h { free = first_links h.free begin sentinel } in
    let h₂ = set_phy_prev h₁ begin sentinel in
    let h₃ = set_size h₂ sentinel (2 ^ 32 - 1) in set_phy_prev h₃ sentinel begin

unfoldable pub init_heap : Heap → Heap
init_heap s =
    let sentinel = (s.base + s.size + 2 ^ 64 - 32) % 2 ^ 64 in
    let size = sub32 (sub32 (s.size % 2 ^ 32) 32) 16 in
    record s {
      base = sentinel;
      size = sign_extend size;
      free = sign_extend size;
      is_ready = true;
      blocks = init_blocks (set_size s.blocks s.base size) s.base sentinel;
    }

unfoldable pub heap_init_alloc : Bool → ℕ → Heap → ℕ → Run (ℕ × Heap)
heap_init_alloc validation fuel s size =
    check validation (s.signature == nsignature_heap)
    >> (check validation (not (s.base == null))
        >> (check validation (ltb 64 s.size)
            >> (check validation (ltb s.size int32_max)
                >> heap_alloc validation fuel (init_heap s) size)))
