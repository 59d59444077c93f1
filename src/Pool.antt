-- ===== src/Pool.antt =====
-- source/pool.c: a pool of memory blocks of one size. A block is its address, and its first word, the
-- `next` pointer of `struct pool_block`, links the free blocks.
pub mod FreeList
pub mod Clients
pub mod Init
mod Tests
use neon_eds.Common.{
  ℕ, zero, suc, ◌+◌, ◌-◌, ◌*◌, ◌/◌, ◌%◌, ◌^◌, Bool, true, false, not, ◌==◌, if◌then◌else◌, update,
  ltb, leb, Run, done, out_of_bounds, ◌>>=◌, ◌>>◌, List, [], ◌∷◌, get_or,
}
use neon_eds.Base.Dlist.{null}
use neon_eds.Sched.{check}

-- The fields of `struct nmem` that a pool uses, and the `next` words of all blocks. `is_ready` tells whether
-- `vf_alloc` and `vf_free` are `pool_alloc` and `pool_free`.
pub record Pool : Type 0 where
  pub base : ℕ
  pub free : ℕ
  pub size : ℕ
  pub no_blocks : ℕ
  pub signature : ℕ
  pub is_ready : Bool
  pub next : ℕ → ℕ

abbrev pub nsignature_pool : ℕ
nsignature_pool = 3735928545

abbrev pub int32_max : ℕ
int32_max = 2 ^ 31 - 1

-- `size / no_blocks`: the bytes of a block.
abbrev pub block_size : Pool → ℕ
block_size p = p.size / p.no_blocks

unfoldable pub pool_alloc : Bool → Pool → ℕ → Run (ℕ × Pool)
pool_alloc validation p size =
    let block = p.base in
    let p₁ =
      if block == null
      then p
      else record p { base = p.next block; free = (p.free + 2 ^ 64 - block_size p) % 2 ^ 64 } in
    check validation (p.signature == nsignature_pool)
    >> (check validation (not (block == null)) >> done (block, p₁))

unfoldable pub pool_free : Bool → Pool → ℕ → Run Pool
pool_free validation p mem =
    check validation (p.signature == nsignature_pool)
    >> (check validation (not (mem == null))
        >> done (record p {
          next = update p.next mem p.base;
          base = mem;
          free = (p.free + block_size p) % 2 ^ 64;
        }))

-- The loop of `pool_init_alloc`, with its rounds to go. It returns the last block too.
unfoldable pub init_loop : Pool → ℕ → ℕ → ℕ × Pool
init_loop p block zero = (block, p)
init_loop p block (suc rounds) =
    let to = (block + p.size) % 2 ^ 64 in
    init_loop (record p { next = update p.next block to }) to rounds

-- `block` is what the variable of that name holds at the start: the source does not set it. Where there are no
-- blocks, the size of a block is a quotient by 0.
unfoldable pub pool_init_alloc : Bool → ℕ → Pool → ℕ → Run (ℕ × Pool)
pool_init_alloc validation block p size =
    let (last, p₁) = init_loop p block (p.no_blocks - 1) in
    check validation (p.signature == nsignature_pool)
    >> (check validation (not (p.base == null))
        >> (check validation (ltb p.size int32_max)
            >> (check validation (leb 1 p.no_blocks)
                >> (if p.no_blocks == 0
                    then out_of_bounds
                    else pool_alloc validation
                        (record p₁ { next = update p₁.next last null; is_ready = true }) 0))))
