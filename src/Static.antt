-- ===== src/Static.antt =====
-- source/static.c: static memory, which hands its bytes out from the top down and takes none back.
pub mod Blocks
mod Tests
use neon_eds.Common.{
  ℕ, ◌+◌, ◌-◌, ◌^◌, ◌%◌, Bool, true, false, not, ◌&&◌, ltb, leb, ◌==◌, if◌then◌else◌, Run, done,
  asserted, ◌>>=◌, ◌>>◌,
}
use neon_eds.Base.Bitop.{nalign_up}
use neon_eds.Base.Dlist.{null}
use neon_eds.Sched.{check}

-- The fields of `struct nmem` that static memory uses; `ready` tells that `vf_alloc` is `static_alloc`.
pub record Static : Type 0 where
  pub base : ℕ
  pub free : ℕ
  pub size : ℕ
  pub signature : ℕ
  pub ready : Bool

abbrev pub nsignature_static : ℕ
nsignature_static = 3735928546

-- NCPU_DATA_ALIGNMENT of port/x86-64-linux-gcc.
abbrev pub ncpu_data_alignment : ℕ
ncpu_data_alignment = 8

abbrev pub int32_max : ℕ
int32_max = 2 ^ 31 - 1

-- `NREQUIRE(NSIGNATURE_IS(static_obj, NSIGNATURE_STATIC))` stores the signature, and the value that it
-- tests is the signature stored.
unfoldable pub claim_signature : Bool → Static → Static
claim_signature validation s = if validation then record s { signature = nsignature_static } else s

-- The pointers have 64 bits, and the mask of NALIGN_UP 32.
unfoldable pub static_alloc : Bool → Static → ℕ → Run (ℕ × Static)
static_alloc validation s size =
    let s₁ = claim_signature validation s in
    let size₁ = nalign_up 64 32 size ncpu_data_alignment in
    let free = s₁.free - size₁ in
    check validation (not (size == 0) && ltb size int32_max)
    >> done (
        if leb size₁ s₁.free
        then ((s₁.base + free) % 2 ^ 64, record s₁ { free = free })
        else (null, s₁))

-- `NASSERT_ALWAYS`.
unfoldable pub static_free : Bool → Static → ℕ → Run Static
static_free validation s mem = if validation then asserted else done s

unfoldable pub static_init_alloc : Bool → Static → ℕ → Run (ℕ × Static)
static_init_alloc validation s size =
    let s₁ = claim_signature validation s in
    check validation (not (s₁.base == null))
    >> (check validation (leb ncpu_data_alignment s₁.size)
        >> static_alloc validation (record s₁ { free = s₁.size; ready = true }) size)
