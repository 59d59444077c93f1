-- ===== src/Pool/Init.antt =====
-- The blocks that a pool of source/pool.c hands out after `pool_init_alloc`.
use neon_eds.Common.{
  ℕ, zero, suc, ◌+◌, ◌-◌, ◌*◌, ◌<◌, ◌%◌, ◌^◌, ◌≡◌, ◌≢◌, Bool, true, false, not, ◌==◌, ltb, leb,
  update, Run, done, ◌>>=◌, List, [], ◌∷◌, arith, refl, ap, ◌∙◌, ==_ne, update_self, update_ne,
  lt→ltb,
}
use native.Mathlib.Nat.{suc-mul}
use neon_eds.Base.Dlist.{null}
use neon_eds.Smp.Machine.{check-true}
use neon_eds.Pool.{
  Pool, nsignature_pool, block_size, int32_max, pool_alloc, init_loop, pool_init_alloc,
}

-- `n` allocations, one after another.
abbrev pub alloc_all : Bool → Pool → ℕ → Run (List ℕ)
alloc_all v p zero = done []
alloc_all v p (suc n) =
    pool_alloc v p 0 >>= λ r. alloc_all v r.1 n >>= λ blocks. done (r.0 ∷ blocks)

-- The `n` addresses from `a` on that are `step` bytes apart.
abbrev pub strides : ℕ → ℕ → ℕ → List ℕ
strides a step zero = []
strides a step (suc n) = a ∷ strides (a + step) step n

-- The words lead from `a` through `n` further addresses, `step` bytes apart, to the null pointer.
abbrev Stepping : (ℕ → ℕ) → ℕ → ℕ → ℕ → Type 0
Stepping next a step zero = next a ≡ null
Stepping next a step (suc n) = (next a ≡ a + step) × Stepping next (a + step) step n

-- The allocation of a block takes it off the list.
pool_alloc-next :
    (v : Bool) (p : Pool) (size next : ℕ)
    → p.signature ≡ nsignature_pool
    → p.base ≢ null
    → p.next p.base ≡ next
    → pool_alloc v p size
      ≡ done (p.base, record p { base = next; free = (p.free + 2 ^ 64 - block_size p) % 2 ^ 64 })
unfolding pool_alloc
pool_alloc-next v p size next signed some_base e =
    let sign : (p.signature == nsignature_pool) ≡ true = ground (arith, signed) in
    let block : not (p.base == null) ≡ true = rw (==_ne p.base null some_base) refl in
    rw
      (
        check-true v (p.signature == nsignature_pool) sign,
        check-true v (not (p.base == null)) block,
        ==_ne p.base null some_base,
        e,
      )
      refl

Stepping-alloc_all :
    (v : Bool) (p : Pool) (step n : ℕ)
    → p.signature ≡ nsignature_pool
    → p.base ≢ null
    → Stepping p.next p.base step n
    → alloc_all v p (suc n) ≡ done (strides p.base step (suc n))
Stepping-alloc_all v p step zero signed some_base last =
    rw (pool_alloc-next v p 0 null signed some_base last) refl
Stepping-alloc_all v p step (suc n) signed some_base (e, rest) =
    let free = (p.free + 2 ^ 64 - block_size p) % 2 ^ 64 in
    let p₁ : Pool = record p { base = p.base + step; free = free } in
    let some_next : p.base + step ≢ null = omega (arith, some_base) in
    let next = Stepping-alloc_all v p₁ step n signed some_next rest in
    rw (pool_alloc-next v p 0 (p.base + step) signed some_base e)
      (ap (λ t. t >>= λ blocks. done (p.base ∷ blocks)) next)

-- What the loop leaves, with the word of the last block cleared.
record Linking (p : Pool) (a n : ℕ) (r : ℕ × Pool) : Type 0 where
  same : r.1 ≡ record p { next = r.1.next }
  chain : Stepping (update r.1.next r.0 null) a p.size n
  last : r.0 ≡ a + n * p.size
  before : (x : ℕ) → x < a → r.1.next x ≡ p.next x

init_loop-Linking :
    (p : Pool) (a n : ℕ) → 0 < p.size → a + n * p.size < 2 ^ 64 → Linking p a n (init_loop p a n)
unfolding init_loop
init_loop-Linking p a zero step space = record {
  same = refl;
  chain = update_self p.next a null;
  last = omega arith;
  before = λ x l. refl;
}
init_loop-Linking p a (suc n) step space =
    let more = suc-mul n p.size in
    let to : (a + p.size) % 2 ^ 64 ≡ a + p.size = omega (arith, more, space) in
    let p₁ : Pool = record p { next = update p.next a (a + p.size) } in
    let r = init_loop p₁ (a + p.size) n in
    let rest = init_loop-Linking p₁ (a + p.size) n step (omega (arith, more, space)) in
    let kept : update r.1.next r.0 null a ≡ a + p.size =
      update_ne r.1.next r.0 null a (omega (arith, rest.last, step))
      ∙ rest.before a (omega (arith, step))
      ∙ update_self p.next a (a + p.size) in
    rw to (record {
      same = rest.same;
      chain = (kept, rest.chain);
      last = omega (arith, rest.last, more);
      before = λ x l.
          rest.before x (omega (arith, l, step))
          ∙ update_ne p.next a (a + p.size) x (omega (arith, l));
    })

-- Even where the variable that pool_init_alloc never sets holds the first address of the region, a
-- pool of two blocks or more hands out only its first block inside the region: the others follow at
-- multiples of the size of the whole region; the count of its free bytes goes down from what it was
-- before; the region and as many more as there are blocks fit the address space, and it is smaller
-- than INT32_MAX bytes.
pub pool_init_alloc-outside :
    (v : Bool) (p : Pool) (size : ℕ)
    → p.signature ≡ nsignature_pool
    → p.base ≢ null
    → 0 < p.size
    → p.size < int32_max
    → 1 < p.no_blocks
    → p.base + p.no_blocks * p.size < 2 ^ 64
    → (p₁ : Pool) × (pool_init_alloc v p.base p size ≡ done (p.base, p₁))
      × (alloc_all v p₁ (p.no_blocks - 1)
          ≡ done (strides (p.base + p.size) p.size (p.no_blocks - 1)))
      × (p₁.free ≡ (p.free + 2 ^ 64 - block_size p) % 2 ^ 64)
unfolding pool_init_alloc
pool_init_alloc-outside v p size signed some_base step small several space =
    let n = p.no_blocks - 2 in
    let blocks : p.no_blocks - 1 ≡ suc n = omega (arith, several) in
    let count : p.no_blocks * p.size ≡ suc n * p.size + p.size =
      ap (λ k. k * p.size) (omega (arith, several)) ∙ suc-mul (suc n) p.size in
    let r = init_loop p p.base (suc n) in
    let w = init_loop-Linking p p.base (suc n) step (omega (arith, count, space)) in
    let q : Pool = record p { next = update r.1.next r.0 null; is_ready = true } in
    let made : record r.1 { next = update r.1.next r.0 null; is_ready = true } ≡ q =
      ap (λ (t : Pool). record t { next = update r.1.next r.0 null; is_ready = true }) w.same in
    let free = (p.free + 2 ^ 64 - block_size p) % 2 ^ 64 in
    let p₁ : Pool = record q { base = p.base + p.size; free = free } in
    let sign : (p.signature == nsignature_pool) ≡ true = ground (arith, signed) in
    let base : not (p.base == null) ≡ true = rw (==_ne p.base null some_base) refl in
    let some_block : (p.no_blocks == 0) ≡ false = ground (arith, several) in
    let next_base : p.base + p.size ≢ null = omega (arith, step) in
    (
      p₁,
      rw
          (
            check-true v (p.signature == nsignature_pool) sign,
            check-true v (not (p.base == null)) base,
            check-true v (ltb p.size int32_max) (lt→ltb p.size int32_max small),
            check-true v (leb 1 p.no_blocks) (ground (arith, several)),
            some_block,
            blocks,
            made,
          )
          (pool_alloc-next v q 0 (p.base + p.size) signed some_base w.chain.0),
      rw blocks (Stepping-alloc_all v p₁ p.size n signed next_base w.chain.1),
      refl,
    )
