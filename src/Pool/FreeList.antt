-- ===== src/Pool/FreeList.antt =====
-- The free blocks of a pool.
use neon_eds.Common.{
  ℕ, suc, ◌+◌, ◌-◌, ◌*◌, ◌<◌, ◌%◌, ◌^◌, ◌≡◌, ◌≢◌, Bool, true, false, ◌==◌, if◌then◌else◌, update,
  done, asserted, List, [], ◌∷◌, ◌∉◌, length, arith, refl, ==_ne,
}
use native.Mathlib.Nat.{suc-mul}
use neon_eds.Base.Dlist.{null}
use neon_eds.Sched.{check}
use neon_eds.Pool.{Pool, nsignature_pool, block_size, pool_alloc, pool_free}

-- The `next` pointers lead from `a` through `xs` to the null pointer.
abbrev pub Linked : (ℕ → ℕ) → ℕ → List ℕ → Type 0
Linked next a [] = a ≡ null
Linked next a (x ∷ xs) = (a ≡ x) × (x ≢ null) × Linked next (next x) xs

pub record FreeList (p : Pool) (xs : List ℕ) : Type 0 where
  pub linked : Linked p.next p.base xs
  pub bytes : p.free ≡ length xs * block_size p
  pub signed : p.signature ≡ nsignature_pool

Linked-update :
    (next : ℕ → ℕ) (a : ℕ) (xs : List ℕ) (m v : ℕ)
    → m ∉ xs
    → Linked next a xs
    → Linked (update next m v) a xs
Linked-update next a [] m v o l = l
Linked-update next a (x ∷ xs) m v o l =
    let same : update next m v x ≡ next x = ground arith in
    (l.0, l.1, rw same (Linked-update next (next x) xs m v (ground arith) l.2))

-- Both functions leave the size of a block alone.
abbrev pub SameShape : Pool → Pool → Type 0
SameShape p q = block_size q ≡ block_size p

-- `pool_alloc` takes the first free block.
pub pool_alloc-FreeList :
    (v : Bool) (p : Pool) (x : ℕ) (xs : List ℕ) (size : ℕ)
    → FreeList p (x ∷ xs)
    → p.free < 2 ^ 64
    → (p' : Pool) × (pool_alloc v p size ≡ done (x, p')) × FreeList p' xs × SameShape p p'
unfolding pool_alloc check
pool_alloc-FreeList v p x xs size f room =
    let some_block : (p.base == null) ≡ false = ground (arith, f.linked) in
    let more : suc (length xs) * block_size p ≡ length xs * block_size p + block_size p =
      suc-mul (length xs) (block_size p) in
    let left : (p.free + 2 ^ 64 - block_size p) % 2 ^ 64 ≡ length xs * block_size p =
      omega (arith, f.bytes, more) in
    (
      record p { base = p.next p.base; free = (p.free + 2 ^ 64 - block_size p) % 2 ^ 64 },
      passes v some_block,
      record { linked = rw f.linked.0 f.linked.2; bytes = left; signed = f.signed },
      refl,
    )
  where
    passes :
        (v : Bool)
        → (p.base == null) ≡ false
        → pool_alloc v p size
          ≡ done (
            x,
            record p { base = p.next p.base; free = (p.free + 2 ^ 64 - block_size p) % 2 ^ 64 },
          )
    passes true e = rw (f.signed, e, f.linked.0) refl
    passes false e = rw (e, f.linked.0) refl

-- Without a free block it returns the null pointer, or fails an assertion where the validation is on.
pub pool_alloc-no_block :
    (v : Bool) (p : Pool) (size : ℕ)
    → FreeList p []
    → pool_alloc v p size ≡ (if v then asserted else done (null, p))
unfolding pool_alloc check
pool_alloc-no_block true p size f =
    let none_left : (p.base == null) ≡ true = ground (arith, f.linked) in
    rw (f.signed, none_left) refl
pool_alloc-no_block false p size f =
    let none_left : (p.base == null) ≡ true = ground (arith, f.linked) in
    rw none_left (simp f.linked refl)

-- `pool_free` puts a block before the others.
pub pool_free-FreeList :
    (v : Bool) (p : Pool) (m : ℕ) (xs : List ℕ)
    → FreeList p xs
    → m ≢ null
    → m ∉ xs
    → suc (length xs) * block_size p < 2 ^ 64
    → (p' : Pool) × (pool_free v p m ≡ done p') × FreeList p' (m ∷ xs) × SameShape p p'
unfolding pool_free check
pool_free-FreeList v p m xs f ne o room =
    let more : suc (length xs) * block_size p ≡ length xs * block_size p + block_size p =
      suc-mul (length xs) (block_size p) in
    let left : (p.free + block_size p) % 2 ^ 64 ≡ suc (length xs) * block_size p =
      omega (arith, f.bytes, more, room) in
    let entry : update p.next m p.base m ≡ p.base = ground arith in
    (
      record p { next = update p.next m p.base; base = m; free = (p.free + block_size p) % 2 ^ 64 },
      passes v,
      record {
        linked = (refl, ne, rw entry (Linked-update p.next p.base xs m p.base o f.linked));
        bytes = left;
        signed = f.signed;
      },
      refl,
    )
  where
    passes :
        (v : Bool)
        → pool_free v p m
          ≡ done (record p {
            next = update p.next m p.base;
            base = m;
            free = (p.free + block_size p) % 2 ^ 64;
          })
    passes true = rw (f.signed, ==_ne m null ne) refl
    passes false = refl
