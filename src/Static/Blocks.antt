-- ===== src/Static/Blocks.antt =====
-- The blocks that static memory of source/static.c hands out.
use neon_eds.Common.{
  ℕ, ◌+◌, ◌-◌, ◌<◌, ◌≤◌, ◌^◌, ◌%◌, ◌≡◌, ◌≢◌, ◌⊎◌, inl, inr, List, [], ◌∷◌, Bool, true, false, not,
  ◌&&◌, ltb, leb, ◌==◌, if◌then◌else◌, Run, done, ◌>>=◌, arith, refl, ◌∙◌, Bool-cases, ==_ne, subst,
}
use neon_eds.Base.Bitop.{nalign_up, nalign_up-least}
use neon_eds.Base.Dlist.{null}
use neon_eds.Smp.Machine.{check-true}
use neon_eds.Static.{Static, int32_max, claim_signature, static_alloc}

-- The memory is within the address space, and its free part ends at an aligned address.
pub record IsAligned (s : Static) : Type 0 where
  pub some_base : s.base ≢ null
  pub base_aligned : s.base % 8 ≡ 0
  pub free_aligned : s.free % 8 ≡ 0
  pub fits : s.base + s.free < 2 ^ 64

claim-same :
    (v : Bool) (s : Static)
    → ((claim_signature v s).base ≡ s.base) × ((claim_signature v s).free ≡ s.free)
unfolding claim_signature
claim-same true s = (refl, refl)
claim-same false s = (refl, refl)

-- What an allocation of `size` bytes does.
pub record Allocated (s : Static) (size p : ℕ) (s' : Static) : Type 0 where
  pub aligned : IsAligned s'
  pub same_base : s'.base ≡ s.base
  pub answer :
      ((p ≡ null) × (s'.free ≡ s.free) × (s.free < size + 8))
      ⊎ ((p ≢ null) × (p ≡ s.base + s'.free) × (p % 8 ≡ 0) × (s'.free + size ≤ s.free))

static_alloc-Allocated :
    (v : Bool) (s : Static) (size : ℕ)
    → IsAligned s
    → 0 < size
    → size < int32_max
    → (p : ℕ) × (s' : Static) × (static_alloc v s size ≡ done (p, s')) × Allocated s size p s'
unfolding static_alloc
static_alloc-Allocated v s size a positive small =
    let s₁ = claim_signature v s in
    let (same_base, same_free) = claim-same v s in
    let size₁ = nalign_up 64 32 size 8 in
    let (whole, enough, least) =
      nalign_up-least 64 3 29 size (omega arith) (omega (arith, small)) in
    let valid : (not (size == 0) && ltb size int32_max) ≡ true = ground (arith, positive, small) in
    elim (Bool-cases (leb size₁ s₁.free)) [
      | inl room ↦
          let p = (s₁.base + (s₁.free - size₁)) % 2 ^ 64 in
          let under : size₁ ≤ s.free = ground (arith, room, same_free) in
          let at : p ≡ s.base + (s.free - size₁) = omega (arith, same_base, same_free, a.fits) in
          let free_aligned : (s.free - size₁) % 8 ≡ 0 =
            omega (arith, a.free_aligned, whole, under) in
          (
            p,
            record s₁ { free = s₁.free - size₁ },
            rw (check-true v (not (size == 0) && ltb size int32_max) valid, room) refl,
            record {
              aligned = record {
                some_base = λ e. a.some_base (omega (arith, same_base, e));
                base_aligned = rw same_base a.base_aligned;
                free_aligned = rw same_free free_aligned;
                fits = omega (arith, same_base, same_free, a.fits);
              };
              same_base = same_base;
              answer = inr (
                (λ e. a.some_base (omega (arith, at, e))),
                omega (arith, at, same_free),
                omega (arith, at, a.base_aligned, free_aligned),
                omega (arith, enough, under, same_free),
              );
            },
          )
      | inr full ↦
          let over : s.free < size₁ = ground (arith, full, same_free) in
          (
            null,
            s₁,
            rw (check-true v (not (size == 0) && ltb size int32_max) valid, full) refl,
            record {
              aligned = record {
                some_base = λ e. a.some_base (omega (arith, same_base, e));
                base_aligned = rw same_base a.base_aligned;
                free_aligned = rw same_free a.free_aligned;
                fits = omega (arith, same_base, same_free, a.fits);
              };
              same_base = same_base;
              answer = inl (refl, same_free, omega (arith, least, over));
            },
          )
    ]

-- A client that allocates blocks of the given sizes, and the blocks that it gets: address and size.
pub serve : Bool → List ℕ → Static → Run (List (ℕ × ℕ) × Static)
serve v [] s = done ([], s)
serve v (size ∷ sizes) s = static_alloc v s size >>= λ r. serve v sizes r.1 >>= λ rest.
    done ((if r.0 == null then rest.0 else (r.0, size) ∷ rest.0), rest.1)

-- The blocks are aligned, and each one lies between `lo` and the block before it, the first one under `hi`.
pub Stacked : ℕ → ℕ → List (ℕ × ℕ) → Type 0
Stacked lo hi [] = Unit {0}
Stacked lo hi ((p, size) ∷ blocks) = (lo ≤ p) × (p + size ≤ hi) × (p % 8 ≡ 0) × Stacked lo p blocks

abbrev pub Admitted : List ℕ → Type 0
Admitted [] = Unit {0}
Admitted (size ∷ sizes) = (0 < size) × (size < int32_max) × Admitted sizes

Stacked-under :
    (lo hi hi' : ℕ) (blocks : List (ℕ × ℕ))
    → hi ≤ hi'
    → Stacked lo hi blocks
    → Stacked lo hi' blocks
unfolding Stacked
Stacked-under lo hi hi' [] le st = tt
Stacked-under lo hi hi' ((p, size) ∷ blocks) le (from, to, whole, rest) =
    (from, omega (arith, to, le), whole, rest)

-- From aligned memory in the address space, whatever sizes are asked for, each above 0 and below
-- INT32_MAX, the blocks handed out are aligned, lie in the part that was free, and no two overlap.
pub serve-Stacked :
    (v : Bool) (sizes : List ℕ) (s : Static)
    → IsAligned s
    → Admitted sizes
    → (blocks : List (ℕ × ℕ)) × (s' : Static) × (serve v sizes s ≡ done (blocks, s'))
      × Stacked s.base (s.base + s.free) blocks
      × IsAligned s'
      × (s'.base ≡ s.base)
      × (s'.free ≤ s.free)
unfolding serve Stacked
serve-Stacked v [] s a ok = ([], s, refl, tt, a, refl, omega arith)
serve-Stacked v (size ∷ sizes) s a (positive, small, ok) =
    let (p, s₁, run, al) = static_alloc-Allocated v s size a positive small in
    let (blocks, s', rest, st, a', same, less) = serve-Stacked v sizes s₁ al.aligned ok in
    elim al.answer [
      | inl (none, kept, _) ↦
          let absent : (p == null) ≡ true = ground (arith, none) in
          (
            blocks,
            s',
            rw (run, rest, absent) refl,
            subst (λ (lo, f). Stacked lo (lo + f) blocks) (λ i. (al.same_base i, kept i)) st,
            a',
            same ∙ al.same_base,
            omega (arith, less, kept),
          )
      | inr (present, at, whole, within) ↦
          let top : s₁.base + s₁.free ≡ p = omega (arith, at, al.same_base) in
          (
            (p, size) ∷ blocks,
            s',
            rw (run, rest, ==_ne p null present) refl,
            (
              omega (arith, at),
              omega (arith, at, within),
              whole,
              subst (λ (lo, hi). Stacked lo hi blocks) (λ i. (al.same_base i, top i)) st,
            ),
            a',
            same ∙ al.same_base,
            omega (arith, less, within),
          )
    ]
