-- ===== src/Port/Log.antt =====
-- `ncore_log2` on the values that the table of the port can tell.
use neon_eds.Common.{
  ℕ, suc, ◌+◌, ◌*◌, ◌/◌, ◌^◌, ◌≤◌, ◌<◌, ◌≡◌, refl, Bool, true, false, some, ◌==◌, leb, ltb, ◌&&◌,
  ◌||◌, Bool-cases, inl, inr, ap, passes_under, passes_under-apply, arith, get_or,
}
use native.Mathlib.Nat.{pow-suc}
use neon_eds.Base.Bitop.{nlog2_8}
use neon_eds.Port.{g_log2_lookup, lookup, add_byte, ncore_log2}

-- The entry of the table at `x` is the place of the highest bit of `x`.
entry_ok : ℕ → Bool
entry_ok x =
    (x == 0)
    || (ltb (get_or g_log2_lookup x 0) 8
        && leb (2 ^ get_or g_log2_lookup x 0) x
        && ltb x (2 ^ suc (get_or g_log2_lookup x 0)))

table_ok : passes_under entry_ok 256 ≡ true
unfolding passes_under g_log2_lookup entry_ok
table_ok = refl

-- The macro of include/base/bitop.h gives the same.
same_entry : ℕ → Bool
same_entry x = get_or g_log2_lookup x 0 == nlog2_8 x

same_table : passes_under same_entry 256 ≡ true
unfolding passes_under g_log2_lookup same_entry nlog2_8
same_table = refl

-- On every byte ncore_log2 gives what the macro NLOG2_8 gives.
pub ncore_log2-nlog2_8 : (x : ℕ) → x < 256 → ncore_log2 x ≡ some (nlog2_8 x)
unfolding ncore_log2 lookup same_entry
ncore_log2-nlog2_8 x h =
    let low : ltb 255 x ≡ false = ground (arith, h) in
    let inside : ltb x 256 ≡ true = ground (arith, h) in
    let same : get_or g_log2_lookup x 0 ≡ nlog2_8 x =
      ground (arith, passes_under-apply same_entry 256 same_table x h) in
    rw (low, inside, same) refl

abbrev pub Log2 : ℕ → ℕ → Type 0
Log2 x p = (2 ^ p ≤ x) × (x < 2 ^ suc p)

entry-Log2 : (x : ℕ) → x < 256 → 0 < x → (p : ℕ) × (lookup x ≡ some p) × (p < 8) × Log2 x p
unfolding entry_ok lookup
entry-Log2 x h k =
    let ok = passes_under-apply entry_ok 256 table_ok x h in
    (get_or g_log2_lookup x 0, ground arith, ground arith, (ground arith, ground arith))

shift_8 : (p : ℕ) → 2 ^ (p + 8) ≡ 2 ^ p * 256
shift_8 p =
    let e : p + 8 ≡ suc (suc (suc (suc (suc (suc (suc (suc p))))))) = omega arith in
    rw e (
      omega (
        arith,
        pow-suc 2 p,
        pow-suc 2 (suc p),
        pow-suc 2 (suc (suc p)),
        pow-suc 2 (suc (suc (suc p))),
        pow-suc 2 (suc (suc (suc (suc p)))),
        pow-suc 2 (suc (suc (suc (suc (suc p))))),
        pow-suc 2 (suc (suc (suc (suc (suc (suc p)))))),
        pow-suc 2 (suc (suc (suc (suc (suc (suc (suc p))))))),
      ))

pub ncore_log2-Log2 :
    (x : ℕ) → x < 2 ^ 16 → 0 < x → (p : ℕ) × (ncore_log2 x ≡ some p) × (p < 16) × Log2 x p
unfolding ncore_log2 add_byte
ncore_log2-Log2 x h k = elim (Bool-cases (ltb 255 x)) [
  | inl e ↦
      let (p, run, small, (lo, hi)) = entry-Log2 (x / 256) (omega arith) (ground arith) in
      (
        p + 8,
        rw (e, run) (ap some (omega arith)),
        omega arith,
        (omega (arith, shift_8 p), omega (arith, shift_8 p, shift_8 (suc p))),
      )
  | inr e ↦
      let (p, run, small, (lo, hi)) = entry-Log2 x (ground arith) k in
      (p, rw (e, run) refl, omega arith, (lo, hi))
]
