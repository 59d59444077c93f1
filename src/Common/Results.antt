-- ===== src/Common/Results.antt =====
-- Runs of code: an assertion that fails calls `hook_at_assert` of include/base/debug.h, which does not
-- return, a loop of the model may be given too little fuel, and a write may lie past the end of an array.
use mathlib.Core.Path.{◌≡◌, refl}
use mathlib.Core.Bool.{Bool, true, false}
use native.Mathlib.Omega.{arith}

pub data Run {ℓ} (A : Type ℓ) : Type ℓ where
  done : A → Run A
  asserted : Run A
  out_of_fuel : Run A
  out_of_bounds : Run A

infixl 5 ◌>>=◌ ◌>>◌
abbrev pub ◌>>=◌ {ℓ κ} : {A : Type ℓ} {B : Type κ} → Run A → (A → Run B) → Run B
done a >>= f = f a
asserted >>= f = asserted
out_of_fuel >>= f = out_of_fuel
out_of_bounds >>= f = out_of_bounds

abbrev pub ◌>>◌ {ℓ κ} : {A : Type ℓ} {B : Type κ} → Run A → Run B → Run B
m >> k = m >>= λ _. k

-- `NREQUIRE`, `NENSURE`, `NASSERT` and `NASSERT_INTERNAL` where they are compiled in.
abbrev pub require : Bool → Run (Unit {0})
require true = done tt
require false = asserted

pub >>=-eq-done {ℓ κ} :
    {A : Type ℓ} {B : Type κ} (m : Run A) (f : A → Run B) {b : B}
    → (m >>= f) ≡ done b
    → (a : A) × (m ≡ done a) × (f a ≡ done b)
>>=-eq-done (done a) f h = (a, refl, h)
>>=-eq-done asserted f h = absurd (ground arith)
>>=-eq-done out_of_fuel f h = absurd (ground arith)
>>=-eq-done out_of_bounds f h = absurd (ground arith)
