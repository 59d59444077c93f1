-- ===== src/Base/Queue/Window.antt =====
-- The items between two positions of a ring, and the representation invariant of `struct nqueue`.
use native.Mathlib.Nat.{mod-lt, mod-eq_of_lt, mod-add-mod, mod-add-div, mul-le-mul_left}
use native.Mathlib.Decide.{dec_lt}
use neon_eds.Common.{
  ℕ, zero, suc, ◌+◌, ◌-◌, ◌/◌, ◌%◌, ◌^◌, ◌≤◌, ◌<◌, ◌≡◌, ◌≢◌, refl, ap, ap₂, ◌∙◌, sym, List, [], ◌∷◌,
  ◌++◌, length, set, get_or-set_ne, arith,
}
use neon_eds.Base.Queue.{Nqueue, read}

-- Two numbers less than `n` apart have different remainders.
pub mod-ne : (n a b : ℕ) → a < b → b < a + n → a % n ≢ b % n
mod-ne n a b h k e = elim (dec_lt (a / n) (b / n)) [
  | yes p ↦ omega (arith, mod-add-div a n, mod-add-div b n, mul-le-mul_left n p)
  | no p ↦ omega (
    arith,
    mod-add-div a n,
    mod-add-div b n,
    mul-le-mul_left {m = b / n} {n = a / n} n (omega arith),
  )
]

module _ (buf : List ℕ) (size : ℕ) where
  -- `n` items from position `t` on, positions taken modulo `size`.
  abbrev pub window : ℕ → ℕ → List ℕ
  window t zero = []
  window t (suc n) = read buf (t % size) ∷ window (t + 1) n

  pub window-mod : (n t : ℕ) → 0 < size → window (t % size) n ≡ window t n
  window-mod zero t h = refl
  window-mod (suc n) t h = ap₂ ◌∷◌ (ap (λ (t : ℕ). read buf t) (mod-eq_of_lt (mod-lt t h))) (
      sym (window-mod n (t % size + 1) h)
      ∙ ap (λ (p : ℕ). window p n) (mod-add-mod t size 1)
      ∙ window-mod n (t + 1) h)

  pub window-snoc : (n t : ℕ) → window t (suc n) ≡ window t n ++ read buf ((t + n) % size) ∷ []
  window-snoc zero t = ap (λ (p : ℕ). read buf (p % size) ∷ []) (omega arith)
  window-snoc (suc n) t = ap (λ xs. read buf (t % size) ∷ xs) (window-snoc n (t + 1) ∙ shifted)
    where
      shifted :
          window (t + 1) n ++ read buf ((t + 1 + n) % size) ∷ []
          ≡ window (t + 1) n ++ read buf ((t + suc n) % size) ∷ []
      shifted = ap (λ (p : ℕ). window (t + 1) n ++ read buf (p % size) ∷ []) (omega arith)

-- A write at a position outside the window leaves it as it is.
pub window-set_outside :
    (buf : List ℕ) (size n t w x : ℕ)
    → ((i : ℕ) → i < n → w ≢ (t + i) % size)
    → window (set buf w x) size t n ≡ window buf size t n
window-set_outside buf size zero t w x out = refl
window-set_outside buf size (suc n) t w x out =
    ap₂ ◌∷◌ (get_or-set_ne buf w (t % size) x 0 first)
      (window-set_outside buf size n (t + 1) w x later)
  where
    first : w ≢ t % size
    first = λ e. out 0 (omega arith) (e ∙ ap (λ (p : ℕ). p % size) (omega arith))

    later : (i : ℕ) → i < n → w ≢ (t + 1 + i) % size
    later i h = λ e. out (suc i) (omega arith) (e ∙ ap (λ (p : ℕ). p % size) (omega arith))

-- The queue has `2 ^ k` slots, and its counters describe one window of them.
pub record IsValid (k : ℕ) (q : Nqueue) : Type 0 where
  pub shift_pos : 0 < k
  pub shift_fits : k < 32
  pub slots : length q.buf ≡ 2 ^ k
  pub mask_ones : q.mask ≡ 2 ^ k - 1
  pub tail_in : q.tail < 2 ^ k
  pub room : q.empty ≤ 2 ^ k
  pub head_at : q.head ≡ (q.tail + (2 ^ k - q.empty)) % 2 ^ k

-- What a queue of `2 ^ k` slots holds, the item that `nqueue_get` returns first.
abbrev pub contents : ℕ → Nqueue → List ℕ
contents k q = window q.buf (2 ^ k) q.tail (2 ^ k - q.empty)
