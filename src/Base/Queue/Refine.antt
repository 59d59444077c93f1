-- ===== src/Base/Queue/Refine.antt =====
-- A valid queue behaves as the list of the items between its tail and its head.
use Prim.Native.Nat.{bit_and}
use native.Mathlib.Decide.{ℕ_discrete}
use native.Mathlib.Nat.{
  mod-lt, mod-eq_of_lt, mod-add-mod, one-le-pow, pow-le-pow_right, mod-eq-sub-mod,
}
use neon_eds.Common.{
  ℕ, zero, suc, ◌+◌, ◌-◌, ◌%◌, ◌^◌, ◌≤◌, ◌<◌, ◌≡◌, ◌≢◌, refl, ap, ap₂, ◌∙◌, sym, subst, List, [],
  ◌∷◌, ◌++◌, length, set, get_or-set_self, length-set, arith, ◌==◌, true, false, ==_iff,
  passes_under, passes_under-apply, inc, dec,
}
use neon_eds.Common.Bits.{bit_and-mask}
use neon_eds.Base.Queue.{
  Nqueue, read, nqueue_init, nqueue_size, nqueue_is_full, nqueue_is_empty, nqueue_put_fifo,
  nqueue_put_lifo, nqueue_get, nqueue_head, nqueue_tail, nqueue_empty,
}
use neon_eds.Base.Queue.Window.{
  window, mod-ne, window-mod, window-snoc, window-set_outside, IsValid, contents,
}

-- The size of a queue fits `uint32_t`.
pub size_fits : (k : ℕ) → k < 32 → (1 ≤ 2 ^ k) × (2 ^ k ≤ 2 ^ 31)
size_fits k h =
    (one-le-pow k 2 (omega arith), pow-le-pow_right {n = 2} (omega arith) {j = 31} (omega arith))

all_ones : passes_under (λ k. (2 ^ 32 - 1) % 2 ^ k == 2 ^ k - 1) 32 ≡ true
unfolding passes_under
all_ones = refl

-- Masking a wrapped counter is arithmetic modulo the size.
module _ (k : ℕ) (h : k < 32) (x : ℕ) (lt : x < 2 ^ k) where
  masked-inc : bit_and (inc x) (2 ^ k - 1) ≡ (x + 1) % 2 ^ k
  masked-inc =
      bit_and-mask k (inc x)
      ∙ ap (λ (t : ℕ). t % 2 ^ k) (mod-eq_of_lt (omega (arith, size_fits k h)))

  masked-dec : bit_and (dec x) (2 ^ k - 1) ≡ (x + 2 ^ k - 1) % 2 ^ k
  masked-dec = bit_and-mask k (dec x) ∙ elim (ℕ_discrete x 0) [
    | yes e ↦ rw e (
        (==_iff _ _).0 (passes_under-apply _ 32 all_ones k h)
        ∙ sym (mod-eq_of_lt (omega (arith, size_fits k h)))
        ∙ ap (λ (t : ℕ). t % 2 ^ k) (omega arith))
    | no ne ↦
        ap (λ (t : ℕ). t % 2 ^ k) {x = dec x} {y = x - 1} (omega (arith, size_fits k h))
        ∙ sym (
            mod-eq-sub-mod {n = x + 2 ^ k - 1} {m = 2 ^ k} (omega arith)
            ∙ ap (λ (t : ℕ). t % 2 ^ k) (omega arith))
  ]

length-window : (buf : List ℕ) (size t n : ℕ) → length (window buf size t n) ≡ n
length-window buf size t zero = refl
length-window buf size t (suc n) = ap suc (length-window buf size (t + 1) n)

pub length-contents : (k : ℕ) (q : Nqueue) → length (contents k q) ≡ 2 ^ k - q.empty
length-contents k q = length-window q.buf (2 ^ k) q.tail (2 ^ k - q.empty)

-- A fresh queue is valid and holds nothing.
pub nqueue_init_lem :
    (k : ℕ) (buf : List ℕ)
    → 0 < k
    → k < 32
    → length buf ≡ 2 ^ k
    → IsValid k (nqueue_init (2 ^ k) buf) × (contents k (nqueue_init (2 ^ k) buf) ≡ [])
unfolding nqueue_init
nqueue_init_lem k buf p h e = (
  record {
    shift_pos = p;
    shift_fits = h;
    slots = e;
    mask_ones = omega (arith, size_fits k h);
    tail_in = omega (arith, size_fits k h);
    room = omega (arith, size_fits k h);
    head_at = at_start;
  },
  ap (window buf (2 ^ k) 0) {y = 0} (omega (arith, size_fits k h)),
)
  where
    at_start : 0 ≡ (0 + (2 ^ k - 2 ^ k % 2 ^ 32)) % 2 ^ k
    at_start =
        sym (mod-eq_of_lt {n = 0} {m = 2 ^ k} (omega (arith, size_fits k h)))
        ∙ ap (λ (t : ℕ). t % 2 ^ k) (omega (arith, size_fits k h))

module _ (k : ℕ) {q : Nqueue} (v : IsValid k q) where
  -- The two tests tell how many items the queue holds.
  pub nqueue_is_full_lem : nqueue_is_full q ≡ (length (contents k q) == 2 ^ k)
  unfolding nqueue_is_full
  nqueue_is_full_lem = ground (arith, length-contents k q, size_fits k v.shift_fits)

  pub nqueue_is_empty_lem : nqueue_is_empty q ≡ (length (contents k q) == 0)
  unfolding nqueue_is_empty nqueue_size
  nqueue_is_empty_lem = ground (arith, length-contents k q, size_fits k v.shift_fits)

  size_pos : 0 < 2 ^ k
  size_pos = omega (arith, size_fits k v.shift_fits)

  head_in : q.head < 2 ^ k
  head_in = subst (λ t. t < 2 ^ k) (sym v.head_at) (mod-lt (q.tail + (2 ^ k - q.empty)) size_pos)

  next_of : (t : ℕ) → t < 2 ^ k → bit_and (inc t) q.mask ≡ (t + 1) % 2 ^ k
  next_of t lt = rw v.mask_ones (masked-inc k v.shift_fits t lt)

  prev_of : (t : ℕ) → t < 2 ^ k → bit_and (dec t) q.mask ≡ (t + 2 ^ k - 1) % 2 ^ k
  prev_of t lt = rw v.mask_ones (masked-dec k v.shift_fits t lt)

  module _ (x : ℕ) (free : nqueue_is_full q ≡ false) where
    some_room : 0 < q.empty
    unfolding nqueue_is_full
    some_room = ground arith

    dec-empty : dec q.empty ≡ q.empty - 1
    dec-empty = omega (arith, size_fits k v.shift_fits, v.room, some_room)

    one_more : 2 ^ k - dec q.empty ≡ suc (2 ^ k - q.empty)
    one_more = omega (arith, dec-empty, v.room, some_room)

    pub put_fifo-IsValid : IsValid k (nqueue_put_fifo q x)
    unfolding nqueue_put_fifo
    put_fifo-IsValid = record {
      shift_pos = v.shift_pos;
      shift_fits = v.shift_fits;
      slots = length-set q.buf q.head x ∙ v.slots;
      mask_ones = v.mask_ones;
      tail_in = v.tail_in;
      room = omega (arith, dec-empty, v.room);
      head_at =
          next_of q.head head_in
          ∙ ap (λ (t : ℕ). (t + 1) % 2 ^ k) v.head_at
          ∙ mod-add-mod (q.tail + (2 ^ k - q.empty)) (2 ^ k) 1
          ∙ ap (λ (t : ℕ). t % 2 ^ k) (omega (arith, one_more));
    }

    pub contents-put_fifo : contents k (nqueue_put_fifo q x) ≡ contents k q ++ x ∷ []
    unfolding nqueue_put_fifo
    contents-put_fifo =
        ap (window (set q.buf q.head x) (2 ^ k) q.tail) one_more
        ∙ window-snoc (set q.buf q.head x) (2 ^ k) (2 ^ k - q.empty) q.tail
        ∙ ap₂ (λ (xs : List ℕ) (y : ℕ). xs ++ y ∷ [])
            (window-set_outside q.buf (2 ^ k) (2 ^ k - q.empty) q.tail q.head x outside)
            (ap (λ (t : ℕ). read (set q.buf q.head x) t) (sym v.head_at)
              ∙ get_or-set_self q.buf q.head x 0 (omega (arith, v.slots, head_in)))
      where
        outside : (i : ℕ) → i < 2 ^ k - q.empty → q.head ≢ (q.tail + i) % 2 ^ k
        outside i lt e =
            mod-ne (2 ^ k) (q.tail + i) (q.tail + (2 ^ k - q.empty)) (omega arith)
              (omega (arith, some_room, v.room)) (sym e ∙ v.head_at)

    before_tail : ℕ
    before_tail = bit_and (dec q.tail) q.mask

    back_at : before_tail ≡ (q.tail + 2 ^ k - 1) % 2 ^ k
    unfolding before_tail
    back_at = prev_of q.tail v.tail_in

    before_in : before_tail < 2 ^ k
    before_in = rw back_at (mod-lt (q.tail + 2 ^ k - 1) size_pos)

    forth : (m : ℕ) → (before_tail + 1 + m) % 2 ^ k ≡ (q.tail + m) % 2 ^ k
    forth m =
        ap (λ (t : ℕ). (t + 1 + m) % 2 ^ k) back_at
        ∙ ap (λ (t : ℕ). t % 2 ^ k) (omega arith)
        ∙ mod-add-mod (q.tail + 2 ^ k - 1) (2 ^ k) (1 + m)
        ∙ mod-eq-sub-mod {n = q.tail + 2 ^ k - 1 + (1 + m)} {m = 2 ^ k} (omega (arith, size_pos))
        ∙ ap (λ (t : ℕ). t % 2 ^ k) (omega (arith, size_pos))

    pub put_lifo-IsValid : IsValid k (nqueue_put_lifo q x)
    unfolding nqueue_put_lifo before_tail
    put_lifo-IsValid = record {
      shift_pos = v.shift_pos;
      shift_fits = v.shift_fits;
      slots = length-set q.buf before_tail x ∙ v.slots;
      mask_ones = v.mask_ones;
      tail_in = before_in;
      room = omega (arith, dec-empty, v.room);
      head_at =
          v.head_at
          ∙ sym (forth (2 ^ k - q.empty))
          ∙ ap (λ (t : ℕ). t % 2 ^ k) {x = before_tail + 1 + (2 ^ k - q.empty)}
              {y = before_tail + (2 ^ k - dec q.empty)} (omega (arith, one_more));
    }

    pub contents-put_lifo : contents k (nqueue_put_lifo q x) ≡ x ∷ contents k q
    unfolding nqueue_put_lifo before_tail
    contents-put_lifo =
        ap (window (set q.buf before_tail x) (2 ^ k) before_tail) one_more
        ∙ ap₂ ◌∷◌ first (
            sym (window-mod (set q.buf before_tail x) (2 ^ k) n (before_tail + 1) size_pos)
            ∙ ap (λ (t : ℕ). window (set q.buf before_tail x) (2 ^ k) t n) to_tail
            ∙ window-set_outside q.buf (2 ^ k) n q.tail before_tail x outside)
      where
        n : ℕ
        n = 2 ^ k - q.empty

        first : read (set q.buf before_tail x) (before_tail % 2 ^ k) ≡ x
        first =
            ap (read (set q.buf before_tail x)) (mod-eq_of_lt before_in)
            ∙ get_or-set_self q.buf before_tail x 0 (omega (arith, v.slots, before_in))

        to_tail : (before_tail + 1) % 2 ^ k ≡ q.tail
        to_tail =
            ap (λ (t : ℕ). t % 2 ^ k) (omega arith)
            ∙ forth 0
            ∙ mod-eq_of_lt (omega (arith, v.tail_in))
            ∙ omega arith

        outside : (i : ℕ) → i < n → before_tail ≢ (q.tail + i) % 2 ^ k
        outside i lt e =
            mod-ne (2 ^ k) before_tail (before_tail + 1 + i) (omega arith)
              (omega (arith, some_room, v.room)) (mod-eq_of_lt before_in ∙ e ∙ sym (forth i))

  module _ (some_item : nqueue_is_empty q ≡ false) where
    not_all : q.empty < 2 ^ k
    unfolding nqueue_is_empty nqueue_size
    not_all = ground (arith, size_fits k v.shift_fits)

    one_less : 2 ^ k - q.empty ≡ suc (2 ^ k - inc q.empty)
    one_less = omega (arith, size_fits k v.shift_fits, not_all)

    pub get-IsValid : IsValid k (nqueue_get q).1
    unfolding nqueue_get
    get-IsValid = record {
      shift_pos = v.shift_pos;
      shift_fits = v.shift_fits;
      slots = v.slots;
      mask_ones = v.mask_ones;
      tail_in = rw (next_of q.tail v.tail_in) (mod-lt (q.tail + 1) size_pos);
      room = omega (arith, size_fits k v.shift_fits, not_all);
      head_at =
          v.head_at
          ∙ ap (λ (t : ℕ). t % 2 ^ k) (omega (arith, one_less))
          ∙ sym (mod-add-mod (q.tail + 1) (2 ^ k) (2 ^ k - inc q.empty))
          ∙ ap (λ (t : ℕ). (t + (2 ^ k - inc q.empty)) % 2 ^ k) (sym (next_of q.tail v.tail_in));
    }

    pub contents-get : contents k q ≡ (nqueue_get q).0 ∷ contents k (nqueue_get q).1
    unfolding nqueue_get
    contents-get =
        ap (window q.buf (2 ^ k) q.tail) one_less
        ∙ ap₂ ◌∷◌ (ap (read q.buf) (mod-eq_of_lt v.tail_in)) (
            sym (window-mod q.buf (2 ^ k) (2 ^ k - inc q.empty) (q.tail + 1) size_pos)
            ∙ ap (λ (t : ℕ). window q.buf (2 ^ k) t (2 ^ k - inc q.empty))
                (sym (next_of q.tail v.tail_in)))

  -- Peeking does not move the item that `nqueue_get` returns.
  pub nqueue_tail_lem : nqueue_tail q ≡ (nqueue_get q).0
  unfolding nqueue_tail nqueue_get
  nqueue_tail_lem = refl

  -- The head is the item that `nqueue_put_fifo` put last.
  pub head-put_fifo : (x : ℕ) → nqueue_is_full q ≡ false → nqueue_head (nqueue_put_fifo q x) ≡ x
  unfolding nqueue_head nqueue_put_fifo
  head-put_fifo x free =
      ap (read (set q.buf q.head x)) (
        prev_of (bit_and (inc q.head) q.mask)
          (rw (next_of q.head head_in) (mod-lt (q.head + 1) size_pos))
        ∙ ap (λ (t : ℕ). (t + 2 ^ k - 1) % 2 ^ k) (next_of q.head head_in)
        ∙ ap (λ (t : ℕ). t % 2 ^ k) {y = (q.head + 1) % 2 ^ k + (2 ^ k - 1)}
            (omega (arith, size_pos))
        ∙ mod-add-mod (q.head + 1) (2 ^ k) (2 ^ k - 1)
        ∙ mod-eq-sub-mod {n = q.head + 1 + (2 ^ k - 1)} {m = 2 ^ k} (omega (arith, size_pos))
        ∙ ap (λ (t : ℕ). t % 2 ^ k) {y = q.head} (omega (arith, size_pos))
        ∙ mod-eq_of_lt head_in)
      ∙ get_or-set_self q.buf q.head x 0 (omega (arith, v.slots, head_in))

  -- The room that the queue reports is what it can still take.
  pub nqueue_empty_lem : nqueue_empty q + length (contents k q) ≡ 2 ^ k
  unfolding nqueue_empty
  nqueue_empty_lem = omega (arith, length-contents k q, v.room)
