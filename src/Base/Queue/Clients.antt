-- ===== src/Base/Queue/Clients.antt =====
-- `put_item` and `get_item` of the comment in include/base/queue.h: how a client guards the queue. A
-- queue driven by them behaves as a bounded list, open at both ends.
use neon_eds.Common.{
  ℕ, ◌^◌, ◌≡◌, refl, ap, ap₂, ◌∙◌, sym, List, [], ◌∷◌, ◌++◌, Option, none, some, Bool, true, false,
  length, arith, ◌==◌, if◌then◌else◌, inl, inr, Bool-cases,
}
use neon_eds.Base.Queue.{
  Nqueue, nqueue_is_full, nqueue_is_empty, nqueue_put_fifo, nqueue_put_lifo, nqueue_get,
}
use neon_eds.Base.Queue.Window.{IsValid, contents}
use neon_eds.Base.Queue.Refine.{
  nqueue_is_full_lem, nqueue_is_empty_lem, put_fifo-IsValid, contents-put_fifo, put_lifo-IsValid,
  contents-put_lifo, get-IsValid, contents-get,
}

-- `put_item` with `nqueue_put_fifo`, the same with `nqueue_put_lifo`, and `get_item`.
pub data Op : Type 0 where
  put : ℕ → Op
  put_ahead : ℕ → Op
  get : Op

-- What a call returns: accepted or refused, and the item or `NULL`.
abbrev pub Reply : Type 0
Reply = Bool × Option ℕ

pub put_item : Nqueue → ℕ → Bool × Nqueue
put_item q x = if nqueue_is_full q then (false, q) else (true, nqueue_put_fifo q x)

-- A client may guard `nqueue_put_lifo` in the same way; the comment has no example of it.
pub put_item_ahead : Nqueue → ℕ → Bool × Nqueue
put_item_ahead q x = if nqueue_is_full q then (false, q) else (true, nqueue_put_lifo q x)

pub get_item : Nqueue → Option ℕ × Nqueue
get_item q = if nqueue_is_empty q then (none, q) else (let (x, q') = nqueue_get q in (some x, q'))

pub step : Nqueue → Op → Reply × Nqueue
unfolding put_item put_item_ahead get_item
step q (put x) = let (b, q') = put_item q x in ((b, none), q')
step q (put_ahead x) = let (b, q') = put_item_ahead q x in ((b, none), q')
step q get = let (x, q') = get_item q in ((true, x), q')

pub run : Nqueue → List Op → List Reply × Nqueue
run q [] = ([], q)
run q (o ∷ os) = let (r, q') = step q o in let (rs, q'') = run q' os in (r ∷ rs, q'')

-- The specification: a list of at most `cap` items.
pub spec_step : ℕ → List ℕ → Op → Reply × List ℕ
spec_step cap xs (put x) =
    if length xs == cap then ((false, none), xs) else ((true, none), xs ++ x ∷ [])
spec_step cap xs (put_ahead x) =
    if length xs == cap then ((false, none), xs) else ((true, none), x ∷ xs)
spec_step cap [] get = ((true, none), [])
spec_step cap (x ∷ xs) get = ((true, some x), xs)

pub spec_run : ℕ → List ℕ → List Op → List Reply × List ℕ
spec_run cap xs [] = ([], xs)
spec_run cap xs (o ∷ os) =
    let (r, xs') = spec_step cap xs o in let (rs, xs'') = spec_run cap xs' os in (r ∷ rs, xs'')

-- One call keeps the queue valid, answers as the list does, and holds what the list holds.
abbrev Agrees : ℕ → Reply × Nqueue → Reply × List ℕ → Type 0
Agrees k (r, q) (s, xs) = IsValid k q × (r ≡ s) × (contents k q ≡ xs)

nil_of_length : (xs : List ℕ) → (length xs == 0) ≡ true → xs ≡ []
nil_of_length [] h = refl
nil_of_length (x ∷ xs) h = absurd (ground arith)

module _ (k : ℕ) where
  step-Agrees :
      (q : Nqueue) (o : Op) → IsValid k q → Agrees k (step q o) (spec_step (2 ^ k) (contents k q) o)
  unfolding step spec_step
  step-Agrees q (put x) v = elim (Bool-cases (nqueue_is_full q)) [
    | inl full ↦ rw (full, sym (nqueue_is_full_lem k v) ∙ full) (v, refl, refl)
    | inr free ↦
        rw (free, sym (nqueue_is_full_lem k v) ∙ free)
          (put_fifo-IsValid k v x free, refl, contents-put_fifo k v x free)
  ]
  step-Agrees q (put_ahead x) v = elim (Bool-cases (nqueue_is_full q)) [
    | inl full ↦ rw (full, sym (nqueue_is_full_lem k v) ∙ full) (v, refl, refl)
    | inr free ↦
        rw (free, sym (nqueue_is_full_lem k v) ∙ free)
          (put_lifo-IsValid k v x free, refl, contents-put_lifo k v x free)
  ]
  step-Agrees q get v = elim (Bool-cases (nqueue_is_empty q)) [
    | inl none_left ↦
        rw (none_left, nil_of_length (contents k q) (sym (nqueue_is_empty_lem k v) ∙ none_left))
          (v, refl, refl)
    | inr left ↦ rw (left, contents-get k v left) (get-IsValid k v left, refl, refl)
  ]

  -- No sequence of calls tells a valid queue from the bounded list of its items.
  pub run_refines :
      (q : Nqueue) (os : List Op)
      → IsValid k q
      → ((run q os).0 ≡ (spec_run (2 ^ k) (contents k q) os).0)
        × (contents k (run q os).1 ≡ (spec_run (2 ^ k) (contents k q) os).1)
  unfolding run spec_run
  run_refines q [] v = (refl, refl)
  run_refines q (o ∷ os) v =
      let (v', r, c) = step-Agrees q o v in
      let (rs, c') = run_refines (step q o).1 os v' in
      (
        ap₂ ◌∷◌ r (rs ∙ ap (λ xs. (spec_run (2 ^ k) xs os).0) c),
        c' ∙ ap (λ xs. (spec_run (2 ^ k) xs os).1) c,
      )
