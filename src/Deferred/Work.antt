-- ===== src/Deferred/Work.antt =====
-- When the deferred functions of source/deferred.c run.
use neon_eds.Common.{
  ℕ, zero, suc, ◌<◌, ◌≡◌, ◌≢◌, List, [], ◌∷◌, ◌∉◌, Bool, true, false, not, ◌==◌, if◌then◌else◌,
  done, arith, refl, length, Bool-cases, inl, inr, ==_ne,
}
use neon_eds.Base.Dlist.{Links, null, ndlist_is_empty, ndlist_add_after, ndlist_next, ndlist_remove}
use neon_eds.Base.Dlist.Ring.{
  Ring, front, next-front, is_empty-Ring, is_empty-node, is_empty-outside,
}
use neon_eds.Base.Dlist.Insert.{add_after-Ring}
use neon_eds.Base.Dlist.Remove.{remove-Ring}
use neon_eds.Base.Dlist.Frame.{remove-other}
use neon_eds.Smp.Machine.{check-true}
use neon_eds.Deferred.{
  Deferred, nsignature_defer, defer_signature, nsched_deferred_do, work_loop, ncore_deferred_work,
}

-- A function that is not deferred yet comes first in the list of the pending ones, and one that stands in
-- a list already stays where it is: the item is initialised, and is not the head of the list.
pub nsched_deferred_do-Ring :
    (v : Bool) (d : Deferred) (x : ℕ) (xs : List ℕ)
    → Ring d.list d.pending xs
    → x ≢ null
    → x ≢ d.pending
    → defer_signature d x ≡ nsignature_defer
    → (d' : Deferred) × (nsched_deferred_do v d x ≡ done d')
      × Ring d'.list d.pending (if ndlist_is_empty d.list x then x ∷ xs else xs)
      × (d'.pending ≡ d.pending)
      × (d'.working ≡ d.working)
unfolding nsched_deferred_do
nsched_deferred_do-Ring v d x xs r ne apart signed =
    let some_item : not (x == null) ≡ true = rw (==_ne x null ne) refl in
    elim (Bool-cases (ndlist_is_empty d.list x)) [
      | inl idle ↦ (
        record d { list = ndlist_add_after d.list d.pending x },
        rw (check-true v (not (x == null)) some_item, signed, check-true v true refl, idle) refl,
        rw idle (
            add_after-Ring d.list d.pending x xs r
              (is_empty-outside d.list d.pending xs x r apart idle)),
        refl,
        refl,
      )
      | inr listed ↦ (
        d,
        rw (check-true v (not (x == null)) some_item, signed, check-true v true refl, listed) refl,
        rw listed r,
        refl,
        refl,
      )
    ]

-- The item at the head of the functions that run is still in their list while its function runs: if that
-- function defers it again, nothing happens.
pub nsched_deferred_do-running :
    (v : Bool) (d : Deferred) (x : ℕ) (xs : List ℕ)
    → Ring d.list d.working (x ∷ xs)
    → x ≢ null
    → defer_signature d x ≡ nsignature_defer
    → nsched_deferred_do v d x ≡ done d
unfolding nsched_deferred_do
nsched_deferred_do-running v d x xs r ne signed =
    let some_item : not (x == null) ≡ true = rw (==_ne x null ne) refl in
    let listed =
      is_empty-node d.list d.working [] x xs d.working r.chain r.distinct.1
        (ground (arith, r.distinct.0)) in
    rw (check-true v (not (x == null)) some_item, signed, check-true v true refl, listed) refl

-- Items with the signature of a deferred function.
abbrev pub AreSigned : (ℕ → ℕ) → List ℕ → Type 0
AreSigned signature [] = Unit {0}
AreSigned signature (x ∷ xs) =
    (x ≢ null) × (signature x ≡ nsignature_defer) × AreSigned signature xs

pub signed_item :
    (d : Deferred) (x : ℕ)
    → x ≢ null
    → d.signature x ≡ nsignature_defer
    → defer_signature d x ≡ nsignature_defer
unfolding defer_signature
signed_item d x ne e = rw (==_ne x null ne) e

pub front-apart : (s p : ℕ) (xs : List ℕ) → s ∉ p ∷ xs → front p xs ∉ s ∷ []
front-apart s p [] out = ground (arith, out)
front-apart s p (x ∷ xs) out = ground (arith, out)

-- The functions of the items, called in order.
abbrev pub effects {ℓ} : {W : Type ℓ} → (ℕ → ℕ → W → W) → (ℕ → ℕ) → (ℕ → ℕ) → List ℕ → W → W
effects effect fn arg [] w = w
effects effect fn arg (x ∷ xs) w = effects effect fn arg xs (effect (fn x) (arg x) w)

module _ {ℓ} {W : Type ℓ} (call : ℕ → ℕ → Deferred × W → Deferred × W) (effect : ℕ → ℕ → W → W)
    (calls : (fn arg : ℕ) (d : Deferred) (w : W) → call fn arg (d, w) ≡ (d, effect fn arg w)) where
  work_loop-effects :
      (v : Bool) (fuel : ℕ) (xs : List ℕ) (d : Deferred) (w : W) (s : ℕ)
      → Ring d.list d.working xs
      → Ring d.list s []
      → s ∉ d.working ∷ xs
      → AreSigned d.signature xs
      → length xs < fuel
      → (list : Links) × (work_loop call v fuel (d, w)
          ≡ done (record d { list = list }, effects effect d.fn d.arg xs w))
        × Ring list d.working []
        × Ring list s []
  unfolding work_loop ndlist_next
  work_loop-effects v zero xs d w s r e out signed enough = absurd (omega (arith, enough))
  work_loop-effects v (suc fuel) [] d w s r e out signed enough =
      let done_all : ndlist_is_empty d.list d.working ≡ true =
        is_empty-Ring d.list d.working [] r in
      (d.list, rw done_all refl, r, e)
  work_loop-effects v (suc fuel) (x ∷ xs) d w s r e out (some_item, sig, signed) enough =
      let more : ndlist_is_empty d.list d.working ≡ false =
        is_empty-Ring d.list d.working (x ∷ xs) r in
      let head : d.list.next d.working ≡ x =
        next-front d.list d.working (x ∷ xs) d.working r.chain in
      let after : d.list.next x ≡ front d.working xs = next-front d.list x xs d.working r.chain.2 in
      let list₁ = ndlist_remove v d.list x in
      let d₁ : Deferred = record d { list = list₁ } in
      let w₁ = effect (d.fn x) (d.arg x) w in
      let kept : Ring list₁ s [] =
        remove-other d.list s [] e v x (ground (arith, out)) (rw r.chain.1 (ground (arith, out)))
          (rw after (front-apart s d.working xs (ground (arith, out)))) in
      let (list', run, r', e') =
        work_loop-effects v fuel xs d₁ w₁ s (remove-Ring v d.list d.working x [] xs r) kept
          (ground (arith, out)) signed (omega (arith, enough)) in
      (
        list',
        rw
            (
              more,
              head,
              calls (d.fn x) (d.arg x) d w,
              signed_item d x some_item sig,
              check-true v true refl,
            )
            run,
        r',
        e',
      )

  -- `ncore_deferred_work` calls the items of the pending list, in the order of the list.
  pub ncore_deferred_work-pending :
      (v : Bool) (fuel : ℕ) (xs : List ℕ) (d : Deferred) (w : W)
      → Ring d.list d.pending xs
      → Ring d.list d.working []
      → d.working ∉ d.pending ∷ xs
      → AreSigned d.signature xs
      → length xs < fuel
      → (list : Links) × (ncore_deferred_work call v fuel d w
          ≡ done (
            record d { list = list; pending = d.working; working = d.pending },
            effects effect d.fn d.arg xs w,
          ))
        × Ring list d.pending []
        × Ring list d.working []
  unfolding ncore_deferred_work
  ncore_deferred_work-pending v fuel xs d w r e out signed enough =
      work_loop-effects v fuel xs (record d { pending = d.working; working = d.pending }) w
        d.working r e out signed enough
