-- ===== src/Deferred/Order.antt =====
-- The order in which the functions of source/deferred.c run that were deferred one after another.
use neon_eds.Common.{
  ℕ, ◌+◌, ◌<◌, ◌≤◌, ◌≡◌, ◌≢◌, List, [], ◌∷◌, ◌∉◌, has, Bool, true, false, not, ◌==◌, if◌then◌else◌,
  Run, done, ◌>>=◌, arith, refl, length, Bool-cases, inl, inr, ==_ne, sym, subst,
}
use neon_eds.Base.Dlist.{Links, null, ndlist_is_empty, ndlist_add_after}
use neon_eds.Base.Dlist.Fields.{next-add_after}
use neon_eds.Base.Dlist.Ring.{Ring, front, next-front, is_empty-outside}
use neon_eds.Base.Dlist.Insert.{add_after-Ring}
use neon_eds.Base.Dlist.Frame.{add_after-other}
use neon_eds.Smp.Machine.{check-true}
use neon_eds.Deferred.{Deferred, nsched_deferred_do, ncore_deferred_work}
use neon_eds.Deferred.Work.{
  effects, AreSigned, signed_item, ncore_deferred_work-pending, front-apart,
}

-- The items are deferred one after another.
abbrev pub defer_all : Bool → Deferred → List ℕ → Run Deferred
defer_all v d [] = done d
defer_all v d (x ∷ xs) = nsched_deferred_do v d x >>= λ d₁. defer_all v d₁ xs

-- What is pending then: an item that is not pending yet comes first.
abbrev pub pending_after : List ℕ → List ℕ → List ℕ
pending_after ys [] = ys
pending_after ys (x ∷ xs) = pending_after (if has x ys then ys else x ∷ ys) xs

-- Items that are in no list but that of the pending ones `ys`.
abbrev pub Items : Deferred → List ℕ → List ℕ → Type 0
Items d ys [] = Unit {0}
Items d ys (x ∷ xs) =
    (x ≢ d.pending) × (x ≢ d.working) × (x ∉ ys → ndlist_is_empty d.list x ≡ true) × Items d ys xs

Items-add :
    (d : Deferred) (x : ℕ) (ys xs : List ℕ)
    → x ≢ d.pending
    → Items d ys xs
    → Items (record d { list = ndlist_add_after d.list d.pending x }) (x ∷ ys) xs
unfolding ndlist_is_empty
Items-add d x ys [] apart i = tt
Items-add d x ys (a ∷ xs) apart (p, w, idle, i) = (
  p,
  w,
  λ out. ground (
    arith,
    next-add_after d.list d.pending x (λ e. apart (sym e)) a,
    ==_ne a d.pending p,
    idle (ground (arith, out)),
    out,
  ),
  Items-add d x ys xs apart i,
)

-- What the deferral of the items leaves: the list of the pending ones, and the working list as it was.
record Deferring (a b : ℕ) (zs : List ℕ) (list : Links) : Type 0 where
  pending : Ring list a zs
  working : Ring list b []
  apart : b ∉ a ∷ zs

defer_all-Deferring :
    (v : Bool) (xs ys : List ℕ) (d : Deferred)
    → Ring d.list d.pending ys
    → Ring d.list d.working []
    → d.working ∉ d.pending ∷ ys
    → Items d ys xs
    → AreSigned d.signature xs
    → (list : Links) × (defer_all v d xs ≡ done (record d { list = list }))
      × Deferring d.pending d.working (pending_after ys xs) list
unfolding nsched_deferred_do
defer_all-Deferring v [] ys d r e out items signed =
    (d.list, refl, record { pending = r; working = e; apart = out })
defer_all-Deferring v (x ∷ xs) ys d r e out (p, w, idle, items) (ne, sig, signed) =
    let some_item : not (x == null) ≡ true = rw (==_ne x null ne) refl in
    let sign = signed_item d x ne sig in
    elim (Bool-cases (has x ys)) [
      | inl listed ↦
          let busy : ndlist_is_empty d.list x ≡ false =
            elim (Bool-cases (ndlist_is_empty d.list x)) [
              | inl free ↦
                  absurd (ground (arith, listed, is_empty-outside d.list d.pending ys x r p free))
              | inr busy ↦ busy
            ] in
          let same : pending_after ys (x ∷ xs) ≡ pending_after ys xs = rw listed refl in
          let (list, run, rest) = defer_all-Deferring v xs ys d r e out items signed in
          (
            list,
            rw (check-true v (not (x == null)) some_item, sign, check-true v true refl, busy) run,
            subst (λ l. Deferring d.pending d.working l list) (sym same) rest,
          )
      | inr new ↦
          let longer : pending_after ys (x ∷ xs) ≡ pending_after (x ∷ ys) xs = rw new refl in
          let free = idle new in
          let out_x = is_empty-outside d.list d.pending ys x r p free in
          let apart : d.pending ≢ x = λ q. p (sym q) in
          let list₁ = ndlist_add_after d.list d.pending x in
          let d₁ : Deferred = record d { list = list₁ } in
          let head : d.list.next d.pending ≡ front d.pending ys =
            next-front d.list d.pending ys d.pending r.chain in
          let kept : Ring list₁ d.working [] =
            add_after-other d.list d.working [] e d.pending x apart (ground (arith, out))
              (rw head (front-apart d.working d.pending ys out)) (ground (arith, w)) in
          let (list, run, rest) =
            defer_all-Deferring v xs (x ∷ ys) d₁ (add_after-Ring d.list d.pending x ys r out_x) kept
              (ground (arith, out, w)) (Items-add d x ys xs p items) signed in
          (
            list,
            rw (check-true v (not (x == null)) some_item, sign, check-true v true refl, free) run,
            subst (λ l. Deferring d.pending d.working l list) (sym longer) rest,
          )
    ]

AreSigned-pending :
    (signature : ℕ → ℕ) (xs ys : List ℕ)
    → AreSigned signature ys
    → AreSigned signature xs
    → AreSigned signature (pending_after ys xs)
AreSigned-pending signature [] ys old new = old
AreSigned-pending signature (x ∷ xs) ys old (ne, sig, new) = elim (Bool-cases (has x ys)) [
  | inl listed ↦ rw listed (AreSigned-pending signature xs ys old new)
  | inr first ↦ rw first (AreSigned-pending signature xs (x ∷ ys) (ne, sig, old) new)
]

length-pending_after : (xs ys : List ℕ) → length (pending_after ys xs) ≤ length ys + length xs
length-pending_after [] ys = omega arith
length-pending_after (x ∷ xs) ys = elim (Bool-cases (has x ys)) [
  | inl listed ↦ rw listed (omega (arith, length-pending_after xs ys))
  | inr first ↦ rw first (omega (arith, length-pending_after xs (x ∷ ys)))
]

module _ {ℓ} {W : Type ℓ} (call : ℕ → ℕ → Deferred × W → Deferred × W) (effect : ℕ → ℕ → W → W)
    (calls : (fn arg : ℕ) (d : Deferred) (w : W) → call fn arg (d, w) ≡ (d, effect fn arg w)) where
  -- Where the deferred functions leave the lists alone, the working list is empty, signed items are
  -- deferred one after another by nsched_deferred_do, each either pending or in no list, and
  -- ncore_deferred_work has more fuel than there are items, it returns: it calls the function of
  -- each item that is pending then once, the one deferred last first, where an item that was
  -- pending already keeps its place, and it leaves both lists empty, in exchanged roles.
  pub ncore_deferred_work-effects :
      (v : Bool) (fuel : ℕ) (ys xs : List ℕ) (d : Deferred) (w : W)
      → Ring d.list d.pending ys
      → Ring d.list d.working []
      → d.working ∉ d.pending ∷ ys
      → AreSigned d.signature ys
      → Items d ys xs
      → AreSigned d.signature xs
      → length ys + length xs < fuel
      → (d' : Deferred) × (list : Links) × (defer_all v d xs ≡ done d')
        × (ncore_deferred_work call v fuel d' w
            ≡ done (
              record d { list = list; pending = d.working; working = d.pending },
              effects effect d.fn d.arg (pending_after ys xs) w,
            ))
        × Ring list d.pending []
        × Ring list d.working []
  ncore_deferred_work-effects v fuel ys xs d w r e out old items new enough =
      let (list, run, left) = defer_all-Deferring v xs ys d r e out items new in
      let d' : Deferred = record d { list = list } in
      let (list', work, ended, empty) =
        ncore_deferred_work-pending call effect calls v fuel (pending_after ys xs) d' w left.pending
          left.working left.apart (AreSigned-pending d.signature xs ys old new)
          (omega (arith, enough, length-pending_after xs ys)) in
      (d', list', run, work, ended, empty)
