-- ===== src/Timer/Tick.antt =====
-- The abstract view of one tick: which timers expire, and what is left to run.
use mathlib.Core.Option
use native.Mathlib.Decide.{ℕ_discrete}
use neon_eds.Common.{
  ◌&&◌, not, ℕ, ◌-◌, ◌<◌, ◌≡◌, ◌≢◌, refl, Option, none, some, List, [], ◌∷◌, Bool, false, ◌==◌, ◌∙◌,
  sym, subst, inl, inr, Bool-cases, if◌then◌else◌, has, ◌∈◌, ◌∉◌, Distinct, arith, ne_of_mem, ltb,
  ==_ne,
}
use neon_eds.Timer.Delta.{
  Deltas, names, insert, expiry, expiry-insert, expiry-outside, has-insert, remove, add_to_first,
}

unfoldable pub count_down : Deltas → Deltas
count_down [] = []
count_down ((a, d) ∷ ds) = (a, d - 1) ∷ ds

-- The timers at the head of the list with no tick left, and the others.
unfoldable pub expired : Deltas → List ℕ
expired [] = []
expired ((a, d) ∷ ds) = if d == 0 then a ∷ expired ds else []

unfoldable pub waiting : Deltas → Deltas
waiting [] = []
waiting ((a, d) ∷ ds) = if d == 0 then waiting ds else (a, d) ∷ ds

-- A timer with a period starts again with it.
unfoldable pub restart : (ℕ → ℕ) → List ℕ → Deltas → Deltas
restart period [] ds = ds
restart period (a ∷ rs) ds =
    restart period rs (if period a == 0 then ds else insert a (period a) ds)

unfoldable pub tick : (ℕ → ℕ) → Deltas → List ℕ × Deltas
tick period ds =
    (expired (count_down ds), restart period (expired (count_down ds)) (waiting (count_down ds)))

-- The first timer has a tick to go.
abbrev pub IsPending : Deltas → Type 0
IsPending [] = Unit
IsPending ((a, d) ∷ ds) = 0 < d

abbrev pub is_due : Option ℕ → Bool
is_due none = false
is_due (some e) = e == 0

expiry-waiting :
    (m : ℕ) (ds : Deltas)
    → Distinct (names ds)
    → expiry m (waiting ds) ≡ (if is_due (expiry m ds) then none else expiry m ds)
unfolding expiry waiting
expiry-waiting m [] u = refl
expiry-waiting m ((a, d) ∷ ds) u = ground (arith, expiry-waiting m ds u.1, expiry-outside m ds)

has-expired : (m : ℕ) (ds : Deltas) → has m (expired ds) ≡ is_due (expiry m ds)
unfolding expiry expired
has-expired m [] = refl
has-expired m ((a, d) ∷ ds) = ground (arith, has-expired m ds)

expiry-count_down :
    (m : ℕ) (ds : Deltas)
    → IsPending ds
    → expiry m (count_down ds) ≡ Option.map (λ e. e - 1) (expiry m ds)
unfolding expiry count_down
expiry-count_down m [] p = refl
expiry-count_down m ((a, d) ∷ ds) p = ground arith

names-waiting-outside : (m : ℕ) (ds : Deltas) → m ∉ names ds → m ∉ names (waiting ds)
unfolding waiting
names-waiting-outside m [] o = refl
names-waiting-outside m ((a, d) ∷ ds) o = ground (arith, names-waiting-outside m ds)

-- No timer both expires and waits.
expired-apart :
    (m : ℕ) (ds : Deltas) → Distinct (names ds) → m ∈ expired ds → m ∉ names (waiting ds)
unfolding waiting expired
expired-apart m [] u h = refl
expired-apart m ((a, d) ∷ ds) u h =
    ground (arith, expired-apart m ds u.1, names-waiting-outside m ds)

expiry-restart :
    (period : ℕ → ℕ) (m : ℕ) (rs : List ℕ) (ds : Deltas)
    → Distinct rs
    → ((a : ℕ) → a ∈ rs → a ∉ names ds)
    → expiry m (restart period rs ds)
      ≡ (if has m rs && not (period m == 0) then some (period m) else expiry m ds)
unfolding restart
expiry-restart period m [] ds u apart = refl
expiry-restart period m (a ∷ rs) ds u apart = elim (Bool-cases (period a == 0)) [
  | inl once ↦
      rw once (expiry-restart period m rs ds u.1 (λ b h. apart b (ground arith)) ∙ ground arith)
  | inr again ↦ rw again (
      expiry-restart period m rs (insert a (period a) ds) u.1
        (λ b h. ground (arith, has-insert b a (period a) ds, apart b, ne_of_mem b a rs h))
      ∙ ground (arith, expiry-insert a (period a) m ds, apart a))
]

Distinct-expired : (ds : Deltas) → Distinct (names ds) → Distinct (expired ds)
unfolding expired
Distinct-expired [] u = tt
Distinct-expired ((a, d) ∷ ds) u =
    ground (arith, Distinct-expired ds u.1, has-expired a ds, expiry-outside a ds)

names-count_down : (ds : Deltas) → names (count_down ds) ≡ names ds
unfolding count_down
names-count_down [] = refl
names-count_down ((a, d) ∷ ds) = refl

-- What a tick makes of the time that is left to one timer.
abbrev pub after_tick : ℕ → Option ℕ → Option ℕ
after_tick period none = none
after_tick period (some e) =
    if e == 1 then (if period == 0 then none else some period) else some (e - 1)

IsPending-expiry : (m : ℕ) (ds : Deltas) → IsPending ds → expiry m ds ≢ some 0
unfolding expiry
IsPending-expiry m [] p = λ e. ground arith
IsPending-expiry m ((a, d) ∷ ds) p = λ e. ground arith

-- The timer has one tick left.
abbrev pub is_last_tick : Option ℕ → Bool
is_last_tick none = false
is_last_tick (some e) = e == 1

module _ (period : ℕ → ℕ) (ds : Deltas) (unique : Distinct (names ds))
    (pending : IsPending ds) where
  -- Exactly the timers with one tick left expire.
  pub has-tick : (m : ℕ) → has m (tick period ds).0 ≡ is_last_tick (expiry m ds)
  unfolding tick
  has-tick m = ground (
    arith,
    has-expired m (count_down ds),
    expiry-count_down m ds pending,
    IsPending-expiry m ds pending,
  )

  -- A tick takes one from the time that is left to every timer, and those that expire start again
  -- with their period or stop.
  pub expiry-tick : (m : ℕ) → expiry m (tick period ds).1 ≡ after_tick (period m) (expiry m ds)
  unfolding tick
  expiry-tick m =
      let left = count_down ds in
      let distinct : Distinct (names left) = subst Distinct (sym (names-count_down ds)) unique in
      expiry-restart period m (expired left) (waiting left) (Distinct-expired left distinct)
        (λ a h. expired-apart a left distinct h)
      ∙ ground (
        arith,
        expiry-waiting m left distinct,
        has-expired m left,
        expiry-count_down m ds pending,
        IsPending-expiry m ds pending,
      )

-- A timer with ticks to go is inserted behind those that expire.
pub expired-insert : (n t : ℕ) (ds : Deltas) → 0 < t → expired (insert n t ds) ≡ expired ds
unfolding expired insert
expired-insert n t [] p = ground arith
expired-insert n t ((a, d) ∷ ds) p = ground (arith, expired-insert n (t - d) ds)

pub waiting-insert :
    (n t : ℕ) (ds : Deltas) → 0 < t → waiting (insert n t ds) ≡ insert n t (waiting ds)
unfolding waiting insert
waiting-insert n t [] p = ground arith
waiting-insert n t ((a, d) ∷ ds) p = ground (arith, waiting-insert n (t - d) ds)

pub IsPending-insert : (n t : ℕ) (ds : Deltas) → 0 < t → IsPending ds → IsPending (insert n t ds)
unfolding insert
IsPending-insert n t [] p q = p
IsPending-insert n t ((a, d) ∷ ds) p q = elim (Bool-cases (ltb d t)) [
  | inl e ↦ rw e q
  | inr e ↦ rw e p
]

pub IsPending-remove : (n : ℕ) (ds : Deltas) → IsPending ds → IsPending (remove n ds)
unfolding remove add_to_first
IsPending-remove n [] q = tt
IsPending-remove n ((a, d) ∷ []) q = elim (Bool-cases (a == n)) [ inl h ↦ rw h tt | inr h ↦ rw h q ]
IsPending-remove n ((a, d) ∷ (b, e) ∷ ds) q = elim (Bool-cases (a == n)) [
  | inl h ↦ rw h (omega arith)
  | inr h ↦ rw h q
]

IsPending-waiting : (ds : Deltas) → IsPending (waiting ds)
unfolding waiting
IsPending-waiting [] = tt
IsPending-waiting ((a, d) ∷ ds) = elim (ℕ_discrete d 0) [
  | yes e ↦ rw e (IsPending-waiting ds)
  | no ne ↦ rw (==_ne d 0 ne) (omega arith)
]

IsPending-restart :
    (period : ℕ → ℕ) (rs : List ℕ) (ds : Deltas) → IsPending ds → IsPending (restart period rs ds)
unfolding restart
IsPending-restart period [] ds q = q
IsPending-restart period (a ∷ rs) ds q = elim (ℕ_discrete (period a) 0) [
  | yes e ↦ rw e (IsPending-restart period rs ds q)
  | no ne ↦ rw (==_ne (period a) 0 ne) (
      IsPending-restart period rs (insert a (period a) ds)
        (IsPending-insert a (period a) ds (omega arith) q))
]

-- After a tick the first timer has a tick to go again.
pub IsPending-tick : (period : ℕ → ℕ) (ds : Deltas) → IsPending (tick period ds).1
unfolding tick
IsPending-tick period ds =
    IsPending-restart period (expired (count_down ds)) (waiting (count_down ds))
      (IsPending-waiting (count_down ds))
