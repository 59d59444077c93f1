-- ===== src/Timer/Delta.antt =====
-- The abstract view of the timers that run: each with the ticks between its predecessor's expiry and
-- its own, first to expire first.
use Prim.Native.Nat.{max}
use neon_eds.Common.{
  ℕ, ◌+◌, ◌-◌, ◌≤◌, ◌≡◌, ◌≢◌, refl, Option, none, some, List, [], ◌∷◌, ltb, ◌==◌, if◌then◌else◌,
  has, subst, ◌||◌, ◌∉◌, arith,
}

abbrev pub Deltas : Type 0
Deltas = List (ℕ × ℕ)

abbrev pub names : Deltas → List ℕ
names [] = []
names ((a, d) ∷ ds) = a ∷ names ds

-- Where the timer `n`, due in `t` ticks, goes: before the first timer that is due as late or later.
unfoldable pub insert : ℕ → ℕ → Deltas → Deltas
insert n t [] = (n, t) ∷ []
insert n t ((a, d) ∷ ds) =
    if ltb d t then (a, d) ∷ insert n (t - d) ds else (n, t) ∷ (a, d - t) ∷ ds

-- The successor of the timer that goes inherits its ticks.
unfoldable pub add_to_first : ℕ → Deltas → Deltas
add_to_first t [] = []
add_to_first t ((a, d) ∷ ds) = (a, t + d) ∷ ds

unfoldable pub remove : ℕ → Deltas → Deltas
remove n [] = []
remove n ((a, d) ∷ ds) = if a == n then add_to_first d ds else (a, d) ∷ remove n ds

abbrev pub later : ℕ → Option ℕ → Option ℕ
later t none = none
later t (some x) = some (t + x)

-- The ticks until `n` expires, if it runs.
unfoldable pub expiry : ℕ → Deltas → Option ℕ
expiry n [] = none
expiry n ((a, d) ∷ ds) = if a == n then some d else later d (expiry n ds)

later-later : (s t : ℕ) (o : Option ℕ) → later s (later t o) ≡ later (s + t) o
later-later s t none = refl
later-later s t (some x) = ground arith

-- Starting a timer makes it due in `t` ticks, and moves no other timer.
pub expiry-insert :
    (n t m : ℕ) (ds : Deltas)
    → n ∉ names ds
    → expiry m (insert n t ds) ≡ (if n == m then some t else expiry m ds)
unfolding insert expiry
expiry-insert n t m [] out = refl
expiry-insert n t m ((a, d) ∷ ds) out =
    ground (arith, expiry-insert n (t - d) m ds, later-later t (d - t) (expiry m ds))

pub expiry-add_to_first :
    (t m : ℕ) (ds : Deltas) → expiry m (add_to_first t ds) ≡ later t (expiry m ds)
unfolding add_to_first expiry
expiry-add_to_first t m [] = refl
expiry-add_to_first t m ((a, d) ∷ ds) = ground (arith, later-later t d (expiry m ds))

pub expiry-outside : (m : ℕ) (ds : Deltas) → m ∉ names ds → expiry m ds ≡ none
unfolding expiry
expiry-outside m [] out = refl
expiry-outside m ((a, d) ∷ ds) out = ground (arith, expiry-outside m ds)

-- Cancelling a timer moves no other timer.
pub expiry-remove : (n m : ℕ) (ds : Deltas) → m ≢ n → expiry m (remove n ds) ≡ expiry m ds
unfolding remove expiry
expiry-remove n m [] ne = refl
expiry-remove n m ((a, d) ∷ ds) ne =
    ground (arith, expiry-remove n m ds, expiry-add_to_first d m ds)

pub has-insert :
    (m n t : ℕ) (ds : Deltas) → has m (names (insert n t ds)) ≡ (m == n) || has m (names ds)
unfolding insert
has-insert m n t [] = refl
has-insert m n t ((a, d) ∷ ds) = ground (arith, has-insert m n (t - d) ds)

-- The ticks until the last timer expires.
abbrev pub total : Deltas → ℕ
total [] = 0
total ((a, d) ∷ ds) = d + total ds

pub total-insert : (n t : ℕ) (ds : Deltas) → total (insert n t ds) ≡ max t (total ds)
unfolding insert
total-insert n t [] = omega arith
total-insert n t ((a, d) ∷ ds) = ground (arith, total-insert n (t - d) ds)

pub total-remove : (n : ℕ) (ds : Deltas) → total (remove n ds) ≤ total ds
unfolding remove add_to_first
total-remove n [] = omega arith
total-remove n ((a, d) ∷ []) = ground arith
total-remove n ((a, d) ∷ (b, e) ∷ ds) = ground (arith, total-remove n ((b, e) ∷ ds))

abbrev AtMost : ℕ → Option ℕ → Type 0
AtMost k none = Unit
AtMost k (some e) = e ≤ k

expiry-AtMost : (n : ℕ) (ds : Deltas) → AtMost (total ds) (expiry n ds)
unfolding expiry
expiry-AtMost n [] = tt
expiry-AtMost n ((a, d) ∷ ds) = ground (arith, expiry-AtMost n ds)

-- Every timer is due by then.
pub expiry-le-total : (n e : ℕ) (ds : Deltas) → expiry n ds ≡ some e → e ≤ total ds
expiry-le-total n e ds h = subst (AtMost (total ds)) h (expiry-AtMost n ds)
