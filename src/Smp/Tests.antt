-- ===== src/Smp/Tests.antt =====
-- A machine of three states that counts its exits and entries: the user's event 1 moves state 0 to
-- state 1, whose initial transition goes on to state 2.
use neon_eds.Common.{
  ℕ, zero, suc, ◌+◌, ◌*◌, ◌-◌, ◌<◌, ◌≡◌, refl, arith, Option, none, some, ap, true, done, List, [],
  ◌∷◌,
}
use neon_eds.Smp.{
  naction_transit_to, naction_ignored, Event, nsm_super, nsm_entry, nsm_exit, nsm_init, nsm_null,
  user_event, Reaction, n_sm_fsm_dispatch,
}
use neon_eds.Smp.Machine.{Machine, Runs, Answers, n_sm_fsm_dispatch-Runs}

abbrev goes : ℕ → Event → Option ℕ
goes zero (user_event n) = some 1
goes (suc zero) nsm_init = some 2
goes s e = none

-- The trace of the actions: 2 s for an exit of s, 2 s + 1 for an entry.
abbrev act : ℕ → Event → List ℕ → List ℕ
act s nsm_exit w = (2 * s) ∷ w
act s nsm_entry w = (2 * s + 1) ∷ w
act s nsm_super w = w
act s nsm_init w = w
act s nsm_null w = w
act s (user_event n) w = w

abbrev machine : Machine (List ℕ)
machine = record {
  handle = λ s e w. (goes s e, act s e w);
  leave = λ s w. (2 * s) ∷ w;
  enter = λ s w. (2 * s + 1) ∷ w;
}

abbrev answer : Option ℕ → ℕ → List ℕ → Reaction (List ℕ)
answer none state w = record { action = naction_ignored; state = state; world = w }
answer (some t) state w = record { action = naction_transit_to; state = t; world = w }

abbrev react : ℕ → Event → ℕ → List ℕ → Reaction (List ℕ)
react s e state w = answer (goes s e) state (act s e w)

goes-actions : (s : ℕ) → (goes s nsm_exit ≡ none) × (goes s nsm_entry ≡ none)
goes-actions zero = (refl, refl)
goes-actions (suc zero) = (refl, refl)
goes-actions (suc (suc s)) = (refl, refl)

react-Answers : Answers machine react
react-Answers = record {
  quiet = λ s e w w' h. rw (ap (λ p. p.0) h) (refl, ap (λ p. p.1) h);
  transit = λ s t e w w' h. rw (ap (λ p. p.0) h, ap (λ p. p.1) h) refl;
  exits = λ s t w. rw (goes-actions s).0 (refl, refl, refl);
  entries = λ s w. rw (goes-actions s).1 (refl, refl, refl);
}

abbrev rank : ℕ → ℕ
rank s = 2 - s

descends : (s t : ℕ) (w w' : List ℕ) → machine.handle s nsm_init w ≡ (some t, w') → rank t < rank s
descends zero t w w' h = absurd (ground (arith, ap (λ p. p.0) h))
descends (suc zero) t w w' h = let e : t ≡ 2 = ground (arith, ap (λ p. p.0) h) in rw e (omega arith)
descends (suc (suc s)) t w w' h = absurd (ground (arith, ap (λ p. p.0) h))

n_sm_fsm_dispatch-Runs_example :
    (s' : ℕ) × (w' : List ℕ) × (n_sm_fsm_dispatch react true 4 0 (user_event 1) [] ≡ done (s', w'))
    × Runs machine 0 (user_event 1) [] s' w'
n_sm_fsm_dispatch-Runs_example =
    n_sm_fsm_dispatch-Runs machine react react-Answers true rank 3 descends (λ s. omega arith) 0
      (user_event 1) []
