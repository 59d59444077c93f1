-- ===== src/Smp/Hsm/Tests.antt =====
-- A chart under the top state 0: 1 holds 2 and 4, and 2 holds 3. The event 1 moves 3 to 4, whose initial
-- transition stays, and 2 asks for 1 on event 2.
use neon_eds.Common.{
  ℕ, zero, suc, ◌+◌, ◌*◌, ◌<◌, ◌≤◌, ◌≡◌, ◌≢◌, refl, ap, arith, true, ◌==◌, if◌then◌else◌, done,
  List, [], ◌∷◌, inl, ◌∙◌,
}
use neon_eds.Smp.{
  naction_super, naction_transit_to, naction_handled, Event, nsm_null, nsm_super, nsm_entry,
  nsm_exit, nsm_init, user_event, Reaction,
}
use neon_eds.Sched.{check}
use neon_eds.Smp.Hsm.{
  HsmPath, Paths, n_sm_hsm_dispatch, hsm_build_path, climb, put, call, hsm_turns, hsm_transit,
  path_b, raise_entry, hsm_get_state_super, path_c, raise_exit, path_d, path_e, path_e_loop, path_f,
  path_f_loop, hsm_path_enter, hsm_path_exit, ntop_state, path_g, path_g_inner, path_g_loop,
}
use neon_eds.Smp.Hsm.Tree.{Tree, ancestor}
use neon_eds.Smp.Hsm.Chart.{Reply, pass, stay, goto, Chart, Answers, Climbs, Turns, is_plain}
use neon_eds.Smp.Hsm.Dispatch.{n_sm_hsm_dispatch-Turns}
use neon_eds.Smp.Hsm.Lowest.{Asked, Leads, hsm_build_path-lowest, hsm_build_path-reenters}

abbrev above_of : ℕ → ℕ
above_of s = if s == 2 then 1 else if s == 3 then 2 else if s == 4 then 1 else 0

abbrev level_of : ℕ → ℕ
level_of s =
    if s == 0 then 0 else if s == 2 then 2 else if s == 3 then 3 else if s == 4 then 2 else 1

one_level : (s : ℕ) → s ≢ 0 → level_of s ≡ suc (level_of (above_of s))
one_level s ne = ground arith

abbrev small_tree : Tree above_of 0
small_tree = record { height = level_of; at_top = refl; above = one_level }

abbrev asks : ℕ → Event → Reply
asks s (user_event n) =
    if s == 3
    then (if n == 1 then goto 4 else pass)
    else if s == 2
    then (if n == 2 then goto 1 else pass)
    else if s == 4
    then pass
    else stay
asks s nsm_null = stay
asks s nsm_super = stay
asks s nsm_entry = stay
asks s nsm_exit = stay
asks s nsm_init = stay

-- The trace of the actions: 2 s for an exit of s, 2 s + 1 for an entry.
abbrev chart : Chart (List ℕ)
chart = record {
  handle = λ s e w. (asks s e, w);
  leave = λ s w. (2 * s) ∷ w;
  enter = λ s w. (2 * s + 1) ∷ w;
}

abbrev answer : ℕ → Reply → ℕ → List ℕ → Reaction (List ℕ)
answer s pass state w = record { action = naction_super; state = above_of s; world = w }
answer s stay state w = record { action = naction_handled; state = state; world = w }
answer s (goto t) state w = record { action = naction_transit_to; state = t; world = w }

abbrev react : ℕ → Event → ℕ → List ℕ → Reaction (List ℕ)
react s nsm_null state w = answer s (asks s nsm_null) state w
react s nsm_super state w = record { action = naction_super; state = above_of s; world = w }
react s nsm_entry state w = record {
  action = naction_handled;
  state = state;
  world = (2 * s + 1) ∷ w;
}
react s nsm_exit state w = record { action = naction_handled; state = state; world = (2 * s) ∷ w }
react s nsm_init state w = answer s (asks s nsm_init) state w
react s (user_event n) state w = answer s (asks s (user_event n)) state w

-- A plain event is answered as asked.
plain_answer :
    (s : ℕ) (e : Event) (state : ℕ) (w : List ℕ)
    → is_plain e ≡ true
    → react s e state w ≡ answer s (asks s e) state w
plain_answer s nsm_null state w p = refl
plain_answer s nsm_super state w p = absurd (ground arith)
plain_answer s nsm_entry state w p = absurd (ground arith)
plain_answer s nsm_exit state w p = absurd (ground arith)
plain_answer s nsm_init state w p = refl
plain_answer s (user_event n) state w p = refl

asked_target : (s : ℕ) (e : Event) (t : ℕ) → asks s e ≡ goto t → t ≢ 0
asked_target s nsm_null t h = absurd (cc)
asked_target s nsm_super t h = absurd (cc)
asked_target s nsm_entry t h = absurd (cc)
asked_target s nsm_exit t h = absurd (cc)
asked_target s nsm_init t h = absurd (cc)
asked_target s (user_event n) t h = ground arith

react-Answers : Answers chart react above_of 0
react-Answers = record {
  supers = λ s state w ne. refl;
  passes =
      λ s e state w w' p h. plain_answer s e state w p ∙ rw (ap (λ q. q.0) h, ap (λ q. q.1) h) refl;
  stays = λ s e state w w' p h.
      rw (plain_answer s e state w p, ap (λ q. q.0) h) (refl, ap (λ q. q.1) h);
  goes = λ s e state t w w' p h.
      plain_answer s e state w p ∙ rw (ap (λ q. q.0) h, ap (λ q. q.1) h) refl;
  targets = λ s e t w w' h. asked_target s e t (ap (λ q. q.0) h);
  exits = λ s state w. (refl, refl);
  entries = λ s state w. (refl, refl);
}

never_initial : (s t : ℕ) (w w' : List ℕ) → chart.handle s nsm_init w ≡ (goto t, w') → 0 < 0
never_initial s t w w' h = absurd (cc (ap (λ q. q.0) h))

outermost : (s : ℕ) (w w' : List ℕ) → above_of s ≡ 0 → chart.handle s (user_event 1) w ≢ (pass, w')
outermost s w w' h e =
    let asked : asks s (user_event 1) ≡ pass = ap (λ q. q.0) e in ground (arith, asked, h)

abbrev blank : HsmPath
blank = record { buff = λ k. 0; index = 0 }

n_sm_hsm_dispatch-Turns_example :
    (c : ℕ) × (reply : Reply) × (w₁ : List ℕ) × (s' : ℕ) × (w' : List ℕ) × (n_sm_hsm_dispatch react
        true 8 0 8 2 blank blank 3
        (user_event 1)
        []
      ≡ done (s', w'))
    × Climbs chart above_of 0 (user_event 1) 3 [] c reply w₁
    × Turns chart small_tree 3 c reply w₁ s' w'
n_sm_hsm_dispatch-Turns_example =
    n_sm_hsm_dispatch-Turns react true 8 0 above_of chart react-Answers small_tree (λ s. 0) 1 blank
      blank 3 1 [] never_initial (λ s. omega arith) (λ s. ground arith) (omega arith)
      (inl outermost)

-- A run of it: 3 and 2 are left, and 4 is entered.
dispatch_runs :
    n_sm_hsm_dispatch react true 8 0 8 2 blank blank 3 (user_event 1) [] ≡ done (4, 9 ∷ 4 ∷ 6 ∷ [])
unfolding n_sm_hsm_dispatch climb put call hsm_turns hsm_transit hsm_build_path path_b raise_entry
    hsm_get_state_super check path_c raise_exit path_d path_e path_e_loop path_f path_f_loop
    hsm_path_enter hsm_path_exit ntop_state path_g path_g_inner path_g_loop
dispatch_runs = refl

-- The paths at the start of a transition from state 3.
abbrev from_3 : ℕ → Paths (List ℕ)
from_3 t = record {
  entry = record { buff = λ k. t; index = 0 };
  exit = record { buff = λ k. 3; index = 1 };
  state = t;
  world = [];
}

from_3-Asked : (t : ℕ) → Asked above_of 3 0 t (from_3 t)
unfolding ancestor
from_3-Asked t = record {
  climbed = λ k h. let z : k ≡ 0 = omega arith in rw z refl;
  index = refl;
  target = refl;
}

not_4 : (k : ℕ) → k ≤ 3 → ancestor above_of 3 k ≢ 4
unfolding ancestor
not_4 zero h = omega arith
not_4 (suc zero) h = omega arith
not_4 (suc (suc zero)) h = omega arith
not_4 (suc (suc (suc zero))) h = omega arith
not_4 (suc (suc (suc (suc k)))) h = absurd (omega arith)

hsm_build_path-lowest_example :
    (b' : Paths (List ℕ)) × (m : ℕ) × (j : ℕ) × (hsm_build_path react true 8 0 8 (from_3 4)
      ≡ done b')
    × Leads above_of 3 m 4 j b'
    × (0 ≤ m)
    × (ancestor above_of 3 m ≡ ancestor above_of 4 j)
    × ((i k : ℕ) → 0 ≤ i → i < m → k ≤ 2 → ancestor above_of 3 i ≢ ancestor above_of 4 k)
hsm_build_path-lowest_example =
    hsm_build_path-lowest react true 8 0 above_of react-Answers.supers small_tree 3 0 4
      (omega arith) (omega arith) (omega arith) (omega arith) (from_3 4) (from_3-Asked 4)
      (λ k lo h. not_4 k h)

top_of_2 : ancestor above_of 3 (0 + 2) ≡ 1
unfolding ancestor
top_of_2 = refl

hsm_build_path-reenters_example :
    (b' : Paths (List ℕ)) × (hsm_build_path react true 8 0 8 (from_3 1) ≡ done b')
    × Leads above_of 3 (suc (0 + 2)) 1 1 b'
hsm_build_path-reenters_example =
    hsm_build_path-reenters react true 8 0 above_of react-Answers.supers small_tree 3 0 1
      (omega arith) (omega arith) (omega arith) (omega arith) (from_3 1) (from_3-Asked 1) 2
      (omega arith) (omega arith) top_of_2
