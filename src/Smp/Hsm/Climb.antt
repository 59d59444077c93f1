-- ===== src/Smp/Hsm/Climb.antt =====
-- The first loop of `n_sm_hsm_dispatch` of source/smp.c: an event climbs to the state that answers it.
use neon_eds.Common.{
  ℕ, zero, suc, ◌+◌, ◌<◌, ◌≤◌, ◌≡◌, ◌≢◌, ◌⊎◌, inl, inr, Bool, true, false, ◌==◌, update, Run, done,
  arith, refl, ◌∙◌, sym,
}
use native.Mathlib.Decide.{ℕ_discrete}
use neon_eds.Sched.{check}
use neon_eds.Smp.{naction_ignored, Event, Reaction, is_super}
use neon_eds.Smp.Hsm.{HsmPath, call, climb, ntop_state, is_system_event}
use neon_eds.Smp.Hsm.Tree.{Tree, ancestor, ancestor_below_top, ancestor-top, ancestor-suc}
use neon_eds.Smp.Hsm.Walk.{Trace, call_below_top, put_lem}
use neon_eds.Smp.Hsm.Chart.{
  Reply, pass, stay, goto, Chart, Answers, Climbs, answered, passed, ignored, is_plain, is_goto,
  is_pass,
}
use neon_eds.Smp.Hsm.Steps.{Replied, react-Replied}

-- No event of this kind reaches `ntop_state` and is refused there: the outermost states pass none on, or
-- `ntop_state` accepts it.
abbrev pub Covered {ℓ} : {W : Type ℓ} → Chart W → (ℕ → ℕ) → ℕ → Bool → Event → Type ℓ
Covered {W} m super top v e =
    ((s : ℕ) (w w' : W) → super s ≡ top → m.handle s e w ≢ (pass, w'))
    ⊎ (check v (is_system_event e) ≡ done tt)

module _ {ℓ} {W : Type ℓ} (react : ℕ → Event → ℕ → W → Reaction W) (v : Bool) (depth top : ℕ)
    (super : ℕ → ℕ) (m : Chart W) (ok : Answers m react super top) (tree : Tree super top) where
  -- What the climb from level `k` above `cur` comes to.
  pub record Climbed (cur : ℕ) (e : Event) (k : ℕ) (w : W) (run : Run (HsmPath × Reaction W))
      : Type ℓ where
    pub exit : HsmPath
    pub reaction : Reaction W
    pub levels : ℕ
    pub reply : Reply
    pub world : W
    pub runs : run ≡ done (exit, reaction)
    pub climbs : Climbs m super top e (ancestor super cur k) w levels reply world
    pub trace : Trace super exit.buff cur (suc (k + levels))
    pub index : exit.index ≡ suc (k + levels)
    pub replied : Replied react v depth top super m ok tree reaction reply world
    pub below : is_goto reply ≡ true → k + levels < tree.height cur

  Trace-put :
      (buff : ℕ → ℕ) (cur k i s : ℕ)
      → Trace super buff cur k
      → i ≡ k
      → s ≡ ancestor super cur k
      → Trace super (update buff i s) cur (suc k)
  Trace-put buff cur k i s t e e' n h = elim (ℕ_discrete n k) [
    | yes at ↦ rw at (ground (arith, e, e'))
    | no ne ↦ ground (arith, e, t n (omega arith))
  ]

  module _ (cur : ℕ) (e : Event) (plain : is_plain e ≡ true) (room : tree.height cur < depth) where
    -- At a state that answers.
    climb_answer :
        (fuel : ℕ) (exit : HsmPath) (k : ℕ) (w w' : W) (reply : Reply)
        → exit.index ≡ k
        → Trace super exit.buff cur k
        → k < tree.height cur
        → m.handle (ancestor super cur k) e w ≡ (reply, w')
        → is_pass reply ≡ false
        → Climbed cur e k w (climb react v depth top (suc fuel) exit e (ancestor super cur k) w)
    unfolding climb
    climb_answer fuel exit k w w' reply at t below h answers =
        let s = ancestor super cur k in
        let ne = ancestor_below_top tree cur k below in
        let r = react s e s w in
        let replied = react-Replied react v depth top super m ok tree s e s w w' reply plain h in
        record {
          exit = record { buff = update exit.buff exit.index s; index = exit.index + 1 };
          reaction = r;
          levels = 0;
          reply = reply;
          world = w';
          runs =
              rw
                (
                  put_lem react v depth top super ok.supers exit exit.index s (omega arith),
                  call_below_top react v depth top super ok.supers s e s w ne,
                  ends reply r w' replied answers,
                )
                refl;
          climbs = answered ne h answers;
          trace = λ n hn. Trace-put exit.buff cur k exit.index s t at refl n (omega arith);
          index = omega arith;
          replied = replied;
          below = λ g. omega arith;
        }
      where
        ends :
            (reply : Reply) (r : Reaction W) (w' : W)
            → Replied react v depth top super m ok tree r reply w'
            → is_pass reply ≡ false
            → is_super r.action ≡ false
        ends pass r w' h p = cc
        ends stay r w' h p = h.1
        ends (goto t) r w' h p = rw h.0 refl

    -- At `ntop_state`, where it accepts the event.
    climb_top :
        (fuel : ℕ) (exit : HsmPath) (k : ℕ) (w : W)
        → exit.index ≡ k
        → Trace super exit.buff cur k
        → k ≡ tree.height cur
        → check v (is_system_event e) ≡ done tt
        → Climbed cur e k w (climb react v depth top (suc fuel) exit e (ancestor super cur k) w)
    unfolding climb call ntop_state
    climb_top fuel exit k w at t high accepted =
        let s = ancestor super cur k in
        let is_top : s ≡ top = ancestor-top tree cur k high in
        let same : (s == top) ≡ true = ground (arith, is_top) in
        record {
          exit = record { buff = update exit.buff exit.index s; index = exit.index + 1 };
          reaction = record { action = naction_ignored; state = s; world = w };
          levels = 0;
          reply = stay;
          world = w;
          runs =
              rw
                (
                  put_lem react v depth top super ok.supers exit exit.index s (omega arith),
                  same,
                  accepted,
                )
                refl;
          climbs = ignored is_top;
          trace = λ n hn. Trace-put exit.buff cur k exit.index s t at refl n (omega arith);
          index = omega arith;
          replied = (refl, refl, refl);
          below = λ g. absurd (ground arith);
        }

    -- At a state that passes the event on.
    climb_pass :
        (fuel : ℕ) (exit : HsmPath) (k : ℕ) (w w' : W)
        → exit.index ≡ k
        → Trace super exit.buff cur k
        → k < tree.height cur
        → m.handle (ancestor super cur k) e w ≡ (pass, w')
        → ((exit' : HsmPath)
            → exit'.index ≡ suc k
            → Trace super exit'.buff cur (suc k)
            → Climbed cur e
                (suc k)
                w'
                (climb react v depth top fuel exit' e (ancestor super cur (suc k)) w'))
        → Climbed cur e k w (climb react v depth top (suc fuel) exit e (ancestor super cur k) w)
    unfolding climb
    climb_pass fuel exit k w w' at t below h again =
        let s = ancestor super cur k in
        let ne = ancestor_below_top tree cur k below in
        let exit' : HsmPath = record {
          buff = update exit.buff exit.index s;
          index = exit.index + 1;
        } in
        let c = again exit' (omega arith) (Trace-put exit.buff cur k exit.index s t at refl) in
        let up : super s ≡ ancestor super cur (suc k) = sym (ancestor-suc super cur k) in
        record {
          exit = c.exit;
          reaction = c.reaction;
          levels = suc c.levels;
          reply = c.reply;
          world = c.world;
          runs =
              rw
                (
                  put_lem react v depth top super ok.supers exit exit.index s (omega arith),
                  call_below_top react v depth top super ok.supers s e s w ne,
                  ok.passes s e s w w' plain h,
                  up,
                )
                c.runs;
          climbs = passed ne h (rw up c.climbs);
          trace = λ n hn. c.trace n (omega arith);
          index = omega (arith, c.index);
          replied = c.replied;
          below = λ g. omega (arith, c.below g);
        }

    pub climb-Climbed :
        (fuel : ℕ) (exit : HsmPath) (k : ℕ) (w : W)
        → exit.index ≡ k
        → Trace super exit.buff cur k
        → k ≤ tree.height cur
        → tree.height cur < k + fuel
        → Covered m super top v e
        → (k < tree.height cur) ⊎ (check v (is_system_event e) ≡ done tt)
        → Climbed cur e k w (climb react v depth top fuel exit e (ancestor super cur k) w)
    climb-Climbed zero exit k w at t le f cov gate = absurd (omega arith)
    climb-Climbed (suc fuel) exit k w at t le f cov gate = elim (ℕ_discrete k (tree.height cur)) [
      | yes high ↦ elim gate [
        | inl lt ↦ absurd (omega arith)
        | inr accepted ↦ climb_top fuel exit k w at t high accepted
      ]
      | no ne ↦
          at_state fuel exit k w at t (omega arith) (m.handle (ancestor super cur k) e w) refl
            (λ w' exit' at' t' gate'.
              climb-Climbed fuel exit' (suc k) w' at' t' (omega arith) (omega arith) cov gate')
            cov
    ]
      where
        at_state :
            (fuel : ℕ) (exit : HsmPath) (k : ℕ) (w : W)
            → exit.index ≡ k
            → Trace super exit.buff cur k
            → k < tree.height cur
            → (a : Reply × W) → m.handle (ancestor super cur k) e w ≡ a
            → ((w' : W) (exit' : HsmPath)
                → exit'.index ≡ suc k
                → Trace super exit'.buff cur (suc k)
                → (suc k < tree.height cur) ⊎ (check v (is_system_event e) ≡ done tt)
                → Climbed cur e
                    (suc k)
                    w'
                    (climb react v depth top fuel exit' e (ancestor super cur (suc k)) w'))
            → Covered m super top v e
            → Climbed cur e k w (climb react v depth top (suc fuel) exit e (ancestor super cur k) w)
        at_state fuel exit k w at t below (stay, w') h again cov =
            climb_answer fuel exit k w w' stay at t below h refl
        at_state fuel exit k w at t below (goto u, w') h again cov =
            climb_answer fuel exit k w w' (goto u) at t below h refl
        at_state fuel exit k w at t below (pass, w') h again (inr accepted) =
            climb_pass fuel exit k w w' at t below h
              (λ exit' at' t'. again w' exit' at' t' (inr accepted))
        at_state fuel exit k w at t below (pass, w') h again (inl outer) =
            climb_pass fuel exit k w w' at t below h (λ exit' at' t'. again w' exit' at' t' (
              inl (elim (ℕ_discrete (suc k) (tree.height cur)) [
                | yes high ↦ absurd (
                    outer (ancestor super cur k) w w'
                      (sym (ancestor-suc super cur k) ∙ ancestor-top tree cur (suc k) high) h)
                | no ne ↦ omega arith
              ])))
