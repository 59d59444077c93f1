-- ===== src/Smp/Hsm/Path.antt =====
-- `hsm_build_path` of source/smp.c finds where the ways up from the source and from the target meet.
use neon_eds.Common.{
  ℕ, zero, suc, ◌+◌, ◌-◌, ◌≤◌, ◌<◌, ◌≡◌, ◌≢◌, Bool, if◌then◌else◌, Run, done, ◌>>=◌, arith, refl,
  ap, ◌∙◌, sym, Bool-cases, inl, inr,
}
use native.Mathlib.Decide.{ℕ_discrete}
use neon_eds.Smp.{Event, Reaction}
use neon_eds.Smp.Hsm.{
  Paths, at_index, meets, raise_exit, path_e_loop, path_f_loop, path_g_inner, path_g_loop, path_g,
  path_f, path_e, path_d, path_c, path_b, hsm_build_path,
}
use neon_eds.Smp.Hsm.Tree.{
  Tree, ancestor, ancestor-top, ancestor_below_top, ancestor-zero, ancestor-suc, meeting-height,
}
use neon_eds.Smp.Hsm.Walk.{At, Trace, Supers, raise_entry-At, raise_exit-At}
use neon_eds.Smp.Hsm.Search.{
  Missed, Found, met, missed, not_met, is_met, path_e_loop-Found, path_f_loop-Found,
  path_g_inner-Found,
}

-- Level `m` above `cur` is the lowest one, from level `c` on, that is a proper ancestor of `t`, and it is
-- the one of level `j`.
pub record Joins {super : ℕ → ℕ} {top : ℕ} (tree : Tree super top) (cur c t m j : ℕ) : Type 0 where
  pub from : c ≤ m
  pub up_to : m ≤ tree.height cur
  pub proper : 1 ≤ j
  pub within : j ≤ tree.height t
  pub common : ancestor super cur m ≡ ancestor super t j
  pub lowest : (i : ℕ) → c ≤ i → i < m → Missed super (ancestor super cur i) t 1 (tree.height t)

-- The levels that a transition to `t` leaves and enters, where the state at level `c` above `cur` asks for
-- it: a transition to the parent of that state leaves the state and enters none.
pub data Route {super : ℕ → ℕ} {top : ℕ} (tree : Tree super top) (cur c t m j : ℕ) : Type 0 where
  to_parent : ancestor super cur (suc c) ≡ t → m ≡ suc c → j ≡ 0 → Route tree cur c t m j
  to_join : ancestor super cur (suc c) ≢ t → Joins tree cur c t m j → Route tree cur c t m j

-- The paths that `hsm_build_path` returns.
pub record Built {ℓ} {W : Type ℓ} {super : ℕ → ℕ} {top : ℕ} (tree : Tree super top) (cur c t : ℕ)
    (w : W) (b : Paths W) : Type ℓ where
  pub same_world : b.world ≡ w
  pub left : Trace super b.exit.buff cur b.exit.index
  pub entered : Trace super b.entry.buff t b.entry.index
  pub first : b.entry.buff 0 ≡ t
  pub route : Route tree cur c t b.exit.index b.entry.index

module _ {ℓ} {W : Type ℓ} (react : ℕ → Event → ℕ → W → Reaction W) (v : Bool) (depth top : ℕ)
    (super : ℕ → ℕ) (supers : Supers react super top) (tree : Tree super top) (cur c t : ℕ) (w : W)
    (room : tree.height t < depth) (room' : tree.height cur < depth) (below : c < tree.height cur)
    (proper : 0 < tree.height t) where
  abbrev Builds : Run (Paths W) → Type ℓ
  Builds run = (b : Paths W) × (run ≡ done b) × Built tree cur c t w b

  Builds-subst : {run run' : Run (Paths W)} → run ≡ run' → Builds run' → Builds run
  Builds-subst e (b, r, h) = (b, e ∙ r, h)

  At-Built :
      (b : Paths W) (m n j k : ℕ)
      → At super b cur m n t j k w
      → m ≤ n
      → j ≤ k
      → 0 < k
      → Route tree cur c t m j
      → Built tree cur c t w b
  At-Built b m n j k a hm hj hk r = record {
    same_world = a.same_world;
    left = λ i h. a.exit_trace i (omega (arith, a.exit_index, h));
    entered = λ i h. a.entry_trace i (omega (arith, a.entry_index, h));
    first = a.entry_trace 0 hk ∙ ancestor-zero super t;
    route = rw (a.exit_index, a.entry_index) r;
  }

  -- What is known once the paths b) to d) have returned nothing.
  module _ (no_parent : ancestor super cur (suc c) ≢ t) where
    abbrev MissedFrom : ℕ → Type 0
    MissedFrom m = (i : ℕ) → c ≤ i → i < m → Missed super (ancestor super cur i) t 1 (tree.height t)

    MissedFrom-next :
        (m : ℕ)
        → MissedFrom m
        → Missed super (ancestor super cur m) t 1 (tree.height t)
        → MissedFrom (suc m)
    MissedFrom-next m low miss i lo hi = elim (ℕ_discrete i m) [
      | yes e ↦ λ k p q. rw (ap (ancestor super cur) e) (miss k p q)
      | no ne ↦ low i lo (omega arith)
    ]

    met-Builds :
        (run : Run (Paths W)) (b : Paths W) (m n j : ℕ)
        → run ≡ done b
        → c ≤ m
        → m ≤ tree.height cur
        → m < n
        → 1 ≤ j
        → j ≤ tree.height t
        → At super b cur m n t j (suc j) w
        → ancestor super cur m ≡ ancestor super t j
        → MissedFrom m
        → Builds run
    met-Builds run b m n j r lo hi hm pos within a e low = (
      b,
      r,
      At-Built b m n j (suc j) a (omega arith) (omega arith) (omega arith) (
          to_join no_parent (record {
            from = lo;
            up_to = hi;
            proper = pos;
            within = within;
            common = e;
            lowest = low;
          })),
    )

    path_g_loop-Builds :
        (inner fuel : ℕ) (b : Paths W) (m j : ℕ)
        → tree.height t ≤ inner
        → At super b cur m (suc m) t j (suc (tree.height t)) w
        → c ≤ m
        → m ≤ tree.height cur
        → tree.height cur < m + fuel
        → MissedFrom (suc m)
        → Builds (path_g_loop react v depth top inner fuel b)
    unfolding path_g_loop
    path_g_loop-Builds inner zero b m j enough a lo hi f low = absurd (omega arith)
    path_g_loop-Builds inner (suc fuel) b m j enough a lo hi f low =
        elim (ℕ_discrete m (tree.height cur)) [
          | yes e ↦ absurd (
              low m lo (omega arith) (tree.height t) (omega arith) (omega arith)
                (ancestor-top tree cur m e ∙ sym (ancestor-top tree t (tree.height t) refl)))
          | no ne ↦
              let (b₁, run, a₁) =
                raise_exit-At react v depth top super supers b cur m t j (suc (tree.height t)) w a
                  (ancestor_below_top tree cur m (omega arith)) (omega arith) in
              let b₂ = record b₁ { entry = at_index b₁.entry 0 } in
              let a₂ : At super b₂ cur (suc m) (suc (suc m)) t 0 (suc (tree.height t)) w = record {
                exit_index = a₁.exit_index;
                exit_trace = a₁.exit_trace;
                entry_index = refl;
                entry_trace = a₁.entry_trace;
                same_world = a₁.same_world;
              } in
              after b₁ run
                (path_g_inner-Found react v depth top super supers tree cur t w room inner b₂
                  (suc m) (suc (suc m)) 0 a₂ (omega arith) proper (omega arith)
                  (λ k p q. absurd (omega arith)))
                (λ b₃ a₃ low₃.
                  path_g_loop-Builds inner fuel b₃ (suc m) (tree.height t) enough a₃ (omega arith)
                    (omega arith) (omega arith) low₃)
                (omega arith)
        ]
      where
        after :
            (b₁ : Paths W)
            → raise_exit react v depth top b ≡ done b₁
            → Found super
                (tree.height t)
                (tree.height t)
                cur
                (suc m)
                (suc (suc m))
                t
                w
                (path_g_inner react v depth top inner (record b₁ { entry = at_index b₁.entry 0 }))
            → ((b₃ : Paths W)
                → At super b₃ cur (suc m) (suc (suc m)) t (tree.height t) (suc (tree.height t)) w
                → MissedFrom (suc (suc m))
                → Builds (path_g_loop react v depth top inner fuel b₃))
            → m < tree.height cur
            → Builds (
                raise_exit react v depth top b >>= λ b₁.
                path_g_inner react v depth top inner (record b₁ { entry = at_index b₁.entry 0 })
                >>= λ r. if r.0 then done r.1 else path_g_loop react v depth top inner fuel r.1)
        after b₁ run (met b₃ j₃ r p q a₃ e) again under =
            met-Builds _ b₃ (suc m) (suc (suc m)) j₃ (rw (run, r) refl) (omega arith) under
              (omega arith) p q a₃ e low
        after b₁ run (missed b₃ r a₃ miss) again under =
            Builds-subst (rw (run, r) refl) (again b₃ a₃ (MissedFrom-next (suc m) low miss))

    after_f :
        (fuel : ℕ) (run : Run (Bool × Paths W))
        → tree.height t ≤ fuel
        → tree.height cur ≤ fuel
        → Missed super (ancestor super cur c) t 1 (tree.height t)
        → Found super (tree.height t) 1 cur (suc c) (suc (suc c)) t w run
        → Builds (run >>= path_g react v depth top fuel)
    unfolding path_g
    after_f fuel run enough enough' low (met b j r p q a e) =
        met-Builds _ b (suc c) (suc (suc c)) j (rw r refl) (omega arith) (omega arith) (omega arith)
          p q a e (MissedFrom-next c (λ i x y. absurd (omega arith)) low)
    after_f fuel run enough enough' low (missed b r a miss) = Builds-subst (rw r refl) (
        path_g_loop-Builds fuel fuel b (suc c) 1 enough a (omega arith) (omega arith) (omega arith)
          (MissedFrom-next (suc c) (MissedFrom-next c (λ i x y. absurd (omega arith)) low) miss))

    after_e :
        (fuel : ℕ) (run : Run (Bool × Paths W))
        → tree.height t ≤ fuel
        → tree.height cur ≤ fuel
        → ancestor super cur (suc c) ≢ ancestor super t 1
        → Found super (tree.height t) (tree.height t) cur c (suc (suc c)) t w run
        → Builds (run >>= path_f react v depth top fuel)
    unfolding path_f
    after_e fuel run enough enough' no_c (met b j r p q a e) =
        met-Builds _ b c (suc (suc c)) j (rw r refl) (omega arith) (omega arith) (omega arith) p q a
          e (λ i x y. absurd (omega arith))
    after_e fuel run enough enough' no_c (missed b r a miss) =
        let b₁ = record b { exit = at_index b.exit (b.exit.index + 1) } in
        let a₁ : At super b₁ cur (suc c) (suc (suc c)) t (tree.height t) (suc (tree.height t)) w =
          record {
            exit_index = omega (arith, a.exit_index);
            exit_trace = a.exit_trace;
            entry_index = a.entry_index;
            entry_trace = a.entry_trace;
            same_world = a.same_world;
          } in
        Builds-subst (rw r refl) (
          after_f fuel (path_f_loop react v depth top fuel b₁) enough enough' miss (
            path_f_loop-Found react v depth top super supers tree cur t w room fuel b₁ (suc c)
              (suc (suc c)) (tree.height t) a₁ (omega arith) (omega arith) (omega arith)
              (omega arith) no_c (λ k p q. absurd (omega arith))))

    path_e-Builds :
        (fuel : ℕ) (b : Paths W)
        → tree.height t ≤ fuel
        → tree.height cur ≤ fuel
        → ancestor super cur (suc c) ≢ ancestor super t 1
        → ancestor super cur c ≢ ancestor super t 1
        → At super b cur (suc c) (suc (suc c)) t 0 2 w
        → Builds (path_e react v depth top fuel b)
    unfolding path_e
    path_e-Builds fuel b enough enough' no_c no_b a =
        let b₁ = record b {
          exit = at_index b.exit (b.exit.index - 1);
          entry = at_index b.entry (b.entry.index + 1);
        } in
        let a₁ : At super b₁ cur c (suc (suc c)) t 1 2 w = record {
          exit_index = omega (arith, a.exit_index);
          exit_trace = a.exit_trace;
          entry_index = omega (arith, a.entry_index);
          entry_trace = a.entry_trace;
          same_world = a.same_world;
        } in
        after_e fuel (path_e_loop react v depth top fuel b₁) enough enough' no_c (
          path_e_loop-Found react v depth top super supers tree cur t w room fuel b₁ c (suc (suc c))
            1 a₁ (omega arith) (omega arith) proper (omega arith)
            (λ k p q. let one : k ≡ 1 = omega arith in rw one no_b))

  path_d-Builds :
      (fuel : ℕ) (b : Paths W)
      → tree.height t ≤ fuel
      → tree.height cur ≤ fuel
      → ancestor super cur (suc c) ≢ ancestor super t 1
      → ancestor super cur c ≢ ancestor super t 1
      → At super b cur (suc c) (suc (suc c)) t 1 2 w
      → Builds (path_d react v depth top fuel b)
  unfolding path_d
  path_d-Builds fuel b enough enough' no_c no_b a =
      let b₁ = record b { entry = at_index b.entry (b.entry.index - 1) } in
      let a₁ : At super b₁ cur (suc c) (suc (suc c)) t 0 2 w = record {
        exit_index = a.exit_index;
        exit_trace = a.exit_trace;
        entry_index = omega (arith, a.entry_index);
        entry_trace = a.entry_trace;
        same_world = a.same_world;
      } in
      elim (Bool-cases (meets b₁)) [
        | inl e ↦
            let parent =
              is_met react v depth top super supers tree cur t w room b₁ (suc c) (suc (suc c)) 0 2
                a₁ (omega arith) (omega arith) e
              ∙ ancestor-zero super t in
            (
              b₁,
              rw e refl,
              At-Built b₁ (suc c) (suc (suc c)) 0 2 a₁ (omega arith) (omega arith) (omega arith)
                  (to_parent parent refl refl),
            )
        | inr e ↦
            let no_parent =
              not_met react v depth top super supers tree cur t w room b₁ (suc c) (suc (suc c)) 0 2
                a₁ (omega arith) (omega arith) e in
            Builds-subst (rw e refl) (
              path_e-Builds (λ p. no_parent (p ∙ sym (ancestor-zero super t))) fuel b₁ enough
                enough' no_c no_b a₁)
      ]

  -- Where the ways meet up to level `c + 1`, the target is not the parent.
  apart :
      (m j : ℕ)
      → m ≤ suc c
      → 1 ≤ j
      → j ≤ tree.height t
      → ancestor super cur m ≡ ancestor super t j
      → ancestor super cur (suc c) ≢ t
  apart m j hm lo hi e p = absurd (
      omega (
        arith,
        meeting-height tree cur t m j (omega arith) hi e,
        meeting-height tree cur t (suc c) 0 (omega arith) (omega arith)
            (p ∙ sym (ancestor-zero super t)),
      ))

  path_c-Builds :
      (fuel : ℕ) (b : Paths W)
      → tree.height t ≤ fuel
      → tree.height cur ≤ fuel
      → ancestor super cur c ≢ ancestor super t 1
      → At super b cur c (suc c) t 1 2 w
      → Builds (path_c react v depth top fuel b)
  unfolding path_c
  path_c-Builds fuel b enough enough' no_b a =
      let (b₁, run, a₁) =
        raise_exit-At react v depth top super supers b cur c t 1 2 w a
          (ancestor_below_top tree cur c below) (omega arith) in
      elim (Bool-cases (meets b₁)) [
        | inl e ↦
            let c_1 =
              is_met react v depth top super supers tree cur t w room b₁ (suc c) (suc (suc c)) 1 2
                a₁ (omega arith) (omega arith) e in
            met-Builds (apart (suc c) 1 (omega arith) (omega arith) proper c_1) _ b₁ (suc c)
              (suc (suc c)) 1 (rw (run, e) refl) (omega arith) below (omega arith) (omega arith)
              proper a₁ c_1
              (λ i lo hi k p q e'. absurd (
                omega (
                  arith,
                  meeting-height tree cur t (suc c) 1 below proper c_1,
                  meeting-height tree cur t i k (omega arith) q e',
                )))
        | inr e ↦
            let no_c =
              not_met react v depth top super supers tree cur t w room b₁ (suc c) (suc (suc c)) 1 2
                a₁ (omega arith) (omega arith) e in
            Builds-subst (rw (run, e) refl) (path_d-Builds fuel b₁ enough enough' no_c no_b a₁)
      ]

  path_b-Builds :
      (fuel : ℕ) (b : Paths W)
      → tree.height t ≤ fuel
      → tree.height cur ≤ fuel
      → At super b cur c (suc c) t 0 1 w
      → Builds (path_b react v depth top fuel b)
  unfolding path_b
  path_b-Builds fuel b enough enough' a =
      let (b₁, run, a₁) =
        raise_entry-At react v depth top super supers b cur c (suc c) t 0 w a
          (ancestor_below_top tree t 0 proper) (omega arith) in
      elim (Bool-cases (meets b₁)) [
        | inl e ↦
            let b_1 =
              is_met react v depth top super supers tree cur t w room b₁ c (suc c) 1 2 a₁
                (omega arith) (omega arith) e in
            met-Builds (apart c 1 (omega arith) (omega arith) proper b_1) _ b₁ c (suc c) 1
              (rw (run, e) refl) (omega arith) (omega arith) (omega arith) (omega arith) proper a₁
              b_1 (λ i lo hi. absurd (omega arith))
        | inr e ↦
            let no_b =
              not_met react v depth top super supers tree cur t w room b₁ c (suc c) 1 2 a₁
                (omega arith) (omega arith) e in
            Builds-subst (rw (run, e) refl) (path_c-Builds fuel b₁ enough enough' no_b a₁)
      ]

  -- With the way up from `cur` to the source in the exit path, and the target in the entry path.
  pub hsm_build_path-Built :
      (fuel : ℕ) (b : Paths W)
      → tree.height t ≤ fuel
      → tree.height cur ≤ fuel
      → Trace super b.exit.buff cur (suc c)
      → b.exit.index ≡ suc c
      → b.entry.buff 0 ≡ t
      → b.world ≡ w
      → (b' : Paths W) × (hsm_build_path react v depth top fuel b ≡ done b')
        × Built tree cur c t w b'
  unfolding hsm_build_path
  hsm_build_path-Built fuel b enough enough' climbed index target same =
      let b₁ = record b { entry = at_index b.entry 0; exit = at_index b.exit (b.exit.index - 1) } in
      let a₁ : At super b₁ cur c (suc c) t 0 1 w = record {
        exit_index = omega (arith, index);
        exit_trace = climbed;
        entry_index = refl;
        entry_trace =
            λ k h. let zero_th : k ≡ 0 = omega arith in rw (zero_th, ancestor-zero super t) target;
        same_world = same;
      } in
      elim (Bool-cases (meets b₁)) [
        | inl e ↦
            let self =
              is_met react v depth top super supers tree cur t w room b₁ c (suc c) 0 1 a₁
                (omega arith) (omega arith) e in
            let up : ancestor super cur (suc c) ≡ ancestor super t 1 =
              ancestor-suc super cur c ∙ ap super self ∙ sym (ancestor-suc super t 0) in
            (
              record b₁ {
                entry = at_index b₁.entry (b₁.entry.index + 1);
                exit = at_index b₁.exit (b₁.exit.index + 1);
              },
              rw e refl,
              At-Built _ (suc c) (suc c) 1 1
                  (record {
                    exit_index = omega (arith, index);
                    exit_trace = climbed;
                    entry_index = refl;
                    entry_trace = a₁.entry_trace;
                    same_world = same;
                  })
                  (omega arith) (omega arith) (omega arith)
                  (to_join (apart (suc c) 1 (omega arith) (omega arith) proper up) (record {
                    from = omega arith;
                    up_to = below;
                    proper = omega arith;
                    within = proper;
                    common = up;
                    lowest = λ i lo hi k p q e'. absurd (
                        omega (
                          arith,
                          meeting-height tree cur t (suc c) 1 below proper up,
                          meeting-height tree cur t i k (omega arith) q e',
                        ));
                  })),
            )
        | inr e ↦ Builds-subst (rw e refl) (path_b-Builds fuel b₁ enough enough' a₁)
      ]
