-- ===== src/Smp/Hsm/Search.antt =====
-- The loops of `hsm_build_path` of source/smp.c look for a state among the proper ancestors of the target.
use neon_eds.Common.{
  ℕ, zero, suc, ◌+◌, ◌-◌, ◌≤◌, ◌<◌, ◌≡◌, ◌≢◌, Bool, true, false, ◌==◌, ==_ne, ne_of_==, Run, done,
  arith, refl, ap, subst, ◌∙◌, sym, Bool-cases, inl, inr, ==_refl,
}
use native.Mathlib.Decide.{ℕ_discrete}
use neon_eds.Smp.{Event, Reaction}
use neon_eds.Smp.Hsm.{Paths, at_index, meets, path_e_loop, path_f_loop, path_g_inner}
use neon_eds.Smp.Hsm.Tree.{Tree, ancestor, ancestor-top, ancestor_below_top}
use neon_eds.Smp.Hsm.Walk.{At, Supers, meets-At, raise_entry-At}

-- The state `x` is no proper ancestor of `t` from level `lo` up to level `hi`.
abbrev pub Missed : (ℕ → ℕ) → ℕ → ℕ → ℕ → ℕ → Type 0
Missed super x t lo hi = (k : ℕ) → lo ≤ k → k ≤ hi → x ≢ ancestor super t k

-- What a loop finds about the state `m` levels above `cur`, and that it ends at index `last` if nothing.
pub data Found {ℓ} {W : Type ℓ} (super : ℕ → ℕ) (height last cur m n t : ℕ) (w : W)
    (run : Run (Bool × Paths W)) : Type ℓ where
  met :
      (b : Paths W) (j : ℕ)
      → run ≡ done (true, b)
      → 1 ≤ j
      → j ≤ height
      → At super b cur m n t j (suc j) w
      → ancestor super cur m ≡ ancestor super t j
      → Found super height last cur m n t w run
  missed :
      (b : Paths W)
      → run ≡ done (false, b)
      → At super b cur m n t last (suc height) w
      → Missed super (ancestor super cur m) t 1 height
      → Found super height last cur m n t w run

pub Found-subst {ℓ} :
    {W : Type ℓ} {super : ℕ → ℕ} {height last cur m n t : ℕ} {w : W}
    {run run' : Run (Bool × Paths W)}
    → run ≡ run'
    → Found super height last cur m n t w run'
    → Found super height last cur m n t w run
Found-subst e (met b j r lo hi a c) = met b j (e ∙ r) lo hi a c
Found-subst e (missed b r a c) = missed b (e ∙ r) a c

-- One more level that was looked at.
pub Missed-next :
    (super : ℕ → ℕ) (x t lo hi : ℕ)
    → Missed super x t lo hi
    → x ≢ ancestor super t (suc hi)
    → Missed super x t lo (suc hi)
Missed-next super x t lo hi h ne k a b = elim (ℕ_discrete k (suc hi)) [
  | yes e ↦ λ e'. ne (e' ∙ ap (ancestor super t) e)
  | no o ↦ h k a (omega arith)
]

pub Missed-before :
    (super : ℕ → ℕ) (x t lo hi : ℕ)
    → Missed super x t (suc lo) hi
    → x ≢ ancestor super t lo
    → Missed super x t lo hi
Missed-before super x t lo hi h ne k a b = elim (ℕ_discrete k lo) [
  | yes e ↦ λ e'. ne (e' ∙ ap (ancestor super t) e)
  | no o ↦ h k (omega arith) b
]

-- What is known of fewer levels.
pub At-shrink {ℓ} :
    {W : Type ℓ} (super : ℕ → ℕ) (b : Paths W) (cur m n t j k k' : ℕ) (w : W)
    → At super b cur m n t j k w
    → k' ≤ k
    → At super b cur m n t j k' w
At-shrink super b cur m n t j k k' w a h = record {
  exit_index = a.exit_index;
  exit_trace = a.exit_trace;
  entry_index = a.entry_index;
  entry_trace = λ i hi. a.entry_trace i (omega arith);
  same_world = a.same_world;
}

module _ {ℓ} {W : Type ℓ} (react : ℕ → Event → ℕ → W → Reaction W) (v : Bool) (depth top : ℕ)
    (super : ℕ → ℕ) (supers : Supers react super top) (tree : Tree super top) (cur t : ℕ) (w : W)
    (room : tree.height t < depth) where
  pub not_met :
      (b : Paths W) (m n j k : ℕ)
      → At super b cur m n t j k w
      → m < n
      → j < k
      → meets b ≡ false
      → ancestor super cur m ≢ ancestor super t j
  not_met b m n j k a hm hj e =
      ne_of_== (ancestor super cur m) (ancestor super t j)
        (sym (meets-At super b cur m n t j k w a hm hj) ∙ e)

  pub is_met :
      (b : Paths W) (m n j k : ℕ)
      → At super b cur m n t j k w
      → m < n
      → j < k
      → meets b ≡ true
      → ancestor super cur m ≡ ancestor super t j
  is_met b m n j k a hm hj e = ground (arith, meets-At super b cur m n t j k w a hm hj)

  pub path_e_loop-Found :
      (fuel : ℕ) (b : Paths W) (m n j : ℕ)
      → At super b cur m n t j (suc j) w
      → m < n
      → 1 ≤ j
      → j ≤ tree.height t
      → tree.height t < j + fuel
      → Missed super (ancestor super cur m) t 1 j
      → Found super
          (tree.height t)
          (tree.height t)
          cur
          m
          n
          t
          w
          (path_e_loop react v depth top fuel b)
  unfolding path_e_loop
  path_e_loop-Found zero b m n j a hm lo hi f miss = absurd (omega arith)
  path_e_loop-Found (suc fuel) b m n j a hm lo hi f miss =
      let here : b.entry.buff b.entry.index ≡ ancestor super t j =
        rw a.entry_index (a.entry_trace j (omega arith)) in
      elim (ℕ_discrete j (tree.height t)) [
        | yes e ↦
            let at_top : (ancestor super t j == top) ≡ true =
              rw (ancestor-top tree t j e) (==_refl top) in
            missed b (rw (here, at_top) refl) (subst (λ i. At super b cur m n t i (suc i) w) e a)
              (λ k p q. miss k p (omega arith))
        | no ne ↦
            let below = ancestor_below_top tree t j (omega arith) in
            let not_top : (ancestor super t j == top) ≡ false =
              ==_ne (ancestor super t j) top below in
            let (b₁, run, a₁) =
              raise_entry-At react v depth top super supers b cur m n t j w a below (omega arith) in
            elim (Bool-cases (meets b₁)) [
              | inl e ↦
                  met b₁ (suc j) (rw (here, not_top, run, e) refl) (omega arith) (omega arith) a₁
                    (is_met b₁ m n (suc j) (suc (suc j)) a₁ hm (omega arith) e)
              | inr e ↦
                  let other = not_met b₁ m n (suc j) (suc (suc j)) a₁ hm (omega arith) e in
                  Found-subst (rw (here, not_top, run, e) refl) (
                    path_e_loop-Found fuel b₁ m n (suc j) a₁ hm (omega arith) (omega arith)
                      (omega arith) (Missed-next super (ancestor super cur m) t 1 j miss other))
            ]
      ]

  pub path_f_loop-Found :
      (fuel : ℕ) (b : Paths W) (m n j : ℕ)
      → At super b cur m n t j (suc (tree.height t)) w
      → m < n
      → 1 ≤ j
      → j ≤ tree.height t
      → j ≤ fuel
      → ancestor super cur m ≢ ancestor super t 1
      → Missed super (ancestor super cur m) t (suc j) (tree.height t)
      → Found super (tree.height t) 1 cur m n t w (path_f_loop react v depth top fuel b)
  unfolding path_f_loop
  path_f_loop-Found zero b m n j a hm lo hi f first miss = absurd (omega arith)
  path_f_loop-Found (suc fuel) b m n j a hm lo hi f first miss = elim (ℕ_discrete j 1) [
    | yes e ↦
        let one : (b.entry.index == 1) ≡ true = ground (arith, a.entry_index, e) in
        missed b (rw one refl) (subst (λ i. At super b cur m n t i (suc (tree.height t)) w) e a) (
          Missed-before super (ancestor super cur m) t 1 (tree.height t)
            (λ k p q. miss k (omega arith) q) first)
    | no ne ↦
        let many : (b.entry.index == 1) ≡ false = ground (arith, a.entry_index, ne) in
        elim (Bool-cases (meets b)) [
          | inl e ↦
              met b j (rw (many, e) refl) lo hi
                (At-shrink super b cur m n t j (suc (tree.height t)) (suc j) w a (omega arith))
                (is_met b m n j (suc (tree.height t)) a hm (omega arith) e)
          | inr e ↦
              let other = not_met b m n j (suc (tree.height t)) a hm (omega arith) e in
              let down : At super (record b { entry = at_index b.entry (b.entry.index - 1) }) cur m
                  n t (j - 1) (suc (tree.height t)) w =
                record {
                  exit_index = a.exit_index;
                  exit_trace = a.exit_trace;
                  entry_index = omega (arith, a.entry_index);
                  entry_trace = a.entry_trace;
                  same_world = a.same_world;
                } in
              Found-subst (rw (many, e) refl) (
                path_f_loop-Found fuel (record b { entry = at_index b.entry (b.entry.index - 1) }) m
                  n (j - 1) down hm (omega arith) (omega arith) (omega arith) first
                  (λ k p q.
                    Missed-before super (ancestor super cur m) t j (tree.height t) miss other k
                      (omega arith) q))
        ]
  ]

  pub path_g_inner-Found :
      (fuel : ℕ) (b : Paths W) (m n j : ℕ)
      → At super b cur m n t j (suc (tree.height t)) w
      → m < n
      → j < tree.height t
      → tree.height t ≤ j + fuel
      → Missed super (ancestor super cur m) t 1 j
      → Found super
          (tree.height t)
          (tree.height t)
          cur
          m
          n
          t
          w
          (path_g_inner react v depth top fuel b)
  unfolding path_g_inner
  path_g_inner-Found zero b m n j a hm hi f miss = absurd (omega arith)
  path_g_inner-Found (suc fuel) b m n j a hm hi f miss =
      let b₁ = record b { entry = at_index b.entry (b.entry.index + 1) } in
      let a₁ : At super b₁ cur m n t (suc j) (suc (tree.height t)) w = record {
        exit_index = a.exit_index;
        exit_trace = a.exit_trace;
        entry_index = omega (arith, a.entry_index);
        entry_trace = a.entry_trace;
        same_world = a.same_world;
      } in
      let here : b₁.entry.buff b₁.entry.index ≡ ancestor super t (suc j) =
        rw a₁.entry_index (a.entry_trace (suc j) (omega arith)) in
      elim (Bool-cases (meets b₁)) [
        | inl e ↦
            met b₁ (suc j) (rw e refl) (omega arith) (omega arith)
              (At-shrink super b₁ cur m n t (suc j) (suc (tree.height t)) (suc (suc j)) w a₁
                (omega arith))
              (is_met b₁ m n (suc j) (suc (tree.height t)) a₁ hm (omega arith) e)
        | inr e ↦
            let other = not_met b₁ m n (suc j) (suc (tree.height t)) a₁ hm (omega arith) e in
            let miss₁ = Missed-next super (ancestor super cur m) t 1 j miss other in
            elim (ℕ_discrete (suc j) (tree.height t)) [
              | yes e' ↦
                  let at_top : (ancestor super t (suc j) == top) ≡ true =
                    rw (ancestor-top tree t (suc j) e') (==_refl top) in
                  missed b₁ (rw (e, here, at_top) refl)
                    (subst (λ i. At super b₁ cur m n t i (suc (tree.height t)) w) e' a₁)
                    (λ k p q. miss₁ k p (omega arith))
              | no ne ↦
                  let not_top : (ancestor super t (suc j) == top) ≡ false =
                    ==_ne (ancestor super t (suc j)) top
                      (ancestor_below_top tree t (suc j) (omega arith)) in
                  Found-subst (rw (e, here, not_top) refl)
                    (path_g_inner-Found fuel b₁ m n (suc j) a₁ hm (omega arith) (omega arith) miss₁)
            ]
      ]
