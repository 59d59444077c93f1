-- ===== src/Smp/Hsm/Walk.antt =====
-- Up the tree by NSM_SUPER, and the arrays that `hsm_build_path` of source/smp.c fills on its way.
use native.Mathlib.Decide.{ℕ_discrete}
use neon_eds.Common.{
  ℕ, suc, ◌+◌, ◌<◌, ◌≡◌, ◌≢◌, Bool, true, ◌==◌, ==_ne, update, done, arith, refl, ap, lt→ltb, ◌∙◌,
  sym,
}
use neon_eds.Smp.{naction_super, Event, nsm_super, Reaction}
use neon_eds.Smp.Machine.{check-true}
use neon_eds.Smp.Hsm.{
  HsmPath, Paths, call, hsm_get_state_super, put, raise_entry, raise_exit, meets,
}
use neon_eds.Smp.Hsm.Tree.{ancestor, ancestor-suc}

-- The first `n` entries are the states from `s` upwards.
abbrev pub Trace : (ℕ → ℕ) → (ℕ → ℕ) → ℕ → ℕ → Type 0
Trace super buff s n = (k : ℕ) → k < n → buff k ≡ ancestor super s k

pub Trace-extend :
    (super buff : ℕ → ℕ) (s n i x : ℕ)
    → Trace super buff s (suc n)
    → i ≡ suc n
    → x ≡ ancestor super s n
    → Trace super (update buff i (super x)) s (suc (suc n))
Trace-extend super buff s n i x t e e' k h = elim (ℕ_discrete k (suc n)) [
  | yes at ↦
      let next : super x ≡ ancestor super s (suc n) = ap super e' ∙ sym (ancestor-suc super s n) in
      ground (arith, next, at, e)
  | no ne ↦ ground (arith, e, t k (omega arith))
]

-- Where the two paths stand, and how far they are known.
pub record At {ℓ} {W : Type ℓ} (super : ℕ → ℕ) (b : Paths W) (cur m n t j k : ℕ) (w : W)
    : Type ℓ where
  pub exit_index : b.exit.index ≡ m
  pub exit_trace : Trace super b.exit.buff cur n
  pub entry_index : b.entry.index ≡ j
  pub entry_trace : Trace super b.entry.buff t k
  pub same_world : b.world ≡ w

pub meets-At {ℓ} :
    {W : Type ℓ} (super : ℕ → ℕ) (b : Paths W) (cur m n t j k : ℕ) (w : W)
    → At super b cur m n t j k w
    → m < n
    → j < k
    → meets b ≡ (ancestor super cur m == ancestor super t j)
meets-At super b cur m n t j k w a hm hj =
    rw (a.exit_index, a.entry_index, a.exit_trace m hm, a.entry_trace j hj) refl

-- State functions answer NSM_SUPER by `naction_super`.
abbrev pub Supers {ℓ} : {W : Type ℓ} → (ℕ → Event → ℕ → W → Reaction W) → (ℕ → ℕ) → ℕ → Type ℓ
Supers {W} react super top =
    (s state : ℕ) (w : W)
    → s ≢ top
    → react s nsm_super state w ≡ record { action = naction_super; state = super s; world = w }

module _ {ℓ} {W : Type ℓ} (react : ℕ → Event → ℕ → W → Reaction W) (v : Bool) (depth top : ℕ)
    (super : ℕ → ℕ) (supers : Supers react super top) where
  pub call_below_top :
      (s : ℕ) (e : Event) (state : ℕ) (w : W)
      → s ≢ top
      → call react v depth top s e state w ≡ done (react s e state w)
  unfolding call
  call_below_top s e state w ne = rw (==_ne s top ne) refl

  hsm_get_state_super_lem :
      (s state : ℕ) (w : W)
      → s ≢ top
      → hsm_get_state_super react v depth top s state w ≡ done (super s, w)
  unfolding hsm_get_state_super
  hsm_get_state_super_lem s state w ne =
      rw (call_below_top s nsm_super state w ne, supers s state w ne, check-true v true refl) refl

  pub put_lem :
      (p : HsmPath) (i fn : ℕ)
      → i < depth
      → put react v depth top p i fn ≡ done (record { buff = update p.buff i fn; index = i })
  unfolding put
  put_lem p i fn h = rw (lt→ltb i depth h) refl

  pub raise_entry-At :
      (b : Paths W) (cur m n t j : ℕ) (w : W)
      → At super b cur m n t j (suc j) w
      → ancestor super t j ≢ top
      → j + 1 < depth
      → (b' : Paths W) × (raise_entry react v depth top b ≡ done b')
        × At super b' cur m n t (suc j) (suc (suc j)) w
  unfolding raise_entry
  raise_entry-At b cur m n t j w a ne room =
      let here : b.entry.buff b.entry.index ≡ ancestor super t j =
        rw a.entry_index (a.entry_trace j (omega arith)) in
      let s = ancestor super t j in
      (
        record b {
          entry = record {
            buff = update b.entry.buff (b.entry.index + 1) (super s);
            index = b.entry.index + 1;
          };
          state = super s;
        },
        rw
            (
              here,
              hsm_get_state_super_lem s b.state b.world ne,
              put_lem b.entry (b.entry.index + 1) (super s) (omega (arith, a.entry_index)),
            )
            refl,
        record {
          exit_index = a.exit_index;
          exit_trace = a.exit_trace;
          entry_index = omega (arith, a.entry_index);
          entry_trace =
              Trace-extend super b.entry.buff t j (b.entry.index + 1) s a.entry_trace
                (omega (arith, a.entry_index)) refl;
          same_world = a.same_world;
        },
      )

  pub raise_exit-At :
      (b : Paths W) (cur m t j k : ℕ) (w : W)
      → At super b cur m (suc m) t j k w
      → ancestor super cur m ≢ top
      → m + 1 < depth
      → (b' : Paths W) × (raise_exit react v depth top b ≡ done b')
        × At super b' cur (suc m) (suc (suc m)) t j k w
  unfolding raise_exit
  raise_exit-At b cur m t j k w a ne room =
      let here : b.exit.buff b.exit.index ≡ ancestor super cur m =
        rw a.exit_index (a.exit_trace m (omega arith)) in
      let s = ancestor super cur m in
      (
        record b {
          exit = record {
            buff = update b.exit.buff (b.exit.index + 1) (super s);
            index = b.exit.index + 1;
          };
          state = super s;
        },
        rw
            (
              here,
              hsm_get_state_super_lem s b.state b.world ne,
              put_lem b.exit (b.exit.index + 1) (super s) (omega (arith, a.exit_index)),
            )
            refl,
        record {
          exit_index = omega (arith, a.exit_index);
          exit_trace =
              Trace-extend super b.exit.buff cur m (b.exit.index + 1) s a.exit_trace
                (omega (arith, a.exit_index)) refl;
          entry_index = a.entry_index;
          entry_trace = a.entry_trace;
          same_world = a.same_world;
        },
      )
