-- ===== src/Timer/View.antt =====
-- The timers that run, as a list of deltas, and the invariant of the representation.
use neon_eds.Common.{
  ℕ, ◌<◌, ◌^◌, ◌≡◌, refl, List, [], ◌∷◌, ◌∈◌, arith, ap, ap₂, subst, sym, ◌∙◌, true,
}
use neon_eds.Base.Dlist.Ring.{Ring}
use neon_eds.Timer.{Timers, g_timer_sentinel, n_is_timer_object}
use neon_eds.Timer.Delta.{Deltas, names, total}
use neon_eds.Common.{u32_max}

-- The ticks that the timers `xs` hold.
abbrev pub deltas : (ℕ → ℕ) → List ℕ → Deltas
deltas rtick [] = []
deltas rtick (x ∷ xs) = (x, rtick x) ∷ deltas rtick xs

pub names-deltas : (rtick : ℕ → ℕ) (xs : List ℕ) → names (deltas rtick xs) ≡ xs
names-deltas rtick [] = refl
names-deltas rtick (x ∷ xs) = ap (λ ys. x ∷ ys) (names-deltas rtick xs)

-- `xs` are the running timers, in the order of their expiry: the list through the sentinel.
pub record IsTimers (s : Timers) (xs : List ℕ) : Type 0 where
  pub ring : Ring s.links g_timer_sentinel xs
  pub sentinel_last : s.rtick g_timer_sentinel ≡ u32_max
  pub sentinel_signed : n_is_timer_object s g_timer_sentinel ≡ true
  pub ticks_fit : (a : ℕ) → s.rtick a < 2 ^ 32
  pub periods_fit : (a : ℕ) → s.itick a < 2 ^ 32
  pub total_fits : total (deltas s.rtick xs) < 2 ^ 32
  pub signed : (a : ℕ) → a ∈ xs → n_is_timer_object s a ≡ true

abbrev pub running : Timers → List ℕ → Deltas
running s xs = deltas s.rtick xs

-- Ticks that agree on the timers give the same deltas.
pub deltas-frame :
    (f g : ℕ → ℕ) (xs : List ℕ) → ((a : ℕ) → a ∈ xs → f a ≡ g a) → deltas f xs ≡ deltas g xs
deltas-frame f g [] same = refl
deltas-frame f g (x ∷ xs) same =
    ap₂ (λ (d : ℕ) (ds : Deltas). (x, d) ∷ ds) (same x (ground arith))
      (deltas-frame f g xs (λ a h. same a (ground arith)))

-- The signatures alone make a timer.
pub signed-frame :
    (s t : Timers)
    → t.signature ≡ s.signature
    → (a : ℕ) → n_is_timer_object t a ≡ n_is_timer_object s a
unfolding n_is_timer_object
signed-frame s t e a = ground (arith, ap (λ (f : ℕ → ℕ). f a) e)

-- Other ticks and periods, on timers that do not run, make no difference.
pub IsTimers-frame :
    (s t : Timers) (xs : List ℕ)
    → IsTimers s xs
    → t.links ≡ s.links
    → t.signature ≡ s.signature
    → ((a : ℕ) → a ∈ g_timer_sentinel ∷ xs → t.rtick a ≡ s.rtick a)
    → ((a : ℕ) → t.rtick a < 2 ^ 32)
    → ((a : ℕ) → t.itick a < 2 ^ 32)
    → IsTimers t xs
IsTimers-frame s t xs v links signature ticks fit periods = record {
  ring = subst (λ h. Ring h g_timer_sentinel xs) (sym links) v.ring;
  sentinel_last = ticks g_timer_sentinel (ground arith) ∙ v.sentinel_last;
  sentinel_signed = signed-frame s t signature g_timer_sentinel ∙ v.sentinel_signed;
  ticks_fit = fit;
  periods_fit = periods;
  total_fits =
      subst (λ ds. total ds < 2 ^ 32)
        (sym (deltas-frame t.rtick s.rtick xs (λ a m. ticks a (ground arith)))) v.total_fits;
  signed = λ a m. signed-frame s t signature a ∙ v.signed a m;
}
