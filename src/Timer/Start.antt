-- ===== src/Timer/Start.antt =====
-- `ntimer_start_i` of source/timer.c.
use Prim.Native.Nat.{bit_and}
use neon_eds.Common.{
  ℕ, ◌+◌, ◌<◌, ◌^◌, ◌≡◌, ◌≢◌, ◌∙◌, refl, sym, ap, ap₂, subst, List, [], ◌∷◌, ◌∉◌, true, has, arith,
  ◌==◌, if◌then◌else◌, update, done, length, u32_max, inc, lt→ltb, ne_of_mem, ==_ne, some, ◌||◌,
}
use neon_eds.Base.Dlist.{ndlist_is_empty, null}
use neon_eds.Base.Dlist.Ring.{is_empty-outside}
use neon_eds.Timer.{
  Timers, g_timer_sentinel, ntimer_attr_repeat, n_is_timer_object, ntimer_is_running_i,
  ntimer_start_i,
}
use neon_eds.Timer.Delta.{insert, names, expiry, expiry-insert, has-insert, total, total-insert}
use neon_eds.Timer.View.{
  deltas, deltas-frame, names-deltas, IsTimers, running, signed-frame, IsTimers-frame,
}
use neon_eds.Timer.Insert.{Inserted, insert_timer-Inserted}

-- What a started timer changes.
pub record Started (s : Timers) (xs : List ℕ) (n tick fn arg flags : ℕ) (s' : Timers) : Type 0 where
  pub order : List ℕ
  pub valid : IsTimers s' order
  pub ticks : running s' order ≡ insert n (tick + 1) (running s xs)
  pub due :
      (m : ℕ)
      → expiry m (running s' order) ≡ (if n == m then some (tick + 1) else expiry m (running s xs))
  pub period : s'.itick n ≡ (if bit_and flags ntimer_attr_repeat == 0 then 0 else tick + 1)
  pub callback : s'.fn n ≡ fn
  pub argument : s'.arg n ≡ arg

pub mem-order :
    (s : Timers) (n : ℕ) (xs : List ℕ) (s' : Timers) (i : Inserted s n [] xs s') (a : ℕ)
    → has a i.zs ≡ (a == n) || has a xs
mem-order s n xs s' i a =
    ap (has a) (sym (names-deltas s'.rtick i.zs) ∙ ap names i.ticks)
    ∙ has-insert a n (s.rtick n) (deltas s.rtick xs)
    ∙ ap (λ (ys : List ℕ). (a == n) || has a ys) (names-deltas s.rtick xs)

-- The validity of a set of timers after an insertion.
pub Inserted-IsTimers :
    (s : Timers) (n : ℕ) (xs : List ℕ) (s' : Timers)
    → IsTimers s xs
    → n ∉ g_timer_sentinel ∷ xs
    → n_is_timer_object s n ≡ true
    → (i : Inserted s n [] xs s') → IsTimers s' i.zs
Inserted-IsTimers s n xs s' v new signed i = record {
  ring = i.ring;
  sentinel_last = i.same g_timer_sentinel (ground arith) ∙ v.sentinel_last;
  sentinel_signed = signed-frame s s' i.signature g_timer_sentinel ∙ v.sentinel_signed;
  ticks_fit = i.fit;
  periods_fit = λ a. ground (arith, ap (λ (f : ℕ → ℕ). f a) i.itick, v.periods_fit a);
  total_fits =
      subst (λ ds. total ds < 2 ^ 32) (sym i.ticks)
        (omega
          (arith, total-insert n (s.rtick n) (deltas s.rtick xs), v.ticks_fit n, v.total_fits));
  signed =
      λ a m. signed-frame s s' i.signature a ∙ ground (arith, mem-order s n xs s' i a, v.signed a);
}

-- The timers when `insert_timer` is called.
abbrev armed : Timers → ℕ → ℕ → ℕ → ℕ → ℕ → Timers
armed s n tick fn arg flags = record s {
  fn = update s.fn n fn;
  arg = update s.arg n arg;
  rtick = update s.rtick n (inc tick);
  itick = update s.itick n (if bit_and flags ntimer_attr_repeat == 0 then 0 else inc tick);
}

module _ (s : Timers) (xs : List ℕ) (n tick fn arg flags : ℕ) (v : IsTimers s xs)
    (new : n ∉ g_timer_sentinel ∷ xs) (small : tick < u32_max) where
  armed-IsTimers : IsTimers (armed s n tick fn arg flags) xs
  armed-IsTimers =
      IsTimers-frame s (armed s n tick fn arg flags) xs v refl refl
        (λ a m. ground (arith, ne_of_mem a n (g_timer_sentinel ∷ xs) m))
        (λ a. ground (arith, v.ticks_fit a)) (λ a. ground (arith, v.periods_fit a))

  Inserted-Started :
      (s' : Timers)
      → n_is_timer_object s n ≡ true
      → Inserted (armed s n tick fn arg flags) n [] xs s'
      → Started s xs n tick fn arg flags s'
  Inserted-Started s' signed i = record {
    order = i.zs;
    valid =
        Inserted-IsTimers (armed s n tick fn arg flags) n xs s' armed-IsTimers new
          (signed-frame s (armed s n tick fn arg flags) refl n ∙ signed) i;
    ticks = ticks;
    due = λ m.
        ap (expiry m) ticks
        ∙ expiry-insert n (tick + 1) m (running s xs) (rw names-deltas (ground arith));
    period = ground (arith, ap (λ (f : ℕ → ℕ). f n) i.itick);
    callback = ground (arith, ap (λ (f : ℕ → ℕ). f n) i.fn);
    argument = ground (arith, ap (λ (f : ℕ → ℕ). f n) i.arg);
  }
    where
      ticks : deltas s'.rtick i.zs ≡ insert n (tick + 1) (deltas s.rtick xs)
      ticks =
          i.ticks
          ∙ ap₂ (insert n) {x = (armed s n tick fn arg flags).rtick n} (ground arith) (
              deltas-frame (armed s n tick fn arg flags).rtick s.rtick xs
                (λ a m. ground (arith, ne_of_mem a n xs m)))

-- A timer that does not run, with a tick count above 0 and below the greatest, and with a callback, is
-- due in `tick + 1` ticks after it is started; no other timer moves, and its period is the same count
-- if it repeats.
pub ntimer_start_i-Started :
    (fuel : ℕ) (s : Timers) (xs : List ℕ) (n tick fn arg flags : ℕ)
    → IsTimers s xs
    → n ≢ g_timer_sentinel
    → n_is_timer_object s n ≡ true
    → ndlist_is_empty s.links n ≡ true
    → 0 < tick
    → tick < u32_max
    → fn ≢ 0
    → length xs < fuel
    → (s' : Timers) × (ntimer_start_i fuel s n tick fn arg flags ≡ done s')
      × Started s xs n tick fn arg flags s'
unfolding ntimer_start_i ntimer_is_running_i
ntimer_start_i-Started fuel s xs n tick fn arg flags v ne signed idle pos small callback h =
    let new = is_empty-outside s.links g_timer_sentinel xs n v.ring ne idle in
    let valid = armed-IsTimers s xs n tick fn arg flags v new small in
    let (s', run, i) =
      insert_timer-Inserted fuel (armed s n tick fn arg flags) n xs valid.ring new
        valid.sentinel_last valid.ticks_fit h in
    (
      s',
      rw (signed, lt→ltb 0 tick pos, ==_ne fn null callback, idle) run,
      Inserted-Started s xs n tick fn arg flags v new small s' signed i,
    )
