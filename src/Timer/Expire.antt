-- ===== src/Timer/Expire.antt =====
-- The body of the loop of `ncore_timer_isr` in source/timer.c, up to the callback.
use neon_eds.Common.{
  ℕ, suc, ◌-◌, ◌<◌, ◌≤◌, ◌^◌, ◌≡◌, ◌≢◌, ◌∙◌, refl, sym, ap, ap₂, subst, List, [], ◌∷◌, ◌∉◌, true,
  arith, ◌==◌, if◌then◌else◌, update, Run, done, length, ne_of_mem, ==_ne, dec,
}
use native.Mathlib.Decide.{ℕ_discrete}
use neon_eds.Base.Dlist.{ndlist_next}
use neon_eds.Base.Dlist.Ring.{front, next-front}
use neon_eds.Base.Dlist.Remove.{remove-Ring}
use neon_eds.Timer.{Timers, g_timer_sentinel, n_is_timer_object, insert_timer, remove_timer}
use neon_eds.Timer.Delta.{Deltas, insert, total}
use neon_eds.Timer.Tick.{count_down, expired, waiting, restart, expired-insert, waiting-insert}
use neon_eds.Timer.View.{deltas, deltas-frame, IsTimers, running, signed-frame, IsTimers-frame}
use neon_eds.Timer.Insert.{Inserted, insert_timer-Inserted}
use neon_eds.Timer.Start.{Inserted-IsTimers}

abbrev pub g : ℕ
g = g_timer_sentinel

-- The first timer, with no tick left, goes.
pub removed-IsTimers :
    (s : Timers) (x : ℕ) (ys : List ℕ) → IsTimers s (x ∷ ys) → IsTimers (remove_timer s x) ys
unfolding remove_timer
removed-IsTimers s x ys v = record {
  ring = remove-Ring true s.links g x [] ys v.ring;
  sentinel_last = v.sentinel_last;
  sentinel_signed = signed-frame s (remove_timer s x) refl g ∙ v.sentinel_signed;
  ticks_fit = v.ticks_fit;
  periods_fit = v.periods_fit;
  total_fits = omega (arith, v.total_fits);
  signed = λ a m. signed-frame s (remove_timer s x) refl a ∙ v.signed a (ground arith);
}

-- What the timers are after the first one expired, before its callback.
pub record Expired (s : Timers) (x : ℕ) (ys : List ℕ) (s' : Timers) : Type 0 where
  pub order : List ℕ
  pub valid : IsTimers s' order
  pub ticks :
      running s' order
      ≡ (if s.itick x == 0 then running s ys else insert x (s.itick x) (running s ys))
  pub length_le : length order ≤ suc (length ys)
  pub itick : s'.itick ≡ s.itick
  pub fn : s'.fn ≡ s.fn
  pub arg : s'.arg ≡ s.arg

pub length-deltas : (f : ℕ → ℕ) (xs : List ℕ) → length (deltas f xs) ≡ length xs
length-deltas f [] = refl
length-deltas f (x ∷ xs) = ap suc (length-deltas f xs)

length-insert : (n t : ℕ) (ds : Deltas) → length (insert n t ds) ≡ suc (length ds)
unfolding insert
length-insert n t [] = refl
length-insert n t ((a, d) ∷ ds) = ground (arith, length-insert n (t - d) ds)

-- The timers when a periodic timer is inserted again.
abbrev pub rearmed : Timers → ℕ → Timers
rearmed s x = record (remove_timer s x) {
  rtick = update (remove_timer s x).rtick x ((remove_timer s x).itick x);
}

-- The part of the loop's body before the callback.
abbrev pub again : ℕ → Timers → ℕ → Run Timers
again inner s x =
    if (remove_timer s x).itick x == 0
    then done (remove_timer s x)
    else insert_timer inner (rearmed s x) x

module _ (inner : ℕ) (s : Timers) (x : ℕ) (ys : List ℕ) (v : IsTimers s (x ∷ ys)) where
  again-once : s.itick x ≡ 0 → Expired s x ys (remove_timer s x)
  unfolding remove_timer
  again-once e = record {
    order = ys;
    valid = removed-IsTimers s x ys v;
    ticks = rw e refl;
    length_le = omega arith;
    itick = refl;
    fn = refl;
    arg = refl;
  }

  rearmed-IsTimers : IsTimers (rearmed s x) ys
  unfolding remove_timer
  rearmed-IsTimers =
      IsTimers-frame (remove_timer s x) (rearmed s x) ys (removed-IsTimers s x ys v) refl refl
        (λ a m. ground (arith, v.ring.distinct, ne_of_mem a x (g ∷ ys) m))
        (λ a. ground (arith, v.ticks_fit a, v.periods_fit x)) v.periods_fit

  new : x ∉ g ∷ ys
  new = ground (arith, v.ring.distinct)

  again-periodic :
      (s' : Timers) → s.itick x ≢ 0 → Inserted (rearmed s x) x [] ys s' → Expired s x ys s'
  unfolding remove_timer
  again-periodic s' ne i = record {
    order = i.zs;
    valid =
        Inserted-IsTimers (rearmed s x) x ys s' rearmed-IsTimers new
          (signed-frame s (rearmed s x) refl x ∙ v.signed x (ground arith)) i;
    ticks = rw (==_ne (s.itick x) 0 ne) ticks;
    length_le = omega (
      arith,
      length-deltas s'.rtick i.zs,
      ap length ticks,
      length-insert x (s.itick x) (running s ys),
      length-deltas s.rtick ys,
    );
    itick = i.itick;
    fn = i.fn;
    arg = i.arg;
  }
    where
      ticks : deltas s'.rtick i.zs ≡ insert x (s.itick x) (deltas s.rtick ys)
      ticks =
          i.ticks
          ∙ ap₂ (insert x) {x = (rearmed s x).rtick x} (ground arith) (
              deltas-frame (rearmed s x).rtick s.rtick ys
                (λ a m. ground (arith, v.ring.distinct, ne_of_mem a x ys m)))

  pub again-Expired :
      length ys < inner → (s' : Timers) × (again inner s x ≡ done s') × Expired s x ys s'
  unfolding remove_timer
  again-Expired h = elim (ℕ_discrete (s.itick x) 0) [
    | yes e ↦ (remove_timer s x, rw e refl, again-once e)
    | no ne ↦
        let valid = rearmed-IsTimers in
        let (s', run, i) =
          insert_timer-Inserted inner (rearmed s x) x ys valid.ring new valid.sentinel_last
            valid.ticks_fit h in
        (s', rw (==_ne (s.itick x) 0 ne) run, again-periodic s' ne i)
  ]

pub first-node : (s : Timers) (xs : List ℕ) → IsTimers s xs → ndlist_next s.links g ≡ front g xs
unfolding ndlist_next
first-node s xs v = next-front s.links g xs g v.ring.chain

pub first-signed :
    (s : Timers) (xs : List ℕ) → IsTimers s xs → n_is_timer_object s (front g xs) ≡ true
first-signed s [] v = v.sentinel_signed
first-signed s (x ∷ xs) v = v.signed x (ground arith)

-- Inserting the first timer again changes neither who expires nor, but for it, who waits.
module _ {s : Timers} {x : ℕ} {ys : List ℕ} {s' : Timers} (e : Expired s x ys s') where
  pub expired-again : expired (running s' e.order) ≡ expired (running s ys)
  expired-again = elim (ℕ_discrete (s.itick x) 0) [
    | yes z ↦ ap expired (e.ticks ∙ rw z refl)
    | no ne ↦
        ap expired (e.ticks ∙ rw (==_ne (s.itick x) 0 ne) refl)
        ∙ expired-insert x (s.itick x) (running s ys) (omega arith)
  ]

  pub waiting-again : waiting (running s' e.order) ≡ (
      if s.itick x == 0
      then waiting (running s ys)
      else insert x (s.itick x) (waiting (running s ys)))
  waiting-again = elim (ℕ_discrete (s.itick x) 0) [
    | yes z ↦ rw z (ap waiting (e.ticks ∙ rw z refl))
    | no ne ↦ rw (==_ne (s.itick x) 0 ne) (
        ap waiting (e.ticks ∙ rw (==_ne (s.itick x) 0 ne) refl)
        ∙ waiting-insert x (s.itick x) (running s ys) (omega arith))
  ]

-- The timers when no first timer is left without ticks.
pub record Settled (s : Timers) (xs : List ℕ) (s' : Timers) : Type 0 where
  pub order : List ℕ
  pub valid : IsTimers s' order
  pub ticks : running s' order ≡ restart s.itick (expired (running s xs)) (waiting (running s xs))
  pub itick : s'.itick ≡ s.itick

pub Settled-next :
    (s : Timers) (x : ℕ) (ys : List ℕ) (s' : Timers) (e : Expired s x ys s') (t : Timers)
    → s.rtick x ≡ 0
    → Settled s' e.order t
    → Settled s (x ∷ ys) t
unfolding expired waiting restart
Settled-next s x ys s' e t z i = record {
  order = i.order;
  valid = i.valid;
  ticks = rw z (
      i.ticks
      ∙ ap (λ (p : ℕ → ℕ). restart p (expired (running s' e.order)) (waiting (running s' e.order)))
          e.itick
      ∙ ap₂ (restart s.itick) (expired-again e) (waiting-again e));
  itick = i.itick ∙ e.itick;
}

pub Settled-stop :
    (s : Timers) (xs : List ℕ) → IsTimers s xs → s.rtick (front g xs) ≢ 0 → Settled s xs s
unfolding expired waiting restart
Settled-stop s [] v ne = record { order = []; valid = v; ticks = refl; itick = refl }
Settled-stop s (x ∷ xs) v ne = record {
  order = x ∷ xs;
  valid = v;
  ticks = rw (==_ne (s.rtick x) 0 ne) refl;
  itick = refl;
}

pub expired-cons :
    (s : Timers) (x : ℕ) (ys : List ℕ)
    → s.rtick x ≡ 0
    → expired (running s (x ∷ ys)) ≡ x ∷ expired (running s ys)
unfolding expired
expired-cons s x ys z = rw z refl

pub expired-none :
    (s : Timers) (xs : List ℕ) → s.rtick (front g xs) ≢ 0 → expired (running s xs) ≡ []
unfolding expired
expired-none s [] ne = refl
expired-none s (x ∷ xs) ne = rw (==_ne (s.rtick x) 0 ne) refl

-- The timers after the first one is counted down.
abbrev pub counted : Timers → ℕ → Timers
counted s x = record s { rtick = update s.rtick x (dec (s.rtick x)) }

module _ (s : Timers) (x : ℕ) (xs : List ℕ) (v : IsTimers s (x ∷ xs)) (p : 0 < s.rtick x) where
  pub running-counted : running (counted s x) (x ∷ xs) ≡ count_down (running s (x ∷ xs))
  unfolding count_down
  running-counted =
      ap₂ (λ (d : ℕ) (ds : Deltas). (x, d) ∷ ds) (ground (arith, v.ticks_fit x))
        (deltas-frame (counted s x).rtick s.rtick xs
          (λ a m. ground (arith, v.ring.distinct, ne_of_mem a x xs m)))

  pub counted-IsTimers : IsTimers (counted s x) (x ∷ xs)
  unfolding count_down
  counted-IsTimers = record {
    ring = v.ring;
    sentinel_last = ground (arith, v.ring.distinct, v.sentinel_last);
    sentinel_signed = signed-frame s (counted s x) refl g ∙ v.sentinel_signed;
    ticks_fit = λ a. ground (arith, v.ticks_fit a);
    periods_fit = v.periods_fit;
    total_fits =
        subst (λ ds. total ds < 2 ^ 32) (sym running-counted) (omega (arith, v.total_fits));
    signed = λ a m. signed-frame s (counted s x) refl a ∙ v.signed a m;
  }

pub length-expired : (ds : Deltas) → length (expired ds) ≤ length ds
unfolding expired
length-expired [] = omega arith
length-expired ((a, d) ∷ ds) = ground (arith, length-expired ds)
