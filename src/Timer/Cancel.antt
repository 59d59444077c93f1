-- ===== src/Timer/Cancel.antt =====
-- `ntimer_cancel_i` of source/timer.c.
use neon_eds.Common.{
  ℕ, ◌<◌, ◌^◌, ◌≡◌, ◌≢◌, ◌∙◌, refl, sym, ap, subst, List, [], ◌∷◌, ◌++◌, ◌∉◌, Distinct, true, false,
  arith, update, done, add32, ne_of_mem, has-append, Distinct-middle, Distinct-right, ==_ne,
}
use neon_eds.Base.Dlist.{ndlist_is_empty, ndlist_next, ndlist_remove}
use neon_eds.Base.Dlist.Chain.{Chain-split}
use neon_eds.Base.Dlist.Ring.{front, next-front, is_empty-node}
use neon_eds.Base.Dlist.Remove.{remove-Ring, remove-is_empty}
use neon_eds.Timer.{
  Timers, g_timer_sentinel, n_is_timer_object, ntimer_is_running_i, ntimer_cancel_i, remove_timer,
}
use neon_eds.Timer.Delta.{remove, add_to_first, total, total-remove, expiry, expiry-remove}
use neon_eds.Timer.View.{deltas, deltas-frame, IsTimers, running, signed-frame}

-- The ticks of the removed timer go to its successor, if that is a timer.
abbrev inherit : (ℕ → ℕ) → ℕ → List ℕ → ℕ → ℕ
inherit f n [] = f
inherit f n (y ∷ ys) = update f y (add32 (f y) (f n))

deltas-remove :
    (f : ℕ → ℕ) (n : ℕ) (xs ys : List ℕ)
    → Distinct (xs ++ n ∷ ys)
    → total (deltas f (xs ++ n ∷ ys)) < 2 ^ 32
    → deltas (inherit f n ys) (xs ++ ys) ≡ remove n (deltas f (xs ++ n ∷ ys))
unfolding remove add_to_first
deltas-remove f n [] [] d fit = ground arith
deltas-remove f n [] (y ∷ ys) d fit =
    ground
      (arith, deltas-frame (inherit f n (y ∷ ys)) f ys (λ a m. ground (arith, ne_of_mem a y ys m)))
deltas-remove f n (x ∷ xs) ys d fit =
    let ih = deltas-remove f n xs ys d.1 (omega arith) in
    ground (arith, ih, has-append x xs (n ∷ ys), same ys)
  where
    same : (ys : List ℕ) → x ∉ xs ++ n ∷ ys → inherit f n ys x ≡ f x
    same [] o = refl
    same (y ∷ ys) o = ground (arith, has-append x xs (n ∷ y ∷ ys))

-- What a cancelled timer leaves.
pub record Cancelled (s : Timers) (xs : List ℕ) (n : ℕ) (ys : List ℕ) (s' : Timers) : Type 0 where
  pub valid : IsTimers s' (xs ++ ys)
  pub ticks : running s' (xs ++ ys) ≡ remove n (running s (xs ++ n ∷ ys))
  pub others :
      (m : ℕ) → m ≢ n → expiry m (running s' (xs ++ ys)) ≡ expiry m (running s (xs ++ n ∷ ys))
  pub stopped : ndlist_is_empty s'.links n ≡ true
  pub signature : s'.signature ≡ s.signature
  pub periods : s'.itick ≡ s.itick
  pub callbacks : s'.fn ≡ s.fn
  pub arguments : s'.arg ≡ s.arg

abbrev left_by : Timers → ℕ → List ℕ → Timers
left_by s n ys = record s { rtick = inherit s.rtick n ys; links = ndlist_remove true s.links n }

module _ (s : Timers) (xs : List ℕ) (n : ℕ) (ys : List ℕ) (v : IsTimers s (xs ++ n ∷ ys)) where
  pub unique : Distinct (xs ++ ys) × (n ∉ xs) × (n ∉ ys)
  unique = Distinct-middle xs n ys v.ring.distinct.1

  pub mine : n_is_timer_object s n ≡ true
  mine = v.signed n (ground (arith, has-append n xs (n ∷ ys)))

  not_sentinel : n ≢ g_timer_sentinel
  not_sentinel = ground (arith, v.ring.distinct.0, has-append g_timer_sentinel xs (n ∷ ys))

  pub linked : ndlist_is_empty s.links n ≡ false
  linked =
      is_empty-node s.links g_timer_sentinel xs n ys g_timer_sentinel v.ring.chain
        (Distinct-right xs (n ∷ ys) v.ring.distinct.1) not_sentinel

  ticks-left : deltas (inherit s.rtick n ys) (xs ++ ys) ≡ remove n (running s (xs ++ n ∷ ys))
  ticks-left = deltas-remove s.rtick n xs ys v.ring.distinct.1 v.total_fits

  outside : (a : ℕ) → a ∉ ys → inherit s.rtick n ys a ≡ s.rtick a
  outside = go ys
    where
      go : (ys : List ℕ) (a : ℕ) → a ∉ ys → inherit s.rtick n ys a ≡ s.rtick a
      go [] a o = refl
      go (y ∷ ys) a o = ground arith

  fits : (a : ℕ) → inherit s.rtick n ys a < 2 ^ 32
  fits = go ys
    where
      go : (ys : List ℕ) (a : ℕ) → inherit s.rtick n ys a < 2 ^ 32
      go [] a = v.ticks_fit a
      go (y ∷ ys) a = ground (arith, v.ticks_fit a)

  left_by-Cancelled : Cancelled s xs n ys (left_by s n ys)
  left_by-Cancelled = record {
    valid = record {
      ring = remove-Ring true s.links g_timer_sentinel n xs ys v.ring;
      sentinel_last =
          outside g_timer_sentinel
            (ground (arith, v.ring.distinct.0, has-append g_timer_sentinel xs (n ∷ ys)))
          ∙ v.sentinel_last;
      sentinel_signed = signed-frame s (left_by s n ys) refl g_timer_sentinel ∙ v.sentinel_signed;
      ticks_fit = fits;
      periods_fit = v.periods_fit;
      total_fits =
          subst (λ ds. total ds < 2 ^ 32) (sym ticks-left)
            (omega (arith, total-remove n (running s (xs ++ n ∷ ys)), v.total_fits));
      signed = λ a m.
          signed-frame s (left_by s n ys) refl a
          ∙ v.signed a (ground (arith, has-append a xs ys, has-append a xs (n ∷ ys)));
    };
    ticks = ticks-left;
    others = λ m ne. ap (expiry m) ticks-left ∙ expiry-remove n m (running s (xs ++ n ∷ ys)) ne;
    stopped = remove-is_empty true s.links n;
    signature = refl;
    periods = refl;
    callbacks = refl;
    arguments = refl;
  }

  successor : ndlist_next s.links n ≡ front g_timer_sentinel ys
  unfolding ndlist_next
  successor =
      next-front s.links n ys g_timer_sentinel
        (Chain-split s.links g_timer_sentinel xs n ys g_timer_sentinel v.ring.chain).1

cancel-run :
    (s : Timers) (xs : List ℕ) (n : ℕ) (ys : List ℕ) (v : IsTimers s (xs ++ n ∷ ys))
    → ntimer_cancel_i s n ≡ done (left_by s n ys)
unfolding ntimer_cancel_i ntimer_is_running_i remove_timer
cancel-run s xs n [] v = rw (mine s xs n [] v, linked s xs n [] v, successor s xs n [] v)
cancel-run s xs n (y ∷ ys) v =
    rw (mine s xs n (y ∷ ys) v, linked s xs n (y ∷ ys) v, successor s xs n (y ∷ ys) v)
      (rw (
        ==_ne g_timer_sentinel y
          (ground (arith, v.ring.distinct.0, has-append g_timer_sentinel xs (n ∷ y ∷ ys)))))

-- Cancelling a running timer stops it and moves no other timer.
pub ntimer_cancel_i-Cancelled :
    (s : Timers) (xs : List ℕ) (n : ℕ) (ys : List ℕ)
    → IsTimers s (xs ++ n ∷ ys)
    → (s' : Timers) × (ntimer_cancel_i s n ≡ done s') × Cancelled s xs n ys s'
ntimer_cancel_i-Cancelled s xs n ys v =
    (left_by s n ys, cancel-run s xs n ys v, left_by-Cancelled s xs n ys v)

-- Cancelling a timer that does not run changes nothing.
pub ntimer_cancel_i-idle :
    (s : Timers) (n : ℕ)
    → n_is_timer_object s n ≡ true
    → ndlist_is_empty s.links n ≡ true
    → ntimer_cancel_i s n ≡ done s
unfolding ntimer_cancel_i ntimer_is_running_i
ntimer_cancel_i-idle s n signed idle = rw (signed, idle) refl
