-- ===== src/Timer/Remaining.antt =====
-- `ntimer_remaining` of source/timer.c.
use neon_eds.Common.{
  ℕ, zero, suc, ◌+◌, ◌<◌, ◌^◌, ◌≡◌, ◌∙◌, refl, ap, some, List, [], ◌∷◌, ◌++◌, ◌∉◌, has-append,
  arith, done, length,
}
use neon_eds.Base.Dlist.{Links, ndlist_prev}
use neon_eds.Base.Dlist.Chain.{Chain, Chain-split}
use neon_eds.Timer.{Timers, g_timer_sentinel, ntimer_is_running_i, ntimer_remaining, remaining_loop}
use neon_eds.Timer.Delta.{expiry, expiry-le-total}
use neon_eds.Timer.View.{deltas, IsTimers, running}
use neon_eds.Timer.Cancel.{mine, linked, unique}

-- The nodes that `prev` visits from `b` on, up to the sentinel.
abbrev Back : Links → ℕ → List ℕ → Type 0
Back h b [] = h.prev b ≡ g_timer_sentinel
Back h b (x ∷ xs) = (h.prev b ≡ x) × Back h x xs

abbrev onto : List ℕ → List ℕ → List ℕ
onto [] vs = vs
onto (x ∷ xs) vs = onto xs (x ∷ vs)

Chain-Back :
    (h : Links) (a : ℕ) (xs : List ℕ) (b : ℕ) (vs : List ℕ)
    → Chain h a xs b
    → ((x : ℕ) → h.prev x ≡ a → Back h x vs)
    → Back h b (onto xs vs)
Chain-Back h a [] b vs c from = from b c.1
Chain-Back h a (x ∷ xs) b vs c from = Chain-Back h x xs b (x ∷ vs) c.2 (λ y e. (e, from x c.1))

module _ (f : ℕ → ℕ) where
  abbrev sum : List ℕ → ℕ
  sum [] = 0
  sum (x ∷ xs) = f x + sum xs

  sum-onto : (xs vs : List ℕ) → sum (onto xs vs) ≡ sum xs + sum vs
  sum-onto [] vs = omega arith
  sum-onto (x ∷ xs) vs = omega (arith, sum-onto xs (x ∷ vs))

  expiry-sum :
      (xs : List ℕ) (n : ℕ) (ys : List ℕ)
      → n ∉ xs
      → expiry n (deltas f (xs ++ n ∷ ys)) ≡ some (sum xs + f n)
  unfolding expiry
  expiry-sum [] n ys o = ground arith
  expiry-sum (x ∷ xs) n ys o = ground (arith, expiry-sum xs n ys)

length-onto : (xs vs : List ℕ) → length (onto xs vs) ≡ length xs + length vs
length-onto [] vs = omega arith
length-onto (x ∷ xs) vs = omega (arith, length-onto xs (x ∷ vs))

onto-outside : (a : ℕ) (xs vs : List ℕ) → a ∉ xs → a ∉ vs → a ∉ onto xs vs
onto-outside a [] vs o o' = o'
onto-outside a (x ∷ xs) vs o o' = onto-outside a xs (x ∷ vs) (ground arith) (ground arith)

remaining_loop-sum :
    (fuel : ℕ) (s : Timers) (b : ℕ) (vs : List ℕ) (acc : ℕ)
    → Back s.links b vs
    → g_timer_sentinel ∉ vs
    → length vs < fuel
    → acc + (s.rtick b + sum s.rtick vs) < 2 ^ 32
    → remaining_loop fuel s b acc ≡ done (acc + (s.rtick b + sum s.rtick vs))
unfolding remaining_loop ndlist_prev
remaining_loop-sum zero s b vs acc c o h fit = absurd (omega arith)
remaining_loop-sum (suc fuel) s b [] acc c o h fit = ground arith
remaining_loop-sum (suc fuel) s b (x ∷ vs) acc c o h fit =
    ground (arith, remaining_loop-sum fuel s x vs (acc + s.rtick b) c.1)

-- The ticks reported for a running timer are those until it expires.
pub ntimer_remaining-expiry :
    (fuel : ℕ) (s : Timers) (xs : List ℕ) (n : ℕ) (ys : List ℕ)
    → IsTimers s (xs ++ n ∷ ys)
    → length xs < fuel
    → (t : ℕ) × (ntimer_remaining fuel s n ≡ done t)
      × (expiry n (running s (xs ++ n ∷ ys)) ≡ some t)
unfolding ntimer_remaining ntimer_is_running_i
ntimer_remaining-expiry fuel s xs n ys v h =
    let due = expiry-sum s.rtick xs n ys (unique s xs n ys v).1 in
    let fit = expiry-le-total n (sum s.rtick xs + s.rtick n) (running s (xs ++ n ∷ ys)) due in
    let chain = (Chain-split s.links g_timer_sentinel xs n ys g_timer_sentinel v.ring.chain).0 in
    let walk =
      remaining_loop-sum fuel s n (onto xs []) 0
        (Chain-Back s.links g_timer_sentinel xs n [] chain (λ x e. e))
        (onto-outside g_timer_sentinel xs []
          (ground (arith, v.ring.distinct.0, has-append g_timer_sentinel xs (n ∷ ys))) refl)
        (omega (arith, length-onto xs [])) (omega (arith, sum-onto s.rtick xs [], v.total_fits)) in
    (
      0 + (s.rtick n + sum s.rtick (onto xs [])),
      rw (mine s xs n ys v, linked s xs n ys v) walk,
      due ∙ ap some (omega (arith, sum-onto s.rtick xs [])),
    )
