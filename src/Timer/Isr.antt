-- ===== src/Timer/Isr.antt =====
-- `ncore_timer_isr` of source/timer.c, with callbacks that leave the timers alone.
use neon_eds.Common.{
  ℕ, zero, suc, ◌<◌, ◌≤◌, ◌≡◌, ◌≢◌, ◌∙◌, refl, sym, ap, ap₂, subst, List, [], ◌∷◌, arith, Run, done,
  length, ==_ne,
}
use native.Mathlib.Decide.{ℕ_discrete}
use neon_eds.Base.Dlist.Ring.{front, is_empty-Ring}
use neon_eds.Timer.{Timers, expire, isr_loop, ncore_timer_isr}
use neon_eds.Timer.Delta.{Deltas}
use neon_eds.Timer.Tick.{count_down, expired, waiting, restart, tick, IsPending, IsPending-tick}
use neon_eds.Timer.View.{IsTimers, running}
use neon_eds.Timer.Expire.{
  g, Expired, Settled, again-Expired, first-node, first-signed, expired-again, Settled-next,
  Settled-stop, expired-cons, expired-none, counted, running-counted, counted-IsTimers,
  length-expired, length-deltas,
}

-- The callbacks of the timers `xs`, in order, where each changes the world by `effect`.
abbrev pub fire :
    {World : Type 0} → (ℕ → ℕ → World → World) → (fn arg : ℕ → ℕ) → List ℕ → World → World
fire effect fn arg [] w = w
fire effect fn arg (x ∷ xs) w = fire effect fn arg xs (effect (fn x) (arg x) w)

module _ {World : Type 0} (call : ℕ → ℕ → Timers → World → Run (Timers × World))
    (effect : ℕ → ℕ → World → World)
    (quiet : (f a : ℕ) (t : Timers) (w : World) → call f a t w ≡ done (t, effect f a w)) where
  expire-Expired :
      (inner : ℕ) (s : Timers) (w : World) (x : ℕ) (ys : List ℕ)
      → IsTimers s (x ∷ ys)
      → length ys < inner
      → (s' : Timers) × (e : Expired s x ys s') × (expire call inner s w x
          ≡ done
              (record { timers = s'; world = effect (s.fn x) (s.arg x) w; next = front g e.order }))
  unfolding expire
  expire-Expired inner s w x ys v h =
      let (s', run, e) = again-Expired inner s x ys v h in
      (
        s',
        e,
        rw (run, first-node s' e.order e.valid, first-signed s' e.order e.valid, quiet)
            (ap₂
              (λ (f a : ℕ → ℕ).
                done (record { timers = s'; world = effect (f x) (a x) w; next = front g e.order }))
              e.fn e.arg),
      )

  loop-next :
      (fuel inner : ℕ) (s : Timers) (w : World) (x : ℕ) (s' : Timers) (w' : World) (y : ℕ)
      → s.rtick x ≡ 0
      → expire call inner s w x ≡ done (record { timers = s'; world = w'; next = y })
      → isr_loop call (suc fuel) inner s w x ≡ isr_loop call fuel inner s' w' y
  unfolding isr_loop
  loop-next fuel inner s w x s' w' y z run = rw (z, run) refl

  fire-next :
      (s : Timers) (x : ℕ) (ys : List ℕ) (s' : Timers) (e : Expired s x ys s') (w : World)
      → s.rtick x ≡ 0
      → fire effect s'.fn s'.arg (expired (running s' e.order)) (effect (s.fn x) (s.arg x) w)
        ≡ fire effect s.fn s.arg (expired (running s (x ∷ ys))) w
  fire-next s x ys s' e w z =
      rw (e.fn, e.arg, expired-again e)
        (sym (ap (λ l. fire effect s.fn s.arg l w) (expired-cons s x ys z)))

  isr_loop-stop :
      (fuel inner : ℕ) (s : Timers) (w : World) (xs : List ℕ)
      → IsTimers s xs
      → s.rtick (front g xs) ≢ 0
      → (s' : Timers) × (isr_loop call (suc fuel) inner s w (front g xs)
          ≡ done (s', fire effect s.fn s.arg (expired (running s xs)) w))
        × Settled s xs s'
  unfolding isr_loop
  isr_loop-stop fuel inner s w xs v ne =
      (s, rw (==_ne (s.rtick (front g xs)) 0 ne, expired-none s xs ne) refl, Settled-stop s xs v ne)

  isr_loop-Settled :
      (fuel inner : ℕ) (s : Timers) (w : World) (xs : List ℕ)
      → IsTimers s xs
      → length (expired (running s xs)) < fuel
      → length xs ≤ inner
      → (s' : Timers) × (isr_loop call fuel inner s w (front g xs)
          ≡ done (s', fire effect s.fn s.arg (expired (running s xs)) w))
        × Settled s xs s'
  unfolding isr_loop
  isr_loop-Settled zero inner s w xs v h k = absurd (omega arith)
  isr_loop-Settled (suc fuel) inner s w [] v h k =
      isr_loop-stop fuel inner s w [] v (omega (arith, v.sentinel_last))
  isr_loop-Settled (suc fuel) inner s w (x ∷ ys) v h k = elim (ℕ_discrete (s.rtick x) 0) [
    | yes z ↦
        let (s', e, run) = expire-Expired inner s w x ys v (omega arith) in
        let (t, run', i) =
          isr_loop-Settled fuel inner s' (effect (s.fn x) (s.arg x) w) e.order e.valid
            (omega (arith, ap length (expired-cons s x ys z), ap length (expired-again e)))
            (omega (arith, e.length_le)) in
        (
          t,
          loop-next fuel inner s w x s' (effect (s.fn x) (s.arg x) w) (front g e.order) z run
              ∙ run'
              ∙ ap (λ (u : World). done (t, u)) (fire-next s x ys s' e w z),
          Settled-next s x ys s' e t z i,
        )
    | no ne ↦ isr_loop-stop fuel inner s w (x ∷ ys) v ne
  ]

  isr-run :
      (fuel inner : ℕ) (s : Timers) (w : World) (x : ℕ) (xs : List ℕ) (r : Run (Timers × World))
      → IsTimers s (x ∷ xs)
      → isr_loop call fuel inner (counted s x) w x ≡ r
      → ncore_timer_isr call fuel inner s w ≡ r
  unfolding ncore_timer_isr
  isr-run fuel inner s w x xs r v e =
      rw
        (
          is_empty-Ring s.links g (x ∷ xs) v.ring,
          first-node s (x ∷ xs) v,
          v.signed x (ground arith),
        )
        e

  isr-tick :
      (fuel inner : ℕ) (s : Timers) (w : World) (x : ℕ) (xs : List ℕ)
      → IsTimers s (x ∷ xs)
      → 0 < s.rtick x
      → suc (length xs) < fuel
      → suc (length xs) ≤ inner
      → (s' : Timers) × (ncore_timer_isr call fuel inner s w
          ≡ done (s', fire effect s.fn s.arg (tick s.itick (running s (x ∷ xs))).0 w))
        × (i : Settled (counted s x) (x ∷ xs) s') × (running s' i.order
            ≡ (tick s.itick (running s (x ∷ xs))).1)
  unfolding tick
  isr-tick fuel inner s w x xs v p h k =
      let e = running-counted s x xs v p in
      let (t, run, i) =
        isr_loop-Settled fuel inner (counted s x) w (x ∷ xs) (counted-IsTimers s x xs v p)
          (omega (
            arith,
            length-expired (running (counted s x) (x ∷ xs)),
            length-deltas (counted s x).rtick (x ∷ xs),
          ))
          k in
      (
        t,
        isr-run fuel inner s w x xs _ v run
            ∙ ap (λ (ds : Deltas). done (t, fire effect s.fn s.arg (expired ds) w)) e,
        i,
        i.ticks ∙ ap (λ (ds : Deltas). restart s.itick (expired ds) (waiting ds)) e,
      )

  -- One interrupt calls back exactly the timers that had one tick left, in the order of the list, and
  -- leaves the timers as the abstract tick does. The rounds needed are at most one more than the
  -- timers that expire.
  pub ncore_timer_isr-tick :
      (fuel inner : ℕ) (s : Timers) (w : World) (xs : List ℕ)
      → IsTimers s xs
      → IsPending (running s xs)
      → length xs < fuel
      → length xs ≤ inner
      → let (due, left) = tick s.itick (running s xs) in
        (s' : Timers) × (order : List ℕ) × (ncore_timer_isr call fuel inner s w
          ≡ done (s', fire effect s.fn s.arg due w))
        × IsTimers s' order
        × (running s' order ≡ left)
        × IsPending (running s' order)
        × (s'.itick ≡ s.itick)
  unfolding ncore_timer_isr tick count_down expired waiting restart
  ncore_timer_isr-tick fuel inner s w [] v p h k =
      (s, [], rw (is_empty-Ring s.links g [] v.ring) refl, v, refl, tt, refl)
  ncore_timer_isr-tick fuel inner s w (x ∷ xs) v p h k =
      let (t, run, i, ticks) = isr-tick fuel inner s w x xs v p h k in
      (
        t,
        i.order,
        run,
        i.valid,
        ticks,
        subst IsPending (sym ticks) (IsPending-tick s.itick (running s (x ∷ xs))),
        i.itick,
      )
