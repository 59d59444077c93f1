-- ===== src/Timer/Insert.antt =====
-- `insert_timer` of source/timer.c implements insertion into the list of deltas.
use neon_eds.Common.{
  ℕ, zero, suc, ◌-◌, ◌<◌, ◌≤◌, ◌^◌, ◌≡◌, ◌∙◌, refl, ap₂, List, [], ◌∷◌, ◌++◌, ◌∉◌, false,
  has-append, arith, ◌==◌, update, Run, done, ◌>>=◌, length, append_assoc, u32_max, sub32, lt→ltb,
  le→ltb, ne_of_mem, Distinct-middle,
}
use native.Mathlib.Decide.{dec_lt}
use neon_eds.Base.Dlist.{Links, ndlist_next}
use neon_eds.Base.Dlist.Chain.{Chain, Chain-split}
use neon_eds.Base.Dlist.Ring.{Ring, front, next-front}
use neon_eds.Base.Dlist.Insert.{add_before-Ring}
use neon_eds.Timer.{Timers, g_timer_sentinel, insert_loop, insert_here, insert_timer}
use neon_eds.Timer.Delta.{Deltas, insert}
use neon_eds.Timer.View.{deltas, deltas-frame}

-- What an insertion of `n` between the timers `xs` and `ys` leaves: `zs` takes the place of `ys`.
pub record Inserted (s : Timers) (n : ℕ) (xs ys : List ℕ) (s' : Timers) : Type 0 where
  pub zs : List ℕ
  pub ring : Ring s'.links g_timer_sentinel (xs ++ zs)
  pub ticks : deltas s'.rtick zs ≡ insert n (s.rtick n) (deltas s.rtick ys)
  pub same : (a : ℕ) → a ∉ n ∷ ys → s'.rtick a ≡ s.rtick a
  pub fit : (a : ℕ) → s'.rtick a < 2 ^ 32
  pub signature : s'.signature ≡ s.signature
  pub itick : s'.itick ≡ s.itick
  pub fn : s'.fn ≡ s.fn
  pub arg : s'.arg ≡ s.arg

-- The loop and what follows it.
abbrev from_loop : Run (record { timers : Timers; current : ℕ }) → ℕ → Run Timers
from_loop r n = r >>= λ stop. done (insert_here stop.timers n stop.current)

abbrev g : ℕ
g = g_timer_sentinel

record Ready (s : Timers) (n : ℕ) (xs ys : List ℕ) : Type 0 where
  ring : Ring s.links g (xs ++ ys)
  new : n ∉ g ∷ (xs ++ ys)
  last : s.rtick g ≡ u32_max
  fit : (a : ℕ) → s.rtick a < 2 ^ 32

insert_here-end :
    (s : Timers) (n : ℕ) (xs : List ℕ) → Ready s n xs [] → Inserted s n xs [] (insert_here s n g)
unfolding insert_here insert
insert_here-end s n xs r = record {
  zs = n ∷ [];
  ring = add_before-Ring s.links g n xs [] r.ring r.new;
  ticks = refl;
  same = λ a o. refl;
  fit = r.fit;
  signature = refl;
  itick = refl;
  fn = refl;
  arg = refl;
}

middle-ticks :
    (f : ℕ → ℕ) (n y : ℕ) (ys : List ℕ)
    → n ∉ y ∷ ys
    → y ∉ ys
    → f n ≤ f y
    → f y < 2 ^ 32
    → deltas (update f y (sub32 (f y) (f n))) (n ∷ y ∷ ys) ≡ insert n (f n) (deltas f (y ∷ ys))
unfolding insert
middle-ticks f n y ys new own le fit =
    let tail =
      deltas-frame (update f y (sub32 (f y) (f n))) f ys
        (λ a m. ground (arith, ne_of_mem a y ys m)) in
    ground (arith, tail)

insert_here-middle :
    (s : Timers) (n : ℕ) (xs : List ℕ) (y : ℕ) (ys : List ℕ)
    → Ready s n xs (y ∷ ys)
    → s.rtick n ≤ s.rtick y
    → Inserted s n xs (y ∷ ys) (insert_here s n y)
unfolding insert_here
insert_here-middle s n xs y ys r le =
    let distinct = Distinct-middle (g ∷ xs) y ys r.ring.distinct in
    let ne : (g == y) ≡ false = ground (arith, has-append g xs (y ∷ ys)) in
    let new : n ∉ y ∷ ys = ground (arith, has-append n xs (y ∷ ys)) in
    let ring = add_before-Ring s.links g n xs (y ∷ ys) r.ring r.new in
    rw ne record {
      zs = n ∷ y ∷ ys;
      ring = ring;
      ticks = middle-ticks s.rtick n y ys new distinct.2 le (r.fit y);
      same = λ a o. ground arith;
      fit = λ a. ground (arith, r.fit a);
      signature = refl;
      itick = refl;
      fn = refl;
      arg = refl;
    }

-- One round of the loop.
abbrev shorter : Timers → ℕ → ℕ → Timers
shorter s n y = record s { rtick = update s.rtick n (sub32 (s.rtick n) (s.rtick y)) }

next-node :
    (h : Links) (a : ℕ) (xs : List ℕ) (y : ℕ) (ys : List ℕ)
    → Chain h a (xs ++ y ∷ ys) g
    → ndlist_next h y ≡ front g ys
unfolding ndlist_next
next-node h a xs y ys c = next-front h y ys g (Chain-split h a xs y ys g c).1

module _ (s : Timers) (n : ℕ) (xs : List ℕ) (y : ℕ) (ys : List ℕ) (r : Ready s n xs (y ∷ ys)) where
  Ready-next : Ready (shorter s n y) n (xs ++ y ∷ []) ys
  Ready-next = record {
    ring = rw append_assoc r.ring;
    new = rw append_assoc r.new;
    last = ground (arith, r.last, r.new);
    fit = λ a. ground (arith, r.fit a);
  }

  module _ (s' : Timers) (lt : s.rtick y < s.rtick n)
      (i : Inserted (shorter s n y) n (xs ++ y ∷ []) ys s') where
    ticks-next : deltas s'.rtick (y ∷ i.zs) ≡ insert n (s.rtick n) (deltas s.rtick (y ∷ ys))
    unfolding insert
    ticks-next =
        let distinct = Distinct-middle (g ∷ xs) y ys r.ring.distinct in
        let new : n ∉ y ∷ ys = ground (arith, r.new, has-append n xs (y ∷ ys)) in
        let here : s'.rtick y ≡ s.rtick y = ground (arith, i.same y) in
        let rest : deltas s'.rtick i.zs ≡ insert n (s.rtick n - s.rtick y) (deltas s.rtick ys) =
          i.ticks
          ∙ ap₂ (insert n) {x = (shorter s n y).rtick n} (ground (arith, r.fit n)) (
              deltas-frame (shorter s n y).rtick s.rtick ys
                (λ a m. ground (arith, ne_of_mem a n ys m))) in
        rw (lt→ltb (s.rtick y) (s.rtick n) lt)
          (ap₂ (λ (d : ℕ) (ds : Deltas). (y, d) ∷ ds) here rest)

    Inserted-next : Inserted s n xs (y ∷ ys) s'
    Inserted-next = record {
      zs = y ∷ i.zs;
      ring = rw append_assoc at i.ring;
      ticks = ticks-next;
      same = λ a o. ground (arith, i.same a);
      fit = i.fit;
      signature = i.signature;
      itick = i.itick;
      fn = i.fn;
      arg = i.arg;
    }

insert_loop-Inserted :
    (fuel : ℕ) (s : Timers) (n : ℕ) (xs ys : List ℕ)
    → Ready s n xs ys
    → length ys < fuel
    → (s' : Timers) × (from_loop (insert_loop fuel s n (front g ys)) n ≡ done s')
      × Inserted s n xs ys s'
unfolding insert_loop
insert_loop-Inserted zero s n xs ys r h = absurd (omega arith)
insert_loop-Inserted (suc fuel) s n xs [] r h = (
  insert_here s n g,
  rw (le→ltb (s.rtick g) (s.rtick n) (omega (arith, r.last, r.fit n))),
  insert_here-end s n xs r,
)
insert_loop-Inserted (suc fuel) s n xs (y ∷ ys) r h = elim (dec_lt (s.rtick y) (s.rtick n)) [
  | yes p ↦
      let s₁ = record s { rtick = update s.rtick n (sub32 (s.rtick n) (s.rtick y)) } in
      let (s', run, i) =
        insert_loop-Inserted fuel s₁ n (xs ++ y ∷ []) ys (Ready-next s n xs y ys r) (omega arith) in
      (
        s',
        rw (lt→ltb (s.rtick y) (s.rtick n) p, next-node s.links g xs y ys r.ring.chain) run,
        Inserted-next s n xs y ys r s' p i,
      )
  | no p ↦ (
    insert_here s n y,
    rw (le→ltb (s.rtick y) (s.rtick n) (omega arith)),
    insert_here-middle s n xs y ys r (omega arith),
  )
]

-- `insert_timer` puts a timer that does not run among those that do, and needs no more rounds than
-- there are timers.
pub insert_timer-Inserted :
    (fuel : ℕ) (s : Timers) (n : ℕ) (xs : List ℕ)
    → Ring s.links g xs
    → n ∉ g ∷ xs
    → s.rtick g ≡ u32_max
    → ((a : ℕ) → s.rtick a < 2 ^ 32)
    → length xs < fuel
    → (s' : Timers) × (insert_timer fuel s n ≡ done s') × Inserted s n [] xs s'
unfolding insert_timer ndlist_next
insert_timer-Inserted fuel s n xs ring new last fit h =
    let (s', run, i) =
      insert_loop-Inserted fuel s n [] xs
        (record { ring = ring; new = new; last = last; fit = fit }) h in
    (s', rw (first-node s.links xs ring) run, i)
  where
    first-node : (h : Links) (xs : List ℕ) → Ring h g xs → ndlist_next h g ≡ front g xs
    first-node h xs r = next-front h g xs g r.chain
