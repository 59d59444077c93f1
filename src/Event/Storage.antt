-- ===== src/Event/Storage.antt =====
-- The pools of source/event.c, which `nevent_register_mem` keeps in the order of their size.
use neon_eds.Common.{
  ℕ, zero, suc, ◌+◌, ◌-◌, ◌<◌, ◌≤◌, ◌≡◌, inl, inr, Bool, true, ltb, leb, update, done, arith, refl,
  ap, update_self, update_ne, lt→ltb, Bool-cases, ◌∙◌, sym, trichotomy,
}
use native.Mathlib.Decide.{ℕ_discrete}
use neon_eds.Smp.Machine.{check-true}
use neon_eds.Event.{EventStorage, register_loop, nevent_register_mem}

module _ (mem_size : ℕ → ℕ) (is_mem_object : ℕ → Bool) (npools : ℕ) where
  abbrev pub IsOrdered : EventStorage → Type 0
  IsOrdered g = (i j : ℕ) → i ≤ j → j < g.pools → mem_size (g.mem i) ≤ mem_size (g.mem j)

  -- Where the loop of `nevent_register_mem` ends, and what it moves.
  record Placed (size n : ℕ) (pools : ℕ → ℕ) (placed : ℕ × (ℕ → ℕ)) : Type 0 where
    within : placed.0 ≤ n
    before : (i : ℕ) → i < placed.0 → placed.1 i ≡ pools i
    moved : (i : ℕ) → placed.0 ≤ i → i < n → placed.1 (suc i) ≡ pools i
    above : (i : ℕ) → n < i → placed.1 i ≡ pools i
    not_larger : 0 < placed.0 → mem_size (pools (placed.0 - 1)) ≤ size
    larger : (i : ℕ) → placed.0 ≤ i → i < n → size < mem_size (pools i)

  register_loop-Placed :
      (v : Bool) (size n : ℕ) (pools : ℕ → ℕ)
      → Placed size n pools (register_loop mem_size is_mem_object npools v size n pools)
  unfolding register_loop
  register_loop-Placed v size zero pools = record {
    within = omega arith;
    before = λ i h. refl;
    moved = λ i h k. absurd (omega arith);
    above = λ i h. refl;
    not_larger = λ h. absurd (omega arith);
    larger = λ i h k. absurd (omega arith);
  }
  register_loop-Placed v size (suc cnt) pools =
      let pools₁ = update pools (suc cnt) (pools cnt) in
      let at_cnt : pools₁ (suc cnt) ≡ pools cnt = update_self pools (suc cnt) (pools cnt) in
      let other = update_ne pools (suc cnt) (pools cnt) in
      elim (Bool-cases (leb (mem_size (pools cnt)) size)) [
        | inl e ↦
            rw (at_cnt, e)
              (record {
                within = omega arith;
                before = λ i h. other i (omega arith);
                moved = λ i h k. absurd (omega arith);
                above = λ i h. other i (omega arith);
                not_larger = λ h. ground arith;
                larger = λ i h k. absurd (omega arith);
              })
        | inr e ↦
            let p = register_loop-Placed v size cnt pools₁ in
            rw (at_cnt, e)
              (record {
                within = omega (arith, p.within);
                before = λ i h. p.before i h ∙ other i (omega (arith, p.within));
                moved = λ i h k. elim (ℕ_discrete i cnt) [
                  | yes at ↦
                      ap
                        (λ (k : ℕ).
                          (register_loop mem_size is_mem_object npools v size cnt pools₁).1 (suc k))
                        at
                      ∙ p.above (suc cnt) (omega arith)
                      ∙ at_cnt
                      ∙ ap pools (sym at)
                  | no ne ↦ p.moved i h (omega arith) ∙ other i (omega arith)
                ];
                above = λ i h. p.above i (omega arith) ∙ other i (omega arith);
                not_larger = λ h.
                    rw
                      (← other
                        ((register_loop mem_size is_mem_object npools v size cnt pools₁).0 - 1)
                        (omega (arith, p.within)))
                      (p.not_larger h);
                larger = λ i h k. elim (ℕ_discrete i cnt) [
                  | yes at ↦ rw at (ground arith)
                  | no ne ↦ rw (← other i (omega arith)) (p.larger i h (omega arith))
                ];
              })
      ]

  -- `k` is the place of the new pool.
  pub record Inserted (g : EventStorage) (mem k : ℕ) (g' : EventStorage) : Type 0 where
    pub place : k ≤ g.pools
    pub count : g'.pools ≡ g.pools + 1
    pub here : g'.mem k ≡ mem
    pub before : (i : ℕ) → i < k → g'.mem i ≡ g.mem i
    pub after : (i : ℕ) → k ≤ i → i < g.pools → g'.mem (suc i) ≡ g.mem i

  Inserted-IsOrdered :
      (g g' : EventStorage) (mem k : ℕ)
      → IsOrdered g
      → Inserted g mem k g'
      → ((i : ℕ) → i < k → mem_size (g.mem i) ≤ mem_size mem)
      → ((i : ℕ) → k ≤ i → i < g.pools → mem_size mem ≤ mem_size (g.mem i))
      → IsOrdered g'
  Inserted-IsOrdered g g' mem k ordered p small large zero zero h l = omega arith
  Inserted-IsOrdered g g' mem k ordered p small large (suc i) zero h l = absurd (omega (arith, h))
  Inserted-IsOrdered g g' mem k ordered p small large zero (suc j) h l = elim (ℕ_discrete k 0) [
    | yes z ↦
        rw (← z, p.here, p.after j (omega (arith, z)) (omega (arith, l, p.count)))
          (large j (omega (arith, z)) (omega (arith, l, p.count)))
    | no nz ↦ elim (trichotomy (suc j) k) [
      | inl lt ↦
          rw (p.before 0 (omega (arith, nz)), p.before (suc j) lt)
            (ordered 0 (suc j) h (omega (arith, lt, p.place)))
      | inr (inl at) ↦ rw (p.before 0 (omega (arith, nz)), at, p.here) (small 0 (omega (arith, nz)))
      | inr (inr gt) ↦
          rw
            (
              p.before 0 (omega (arith, nz)),
              p.after j (omega (arith, gt)) (omega (arith, l, p.count)),
            )
            (ordered 0 j (omega arith) (omega (arith, l, p.count)))
    ]
  ]
  Inserted-IsOrdered g g' mem k ordered p small large (suc i) (suc j) h l =
      elim (trichotomy (suc j) k) [
        | inl lt ↦
            rw (p.before (suc i) (omega (arith, lt, h)), p.before (suc j) lt)
              (ordered (suc i) (suc j) h (omega (arith, lt, p.place)))
        | inr (inl at) ↦ elim (trichotomy (suc i) k) [
          | inl lt ↦ rw (p.before (suc i) lt, at, p.here) (small (suc i) lt)
          | inr (inl same) ↦ rw (same, at) (omega arith)
          | inr (inr gt) ↦ absurd (omega (arith, gt, at, h))
        ]
        | inr (inr gt) ↦
            rw (p.after j (omega (arith, gt)) (omega (arith, l, p.count)))
              (elim (trichotomy (suc i) k) [
                | inl lt ↦
                    rw (p.before (suc i) lt)
                      (ordered (suc i) j (omega (arith, lt, gt)) (omega (arith, l, p.count)))
                | inr (inl same) ↦
                    rw (same, p.here) (large j (omega (arith, gt)) (omega (arith, l, p.count)))
                | inr (inr above) ↦
                    rw (p.after i (omega (arith, above)) (omega (arith, h, l, p.count)))
                      (ordered i j (omega (arith, h)) (omega (arith, l, p.count)))
              ])
      ]

  -- Where there is room for another pool, `nevent_register_mem` inserts the given one among the others,
  -- which keep their order, and the pools that were in the order of their size still are.
  pub nevent_register_mem-IsOrdered :
      (v : Bool) (g : EventStorage) (mem : ℕ)
      → IsOrdered g
      → is_mem_object mem ≡ true
      → g.pools < npools
      → (g' : EventStorage) × (k : ℕ) × (nevent_register_mem mem_size is_mem_object npools v g mem
          ≡ done g')
        × Inserted g mem k g'
        × IsOrdered g'
  unfolding nevent_register_mem
  nevent_register_mem-IsOrdered v g mem ordered object room =
      let placed = register_loop mem_size is_mem_object npools v (mem_size mem) g.pools g.mem in
      let p = register_loop-Placed v (mem_size mem) g.pools g.mem in
      let g' : EventStorage = record { mem = update placed.1 placed.0 mem; pools = g.pools + 1 } in
      let other = update_ne placed.1 placed.0 mem in
      let fits : ltb g.pools npools ≡ true = lt→ltb g.pools npools room in
      let inserted : Inserted g mem placed.0 g' = record {
        place = p.within;
        count = refl;
        here = update_self placed.1 placed.0 mem;
        before = λ i h. other i (omega (arith, h)) ∙ p.before i h;
        after = λ i h l. other (suc i) (omega (arith, h)) ∙ p.moved i h l;
      } in
      (
        g',
        placed.0,
        rw (check-true v (is_mem_object mem) object, fits, check-true v true refl) refl,
        inserted,
        Inserted-IsOrdered g g' mem placed.0 ordered inserted
            (λ i h. omega (
              arith,
              ordered i (placed.0 - 1) (omega (arith, h)) (omega (arith, h, p.within)),
              p.not_larger (omega (arith, h)),
            ))
            (λ i h l. omega (arith, p.larger i h l)),
      )
