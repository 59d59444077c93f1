-- ===== src/Event/Find.antt =====
-- The choice of a pool for an event of source/event.c, and the end of a pool's registration.
use neon_eds.Common.{
  ℕ, zero, suc, ◌+◌, ◌-◌, ◌<◌, ◌≤◌, ◌≡◌, ◌≢◌, ◌⊎◌, inl, inr, Bool, true, false, ltb, leb, ◌==◌,
  ◌&&◌, not, if◌then◌else◌, update, done, out_of_bounds, arith, refl, ap, sym, update_self,
  update_ne, Bool-cases, ◌∙◌, ==_ne, ==_refl,
}
use native.Mathlib.Decide.{ℕ_discrete}
use neon_eds.Base.Dlist.{null}
use neon_eds.Smp.Machine.{check-true}
use neon_eds.Event.{
  EventStorage, find_loop, find_memory_i, search_loop, shift_loop, nevent_unregister_mem,
}
use neon_eds.Event.Storage.{IsOrdered}

module _ (mem_size : ℕ → ℕ) (is_mem_object : ℕ → Bool) (npools : ℕ) where
  -- The first pool from `cnt` on that is large enough.
  record First (pools : ℕ → ℕ) (size cnt left mem : ℕ) : Type 0 where
    place : ℕ
    from : cnt ≤ place
    within : place < cnt + left
    found : mem ≡ pools place
    enough : size ≤ mem_size (pools place)
    first : (j : ℕ) → cnt ≤ j → j < place → mem_size (pools j) < size

  find_loop-First :
      (v : Bool) (pools : ℕ → ℕ) (size cnt left mem k : ℕ)
      → cnt ≤ k
      → k < cnt + left
      → size ≤ mem_size (pools k)
      → First pools size cnt left
          (find_loop mem_size is_mem_object npools v pools size cnt left mem)
  unfolding find_loop
  find_loop-First v pools size cnt zero mem k from within enough =
      absurd (omega (arith, from, within))
  find_loop-First v pools size cnt (suc left) mem k from within enough =
      elim (Bool-cases (leb size (mem_size (pools cnt)))) [
        | inl e ↦ rw e (record {
          place = cnt;
          from = omega arith;
          within = omega arith;
          found = refl;
          enough = ground (arith, e);
          first = λ j h l. absurd (omega (arith, h, l));
        })
        | inr e ↦ elim (ℕ_discrete k cnt) [
          | yes at ↦ absurd (ground (arith, e, at, enough))
          | no ne ↦
              let p =
                find_loop-First v pools size (cnt + 1) left (pools cnt) k (omega (arith, from, ne))
                  (omega (arith, within)) enough in
              rw e (record {
                place = p.place;
                from = omega (arith, p.from);
                within = omega (arith, p.within);
                found = p.found;
                enough = p.enough;
                first = λ j h l. elim (ℕ_discrete j cnt) [
                  | yes at ↦ rw at (ground (arith, e))
                  | no other ↦ p.first j (omega (arith, h, other)) l
                ];
              })
        ]
      ]

  find_loop-last :
      (v : Bool) (pools : ℕ → ℕ) (size cnt left mem : ℕ)
      → ((j : ℕ) → cnt ≤ j → j < cnt + suc left → mem_size (pools j) < size)
      → find_loop mem_size is_mem_object npools v pools size cnt (suc left) mem ≡ pools (cnt + left)
  unfolding find_loop
  find_loop-last v pools size cnt zero mem small =
      let small_one = small cnt (omega arith) (omega arith) in
      let fails : leb size (mem_size (pools cnt)) ≡ false = ground (arith, small_one) in
      rw fails (ap pools (omega arith))
  find_loop-last v pools size cnt (suc left) mem small =
      let small_one = small cnt (omega arith) (omega arith) in
      let fails : leb size (mem_size (pools cnt)) ≡ false = ground (arith, small_one) in
      let next =
        find_loop-last v pools size (cnt + 1) left (pools cnt)
          (λ j h l. small j (omega (arith, h)) (omega (arith, l))) in
      rw fails (next ∙ ap pools (omega arith))

  -- Where some registered pool is large enough for an event of `size` bytes, `find_memory_i` returns a
  -- registered pool that is, and no smaller pool is; the size is that of the header at least, the pools
  -- are in the order of their size, and none is null.
  pub find_memory_i-smallest :
      (v : Bool) (g : EventStorage) (header size k : ℕ)
      → header ≤ size
      → IsOrdered mem_size is_mem_object npools g
      → ((j : ℕ) → j < g.pools → g.mem j ≢ null)
      → k < g.pools
      → size ≤ mem_size (g.mem k)
      → (b : ℕ) × (b < g.pools)
        × (find_memory_i mem_size is_mem_object npools v header g size ≡ done (g.mem b))
        × (size ≤ mem_size (g.mem b))
        × ((j : ℕ)
            → j < g.pools
            → size ≤ mem_size (g.mem j)
            → mem_size (g.mem b) ≤ mem_size (g.mem j))
  unfolding find_memory_i
  find_memory_i-smallest v g header size k room ordered some_pool below enough =
      let p =
        find_loop-First v g.mem size 0 g.pools null k (omega arith) (omega (arith, below)) enough in
      let b = p.place in
      let within : b < g.pools = omega (arith, p.within) in
      let fits : leb header size ≡ true = ground (arith, room) in
      let here : not (g.mem b == null) ≡ true =
        rw (==_ne (g.mem b) null (some_pool b within)) refl in
      (
        b,
        within,
        rw (p.found, check-true v (leb header size) fits, check-true v (not (g.mem b == null)) here)
            refl,
        p.enough,
        λ j l e. elim (Bool-cases (ltb j b)) [
          | inl lt ↦ absurd (omega (arith, p.first j (omega arith) (ground (arith, lt)), e))
          | inr ge ↦ ordered b j (ground (arith, ge)) l
        ],
      )

  -- Where every registered pool is too small for an event of `size` bytes, `find_memory_i` returns the
  -- last one all the same, if that is not null and the size is that of the header at least.
  pub find_memory_i-too_small :
      (v : Bool) (g : EventStorage) (header size last : ℕ)
      → header ≤ size
      → g.pools ≡ suc last
      → g.mem last ≢ null
      → ((j : ℕ) → j < g.pools → mem_size (g.mem j) < size)
      → find_memory_i mem_size is_mem_object npools v header g size ≡ done (g.mem last)
  unfolding find_memory_i
  find_memory_i-too_small v g header size last room count ne small =
      let fits : leb header size ≡ true = ground (arith, room) in
      let here : not (g.mem last == null) ≡ true = rw (==_ne (g.mem last) null ne) refl in
      let found : find_loop mem_size is_mem_object npools v g.mem size 0 (suc last) null
          ≡ g.mem last =
        find_loop-last v g.mem size 0 last null (λ j h l. small j (omega (arith, l, count)))
        ∙ ap g.mem (omega arith) in
      rw
        (
          count,
          found,
          check-true v (leb header size) fits,
          check-true v (not (g.mem last == null)) here,
        )
        refl

  search_loop-found :
      (v : Bool) (mem : ℕ) (pools : ℕ → ℕ) (n k : ℕ)
      → k ≤ n
      → pools k ≡ mem
      → pools (search_loop mem_size is_mem_object npools v mem pools n) ≡ mem
  unfolding search_loop
  search_loop-found v mem pools zero k h at = ap pools (omega (arith, h)) ∙ at
  search_loop-found v mem pools (suc n) k h at = elim (Bool-cases (mem == pools (suc n))) [
    | inl e ↦ rw e (ground (arith, e))
    | inr ne ↦ elim (ℕ_discrete k (suc n)) [
      | yes last ↦ absurd (ground (arith, ne, last, at))
      | no other ↦ rw ne (search_loop-found v mem pools n k (omega (arith, h, other)) at)
    ]
  ]

  search_loop-within :
      (v : Bool) (mem : ℕ) (pools : ℕ → ℕ) (n : ℕ)
      → search_loop mem_size is_mem_object npools v mem pools n ≤ n
  unfolding search_loop
  search_loop-within v mem pools zero = omega arith
  search_loop-within v mem pools (suc n) = elim (Bool-cases (mem == pools (suc n))) [
    | inl e ↦ rw e (omega arith)
    | inr ne ↦ rw ne (omega (arith, search_loop-within v mem pools n))
  ]

  shift_loop-before :
      (v : Bool) (cnt left : ℕ) (pools : ℕ → ℕ) (j : ℕ)
      → j < cnt
      → shift_loop mem_size is_mem_object npools v cnt left pools j ≡ pools j
  unfolding shift_loop
  shift_loop-before v cnt zero pools j h = refl
  shift_loop-before v cnt (suc left) pools j h =
      shift_loop-before v (cnt + 1) left (update pools cnt (pools (cnt + 1))) j (omega (arith, h))
      ∙ update_ne pools cnt (pools (cnt + 1)) j (ground (arith, h))

  shift_loop-moved :
      (v : Bool) (cnt left : ℕ) (pools : ℕ → ℕ) (j : ℕ)
      → cnt ≤ j
      → j < cnt + left
      → shift_loop mem_size is_mem_object npools v cnt left pools j ≡ pools (j + 1)
  unfolding shift_loop
  shift_loop-moved v cnt zero pools j from below = absurd (omega (arith, from, below))
  shift_loop-moved v cnt (suc left) pools j from below =
      let moved = update pools cnt (pools (cnt + 1)) in
      elim (ℕ_discrete j cnt) [
        | yes at ↦
            shift_loop-before v (cnt + 1) left moved j (omega (arith, at))
            ∙ ap moved at
            ∙ update_self pools cnt (pools (cnt + 1))
            ∙ ap (λ i. pools (i + 1)) (sym at)
        | no ne ↦
            shift_loop-moved v (cnt + 1) left moved j (omega (arith, from, ne))
              (omega (arith, below))
            ∙ update_ne pools cnt (pools (cnt + 1)) (j + 1) (omega (arith, from))
      ]

  -- The pools without the one at place `k`, the last one of them replaced by null.
  pub record Unregistered (g : EventStorage) (k : ℕ) (g' : EventStorage) : Type 0 where
    pub fewer : g'.pools ≡ g.pools - 1
    pub others : (j : ℕ) → j < g.pools - 2 → g'.mem j ≡ (if ltb j k then g.mem j else g.mem (j + 1))
    pub lost : g'.mem (g.pools - 2) ≡ null

  -- Where a pool is registered once, and the place behind the registered ones does not hold it
  -- either, nevent_unregister_mem takes it off, moves those behind it down by one and makes the
  -- last of those that are left null, if two pools or more are registered and the array has room
  -- for another; with one registered pool, or a full array, it leaves the bounds of the array.
  pub nevent_unregister_mem-null :
      (v : Bool) (g : EventStorage) (mem k : ℕ)
      → is_mem_object mem ≡ true
      → k < g.pools
      → g.mem k ≡ mem
      → ((j : ℕ) → j ≤ g.pools → g.mem j ≡ mem → j ≡ k)
      → ((g' : EventStorage) × (1 < g.pools)
          × (g.pools < npools)
          × (nevent_unregister_mem mem_size is_mem_object npools v g mem ≡ done g')
          × Unregistered g k g')
        ⊎ (((g.pools ≡ 1) ⊎ (npools ≤ g.pools))
            × (nevent_unregister_mem mem_size is_mem_object npools v g mem ≡ out_of_bounds))
  unfolding nevent_unregister_mem
  nevent_unregister_mem-null v g mem k object below at only =
      let cnt = search_loop mem_size is_mem_object npools v mem g.mem g.pools in
      let shifted = shift_loop mem_size is_mem_object npools v cnt (g.pools - 1 - cnt) g.mem in
      let found = search_loop-found v mem g.mem g.pools k (omega (arith, below)) at in
      let place : cnt ≡ k = only cnt (search_loop-within v mem g.mem g.pools) found in
      let not_none : (g.pools == 0) ≡ false = ground (arith, below) in
      elim (Bool-cases (ltb g.pools npools && not (g.pools - 1 == 0))) [
        | inl room ↦ inl (
          record { mem = update shifted (g.pools - 1 - 1) null; pools = g.pools - 1 },
          ground (arith, room, below),
          ground (arith, room),
          rw
              (
                check-true v (is_mem_object mem) object,
                not_none,
                found,
                ==_refl mem,
                check-true v true refl,
                room,
              )
              refl,
          record {
            fewer = refl;
            others = λ j l.
                update_ne shifted (g.pools - 1 - 1) null j (omega (arith, l))
                ∙ elim (Bool-cases (ltb j k)) [
                  | inl before ↦ rw before (
                      shift_loop-before v cnt (g.pools - 1 - cnt) g.mem j
                        (ground (arith, before, place)))
                  | inr behind ↦ rw behind (
                      shift_loop-moved v cnt (g.pools - 1 - cnt) g.mem j
                        (ground (arith, behind, place)) (omega (arith, l, place)))
                ];
            lost =
                ap (update shifted (g.pools - 1 - 1) null) (omega arith)
                ∙ update_self shifted (g.pools - 1 - 1) null;
          },
        )
        | inr outside ↦ inr (
          elim (Bool-cases (ltb g.pools npools)) [
            | inl inside ↦ inl (ground (arith, outside, inside, below))
            | inr full ↦ inr (ground (arith, full))
          ],
          rw
              (
                check-true v (is_mem_object mem) object,
                not_none,
                found,
                ==_refl mem,
                check-true v true refl,
                outside,
              )
              refl,
        )
      ]
