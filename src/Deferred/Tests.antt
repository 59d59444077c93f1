-- ===== src/Deferred/Tests.antt =====
-- Two deferred functions: the items at 50 and at 70, with the numbers of their items as functions.
use neon_eds.Common.{ℕ, ◌≡◌, List, [], ◌∷◌, true, done, arith, refl}
use neon_eds.Base.Dlist.{Links, ndlist_is_empty}
use neon_eds.Base.Dlist.Ring.{Ring}
use neon_eds.Deferred.{Deferred, list_a, list_b, nsignature_defer, ncore_deferred_work}
use neon_eds.Deferred.Order.{defer_all, ncore_deferred_work-effects}

-- Two empty lists, and no item in either of them.
abbrev idle_links : Links
idle_links = record { next = λ n. n; prev = λ n. n }

idle_links-Ring : (s : ℕ) → Ring idle_links s []
idle_links-Ring s = record { chain = (refl, refl); distinct = (refl, tt) }

idle : (n : ℕ) → ndlist_is_empty idle_links n ≡ true
unfolding ndlist_is_empty
idle n = ground arith

abbrev nothing_deferred : Deferred
nothing_deferred = record {
  list = idle_links;
  pending = list_a;
  working = list_b;
  is_initialized = true;
  fn = λ n. n;
  arg = λ n. 8;
  signature = λ n. nsignature_defer;
}

-- The functions are counted: the rest of the program is the list of what was called.
abbrev note : ℕ → ℕ → List ℕ → List ℕ
note fn arg called = fn ∷ arg ∷ called

abbrev call_it : ℕ → ℕ → Deferred × List ℕ → Deferred × List ℕ
call_it fn arg s = (s.0, note fn arg s.1)

-- The first item is deferred again before the work is done. The function of the second one runs first.
ncore_deferred_work-effects_example :
    (d' : Deferred) × (list : Links) × (defer_all true nothing_deferred (50 ∷ 70 ∷ 50 ∷ [])
      ≡ done d')
    × (ncore_deferred_work call_it true 4 d' []
        ≡ done (
          record nothing_deferred { list = list; pending = list_b; working = list_a },
          50 ∷ 8 ∷ 70 ∷ 8 ∷ [],
        ))
    × Ring list list_a []
    × Ring list list_b []
ncore_deferred_work-effects_example =
    ncore_deferred_work-effects call_it note (λ fn arg d w. refl) true 4 [] (50 ∷ 70 ∷ 50 ∷ [])
      nothing_deferred [] (idle_links-Ring list_a) (idle_links-Ring list_b) refl tt
      (
        omega arith,
        omega arith,
        λ out. idle 50,
        (omega arith, omega arith, λ out. idle 70, (omega arith, omega arith, λ out. idle 50, tt)),
      )
      (omega arith, refl, (omega arith, refl, (omega arith, refl, tt))) (omega arith)
