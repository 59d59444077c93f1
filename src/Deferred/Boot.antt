-- ===== src/Deferred/Boot.antt =====
-- The first initialisation of a deferred function of source/deferred.c.
use neon_eds.Common.{
  ℕ, ◌≡◌, ◌≢◌, [], Bool, true, false, not, ◌==◌, update, done, arith, refl, ==_ne, update_self,
}
use neon_eds.Base.Dlist.{Links, null, ndlist_init, ndlist_is_empty}
use neon_eds.Base.Dlist.Fields.{next-init}
use neon_eds.Base.Dlist.Ring.{Ring, init-Ring}
use neon_eds.Base.Dlist.Frame.{init-other}
use neon_eds.Sched.{check}
use neon_eds.Deferred.{
  Deferred, list_a, list_b, nsignature_defer, defer_signature, prepare_lists, nsched_deferred_init,
}

prepared :
    (links : Links) (x : ℕ)
    → x ≢ list_a
    → x ≢ list_b
    → Ring (ndlist_init (ndlist_init (ndlist_init links list_a) list_b) x) list_a []
      × Ring (ndlist_init (ndlist_init (ndlist_init links list_a) list_b) x) list_b []
      × (ndlist_is_empty (ndlist_init (ndlist_init (ndlist_init links list_a) list_b) x) x ≡ true)
unfolding ndlist_is_empty
prepared links x not_a not_b =
    let first = ndlist_init links list_a in
    let both = ndlist_init first list_b in
    (
      init-other both list_a []
          (init-other first list_a [] (init-Ring links list_a) list_b (ground arith)) x
          (ground (arith, not_a)),
      init-other both list_b [] (init-Ring first list_b) x (ground (arith, not_b)),
      ground (arith, next-init both x x),
    )

-- The first `nsched_deferred_init`, of an item that is not signed and with a function, prepares two empty
-- lists, and leaves the item in neither of them, with its function and argument.
pub nsched_deferred_init-first :
    (v : Bool) (d : Deferred) (x fn arg : ℕ)
    → d.is_initialized ≡ false
    → x ≢ null
    → x ≢ list_a
    → x ≢ list_b
    → fn ≢ null
    → (defer_signature d x == nsignature_defer) ≡ false
    → (d' : Deferred) × (nsched_deferred_init v d x fn arg ≡ done d')
      × (d'.is_initialized ≡ true)
      × Ring d'.list d'.pending []
      × Ring d'.list d'.working []
      × (d'.pending ≢ d'.working)
      × (ndlist_is_empty d'.list x ≡ true)
      × (d'.fn x ≡ fn)
      × (d'.arg x ≡ arg)
unfolding nsched_deferred_init check prepare_lists defer_signature ndlist_init
nsched_deferred_init-first true d x fn arg cold ne not_a not_b some_fn unsigned =
    let (a, b, idle) = prepared d.list x not_a not_b in
    let item : not (x == null) ≡ true = rw (==_ne x null ne) refl in
    let function : not (fn == null) ≡ true = rw (==_ne fn null some_fn) refl in
    let d₁ : Deferred = record (prepare_lists d) {
      fn = update d.fn x fn;
      arg = update d.arg x arg;
      list = ndlist_init (prepare_lists d).list x;
    } in
    (
      record d₁ { signature = update d₁.signature x nsignature_defer },
      rw (cold, item, unsigned, function) refl,
      refl,
      a,
      b,
      omega arith,
      idle,
      update_self d.fn x fn,
      update_self d.arg x arg,
    )
nsched_deferred_init-first false d x fn arg cold ne not_a not_b some_fn unsigned =
    let (a, b, idle) = prepared d.list x not_a not_b in
    let item : not (x == null) ≡ true = rw (==_ne x null ne) refl in
    let function : not (fn == null) ≡ true = rw (==_ne fn null some_fn) refl in
    let d₁ : Deferred = record (prepare_lists d) {
      fn = update d.fn x fn;
      arg = update d.arg x arg;
      list = ndlist_init (prepare_lists d).list x;
    } in
    (
      d₁,
      rw cold refl,
      refl,
      a,
      b,
      omega arith,
      idle,
      update_self d.fn x fn,
      update_self d.arg x arg,
    )
