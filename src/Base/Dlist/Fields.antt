-- ===== src/Base/Dlist/Fields.antt =====
-- What each operation of include/base/dlist.h leaves in the fields of every node.
use neon_eds.Common.{Bool, ℕ, ◌≡◌, ◌≢◌, arith, ◌==◌, if◌then◌else◌}
use neon_eds.Base.Dlist.{
  Links, null, ndlist_init, ndlist_add_before, ndlist_add_after, ndlist_remove,
}

module _ (h : Links) (c n : ℕ) (apart : c ≢ n) (x : ℕ) where
  pub next-add_before :
      (ndlist_add_before h c n).next x
      ≡ (if x == h.prev c then n else if x == n then c else h.next x)
  unfolding ndlist_add_before
  next-add_before = ground arith

  pub prev-add_before :
      (ndlist_add_before h c n).prev x
      ≡ (if x == c then n else if x == n then h.prev c else h.prev x)
  unfolding ndlist_add_before
  prev-add_before = ground arith

  pub next-add_after :
      (ndlist_add_after h c n).next x
      ≡ (if x == c then n else if x == n then h.next c else h.next x)
  unfolding ndlist_add_after
  next-add_after = ground arith

  pub prev-add_after :
      (ndlist_add_after h c n).prev x
      ≡ (if x == h.next c then n else if x == n then c else h.prev x)
  unfolding ndlist_add_after
  prev-add_after = ground arith

module _ (v : Bool) (h : Links) (n x : ℕ) where
  pub next-remove :
      (ndlist_remove v h n).next x
      ≡ (if x == n then n else if x == h.prev n then h.next n else h.next x)
  unfolding ndlist_remove
  next-remove = ground arith

  pub prev-remove : (ndlist_remove v h n).prev x ≡ (
      if x == n
      then (if v then null else h.prev n)
      else if x == h.next n
      then h.prev n
      else h.prev x)
  unfolding ndlist_remove
  prev-remove = ground arith

module _ (h : Links) (n x : ℕ) where
  pub next-init : (ndlist_init h n).next x ≡ (if x == n then n else h.next x)
  unfolding ndlist_init
  next-init = ground arith

  pub prev-init : (ndlist_init h n).prev x ≡ (if x == n then n else h.prev x)
  unfolding ndlist_init
  prev-init = ground arith
