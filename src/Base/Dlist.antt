-- ===== src/Base/Dlist.antt =====
-- include/base/dlist.h: circular doubly linked lists. A node is its address; the `next` and `prev`
-- fields of all nodes are two maps, so that nodes, sentinels and aliases are told apart by address.
pub mod Chain
pub mod Fields
pub mod Ring
pub mod Insert
pub mod Remove
pub mod Frame
use neon_eds.Common.{ℕ, Bool, ◌==◌, not, if◌then◌else◌, update}

abbrev pub null : ℕ
null = 0

-- `struct ndlist` of every node.
pub record Links : Type 0 where
  pub next : ℕ → ℕ
  pub prev : ℕ → ℕ

-- `node->next = v` and `node->prev = v`.
abbrev pub set_next : Links → ℕ → ℕ → Links
set_next h node v = record h { next = update h.next node v }

abbrev pub set_prev : Links → ℕ → ℕ → Links
set_prev h node v = record h { prev = update h.prev node v }

unfoldable pub ndlist_init : Links → ℕ → Links
ndlist_init h node = set_prev (set_next h node node) node node

unfoldable pub ndlist_add_before : Links → ℕ → ℕ → Links
ndlist_add_before h current node =
    let h₁ = set_next h node current in
    let h₂ = set_prev h₁ node (h₁.prev current) in
    let h₃ = set_next h₂ (h₂.prev current) node in set_prev h₃ current node

unfoldable pub ndlist_add_after : Links → ℕ → ℕ → Links
ndlist_add_after h current node =
    let h₁ = set_prev h node current in
    let h₂ = set_next h₁ node (h₁.next current) in
    let h₃ = set_prev h₂ (h₂.next current) node in set_next h₃ current node

-- `validation` is CONFIG_API_VALIDATION: only where it is on does `NOBLIGATION` clear `prev`.
unfoldable pub ndlist_remove : Bool → Links → ℕ → Links
ndlist_remove validation h node =
    let h₁ = set_prev h (h.next node) (h.prev node) in
    let h₂ = set_next h₁ (h₁.prev node) (h₁.next node) in
    let h₃ = set_next h₂ node node in if validation then set_prev h₃ node null else h₃

unfoldable pub ndlist_is_empty : Links → ℕ → Bool
ndlist_is_empty h node = h.next node == node

unfoldable pub ndlist_next : Links → ℕ → ℕ
ndlist_next h node = h.next node

unfoldable pub ndlist_prev : Links → ℕ → ℕ
ndlist_prev h node = h.prev node

unfoldable pub ndlist_rotate_left : Bool → Links → ℕ → Links
ndlist_rotate_left validation h sentinel =
    if ndlist_is_empty h sentinel
    then h
    else let first = h.next sentinel in
      ndlist_add_before (ndlist_remove validation h first) sentinel first
