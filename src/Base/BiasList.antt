-- ===== src/Base/BiasList.antt =====
-- include/base/bias_list.h: linked nodes with a bias (a priority).
pub mod SortInsert
mod Tests
use neon_eds.Common.{ℕ, zero, suc, Bool, ◌==◌, leb, if◌then◌else◌, update, Run, done, out_of_fuel}
use neon_eds.Base.Dlist.{
  Links, ndlist_init, ndlist_add_before, ndlist_remove, ndlist_next, ndlist_prev, ndlist_is_empty,
}

-- `struct nbias_list` of every node.
pub record BiasNodes : Type 0 where
  pub list : Links
  pub bias : ℕ → ℕ

abbrev pub nbias_list_max_prio : ℕ
nbias_list_max_prio = 255

unfoldable pub nbias_list_init : BiasNodes → ℕ → ℕ → BiasNodes
nbias_list_init h node bias = record h {
  list = ndlist_init h.list node;
  bias = update h.bias node bias;
}

unfoldable pub nbias_list_term : BiasNodes → ℕ → BiasNodes
nbias_list_term h node = record h { bias = update h.bias node 0; list = ndlist_init h.list node }

unfoldable pub nbias_list_fifo_insert : BiasNodes → ℕ → ℕ → BiasNodes
nbias_list_fifo_insert h list node = record h { list = ndlist_add_before h.list list node }

-- The loop of `nbias_list_sort_insert`: the node goes before the first one with at least its bias.
-- Where the loop reaches the sentinel it ends, and the node is not inserted.
unfoldable pub sort_insert_loop : ℕ → BiasNodes → ℕ → ℕ → ℕ → Run BiasNodes
sort_insert_loop zero h list node current = out_of_fuel
sort_insert_loop (suc fuel) h list node current =
    let rest = sort_insert_loop fuel h list node (ndlist_next h.list current) in
    if current == list
    then done h
    else if leb (h.bias node) (h.bias current)
    then done (record h { list = ndlist_add_before h.list current node })
    else rest

unfoldable pub nbias_list_sort_insert : ℕ → BiasNodes → ℕ → ℕ → Run BiasNodes
nbias_list_sort_insert fuel h list node =
    sort_insert_loop fuel h list node (ndlist_next h.list list)

unfoldable pub nbias_list_remove : Bool → BiasNodes → ℕ → BiasNodes
nbias_list_remove validation h node = record h { list = ndlist_remove validation h.list node }

unfoldable pub nbias_list_is_empty : BiasNodes → ℕ → Bool
nbias_list_is_empty h list = ndlist_is_empty h.list list

unfoldable pub nbias_list_next : BiasNodes → ℕ → ℕ
nbias_list_next h node = ndlist_next h.list node

unfoldable pub nbias_list_get_bias : BiasNodes → ℕ → ℕ
nbias_list_get_bias h node = h.bias node
