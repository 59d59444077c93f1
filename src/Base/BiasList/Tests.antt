-- ===== src/Base/BiasList/Tests.antt =====
-- A list at 1 of one node at 2 with bias 7, and a node at 3 with bias 5.
use neon_eds.Common.{◌≡◌, [], ◌∷◌, ◌==◌, if◌then◌else◌, refl, done, arith}
use neon_eds.Base.Dlist.{Links, ndlist_init, ndlist_add_before}
use neon_eds.Base.Dlist.Ring.{Ring, init-Ring}
use neon_eds.Base.Dlist.Insert.{add_before-Ring}
use neon_eds.Base.BiasList.{BiasNodes, nbias_list_sort_insert}
use neon_eds.Base.BiasList.SortInsert.{sort_insert, nbias_list_sort_insert-Ring}

abbrev zeros : Links
zeros = record { next = λ a. 0; prev = λ a. 0 }

abbrev one_node : BiasNodes
one_node = record {
  list = ndlist_add_before (ndlist_init zeros 1) 1 2;
  bias = λ a. if a == 2 then 7 else 5;
}

one_node-Ring : Ring one_node.list 1 (2 ∷ [])
one_node-Ring = add_before-Ring (ndlist_init zeros 1) 1 2 [] [] (init-Ring zeros 1) refl

nbias_list_sort_insert-Ring_example :
    (h' : BiasNodes) × (nbias_list_sort_insert 2 one_node 1 3 ≡ done h')
    × Ring h'.list 1 (sort_insert one_node.bias 3 (2 ∷ []))
    × (h'.bias ≡ one_node.bias)
nbias_list_sort_insert-Ring_example =
    nbias_list_sort_insert-Ring 2 one_node 1 3 (2 ∷ []) one_node-Ring refl (omega arith)
