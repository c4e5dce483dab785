-- ===== src/Bstree/Examples.antt =====
-- Tests and witnesses of the binary search trees.
use plenjos_kernel.Prelude.{◌≡◌, refl, arith, none, ltb, ◌==◌, if◌then◌else◌}
use plenjos_kernel.Bstree.{Tree, empty, node, Nodes, bstree_insert_node}
use plenjos_kernel.Bstree.Order.{bstree_insert_node_diverges}

-- the node at 8, with data 5 and no children, and the item at 16 with data 7
abbrev two_nodes : Nodes
two_nodes = record { data_of = λ a. if a == 8 then 5 else 7; left = λ a. 0; right = λ a. 0 }

bstree_insert_node_diverges_example : bstree_insert_node ltb 100 two_nodes 16 8 ≡ none
bstree_insert_node_diverges_example =
    bstree_insert_node_diverges ltb 16 100 two_nodes 8 (omega arith) (omega arith) refl refl refl
      refl

abbrev small_tree : Tree
small_tree = node (node empty 1 (node empty 2 empty)) 4 (node (node empty 5 empty) 6 empty)
