-- ===== src/Bstree.antt =====
-- lib/structures/bstree.c: binary search trees. A tree is what hangs at a node pointer, and the node
-- that an operation is given carries its data and its two children. The count of the nodes is not kept.
use plenjos_kernel.Prelude.{
  ℕ, zero, suc, ◌+◌, ◌-◌, ◌≡◌, refl, ap, ap₂, ◌∙◌, sym, arith, Bool, true, false, Option, none,
  some, List, [], ◌∷◌, ◌++◌, append_assoc, append-nil, ◌==◌, if◌then◌else◌,
}
pub mod Order
mod Examples

pub data Tree : Type 0 where
  empty : Tree
  node : Tree → ℕ → Tree → Tree

-- The `while (new->left)` loop of `bstree_remove_node` at the right child: the in-order successor,
-- and the right child without it (its right child in its place).
unfoldable pub take_successor : Tree → ℕ → Tree → ℕ × Tree
take_successor empty x r = (x, r)
take_successor (node ll y lr) x r = let rest = take_successor ll y lr in (rest.0, node rest.1 x r)

-- `bstree_remove_node`: the tree that takes the node's place.
unfoldable pub bstree_remove_node : Tree → Tree → Tree
bstree_remove_node l empty = l
bstree_remove_node empty (node rl y rr) = node rl y rr
bstree_remove_node (node ll x lr) (node rl y rr) =
    let s = take_successor rl y rr in node (node ll x lr) s.0 s.1

-- `bstree_remove_first`: the removed data and the tree; `none` on an empty tree.
unfoldable pub bstree_remove_first : Tree → Option ℕ × Tree
bstree_remove_first empty = (none, empty)
bstree_remove_first (node empty x r) = (some x, bstree_remove_node empty r)
bstree_remove_first (node (node ll y lr) x r) =
    let rest = bstree_remove_first (node ll y lr) in (rest.0, node rest.1 x r)

unfoldable pub bstree_remove_last : Tree → Option ℕ × Tree
bstree_remove_last empty = (none, empty)
bstree_remove_last (node l x empty) = (some x, bstree_remove_node l empty)
bstree_remove_last (node l x (node rl y rr)) =
    let rest = bstree_remove_last (node rl y rr) in (rest.0, node l x rest.1)

-- `bstree_remove_exact_data`, with the comparison `lt` of the tree and the identity of data `==`.
module _ (same lt : ℕ → ℕ → Bool) where
  unfoldable pub bstree_remove_exact_data : Tree → ℕ → Option ℕ × Tree
  bstree_remove_exact_data empty v = (none, empty)
  bstree_remove_exact_data (node l x r) v =
      let left = bstree_remove_exact_data l v in
      let right = bstree_remove_exact_data r v in
      if same x v
      then (some x, bstree_remove_node l r)
      else (if lt v x then (left.0, node left.1 x r) else (right.0, node l x right.1))

-- `bstree_left_rotate`
unfoldable pub bstree_left_rotate : Tree → Tree
bstree_left_rotate (node a x (node b y c)) = node (node a x b) y c
bstree_left_rotate t = t

-- `bstree_right_rotate`
unfoldable pub bstree_right_rotate : Tree → Tree
bstree_right_rotate (node (node b y c) x a) = node b y (node c x a)
bstree_right_rotate t = t

-- The nodes in memory, by their addresses; 0 is NULL.
pub record Nodes : Type 0 where
  pub data_of : ℕ → ℕ
  pub left : ℕ → ℕ
  pub right : ℕ → ℕ

unfoldable pub update : (ℕ → ℕ) → ℕ → ℕ → ℕ → ℕ
update f a v x = if x == a then v else f x

-- The loop of `bstree_insert_node` at node `curr`, for `fuel` rounds; `none` is a loop that has not
-- ended. Storing the right child is not followed by a `break`, so the loop goes on at `curr`.
unfoldable pub bstree_insert_node : (ℕ → ℕ → Bool) → ℕ → Nodes → ℕ → ℕ → Option Nodes
bstree_insert_node lt zero s item curr = none
bstree_insert_node lt (suc fuel) s item curr =
    let at_left = bstree_insert_node lt fuel s item (s.left curr) in
    let at_right = bstree_insert_node lt fuel s item (s.right curr) in
    let again =
      bstree_insert_node lt fuel (record s { right = update s.right curr item }) item curr in
    if lt (s.data_of item) (s.data_of curr)
    then (if s.left curr == 0 then some (record s { left = update s.left curr item }) else at_left)
    else (if s.right curr == 0 then again else at_right)
