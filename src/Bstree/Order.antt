-- ===== src/Bstree/Order.antt =====
-- Removals keep the in-order sequence but for the removed item, and an insertion to the right does
-- not end.
use plenjos_kernel.Prelude.{
  ℕ, zero, suc, ◌≡◌, ◌≢◌, refl, ap, ◌∙◌, sym, Bool, true, false, Option, none, some, List, [], ◌∷◌,
  ◌++◌, append_assoc, append-nil, ne→==, ==_refl, is_some,
}
use plenjos_kernel.Bstree.{
  Tree, empty, node, take_successor, bstree_remove_node, bstree_remove_first, bstree_remove_last,
  Nodes, update, bstree_insert_node, bstree_left_rotate, bstree_right_rotate,
}

-- the data in order
abbrev pub inorder : Tree → List ℕ
inorder empty = []
inorder (node l x r) = inorder l ++ (x ∷ inorder r)

successor-inorder :
    (l : Tree) (x : ℕ) (r : Tree)
    → (take_successor l x r).0 ∷ inorder (take_successor l x r).1 ≡ inorder (node l x r)
unfolding take_successor
successor-inorder empty x r = refl
successor-inorder (node ll y lr) x r = ap (λ xs. xs ++ (x ∷ inorder r)) (successor-inorder ll y lr)

-- Taking a node out of a tree leaves the data of its two subtrees, in order.
pub bstree_remove_node-inorder :
    (l r : Tree) → inorder (bstree_remove_node l r) ≡ inorder l ++ inorder r
unfolding bstree_remove_node
bstree_remove_node-inorder empty empty = refl
bstree_remove_node-inorder (node l x r) empty = sym (append-nil (inorder (node l x r)))
bstree_remove_node-inorder empty (node rl y rr) = refl
bstree_remove_node-inorder (node ll x lr) (node rl y rr) =
    ap (λ xs. inorder (node ll x lr) ++ xs) (successor-inorder rl y rr)

abbrev pub to_list : Option ℕ → List ℕ
to_list none = []
to_list (some x) = x ∷ []

abbrev pub is_node : Tree → Bool
is_node empty = false
is_node (node l x r) = true

-- Removing the first node takes the first item of the sequence, and something from every tree but
-- the empty one.
pub bstree_remove_first_lem :
    (t : Tree)
    → (to_list (bstree_remove_first t).0 ++ inorder (bstree_remove_first t).1 ≡ inorder t)
      × (is_some (bstree_remove_first t).0 ≡ is_node t)
unfolding bstree_remove_first
bstree_remove_first_lem empty = (refl, refl)
bstree_remove_first_lem (node empty x r) =
    (ap (λ xs. x ∷ xs) (bstree_remove_node-inorder empty r), refl)
bstree_remove_first_lem (node (node ll y lr) x r) =
    let e = bstree_remove_first_lem (node ll y lr) in
    (
      sym (append_assoc (to_list (bstree_remove_first (node ll y lr)).0) _ _)
          ∙ ap (λ xs. xs ++ (x ∷ inorder r)) e.0,
      e.1,
    )

-- Removing the last node takes the last item of the sequence, and something from every tree but the
-- empty one.
pub bstree_remove_last_lem :
    (t : Tree)
    → (inorder (bstree_remove_last t).1 ++ to_list (bstree_remove_last t).0 ≡ inorder t)
      × (is_some (bstree_remove_last t).0 ≡ is_node t)
unfolding bstree_remove_last
bstree_remove_last_lem empty = (refl, refl)
bstree_remove_last_lem (node l x empty) =
    (ap (λ xs. xs ++ (x ∷ [])) (bstree_remove_node-inorder l empty ∙ append-nil (inorder l)), refl)
bstree_remove_last_lem (node l x (node rl y rr)) =
    let e = bstree_remove_last_lem (node rl y rr) in
    (append_assoc (inorder l) _ _ ∙ ap (λ xs. inorder l ++ (x ∷ xs)) e.0, e.1)

-- Both rotations keep the sequence.
pub bstree_rotate_lem :
    (t : Tree)
    → (inorder (bstree_left_rotate t) ≡ inorder t) × (inorder (bstree_right_rotate t) ≡ inorder t)
unfolding bstree_left_rotate bstree_right_rotate
bstree_rotate_lem empty = (refl, refl)
bstree_rotate_lem (node empty x empty) = (refl, refl)
bstree_rotate_lem (node empty x (node b y c)) = (refl, refl)
bstree_rotate_lem (node (node b y c) x empty) = (refl, sym (append_assoc (inorder b) _ _))
bstree_rotate_lem (node (node b y c) x (node d z e)) =
    (append_assoc (inorder (node b y c)) _ _, sym (append_assoc (inorder b) _ _))

update_self : (f : ℕ → ℕ) (a v : ℕ) → update f a v a ≡ v
unfolding update
update_self f a v = rw (==_refl a)

update-ne : (f : ℕ → ℕ) (a v x : ℕ) → x ≢ a → update f a v x ≡ f x
unfolding update
update-ne f a v x ne = rw (ne→== x a ne)

-- the rounds of an insertion that does not end, the last ones first
module _ (lt : ℕ → ℕ → Bool) (item : ℕ) where
  at-item :
      (fuel : ℕ) (s : Nodes)
      → item ≢ 0
      → lt (s.data_of item) (s.data_of item) ≡ false
      → s.right item ≡ item
      → bstree_insert_node lt fuel s item item ≡ none
  unfolding bstree_insert_node
  at-item zero s some_node irr cyc = refl
  at-item (suc fuel) s some_node irr cyc =
      rw (irr, cyc, ne→== item 0 some_node) (at-item fuel s some_node irr cyc)

  at-item_null :
      (fuel : ℕ) (s : Nodes)
      → item ≢ 0
      → lt (s.data_of item) (s.data_of item) ≡ false
      → s.right item ≡ 0
      → bstree_insert_node lt fuel s item item ≡ none
  unfolding bstree_insert_node
  at-item_null zero s some_node irr leaf = refl
  at-item_null (suc fuel) s some_node irr leaf =
      rw (irr, leaf)
        (at-item fuel (record s { right = update s.right item item }) some_node irr
          (update_self s.right item item))

  at-parent :
      (fuel : ℕ) (s : Nodes) (curr : ℕ)
      → item ≢ 0
      → curr ≢ item
      → lt (s.data_of item) (s.data_of item) ≡ false
      → lt (s.data_of item) (s.data_of curr) ≡ false
      → s.right item ≡ 0
      → s.right curr ≡ item
      → bstree_insert_node lt fuel s item curr ≡ none
  unfolding bstree_insert_node
  at-parent zero s curr some_node apart irr ge leaf linked = refl
  at-parent (suc fuel) s curr some_node apart irr ge leaf linked =
      rw (ge, linked, ne→== item 0 some_node) (at-item_null fuel s some_node irr leaf)

-- An item with no right child, which is not NULL, not less than itself and not less than another node
-- that it meets, where that node has no right child, is never inserted: after any number of rounds the
-- loop has not ended.
pub bstree_insert_node_diverges :
    (lt : ℕ → ℕ → Bool) (item fuel : ℕ) (s : Nodes) (curr : ℕ)
    → item ≢ 0
    → curr ≢ item
    → lt (s.data_of item) (s.data_of item) ≡ false
    → lt (s.data_of item) (s.data_of curr) ≡ false
    → s.right item ≡ 0
    → s.right curr ≡ 0
    → bstree_insert_node lt fuel s item curr ≡ none
unfolding bstree_insert_node
bstree_insert_node_diverges lt item zero s curr some_node apart irr ge leaf free = refl
bstree_insert_node_diverges lt item (suc fuel) s curr some_node apart irr ge leaf free =
    rw (ge, free)
      (at-parent lt item fuel (record s { right = update s.right curr item }) curr some_node apart
        irr ge (update-ne s.right curr item item (λ e. apart (sym e)) ∙ leaf)
        (update_self s.right curr item))
