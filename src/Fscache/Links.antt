-- ===== src/Fscache/Links.antt =====
-- Nodes that are put into the tree of cached nodes, and what keeps it a tree.
use plenjos_kernel.Prelude.{
  ℕ, ◌≡◌, ◌≢◌, ◌⊎◌, refl, sym, ap, ◌∙◌, subst, arith, none, some, List, [], ◌∷◌, All, eq_cases, inl,
  inr,
}
use mathlib.Core.List.{Memᴰ}
use plenjos_kernel.Fscache.{Cache}

-- The nodes that the links to children lead to from the root.
pub data Under (s : Cache) (root : ℕ) : ℕ → Type 0 where
  at_root : Under s root root
  below : (p c : ℕ) → Under s root p → Memᴰ c (s.nodes p).children → Under s root c

-- The root is in use and has no parent, and every child of a node under the root is in use and has
-- just that node as its parent. So the parents lead from each node under the root to the root, and
-- never round in a ring.
pub record IsTree (s : Cache) (root : ℕ) : Type 0 where
  pub in_use : (s.nodes root).type ≢ 0
  pub top : (s.nodes root).parent_node ≡ none
  pub child :
      (n : ℕ)
      → Under s root n
      → All (λ c. ((s.nodes c).type ≢ 0) × ((s.nodes c).parent_node ≡ some n)) (s.nodes n).children

All-imp : (P Q : ℕ → Type 0) (xs : List ℕ) → ((x : ℕ) → P x → Q x) → All P xs → All Q xs
All-imp P Q [] f a = tt
All-imp P Q (x ∷ xs) f a = (f x a.0, All-imp P Q xs f a.1)

All-at : (P : ℕ → Type 0) (xs : List ℕ) (x : ℕ) → All P xs → Memᴰ x xs → P x
All-at P [] x a m = elim m [ ]
All-at P (y ∷ ys) x a (Memᴰ.head e) = subst P (sym e) a.0
All-at P (y ∷ ys) x a (Memᴰ.tail m) = All-at P ys x a.1 m

some_injective : (x y : ℕ) → some x ≡ some y → x ≡ y
some_injective x y e = ground arith

none_is_some : (q : ℕ) → none ≢ some q
none_is_some q h = ground arith

module _ (s : Cache) (root : ℕ) (t : IsTree s root) where
  pub Under-used : (n : ℕ) → Under s root n → (s.nodes n).type ≢ 0
  Under-used n at_root = t.in_use
  Under-used _ (below p n u m) =
      (All-at (λ c. ((s.nodes c).type ≢ 0) × ((s.nodes c).parent_node ≡ some p))
        (s.nodes p).children n (t.child p u) m).0

  pub child_parent :
      (p c : ℕ) → Under s root p → Memᴰ c (s.nodes p).children → (s.nodes c).parent_node ≡ some p
  child_parent p c u m =
      (All-at (λ k. ((s.nodes k).type ≢ 0) × ((s.nodes k).parent_node ≡ some p))
        (s.nodes p).children c (t.child p u) m).1

  -- A node under the root that has no parent is the root.
  pub Under-root : (n : ℕ) → Under s root n → (s.nodes n).parent_node ≡ none → n ≡ root
  Under-root n at_root e = refl
  Under-root _ (below p n u m) e = absurd (none_is_some p (sym e ∙ child_parent p n u m))

  -- The parent of a node under the root is under it too.
  pub Under-parent : (n q : ℕ) → Under s root n → (s.nodes n).parent_node ≡ some q → Under s root q
  Under-parent n q at_root e = absurd (none_is_some q (sym t.top ∙ e))
  Under-parent _ q (below p n u m) e =
      subst (Under s root) (some_injective p q (sym (child_parent p n u m) ∙ e)) u

  -- No node under the root is its own parent.
  pub Under-apart : (n p : ℕ) → Under s root n → (s.nodes n).parent_node ≡ some p → p ≢ n
  Under-apart n q at_root e h = none_is_some q (sym t.top ∙ e)
  Under-apart _ q (below p n u m) e h =
      let up = some_injective p q (sym (child_parent p n u m) ∙ e) in
      let same = up ∙ h in
      Under-apart p p u (ap (λ x. (s.nodes x).parent_node) same ∙ child_parent p n u m) refl

  -- All nodes in use stay as they are.
  module _ (s' : Cache) (same : (u : ℕ) → (s.nodes u).type ≢ 0 → s'.nodes u ≡ s.nodes u) where
    pub same-Under : (n : ℕ) → Under s root n → Under s' root n
    same-Under n at_root = at_root
    same-Under _ (below p n u m) =
        below p n (same-Under p u)
          (subst (λ x. Memᴰ n x.children) (sym (same p (Under-used p u))) m)

    before : (n : ℕ) → Under s' root n → Under s root n
    before n at_root = at_root
    before _ (below p n u m) =
        let up = before p u in
        below p n up (subst (λ x. Memᴰ n x.children) (same p (Under-used p up)) m)

    pub same-IsTree : IsTree s' root
    same-IsTree = record {
      in_use = λ z. t.in_use (sym (ap (λ x. x.type) (same root t.in_use)) ∙ z);
      top = ap (λ x. x.parent_node) (same root t.in_use) ∙ t.top;
      child = λ n u.
          let up = before n u in
          subst
            (λ x.
              All (λ c. ((s'.nodes c).type ≢ 0) × ((s'.nodes c).parent_node ≡ some n)) x.children)
            (sym (same n (Under-used n up)))
            (All-imp (λ c. ((s.nodes c).type ≢ 0) × ((s.nodes c).parent_node ≡ some n))
              (λ c. ((s'.nodes c).type ≢ 0) × ((s'.nodes c).parent_node ≡ some n))
              (s.nodes n).children
              (λ c h. (
                (λ z. h.0 (sym (ap (λ x. x.type) (same c h.0)) ∙ z)),
                ap (λ x. x.parent_node) (same c h.0) ∙ h.1,
              ))
              (t.child n up));
    }

-- A new node, in a slot that was free, is linked below `cur`, and all else stays.
pub record Linked (s s' : Cache) (cur n : ℕ) : Type 0 where
  pub was_free : (s.nodes n).type ≡ 0
  pub others : (u : ℕ) → (s.nodes u).type ≢ 0 → u ≢ cur → s'.nodes u ≡ s.nodes u
  pub cur_type : (s'.nodes cur).type ≡ (s.nodes cur).type
  pub cur_parent : (s'.nodes cur).parent_node ≡ (s.nodes cur).parent_node
  pub cur_children : (s'.nodes cur).children ≡ n ∷ (s.nodes cur).children
  pub new_used : (s'.nodes n).type ≢ 0
  pub new_children : (s'.nodes n).children ≡ []
  pub new_parent : (s'.nodes n).parent_node ≡ some cur

module _ (s s' : Cache) (root cur n : ℕ) (t : IsTree s root) (here : Under s root cur)
    (l : Linked s s' cur n) where
  abbrev Child : ℕ → ℕ → Type 0
  Child p c = ((s.nodes c).type ≢ 0) × ((s.nodes c).parent_node ≡ some p)

  abbrev Child' : ℕ → ℕ → Type 0
  Child' p c = ((s'.nodes c).type ≢ 0) × ((s'.nodes c).parent_node ≡ some p)

  still_used : (u : ℕ) → (s.nodes u).type ≢ 0 → (s'.nodes u).type ≢ 0
  still_used u used z = elim (eq_cases u cur) [
    | inl e ↦
        used
          (ap (λ x. (s.nodes x).type) e ∙ sym l.cur_type ∙ ap (λ x. (s'.nodes x).type) (sym e) ∙ z)
    | inr ne ↦ used (sym (ap (λ x. x.type) (l.others u used ne)) ∙ z)
  ]

  same_parent : (u : ℕ) → (s.nodes u).type ≢ 0 → (s'.nodes u).parent_node ≡ (s.nodes u).parent_node
  same_parent u used = elim (eq_cases u cur) [
    | inl e ↦ subst (λ x. (s'.nodes x).parent_node ≡ (s.nodes x).parent_node) (sym e) l.cur_parent
    | inr ne ↦ ap (λ x. x.parent_node) (l.others u used ne)
  ]

  kept : (p : ℕ) → Under s root p → All (Child' p) (s.nodes p).children
  kept p u =
      All-imp (Child p) (Child' p) (s.nodes p).children
        (λ c h. (still_used c h.0, same_parent c h.0 ∙ h.1)) (t.child p u)

  kept_mem : (p c : ℕ) → Under s root p → Memᴰ c (s.nodes p).children → Memᴰ c (s'.nodes p).children
  kept_mem p c u m = elim (eq_cases p cur) [
    | inl e ↦
        subst (λ x. Memᴰ c (s'.nodes x).children) (sym e)
          (subst (Memᴰ c) (sym l.cur_children)
            (Memᴰ.tail (subst (λ x. Memᴰ c (s.nodes x).children) e m)))
    | inr ne ↦ subst (λ x. Memᴰ c x.children) (sym (l.others p (Under-used s root t p u) ne)) m
  ]

  pub linked-Under : (m : ℕ) → Under s root m → Under s' root m
  linked-Under m at_root = at_root
  linked-Under _ (below p m u e) = below p m (linked-Under p u) (kept_mem p m u e)

  pub new-Under : Under s' root n
  new-Under =
      below cur n (linked-Under cur here) (subst (Memᴰ n) (sym l.cur_children) (Memᴰ.head refl))

  was_child : (p c : ℕ) → Under s root p → Memᴰ c (s'.nodes p).children → Under s root c ⊎ (c ≡ n)
  was_child p c u m = elim (eq_cases p cur) [
    | inl e ↦ at_cur (subst (Memᴰ c) l.cur_children (subst (λ x. Memᴰ c (s'.nodes x).children) e m))
    | inr ne ↦
        inl
          (below p c u (subst (λ x. Memᴰ c x.children) (l.others p (Under-used s root t p u) ne) m))
  ]
    where
      at_cur : Memᴰ c (n ∷ (s.nodes cur).children) → Under s root c ⊎ (c ≡ n)
      at_cur (Memᴰ.head e) = inr e
      at_cur (Memᴰ.tail k) = inl (below cur c here k)

  linked_before : (m : ℕ) → Under s' root m → Under s root m ⊎ (m ≡ n)
  linked_before m at_root = inl at_root
  linked_before _ (below p m u e) = elim (linked_before p u) [
    | inl up ↦ was_child p m up e
    | inr is_n ↦ elim (subst (Memᴰ m) (ap (λ x. (s'.nodes x).children) is_n ∙ l.new_children) e) [ ]
  ]

  pub linked-IsTree : IsTree s' root
  linked-IsTree = record {
    in_use = still_used root t.in_use;
    top = same_parent root t.in_use ∙ t.top;
    child = λ m u. elim (linked_before m u) [
      | inr is_n ↦
          subst (All (Child' m)) (sym (ap (λ x. (s'.nodes x).children) is_n ∙ l.new_children)) tt
      | inl up ↦ elim (eq_cases m cur) [
        | inr ne ↦
            subst (λ x. All (Child' m) x.children) (sym (l.others m (Under-used s root t m up) ne))
              (kept m up)
        | inl e ↦
            subst (λ x. All (Child' x) (s'.nodes x).children) (sym e)
              (subst (All (Child' cur)) (sym l.cur_children)
                ((l.new_used, l.new_parent), kept cur here))
      ]
    ];
  }
