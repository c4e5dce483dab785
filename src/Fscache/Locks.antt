-- ===== src/Fscache/Locks.antt =====
-- The locks that `fscache_request_node` leaves: one reader on the node it ends at.
use plenjos_kernel.Prelude.{
  ℕ, ◌≡◌, ◌≢◌, ◌⊎◌, refl, sym, subst, arith, Option, none, some, List, [], ◌∷◌, ◌==◌, Bool-cases,
  inl, inr,
}
use plenjos_kernel.Prelude.Int.{ℤ, pos}
use mathlib.Core.List.{Memᴰ}
use plenjos_kernel.Fscache.Links.{
  Under, IsTree, Under-used, Under-root, Under-parent, Under-apart, same-Under, same-IsTree,
}
use plenjos_kernel.Fscache.{
  same_text, Node, Cache, set_lock, remove_reader, find_in_children, first_free, Outcome, stops,
  goes_on, waits, move_to, to_parent, Loaded, loaded, enoent,
}

-- The lock of every node in use is free, but for one reader of `cur`.
pub record OneReader (s : Cache) (cur : ℕ) : Type 0 where
  pub in_use : (s.nodes cur).type ≢ 0
  pub reader : s.locks cur ≡ pos 1
  pub others : (u : ℕ) → u ≢ cur → ((s.nodes u).type ≡ 0) ⊎ (s.locks u ≡ pos 0)

-- the end of a path that goes above the root: the lock of the root is free, as are all others
pub record AboveRoot (s : Cache) (root : ℕ) (e : ℤ) (n : ℕ) : Type 0 where
  pub code : e ≡ enoent
  pub is_root : n ≡ root
  pub idle : (u : ℕ) → ((s.nodes u).type ≡ 0) ⊎ (s.locks u ≡ pos 0)
  pub released : s.locks n ≡ pos 0

-- No node leaves the tree.
abbrev pub Grows : ℕ → Cache → Cache → Type 0
Grows root s s' = (n : ℕ) → Under s root n → Under s' root n

-- A step from the cache `s` leaves a tree, with the nodes of before, and with one reader, on the node
-- of the tree that it has come to, unless it goes above the root.
abbrev pub Left : ℕ → Cache → Outcome → Type 0
Left root s (stops e n s') =
    IsTree s' root × Grows root s s' × Under s' root n × (OneReader s' n ⊎ AboveRoot s' root e n)
Left root s (goes_on n s') = IsTree s' root × Grows root s s' × Under s' root n × OneReader s' n
Left root s waits = ⊥

-- Locks are no part of the tree.
pub locked-IsTree :
    {root : ℕ} (s : Cache) (k : ℕ) (v : ℤ)
    → IsTree s root
    → IsTree (set_lock s k v) root × ((n : ℕ) → Under s root n → Under (set_lock s k v) root n)
unfolding set_lock
locked-IsTree {root} s k v t = (
  same-IsTree s root t (set_lock s k v) (λ u h. refl),
  same-Under s root t (set_lock s k v) (λ u h. refl),
)

-- the cache after a move from one node to another
abbrev pub moved : Cache → ℕ → ℕ → Cache
moved s cur next =
    let s' = set_lock s next (pos 1) in set_lock s' cur (remove_reader (s'.locks cur))

move_to-run :
    (s : Cache) (cur next : ℕ)
    → s.locks next ≡ pos 0
    → move_to s cur next ≡ goes_on next (moved s cur next)
unfolding move_to
move_to-run s cur next free = rw (free, move_to) refl

moved-OneReader :
    (s : Cache) (cur next : ℕ)
    → OneReader s cur
    → (s.nodes next).type ≢ 0
    → next ≢ cur
    → s.locks next ≡ pos 0
    → OneReader (moved s cur next) next
unfolding set_lock
moved-OneReader s cur next o there ne free =
    let reader = o.reader in
    let others = o.others in
    record { in_use = there; reader = ground arith; others = λ u h. ground (arith, others u) }

lock_free :
    (s : Cache) (cur next : ℕ)
    → OneReader s cur
    → (s.nodes next).type ≢ 0
    → next ≢ cur
    → s.locks next ≡ pos 0
lock_free s cur next o there ne = elim (o.others next ne) [ inl z ↦ absurd (there z) | inr e ↦ e ]

moved-IsTree :
    {root : ℕ} (s : Cache) (cur next : ℕ)
    → IsTree s root
    → IsTree (moved s cur next) root × ((n : ℕ) → Under s root n → Under (moved s cur next) root n)
unfolding set_lock
moved-IsTree {root} s cur next t = (
  same-IsTree s root t (moved s cur next) (λ u h. refl),
  same-Under s root t (moved s cur next) (λ u h. refl),
)

pub move_to-Left :
    {root : ℕ} (s : Cache) (cur next : ℕ)
    → IsTree s root
    → Under s root next
    → OneReader s cur
    → (s.nodes next).type ≢ 0
    → next ≢ cur
    → Left root s (move_to s cur next)
move_to-Left {root} s cur next t under o there ne =
    let free = lock_free s cur next o there ne in
    let (tree, keeps) = moved-IsTree s cur next t in
    subst (Left root s) (sym (move_to-run s cur next free))
      (tree, keeps, keeps next under, moved-OneReader s cur next o there ne free)

pub released_all :
    (s : Cache) (cur : ℕ)
    → OneReader s cur
    → (let s' = set_lock s cur (remove_reader (s.locks cur)) in
        (s'.locks cur ≡ pos 0) × ((u : ℕ) → ((s'.nodes u).type ≡ 0) ⊎ (s'.locks u ≡ pos 0)))
unfolding set_lock
released_all s cur o =
    let reader = o.reader in let others = o.others in (ground arith, λ u. ground (arith, others u))

pub to_parent-Left :
    {root : ℕ} (s : Cache) (cur : ℕ) (p : Option ℕ)
    → IsTree s root
    → Under s root cur
    → OneReader s cur
    → (s.nodes cur).parent_node ≡ p
    → Left root s (to_parent s cur)
unfolding to_parent
to_parent-Left {root} s cur none t under o e =
    let (tree, keeps) = locked-IsTree s cur (remove_reader (s.locks cur)) t in
    let (released, idle) = released_all s cur o in
    rw (e, to_parent)
      (
        tree,
        keeps,
        keeps cur under,
        inr (record {
          code = refl;
          is_root = Under-root s root t cur under e;
          idle = idle;
          released = released;
        }),
      )
to_parent-Left {root} s cur (some p) t under o e =
    let up = Under-parent s root t cur p under e in
    rw (e, to_parent)
      (move_to-Left s cur p t up o (Under-used s root t p up) (Under-apart s root t cur p under e))

-- A child that is found by its name is one of the children.
pub find-Memᴰ :
    (s : Cache) (ns : List ℕ) (token : List ℕ) (c : ℕ)
    → find_in_children s ns token ≡ some c
    → Memᴰ c ns
unfolding find_in_children
find-Memᴰ s [] token c e = absurd (ground arith)
find-Memᴰ s (n ∷ ns) token c e = elim (Bool-cases (same_text (s.nodes n).name token)) [
  | inl same ↦ Memᴰ.head (ground arith)
  | inr other ↦ Memᴰ.tail (find-Memᴰ s ns token c (ground arith))
]

pub first_free-free :
    (s : Cache) (ns : List ℕ) (n : ℕ) → first_free s ns ≡ some n → (s.nodes n).type ≡ 0
unfolding first_free
first_free-free s [] n e = absurd (ground arith)
first_free-free s (k ∷ ks) n e = elim (Bool-cases ((s.nodes k).type == 0)) [
  | inl same ↦ ground arith
  | inr other ↦ first_free-free s ks n (ground arith)
]

-- What the file systems keep to: a node that is loaded is in use, and not yet part of the tree.
pub record Loads (load_node : Cache → ℕ → List ℕ → Loaded) : Type 0 where
  pub in_use :
      (s : Cache) (n : ℕ) (t : List ℕ) (node : Node) → load_node s n t ≡ loaded node → node.type ≢ 0
  pub no_child :
      (s : Cache) (n : ℕ) (t : List ℕ) (node : Node)
      → load_node s n t ≡ loaded node
      → node.children ≡ []
  pub no_parent :
      (s : Cache) (n : ℕ) (t : List ℕ) (node : Node)
      → load_node s n t ≡ loaded node
      → node.parent_node ≡ none
