-- ===== src/Vfs/Locks.antt =====
-- The locks of the nodes while vfs/vfs.c works on a node that fscache_request_node has read-locked.
use plenjos_kernel.Prelude.{
  ℕ, ◌≡◌, ◌≢◌, ◌⊎◌, sym, ap, ◌∙◌, arith, none, some, List, [], eq_cases, Option-cases, inl, inr,
}
use plenjos_kernel.Prelude.Int.{pos}
use plenjos_kernel.Fscache.{
  remove_reader, Node, Cache, set_node, set_lock, fscache_allocate_node, first_free,
}
use plenjos_kernel.Fscache.Links.{IsTree, same-IsTree}
use plenjos_kernel.Fscache.Locks.{OneReader, first_free-free, locked-IsTree, released_all}
use plenjos_kernel.Vfs.{Vfs, release, FileSystem, created}

-- The nodes under the root are a tree, and `n` has one reader; no other lock of a node in use is held.
abbrev pub Held : ℕ → Vfs → ℕ → Type 0
Held root s n = IsTree s.cache root × OneReader s.cache n

-- The nodes under the root are a tree, and no lock of a node in use is held.
pub record Idle (root : ℕ) (s : Vfs) : Type 0 where
  pub tree : IsTree s.cache root
  pub free : (u : ℕ) → ((s.cache.nodes u).type ≡ 0) ⊎ (s.cache.locks u ≡ pos 0)

-- What the file systems keep to: a node that is created is in use, and not yet part of the tree.
pub record Creates (fs : FileSystem) : Type 0 where
  pub in_use :
      (s : Cache) (p : ℕ) (name : List ℕ) (type uid gid mode : ℕ) (node : Node)
      → fs.create_child s p name type uid gid mode ≡ created node
      → node.type ≢ 0
  pub no_child :
      (s : Cache) (p : ℕ) (name : List ℕ) (type uid gid mode : ℕ) (node : Node)
      → fs.create_child s p name type uid gid mode ≡ created node
      → node.children ≡ []
  pub no_parent :
      (s : Cache) (p : ℕ) (name : List ℕ) (type uid gid mode : ℕ) (node : Node)
      → fs.create_child s p name type uid gid mode ≡ created node
      → node.parent_node ≡ none

-- the one reader goes
pub release-Idle : {root : ℕ} (s : Vfs) (n : ℕ) → Held root s n → Idle root (release s n)
unfolding release
release-Idle s n (t, o) = record {
  tree = (locked-IsTree s.cache n (remove_reader (s.cache.locks n)) t).0;
  free = (released_all s.cache n o).1;
}

-- A node stands in a slot that was free, read-locked and not part of the tree.
pub record New (s t : Cache) (k : ℕ) : Type 0 where
  pub was_free : (s.nodes k).type ≡ 0
  pub in_use : (t.nodes k).type ≢ 0
  pub no_child : (t.nodes k).children ≡ []
  pub no_parent : (t.nodes k).parent_node ≡ none
  pub reader : t.locks k ≡ pos 1
  pub same_nodes : (u : ℕ) → u ≢ k → t.nodes u ≡ s.nodes u
  pub same_locks : (u : ℕ) → u ≢ k → t.locks u ≡ s.locks u

-- With the lock of the new node released, the one reader is left.
New-IsTree : {root : ℕ} (s t : Cache) (k : ℕ) → IsTree s root → New s t k → IsTree t root
New-IsTree {root} s t k tree w =
    same-IsTree s root tree t
      (λ u used. w.same_nodes u (λ e. used (ap (λ x. (s.nodes x).type) e ∙ w.was_free)))

pub new-Held :
    {root : ℕ} (s t : Vfs) (n k : ℕ)
    → Held root s n
    → New s.cache t.cache k
    → Held root (release t k) n
unfolding release set_lock
new-Held s t n k (tree, o) w =
    let after = New-IsTree s.cache t.cache k tree w in
    let other : n ≢ k = λ e. o.in_use (ap (λ x. (s.cache.nodes x).type) e ∙ w.was_free) in
    (
      (locked-IsTree t.cache k (remove_reader (t.cache.locks k)) after).0,
      record {
        in_use = λ z. o.in_use (sym (ap (λ x. x.type) (w.same_nodes n other)) ∙ z);
        reader = ground (arith, w.same_locks n other, o.reader);
        others = λ u h. elim (eq_cases u k) [
          | inl e ↦ inr (ground (arith, w.reader))
          | inr ne ↦ other_lock u h ne (w.same_nodes u ne) (w.same_locks u ne) (o.others u h)
        ];
      },
    )
  where
    other_lock :
        (u : ℕ)
        → u ≢ n
        → u ≢ k
        → t.cache.nodes u ≡ s.cache.nodes u
        → t.cache.locks u ≡ s.cache.locks u
        → ((s.cache.nodes u).type ≡ 0) ⊎ (s.cache.locks u ≡ pos 0)
        → (((release t k).cache.nodes u).type ≡ 0) ⊎ ((release t k).cache.locks u ≡ pos 0)
    other_lock u h ne nodes locks was = ground (arith, nodes, locks, was)

pub allocated-New : (c c' : Cache) (k : ℕ) → fscache_allocate_node c ≡ some (k, c') → New c c' k
unfolding fscache_allocate_node set_lock set_node
allocated-New c c' k e = elim (Option-cases (first_free c c.slots)) [
  | inl none_free ↦ absurd (ground arith)
  | inr (j, found) ↦
      let free = first_free-free c c.slots j found in
      record {
        was_free = ground arith;
        in_use = ground arith;
        no_child = ground arith;
        no_parent = ground arith;
        reader = ground arith;
        same_nodes = λ u h. ground arith;
        same_locks = λ u h. ground arith;
      }
]

pub put-New :
    (c c' : Cache) (k : ℕ) (node : Node)
    → New c c' k
    → node.type ≢ 0
    → node.children ≡ []
    → node.parent_node ≡ none
    → New c (set_node c' k node) k
unfolding set_node
put-New c c' k node w used no_child no_parent =
    let nodes = w.same_nodes in
    record {
      was_free = w.was_free;
      in_use = ground arith;
      no_child = ground arith;
      no_parent = ground arith;
      reader = w.reader;
      same_nodes = λ u h. ground (arith, nodes u);
      same_locks = w.same_locks;
    }
