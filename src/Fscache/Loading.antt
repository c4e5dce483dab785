-- ===== src/Fscache/Loading.antt =====
-- A child that is loaded into the tree of nodes, or whose slot is given back (`fscache_request_node` in
-- vfs/fscache.c), with the locks.
use plenjos_kernel.Prelude.{
  ℕ, ◌≡◌, ◌≢◌, sym, ap, ◌∙◌, arith, Option, none, some, [], ◌==◌, if◌then◌else◌, eq_cases, inl, inr,
}
use plenjos_kernel.Prelude.Int.{ℤ, pos, negsuc}
use plenjos_kernel.Fscache.Links.{
  Under, IsTree, same-Under, same-IsTree, Linked, linked-IsTree, linked-Under, new-Under,
}
use plenjos_kernel.Fscache.{
  enomem, Node, Cache, set_node, set_lock, link_node, cleared, first_free, fscache_allocate_node,
  stops,
}
use plenjos_kernel.Fscache.Locks.{OneReader, Grows, Left, locked-IsTree}

-- the slot of a child, and the lock of the node above it taken for writing
abbrev pub reserved : Cache → ℕ → ℕ → Cache
reserved s cur n = set_lock (set_node (set_lock s cur (negsuc 0)) n cleared) n (pos 1)

-- the cache after a load that failed, and after one that worked
abbrev pub given_back : Cache → ℕ → ℕ → Cache
given_back s cur n =
    set_lock (set_node (reserved s cur n) n (record ((reserved s cur n).nodes n) { type = 0 })) cur
      (pos 1)

abbrev pub taken_in : Cache → ℕ → ℕ → Node → Cache
taken_in s cur n node = set_lock (link_node (set_node (reserved s cur n) n node) cur n) cur (pos 0)

given_back_nodes :
    (s : Cache) (cur n : ℕ)
    → (s.nodes n).type ≡ 0
    → (u : ℕ) → (s.nodes u).type ≢ 0
    → (given_back s cur n).nodes u ≡ s.nodes u
unfolding set_node set_lock
given_back_nodes s cur n free u used = ground arith

given_back-OneReader :
    (s : Cache) (cur n : ℕ)
    → OneReader s cur
    → (s.nodes n).type ≡ 0
    → OneReader (given_back s cur n) cur
unfolding set_node set_lock
given_back-OneReader s cur n o free =
    let used = o.in_use in
    let reader = o.reader in
    let others = o.others in
    record {
      in_use = ground arith;
      reader = ground arith;
      others = λ u h. ground (arith, others u);
    }

pub given_back_lem :
    {root : ℕ} (s : Cache) (cur n : ℕ)
    → IsTree s root
    → Under s root cur
    → OneReader s cur
    → (s.nodes n).type ≡ 0
    → IsTree (given_back s cur n) root
      × Grows root s (given_back s cur n)
      × Under (given_back s cur n) root cur
      × OneReader (given_back s cur n) cur
given_back_lem {root} s cur n t under o free =
    let same = given_back_nodes s cur n free in
    (
      same-IsTree s root t (given_back s cur n) same,
      same-Under s root t (given_back s cur n) same,
      same-Under s root t (given_back s cur n) same cur under,
      given_back-OneReader s cur n o free,
    )

taken_in-locks :
    (s : Cache) (cur n : ℕ) (node : Node) (u : ℕ)
    → (taken_in s cur n node).locks u
      ≡ (if u == cur then pos 0 else (if u == n then pos 1 else s.locks u))
unfolding set_lock link_node set_node
taken_in-locks s cur n node u = ground arith

taken_in-type :
    (s : Cache) (cur n : ℕ) (node : Node) (u : ℕ)
    → u ≢ n
    → ((taken_in s cur n node).nodes u).type ≡ (s.nodes u).type
unfolding set_lock link_node set_node
taken_in-type s cur n node u h = ground arith

taken_in-Linked :
    (s : Cache) (cur n : ℕ) (node : Node)
    → n ≢ cur
    → (s.nodes n).type ≡ 0
    → node.type ≢ 0
    → node.children ≡ []
    → Linked s (taken_in s cur n node) cur n
unfolding set_lock link_node set_node
taken_in-Linked s cur n node apart free used no_child = record {
  was_free = free;
  others = λ u h ne. ground arith;
  cur_type = ground arith;
  cur_parent = ground arith;
  cur_children = ground arith;
  new_used = ground arith;
  new_children = ground arith;
  new_parent = ground arith;
}

taken_in-OneReader :
    (s : Cache) (cur n : ℕ) (node : Node)
    → n ≢ cur
    → OneReader s cur
    → ((taken_in s cur n node).nodes n).type ≢ 0
    → OneReader (taken_in s cur n node) n
taken_in-OneReader s cur n node apart o used = record {
  in_use = used;
  reader = taken_in-locks s cur n node n ∙ ground arith;
  others = λ u h. elim (eq_cases u cur) [
    | inl e ↦ inr (taken_in-locks s cur n node u ∙ ground arith)
    | inr ne ↦ elim (o.others u ne) [
      | inl z ↦ inl (taken_in-type s cur n node u h ∙ z)
      | inr l ↦ inr (taken_in-locks s cur n node u ∙ ground arith)
    ]
  ];
}

pub taken_in_lem :
    {root : ℕ} (s : Cache) (cur n : ℕ) (node : Node)
    → IsTree s root
    → Under s root cur
    → OneReader s cur
    → (s.nodes n).type ≡ 0
    → node.type ≢ 0
    → node.children ≡ []
    → IsTree (taken_in s cur n node) root
      × Grows root s (taken_in s cur n node)
      × Under (taken_in s cur n node) root n
      × OneReader (taken_in s cur n node) n
taken_in_lem {root} s cur n node t under o free used no_child =
    let apart : n ≢ cur = (λ e. o.in_use (ap (λ x. (s.nodes x).type) (sym e) ∙ free)) in
    let linked = taken_in-Linked s cur n node apart free used no_child in
    (
      linked-IsTree s (taken_in s cur n node) root cur n t under linked,
      linked-Under s (taken_in s cur n node) root cur n t under linked,
      new-Under s (taken_in s cur n node) root cur n t under linked,
      taken_in-OneReader s cur n node apart o linked.new_used,
    )

pub allocate-none : (s : Cache) → first_free s s.slots ≡ none → fscache_allocate_node s ≡ none
unfolding fscache_allocate_node
allocate-none s e = ground arith

pub allocate-some :
    (s : Cache) (n : ℕ)
    → first_free s s.slots ≡ some n
    → fscache_allocate_node s ≡ some (n, set_lock (set_node s n cleared) n (pos 1))
unfolding fscache_allocate_node
allocate-some s n e = ground arith

pub same_slots :
    (s : Cache) (cur : ℕ) (l : ℤ) (o : Option ℕ)
    → first_free (set_lock s cur l) s.slots ≡ o
    → first_free (set_lock s cur l) (set_lock s cur l).slots ≡ o
unfolding set_lock
same_slots s cur l o e = e

pub locked_type :
    (s : Cache) (cur n : ℕ) (l : ℤ) → ((set_lock s cur l).nodes n).type ≡ 0 → (s.nodes n).type ≡ 0
unfolding set_lock
locked_type s cur n l e = e

pub relock_lem :
    {root : ℕ} (s : Cache) (cur : ℕ)
    → IsTree s root
    → Under s root cur
    → OneReader s cur
    → Left root s (stops enomem cur (set_lock s cur (pos 1)))
unfolding set_lock
relock_lem s cur t under o =
    let used = o.in_use in
    let others = o.others in
    let (tree, keeps) = locked-IsTree s cur (pos 1) t in
    (
      tree,
      keeps,
      keeps cur under,
      inl (record {
        in_use = used;
        reader = ground arith;
        others = λ u h. ground (arith, others u);
      }),
    )
