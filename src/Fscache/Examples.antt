-- ===== src/Fscache/Examples.antt =====
-- Witnesses: a root, directory 1, with the file system loading a directory under any name.
use plenjos_kernel.Prelude.{
  ℕ, ◌≡◌, ◌≢◌, ◌⊎◌, refl, All, eq_cases, inl, arith, true, false, none, some, List, [], ◌∷◌, ◌==◌,
  if◌then◌else◌, bit_and, inr,
}
use plenjos_kernel.Prelude.Int.{ℤ, pos}
use plenjos_kernel.Access.{access_check, class_access, grant}
use plenjos_kernel.Fscache.{
  Node, Cache, slash, Loaded, loaded, answers, path_tokens, split_path, fscache_request_node,
}
use plenjos_kernel.Fscache.Links.{Under, IsTree}
use plenjos_kernel.Fscache.Locks.{OneReader, AboveRoot, Grows, Loads}
use plenjos_kernel.Fscache.Request.{fscache_request_node_locks}

abbrev directory : List ℕ → Node
directory name = record {
  type = 4;
  name = name;
  uid = 0;
  gid = 0;
  mode = 511;
  parent_node = none;
  children = [];
}

abbrev free_slot : Node
free_slot = record {
  type = 0;
  name = [];
  uid = 0;
  gid = 0;
  mode = 0;
  parent_node = none;
  children = [];
}

abbrev root_only : Cache
root_only = record {
  nodes = λ u. if u == 1 then directory [] else free_slot;
  locks = λ u. pos 0;
  slots = 1 ∷ 2 ∷ 3 ∷ 4 ∷ [];
}

abbrev load_any : Cache → ℕ → List ℕ → Loaded
load_any s n t = loaded (directory t)

load_any-Loads : Loads load_any
load_any-Loads = record {
  in_use = λ s n t node e. ground arith;
  no_child = λ s n t node e. ground arith;
  no_parent = λ s n t node e. ground arith;
}

root_only-IsTree : IsTree root_only 1
root_only-IsTree = record { in_use = ground arith; top = refl; child = λ n u. no_child n }
  where
    no_child :
        (n : ℕ)
        → All
            (λ c. ((root_only.nodes c).type ≢ 0) × ((root_only.nodes c).parent_node ≡ some n))
            (root_only.nodes n).children
    no_child n = elim (eq_cases n 1) [ inl e ↦ ground arith | inr ne ↦ ground arith ]

test_tokens :
    path_tokens (slash ∷ 97 ∷ slash ∷ 98 ∷ slash ∷ [])
    ≡ record { text = 97 ∷ []; at_end = false } ∷ record { text = 98 ∷ []; at_end = false } ∷ []
unfolding path_tokens split_path
test_tokens = refl

abbrev path_ab : List ℕ
path_ab = slash ∷ 97 ∷ slash ∷ 98 ∷ []

fscache_request_node_locks_example :
    (code : ℤ) × (n : ℕ) × (s' : Cache) × (fscache_request_node load_any 0
        (some 1)
        root_only
        true
        path_ab
      ≡ answers code (some n) s')
    × IsTree s' 1
    × Grows 1 root_only s'
    × Under s' 1 n
    × (OneReader s' n ⊎ AboveRoot s' 1 code n)
fscache_request_node_locks_example =
    fscache_request_node_locks load_any 0 1 root_only path_ab load_any-Loads root_only-IsTree
      (λ u. inr refl) refl

may_search : (bit_and (access_check 511 0 0 0) 1 == 0) ≡ false
unfolding access_check class_access grant
may_search = refl
