-- ===== src/Vfs/Sample.antt =====
-- A root, directory 1, with a file system that loads and creates directories of user 1000 under any
-- name; and the root opened by user 5.
use plenjos_kernel.Prelude.{
  ◌≡◌, ◌≢◌, List, All, eq_cases, inl, ℕ, ◌≡◌, refl, arith, true, none, some, List, [], ◌∷◌, ◌==◌,
  if◌then◌else◌, inr,
}
use plenjos_kernel.Prelude.Int.{pos}
use plenjos_kernel.Access.{access_check, class_access, grant}
use plenjos_kernel.Fscache.{
  Node, Cache, loaded, answers, fscache_request_node, path_tokens, split_path, set_and_return,
  follow_tokens, set_lock,
}
use plenjos_kernel.Fscache.Locks.{Loads}
use plenjos_kernel.Vfs.{
  Handle, Vfs, Reply, created, FileSystem, vfs_open, opened, open_answered, open_existing,
  handle_access, vfs_helper_create_handle, set_ref, set_handle, release,
}
use plenjos_kernel.Vfs.Locks.{Idle, Creates}

abbrev pub node_of : ℕ → List ℕ → ℕ → Node
node_of type name mode = record {
  type = type;
  name = name;
  uid = 1000;
  gid = 0;
  mode = mode;
  parent_node = none;
  children = [];
}

abbrev pub fs : FileSystem
fs = record {
  load_node = λ c n t. loaded (node_of 4 t 365);
  can_create = λ c n. true;
  create_child = λ c n t type uid gid mode. created (node_of 4 t mode);
}

pub fs-Loads : Loads fs.load_node
fs-Loads = record {
  in_use = λ s n t node e. ground arith;
  no_child = λ s n t node e. ground arith;
  no_parent = λ s n t node e. ground arith;
}

pub fs-Creates : Creates fs
fs-Creates = record {
  in_use = λ s n t type uid gid mode node e. ground arith;
  no_child = λ s n t type uid gid mode node e. ground arith;
  no_parent = λ s n t type uid gid mode node e. ground arith;
}

abbrev pub start : Vfs
start = record {
  cache = record {
    nodes = λ u. if u == 1 then node_of 4 [] 511 else node_of 0 [] 0;
    locks = λ u. pos 0;
    slots = 1 ∷ 2 ∷ 3 ∷ [];
  };
  refs = λ u. pos 0;
  handles = λ a. none;
}

pub start-Idle : Idle 1 start
start-Idle = record {
  tree = record { in_use = ground arith; top = refl; child = λ n u. no_child n };
  free = λ u. inr refl;
}
  where
    no_child :
        (n : ℕ)
        → All
            (λ c. ((start.cache.nodes c).type ≢ 0) × ((start.cache.nodes c).parent_node ≡ some n))
            (start.cache.nodes n).children
    no_child n = elim (eq_cases n 1) [ inl e ↦ ground arith | inr ne ↦ ground arith ]

-- the path `/a`
abbrev pub path_a : List ℕ
path_a = 47 ∷ 97 ∷ []

-- the root, a directory that user 5 may read, opened by that user
abbrev pub root_path : List ℕ
root_path = 47 ∷ []

abbrev pub closed_root : Vfs
closed_root = record start {
  cache = record start.cache { nodes = λ u. if u == 1 then node_of 4 [] 365 else node_of 0 [] 0 };
}

abbrev pub root_locked : Cache
root_locked = record closed_root.cache { locks = λ u. if u == 1 then pos 1 else pos 0 }

abbrev pub root_handle : Handle
root_handle = record { backing_node = 1; access = 4 }

abbrev pub root_reply : Reply
root_reply = record {
  code = pos 0;
  handle = some 64;
  state = record {
    cache = record root_locked {
      locks = λ u. if u == 1 then pos 0 else (if u == 1 then pos 1 else pos 0);
    };
    refs = λ u. if u == 1 then pos 1 else pos 0;
    handles = λ a. if a == 64 then some root_handle else none;
  };
}

pub root_found :
    fscache_request_node fs.load_node 5 (some 1) closed_root.cache true root_path
    ≡ answers (pos 0) (some 1) root_locked
unfolding fscache_request_node path_tokens split_path follow_tokens set_and_return set_lock
root_found = refl

pub root_opened :
    vfs_open fs (some 1) (some 64) root_path 4 0 5 true closed_root ≡ opened root_reply
unfolding vfs_open fscache_request_node path_tokens split_path follow_tokens set_and_return set_lock
    open_answered open_existing handle_access vfs_helper_create_handle set_ref set_handle release
    access_check class_access grant
root_opened = refl
