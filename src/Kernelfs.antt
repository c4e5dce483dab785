-- ===== src/Kernelfs.antt =====
-- vfs/kernelfs.c: the kernel's own file system, a tree of nodes at addresses. The address of a new node
-- is what kmalloc_heap gives to the call; whether a node's table of operations finds memory is `room`.
use plenjos_kernel.Prelude.{
  ℕ, zero, suc, Bool, true, false, Option, none, some, List, [], ◌∷◌, ◌++◌, ◌==◌, not,
  if◌then◌else◌, take,
}
use plenjos_kernel.Prelude.Int.{ℤ, pos, negsuc}
use plenjos_kernel.Fscache.{
  Node, Cache, Loaded, loaded, load_error, same_text, dt_dir, einval, enoent, enomem, enotdir,
}
use plenjos_kernel.Vfs.{FileSystem, Created, created, create_error, eexist}
pub mod Create
pub mod Interface
mod Examples

abbrev pub enosys : ℤ
enosys = negsuc 37

-- `struct kernelfs_node`: the children are those that the links of siblings go through, in their order.
pub record Entry : Type 0 where
  pub name : List ℕ
  pub type : ℕ
  pub uid : ℕ
  pub gid : ℕ
  pub mode : ℕ
  pub children : List ℕ

abbrev pub Store : Type 0
Store = ℕ → Entry

unfoldable pub put : Store → ℕ → Entry → Store
put s k e = λ u. if u == k then e else s u

-- `strncmp(a, b, NAME_MAX + 1) == 0`
abbrev pub same_name : List ℕ → List ℕ → Bool
same_name a b = same_text (take 256 a) (take 256 b)

-- the walk over the children, for `kernelfs_create_node` and `kernelfs_load`
unfoldable pub find_child : Store → List ℕ → List ℕ → Option ℕ
find_child s [] name = none
find_child s (k ∷ ks) name =
    let rest = find_child s ks name in if same_name (s k).name name then some k else rest

-- the new node, with the first NAME_MAX bytes of the name
abbrev pub new_entry : List ℕ → ℕ → ℕ → ℕ → ℕ → Entry
new_entry name type uid gid mode = record {
  name = take 255 name;
  type = type;
  uid = uid;
  gid = gid;
  mode = mode;
  children = [];
}

-- The new node is put behind the last child.
unfoldable pub add_child : Store → ℕ → ℕ → Entry → Store
unfolding put
add_child s parent k e =
    let t = put s k e in
    put t parent (record (t parent) { children = (t parent).children ++ k ∷ [] })

-- what a call returns: the code, the node, and the nodes after it
pub record Made : Type 0 where
  pub code : ℤ
  pub out : Option ℕ
  pub nodes : Store

abbrev pub not_made : Store → ℤ → Made
not_made s e = record { code = e; out = none; nodes = s }

unfoldable pub kernelfs_create_node : Option ℕ → ℕ → List ℕ → ℕ → ℕ → ℕ → ℕ → Store → Made
unfolding add_child find_child
kernelfs_create_node block parent [] type uid gid mode s = not_made s einval
kernelfs_create_node block parent (c ∷ cs) type uid gid mode s =
    elim (find_child s (s parent).children (c ∷ cs)) [
      | some k ↦ not_made s eexist
      | none ↦ if not ((s parent).type == dt_dir) then not_made s (negsuc 1) else elim block [
        | none ↦ not_made s (negsuc 2)
        | some k ↦ record {
          code = pos 0;
          out = some k;
          nodes = add_child s parent k (new_entry (c ∷ cs) type uid gid mode);
        }
      ]
    ]

-- A node of the cache, and the kernel's node that its `internal_data` leads to.
pub record Populated : Type 0 where
  pub node : Node
  pub internal_data : ℕ

pub data Load : Type 0 where
  populated : Populated → Load
  fails : ℤ → Load

-- `fscache_node_populate` in a cleared node
abbrev pub populate : Store → ℕ → Populated
populate s k = record {
  node = record {
    type = (s k).type;
    name = take 255 (s k).name;
    uid = (s k).uid;
    gid = (s k).gid;
    mode = (s k).mode;
    parent_node = none;
    children = [];
  };
  internal_data = k;
}

-- `kernelfs_load` under the kernel's node `parent`, with a name
unfoldable pub kernelfs_load : Bool → Store → ℕ → List ℕ → Load
unfolding find_child
kernelfs_load room s parent name = elim (find_child s (s parent).children name) [
  | none ↦ fails enoent
  | some k ↦ if room then populated (populate s k) else fails enomem
]

-- `kernelfs_create_child`, for a node of the cache of type `parent_type` over the node `parent`
unfoldable pub kernelfs_create_child :
    Bool → Option ℕ → ℕ → ℕ → List ℕ → ℕ → ℕ → ℕ → ℕ → Store → Load × Store
unfolding kernelfs_create_node kernelfs_load
kernelfs_create_child room block parent_type parent name type uid gid mode s =
    if not (parent_type == dt_dir)
    then (fails enotdir, s)
    else (if not (type == dt_dir)
        then (fails enosys, s)
        else (let m = kernelfs_create_node block parent name type uid gid mode s in
            elim m.out [
              | none ↦ (fails m.code, m.nodes)
              | some k ↦ (kernelfs_load room m.nodes parent name, m.nodes)
            ]))
