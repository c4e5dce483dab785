-- ===== src/Kernelfs/Interface.antt =====
-- The kernel's file system (vfs/kernelfs.c) as one of those that vfs/vfs.c and vfs/fscache.c call through
-- pointers.
use plenjos_kernel.Prelude.{
  ℕ, ◌≡◌, ◌≢◌, refl, ap, arith, Bool, if◌then◌else◌, not, ◌∷◌, subst, true, false, Option, none,
  some, List, [], ◌==◌, Option-cases, Bool-cases, inl, inr,
}
use plenjos_kernel.Prelude.Int.{pos, negsuc}
use plenjos_kernel.Fscache.{Node, Cache, Loaded, loaded, load_error, dt_dir}
use plenjos_kernel.Fscache.Locks.{Loads}
use plenjos_kernel.Vfs.{FileSystem, Created, created, create_error}
use plenjos_kernel.Vfs.Locks.{Creates}
use plenjos_kernel.Kernelfs.{
  Entry, Store, put, Load, populated, fails, populate, find_child, add_child, new_entry, Made,
  not_made, kernelfs_create_node, kernelfs_load, kernelfs_create_child,
}

abbrev pub as_loaded : Load → Loaded
as_loaded (populated p) = loaded p.node
as_loaded (fails e) = load_error e

abbrev pub as_created : Load → Created
as_created (populated p) = created p.node
as_created (fails e) = create_error e

-- Over the kernel's nodes of one moment, with the node that the `internal_data` of each node of the cache
-- leads to. Directories have a `create_child`.
unfoldable pub kernel_fs : (ℕ → ℕ) → Bool → Option ℕ → Store → FileSystem
unfolding kernelfs_load kernelfs_create_child
kernel_fs data_of room block s = record {
  load_node = λ c n name. as_loaded (kernelfs_load room s (data_of n) name);
  can_create = λ c n. (s (data_of n)).type == dt_dir;
  create_child = λ c n name type uid gid mode.
      as_created
        (kernelfs_create_child room block (c.nodes n).type (data_of n) name type uid gid mode s).0;
}

-- What is loaded is in use, and not yet part of the tree of the cache.
abbrev Good : Load → Type 0
Good (populated p) = (p.node.type ≢ 0) × (p.node.children ≡ []) × (p.node.parent_node ≡ none)
Good (fails e) = Unit

-- no node of the kernel has type 0
abbrev pub Typed : Store → Type 0
Typed s = (k : ℕ) → (s k).type ≢ 0

load-Good :
    (room : Bool) (s : Store) (parent : ℕ) (name : List ℕ)
    → Typed s
    → Good (kernelfs_load room s parent name)
unfolding kernelfs_load
load-Good room s parent name t = elim (Option-cases (find_child s (s parent).children name)) [
  | inl e ↦ rw (e, kernelfs_load) tt
  | inr (k, e) ↦ rw (e, kernelfs_load) (choose room k)
]
  where
    choose : (b : Bool) (k : ℕ) → Good (if b then populated (populate s k) else fails (negsuc 11))
    choose true k = (t k, refl, refl)
    choose false k = tt

add_child-Typed :
    (s : Store) (parent k : ℕ) (e : Entry) → Typed s → e.type ≢ 0 → Typed (add_child s parent k e)
unfolding add_child put
add_child-Typed s parent k e t used u = let p = t parent in let q = t u in ground arith

-- whatever `kernelfs_create_node` answers, the nodes after it have types
create_node-Typed :
    (block : Option ℕ) (parent : ℕ) (name : List ℕ) (type uid gid mode : ℕ) (s : Store)
    → Typed s
    → type ≢ 0
    → Typed (kernelfs_create_node block parent name type uid gid mode s).nodes
unfolding kernelfs_create_node
create_node-Typed block parent [] type uid gid mode s t used = t
create_node-Typed block parent (c ∷ cs) type uid gid mode s t used =
    elim (Option-cases (find_child s (s parent).children (c ∷ cs))) [
      | inr (k, e) ↦ rw (e, kernelfs_create_node) t
      | inl e ↦ rw (e, kernelfs_create_node) (choose (not ((s parent).type == dt_dir)) block)
    ]
  where
    choose :
        (b : Bool) (o : Option ℕ)
        → Typed
            (if b then not_made s (negsuc 1) else elim o [
              | none ↦ not_made s (negsuc 2)
              | some k ↦ record {
                code = pos 0;
                out = some k;
                nodes = add_child s parent k (new_entry (c ∷ cs) type uid gid mode);
              }
            ]).nodes
    choose true o = t
    choose false none = t
    choose false (some k) = add_child-Typed s parent k (new_entry (c ∷ cs) type uid gid mode) t used

create_child-Good :
    (room : Bool) (block : Option ℕ) (parent_type parent : ℕ) (name : List ℕ)
    (type uid gid mode : ℕ) (s : Store)
    → Typed s
    → Good (kernelfs_create_child room block parent_type parent name type uid gid mode s).0
unfolding kernelfs_create_child
create_child-Good room block parent_type parent name type uid gid mode s t =
    elim (Bool-cases (type == dt_dir)) [
      | inr n ↦ rw n (choose (parent_type == dt_dir) false (fails (negsuc 37), s) tt)
      | inl y ↦ rw y (
          choose (parent_type == dt_dir) true
            (after (kernelfs_create_node block parent name type uid gid mode s))
            (after-Good (kernelfs_create_node block parent name type uid gid mode s)
              (create_node-Typed block parent name type uid gid mode s t (ground arith))))
    ]
  where
    after : Made → Load × Store
    after m = elim m.out [
      | none ↦ (fails m.code, m.nodes)
      | some k ↦ (kernelfs_load room m.nodes parent name, m.nodes)
    ]

    after-Good : (m : Made) → Typed m.nodes → Good (after m).0
    after-Good m typed = split m.out
      where
        split :
            (o : Option ℕ)
            → Good
                (elim o as (λ x. Load × Store) [
                  | none ↦ (fails m.code, m.nodes)
                  | some k ↦ (kernelfs_load room m.nodes parent name, m.nodes)
                ]).0
        split none = tt
        split (some k) = load-Good room m.nodes parent name typed

    choose :
        (a b : Bool) (x : Load × Store)
        → Good x.0
        → Good
            (if not a
              then (fails (negsuc 19), s)
              else (if not b then (fails (negsuc 37), s) else x)).0
    choose false b x g = tt
    choose true false x g = tt
    choose true true x g = g

node_in : Node → Loaded → Node
node_in d (loaded n) = n
node_in d (load_error e) = d

created_in : Node → Created → Node
created_in d (created n) = n
created_in d (create_error e) = d

as_loaded-Good :
    (l : Load) (node : Node)
    → Good l
    → as_loaded l ≡ loaded node
    → (node.type ≢ 0) × (node.children ≡ []) × (node.parent_node ≡ none)
unfolding node_in
as_loaded-Good (populated p) node g e =
    subst (λ n. (n.type ≢ 0) × (n.children ≡ []) × (n.parent_node ≡ none)) (ap (node_in p.node) e) g
as_loaded-Good (fails x) node g e = absurd (ground arith)

as_created-Good :
    (l : Load) (node : Node)
    → Good l
    → as_created l ≡ created node
    → (node.type ≢ 0) × (node.children ≡ []) × (node.parent_node ≡ none)
unfolding created_in
as_created-Good (populated p) node g e =
    subst (λ n. (n.type ≢ 0) × (n.children ≡ []) × (n.parent_node ≡ none))
      (ap (created_in p.node) e) g
as_created-Good (fails x) node g e = absurd (ground arith)

module _ (data_of : ℕ → ℕ) (room : Bool) (block : Option ℕ) (s : Store) (typed : Typed s) where
  -- What the kernel's file system loads is in use, and not yet part of the tree.
  pub kernel_fs-Loads : Loads (kernel_fs data_of room block s).load_node
  unfolding kernel_fs
  kernel_fs-Loads = record {
    in_use = λ c n name node e.
        (as_loaded-Good (kernelfs_load room s (data_of n) name) node
          (load-Good room s (data_of n) name typed) e).0;
    no_child = λ c n name node e.
        (as_loaded-Good (kernelfs_load room s (data_of n) name) node
          (load-Good room s (data_of n) name typed) e).1;
    no_parent = λ c n name node e.
        (as_loaded-Good (kernelfs_load room s (data_of n) name) node
          (load-Good room s (data_of n) name typed) e).2;
  }

  -- So is what it creates.
  pub kernel_fs-Creates : Creates (kernel_fs data_of room block s)
  unfolding kernel_fs
  kernel_fs-Creates = record {
    in_use = λ c n name type uid gid mode node e. (result c n name type uid gid mode node e).0;
    no_child = λ c n name type uid gid mode node e. (result c n name type uid gid mode node e).1;
    no_parent = λ c n name type uid gid mode node e. (result c n name type uid gid mode node e).2;
  }
    where
      result :
          (c : Cache) (n : ℕ) (name : List ℕ) (type uid gid mode : ℕ) (node : Node)
          → (kernel_fs data_of room block s).create_child c n name type uid gid mode ≡ created node
          → (node.type ≢ 0) × (node.children ≡ []) × (node.parent_node ≡ none)
      result c n name type uid gid mode node e =
          as_created-Good
            (kernelfs_create_child room block (c.nodes n).type (data_of n) name type uid gid mode
              s).0
            node
            (create_child-Good room block (c.nodes n).type (data_of n) name type uid gid mode s
              typed)
            e
