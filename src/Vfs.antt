-- ===== src/Vfs.antt =====
-- vfs/vfs.c: handles on the nodes of vfs/fscache.c, opened with the permissions of the user, and files
-- and directories created. The address of a handle is what kmalloc_heap gives to the call; `none` is
-- NULL. The file system is known by what its `load_node` and `create_child` do.
use plenjos_kernel.Prelude.{
  ℕ, zero, suc, ◌+◌, ◌-◌, ◌^◌, Bool, true, false, Option, none, some, List, [], ◌∷◌, ◌==◌, ◌&&◌,
  ◌||◌, not, if◌then◌else◌, bit_and, bit_or,
}
use plenjos_kernel.Prelude.Int.{ℤ, pos, negsuc}
use plenjos_kernel.Access.{access_check, access_read, access_write, access_execute}
use plenjos_kernel.Fscache.{
  Node, Cache, set_node, set_lock, remove_reader, fscache_allocate_node, Loaded, answers, hangs,
  fscache_request_node, slash, dt_dir, einval, eio, enomem, enoent, eacces, enotdir,
}
pub mod Locks
pub mod Books
pub mod Mkdir
pub mod Steps
pub mod Open
pub mod Handles
pub mod Rights
pub mod Counts
pub mod Jam
pub mod Sample
mod Examples

abbrev pub eexist : ℤ
eexist = negsuc 16

-- `vfs_handle_t`, without the data that the file system keeps in it
pub record Handle : Type 0 where
  pub backing_node : ℕ
  pub access : ℕ

-- The cache, the `ref_count` of each node, and the handles at their addresses.
pub record Vfs : Type 0 where
  pub cache : Cache
  pub refs : ℕ → ℤ
  pub handles : ℕ → Option Handle

-- what a call returns, and the handle that `out` gets
pub record Reply : Type 0 where
  pub code : ℤ
  pub handle : Option ℕ
  pub state : Vfs

abbrev pub refused : Vfs → ℤ → Reply
refused s e = record { code = e; handle = none; state = s }

-- atomic_fetch_add and atomic_fetch_sub of 1 on an `int`
abbrev pub up : ℤ → ℤ
up (pos n) = if n == 2 ^ 31 - 1 then negsuc (2 ^ 31 - 1) else pos (n + 1)
up (negsuc zero) = pos 0
up (negsuc (suc n)) = negsuc n

abbrev pub down : ℤ → ℤ
down (pos zero) = negsuc 0
down (pos (suc n)) = pos n
down (negsuc n) = if n == 2 ^ 31 - 1 then pos (2 ^ 31 - 1) else negsuc (n + 1)

unfoldable pub set_ref : Vfs → ℕ → ℤ → Vfs
set_ref s n r = record s { refs = λ u. if u == n then r else s.refs u }

unfoldable pub set_handle : Vfs → ℕ → Option Handle → Vfs
set_handle s a h = record s { handles = λ u. if u == a then h else s.handles u }

-- `oldval < 0 || oldval == INT32_MAX`
abbrev pub cannot_refer : ℤ → Bool
cannot_refer (pos n) = n == 2 ^ 31 - 1
cannot_refer (negsuc n) = true

-- `vfs_helper_create_handle` on a node, with the memory for the handle
unfoldable pub vfs_helper_create_handle : Option ℕ → ℕ → ℕ → Vfs → Reply
unfolding set_ref set_handle
vfs_helper_create_handle none node access s = refused s enomem
vfs_helper_create_handle (some a) node access s =
    let oldval = s.refs node in
    let s₁ = set_ref s node (up oldval) in
    if cannot_refer oldval then refused (set_ref s₁ node (down (s₁.refs node))) eio else record {
      code = pos 0;
      handle = some a;
      state = set_handle s₁ a (some (record { backing_node = node; access = access }));
    }

-- `_fscache_release_node_readable`
unfoldable pub release : Vfs → ℕ → Vfs
unfolding set_lock
release s n = record s { cache = set_lock s.cache n (remove_reader (s.cache.locks n)) }

-- `flags & flag`, for the flags EX 1, WRITE 2, READ 4, CREATE 8, EXCL 16 and DIRECTORY 32
abbrev pub has : ℕ → ℕ → Bool
has flags flag = not (bit_and flags flag == 0)

-- `if (flags & flag) handle_access |= ...`, three times
unfoldable pub handle_access : ℕ → ℕ
handle_access flags =
    let r = if has flags 4 then bit_or 0 access_read else 0 in
    let w = if has flags 2 then bit_or r access_write else r in
    if has flags 1 then bit_or w access_execute else w

-- the text behind the last slash, or the whole path
unfoldable pub last_component : List ℕ → List ℕ → List ℕ
last_component found [] = found
last_component found (c ∷ cs) = last_component (if c == slash then cs else found) cs

-- What `create_child` makes of the node it is given.
pub data Created : Type 0 where
  created : Node → Created
  create_error : ℤ → Created

-- The operations of the file systems: whether a node has a `create_child`, and what it and `load_node`
-- do; the arguments are the directory, the name, the type, the user, the group and the mode.
pub record FileSystem : Type 0 where
  pub load_node : Cache → ℕ → List ℕ → Loaded
  pub can_create : Cache → ℕ → Bool
  pub create_child : Cache → ℕ → List ℕ → ℕ → ℕ → ℕ → ℕ → Created

abbrev pub starts_with_slash : List ℕ → Bool
starts_with_slash [] = false
starts_with_slash (c ∷ cs) = c == slash

-- a mode without the bits 022, and of that the bits of `kept`
abbrev pub masked : ℕ → ℕ → ℕ
masked mode kept = bit_and (bit_and mode (2 ^ 32 - 1 - 18)) kept

-- what `vfs_open` returns; it hangs when `fscache_request_node` does
pub data Opened : Type 0 where
  opened : Reply → Opened
  open_hangs : Opened

-- `access & flag`
abbrev pub allows : ℕ → ℕ → Bool
allows access flag = not (bit_and access flag == 0)

-- `vfs_open` on a node that was created: a handle, when one is wanted, and the node's lock released
unfoldable pub open_created : Option ℕ → ℕ → Bool → ℤ × Option ℕ × Vfs → Reply
unfolding vfs_helper_create_handle release handle_access
open_created block flags wanted (code, none, s) = refused s code
open_created block flags wanted (code, some n, s) =
    let r =
      if wanted then vfs_helper_create_handle block n (handle_access flags) s else refused s code in
    record r { state = release r.state n }

-- a kind of access that is asked for and not granted
abbrev pub lacks : ℕ → ℕ → ℕ → Bool
lacks flags may flag = has flags flag && not (allows may flag)

module _ (fs : FileSystem) where
  -- the end of `vfs_creatat`, for a node that `fscache_allocate_node` gave
  unfoldable pub create_in : ℕ → List ℕ → ℕ → ℕ → ℕ → ℕ → ℕ → Vfs → ℤ × Option ℕ × Vfs
  unfolding release
  create_in parent name type uid gid mode n s =
      elim (fs.create_child s.cache parent name type uid gid mode) [
        | create_error e ↦ (e, none, release s n)
        | created node ↦ (pos 0, some n, record s { cache = set_node s.cache n node })
      ]

  -- `vfs_creatat` with a place for the node; DT_REG is 8. The mode with the mask
  -- taken off is computed and not used.
  unfoldable pub vfs_creatat : ℕ → List ℕ → ℕ → ℕ → ℕ → Vfs → ℤ × Option ℕ × Vfs
  unfolding create_in
  vfs_creatat parent name uid gid mode s =
      if not (fs.can_create s.cache parent)
      then (eio, none, s)
      else elim (fscache_allocate_node s.cache) [
        | none ↦ (enomem, none, s)
        | some (n, c) ↦ create_in parent name 8 uid gid mode n (record s { cache = c })
      ]

  abbrev pub access_of : Vfs → ℕ → ℕ → ℕ
  access_of s n uid = let node = s.cache.nodes n in access_check node.mode node.uid node.gid uid

  -- `vfs_open` where the last part of the path is missing, in the directory `n`
  unfoldable pub open_missing : Option ℕ → List ℕ → ℕ → ℕ → ℕ → Bool → ℕ → Vfs → Reply
  unfolding open_created vfs_creatat last_component
  open_missing block path flags mode uid wanted n s =
      let may = access_of s n uid in
      if not (has flags 8)
      then refused s enoent
      else (if not (allows may 2) || not (allows may 1)
          then refused s eacces
          else open_created block flags wanted
              (vfs_creatat n (last_component path path) uid 0 mode s))

  -- `vfs_open` on a node that is there
  unfoldable pub open_existing : Option ℕ → ℕ → ℕ → Bool → ℕ → Vfs → Reply
  unfolding vfs_helper_create_handle handle_access
  open_existing block flags uid wanted n s =
      let may = access_of s n uid in
      if has flags 8 && has flags 16
      then refused s eexist
      else (if has flags 32 && not ((s.cache.nodes n).type == dt_dir)
          then refused s enotdir
          else (if lacks flags may 4 || lacks flags may 2 || lacks flags may 1
              then refused s eacces
              else (if wanted
                  then vfs_helper_create_handle block n (handle_access flags) s
                  else refused s (pos 0))))

  -- the three cases of the code of `fscache_request_node`
  unfoldable pub open_answered : Option ℕ → List ℕ → ℕ → ℕ → ℕ → Bool → ℤ → ℕ → Vfs → Reply
  unfolding open_missing open_existing
  open_answered block path flags mode uid wanted (pos zero) n s =
      open_existing block flags uid wanted n s
  open_answered block path flags mode uid wanted (pos (suc zero)) n s =
      open_missing block path flags mode uid wanted n s
  open_answered block path flags mode uid wanted code n s = refused s code

  -- `vfs_open`, for a path that is not NULL
  unfoldable pub vfs_open : Option ℕ → Option ℕ → List ℕ → ℕ → ℕ → ℕ → Bool → Vfs → Opened
  unfolding open_answered release
  vfs_open root block path flags mode uid wanted s =
      if not (starts_with_slash path) || (has flags 8 && has flags 32)
      then opened (refused s einval)
      else elim (fscache_request_node fs.load_node uid root s.cache true path) [
        | hangs ↦ open_hangs
        | answers code none c ↦ opened (refused (record s { cache = c }) code)
        | answers code (some n) c ↦
            let r =
              open_answered block path flags mode uid wanted code n (record s { cache = c }) in
            opened (record r { state = release r.state n })
      ]
