-- ===== src/Vfs/Mkdir.antt =====
-- `vfs_mkdir` (vfs/vfs.c).
use plenjos_kernel.Prelude.{
  ℕ, zero, suc, Bool, true, false, Option, none, some, List, ◌||◌, not, if◌then◌else◌,
}
use plenjos_kernel.Prelude.Int.{ℤ, pos}
use plenjos_kernel.Fscache.{
  set_node, fscache_allocate_node, answers, hangs, fscache_request_node, einval, eio, enomem,
  eacces,
}
use plenjos_kernel.Vfs.{
  Vfs, Reply, refused, release, eexist, last_component, starts_with_slash, masked, allows,
  access_of, Created, created, create_error, FileSystem, Opened, opened, open_hangs,
}
pub mod Locks

-- What `create_child` answered for the node `k`, whose lock is released in every case.
unfoldable pub end_mkdir : ℕ → Vfs → Created → Reply
unfolding release
end_mkdir k s (create_error e) = refused (release s k) e
end_mkdir k s (created node) =
    refused (release (record s { cache = set_node s.cache k node }) k) (pos 0)

module _ (fs : FileSystem) where
  -- `vfs_mkdir` where the last part of the path is missing; DT_DIR is 4, and 0777 | S_ISVTX are the
  -- lower ten bits of a mode
  unfoldable pub mkdir_missing : List ℕ → ℕ → ℕ → ℕ → ℕ → Vfs → Reply
  unfolding end_mkdir last_component
  mkdir_missing path uid gid mode n s =
      let may = access_of fs s n uid in
      let name = last_component path path in
      if not (allows may 2) || not (allows may 1)
      then refused s eacces
      else (if not (fs.can_create s.cache n)
          then refused s eio
          else elim (fscache_allocate_node s.cache) [
            | none ↦ refused s enomem
            | some (k, c) ↦
                end_mkdir k (record s { cache = c })
                  (fs.create_child c n name 4 uid gid (masked mode 1023))
          ])

  -- the three cases of the code of `fscache_request_node`
  unfoldable pub mkdir_answered : List ℕ → ℕ → ℕ → ℕ → ℤ → ℕ → Vfs → Reply
  unfolding mkdir_missing
  mkdir_answered path uid gid mode (pos zero) n s = refused s eexist
  mkdir_answered path uid gid mode (pos (suc zero)) n s = mkdir_missing path uid gid mode n s
  mkdir_answered path uid gid mode code n s = refused s code

  unfoldable pub vfs_mkdir : Option ℕ → List ℕ → ℕ → ℕ → ℕ → Vfs → Opened
  unfolding mkdir_answered release
  vfs_mkdir root path uid gid mode s =
      if not (starts_with_slash path)
      then opened (refused s einval)
      else elim (fscache_request_node fs.load_node uid root s.cache true path) [
        | hangs ↦ open_hangs
        | answers code none c ↦ opened (refused (record s { cache = c }) code)
        | answers code (some n) c ↦
            let r = mkdir_answered path uid gid mode code n (record s { cache = c }) in
            opened (record r { state = release r.state n })
      ]
