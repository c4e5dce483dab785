-- ===== src/Vfs/Examples.antt =====
-- The theorems on vfs/vfs.c at a small file system.
use plenjos_kernel.Prelude.{◌-◌, ◌^◌, ◌≡◌, ◌⊎◌, refl, arith, true, false, none, some, ◌==◌, bit_and}
use plenjos_kernel.Access.{access_check, class_access, grant}
use plenjos_kernel.Fscache.{enoent, eio, eacces}
use plenjos_kernel.Vfs.{
  Vfs, Reply, refused, access_of, allows, vfs_open, opened, open_hangs, vfs_helper_create_handle,
}
use plenjos_kernel.Vfs.Locks.{Idle}
use plenjos_kernel.Vfs.Books.{Books}
use plenjos_kernel.Vfs.Open.{Jammed, vfs_open_settles}
use plenjos_kernel.Vfs.Handles.{Operation, vfs_read, vfs_write}
use plenjos_kernel.Vfs.Rights.{vfs_open_guards}
use plenjos_kernel.Vfs.Counts.{used, vfs_close_exhausts}
use plenjos_kernel.Vfs.Jam.{above_root, vfs_open_jams}
use plenjos_kernel.Vfs.Sample.{
  fs, fs-Loads, fs-Creates, start, start-Idle, path_a, root_path, closed_root, root_locked,
  root_handle, root_reply, root_found, root_opened,
}

vfs_open_settles_example :
    (r : Reply) × (vfs_open fs (some 1) (some 64) path_a 4 0 0 true start ≡ opened r)
    × Books start 4 r
    × (Idle 1 r.state ⊎ Jammed 1 r)
vfs_open_settles_example =
    vfs_open_settles fs (some 64) true 1 path_a 4 0 0 start fs-Loads fs-Creates start-Idle
      (λ u. omega arith)

may_search : (bit_and (access_check 511 1000 0 0) 1 == 0) ≡ false
unfolding access_check class_access grant
may_search = refl

vfs_open_jams_example :
    (t : Vfs) × (vfs_open fs (some 1) (some 64) above_root 4 0 0 true start
      ≡ opened (refused t enoent))
    × (vfs_open fs (some 1) (some 64) path_a 4 0 0 true t ≡ open_hangs)
vfs_open_jams_example =
    vfs_open_jams fs 1 (some 64) 4 0 0 start path_a 4 0 0 true refl refl refl may_search refl refl

-- Every node is closed by `vfs_close` itself.
abbrev no_close : Operation
no_close = λ n. none

vfs_close_exhausts_example :
    (t : Vfs) × (vfs_helper_create_handle (some 128) 1 4 (used no_close 64 1 4 (2 ^ 31 - 1) start)
      ≡ refused t eio)
vfs_close_exhausts_example = vfs_close_exhausts no_close 64 1 4 start 128 refl refl

vfs_open_guards_example :
    ((vfs_write no_close (some (64, root_handle)) start ≡ (eacces, start))
      ⊎ (allows (access_of fs (record closed_root { cache = root_locked }) 1 5) 2 ≡ true))
    × ((vfs_read no_close (some (64, root_handle)) start ≡ (eacces, start))
        ⊎ (allows (access_of fs (record closed_root { cache = root_locked }) 1 5) 4 ≡ true))
vfs_open_guards_example =
    vfs_open_guards fs (some 64) true (some 1) root_path 4 0 5 closed_root start 1 64 root_locked
      root_reply root_handle no_close root_found root_opened refl refl
