-- ===== src/SyscallFs.antt =====
-- syscall/fs/: the system calls on files, over the descriptors of a process (proc/proc.c), the paths of
-- syscall/syscall_helpers.c and the handles of vfs/vfs.c. What kmalloc_heap gives for buffers, the file
-- system's operations and the copy to the user's buffer are parameters.
use plenjos_kernel.Prelude.{
  ℕ, zero, suc, ◌+◌, ◌-◌, ◌*◌, ◌/◌, Bool, true, false, Option, none, some, List, [], ◌∷◌, ◌==◌, leb,
  not, if◌then◌else◌, length,
}
use plenjos_kernel.Prelude.Int.{ℤ, pos, negsuc, ltb_ℤ}
use plenjos_kernel.Slots.{proc_get_fd, proc_alloc_fd, proc_free_fd}
use plenjos_kernel.Paths.{PathResult, written, enametoolong, handle_relative_path, collapse_path}
use plenjos_kernel.Fscache.{
  Cache, Answer, answers, hangs, fscache_request_node, dt_dir, einval, eio, enomem, enoent, enotdir,
}
use plenjos_kernel.Vfs.{Handle, Vfs, Reply, FileSystem, Opened, opened, open_hangs, vfs_open}
use plenjos_kernel.Vfs.Handles.{Operation, Pointer, vfs_close, vfs_read, vfs_write, vfs_seek}
use plenjos_kernel.Vfs.Mkdir.{vfs_mkdir}
pub mod Descriptors
pub mod Transfer
mod Examples

abbrev pub eisdir : ℤ
eisdir = negsuc 20

abbrev pub emfile : ℤ
emfile = negsuc 23

abbrev pub erange : ℤ
erange = negsuc 33

abbrev pub too_long : ℤ
too_long = negsuc 35

-- A process, and the file systems; 0 is a free descriptor.
pub record Process : Type 0 where
  pub vfs : Vfs
  pub fds : List ℕ
  pub cwd : List ℕ
  pub uid : ℕ

-- A call returns, waits for ever, or stores outside the table of descriptors.
pub data Called : Type 0 where
  returns : ℤ → Process → Called
  call_hangs : Called
  corrupts : Called

abbrev pub is_negative : ℤ → Bool
is_negative n = ltb_ℤ n (pos 0)

-- the pointer to a handle, for the address 0 NULL
unfoldable pub pointer : Vfs → ℕ → Pointer
pointer s a = elim (s.handles a) [ none ↦ none | some h ↦ some (a, h) ]

abbrev pub address : Option ℕ → ℕ
address none = 0
address (some a) = a

-- `syscall_routine_open` behind `vfs_open`
unfoldable pub open_fd : Operation → Reply → Process → Called
unfolding pointer
open_fd close r p =
    let (fd, fds) = proc_alloc_fd p.fds (address r.handle) in
    if is_negative r.code then returns r.code (record p { vfs = r.state }) else elim fd [
      | some i ↦ returns (pos i) (record p { vfs = r.state; fds = fds })
      | none ↦ returns emfile (record p {
        vfs = (vfs_close close (pointer r.state (address r.handle)) r.state).1;
        fds = fds;
      })
    ]

unfoldable pub opened_fd : Operation → Opened → Process → Called
unfolding open_fd
opened_fd close (opened r) p = open_fd close r p
opened_fd close open_hangs p = call_hangs

module _ (fs : FileSystem) (root : Option ℕ) where
  unfoldable pub open_path : Operation → Option ℕ → PathResult → ℕ → ℕ → Process → Called
  unfolding opened_fd
  open_path close block enametoolong flags mode p = returns too_long p
  open_path close block (written path) flags mode p =
      opened_fd close (vfs_open fs root block path flags mode p.uid true p.vfs) p

  -- `buffer`: there is memory for the path
  unfoldable pub syscall_routine_open :
      Operation → Bool → Option ℕ → List ℕ → ℕ → ℕ → Process → Called
  unfolding open_path
  syscall_routine_open close buffer block path flags mode p =
      if buffer
      then open_path close block (handle_relative_path path p.cwd) flags mode p
      else returns enomem p

  unfoldable pub made_dir : Opened → Process → Called
  made_dir (opened r) p = returns r.code (record p { vfs = r.state })
  made_dir open_hangs p = call_hangs

  unfoldable pub syscall_routine_mkdir : Bool → List ℕ → ℕ → Process → Called
  unfolding made_dir
  syscall_routine_mkdir buffer path mode p =
      if buffer
      then elim (handle_relative_path path p.cwd) [
        | enametoolong ↦ returns too_long p
        | written full ↦ made_dir (vfs_mkdir fs root full p.uid 0 mode p.vfs) p
      ]
      else returns enomem p

  -- `fscache_request_node` without a place for the node, at the end of `syscall_routine_chdir`
  unfoldable pub enter : List ℕ → Answer → Process → Called
  enter path hangs p = call_hangs
  enter path (answers (pos zero) n c) p =
      returns (pos 0) (record p { vfs = record p.vfs { cache = c }; cwd = path })
  enter path (answers (pos (suc k)) n c) p =
      returns enoent (record p { vfs = record p.vfs { cache = c } })
  enter path (answers (negsuc k) n c) p =
      returns (negsuc k) (record p { vfs = record p.vfs { cache = c } })

  -- `collapse_path` ends on every path that `handle_relative_path` writes
  unfoldable pub syscall_routine_chdir : Bool → List ℕ → Process → Called
  unfolding enter
  syscall_routine_chdir buffer path p =
      if buffer
      then elim (handle_relative_path path p.cwd) [
        | enametoolong ↦ returns too_long p
        | written full ↦ elim (collapse_path full) [
          | none ↦ call_hangs
          | some short ↦
              enter short (fscache_request_node fs.load_node p.uid root p.vfs.cache false short) p
        ]
      ]
      else returns enomem p

unfoldable pub syscall_routine_close : Operation → ℤ → Process → Called
unfolding pointer
syscall_routine_close close fd p =
    let handle = proc_get_fd p.fds fd in
    if handle == 0 then returns einval p else elim (proc_free_fd p.fds fd) [
      | none ↦ corrupts
      | some fds ↦
          returns (pos 0)
            (record p { vfs = (vfs_close close (pointer p.vfs handle) p.vfs).1; fds = fds })
    ]
