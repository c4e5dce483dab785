-- ===== src/SyscallFs/Transfer.antt =====
-- syscall/fs/: the system calls that use an open descriptor, and the working directory's name. `copy` is
-- what copy_to_user_buf returns for a number of bytes.
use plenjos_kernel.Prelude.{
  ℕ, ◌+◌, ◌*◌, ◌/◌, Bool, false, none, some, ◌==◌, not, if◌then◌else◌, length,
}
use plenjos_kernel.Prelude.Int.{ℤ, pos, negsuc, ltb_ℤ}
use plenjos_kernel.Slots.{proc_get_fd}
use plenjos_kernel.Fscache.{dt_dir, einval, eio, enotdir}
use plenjos_kernel.Vfs.{Handle}
use plenjos_kernel.Vfs.Handles.{Operation, Pointer, vfs_read, vfs_write, vfs_seek}
use plenjos_kernel.SyscallFs.{Process, eisdir, erange, is_negative, pointer}

-- what the helpers of syscall/fs/helpers.c find behind a descriptor
pub data Found : Type 0 where
  found : ℕ → Handle → Found
  fails : ℤ → Found

-- A pointer to no handle stands for one whose `backing_node` is NULL.
abbrev pub backed : Pointer → Found
backed none = fails eio
backed (some (a, h)) = found a h

unfoldable pub get_handle : ℤ → Process → Found
unfolding pointer
get_handle fd p =
    let a = proc_get_fd p.fds fd in if a == 0 then fails einval else backed (pointer p.vfs a)

abbrev pub type_of : Process → Handle → ℕ
type_of p h = (p.vfs.cache.nodes h.backing_node).type

unfoldable pub get_dir_handle : ℤ → Process → Found
unfolding get_handle
get_dir_handle fd p = elim (get_handle fd p) [
  | fails e ↦ fails e
  | found a h ↦ if type_of p h == dt_dir then found a h else fails enotdir
]

unfoldable pub get_not_dir_handle : ℤ → Process → Found
unfolding get_handle
get_not_dir_handle fd p = elim (get_handle fd p) [
  | fails e ↦ fails e
  | found a h ↦ if type_of p h == dt_dir then fails eisdir else found a h
]

-- `vfs_read` into a buffer of the kernel, and from there what was read to the user
unfoldable pub read_back : (ℤ → ℤ) → Operation → Bool → Found → Process → ℤ × Process
unfolding vfs_read
read_back copy read room (fails e) p = (e, p)
read_back copy read room (found a h) p =
    let (res, s) = vfs_read read (some (a, h)) p.vfs in
    let check = copy res in
    let q = record p { vfs = s } in
    if not room
    then (negsuc 11, p)
    else (if ltb_ℤ (pos 0) res
        then (if is_negative check then (check, q) else (res, q))
        else (res, q))

-- The file system's `read` depends on the number of bytes.
unfoldable pub syscall_routine_read :
    (ℤ → ℤ) → (ℕ → Operation) → Bool → ℤ → ℕ → Process → ℤ × Process
unfolding read_back get_not_dir_handle
syscall_routine_read copy read room fd count p =
    read_back copy (read count) room (get_not_dir_handle fd p) p

-- The size of `struct plenjos_dirent` is 257.
unfoldable pub syscall_routine_getdents :
    (ℤ → ℤ) → (ℕ → Operation) → Bool → ℤ → ℕ → Process → ℤ × Process
unfolding read_back get_dir_handle
syscall_routine_getdents copy read room fd count p =
    read_back copy (read (count / 257 * 257)) room (get_dir_handle fd p) p

unfoldable pub syscall_routine_write : Operation → ℤ → Process → ℤ × Process
unfolding get_not_dir_handle vfs_write
syscall_routine_write write fd p = elim (get_not_dir_handle fd p) [
  | fails e ↦ (e, p)
  | found a h ↦ let (res, s) = vfs_write write (some (a, h)) p.vfs in (res, record p { vfs = s })
]

unfoldable pub syscall_routine_lseek : Operation → ℤ → Process → ℤ × Process
unfolding get_handle vfs_seek
syscall_routine_lseek seek fd p = elim (get_handle fd p) [
  | fails e ↦ (e, p)
  | found a h ↦ let (res, s) = vfs_seek seek (some (a, h)) p.vfs in (res, record p { vfs = s })
]

-- `size` is an `ssize_t`
unfoldable pub syscall_routine_getcwd : (ℤ → ℤ) → ℤ → Process → ℤ
syscall_routine_getcwd copy size p =
    let res = copy (pos (length p.cwd + 1)) in
    if is_zero_ℤ size
    then einval
    else (if ltb_ℤ size (pos (length p.cwd + 1))
        then erange
        else (if is_negative res then res else pos (length p.cwd + 1)))
  where
    is_zero_ℤ : ℤ → Bool
    is_zero_ℤ (pos n) = n == 0
    is_zero_ℤ (negsuc n) = false
