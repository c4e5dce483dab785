-- ===== src/SyscallFs/Examples.antt =====
-- The root opened and closed by a process of user 5.
use plenjos_kernel.Prelude.{◌≡◌, refl, ap, ◌∙◌, true, none, some, [], ◌∷◌}
use plenjos_kernel.Prelude.Int.{pos}
use plenjos_kernel.Slots.{proc_alloc_fd, first_free}
use plenjos_kernel.Paths.{handle_relative_path}
use plenjos_kernel.Vfs.Sample.{fs, closed_root, root_path, root_reply, root_opened}
use plenjos_kernel.Vfs.Handles.{Operation}
use plenjos_kernel.SyscallFs.{
  Process, returns, syscall_routine_open, syscall_routine_close, open_path, opened_fd, open_fd,
}
use plenjos_kernel.SyscallFs.Descriptors.{syscall_routine_open-close}

abbrev process : Process
process = record { vfs = closed_root; fds = 0 ∷ 0 ∷ []; cwd = []; uid = 5 }

abbrev no_close : Operation
no_close = λ n. none

abbrev with_root : Process
with_root = record { vfs = root_reply.state; fds = 64 ∷ 0 ∷ []; cwd = []; uid = 5 }

process_opens :
    syscall_routine_open fs (some 1) no_close true (some 64) root_path 4 0 process
    ≡ returns (pos 0) with_root
unfolding syscall_routine_open open_path opened_fd handle_relative_path open_fd proc_alloc_fd
    first_free
process_opens = ap (λ o. opened_fd no_close o process) root_opened ∙ refl

syscall_routine_open-close_example :
    (t : Process) × (syscall_routine_close no_close (pos 0) with_root ≡ returns (pos 0) t)
    × (t.fds ≡ 0 ∷ 0 ∷ [])
syscall_routine_open-close_example =
    syscall_routine_open-close fs (some 1) no_close true (some 64) root_path 4 0 0 process with_root
      process_opens
