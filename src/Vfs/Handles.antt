-- ===== src/Vfs/Handles.antt =====
-- The calls of vfs/vfs.c on a handle, and what becomes of the references to its node. The operations
-- of the file system are parameters; `none` is a NULL pointer.
use plenjos_kernel.Prelude.{ℕ, Option, none, some, ◌==◌, bit_and, if◌then◌else◌}
use plenjos_kernel.Prelude.Int.{ℤ, pos}
use plenjos_kernel.Fscache.{einval, eio, eacces}
use plenjos_kernel.Access.{access_read, access_write}
use plenjos_kernel.Vfs.{Handle, Vfs, set_handle}

-- An operation of the file system, for a node: `none`, or what it does with the handle at an address.
abbrev pub Operation : Type 0
Operation = ℕ → Option (ℕ → Vfs → ℤ × Vfs)

-- A pointer to a handle, and the handle, whose `backing_node` is set; `none` is NULL.
abbrev pub Pointer : Type 0
Pointer = Option (ℕ × Handle)

-- `vfs_close`: without a `close` of its own, the file system has the handle freed
unfoldable pub vfs_close : Operation → Pointer → Vfs → ℤ × Vfs
unfolding set_handle
vfs_close close none s = (einval, s)
vfs_close close (some (a, h)) s = elim (close h.backing_node) [
  | none ↦ (pos 0, set_handle s a none)
  | some run ↦ run a s
]

unfoldable pub vfs_read : Operation → Pointer → Vfs → ℤ × Vfs
vfs_read read none s = (einval, s)
vfs_read read (some (a, h)) s =
    if bit_and h.access access_read == 0
    then (eacces, s)
    else elim (read h.backing_node) [ none ↦ (eio, s) | some run ↦ run a s ]

unfoldable pub vfs_write : Operation → Pointer → Vfs → ℤ × Vfs
vfs_write write none s = (einval, s)
vfs_write write (some (a, h)) s =
    if bit_and h.access access_write == 0
    then (eacces, s)
    else elim (write h.backing_node) [ none ↦ (eio, s) | some run ↦ run a s ]

unfoldable pub vfs_seek : Operation → Pointer → Vfs → ℤ × Vfs
vfs_seek seek none s = (einval, s)
vfs_seek seek (some (a, h)) s = elim (seek h.backing_node) [ none ↦ (eio, s) | some run ↦ run a s ]
