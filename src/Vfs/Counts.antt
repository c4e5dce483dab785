-- ===== src/Vfs/Counts.antt =====
-- The reference count of a node over many handles (vfs/vfs.c): `vfs_close` never lowers it.
use plenjos_kernel.Prelude.{
  ℕ, zero, suc, ◌+◌, ◌-◌, ◌^◌, ◌<◌, ◌≡◌, refl, ap, ◌∙◌, arith, true, false, Option, none, some,
}
use plenjos_kernel.Prelude.Int.{ℤ, pos}
use plenjos_kernel.Fscache.{eio}
use plenjos_kernel.Vfs.{
  Handle, Vfs, refused, up, down, set_ref, set_handle, cannot_refer, vfs_helper_create_handle,
}
use plenjos_kernel.Vfs.Books.{create_handle-full, create_handle-made}
use plenjos_kernel.Vfs.Handles.{Operation, vfs_close}

module _ (close : Operation) (a n access : ℕ) where
  -- a handle on the node is made, and closed
  unfoldable pub used_once : Vfs → Vfs
  unfolding vfs_helper_create_handle vfs_close
  used_once s =
      let r = vfs_helper_create_handle (some a) n access s in
      (vfs_close close (some (a, record { backing_node = n; access = access })) r.state).1

  unfoldable pub used : ℕ → Vfs → Vfs
  unfolding used_once
  used zero s = s
  used (suc times) s = used times (used_once s)

  closed_refs :
      (h : Handle) (t : Vfs)
      → close h.backing_node ≡ none
      → (vfs_close close (some (a, h)) t).1.refs ≡ t.refs
  unfolding vfs_close set_handle
  closed_refs h t default = rw (default, vfs_close) refl

  may_refer : (r : ℤ) (k : ℕ) → r ≡ pos k → k < 2 ^ 31 - 1 → cannot_refer r ≡ false
  may_refer r k e h = ground arith

  raised :
      (s : Vfs) (k : ℕ) (h : Option Handle)
      → s.refs n ≡ pos k
      → k < 2 ^ 31 - 1
      → (set_handle (set_ref s n (up (s.refs n))) a h).refs n ≡ pos (k + 1)
  unfolding set_handle set_ref
  raised s k h e small = ground arith

  close-counts :
      (s : Vfs) (k : ℕ)
      → close n ≡ none
      → s.refs n ≡ pos k
      → k < 2 ^ 31 - 1
      → (used_once s).refs n ≡ pos (k + 1)
  unfolding used_once vfs_close
  close-counts s k default e h =
      let x : Handle = record { backing_node = n; access = access } in
      ap (λ f. f n) (closed_refs x (vfs_helper_create_handle (some a) n access s).state default)
      ∙ ap (λ r. r.state.refs n) (create_handle-made a n access s (may_refer (s.refs n) k e h))
      ∙ raised s k (some x) e h

  used-counts :
      (times : ℕ) (s : Vfs) (k : ℕ)
      → close n ≡ none
      → s.refs n ≡ pos k
      → k + times < 2 ^ 31
      → (used times s).refs n ≡ pos (k + times)
  unfolding used
  used-counts zero s k default e h = e ∙ ap pos (omega arith)
  used-counts (suc times) s k default e h =
      used-counts times (used_once s) (k + 1) default (close-counts s k default e (omega arith))
        (omega arith)
      ∙ ap pos (omega arith)

  -- When the file system leaves the closing of a node to `vfs_close`, and no handle is on it at first,
  -- then after 2^31 - 1 times that a handle is made on it and closed again, no handle is made on it any
  -- more: `vfs_helper_create_handle` returns -EIO.
  pub vfs_close_exhausts :
      (s : Vfs) (b : ℕ)
      → close n ≡ none
      → s.refs n ≡ pos 0
      → (t : Vfs) × (vfs_helper_create_handle (some b) n access (used (2 ^ 31 - 1) s)
          ≡ refused t eio)
  vfs_close_exhausts s b default e =
      let u = used (2 ^ 31 - 1) s in
      let full : cannot_refer (u.refs n) ≡ true =
        ap cannot_refer (used-counts (2 ^ 31 - 1) s 0 default e (omega arith)) in
      (
        set_ref (set_ref u n (up (u.refs n))) n (down ((set_ref u n (up (u.refs n))).refs n)),
        create_handle-full b n access u full,
      )
