-- ===== src/SyscallFs/Descriptors.antt =====
-- A descriptor that syscall_routine_open gives, and what syscall_routine_close makes of it
-- (syscall/fs/handles.c).
use plenjos_kernel.Prelude.{
  ℕ, zero, suc, ◌≡◌, ◌≢◌, ◌⊎◌, ◌<◌, refl, sym, ap, ◌∙◌, subst, arith, Bool, true, false, Option,
  none, some, List, [], ◌∷◌, if◌then◌else◌, get_or, set, length, length-set, get_or-set_self,
  gt→leb, ne→==, eq_cases, Bool-cases, inl, inr,
}
use plenjos_kernel.Prelude.Int.{ℤ, pos, negsuc}
use plenjos_kernel.Slots.{proc_get_fd, proc_alloc_fd, proc_free_fd}
use plenjos_kernel.Slots.Laws.{Full, Allocated, all_taken, lowest, proc_alloc_fd_lem}
use plenjos_kernel.Paths.{PathResult, written, enametoolong, handle_relative_path}
use plenjos_kernel.Vfs.{Reply, FileSystem, Opened, opened, open_hangs, vfs_open}
use plenjos_kernel.Vfs.Handles.{Operation, vfs_close}
use plenjos_kernel.SyscallFs.{
  Process, Called, returns, call_hangs, corrupts, is_negative, address, pointer, open_fd, opened_fd,
  open_path, syscall_routine_open, syscall_routine_close, emfile,
}

-- A call that gave a descriptor put a handle's address into the lowest free slot.
pub record Entered (p : Process) (fd : ℕ) (q : Process) : Type 0 where
  pub handle : ℕ
  pub not_null : handle ≢ 0
  pub inside : fd < length p.fds
  pub was_free : get_or p.fds fd 0 ≡ 0
  pub below : Full p.fds fd
  pub entered : q.fds ≡ set p.fds fd handle

-- What `open_fd` returns is a descriptor that was entered, or an error, with the table as it was.
abbrev pub Tabled : Process → Called → Type 0
Tabled p (returns (pos fd) q) = Entered p fd q
Tabled p (returns (negsuc e) q) = q.fds ≡ p.fds
Tabled p call_hangs = Unit
Tabled p corrupts = ⊥

after_alloc :
    (close : Operation) (r : Reply) (p : Process) (h : ℕ) (x : Option ℕ × List ℕ)
    → h ≢ 0
    → Allocated p.fds h x
    → Tabled p (elim x.0 [
      | some i ↦ returns (pos i) (record p { vfs = r.state; fds = x.1 })
      | none ↦
          returns emfile
            (record p { vfs = (vfs_close close (pointer r.state h) r.state).1; fds = x.1 })
    ])
after_alloc close r p h x some_handle (all_taken full) = refl
after_alloc close r p h x some_handle (lowest fd inside free below) = record {
  handle = h;
  not_null = some_handle;
  inside = inside;
  was_free = free;
  below = below;
  entered = refl;
}

negative-Tabled :
    (p q : Process) (code : ℤ) → is_negative code ≡ true → q.fds ≡ p.fds → Tabled p (returns code q)
negative-Tabled p q (pos n) e same = absurd (ground arith)
negative-Tabled p q (negsuc n) e same = same

null-not-entered : (fds : List ℕ) (h : ℕ) → h ≡ 0 → proc_alloc_fd fds h ≡ (none, fds)
unfolding proc_alloc_fd
null-not-entered fds h e = rw e refl

open_fd-negative :
    (close : Operation) (r : Reply) (p : Process)
    → is_negative r.code ≡ true
    → open_fd close r p ≡ returns r.code (record p { vfs = r.state })
unfolding open_fd
open_fd-negative close r p e = rw (e, open_fd) refl

open_fd-alloc :
    (close : Operation) (r : Reply) (p : Process)
    → is_negative r.code ≡ false
    → (let x = proc_alloc_fd p.fds (address r.handle) in
        open_fd close r p ≡ elim x.0 as (λ o. Called) [
          | some i ↦ returns (pos i) (record p { vfs = r.state; fds = x.1 })
          | none ↦ returns emfile (record p {
            vfs = (vfs_close close (pointer r.state (address r.handle)) r.state).1;
            fds = x.1;
          })
        ])
unfolding open_fd
open_fd-alloc close r p e = rw (e, open_fd) refl

open_fd-Tabled : (close : Operation) (r : Reply) (p : Process) → Tabled p (open_fd close r p)
open_fd-Tabled close r p = elim (Bool-cases (is_negative r.code)) [
  | inl e ↦
      subst (Tabled p) (sym (open_fd-negative close r p e))
        (negative-Tabled p (record p { vfs = r.state }) r.code e refl)
  | inr e ↦ subst (Tabled p) (sym (open_fd-alloc close r p e)) (allocated (eq_cases h 0))
]
  where
    h : ℕ
    h = address r.handle

    Entering : Option ℕ × List ℕ → Type 0
    Entering x = Tabled p (elim x.0 as (λ o. Called) [
      | some i ↦ returns (pos i) (record p { vfs = r.state; fds = x.1 })
      | none ↦
          returns emfile
            (record p { vfs = (vfs_close close (pointer r.state h) r.state).1; fds = x.1 })
    ])

    allocated : (h ≡ 0) ⊎ (h ≢ 0) → Entering (proc_alloc_fd p.fds h)
    allocated (inl z) = subst Entering (sym (null-not-entered p.fds h z)) refl
    allocated (inr nz) =
        after_alloc close r p h (proc_alloc_fd p.fds h) nz (proc_alloc_fd_lem p.fds h nz)

module _ (fs : FileSystem) (root : Option ℕ) (close : Operation) (buffer : Bool)
    (block : Option ℕ) where
  opened_fd-Tabled : (o : Opened) (p : Process) → Tabled p (opened_fd close o p)
  unfolding opened_fd
  opened_fd-Tabled (opened r) p = open_fd-Tabled close r p
  opened_fd-Tabled open_hangs p = tt

  open_path-Tabled :
      (r : PathResult) (flags mode : ℕ) (p : Process)
      → Tabled p (open_path fs root close block r flags mode p)
  unfolding open_path
  open_path-Tabled enametoolong flags mode p = refl
  open_path-Tabled (written path) flags mode p =
      opened_fd-Tabled (vfs_open fs root block path flags mode p.uid true p.vfs) p

  -- A call of `syscall_routine_open` that returns a descriptor has entered a handle in the lowest slot
  -- that was free; a call that returns an error has left the table of descriptors as it was.
  pub syscall_routine_open_tables :
      (path : List ℕ) (flags mode : ℕ) (p : Process)
      → Tabled p (syscall_routine_open fs root close buffer block path flags mode p)
  unfolding syscall_routine_open
  syscall_routine_open_tables path flags mode p = choose buffer
    where
      choose :
          (b : Bool)
          → Tabled p (
              if b
              then open_path fs root close block (handle_relative_path path p.cwd) flags mode p
              else returns (negsuc 11) p)
      choose true = open_path-Tabled (handle_relative_path path p.cwd) flags mode p
      choose false = refl

set-set : (xs : List ℕ) (i v : ℕ) → get_or xs i 0 ≡ 0 → set (set xs i v) i 0 ≡ xs
set-set [] i v e = refl
set-set (x ∷ xs) zero v e = ap (λ y. y ∷ xs) (sym e)
set-set (x ∷ xs) (suc i) v e = ap (◌∷◌ x) (set-set xs i v e)

get_fd-inside :
    (fds : List ℕ) (fd : ℕ) → fd < length fds → proc_get_fd fds (pos fd) ≡ get_or fds fd 0
unfolding proc_get_fd
get_fd-inside fds fd inside = rw (gt→leb (length fds) fd inside) refl

free_fd-inside :
    (fds : List ℕ) (fd : ℕ) → fd < length fds → proc_free_fd fds (pos fd) ≡ some (set fds fd 0)
unfolding proc_free_fd
free_fd-inside fds fd inside = rw (gt→leb (length fds) fd inside) refl

close-run :
    (close : Operation) (fd : ℤ) (h : ℕ) (fds : List ℕ) (p : Process)
    → proc_get_fd p.fds fd ≡ h
    → proc_free_fd p.fds fd ≡ some fds
    → h ≢ 0
    → syscall_routine_close close fd p
      ≡ returns (pos 0) (record p { vfs = (vfs_close close (pointer p.vfs h) p.vfs).1; fds = fds })
unfolding syscall_routine_close
close-run close fd h fds p at free nz =
    rw (at, free, ne→== h 0 nz, syscall_routine_close)
      (ap
        (λ x.
          returns (pos 0)
            (record p { vfs = (vfs_close close (pointer p.vfs x) p.vfs).1; fds = fds }))
        at)

-- A descriptor that `syscall_routine_open` returned can be closed at once: the call returns 0, and the
-- table of descriptors is again the one of before the two calls.
pub syscall_routine_open-close :
    (fs : FileSystem) (root : Option ℕ) (close : Operation) (buffer : Bool) (block : Option ℕ)
    (path : List ℕ) (flags mode fd : ℕ) (p q : Process)
    → syscall_routine_open fs root close buffer block path flags mode p ≡ returns (pos fd) q
    → (t : Process) × (syscall_routine_close close (pos fd) q ≡ returns (pos 0) t) × (t.fds ≡ p.fds)
syscall_routine_open-close fs root close buffer block path flags mode fd p q run =
    let e : Entered p fd q =
      subst (Tabled p) run
        (syscall_routine_open_tables fs root close buffer block path flags mode p) in
    let h = e.handle in
    let inside : fd < length q.fds =
      subst (λ n. fd < n) (sym (ap length e.entered ∙ length-set p.fds fd h)) e.inside in
    (
      record q { vfs = (vfs_close close (pointer q.vfs h) q.vfs).1; fds = set q.fds fd 0 },
      close-run close (pos fd) h (set q.fds fd 0) q
          (get_fd-inside q.fds fd inside
            ∙ ap (λ l. get_or l fd 0) e.entered
            ∙ get_or-set_self p.fds fd h 0 e.inside)
          (free_fd-inside q.fds fd inside) e.not_null,
      ap (λ l. set l fd 0) e.entered ∙ set-set p.fds fd h e.was_free,
    )
