-- ===== src/Vfs/Rights.antt =====
-- A handle of `vfs_open` (vfs/vfs.c) gives the access that was checked when it was opened.
use plenjos_kernel.Prelude.{
  ℕ, ◌≡◌, ◌≢◌, ◌⊎◌, refl, sym, ap, ◌∙◌, subst, arith, Bool, true, false, Option, none, some, List,
  ◌==◌, ◌&&◌, ◌||◌, not, if◌then◌else◌, Bool-cases, inl, inr,
}
use plenjos_kernel.Prelude.Int.{ℤ, pos, negsuc}
use plenjos_kernel.Fscache.{Cache, dt_dir, eacces, answers, fscache_request_node}
use plenjos_kernel.Vfs.{
  Handle, Vfs, Reply, refused, up, cannot_refer, set_ref, set_handle, has, allows, lacks,
  handle_access, vfs_helper_create_handle, FileSystem, access_of, starts_with_slash, open_existing,
  open_answered, vfs_open, Opened, opened, open_hangs, release,
}
use plenjos_kernel.Vfs.Books.{handle_access-allows, create_handle-full, create_handle-made}
use plenjos_kernel.Vfs.Open.{open-run, open-refused}
use plenjos_kernel.Vfs.Handles.{Operation, vfs_read, vfs_write}

abbrev reply : Reply → Opened → Reply
reply d (opened r) = r
reply d open_hangs = d

-- What a handle that `open_existing` gave has been checked for.
abbrev pub Granted : ℕ → ℕ → ℕ → Reply → Type 0
Granted flags may n r =
    (a : ℕ)
    → r.handle ≡ some a
    → (lacks flags may 4 ≡ false)
      × (lacks flags may 2 ≡ false)
      × (r.state.handles a ≡ some (record { backing_node = n; access = handle_access flags }))

refused-Granted : (flags may n : ℕ) (s : Vfs) (e : ℤ) → Granted flags may n (refused s e)
refused-Granted flags may n s e a h = absurd (ground arith)

handle_kept :
    (b n access a : ℕ) (s : Vfs)
    → (vfs_helper_create_handle (some b) n access s).handle ≡ some a
    → (vfs_helper_create_handle (some b) n access s).state.handles a
      ≡ some (record { backing_node = n; access = access })
unfolding set_handle set_ref
handle_kept b n access a s = elim (Bool-cases (cannot_refer (s.refs n))) [
  | inl e ↦ subst Kept (sym (create_handle-full b n access s e)) (λ h. absurd (ground arith))
  | inr e ↦ subst Kept (sym (create_handle-made b n access s e)) (λ h. found s h)
]
  where
    Kept : Reply → Type 0
    Kept r =
        r.handle ≡ some a → r.state.handles a ≡ some (record { backing_node = n; access = access })

    found :
        (t : Vfs)
        → some b ≡ some a
        → (set_handle
              (set_ref t n (up (t.refs n)))
              b
              (some (record { backing_node = n; access = access }))).handles
            a
          ≡ some (record { backing_node = n; access = access })
    found t h = ground arith

create_handle-Granted :
    (block : Option ℕ) (flags may n : ℕ) (s : Vfs)
    → lacks flags may 4 ≡ false
    → lacks flags may 2 ≡ false
    → Granted flags may n (vfs_helper_create_handle block n (handle_access flags) s)
unfolding vfs_helper_create_handle
create_handle-Granted none flags may n s r w a h = absurd (ground arith)
create_handle-Granted (some b) flags may n s r w a h =
    (r, w, handle_kept b n (handle_access flags) a s h)

module _ (fs : FileSystem) (block : Option ℕ) (wanted : Bool) where
  open_existing-Granted :
      (flags uid n : ℕ) (s : Vfs)
      → Granted flags (access_of fs s n uid) n (open_existing fs block flags uid wanted n s)
  unfolding open_existing
  open_existing-Granted flags uid n s =
      choose (has flags 8 && has flags 16) (has flags 32 && not ((s.cache.nodes n).type == dt_dir))
        (lacks flags may 4) (lacks flags may 2) (lacks flags may 1) wanted refl refl
    where
      may : ℕ
      may = access_of fs s n uid

      choose :
          (a b r w x want : Bool)
          → lacks flags (access_of fs s n uid) 4 ≡ r
          → lacks flags (access_of fs s n uid) 2 ≡ w
          → Granted flags (access_of fs s n uid) n (
              if a
              then refused s (negsuc 16)
              else (if b
                  then refused s (negsuc 19)
                  else (if r || w || x
                      then refused s eacces
                      else (if want
                          then vfs_helper_create_handle block n (handle_access flags) s
                          else refused s (pos 0)))))
      choose true b r w x want e f = refused-Granted flags may n s (negsuc 16)
      choose false true r w x want e f = refused-Granted flags may n s (negsuc 19)
      choose false false true w x want e f = refused-Granted flags may n s eacces
      choose false false false true x want e f = refused-Granted flags may n s eacces
      choose false false false false true want e f = refused-Granted flags may n s eacces
      choose false false false false false true e f = create_handle-Granted block flags may n s e f
      choose false false false false false false e f = refused-Granted flags may n s (pos 0)

  -- when the flags or the path are refused, no handle is given
  flags_taken :
      (root : Option ℕ) (path : List ℕ) (flags mode uid a : ℕ) (s : Vfs) (r : Reply)
      → vfs_open fs root block path flags mode uid wanted s ≡ opened r
      → r.handle ≡ some a
      → (not (starts_with_slash path) || (has flags 8 && has flags 32)) ≡ false
  flags_taken root path flags mode uid a s r run given =
      elim (Bool-cases (not (starts_with_slash path) || (has flags 8 && has flags 32))) [
        | inl e ↦ absurd (
            no_handle a (negsuc 21) s (
              subst (λ x. x.handle ≡ some a)
                (sym (
                  ap (reply r)
                    (sym (open-refused fs block wanted root path flags mode uid s e) ∙ run)))
                given))
        | inr e ↦ e
      ]
    where
      no_handle : (a : ℕ) (e : ℤ) (s : Vfs) → (refused s e).handle ≢ some a
      no_handle a e s h = ground arith

  -- the node and the access of the handle that is given, and that both were checked
  given_handle :
      (root : Option ℕ) (path : List ℕ) (flags mode uid : ℕ) (s : Vfs) (n a : ℕ) (c : Cache)
      (r : Reply)
      → fscache_request_node fs.load_node uid root s.cache true path ≡ answers (pos 0) (some n) c
      → vfs_open fs root block path flags mode uid wanted s ≡ opened r
      → r.handle ≡ some a
      → Granted flags (access_of fs (record s { cache = c }) n uid) n r
  unfolding open_answered release
  given_handle root path flags mode uid s n a c r request run given =
      let t = record s { cache = c } in
      let o = open_existing fs block flags uid wanted n t in
      let taken = flags_taken root path flags mode uid a s r run given in
      subst (Granted flags (access_of fs t n uid) n)
        (ap (reply r) (
          sym (open-run fs block wanted root path flags mode uid s (pos 0) n c taken request)
          ∙ run))
        (open_existing-Granted flags uid n t)

write-refused :
    (operation : Operation) (a : ℕ) (h : Handle) (t : Vfs)
    → allows h.access 2 ≡ false
    → vfs_write operation (some (a, h)) t ≡ (eacces, t)
unfolding vfs_write
write-refused operation a h t e = ground arith

read-refused :
    (operation : Operation) (a : ℕ) (h : Handle) (t : Vfs)
    → allows h.access 4 ≡ false
    → vfs_read operation (some (a, h)) t ≡ (eacces, t)
unfolding vfs_read
read-refused operation a h t e = ground arith

same_access :
    (h : Handle) (n access : ℕ) (o : Option Handle)
    → o ≡ some (record { backing_node = n; access = access })
    → o ≡ some h
    → h.access ≡ access
same_access h n access o e f = ground arith

not_granted :
    (flags may access flag : ℕ)
    → lacks flags may flag ≡ false
    → allows access flag ≡ has flags flag
    → (allows access flag ≡ false) ⊎ (allows may flag ≡ true)
not_granted flags may access flag e f = elim (Bool-cases (allows may flag)) [
  | inl may_it ↦ inr may_it
  | inr not_it ↦ inl (f ∙ ground arith)
]

-- When the path leads to a node that is there, and `vfs_open` gives a handle on it, then through that
-- handle nothing is written, unless the user may write the node, and nothing is read, unless the user
-- may read it: the call returns -EACCES before any operation of the file system, and changes nothing.
pub vfs_open_guards :
    (fs : FileSystem) (block : Option ℕ) (wanted : Bool) (root : Option ℕ) (path : List ℕ)
    (flags mode uid : ℕ) (s t : Vfs) (n a : ℕ) (c : Cache) (r : Reply) (h : Handle)
    (operation : Operation)
    → fscache_request_node fs.load_node uid root s.cache true path ≡ answers (pos 0) (some n) c
    → vfs_open fs root block path flags mode uid wanted s ≡ opened r
    → r.handle ≡ some a
    → r.state.handles a ≡ some h
    → ((vfs_write operation (some (a, h)) t ≡ (eacces, t))
        ⊎ (allows (access_of fs (record s { cache = c }) n uid) 2 ≡ true))
      × ((vfs_read operation (some (a, h)) t ≡ (eacces, t))
          ⊎ (allows (access_of fs (record s { cache = c }) n uid) 4 ≡ true))
vfs_open_guards fs block wanted root path flags mode uid s t n a c r h operation request run given
      kept =
    let may = access_of fs (record s { cache = c }) n uid in
    let (r4, w2, there) =
      given_handle fs block wanted root path flags mode uid s n a c r request run given a given in
    let e = same_access h n (handle_access flags) (r.state.handles a) there kept in
    let (a4, a2, a1) = handle_access-allows flags in
    (
      elim (not_granted flags may h.access 2 w2 (ap (λ x. allows x 2) e ∙ a2)) [
        | inl not_it ↦ inl (write-refused operation a h t not_it)
        | inr may_it ↦ inr may_it
      ],
      elim (not_granted flags may h.access 4 r4 (ap (λ x. allows x 4) e ∙ a4)) [
        | inl not_it ↦ inl (read-refused operation a h t not_it)
        | inr may_it ↦ inr may_it
      ],
    )
