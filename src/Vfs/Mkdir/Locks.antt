-- ===== src/Vfs/Mkdir/Locks.antt =====
-- The locks that `vfs_mkdir` (vfs/vfs.c) leaves.
use plenjos_kernel.Prelude.{
  ℕ, zero, suc, ◌≡◌, ◌⊎◌, refl, sym, subst, arith, true, false, Option, none, some, List, [], ◌∷◌,
  ◌||◌, not, Bool-cases, Option-cases, inl, inr,
}
use plenjos_kernel.Prelude.Int.{ℤ, pos, negsuc}
use plenjos_kernel.Fscache.{
  same_text, Cache, set_node, answers, fscache_request_node, fscache_allocate_node, einval,
}
use plenjos_kernel.Fscache.Links.{IsTree}
use plenjos_kernel.Fscache.Locks.{OneReader, AboveRoot, Loads}
use plenjos_kernel.Fscache.Request.{fscache_request_node_locks}
use plenjos_kernel.Vfs.{
  Vfs, Reply, refused, release, last_component, Created, created, create_error, FileSystem,
  starts_with_slash, masked, allows, access_of, opened,
}
use plenjos_kernel.Vfs.Locks.{
  Held, Idle, Creates, release-Idle, New, new-Held, allocated-New, put-New,
}
use plenjos_kernel.Vfs.Open.{Jammed, AboveRoot-Jammed}
use plenjos_kernel.Vfs.Mkdir.{end_mkdir, mkdir_missing, mkdir_answered, vfs_mkdir}

-- No handle is given, and the counts and the handles are those of before.
abbrev pub Unbooked : Vfs → Reply → Type 0
Unbooked s r = (r.handle ≡ none) × (r.state.refs ≡ s.refs) × (r.state.handles ≡ s.handles)

abbrev Kept : ℕ → Vfs → ℕ → Reply → Type 0
Kept root s n r = Held root r.state n × Unbooked s r

refused-Kept : {root : ℕ} (s : Vfs) (n : ℕ) (e : ℤ) → Held root s n → Kept root s n (refused s e)
refused-Kept s n e h = (h, (refl, refl, refl))

module _ (fs : FileSystem) (creates : Creates fs) where
  end_mkdir-Kept :
      {root : ℕ} (n : ℕ) (name : List ℕ) (uid gid mode : ℕ) (k : ℕ) (s : Vfs) (c : Cache)
      (r : Created)
      → Held root s n
      → New s.cache c k
      → fs.create_child c n name 4 uid gid mode ≡ r
      → Kept root s n (end_mkdir k (record s { cache = c }) r)
  unfolding end_mkdir release
  end_mkdir-Kept n name uid gid mode k s c (create_error e) h w r =
      (new-Held s (record s { cache = c }) n k h w, (refl, refl, refl))
  end_mkdir-Kept n name uid gid mode k s c (created node) h w r =
      let put =
        put-New s.cache c k node w (creates.in_use c n name 4 uid gid mode node r)
          (creates.no_child c n name 4 uid gid mode node r)
          (creates.no_parent c n name 4 uid gid mode node r) in
      (new-Held s (record s { cache = set_node c k node }) n k h put, (refl, refl, refl))

  mkdir_missing-Kept :
      {root : ℕ} (path : List ℕ) (uid gid mode n : ℕ) (s : Vfs)
      → Held root s n
      → Kept root s n (mkdir_missing fs path uid gid mode n s)
  unfolding mkdir_missing
  mkdir_missing-Kept path uid gid mode n s h =
      elim (Bool-cases
        (not (allows (access_of fs s n uid) 2) || not (allows (access_of fs s n uid) 1))) [
          | inl e ↦ rw (e, mkdir_missing) (refused-Kept s n (negsuc 12) h)
          | inr e ↦ elim (Bool-cases (fs.can_create s.cache n)) [
            | inr f ↦ rw (e, f, mkdir_missing) (refused-Kept s n (negsuc 4) h)
            | inl f ↦ elim (Option-cases (fscache_allocate_node s.cache)) [
              | inl g ↦ rw (e, f, g, mkdir_missing) (refused-Kept s n (negsuc 11) h)
              | inr ((k, c), g) ↦
                  rw (e, f, g, mkdir_missing)
                    (end_mkdir-Kept n (last_component path path) uid gid (masked mode 1023) k s c
                      (fs.create_child c n (last_component path path) 4 uid gid (masked mode 1023))
                      h (allocated-New s.cache c k g) refl)
            ]
          ]
        ]

  mkdir_answered-Kept :
      {root : ℕ} (path : List ℕ) (uid gid mode : ℕ) (code : ℤ) (n : ℕ) (s : Vfs)
      → Held root s n
      → Kept root s n (mkdir_answered fs path uid gid mode code n s)
  unfolding mkdir_answered
  mkdir_answered-Kept path uid gid mode (pos zero) n s h = refused-Kept s n (negsuc 16) h
  mkdir_answered-Kept path uid gid mode (pos (suc zero)) n s h =
      mkdir_missing-Kept path uid gid mode n s h
  mkdir_answered-Kept path uid gid mode (pos (suc (suc k))) n s h =
      refused-Kept s n (pos (suc (suc k))) h
  mkdir_answered-Kept path uid gid mode (negsuc k) n s h = refused-Kept s n (negsuc k) h

  mkdir-refused :
      (root : Option ℕ) (path : List ℕ) (uid gid mode : ℕ) (s : Vfs)
      → starts_with_slash path ≡ false
      → vfs_mkdir fs root path uid gid mode s ≡ opened (refused s einval)
  unfolding vfs_mkdir
  mkdir-refused root path uid gid mode s e = rw (e, vfs_mkdir) refl

  mkdir-run :
      (root : Option ℕ) (path : List ℕ) (uid gid mode : ℕ) (s : Vfs) (code : ℤ) (n : ℕ) (c : Cache)
      → starts_with_slash path ≡ true
      → fscache_request_node fs.load_node uid root s.cache true path ≡ answers code (some n) c
      → (let r = mkdir_answered fs path uid gid mode code n (record s { cache = c }) in
          vfs_mkdir fs root path uid gid mode s ≡ opened (record r { state = release r.state n }))
  unfolding vfs_mkdir
  mkdir-run root path uid gid mode s code n c e run = rw (e, run, vfs_mkdir) refl

  slash_some : (path : List ℕ) → starts_with_slash path ≡ true → same_text path [] ≡ false
  slash_some [] e = absurd (ground arith)
  slash_some (c ∷ cs) e = refl

  mkdir-closed :
      {root : ℕ} (path : List ℕ) (uid gid mode : ℕ) (code : ℤ) (n : ℕ) (s : Vfs)
      → IsTree s.cache root
      → OneReader s.cache n ⊎ AboveRoot s.cache root code n
      → (let r = mkdir_answered fs path uid gid mode code n s in
          Unbooked s (record r { state = release r.state n })
          × (Idle root (release r.state n) ⊎ Jammed root (record r { state = release r.state n })))
  unfolding mkdir_answered
  mkdir-closed path uid gid mode code n s tree (inl o) =
      let r = mkdir_answered fs path uid gid mode code n s in
      let (h, b) = mkdir_answered-Kept path uid gid mode code n s (tree, o) in
      (b, inl (release-Idle r.state n h))
  mkdir-closed {root} path uid gid mode code n s tree (inr a) =
      subst
        (λ e.
          let r = mkdir_answered fs path uid gid mode e n s in
          Unbooked s (record r { state = release r.state n })
          × (Idle root (release r.state n) ⊎ Jammed root (record r { state = release r.state n })))
        (sym a.code) ((refl, refl, refl), inr (AboveRoot-Jammed code n s tree a))

  -- Where the file systems load and create only nodes that are in use and not yet in the tree, the
  -- nodes under the root are a tree, and the locks of all nodes in use are free, a call of `vfs_mkdir`
  -- returns, with the handles and the reference counts as before. The nodes under the root are a tree
  -- again and no lock of a node in use is held, whichever way the call ends; but when the path goes
  -- above the root, the code is -ENOENT and the lock of the root is left at -1, with all others free.
  pub vfs_mkdir_settles :
      (root : ℕ) (path : List ℕ) (uid gid mode : ℕ) (s : Vfs)
      → Loads fs.load_node
      → Idle root s
      → (r : Reply) × (vfs_mkdir fs (some root) path uid gid mode s ≡ opened r)
        × Unbooked s r
        × (Idle root r.state ⊎ Jammed root r)
  vfs_mkdir_settles root path uid gid mode s loads idle =
      elim (Bool-cases (starts_with_slash path)) [
        | inr e ↦ (
          refused s einval,
          mkdir-refused (some root) path uid gid mode s e,
          (refl, refl, refl),
          inl idle,
        )
        | inl e ↦
            let (code, n, c, run, tree, grows, under, held) =
              fscache_request_node_locks fs.load_node uid root s.cache path loads idle.tree
                idle.free (slash_some path e) in
            let t = record s { cache = c } in
            let r = mkdir_answered fs path uid gid mode code n t in
            let (unbooked, left) = mkdir-closed path uid gid mode code n t tree held in
            (
              record r { state = release r.state n },
              mkdir-run (some root) path uid gid mode s code n c e run,
              unbooked,
              left,
            )
      ]
