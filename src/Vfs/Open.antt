-- ===== src/Vfs/Open.antt =====
-- `vfs_open` (vfs/vfs.c) as a whole: the locks, the handles and the reference counts it leaves.
use plenjos_kernel.Prelude.{
  ℕ, ◌≡◌, ◌≢◌, ◌⊎◌, refl, sym, ◌∙◌, subst, arith, Bool, true, false, Option, none, some, List, [],
  ◌∷◌, ◌&&◌, ◌||◌, not, Bool-cases, inl, inr,
}
use plenjos_kernel.Prelude.Int.{ℤ, pos, negsuc}
use plenjos_kernel.Fscache.{
  same_text, Cache, set_lock, remove_reader, answers, fscache_request_node, enoent, einval,
}
use plenjos_kernel.Fscache.Links.{IsTree}
use plenjos_kernel.Fscache.Locks.{OneReader, AboveRoot, Loads, locked-IsTree}
use plenjos_kernel.Fscache.Request.{fscache_request_node_locks}
use plenjos_kernel.Vfs.{
  Vfs, Reply, refused, release, has, FileSystem, starts_with_slash, open_answered, vfs_open, opened,
}
use plenjos_kernel.Vfs.Locks.{Idle, Creates, release-Idle}
use plenjos_kernel.Vfs.Books.{InRange, Books, refused-Books}
use plenjos_kernel.Vfs.Steps.{Books-released, open_answered-Settled}

-- a path that goes above the root: the root's lock looks write-locked for ever; all else is settled
pub record Jammed (root : ℕ) (r : Reply) : Type 0 where
  pub code : r.code ≡ enoent
  pub tree : IsTree r.state.cache root
  pub taken : r.state.cache.locks root ≡ negsuc 0
  pub others :
      (u : ℕ) → u ≢ root → ((r.state.cache.nodes u).type ≡ 0) ⊎ (r.state.cache.locks u ≡ pos 0)

root_taken : (s : Vfs) (n : ℕ) → s.cache.locks n ≡ pos 0 → (release s n).cache.locks n ≡ negsuc 0
unfolding release set_lock
root_taken s n e = ground arith

others_free :
    (s : Vfs) (n u : ℕ)
    → u ≢ n
    → ((s.cache.nodes u).type ≡ 0) ⊎ (s.cache.locks u ≡ pos 0)
    → (((release s n).cache.nodes u).type ≡ 0) ⊎ ((release s n).cache.locks u ≡ pos 0)
unfolding release set_lock
others_free s n u h free = ground (arith, free)

-- The lock of the root released twice, when it was read-locked once.
pub AboveRoot-Jammed :
    {root : ℕ} (code : ℤ) (n : ℕ) (s : Vfs)
    → IsTree s.cache root
    → AboveRoot s.cache root code n
    → Jammed root (record { code = enoent; handle = none; state = release s n })
unfolding release
AboveRoot-Jammed {root} code n s tree a = record {
  code = refl;
  tree = (locked-IsTree s.cache n (remove_reader (s.cache.locks n)) tree).0;
  taken = subst (λ k. (release s n).cache.locks k ≡ negsuc 0) a.is_root (root_taken s n a.released);
  others = λ u h. others_free s n u (λ e. h (e ∙ a.is_root)) (a.idle u);
}

module _ (fs : FileSystem) (block : Option ℕ) (wanted : Bool) where
  pub open-refused :
      (root : Option ℕ) (path : List ℕ) (flags mode uid : ℕ) (s : Vfs)
      → (not (starts_with_slash path) || (has flags 8 && has flags 32)) ≡ true
      → vfs_open fs root block path flags mode uid wanted s ≡ opened (refused s einval)
  unfolding vfs_open
  open-refused root path flags mode uid s e = rw (e, vfs_open) refl

  pub open-run :
      (root : Option ℕ) (path : List ℕ) (flags mode uid : ℕ) (s : Vfs) (code : ℤ) (n : ℕ)
      (c : Cache)
      → (not (starts_with_slash path) || (has flags 8 && has flags 32)) ≡ false
      → fscache_request_node fs.load_node uid root s.cache true path ≡ answers code (some n) c
      → (let r =
            open_answered fs block path flags mode uid wanted code n (record s { cache = c }) in
          vfs_open fs root block path flags mode uid wanted s
          ≡ opened (record r { state = release r.state n }))
  unfolding vfs_open
  open-run root path flags mode uid s code n c e run = rw (e, run, vfs_open) refl

  above-closed :
      {root : ℕ} (path : List ℕ) (flags mode uid : ℕ) (code : ℤ) (n : ℕ) (s : Vfs)
      → IsTree s.cache root
      → AboveRoot s.cache root code n
      → (let r = open_answered fs block path flags mode uid wanted code n s in
          Books s flags (record r { state = release r.state n })
          × (Idle root (release r.state n) ⊎ Jammed root (record r { state = release r.state n })))
  unfolding open_answered
  above-closed {root} path flags mode uid code n s tree a =
      subst
        (λ e.
          let r = open_answered fs block path flags mode uid wanted e n s in
          Books s flags (record r { state = release r.state n })
          × (Idle root (release r.state n) ⊎ Jammed root (record r { state = release r.state n })))
        (sym a.code)
        (
          Books-released s flags n (refused s enoent) (refused-Books s flags enoent),
          inr (AboveRoot-Jammed code n s tree a),
        )

  answered-closed :
      {root : ℕ} (path : List ℕ) (flags mode uid : ℕ) (code : ℤ) (n : ℕ) (s : Vfs)
      → Creates fs
      → InRange s
      → IsTree s.cache root
      → OneReader s.cache n ⊎ AboveRoot s.cache root code n
      → (let r = open_answered fs block path flags mode uid wanted code n s in
          Books s flags (record r { state = release r.state n })
          × (Idle root (release r.state n) ⊎ Jammed root (record r { state = release r.state n })))
  answered-closed path flags mode uid code n s creates range tree (inl o) =
      let r = open_answered fs block path flags mode uid wanted code n s in
      let (h, b) =
        open_answered-Settled fs creates block wanted path flags mode uid code n s range
          (tree, o) in
      (Books-released s flags n r b, inl (release-Idle r.state n h))
  answered-closed path flags mode uid code n s creates range tree (inr a) =
      above-closed path flags mode uid code n s tree a

  pub slash_path :
      (path : List ℕ) (b : Bool)
      → (not (starts_with_slash path) || b) ≡ false
      → same_text path [] ≡ false
  slash_path [] b e = absurd (ground arith)
  slash_path (c ∷ cs) b e = refl

  -- Where the file systems load and create only nodes that are in use and not yet in the tree, the
  -- nodes under the root are a tree, the locks of all nodes in use are free, and the counts are of type
  -- `int`, a call of `vfs_open` returns. If it gives a handle, the code is 0, the handle has the access
  -- that the flags ask for, and the count of its node has gone up by one; if not, no count and no
  -- handle has changed. The nodes under the root are a tree again and no lock of a node in use is held;
  -- but when the path goes above the root, the code is -ENOENT, and the lock of the root is left at -1,
  -- with all others free.
  pub vfs_open_settles :
      (root : ℕ) (path : List ℕ) (flags mode uid : ℕ) (s : Vfs)
      → Loads fs.load_node
      → Creates fs
      → Idle root s
      → InRange s
      → (r : Reply) × (vfs_open fs (some root) block path flags mode uid wanted s ≡ opened r)
        × Books s flags r
        × (Idle root r.state ⊎ Jammed root r)
  vfs_open_settles root path flags mode uid s loads creates idle range =
      elim (Bool-cases (not (starts_with_slash path) || (has flags 8 && has flags 32))) [
        | inl e ↦ (
          refused s einval,
          open-refused (some root) path flags mode uid s e,
          refused-Books s flags einval,
          inl idle,
        )
        | inr e ↦
            let (code, n, c, run, tree, grows, under, held) =
              fscache_request_node_locks fs.load_node uid root s.cache path loads idle.tree
                idle.free (slash_path path (has flags 8 && has flags 32) e) in
            let t = record s { cache = c } in
            let r = open_answered fs block path flags mode uid wanted code n t in
            let (books, left) =
              answered-closed path flags mode uid code n t creates range tree held in
            (
              record r { state = release r.state n },
              open-run (some root) path flags mode uid s code n c e run,
              books,
              left,
            )
      ]
