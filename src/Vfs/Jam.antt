-- ===== src/Vfs/Jam.antt =====
-- A path above the root, opened by `vfs_open` (vfs/vfs.c).
use plenjos_kernel.Prelude.{
  ℕ, ◌≡◌, refl, ap, ◌∙◌, Bool, true, false, Option, none, some, List, [], ◌∷◌, ◌==◌, ◌&&◌, ◌||◌,
  not, bit_and,
}
use plenjos_kernel.Prelude.Int.{pos}
use plenjos_kernel.Access.{access_check}
use plenjos_kernel.Fscache.{
  Cache, set_lock, remove_reader, answers, hangs, fscache_request_node, set_and_return,
  follow_tokens, slash, dot, dt_dir, enoent,
}
use plenjos_kernel.Fscache.Request.{
  request-run, up_from_root, tokens_stop, parent_path, parent_token, looks_written, request_hangs,
}
use plenjos_kernel.Vfs.{
  Vfs, refused, release, has, FileSystem, starts_with_slash, open_answered, vfs_open, opened,
  open_hangs,
}
use plenjos_kernel.Vfs.Open.{open-run, slash_path}

-- the path `/..`
abbrev pub above_root : List ℕ
above_root = slash ∷ dot ∷ dot ∷ []

module _ (fs : FileSystem) where
  request_up :
      (uid r : ℕ) (c : Cache)
      → c.locks r ≡ pos 0
      → (c.nodes r).type ≡ dt_dir
      → (c.nodes r).parent_node ≡ none
      → (bit_and (access_check (c.nodes r).mode (c.nodes r).uid (c.nodes r).gid uid) 1 == 0) ≡ false
      → (let c₁ = set_lock c r (pos 1) in
          fscache_request_node fs.load_node uid (some r) c true above_root
          ≡ answers enoent (some r) (set_lock c₁ r (remove_reader (c₁.locks r))))
  unfolding set_and_return set_lock
  request_up uid r c free dir root may =
      let c₁ = set_lock c r (pos 1) in
      request-run fs.load_node uid r c true above_root refl free
      ∙ ap (λ ts. set_and_return true above_root (follow_tokens fs.load_node uid ts c₁ r))
          parent_path
      ∙ ap (set_and_return true above_root) (
          tokens_stop fs.load_node uid r c₁ parent_token [] enoent r
            (set_lock c₁ r (remove_reader (c₁.locks r)))
            (up_from_root fs.load_node uid r c₁ dir root may))

  open-hangs :
      (root block : Option ℕ) (path : List ℕ) (flags mode uid : ℕ) (wanted : Bool) (s : Vfs)
      → (not (starts_with_slash path) || (has flags 8 && has flags 32)) ≡ false
      → fscache_request_node fs.load_node uid root s.cache true path ≡ hangs
      → vfs_open fs root block path flags mode uid wanted s ≡ open_hangs
  unfolding vfs_open
  open-hangs root block path flags mode uid wanted s e run = rw (e, run, vfs_open) refl

  -- When the root is a directory with no parent that the user may search, and its lock is free, then
  -- opening `/..`, with flags that are not refused, returns -ENOENT and leaves the root's lock at -1:
  -- whoever opens any path after that, with flags that are not refused, waits for ever.
  pub vfs_open_jams :
      (r : ℕ) (block : Option ℕ) (flags mode uid : ℕ) (s : Vfs) (path : List ℕ)
      (flags' mode' uid' : ℕ) (wanted : Bool)
      → s.cache.locks r ≡ pos 0
      → (s.cache.nodes r).type ≡ dt_dir
      → (s.cache.nodes r).parent_node ≡ none
      → (bit_and
            (access_check (s.cache.nodes r).mode (s.cache.nodes r).uid (s.cache.nodes r).gid uid)
            1
          == 0)
        ≡ false
      → (has flags 8 && has flags 32) ≡ false
      → (not (starts_with_slash path) || (has flags' 8 && has flags' 32)) ≡ false
      → (t : Vfs) × (vfs_open fs (some r) block above_root flags mode uid true s
          ≡ opened (refused t enoent))
        × (vfs_open fs (some r) block path flags' mode' uid' wanted t ≡ open_hangs)
  unfolding open_answered release
  vfs_open_jams r block flags mode uid s path flags' mode' uid' wanted free dir root may taken
        taken' =
      let c = s.cache in
      let c₁ = set_lock c r (pos 1) in
      let c₂ = set_lock c₁ r (remove_reader (c₁.locks r)) in
      let t = release (record s { cache = c₂ }) r in
      (
        t,
        open-run fs block true (some r) above_root flags mode uid s enoent r c₂ taken
            (request_up uid r c free dir root may),
        open-hangs (some r) block path flags' mode' uid' wanted t taken' (
            request_hangs fs.load_node uid' r t.cache true path
              (slash_path fs block wanted path (has flags' 8 && has flags' 32) taken')
              (looks_written c r)),
      )
