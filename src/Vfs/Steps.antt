-- ===== src/Vfs/Steps.antt =====
-- The steps of `vfs_open` (vfs/vfs.c) on a node that is read-locked, and what they leave.
use plenjos_kernel.Prelude.{
  ℕ, zero, suc, ◌^◌, ◌≤◌, ◌≡◌, refl, sym, subst, Bool, true, false, Option, none, some, List, ◌==◌,
  ◌&&◌, ◌||◌, not, if◌then◌else◌, Bool-cases, Option-cases, inl, inr,
}
use plenjos_kernel.Prelude.Int.{ℤ, pos, negsuc, neg_part}
use plenjos_kernel.Fscache.{Cache, fscache_allocate_node, enoent, dt_dir}
use plenjos_kernel.Fscache.Links.{IsTree}
use plenjos_kernel.Fscache.Locks.{OneReader}
use plenjos_kernel.Vfs.{
  Vfs, Reply, refused, release, vfs_helper_create_handle, has, lacks, handle_access, allows,
  last_component, Created, created, create_error, FileSystem, create_in, vfs_creatat, access_of,
  open_created, open_missing, open_existing, open_answered,
}
use plenjos_kernel.Vfs.Locks.{Held, Creates, New, new-Held, allocated-New, put-New}
use plenjos_kernel.Vfs.Books.{
  InRange, Booked, Books, refused-Books, create_handle-cache, create_handle-Books,
}

-- what a step leaves that works on the node `n`
abbrev pub Settled : ℕ → Vfs → ℕ → ℕ → Reply → Type 0
Settled root s flags n r = Held root r.state n × Books s flags r

pub refused-Settled :
    {root : ℕ} (s : Vfs) (flags n : ℕ) (e : ℤ)
    → Held root s n
    → Settled root s flags n (refused s e)
refused-Settled s flags n e h = (h, refused-Books s flags e)

pub create_handle-Settled :
    {root : ℕ} (block : Option ℕ) (n flags : ℕ) (s : Vfs)
    → InRange s
    → Held root s n
    → Settled root s flags n (vfs_helper_create_handle block n (handle_access flags) s)
create_handle-Settled {root} block n flags s i h = (
  subst (λ c. IsTree c root × OneReader c n)
      (sym (create_handle-cache block n (handle_access flags) s)) h,
  create_handle-Books block n flags s i,
)

-- What `vfs_creatat` leaves: an error, and the locks as before; or a new node, read-locked.
abbrev Made : ℕ → Vfs → ℕ → ℤ × Option ℕ × Vfs → Type 0
Made root s n (code, none, t) = Held root t n × (t.refs ≡ s.refs) × (t.handles ≡ s.handles)
Made root s n (code, some k, t) =
    (code ≡ pos 0) × New s.cache t.cache k × (t.refs ≡ s.refs) × (t.handles ≡ s.handles)

module _ (fs : FileSystem) (creates : Creates fs) where
  pub create_in-Made :
      {root : ℕ} (parent : ℕ) (name : List ℕ) (type uid gid mode : ℕ) (k : ℕ) (s : Vfs) (c : Cache)
      (r : Created)
      → Held root s parent
      → New s.cache c k
      → fs.create_child c parent name type uid gid mode ≡ r
      → Made root s parent (create_in fs parent name type uid gid mode k (record s { cache = c }))
  unfolding create_in
  create_in-Made parent name type uid gid mode k s c (create_error e) h w r =
      rw (r, create_in) (new-Held s (record s { cache = c }) parent k h w, refl, refl)
  create_in-Made parent name type uid gid mode k s c (created node) h w r =
      rw (r, create_in)
        (
          refl,
          put-New s.cache c k node w (creates.in_use c parent name type uid gid mode node r)
              (creates.no_child c parent name type uid gid mode node r)
              (creates.no_parent c parent name type uid gid mode node r),
          refl,
          refl,
        )

  pub creatat-Made :
      {root : ℕ} (parent : ℕ) (name : List ℕ) (uid gid mode : ℕ) (s : Vfs)
      → Held root s parent
      → Made root s parent (vfs_creatat fs parent name uid gid mode s)
  unfolding vfs_creatat
  creatat-Made parent name uid gid mode s h = elim (Bool-cases (fs.can_create s.cache parent)) [
    | inl can ↦ elim (Option-cases (fscache_allocate_node s.cache)) [
      | inl e ↦ rw (can, e, vfs_creatat) (h, refl, refl)
      | inr ((k, c), e) ↦
          rw (can, e, vfs_creatat)
            (create_in-Made parent name 8 uid gid mode k s c
              (fs.create_child c parent name 8 uid gid mode) h (allocated-New s.cache c k e) refl)
    ]
    | inr not_can ↦ rw (not_can, vfs_creatat) (h, refl, refl)
  ]

-- A handle booked on a state with the same counts and handles, and a lock released after it.
pub Books-from :
    (s t : Vfs) (flags : ℕ) (r : Reply)
    → t.refs ≡ s.refs
    → t.handles ≡ s.handles
    → Books t flags r
    → Books s flags r
Books-from s t flags r e f b =
    subst (λ x. Booked (record s { refs = x }) flags r.code r.handle r.state) e
      (subst (λ x. Booked (record s { refs = t.refs; handles = x }) flags r.code r.handle r.state) f
        b)

pub Books-released :
    (s : Vfs) (flags k : ℕ) (r : Reply)
    → Books s flags r
    → Books s flags (record r { state = release r.state k })
unfolding release
Books-released s flags k r b = booked r.code r.handle r.state b
  where
    booked :
        (code : ℤ) (h : Option ℕ) (t : Vfs)
        → Booked s flags code h t
        → Booked s flags code h (record t { cache = (release t k).cache })
    booked code none t b = b
    booked code (some a) t b = b

InRange-from : (s t : Vfs) → t.refs ≡ s.refs → InRange s → InRange t
InRange-from s t e i = λ u. subst (λ f. neg_part (f u) ≤ 2 ^ 31) (sym e) (i u)

open_created-Settled :
    {root : ℕ} (block : Option ℕ) (flags : ℕ) (wanted : Bool) (s : Vfs) (n : ℕ)
    (m : ℤ × Option ℕ × Vfs)
    → InRange s
    → Held root s n
    → Made root s n m
    → Settled root s flags n (open_created block flags wanted m)
unfolding open_created
open_created-Settled block flags wanted s n (code, none, t) i h (h', e, f) =
    (h', Books-from s t flags (refused t code) e f (refused-Books t flags code))
open_created-Settled block flags true s n (code, some k, t) i h (z, w, e, f) =
    let r = vfs_helper_create_handle block k (handle_access flags) t in
    (
      new-Held s r.state n k h (
          subst (λ c. New s.cache c k) (sym (create_handle-cache block k (handle_access flags) t))
            w),
      Books-released s flags k r
          (Books-from s t flags r e f (create_handle-Books block k flags t (InRange-from s t e i))),
    )
open_created-Settled block flags false s n (code, some k, t) i h (z, w, e, f) = (
  new-Held s t n k h w,
  Books-released s flags k (refused t code)
      (Books-from s t flags (refused t code) e f (refused-Books t flags code)),
)

module _ (fs : FileSystem) (creates : Creates fs) (block : Option ℕ) (wanted : Bool)
    {root : ℕ} where
  open_missing-Settled :
      (path : List ℕ) (flags mode uid n : ℕ) (s : Vfs)
      → InRange s
      → Held root s n
      → Settled root s flags n (open_missing fs block path flags mode uid wanted n s)
  unfolding open_missing
  open_missing-Settled path flags mode uid n s i h =
      let name = last_component path path in
      choose (not (has flags 8))
        (not (allows (access_of fs s n uid) 2) || not (allows (access_of fs s n uid) 1))
        (open_created block flags wanted (vfs_creatat fs n name uid 0 mode s))
        (open_created-Settled block flags wanted s n (vfs_creatat fs n name uid 0 mode s) i h
          (creatat-Made fs creates n name uid 0 mode s h))
    where
      choose :
          (a b : Bool) (made : Reply)
          → Settled root s flags n made
          → Settled root s flags n
              (if a then refused s enoent else (if b then refused s (negsuc 12) else made))
      choose true b made m = refused-Settled s flags n enoent h
      choose false true made m = refused-Settled s flags n (negsuc 12) h
      choose false false made m = m

  open_existing-Settled :
      (flags uid n : ℕ) (s : Vfs)
      → InRange s
      → Held root s n
      → Settled root s flags n (open_existing fs block flags uid wanted n s)
  unfolding open_existing
  open_existing-Settled flags uid n s i h =
      choose (has flags 8 && has flags 16) (has flags 32 && not ((s.cache.nodes n).type == dt_dir))
        (lacks flags (access_of fs s n uid) 4
          || lacks flags (access_of fs s n uid) 2
          || lacks flags (access_of fs s n uid) 1)
        wanted
    where
      choose :
          (a b c w : Bool)
          → Settled root s flags n (
              if a
              then refused s (negsuc 16)
              else (if b
                  then refused s (negsuc 19)
                  else (if c
                      then refused s (negsuc 12)
                      else (if w
                          then vfs_helper_create_handle block n (handle_access flags) s
                          else refused s (pos 0)))))
      choose true b c w = refused-Settled s flags n (negsuc 16) h
      choose false true c w = refused-Settled s flags n (negsuc 19) h
      choose false false true w = refused-Settled s flags n (negsuc 12) h
      choose false false false true = create_handle-Settled block n flags s i h
      choose false false false false = refused-Settled s flags n (pos 0) h

  pub open_answered-Settled :
      (path : List ℕ) (flags mode uid : ℕ) (code : ℤ) (n : ℕ) (s : Vfs)
      → InRange s
      → Held root s n
      → Settled root s flags n (open_answered fs block path flags mode uid wanted code n s)
  unfolding open_answered
  open_answered-Settled path flags mode uid (pos zero) n s i h =
      open_existing-Settled flags uid n s i h
  open_answered-Settled path flags mode uid (pos (suc zero)) n s i h =
      open_missing-Settled path flags mode uid n s i h
  open_answered-Settled path flags mode uid (pos (suc (suc k))) n s i h =
      refused-Settled s flags n (pos (suc (suc k))) h
  open_answered-Settled path flags mode uid (negsuc k) n s i h =
      refused-Settled s flags n (negsuc k) h
