-- ===== src/Lock/Invariant.antt =====
-- What the two words of a reader-writer lock count, in every reachable state.
use plenjos_kernel.Prelude.{ℕ, ◌+◌, ◌-◌, ◌≡◌, ◌⊎◌, some, List, arith, get_elem?, set}
use plenjos_kernel.Prelude.Int.{ℤ, pos, negsuc, ◌-ℤ◌}
use plenjos_kernel.Prelude.Total.{total, total-set, le-total, total-replicate}
use plenjos_kernel.Lock.{
  RwLock, Pc, idle, want_read, checking, trying, reading, read_release, spinning, acquired, writing,
  write_release, upgrade_announce, upgrade_release, downgrading, step, Calls, read_lock, write_lock,
  read_unlock, write_unlock, upgrade_read_to_write, downgrade_write_to_read, System, Step, run,
  call, spurious, initial, Reach, start, next,
}

-- 1 for a thread that holds the lock for reading
abbrev pub reads : Pc → ℕ
reads reading = 1
reads read_release = 1
reads upgrade_announce = 1
reads upgrade_release = 1
reads _ = 0

-- 1 for a thread that holds the lock for writing
abbrev pub writes : Pc → ℕ
writes acquired = 1
writes writing = 1
writes write_release = 1
writes downgrading = 1
writes _ = 0

-- 1 for a thread that has announced that it wants to write
abbrev pub waits : Pc → ℕ
waits spinning = 1
waits acquired = 1
waits upgrade_release = 1
waits _ = 0

-- either readers only, counted by `state`, or one writer only
abbrev pub Held : ℤ → ℕ → ℕ → Type 0
Held st r w = ((st ≡ pos r) × (w ≡ 0)) ⊎ ((st ≡ negsuc 0) × (r ≡ 0) × (w ≡ 1))

pub record Inv (s : System) : Type 0 where
  pub held : Held s.mem.state (total reads s.pcs) (total writes s.pcs)
  pub waiting : s.mem.writers_waiting ≡ total waits s.pcs

-- The counts as the other threads see them: `r`, `w` and `q` leave out a thread that stands at `p`.
abbrev Counts : RwLock → (r w q : ℕ) → Pc → Type 0
Counts m r w q p = Held m.state (r + reads p) (w + writes p) × (m.writers_waiting ≡ q + waits p)

step-Counts :
    (m : RwLock) (r w q : ℕ) (p : Pc) → Counts m r w q p → Counts (step m p).0 r w q (step m p).1
unfolding step ◌-ℤ◌
step-Counts m r w q idle h = h
step-Counts m r w q want_read h = ground arith
step-Counts m r w q (checking v) h = ground arith
step-Counts m r w q (trying v) h = ground arith
step-Counts m r w q spinning h = ground arith
step-Counts m r w q _ h = ground arith

call-Counts :
    (m : RwLock) (r w q : ℕ) {p p' : Pc} → Calls p p' → Counts m r w q p → Counts m r w q p'
call-Counts m r w q read_lock h = h
call-Counts m r w q write_lock h = h
call-Counts m r w q read_unlock h = h
call-Counts m r w q write_unlock h = h
call-Counts m r w q upgrade_read_to_write h = h
call-Counts m r w q downgrade_write_to_read h = h

module _ (m m' : RwLock) (pcs : List Pc) (i : ℕ) (p p' : Pc) (e : get_elem? pcs i ≡ some p)
    (keep : (r w q : ℕ) → Counts m r w q p → Counts m' r w q p') where
  -- What keeps the counts around one thread keeps the invariant.
  Counts-Inv : Inv (record { mem = m; pcs = pcs }) → Inv (record { mem = m'; pcs = set pcs i p' })
  Counts-Inv v = ground (
    arith,
    keep (total reads pcs - reads p) (total writes pcs - writes p) (total waits pcs - waits p),
    total-set reads pcs i p p' e,
    total-set writes pcs i p p' e,
    total-set waits pcs i p p' e,
    le-total reads pcs i p e,
    le-total writes pcs i p e,
    le-total waits pcs i p e,
  )

Step-Inv : {s t : System} → Step s t → Inv s → Inv t
Step-Inv {s} (run i p e) v =
    Counts-Inv s.mem (step s.mem p).0 s.pcs i p (step s.mem p).1 e
      (λ r w q. step-Counts s.mem r w q p) v
Step-Inv {s} (call i p q e c) v =
    Counts-Inv s.mem s.mem s.pcs i p q e (λ r w k. call-Counts s.mem r w k c) v
Step-Inv {s} (spurious i u e) v =
    Counts-Inv s.mem s.mem s.pcs i (trying u) want_read e (λ r w q h. h) v

initial-Inv : (n : ℕ) → Inv (initial n)
initial-Inv n = ground (
  arith,
  total-replicate reads n idle,
  total-replicate writes n idle,
  total-replicate waits n idle,
)

pub Reach-Inv : {n : ℕ} {s : System} → Reach n s → Inv s
Reach-Inv {n} start = initial-Inv n
Reach-Inv (next r st) = Step-Inv st (Reach-Inv r)
