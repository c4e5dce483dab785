-- ===== src/Lock.antt =====
-- lib/lock.c: the reader-writer lock, as the atomic accesses that its functions make, one to a
-- step, so that any number of threads may be interleaved between them.
pub mod Invariant
pub mod Safety
mod Examples
use plenjos_kernel.Prelude.{
  ℕ, ◌+◌, ◌-◌, ◌≡◌, Bool, true, false, Option, none, some, List, [], ◌∷◌, ◌==◌, if◌then◌else◌,
  get_elem?, set, replicate,
}
use plenjos_kernel.Prelude.Int.{ℤ, pos, negsuc, ◌+ℤ◌, ◌-ℤ◌, ltb_ℤ}

-- `rw_lock_t`: -1 while a writer holds the lock, else the number of readers.
pub record RwLock : Type 0 where
  pub state : ℤ
  pub writers_waiting : ℕ

abbrev pub eqb_ℤ : ℤ → ℤ → Bool
eqb_ℤ (pos a) (pos b) = a == b
eqb_ℤ (negsuc a) (negsuc b) = a == b
eqb_ℤ (pos a) (negsuc b) = false
eqb_ℤ (negsuc a) (pos b) = false

pub rw_lock_init : RwLock
rw_lock_init = record { state = pos 0; writers_waiting = 0 }

-- Where a thread stands: outside, inside one of the functions, or holding the lock. The number
-- that `checking` and `trying` carry is the local variable `v`, which has passed the test `v < 0`.
pub data Pc : Type 0 where
  idle : Pc
  want_read : Pc
  checking : ℕ → Pc
  trying : ℕ → Pc
  reading : Pc
  read_release : Pc
  write_announce : Pc
  spinning : Pc
  acquired : Pc
  writing : Pc
  write_release : Pc
  upgrade_announce : Pc
  upgrade_release : Pc
  downgrading : Pc

-- The accesses of `rw_lock_read_lock`: load `state`, load `writers_waiting`, then the compare and
-- exchange. Every failure goes back to the first load.
pub read_load_step : RwLock → RwLock × Pc
read_load_step m = elim m.state [ pos v ↦ (m, checking v) | negsuc _ ↦ (m, want_read) ]

pub read_check_step : RwLock → ℕ → RwLock × Pc
read_check_step m v = if m.writers_waiting == 0 then (m, trying v) else (m, want_read)

pub read_cas_step : RwLock → ℕ → RwLock × Pc
read_cas_step m v =
    if eqb_ℤ m.state (pos v) then (record m { state = pos (v + 1) }, reading) else (m, want_read)

pub read_unlock_step : RwLock → RwLock × Pc
read_unlock_step m = (record m { state = m.state -ℤ pos 1 }, idle)

-- The exchange of `state` from 0 to -1 in the loops of `rw_lock_write_lock` and the upgrade.
pub write_cas_step : RwLock → RwLock × Pc
write_cas_step m =
    if eqb_ℤ m.state (pos 0) then (record m { state = negsuc 0 }, acquired) else (m, spinning)

-- One atomic access of the function that a thread is in; nothing outside of them.
pub step : RwLock → Pc → RwLock × Pc
unfolding read_load_step read_check_step read_cas_step read_unlock_step write_cas_step
step m idle = (m, idle)
step m want_read = read_load_step m
step m (checking v) = read_check_step m v
step m (trying v) = read_cas_step m v
step m reading = (m, reading)
step m read_release = read_unlock_step m
step m write_announce = (record m { writers_waiting = m.writers_waiting + 1 }, spinning)
step m spinning = write_cas_step m
step m acquired = (record m { writers_waiting = m.writers_waiting - 1 }, writing)
step m writing = (m, writing)
step m write_release = (record m { state = pos 0 }, idle)
step m upgrade_announce = (record m { writers_waiting = m.writers_waiting + 1 }, upgrade_release)
step m upgrade_release = (record m { state = m.state -ℤ pos 1 }, spinning)
step m downgrading = (record m { state = pos 1 }, reading)

-- Which function a thread may call: one that holds nothing locks, a holder gives up or converts.
pub data Calls : Pc → Pc → Type 0 where
  read_lock : Calls idle want_read
  write_lock : Calls idle write_announce
  read_unlock : Calls reading read_release
  write_unlock : Calls writing write_release
  upgrade_read_to_write : Calls reading upgrade_announce
  downgrade_write_to_read : Calls writing downgrading

pub rw_lock_is_write_locked : RwLock → Bool
rw_lock_is_write_locked m = ltb_ℤ m.state (pos 0)

pub record System : Type 0 where
  pub mem : RwLock
  pub pcs : List Pc

-- Thread `i` makes its next access, calls a function, or has a weak exchange fail for no reason.
pub data Step (s : System) : System → Type 0 where
  run :
      (i : ℕ) (p : Pc)
      → get_elem? s.pcs i ≡ some p
      → Step s (record { mem = (step s.mem p).0; pcs = set s.pcs i (step s.mem p).1 })
  call :
      (i : ℕ) (p q : Pc)
      → get_elem? s.pcs i ≡ some p
      → Calls p q
      → Step s (record s { pcs = set s.pcs i q })
  spurious :
      (i v : ℕ)
      → get_elem? s.pcs i ≡ some (trying v)
      → Step s (record s { pcs = set s.pcs i want_read })

abbrev pub initial : ℕ → System
initial n = record { mem = record { state = pos 0; writers_waiting = 0 }; pcs = replicate n idle }

pub data Reach (n : ℕ) : System → Type 0 where
  start : Reach n (initial n)
  next : {s t : System} → Reach n s → Step s t → Reach n t
