-- ===== src/Lock/Safety.antt =====
-- What the interleavings of rw_lock_* in lib/lock.c cannot do, whatever the schedule.
use plenjos_kernel.Prelude.{ℕ, ◌≡◌, ◌≢◌, ◌⊎◌, false, true, some, arith, get_elem?}
use plenjos_kernel.Prelude.Int.{pos}
use plenjos_kernel.Prelude.Total.{total, le-total, add-le-total}
use plenjos_kernel.Lock.{Pc, want_read, checking, rw_lock_is_write_locked, step, System, Reach}
use plenjos_kernel.Lock.Invariant.{reads, writes, waits, Reach-Inv}

-- In every reachable state, while one thread holds the lock for writing, no other thread holds it,
-- neither for reading nor for writing.
pub writer_excludes :
    {n : ℕ} {s : System} (i j : ℕ) (p q : Pc)
    → Reach n s
    → i ≢ j
    → get_elem? s.pcs i ≡ some p
    → get_elem? s.pcs j ≡ some q
    → writes p ≡ 1
    → (reads q ≡ 0) × (writes q ≡ 0)
writer_excludes {s} i j p q r ne e f h = ground (
  arith,
  Reach-Inv r,
  add-le-total writes s.pcs i j p q ne e f,
  le-total reads s.pcs j q f,
  le-total writes s.pcs i p e,
)

-- In every reachable state either `rw_lock_is_write_locked` answers yes and exactly one thread holds
-- the lock for writing, or it answers no, no thread does, and the state word is the number of
-- threads that hold it for reading.
pub is_write_locked_exact :
    {n : ℕ} {s : System}
    → Reach n s
    → ((rw_lock_is_write_locked s.mem ≡ true) × (total writes s.pcs ≡ 1))
      ⊎ ((rw_lock_is_write_locked s.mem ≡ false)
          × (total writes s.pcs ≡ 0)
          × (s.mem.state ≡ pos (total reads s.pcs)))
unfolding rw_lock_is_write_locked
is_write_locked_exact {s} r = ground (arith, Reach-Inv r)

-- In every reachable state in which some thread has announced a write, a reader that checks for
-- waiting writers is sent back to the start of its loop, and the lock stays as it is.
pub announced_writer_stops_readers :
    {n : ℕ} {s : System} (i v : ℕ) (p : Pc)
    → Reach n s
    → get_elem? s.pcs i ≡ some p
    → waits p ≡ 1
    → step s.mem (checking v) ≡ (s.mem, want_read)
unfolding step
announced_writer_stops_readers {s} i v p r e h =
    ground (arith, Reach-Inv r, le-total waits s.pcs i p e)
