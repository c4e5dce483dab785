-- ===== src/Frames.antt =====
-- memory/mm_phys.c and memory/detect.h: the map of page frames, with the list of free frames that is
-- linked through it by indices. Index 0 ends the list, and a pointer to a frame is its index.
use plenjos_kernel.Prelude.{
  ℕ, zero, suc, ◌+◌, ◌-◌, ◌^◌, ◌≡◌, Bool, true, false, Option, none, some, ◌==◌, leb, ltb, not,
  ◌||◌, if◌then◌else◌,
}
pub mod FreeList
mod Examples

-- `struct phys_mem_free_frame`; the flags are a bit and a count of 23 bits.
pub record Frame : Type 0 where
  pub prev_free : ℕ
  pub next_free : ℕ
  pub usable : Bool
  pub refcnt : ℕ

-- The map, its size, `phys_mem_frame_map_next_free` and `phys_mem_lock`.
pub record Pmm : Type 0 where
  pub frames : ℕ → Frame
  pub size : ℕ
  pub next_free : Option ℕ
  pub locked : Bool

unfoldable pub update : (ℕ → Frame) → ℕ → Frame → ℕ → Frame
update frames i f j = if j == i then f else frames j

-- `phys_mem_ref_frame`: the new count; `none` is its panic.
unfoldable pub phys_mem_ref_frame : Frame → Option (ℕ × Frame)
phys_mem_ref_frame f =
    if leb (2 ^ 23) (f.refcnt + 1)
    then none
    else some (f.refcnt + 1, record f { refcnt = f.refcnt + 1 })

-- `phys_mem_unref_frame`: the flags that it returns, and the frame, which does not go back to the list
unfoldable pub phys_mem_unref_frame : Frame → ℕ × Frame
phys_mem_unref_frame f =
    if f.refcnt == 0
    then (0, f)
    else ((if f.usable then 2 ^ 23 else 0) + (f.refcnt - 1), record f { refcnt = f.refcnt - 1 })

-- what a call may do: hand out a frame, return 0, halt the machine, or wait for the lock for ever
pub data Outcome : Type 0 where
  handed : ℕ → Pmm → Outcome
  no_frame : Pmm → Outcome
  halted : Outcome
  waits : Outcome

-- the frame behind, with its `prev_free` cleared
abbrev pub unlink_next : (ℕ → Frame) → ℕ → ℕ → Frame
unlink_next frames next =
    if next == 0 then frames else update frames next (record (frames next) { prev_free = 0 })

-- The list goes on behind frame `i`, which is marked as used and taken out; then the lock is released.
unfoldable pub take_frame : Pmm → ℕ → Frame → Outcome
take_frame s i referenced =
    let f = s.frames i in
    let frames = unlink_next (update s.frames i referenced) f.next_free in
    if not ((frames i).prev_free == 0)
    then halted
    else handed i (record s {
      frames = update frames i (record referenced { next_free = 0; prev_free = 0 });
      next_free = (if f.next_free == 0 then none else some f.next_free);
      locked = false;
    })

-- the body of `find_next_free_frame`, at the frame `i` where the list starts, with the lock held
unfoldable pub first_frame : Pmm → ℕ → Outcome
first_frame s i =
    let f = s.frames i in
    if leb s.size i
    then no_frame s
    else (if not f.usable
        then halted
        else (if not (f.refcnt == 0) then halted else elim (phys_mem_ref_frame f) [
          | none ↦ halted
          | some (n, referenced) ↦ take_frame s i referenced
        ]))

-- `find_next_free_frame`: where no frame is free, it returns without releasing the lock.
unfoldable pub find_next_free_frame : Pmm → Outcome
find_next_free_frame s =
    let held : Pmm = record s { locked = true } in
    if s.locked
    then waits
    else elim s.next_free [ none ↦ no_frame held | some i ↦ first_frame held i ]
