-- ===== src/Slots.antt =====
-- Tables of slots: the file descriptors of a process (proc/proc.c) and the timeouts (timer/timer.c).
-- Both hand out the lowest free slot.
use plenjos_kernel.Prelude.{
  ℕ, zero, suc, ◌+◌, ◌-◌, ◌≤◌, ◌<◌, ◌≡◌, ◌≢◌, ◌⊎◌, inl, inr, refl, ap, ◌∙◌, arith, Bool, true,
  false, Option, none, some, List, [], ◌∷◌, ◌==◌, ltb, leb, if◌then◌else◌, get_or, set, length,
  length-set, get_or-set_self, get_or-set_ne, is_some, ne→==, ==_refl,
}
use plenjos_kernel.Prelude.Int.{ℤ, pos, negsuc, ltb_ℤ}
pub mod Laws
mod Examples

-- A handle's address; 0 is NULL. The length of the table is `fds_max`, and the process is not NULL.
unfoldable pub proc_get_fd : List ℕ → ℤ → ℕ
proc_get_fd fds (negsuc n) = 0
proc_get_fd fds (pos fd) = if leb (length fds) fd then 0 else get_or fds fd 0

-- the loop of `proc_alloc_fd` and `set_timeout`, from slot `i` on: the first slot that holds `free`
unfoldable pub first_free : ℕ → List ℕ → ℕ → Option ℕ
first_free free [] i = none
first_free free (x ∷ xs) i =
    let rest = first_free free xs (i + 1) in if x == free then some i else rest

-- `none` is the result -1.
unfoldable pub proc_alloc_fd : List ℕ → ℕ → Option ℕ × List ℕ
proc_alloc_fd fds handle =
    if handle == 0
    then (none, fds)
    else elim (first_free 0 fds 0) [ none ↦ (none, fds) | some i ↦ (some i, set fds i handle) ]

-- A negative descriptor is not refused: the store below the table is `none`.
unfoldable pub proc_free_fd : List ℕ → ℤ → Option (List ℕ)
proc_free_fd fds (negsuc n) = none
proc_free_fd fds (pos fd) = if leb (length fds) fd then some fds else some (set fds fd 0)

-- `struct timer_timeout`
pub record Timeout : Type 0 where
  pub milliseconds : ℕ
  pub start_time : ℕ
  pub callback : ℕ
  -- the union of `data` and `core_id`
  pub argument : ℕ

-- The claim of a slot by compare-and-swap from 0, and the stores up to the final one.
unfoldable pub claim_slot : (Timeout → Timeout) → ℕ → List Timeout → Option ℕ × List Timeout
claim_slot fill i [] = (none, [])
claim_slot fill i (t ∷ ts) =
    let rest = claim_slot fill (i + 1) ts in
    if t.milliseconds == 0 then (some i, fill t ∷ ts) else (rest.0, t ∷ rest.1)

unfoldable pub set_timeout : List Timeout → ℕ → ℕ → ℕ → ℕ → Option ℕ × List Timeout
set_timeout ts pit_count milliseconds callback data_ptr =
    claim_slot
      (λ t. record t {
        milliseconds = milliseconds;
        start_time = pit_count;
        callback = callback;
        argument = data_ptr;
      })
      0 ts

unfoldable pub set_core_wakeup_timeout : List Timeout → ℕ → ℕ → ℕ → Option ℕ × List Timeout
set_core_wakeup_timeout ts pit_count milliseconds core_id =
    claim_slot
      (λ t. record t {
        milliseconds = milliseconds;
        start_time = pit_count;
        callback = 0;
        argument = core_id;
      })
      0 ts
