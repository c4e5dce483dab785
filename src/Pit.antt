-- ===== src/Pit.antt =====
-- timer/pit.c: the interrupt that ends timeouts, and hands their callbacks to the ring of kernel tasks.
use plenjos_kernel.Prelude.{
  ℕ, zero, suc, ◌+◌, ◌-◌, ◌%◌, ◌^◌, Bool, true, false, List, [], ◌∷◌, ◌==◌, leb, not, ◌&&◌,
  if◌then◌else◌,
}
use plenjos_kernel.Slots.{Timeout}
use plenjos_kernel.Scheduler.{KernelTask, KernelTasks, delegate_kernel_task}
pub mod Delegate
mod Examples

-- UINT64_MAX, which marks a timeout whose callback is on its way
abbrev pub on_its_way : ℕ
on_its_way = 2 ^ 64 - 1

-- what an interrupt changes: the timeouts, the ring of tasks, and the cores that it wakes, in order
pub record Ticked : Type 0 where
  pub timers : List Timeout
  pub tasks : KernelTasks
  pub woken : List ℕ

-- the counter after `pit_irq` has advanced it
unfoldable pub next_count : ℕ → ℕ
next_count count = if leb (2 ^ 64 - 1) count then 1 else count + 1

-- the tests of the loop: the timeout is in use, not on its way, and over
unfoldable pub is_over : ℕ → Timeout → Bool
is_over count t =
    not (t.milliseconds == 0)
    && not (t.milliseconds == on_its_way)
    && leb t.milliseconds ((count + 2 ^ 64 - t.start_time) % 2 ^ 64)

-- `pit_timer_callback` is task function 1 here, and its argument is the number of the slot.
abbrev pub timer_task : ℕ → KernelTask
timer_task slot = record { func = 1; arg = slot }

-- `pit_timer_callback`, once the callback has returned
unfoldable pub pit_timer_callback : Timeout → Timeout
pit_timer_callback t = record t { milliseconds = 0 }

-- the loop of `pit_irq` from slot `i` on; the result of `delegate_kernel_task` is not looked at
unfoldable pub tick_timers : ℕ → ℕ → List Timeout → KernelTasks → Ticked
tick_timers count i [] tasks = record { timers = []; tasks = tasks; woken = [] }
tick_timers count i (t ∷ ts) tasks =
    let here = is_over count t in
    let wakes = here && (t.callback == 0) in
    let delegates = here && not (t.callback == 0) in
    let tasks' = (if delegates then (delegate_kernel_task tasks (timer_task i)).1 else tasks) in
    let rest = tick_timers count (i + 1) ts tasks' in
    let t' =
      (if wakes
        then record t { milliseconds = 0 }
        else (if delegates then record t { milliseconds = on_its_way } else t)) in
    record {
      timers = t' ∷ rest.timers;
      tasks = rest.tasks;
      woken = (if wakes then t.argument ∷ rest.woken else rest.woken);
    }

-- `pit_irq`
unfoldable pub pit_irq : ℕ → List Timeout → KernelTasks → ℕ × Ticked
pit_irq count timers tasks =
    let count' = next_count count in (count', tick_timers count' 0 timers tasks)
