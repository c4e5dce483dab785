-- ===== src/Scheduler.antt =====
-- proc/scheduler.c: the queue of threads that are ready, linked through the threads themselves, and
-- the ring of tasks for the kernel. Each function runs under the lock that the source takes around
-- it; a thread is named by a number.
use plenjos_kernel.Prelude.{
  ℕ, zero, suc, ◌+◌, ◌%◌, Bool, true, false, Option, none, some, List, [], ◌∷◌, ◌==◌, not,
  if◌then◌else◌, get_or, set,
}
use plenjos_kernel.Prelude.Int.{ℤ, pos, negsuc}
pub mod Tasks
pub mod Links
pub mod ReadyQueue
mod Examples

-- `proc_thread_state_t`
pub data ThreadState : Type 0 where
  asleep : ThreadState
  ready : ThreadState
  running : ThreadState
  dead : ThreadState

-- The threads' fields `next` and `state`, `ready_threads` and `ready_threads_last`.
pub record Threads : Type 0 where
  pub next : ℕ → Option ℕ
  pub state : ℕ → ThreadState
  pub ready_threads : Option ℕ
  pub ready_threads_last : Option ℕ

unfoldable pub set_next : Threads → ℕ → Option ℕ → Threads
set_next s t n = record s { next = λ u. if u == t then n else s.next u }

unfoldable pub set_state : Threads → ℕ → ThreadState → Threads
set_state s t x = record s { state = λ u. if u == t then x else s.state u }

-- the loop that looks for the thread before `thread` from `cur` on, at most `fuel` threads
unfoldable pub unlink_after : ℕ → Threads → ℕ → ℕ → Threads
unlink_after zero s cur thread = s
unlink_after (suc fuel) s cur thread = elim (s.next cur) [
  | none ↦ s
  | some u ↦
      let rest = unlink_after fuel s u thread in
      if u == thread then set_next s cur (s.next thread) else rest
]

-- the head of the queue is taken out
unfoldable pub unready_head : Threads → ℕ → Threads
unready_head s thread = record s {
  ready_threads = s.next thread;
  ready_threads_last = elim (s.next thread) [ none ↦ none | some u ↦ s.ready_threads_last ];
}

-- `thread_unready_nolock`
unfoldable pub thread_unready_nolock : ℕ → Threads → ℕ → Threads
thread_unready_nolock fuel s thread =
    let slept = set_state s thread asleep in
    elim s.ready_threads [
      | none ↦ s
      | some cur ↦
          if cur == thread then unready_head slept thread else unlink_after fuel slept cur thread
    ]

-- `thread_ready`; `none` is a write through the NULL in `ready_threads_last`.
unfoldable pub thread_ready : Threads → ℕ → Option Threads
thread_ready s thread =
    let woken = set_state s thread ready in
    elim s.ready_threads [
      | none ↦ some (record woken { ready_threads = some thread; ready_threads_last = some thread })
      | some cur ↦ elim s.ready_threads_last [
        | none ↦ none
        | some last ↦
            some (record (set_next woken last (some thread)) { ready_threads_last = some thread })
      ]
    ]

-- the part of `cpu_scheduler_task_c` that gives the first thread to a core
unfoldable pub assign_thread : ℕ → Threads → Option (ℕ × Threads)
assign_thread fuel s = elim s.ready_threads [
  | none ↦ none
  | some t ↦ some (t, thread_unready_nolock fuel s t)
]

-- `kernel_task_t`, its function and argument by address
pub record KernelTask : Type 0 where
  pub func : ℕ
  pub arg : ℕ

abbrev pub max_kernel_tasks : ℕ
max_kernel_tasks = 8192

-- `ready_kernel_tasks` with its head and tail
pub record KernelTasks : Type 0 where
  pub ready_kernel_tasks : List KernelTask
  pub head : ℕ
  pub tail : ℕ

abbrev pub no_task : KernelTask
no_task = record { func = 0; arg = 0 }

-- `delegate_kernel_task`
unfoldable pub delegate_kernel_task : KernelTasks → KernelTask → ℤ × KernelTasks
delegate_kernel_task s task =
    let next_head = (s.head + 1) % max_kernel_tasks in
    if next_head == s.tail then (negsuc 0, s) else (
      pos 0,
      record s { ready_kernel_tasks = set s.ready_kernel_tasks s.head task; head = next_head },
    )

-- the part of `cpu_scheduler_task_c` that takes a task to run
unfoldable pub take_kernel_task : KernelTasks → Option (KernelTask × KernelTasks)
take_kernel_task s =
    if not (s.head == s.tail)
    then some (
      get_or s.ready_kernel_tasks s.tail no_task,
      record s { tail = (s.tail + 1) % max_kernel_tasks },
    )
    else none

-- the tasks that a core runs one after the other, while no other core takes one
unfoldable pub run_tasks : ℕ → KernelTasks → List KernelTask × KernelTasks
run_tasks zero s = ([], s)
run_tasks (suc n) s = elim (take_kernel_task s) [
  | none ↦ ([], s)
  | some (t, s') ↦ let (ts, s'') = run_tasks n s' in (t ∷ ts, s'')
]
