-- ===== src/Scheduler/Tasks.antt =====
-- The ring of kernel tasks is a first-in, first-out queue with room for 8191 tasks.
use plenjos_kernel.Prelude.{
  ℕ, zero, suc, ◌+◌, ◌%◌, ◌<◌, ◌≡◌, refl, sym, ap, ◌∙◌, subst, List, [], ◌∷◌, ◌++◌, arith, length,
  get_or, set, length-set, some, none,
}
use plenjos_kernel.Prelude.Int.{pos, negsuc}
use plenjos_kernel.Ring.{items, items-set}
use plenjos_kernel.Scheduler.{
  KernelTask, KernelTasks, max_kernel_tasks, no_task, delegate_kernel_task, take_kernel_task,
  run_tasks,
}

-- The ring holds `n` tasks.
pub record IsRing (s : KernelTasks) (n : ℕ) : Type 0 where
  pub storage : length s.ready_kernel_tasks ≡ max_kernel_tasks
  pub tail_in : s.tail < max_kernel_tasks
  pub head_at : s.head ≡ (s.tail + n) % max_kernel_tasks
  pub few : n < max_kernel_tasks

-- the tasks, oldest first
abbrev pub tasks : KernelTasks → ℕ → List KernelTask
tasks s n = items no_task max_kernel_tasks s.ready_kernel_tasks s.tail n

-- A task that is delegated goes behind the others, unless 8191 are waiting; then -1 is returned and
-- nothing changes.
pub delegate_kernel_task_lem :
    (s : KernelTasks) (n : ℕ) (task : KernelTask)
    → IsRing s n
    → suc n < max_kernel_tasks
    → (s' : KernelTasks) × (delegate_kernel_task s task ≡ (pos 0, s'))
      × IsRing s' (suc n)
      × (tasks s' (suc n) ≡ tasks s n ++ (task ∷ []))
unfolding delegate_kernel_task
delegate_kernel_task_lem s n task r room =
    let at = r.head_at in
    let put =
      items-set no_task max_kernel_tasks s.ready_kernel_tasks task s.tail n
        (omega (arith, r.storage)) r.tail_in (omega arith) in
    let long = length-set s.ready_kernel_tasks s.head task in
    (
      record s {
        ready_kernel_tasks = set s.ready_kernel_tasks s.head task;
        head = (s.head + 1) % max_kernel_tasks;
      },
      ground arith,
      record { storage = long ∙ r.storage; tail_in = r.tail_in; head_at = omega arith; few = room },
      subst
          (λ h.
            items no_task max_kernel_tasks (set s.ready_kernel_tasks h task) s.tail (suc n)
            ≡ tasks s n ++ (task ∷ []))
          (sym at) put,
    )

-- Where it holds 8191 tasks, delegating another is refused and changes nothing.
pub delegate_kernel_task_full :
    (s : KernelTasks) (n : ℕ) (task : KernelTask)
    → IsRing s n
    → suc n ≡ max_kernel_tasks
    → delegate_kernel_task s task ≡ (negsuc 0, s)
unfolding delegate_kernel_task
delegate_kernel_task_full s n task r full = ground (arith, r.head_at, r.tail_in)

-- The oldest task is taken.
taken :
    (s : KernelTasks) (n : ℕ)
    → IsRing s (suc n)
    → (take_kernel_task s
        ≡ some (
          get_or s.ready_kernel_tasks s.tail no_task,
          record s { tail = (s.tail + 1) % max_kernel_tasks },
        ))
      × IsRing (record s { tail = (s.tail + 1) % max_kernel_tasks }) n
unfolding take_kernel_task
taken s n r =
    let at = r.head_at in
    let small = r.few in
    let inside = r.tail_in in
    (
      ground arith,
      record {
        storage = r.storage;
        tail_in = omega arith;
        head_at = omega arith;
        few = omega arith;
      },
    )

run_tasks-taken :
    (n : ℕ) (s s₁ s₂ : KernelTasks) (t : KernelTask) (ts : List KernelTask)
    → take_kernel_task s ≡ some (t, s₁)
    → run_tasks n s₁ ≡ (ts, s₂)
    → run_tasks (suc n) s ≡ (t ∷ ts, s₂)
unfolding run_tasks
run_tasks-taken n s s₁ s₂ t ts took run = rw (took, run_tasks) (ap (λ p. (t ∷ p.0, p.1)) run)

-- Taking as many tasks as wait in the ring gives all of them, in the order in which they were
-- delegated, and leaves the ring empty.
pub run_tasks_all :
    (n : ℕ) (s : KernelTasks)
    → IsRing s n
    → (s' : KernelTasks) × (run_tasks n s ≡ (tasks s n, s'))
      × IsRing s' 0
      × (take_kernel_task s' ≡ none)
unfolding run_tasks take_kernel_task
run_tasks_all zero s r = (s, refl, r, ground (arith, r.head_at, r.tail_in))
run_tasks_all (suc n) s r =
    let (took, r₁) = taken s n r in
    let s₁ : KernelTasks = record s { tail = (s.tail + 1) % max_kernel_tasks } in
    let (s₂, run, r₂, empty) = run_tasks_all n s₁ r₁ in
    (
      s₂,
      run_tasks-taken n s s₁ s₂ (get_or s.ready_kernel_tasks s.tail no_task) (tasks s₁ n) took run,
      r₂,
      empty,
    )
