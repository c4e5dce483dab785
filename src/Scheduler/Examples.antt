-- ===== src/Scheduler/Examples.antt =====
-- Witnesses for the scheduler: threads 4, 7 and 9 are ready.
use plenjos_kernel.Prelude.{
  ◌≡◌, ◌≢◌, refl, arith, none, some, [], ◌∷◌, ◌==◌, if◌then◌else◌, replicate, length-replicate,
}
use plenjos_kernel.Scheduler.{
  ready, Threads, thread_unready_nolock, thread_ready, assign_thread, KernelTasks, no_task,
  take_kernel_task, run_tasks,
}
use plenjos_kernel.Scheduler.Links.{Chain, follow}
use plenjos_kernel.Scheduler.ReadyQueue.{
  IsQueue, thread_ready_enqueues, thread_unready_last_loses, thread_ready_again_cycles,
}
use plenjos_kernel.Scheduler.Tasks.{IsRing, tasks, run_tasks_all}

abbrev three : Threads
three = record {
  next = λ u. if u == 4 then some 7 else (if u == 7 then some 9 else none);
  state = λ u. ready;
  ready_threads = some 4;
  ready_threads_last = some 9;
}

three-IsQueue : IsQueue three (4 ∷ 7 ∷ 9 ∷ [])
three-IsQueue = record { starts = refl; ends = refl; chain = ground arith }

thread_ready_enqueues_example :
    (s' : Threads) × (thread_ready three 5 ≡ some s')
    × IsQueue s' (4 ∷ 7 ∷ 9 ∷ 5 ∷ [])
    × (s'.state 5 ≡ ready)
thread_ready_enqueues_example =
    thread_ready_enqueues three (4 ∷ 7 ∷ 9 ∷ []) 5 three-IsQueue
      (omega arith, (omega arith, (omega arith, tt))) refl

thread_unready_last_loses_example :
    (s' : Threads) × (thread_ready (thread_unready_nolock 10 three 9) 5 ≡ some s')
    × (s'.ready_threads ≡ some 4)
    × Chain s'.next (4 ∷ 7 ∷ [])
thread_unready_last_loses_example =
    thread_unready_last_loses 10 three 4 (7 ∷ []) 9 5 three-IsQueue (omega arith)

thread_ready_again_cycles_example :
    (s' s'' : Threads) × (assign_thread 10 three ≡ some (4, s'))
    × (thread_ready s' 4 ≡ some s'')
    × (follow 1000 s''.next s''.ready_threads ≢ none)
thread_ready_again_cycles_example =
    thread_ready_again_cycles 10 1000 three 4 7 (9 ∷ []) three-IsQueue

-- Two tasks wait, at the end of the array and at its start.
abbrev two_tasks : KernelTasks
two_tasks = record { ready_kernel_tasks = replicate 8192 no_task; head = 1; tail = 8191 }

two_tasks-IsRing : IsRing two_tasks 2
two_tasks-IsRing = record {
  storage = length-replicate 8192 no_task;
  tail_in = omega arith;
  head_at = refl;
  few = omega arith;
}

run_tasks_all_example :
    (s' : KernelTasks) × (run_tasks 2 two_tasks ≡ (tasks two_tasks 2, s'))
    × IsRing s' 0
    × (take_kernel_task s' ≡ none)
run_tasks_all_example = run_tasks_all 2 two_tasks two_tasks-IsRing
