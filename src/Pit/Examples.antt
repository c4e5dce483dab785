-- ===== src/Pit/Examples.antt =====
-- Witnesses of the interrupt: the first of two timeouts is over at count 20.
use plenjos_kernel.Prelude.{
  ℕ, ◌≡◌, refl, arith, true, some, List, [], ◌∷◌, inl, ◌++◌, length-replicate, replicate, get_elem?,
}
use plenjos_kernel.Slots.{Timeout}
use plenjos_kernel.Scheduler.{KernelTask, KernelTasks, no_task}
use plenjos_kernel.Scheduler.Tasks.{IsRing, tasks}
use plenjos_kernel.Pit.{on_its_way, next_count, is_over, pit_irq}
use plenjos_kernel.Pit.Delegate.{DueTasks, pit_irq_delegates, pit_irq_loses}

abbrev over : Timeout
over = record { milliseconds = 5; start_time = 10; callback = 77; argument = 3 }

abbrev not_over : Timeout
not_over = record { milliseconds = 50; start_time = 10; callback = 78; argument = 4 }

abbrev empty_ring : KernelTasks
empty_ring = record { ready_kernel_tasks = replicate 8192 no_task; head = 8190; tail = 8190 }

abbrev full_ring : KernelTasks
full_ring = record { ready_kernel_tasks = replicate 8192 no_task; head = 8191; tail = 0 }

empty_ring-IsRing : IsRing empty_ring 0
empty_ring-IsRing = record {
  storage = length-replicate 8192 no_task;
  tail_in = omega arith;
  head_at = refl;
  few = omega arith;
}

full_ring-IsRing : IsRing full_ring 8191
full_ring-IsRing = record {
  storage = length-replicate 8192 no_task;
  tail_in = omega arith;
  head_at = refl;
  few = omega arith;
}

first_over : is_over (next_count 19) over ≡ true
unfolding is_over next_count
first_over = refl

pit_irq_delegates_example :
    ((pit_irq 19 (over ∷ not_over ∷ []) empty_ring).0 ≡ 20)
    × (k : ℕ) × (l : List KernelTask) × DueTasks 20 0 (over ∷ not_over ∷ []) l
    × IsRing (pit_irq 19 (over ∷ not_over ∷ []) empty_ring).1.tasks k
    × (tasks (pit_irq 19 (over ∷ not_over ∷ []) empty_ring).1.tasks k ≡ tasks empty_ring 0 ++ l)
pit_irq_delegates_example =
    pit_irq_delegates 19 20 (over ∷ not_over ∷ []) empty_ring 0 (inl (omega arith, refl))
      (omega arith, (omega arith, tt)) empty_ring-IsRing (omega arith)

pit_irq_loses_example :
    ((pit_irq 19 (over ∷ not_over ∷ []) full_ring).1.tasks ≡ full_ring)
    × (get_elem? (pit_irq 19 (over ∷ not_over ∷ []) full_ring).1.timers 0
        ≡ some (record over { milliseconds = on_its_way }))
    × (get_elem?
          (pit_irq 90 (pit_irq 19 (over ∷ not_over ∷ []) full_ring).1.timers empty_ring).1.timers
          0
        ≡ some (record over { milliseconds = on_its_way }))
pit_irq_loses_example =
    pit_irq_loses 19 90 0 8191 (over ∷ not_over ∷ []) full_ring empty_ring over full_ring-IsRing
      refl refl first_over (omega arith)
