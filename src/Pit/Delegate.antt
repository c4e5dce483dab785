-- ===== src/Pit/Delegate.antt =====
-- The tasks that the interrupt delegates, and what becomes of those that find the ring full.
use plenjos_kernel.Prelude.{
  ℕ, zero, suc, ◌+◌, ◌^◌, ◌≤◌, ◌<◌, ◌≡◌, ◌≢◌, ◌⊎◌, refl, sym, ap, ◌∙◌, arith, true, false, some,
  All, ltb, List, [], ◌∷◌, ◌++◌, append_assoc, append-nil, ◌==◌, not, ◌&&◌, if◌then◌else◌, length,
  get_elem?, Bool-cases, inl, inr,
}
use plenjos_kernel.Slots.{Timeout}
use plenjos_kernel.Scheduler.{KernelTask, KernelTasks, max_kernel_tasks, delegate_kernel_task}
use plenjos_kernel.Scheduler.Tasks.{
  IsRing, tasks, delegate_kernel_task_lem, delegate_kernel_task_full,
}
use plenjos_kernel.Pit.{on_its_way, next_count, is_over, timer_task, tick_timers, pit_irq}

-- the counter goes from `count` to `now`: up by one, and from UINT64_MAX to 1, as 0 is no count
abbrev pub Advances : ℕ → ℕ → Type 0
Advances count now = ((count + 1 < 2 ^ 64) × (now ≡ count + 1)) ⊎ ((2 ^ 64 ≤ count + 1) × (now ≡ 1))

-- At `now`, a timeout that is in use and not on its way has waited its milliseconds out, whether or not
-- the counter has gone round since its start.
pub record IsDue (now : ℕ) (t : Timeout) : Type 0 where
  pub in_use : t.milliseconds ≢ 0
  pub waiting : t.milliseconds ≢ on_its_way
  pub waited :
      ((t.start_time ≤ now) × (t.start_time + t.milliseconds ≤ now))
      ⊎ ((now < t.start_time) × (t.start_time + t.milliseconds ≤ now + 2 ^ 64))

-- The tasks for the timeouts with a callback that are due, in the order of the slots from `i` on.
pub data DueTasks (now : ℕ) : ℕ → List Timeout → List KernelTask → Type 0 where
  no_slot : (i : ℕ) → DueTasks now i [] []
  due_slot :
      (i : ℕ) (t : Timeout) (ts : List Timeout) (tasks : List KernelTask)
      → IsDue now t
      → t.callback ≢ 0
      → DueTasks now (i + 1) ts tasks
      → DueTasks now i (t ∷ ts) (record { func = 1; arg = i } ∷ tasks)
  other_slot :
      (i : ℕ) (t : Timeout) (ts : List Timeout) (tasks : List KernelTask)
      → (IsDue now t → t.callback ≢ 0 → ⊥)
      → DueTasks now (i + 1) ts tasks
      → DueTasks now i (t ∷ ts) tasks

-- the tasks as the loop finds them
abbrev due : ℕ → ℕ → List Timeout → List KernelTask
due count i [] = []
due count i (t ∷ ts) =
    let rest = due count (i + 1) ts in
    if is_over count t && not (t.callback == 0) then timer_task i ∷ rest else rest

next_count-Advances : (count now : ℕ) → Advances count now → next_count count ≡ now
unfolding next_count
next_count-Advances count now (inl h) = ground arith
next_count-Advances count now (inr h) = ground arith

Advances-below : (count now : ℕ) → Advances count now → now < 2 ^ 64
Advances-below count now (inl h) = omega arith
Advances-below count now (inr h) = omega arith

is_over-IsDue :
    (now : ℕ) (t : Timeout)
    → now < 2 ^ 64
    → t.start_time < 2 ^ 64
    → is_over now t ≡ true
    → IsDue now t
unfolding is_over
is_over-IsDue now t small started e = record {
  in_use = ground arith;
  waiting = ground arith;
  waited = elim (Bool-cases (ltb now t.start_time)) [
    | inl before ↦ inr (ground arith, ground arith)
    | inr after ↦ inl (ground arith, ground arith)
  ];
}

IsDue-is_over :
    (now : ℕ) (t : Timeout)
    → now < 2 ^ 64
    → t.start_time < 2 ^ 64
    → IsDue now t
    → is_over now t ≡ true
unfolding is_over
IsDue-is_over now t small started d =
    let used = d.in_use in let waiting = d.waiting in over d.waited
  where
    over :
        ((t.start_time ≤ now) × (t.start_time + t.milliseconds ≤ now))
          ⊎ ((now < t.start_time) × (t.start_time + t.milliseconds ≤ now + 2 ^ 64))
        → is_over now t ≡ true
    over w = let used = d.in_use in let waiting = d.waiting in ground (arith, w)

due-DueTasks :
    (now i : ℕ) (ts : List Timeout)
    → now < 2 ^ 64
    → All (λ t. t.start_time < 2 ^ 64) ts
    → DueTasks now i ts (due now i ts)
due-DueTasks now i [] small started = no_slot i
due-DueTasks now i (t ∷ ts) small (here, started) =
    let rest = due-DueTasks now (i + 1) ts small started in
    elim (Bool-cases (is_over now t)) [
      | inl over ↦ elim (Bool-cases (t.callback == 0)) [
        | inl silent ↦
            rw (over, silent)
              (other_slot i t ts (due now (i + 1) ts) (λ d c. c (ground arith)) rest)
        | inr calls ↦
            rw (over, calls)
              (due_slot i t ts (due now (i + 1) ts) (is_over-IsDue now t small here over)
                (ground arith) rest)
      ]
      | inr early ↦ rw early (
          other_slot i t ts (due now (i + 1) ts)
            (λ d c. true_not_false (sym (IsDue-is_over now t small here d) ∙ early)) rest)
    ]
  where
    true_not_false : true ≡ false → ⊥
    true_not_false e = ground arith

tick_timers-tasks :
    (count i : ℕ) (ts : List Timeout) (s : KernelTasks) (n : ℕ)
    → IsRing s n
    → n + length ts < max_kernel_tasks
    → (k : ℕ) × IsRing (tick_timers count i ts s).tasks k
      × (tasks (tick_timers count i ts s).tasks k ≡ tasks s n ++ due count i ts)
unfolding tick_timers
tick_timers-tasks count i [] s n r room = (n, r, sym (append-nil (tasks s n)))
tick_timers-tasks count i (t ∷ ts) s n r room =
    elim (Bool-cases (is_over count t && not (t.callback == 0))) [
      | inl yes_due ↦
          let (s', run, r', same) = delegate_kernel_task_lem s n (timer_task i) r (omega arith) in
          let (k, ring, after) = tick_timers-tasks count (i + 1) ts s' (suc n) r' (omega arith) in
          rw (yes_due, ap (λ p. p.1) run)
            (
              k,
              ring,
              after
                  ∙ ap (λ l. l ++ due count (i + 1) ts) same
                  ∙ append_assoc (tasks s n) (timer_task i ∷ []) (due count (i + 1) ts),
            )
      | inr no_due ↦ rw no_due (tick_timers-tasks count (i + 1) ts s n r (omega arith))
    ]

-- While the ring is well formed with room for a task of every slot, and the timeouts have start times
-- below 2^64, the interrupt advances the counter, and delegates the callbacks of just the timeouts that
-- have then waited as long as they should, in the order of their slots, behind the tasks that wait.
pub pit_irq_delegates :
    (count now : ℕ) (ts : List Timeout) (s : KernelTasks) (n : ℕ)
    → Advances count now
    → All (λ t. t.start_time < 2 ^ 64) ts
    → IsRing s n
    → n + length ts < max_kernel_tasks
    → ((pit_irq count ts s).0 ≡ now)
      × (k : ℕ) × (l : List KernelTask) × DueTasks now 0 ts l
      × IsRing (pit_irq count ts s).1.tasks k
      × (tasks (pit_irq count ts s).1.tasks k ≡ tasks s n ++ l)
unfolding pit_irq
pit_irq_delegates count now ts s n advances started r room =
    let e = next_count-Advances count now advances in
    let (k, ring, same) = tick_timers-tasks now 0 ts s n r room in
    rw e (
      refl,
      k,
      due now 0 ts,
      due-DueTasks now 0 ts (Advances-below count now advances) started,
      ring,
      same,
    )

-- A timeout that is on its way stays so, whatever the ring holds.
tick_timers-waits :
    (count i k : ℕ) (ts : List Timeout) (s : KernelTasks) (t : Timeout)
    → get_elem? ts k ≡ some t
    → t.milliseconds ≡ on_its_way
    → get_elem? (tick_timers count i ts s).timers k ≡ some t
unfolding tick_timers is_over
tick_timers-waits count i k [] s t e m = absurd (ground arith)
tick_timers-waits count i zero (u ∷ us) s t e m = ground arith
tick_timers-waits count i (suc k) (u ∷ us) s t e m =
    tick_timers-waits count (i + 1) k us
      (if is_over count u && not (u.callback == 0)
        then (delegate_kernel_task s (timer_task i)).1
        else s)
      t e m

-- With the ring full, no tick changes it.
full_stays :
    (count i : ℕ) (ts : List Timeout) (s : KernelTasks) (n : ℕ)
    → IsRing s n
    → suc n ≡ max_kernel_tasks
    → (tick_timers count i ts s).tasks ≡ s
unfolding tick_timers
full_stays count i [] s n r full = refl
full_stays count i (t ∷ ts) s n r full =
    elim (Bool-cases (is_over count t && not (t.callback == 0))) [
      | inl yes_due ↦
          rw (yes_due, ap (λ p. p.1) (delegate_kernel_task_full s n (timer_task i) r full))
            (full_stays count (i + 1) ts s n r full)
      | inr no_due ↦ rw no_due (full_stays count (i + 1) ts s n r full)
    ]

-- a timeout that is over is marked as on its way
tick_timers-marks :
    (count i k : ℕ) (ts : List Timeout) (s : KernelTasks) (t : Timeout)
    → get_elem? ts k ≡ some t
    → is_over count t ≡ true
    → t.callback ≢ 0
    → get_elem? (tick_timers count i ts s).timers k ≡ some (record t { milliseconds = on_its_way })
unfolding tick_timers
tick_timers-marks count i k [] s t e o c = absurd (ground arith)
tick_timers-marks count i zero (u ∷ us) s t e o c = ground arith
tick_timers-marks count i (suc k) (u ∷ us) s t e o c =
    tick_timers-marks count (i + 1) k us
      (if is_over count u && not (u.callback == 0)
        then (delegate_kernel_task s (timer_task i)).1
        else s)
      t e o c

-- A timeout with a callback that is over while the ring is full is lost: the ring is unchanged, the slot is marked as on
-- its way, and a later interrupt, at any count and with any ring, leaves it so.
pub pit_irq_loses :
    (count later k n : ℕ) (ts : List Timeout) (s s' : KernelTasks) (t : Timeout)
    → IsRing s n
    → suc n ≡ max_kernel_tasks
    → get_elem? ts k ≡ some t
    → is_over (next_count count) t ≡ true
    → t.callback ≢ 0
    → ((pit_irq count ts s).1.tasks ≡ s)
      × (get_elem? (pit_irq count ts s).1.timers k ≡ some (record t { milliseconds = on_its_way }))
      × (get_elem? (pit_irq later (pit_irq count ts s).1.timers s').1.timers k
          ≡ some (record t { milliseconds = on_its_way }))
unfolding pit_irq
pit_irq_loses count later k n ts s s' t r full e o c =
    let marked = tick_timers-marks (next_count count) 0 k ts s t e o c in
    (
      full_stays (next_count count) 0 ts s n r full,
      marked,
      tick_timers-waits (next_count later) 0 k (tick_timers (next_count count) 0 ts s).timers s'
          (record t { milliseconds = on_its_way }) marked refl,
    )
