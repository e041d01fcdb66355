-- ===== src/Examples/Ticks.antt =====
-- A tick of internal/scheduler/scheduler.go with the queue of one process.
use Prim.Native.Nat.{max}
use mini_bk.Prelude.{ℕ, List, [], ◌∷◌, ◌≤◌, ◌<◌, ◌≡◌, refl, some, arith, All, map}
use mini_bk.Prelude.Int.{pos, ◌+ℤ◌}
use mini_bk.Model.Task.{Time}
use mini_bk.Store.TaskTable.{find_row, get_running_tasks}
use mini_bk.Store.Load.{DistinctUids, load}
use mini_bk.Queue.InMem.{InMemQueue, in_mem}
use mini_bk.Queue.InMem.Laws.{AllIn, in_mem-KeepsTasks}
use mini_bk.Scheduler.State.{Scheduler}
use mini_bk.Scheduler.Limits.{HasLimits, HasLimits-prop}
use mini_bk.Scheduler.Tick.{tick, fail_overdue}
use mini_bk.Scheduler.Bounds.{after_timeouts, after_first}
use mini_bk.Scheduler.Bounds.InMem.{in_queue, drains, delay_round, IsQuick, tick_ends}
use mini_bk.Scheduler.Costs.{one, cpu_of, mem_of}
use mini_bk.Scheduler.Budget.{tick_within_limits}
use mini_bk.Examples.{task_a, queue_ab, table, scheduler, percents, granting}

-- Three rounds during which no other goroutine works on the queue.
abbrev still : List (List Time × Time)
still = ([], pos 10) ∷ ([], pos 10) ∷ ([], pos 10) ∷ []

few_wait : in_queue (after_timeouts in_mem (pos 10) scheduler).queue < 3
unfolding in_queue after_timeouts after_first fail_overdue get_running_tasks
few_wait = omega arith

after_tick :
    (s' : Scheduler ℕ InMemQueue ℕ) × (tick in_mem percents granting
        (map delay_round still)
        (pos 10)
        scheduler
      ≡ some s')
unfolding IsQuick ◌+ℤ◌
after_tick =
    tick_ends percents granting (pos 10) (pos 10) still scheduler
      ((tt, omega arith), ((tt, omega arith), ((tt, omega arith), tt))) few_wait

-- Two tasks wait, and a third one comes back from its delay during the tick.
abbrev later : Scheduler ℕ InMemQueue ℕ
later = record scheduler {
  queue = record queue_ab { delayed = record { task = task_a; due = pos 500_000_000 } ∷ [] };
}

abbrev worked : List (List Time × Time)
worked =
    (pos 9 ∷ [], pos 10)
    ∷ ([], pos 11)
    ∷ (pos 400_000_000 ∷ pos 500_000_000 ∷ [], pos 500_000_005)
    ∷ ([], pos 500_000_006)
    ∷ []

few_in_queue : in_queue (after_timeouts in_mem (pos 10) later).queue < 4
unfolding in_queue after_timeouts after_first fail_overdue get_running_tasks
few_in_queue = omega arith

worked-IsQuick : All (IsQuick (pos 500_000_000)) worked
unfolding IsQuick ◌+ℤ◌
worked-IsQuick = (
  ((omega arith, tt), omega arith),
  ((tt, omega arith), (((omega arith, (omega arith, tt)), omega arith), ((tt, omega arith), tt))),
)

tick_ends_example :
    (s' : Scheduler ℕ InMemQueue ℕ) × (tick in_mem percents granting
        (map delay_round worked)
        (pos 10)
        later
      ≡ some s')
tick_ends_example =
    tick_ends percents granting (pos 10) (pos 500_000_000) worked later worked-IsQuick few_in_queue

pub limits_of : AllIn HasLimits queue_ab
limits_of = record {
  in_items = (record { cpu = omega arith; memory = omega arith }, tt);
  in_pq = (record { cpu = omega arith; memory = omega arith }, tt);
  in_delayed = tt;
}

pub distinct : DistinctUids table.rows
unfolding find_row
distinct = (refl, (refl, tt))

pub limited : All HasLimits table.rows
limited = (
  record { cpu = omega arith; memory = omega arith },
  (record { cpu = omega arith; memory = omega arith }, tt),
)

tick_within_limits_example :
    (load one after_tick.0.db.rows ≤ max 5 (load one table.rows))
    × (load cpu_of after_tick.0.db.rows ≤ max 8 (load cpu_of table.rows))
    × (load mem_of after_tick.0.db.rows ≤ max 4096 (load mem_of table.rows))
unfolding delay_round drains
tick_within_limits_example =
    tick_within_limits in_mem (AllIn HasLimits) (in_mem-KeepsTasks HasLimits HasLimits-prop)
      percents granting (pos 10) (map delay_round still) scheduler after_tick.0
      (λ q a. a, (λ q a. a, (λ q a. a, tt))) limits_of distinct limited after_tick.1
