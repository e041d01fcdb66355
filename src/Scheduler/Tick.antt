-- ===== src/Scheduler/Tick.antt =====
-- tick and canAllocate of internal/scheduler/scheduler.go. Before each Pop of a tick, time passes and
-- other goroutines work on the queue, such as its delay loop and the service: what they do there is an
-- argument. No other goroutine works on the table in between.
use mini_bk.Prelude.{
  List, [], ◌∷◌, Option, none, some, Bool, true, false, not, ◌&&◌, if◌then◌else◌, length,
}
use mini_bk.Prelude.Int.{ℤ, pos, ltb_ℤ, ◌+ℤ◌, ◌-ℤ◌, ◌*ℤ◌}
use mini_bk.Model.Errors.{ok, err}
use mini_bk.Model.Task.{Task, Time}
use mini_bk.Store.TaskTable.{get_running_tasks}
use mini_bk.Queue.Interface.{TaskQueue}
use mini_bk.Scheduler.State.{Scheduler, Floats, ClaimStore}
use mini_bk.Scheduler.Finish.{fail_task}
use mini_bk.Scheduler.Dispatch.{dispatch}

unfoldable pub can_allocate : Task → ℤ → ℤ → Bool
can_allocate t cpu mem =
    not (ltb_ℤ (pos 0) t.cpu_limit && ltb_ℤ cpu t.cpu_limit)
    && not (ltb_ℤ (pos 0) t.memory_limit && ltb_ℤ mem t.memory_limit)

-- The sums of the first loop.
unfoldable pub allocated_cpu : List Task → ℤ
allocated_cpu [] = pos 0
allocated_cpu (t ∷ ts) = t.cpu_limit +ℤ allocated_cpu ts

unfoldable pub allocated_mem : List Task → ℤ
allocated_mem [] = pos 0
allocated_mem (t ∷ ts) = t.memory_limit +ℤ allocated_mem ts

-- `now.After(StartedAt + TimeoutSec)`, for a task with both.
unfoldable pub is_overdue : Time → Task → Bool
is_overdue now t = elim t.started_at [
  | none ↦ false
  | some start ↦
      ltb_ℤ (pos 0) t.timeout_sec && ltb_ℤ (start +ℤ t.timeout_sec *ℤ pos 1_000_000_000) now
]

-- A round of the second loop: what others did to the queue since the last one, up to the attempt with
-- which its Pop returns, as the attempts before it find nothing, and the time of the Pop.
pub record PopRound (Q : Type 0) : Type 0 where
  pub others : Q → Q
  pub at : Time

module _ {F Q E : Type 0} (o : TaskQueue Q) where
  unfoldable pub fail_overdue : Time → List Task → Scheduler F Q E → Scheduler F Q E
  unfolding is_overdue
  fail_overdue now [] s = s
  fail_overdue now (t ∷ ts) s =
      fail_overdue now ts (if is_overdue now t then fail_task o now "task timed out" t s else s)

  -- A task that does not fit goes back for a second.
  unfoldable pub put_back : Time → Task → Scheduler F Q E → Scheduler F Q E
  put_back now t s =
      let (_, q) = o.push_delayed now (pos 1_000_000_000) t s.queue in record s { queue = q }

  unfoldable pub pop_task : Time → Scheduler F Q E → Option Task × Scheduler F Q E
  pop_task now s =
      let (r, q) = o.pop (pos 100_000_000) now s.queue in
      (elim r [ err _ ↦ none | ok t ↦ t ], record s { queue = q })

  module _ (fl : Floats F) (c : ClaimStore E) where
    -- The second loop over its rounds: `none` if it goes on after them.
    unfoldable pub dispatch_loop :
        List (PopRound Q) → ℤ → ℤ → ℤ → Scheduler F Q E → Option (Scheduler F Q E)
    dispatch_loop [] cpu mem slots s = none
    dispatch_loop (r ∷ rs) cpu mem slots s =
        let now = r.at in
        let (popped, s') = pop_task now (record s { queue = r.others s.queue }) in
        let next : Option (Scheduler F Q E) = elim popped [
          | none ↦ some s'
          | some t ↦ elim (can_allocate t cpu mem) [
            | true ↦
                dispatch_loop rs (cpu -ℤ t.cpu_limit) (mem -ℤ t.memory_limit) (slots -ℤ pos 1)
                  (dispatch fl c now t s')
            | false ↦ dispatch_loop rs cpu mem slots (put_back now t s')
          ]
        ] in
        if ltb_ℤ (pos 0) slots then next else some s

    unfoldable pub tick : List (PopRound Q) → Time → Scheduler F Q E → Option (Scheduler F Q E)
    tick rounds now s =
        let (r, db) = get_running_tasks s.db in
        let s' = record s { db = db } in
        elim r [
          | err _ ↦ some s'
          | ok tasks ↦
              let s'' = fail_overdue now tasks s' in
              let slots = s.max_concurrent -ℤ pos (length tasks) in
              if ltb_ℤ (pos 0) slots
              then dispatch_loop rounds (s.total_cpu -ℤ allocated_cpu tasks)
                  (s.total_mem_mb -ℤ allocated_mem tasks) slots s''
              else some s''
        ]
