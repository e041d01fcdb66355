-- ===== src/Service/Sound/Ticked.antt =====
-- A tick of internal/scheduler/scheduler.go on what the calls of internal/service/task_service.go have
-- left in the table and in the queue.
use Prim.Native.Nat.{max}
use mini_bk.Prelude.{◌≤◌, ◌≡◌, some, List, All}
use mini_bk.Prelude.Int.{pos_part}
use mini_bk.Model.Task.{Time}
use mini_bk.Store.Load.{load}
use mini_bk.Queue.Interface.{TaskQueue, KeepsTasks, AcceptsTasks}
use mini_bk.Scheduler.State.{Scheduler, Floats, ClaimStore}
use mini_bk.Scheduler.Limits.{HasLimits}
use mini_bk.Scheduler.Tick.{PopRound, tick}
use mini_bk.Scheduler.Costs.{one, cpu_of, mem_of}
use mini_bk.Scheduler.Budget.{tick_within_limits}
use mini_bk.Service.{TaskService}
use mini_bk.Service.Sound.Calls.{IsSound, Call, serve, serve-IsSound}

module _ {F Q E : Type 0} (o : TaskQueue Q) (AllIn : Q → Type 0)
    (keeps : KeepsTasks o HasLimits AllIn) (accepts : AcceptsTasks o HasLimits AllIn)
    (fl : Floats F) (c : ClaimStore E) (now : Time) where
  -- The state of a scheduler that shares its table and its queue with the service.
  abbrev pub sharing : TaskService Q → Scheduler F Q E → Scheduler F Q E
  sharing service s = record s { db = service.db; queue = service.queue }

  -- From a sound state, after any calls of the service, a tick keeps to the limits: it leaves no more
  -- running tasks, CPU or memory given to them than the machine has, or than there were after the
  -- calls. Others may work on the queue during the tick, if they leave no task with a negative limit
  -- in it.
  pub tick-serve :
      (calls : List Call) (service : TaskService Q) (rounds : List (PopRound Q))
      (s s' : Scheduler F Q E)
      → IsSound o AllIn accepts service
      → All (λ r. (q : Q) → AllIn q → AllIn (r.others q)) rounds
      → let before = sharing (serve o AllIn accepts calls service) s in
        tick o fl c rounds now before ≡ some s'
        → (load one s'.db.rows ≤ max (pos_part s.max_concurrent) (load one before.db.rows))
          × (load cpu_of s'.db.rows ≤ max (pos_part s.total_cpu) (load cpu_of before.db.rows))
          × (load mem_of s'.db.rows ≤ max (pos_part s.total_mem_mb) (load mem_of before.db.rows))
  tick-serve calls service rounds s s' sound kept ended =
      let after = serve-IsSound o AllIn accepts calls service sound in
      tick_within_limits o AllIn keeps fl c now rounds
        (sharing (serve o AllIn accepts calls service) s) s' kept after.queued after.table.distinct
        after.table.limited ended
