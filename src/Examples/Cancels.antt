-- ===== src/Examples/Cancels.antt =====
-- Runs of CancelTask of internal/service/task_service.go, and of a dispatch after it.
use mini_bk.Prelude.{ℕ, ◌∷◌, inl, ◌≢◌, ◌≡◌, ◌⊎◌, refl, [], none, some, true, false, arith}
use mini_bk.Prelude.Int.{pos}
use mini_bk.Model.Errors.{canceled, running, already_terminal, ok}
use mini_bk.Model.Task.{Task, is_terminal}
use mini_bk.Store.TaskTable.{find_row}
use mini_bk.Model.Lifecycle.{IsKnown}
use mini_bk.Queue.InMem.{InMemQueue, in_mem}
use mini_bk.Service.{TaskService, cancel_task}
use mini_bk.Service.Cancel.{cancel_task-cases}
use mini_bk.Scheduler.State.{Scheduler}
use mini_bk.Scheduler.Dispatch.{claim_task, dispatch}
use mini_bk.Service.Race.{IsRestarted, dispatch-IsRestarted}
use mini_bk.Examples.{task_a, task_b, table, queue_ab, scheduler, percents, granting}

abbrev service : TaskService InMemQueue
service = record { db = table; queue = queue_ab; stats = []; published = [] }

running-IsKnown : IsKnown running
running-IsKnown u h = absurd (ground arith)

cancel_task-cases_example :
    ((false ≡ true)
      × ((cancel_task in_mem (pos 9) none "b" service).0 ≡ some already_terminal)
      × ((cancel_task in_mem (pos 9) none "b" service).1.db.rows ≡ table.rows))
    ⊎ ((false ≡ false)
        × (find_row "b" (cancel_task in_mem (pos 9) none "b" service).1.db.rows
            ≡ some (record task_b { status = canceled; max_retries = pos 0; updated_at = pos 9 })))
unfolding find_row is_terminal
cancel_task-cases_example =
    cancel_task-cases in_mem (pos 9) none "b" service
      (record task_b { status = running; max_retries = pos 0 }) refl refl running-IsKnown

abbrev canceled_a : Task
canceled_a = record task_a { status = canceled }

abbrev revived : Scheduler ℕ InMemQueue ℕ
revived = record scheduler { db = record table { rows = canceled_a ∷ [] } }

-- The queue still holds `task_a` as it was created; its row says canceled.
dispatch-IsRestarted_example :
    (((claim_task granting "a" revived).0 ≡ ok true)
      × IsRestarted
          (pos 9)
          canceled_a
          task_a
          (dispatch percents granting (pos 9) task_a revived).db)
    ⊎ (((claim_task granting "a" revived).0 ≢ ok true)
        × ((dispatch percents granting (pos 9) task_a revived).db ≡ revived.db))
unfolding find_row
dispatch-IsRestarted_example =
    dispatch-IsRestarted percents granting (pos 9) task_a canceled_a revived refl refl (inl refl)
