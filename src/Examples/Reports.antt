-- ===== src/Examples/Reports.antt =====
-- Runs of HandleRemoteResult of internal/scheduler/scheduler.go with the queue of one process.
use mini_bk.Prelude.{refl}
use mini_bk.Prelude.Int.{pos}
use mini_bk.Model.Errors.{canceled, running, external}
use mini_bk.Store.TaskTable.{find_row}
use mini_bk.Queue.InMem.{in_mem}
use mini_bk.Scheduler.Finish.{handle_remote_result}
use mini_bk.Scheduler.Results.{
  handle_remote_result-failure, handle_remote_result-success, RetriedOrFailed, SucceededOrKept,
}
use mini_bk.Examples.{task_a, task_b, scheduler, broken_run, clean_run}

-- The report for the canceled task, which has retries left.
handle_remote_result-failure_example :
    RetriedOrFailed in_mem
      (pos 9)
      "a"
      broken_run
      scheduler
      (record task_a { status = canceled })
      (external "exit status 1")
      (handle_remote_result in_mem (pos 9) "a" broken_run scheduler)
unfolding find_row
handle_remote_result-failure_example =
    handle_remote_result-failure in_mem (pos 9) "a" broken_run scheduler
      (record task_a { status = canceled }) refl refl (external "exit status 1") refl

handle_remote_result-success_example :
    SucceededOrKept
      (pos 9)
      "b"
      clean_run
      scheduler
      (record task_b { status = running; max_retries = pos 0 })
      (handle_remote_result in_mem (pos 9) "b" clean_run scheduler)
unfolding find_row
handle_remote_result-success_example =
    handle_remote_result-success in_mem (pos 9) "b" clean_run scheduler
      (record task_b { status = running; max_retries = pos 0 }) refl refl refl
