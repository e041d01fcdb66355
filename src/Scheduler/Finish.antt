-- ===== src/Scheduler/Finish.antt =====
-- The end of an execution: completeTask, failTask and HandleRemoteResult of
-- internal/scheduler/scheduler.go. A task is passed as the value that the pointer holds: the store
-- gives out fresh copies, and the queue and the goroutines have handed over theirs.
use mini_bk.Prelude.{String, none, some, if◌then◌else◌}
use mini_bk.Prelude.Int.{pos, ◌+ℤ◌}
use mini_bk.Model.Errors.{pending, success, failed, ok, err}
use mini_bk.Model.Task.{Task, Time, transition_to, can_retry}
use mini_bk.Store.TaskTable.{update, get_by_uid}
use mini_bk.Executor.Outcome.{TaskResult, error_text}
use mini_bk.Queue.Interface.{TaskQueue}
use mini_bk.Scheduler.State.{Scheduler, Execution, count_stat, drop_cancel}
use mini_bk.Scheduler.Backoff.{retry_delay}

module _ {F Q E : Type 0} (o : TaskQueue Q) where
  unfoldable pub requeue : Time → Task → Scheduler F Q E → Scheduler F Q E
  requeue now t s =
      let (_, q) = o.push_delayed now (retry_delay t.retry_interval_sec t.retry_count) t s.queue in
      record s { queue = q }

  -- The branch of failTask that tries again.
  unfoldable pub retry_task : Time → Task → Scheduler F Q E → Scheduler F Q E
  unfolding requeue
  retry_task now t s =
      let again = record t {
        retry_count = t.retry_count +ℤ pos 1;
        status = pending;
        finished_at = none;
      } in
      let (e, again', db) = update now again s.db in
      elim e [ some _ ↦ record s { db = db } | none ↦ requeue now again' (record s { db = db }) ]

  -- The branch that gives up.
  unfoldable pub give_up : Time → Task → Scheduler F Q E → Scheduler F Q E
  give_up now t s =
      let (e, t') = transition_to now failed (record t { finished_at = some now }) in
      elim e [
        | some _ ↦ s
        | none ↦
            let (_, _, db) = update now t' s.db in count_stat now "failed" (record s { db = db })
      ]

  unfoldable pub fail_task : Time → String → Task → Scheduler F Q E → Scheduler F Q E
  unfolding retry_task give_up
  fail_task now message t s =
      let t' = record t { error_message = message } in
      if can_retry t' then retry_task now t' s else give_up now t' s

  unfoldable pub succeed : Time → Task → Scheduler F Q E → Scheduler F Q E
  succeed now t s =
      let (e, t') = transition_to now success t in
      elim e [
        | some _ ↦ s
        | none ↦
            let (_, _, db) = update now t' s.db in count_stat now "success" (record s { db = db })
      ]

  unfoldable pub complete_task : Time → TaskResult → Task → Scheduler F Q E → Scheduler F Q E
  unfolding succeed
  complete_task now result t s =
      let t' = record t {
        stdout = result.stdout;
        stderr = result.stderr;
        finished_at = some now;
      } in
      elim result.error [
        | some e ↦ fail_task now (if result.timed_out then "task timed out" else error_text e) t' s
        | none ↦ succeed now (record t' { exit_code = some result.exit_code }) s
      ]

  unfoldable pub handle_remote_result :
      Time → String → TaskResult → Scheduler F Q E → Scheduler F Q E
  handle_remote_result now uid result s =
      let (r, db) = get_by_uid uid s.db in
      elim r [
        | err _ ↦ record s { db = db }
        | ok t ↦ complete_task now result t (drop_cancel uid (record s { db = db }))
      ]

  -- The goroutine of a local execution, once `executor.Run` has returned the result: it completes
  -- the task, and its deferred function drops the cancel function.
  unfoldable pub finish_execution :
      Time → TaskResult → Execution → Scheduler F Q E → Scheduler F Q E
  finish_execution now result x s = drop_cancel x.task.task_uid (complete_task now result x.task s)
