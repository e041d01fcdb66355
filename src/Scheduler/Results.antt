-- ===== src/Scheduler/Results.antt =====
-- What HandleRemoteResult (internal/scheduler/scheduler.go) makes of a report, for a task in any
-- status.
use mini_bk.Prelude.{
  String, [], none, some, true, false, ◌≡◌, ◌≢◌, refl, ap, ◌∙◌, arith, ◌⊎◌, inl, inr, Bool-cases,
  if◌then◌else◌,
}
use mini_bk.Prelude.Int.{pos, ◌+ℤ◌}
use mini_bk.Model.Errors.{pending, running, success, failed, Failure, ok}
use mini_bk.Model.Task.{Task, Time, can_retry}
use mini_bk.Store.TaskTable.{find_row, get_by_uid}
use mini_bk.Executor.Outcome.{TaskResult, error_text}
use mini_bk.Queue.Interface.{TaskQueue}
use mini_bk.Scheduler.State.{Scheduler, drop_cancel}
use mini_bk.Scheduler.Backoff.{retry_delay}
use mini_bk.Scheduler.Finish.{fail_task, succeed, complete_task, handle_remote_result}
use mini_bk.Scheduler.Retry.{
  find_row-written, again, given_up, fail_task-again, fail_task-given_up, succeed-cases,
}

-- The message that a failing result leaves in the task.
abbrev pub message_of : TaskResult → Failure → String
message_of result e = if result.timed_out then "task timed out" else error_text e

-- The task with the output of its run.
abbrev pub reported : Time → TaskResult → Task → Task
reported now result t = record t {
  stdout = result.stdout;
  stderr = result.stderr;
  finished_at = some now;
}

module _ {F Q E : Type 0} where
  -- While retries are left, the task is pending with one more counted, and queued after its delay.
  -- Otherwise nothing is queued, and only a running task becomes failed.
  abbrev pub RetriedOrFailed :
      TaskQueue Q
      → Time
      → String
      → TaskResult
      → Scheduler F Q E
      → Task
      → Failure
      → Scheduler F Q E
      → Type 0
  RetriedOrFailed o now uid result s t e s' =
      ((can_retry t ≡ true)
        × (find_row uid s'.db.rows
            ≡ some (record t {
              stdout = result.stdout;
              stderr = result.stderr;
              error_message = message_of result e;
              retry_count = t.retry_count +ℤ pos 1;
              status = pending;
              finished_at = none;
              updated_at = now;
            }))
        × (s'.queue
            ≡ (o.push_delayed now (retry_delay t.retry_interval_sec (t.retry_count +ℤ pos 1))
                (again o now (message_of result e) (reported now result t) s) s.queue).1))
      ⊎ ((can_retry t ≡ false)
          × (s'.queue ≡ s.queue)
          × (((t.status ≡ running)
                × (find_row uid s'.db.rows
                    ≡ some (record t {
                      stdout = result.stdout;
                      stderr = result.stderr;
                      error_message = message_of result e;
                      status = failed;
                      finished_at = some now;
                      updated_at = now;
                    })))
              ⊎ ((t.status ≢ running) × (s'.db.rows ≡ s.db.rows))))

  -- A running task is a success; the table does not change for any other.
  abbrev pub SucceededOrKept :
      Time → String → TaskResult → Scheduler F Q E → Task → Scheduler F Q E → Type 0
  SucceededOrKept now uid result s t s' =
      (s'.queue ≡ s.queue)
      × (((t.status ≡ running)
            × (find_row uid s'.db.rows
                ≡ some (record t {
                  stdout = result.stdout;
                  stderr = result.stderr;
                  exit_code = some result.exit_code;
                  status = success;
                  finished_at = some now;
                  updated_at = now;
                })))
          ⊎ ((t.status ≢ running) × (s'.db.rows ≡ s.db.rows)))

module _ {F Q E : Type 0} (o : TaskQueue Q) (now : Time) (uid : String) (result : TaskResult)
    (s : Scheduler F Q E) (t : Task) (calm : s.db.answers ≡ [])
    (there : find_row uid s.db.rows ≡ some t) where
  abbrev at_hand : Scheduler F Q E
  at_hand = drop_cancel uid (record s { db = record s.db { answers = [] } })

  get_by_uid-calm : get_by_uid uid s.db ≡ (ok t, record s.db { answers = [] })
  unfolding get_by_uid
  get_by_uid-calm = ground (arith, calm, there)

  failure_lem :
      (e : Failure)
      → result.error ≡ some e
      → handle_remote_result o now uid result s
        ≡ fail_task o now (message_of result e) (reported now result t) at_hand
  unfolding handle_remote_result complete_task
  failure_lem e h =
      rw (get_by_uid-calm, handle_remote_result) (rw get_by_uid-calm (rw (h, complete_task) refl))

  success_lem :
      result.error ≡ none
      → handle_remote_result o now uid result s
        ≡ succeed o now
            (record (reported now result t) { exit_code = some result.exit_code })
            at_hand
  unfolding handle_remote_result complete_task
  success_lem h =
      rw (get_by_uid-calm, handle_remote_result) (rw get_by_uid-calm (rw (h, complete_task) refl))

  -- A report of a failed run, for a task that the table has in whatever status, with no fault of the
  -- store. While retries are left, the row becomes pending with one more retry counted and with the
  -- output and the message of this run, also where the task is canceled or finished, and the task
  -- is queued again after its delay. Otherwise nothing is queued; the row becomes failed if the
  -- task was running, and the table is as it was if it was not.
  pub handle_remote_result-failure :
      (e : Failure)
      → result.error ≡ some e
      → RetriedOrFailed o now uid result s t e (handle_remote_result o now uid result s)
  unfolding drop_cancel can_retry
  handle_remote_result-failure e h =
      let m = message_of result e in
      let same = failure_lem e h in
      elim (Bool-cases (can_retry t)) [
        | inl left ↦
            let (rows, queue) = fail_task-again o now m (reported now result t) at_hand refl left in
            rw same (
              inl (
                left,
                ap (find_row uid) rows
                    ∙ find_row-written uid t (again o now m (reported now result t) s) s.db.rows
                        there refl,
                queue,
              ))
        | inr spent ↦
            let (queue, rest) =
              fail_task-given_up o now m (reported now result t) at_hand refl spent in
            rw same (
              inr (
                spent,
                queue,
                elim rest [
                  | inl (r, rows) ↦ inl (
                    r,
                    ap (find_row uid) rows
                        ∙ find_row-written uid t (given_up o now m (reported now result t) s)
                            s.db.rows there refl,
                  )
                  | inr (n, rows) ↦ inr (n, rows)
                ],
              ))
      ]

  -- A report of a run without error, with no fault of the store: a running task becomes a success with
  -- the output and the exit code of the run; a task in any other status, such as one that was
  -- canceled meanwhile, leaves the table as it was. Nothing is queued.
  pub handle_remote_result-success :
      result.error ≡ none
      → SucceededOrKept now uid result s t (handle_remote_result o now uid result s)
  unfolding drop_cancel
  handle_remote_result-success h =
      let done : Task = record (reported now result t) { exit_code = some result.exit_code } in
      let (queue, rest) = succeed-cases o now "" done at_hand refl in
      rw (success_lem h) (
        queue,
        elim rest [
          | inl (r, rows) ↦ inl (
            r,
            ap (find_row uid) rows
                ∙ find_row-written uid t (record done { status = success; updated_at = now })
                    s.db.rows there refl,
          )
          | inr (n, rows) ↦ inr (n, rows)
        ],
      )
