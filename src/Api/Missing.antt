-- ===== src/Api/Missing.antt =====
-- What internal/api/task_handler.go answers for a task that does not exist.
use mini_bk.Prelude.{String, Option, none, some, ◌≡◌, refl}
use mini_bk.Prelude.Int.{pos}
use mini_bk.Model.Errors.{no_rows, err}
use mini_bk.Model.Task.{Time}
use mini_bk.Store.TaskTable.{find_row, fault, get_by_uid}
use mini_bk.Queue.Interface.{TaskQueue}
use mini_bk.Service.{TaskService, RedisReplies, get_task, cancel_task, rerun_task}
use mini_bk.Api.{
  Reply, refused, refuse_task, get_task_handler, get_task_log, cancel_task_handler,
  rerun_task_handler,
}

-- A refusal that says that there is no row.
abbrev pub no_row_reply : {B : Type 0} → Reply B
no_row_reply = refused (pos 500) "sql: no rows in result set"

module _ {Q : Type 0} (o : TaskQueue Q) (uid : String) (s : TaskService Q) where
  get_by_uid-missing :
      fault s.db ≡ none → find_row uid s.db.rows ≡ none → (get_by_uid uid s.db).0 ≡ err no_rows
  unfolding get_by_uid
  get_by_uid-missing works missing = rw (works, get_by_uid) (rw missing refl)

  cancel_task-missing :
      (now : Time) (redis : Option RedisReplies)
      → (get_by_uid uid s.db).0 ≡ err no_rows
      → (cancel_task o now redis uid s).0 ≡ some no_rows
  unfolding cancel_task
  cancel_task-missing now redis e = rw (e, cancel_task) refl

  rerun_task-missing :
      (hex : String → String) (now : Time) (uuid : String) (redis : Option RedisReplies)
      → (get_by_uid uid s.db).0 ≡ err no_rows
      → (rerun_task o hex now uuid redis uid s).0 ≡ err no_rows
  unfolding rerun_task
  rerun_task-missing hex now uuid redis e = rw (e, rerun_task) refl

  -- For a uid without a row, and a store that works, the four handlers of one task answer with the
  -- status 500 and the store's own message, and never with the status 404 that they have for it.
  pub missing_task_answers :
      (hex : String → String) (now : Time) (uuid : String) (redis : Option RedisReplies)
      → fault s.db ≡ none
      → find_row uid s.db.rows ≡ none
      → ((get_task_handler o uid s).0 ≡ no_row_reply)
        × ((get_task_log o uid s).0 ≡ no_row_reply)
        × ((cancel_task_handler o now redis uid s).0 ≡ no_row_reply)
        × ((rerun_task_handler o hex now uuid redis uid s).0 ≡ no_row_reply)
  unfolding get_task_handler get_task_log cancel_task_handler rerun_task_handler get_task
      refuse_task
  missing_task_answers hex now uuid redis works missing =
      let e = get_by_uid-missing works missing in
      (
        rw (e, get_task_handler) refl,
        rw (e, get_task_log) refl,
        rw (cancel_task-missing now redis e, cancel_task_handler) refl,
        rw (rerun_task-missing hex now uuid redis e, rerun_task_handler) refl,
      )
