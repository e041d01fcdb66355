-- ===== src/Service/Cancel.antt =====
-- What CancelTask (internal/service/task_service.go) does to a task, and what the scheduler does
-- to a task that was canceled while it waited in the queue.
use mini_bk.Prelude.{
  String, [], Option, none, some, true, false, ◌≡◌, refl, ap, ◌∙◌, arith, ◌⊎◌, inl, inr,
}
use mini_bk.Model.Errors.{canceled, already_terminal, ok}
use mini_bk.Model.Task.{Task, Time, is_terminal, transition_to}
use mini_bk.Model.Lifecycle.{IsKnown, is_terminal-refuses}
use mini_bk.Store.TaskTable.{find_row, update, update_rows, get_by_uid}
use mini_bk.Queue.Interface.{TaskQueue}
use mini_bk.Scheduler.Retry.{find_row-written, update-calm}
use mini_bk.Service.{TaskService, RedisReplies, cancel_task, cancel_read, publish_cancel}

module _ {Q : Type 0} (o : TaskQueue Q) (now : Time) (redis : Option RedisReplies) (uid : String)
    (s : TaskService Q) (t : Task) (calm : s.db.answers ≡ [])
    (there : find_row uid s.db.rows ≡ some t) where
  publish_cancel-db : (s1 : TaskService Q) → (publish_cancel o uid redis s1).1.db ≡ s1.db
  unfolding publish_cancel
  publish_cancel-db s1 = ground arith

  read_calm : get_by_uid uid s.db ≡ (ok t, record s.db { answers = [] })
  unfolding get_by_uid
  read_calm = ground (arith, calm, there)

  abbrev read : TaskService Q
  read = record s { db = record s.db { answers = [] } }

  abbrev written_off : TaskService Q
  written_off = record s {
    db = record s.db {
      rows = update_rows (record t { status = canceled; updated_at = now }) s.db.rows;
      answers = [];
    };
  }

  cancel_task_lem : cancel_task o now redis uid s ≡ cancel_read o now redis uid t read
  unfolding cancel_task
  cancel_task_lem = rw (read_calm, cancel_task) (rw read_calm refl)

  cancel_read-refused :
      is_terminal t.status ≡ true
      → cancel_read o now redis uid t read ≡ (some already_terminal, read)
  unfolding cancel_read
  cancel_read-refused e = rw (e, cancel_read) refl

  cancel_read-done :
      is_terminal t.status ≡ false
      → transition_to now canceled t ≡ (none, record t { status = canceled; updated_at = now })
      → cancel_read o now redis uid t read ≡ publish_cancel o uid redis written_off
  unfolding cancel_read
  cancel_read-done e moved =
      let t' : Task = record t { status = canceled; updated_at = now } in
      let wrote = update-calm now t' (record s.db { answers = [] }) refl in
      rw (e, cancel_read)
        (rw moved (
          rw moved (
            rw wrote (
              ap (λ r. publish_cancel o uid redis (record s { db = (update now r.1 read.db).2 }))
                moved
              ∙ ap (λ r. publish_cancel o uid redis (record s { db = r.2 })) wrote))))

  -- CancelTask of a task that is in the table in one of the six statuses, with no fault of the store.
  -- A finished task is refused and the table stays as it was; any other becomes canceled in its row,
  -- whatever Redis answers, and nothing else of the row but the update time changes.
  pub cancel_task-cases :
      IsKnown t.status
      → let done = cancel_task o now redis uid s in
        ((is_terminal t.status ≡ true)
          × (done.0 ≡ some already_terminal)
          × (done.1.db.rows ≡ s.db.rows))
        ⊎ ((is_terminal t.status ≡ false)
            × (find_row uid done.1.db.rows
                ≡ some (record t { status = canceled; updated_at = now })))
  unfolding cancel_task
  cancel_task-cases known = elim (is_terminal-refuses now canceled t known) [
    | inl (e, _) ↦ inl (e, ap (λ r. r.0) (both e), ap (λ r. r.1.db.rows) (both e))
    | inr (e, moved) ↦
        let t' : Task = record t { status = canceled; updated_at = now } in
        let same = cancel_task_lem ∙ cancel_read-done e moved in
        inr (
          e,
          ap (λ r. find_row uid r.1.db.rows) same
              ∙ ap (λ db. find_row uid db.rows) (publish_cancel-db written_off)
              ∙ find_row-written uid t t' s.db.rows there refl,
        )
  ]
    where
      both :
          is_terminal t.status ≡ true
          → cancel_task o now redis uid s ≡ (some already_terminal, read)
      both e = cancel_task_lem ∙ cancel_read-refused e
