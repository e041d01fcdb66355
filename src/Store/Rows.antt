-- ===== src/Store/Rows.antt =====
-- The row laws of internal/store/task_store.go: what Update and Create leave for GetByUID.
use mini_bk.Prelude.{
  String, List, [], ◌∷◌, Option, none, some, if◌then◌else◌, str_eq, eq_iff, ◌≡◌, arith,
}
use mini_bk.Model.Errors.{Failure, no_rows, ok, err}
use mini_bk.Model.Task.{Task, Time}
use mini_bk.Store.TaskTable.{TaskDb, find_row, update_rows, update, get_by_uid}

-- A row as UPDATE writes it: the task's columns with the row's own id and creation time.
abbrev pub written : Task → Task → Task
written t r = record t { id = r.id; created_at = r.created_at }

abbrev row_after : Task → Option Task → Option Task
row_after t none = none
row_after t (some r) = some (written t r)

pub find_row-uid :
    (uid : String) (rs : List Task) (t : Task) → find_row uid rs ≡ some t → t.task_uid ≡ uid
unfolding find_row
find_row-uid uid [] t h = ground arith
find_row-uid uid (r ∷ rs) t h = ground (arith, eq_iff r.task_uid uid, find_row-uid uid rs t)

pub find_row-update_rows :
    (t : Task) (uid : String) (rs : List Task)
    → find_row uid (update_rows t rs)
      ≡ (if str_eq t.task_uid uid then row_after t (find_row uid rs) else find_row uid rs)
unfolding find_row update_rows
find_row-update_rows t uid [] = ground arith
find_row-update_rows t uid (r ∷ rs) = ground (
  arith,
  eq_iff t.task_uid uid,
  eq_iff r.task_uid uid,
  eq_iff r.task_uid t.task_uid,
  find_row-update_rows t uid rs,
)

-- After an Update that succeeds, GetByUID of the same task returns the row with the new columns
-- (and no error, if there was such a row), and GetByUID of any other task what it returned before;
-- an Update that matches no row reports success and adds none.
pub get_by_uid-update :
    (now : Time) (t : Task) (uid : String) (db : TaskDb) (rest : List (Option Failure))
    → db.answers ≡ none ∷ none ∷ rest
    → let done = update now t db in
      (done.0 ≡ none)
      × (done.1 ≡ record t { updated_at = now })
      × ((get_by_uid uid done.2).0 ≡ (
          if str_eq t.task_uid uid
          then elim (find_row uid db.rows) [
            | none ↦ err no_rows
            | some r ↦ ok (written (record t { updated_at = now }) r)
          ]
          else elim (find_row uid db.rows) [ none ↦ err no_rows | some r ↦ ok r ]))
unfolding update get_by_uid
get_by_uid-update now t uid db rest h =
    ground (arith, find_row-update_rows (record t { updated_at = now }) uid db.rows)
