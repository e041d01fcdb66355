-- ===== src/Store/TaskTable.antt =====
-- internal/store/task_store.go over the table of migrations/000001_create_tasks.up.sql. A row is the task that
-- `scanTask` reads from it: the JSON columns hold what was written, and a NULL reads as the zero
-- value. PostgreSQL is not in the repository, so it enters as what the statements say, and each statement
-- may fail: `answers` lists what the driver returns to the next ones (none left: no error).
use mini_bk.Prelude.{
  ℕ, zero, suc, String, List, [], ◌∷◌, ◌++◌, Option, none, some, Bool, ◌&&◌, ◌||◌, not,
  if◌then◌else◌, str_eq, length, keep, ◌*◌,
}
use mini_bk.Prelude.Int.{ℤ, pos, ltb_ℤ, ◌+ℤ◌}
use mini_bk.Model.Errors.{
  TaskStatus, created, pending, running, success, failed, canceled, unknown, Failure, no_rows,
  external, Result, ok, err,
}
use mini_bk.Model.Task.{Task, Time}

pub record TaskDb : Type 0 where
  pub rows : List Task
  pub next_id : ℤ
  pub answers : List (Option Failure)

abbrev pub answer_of : List (Option Failure) → Option Failure
answer_of [] = none
answer_of (a ∷ rest) = a

abbrev pub answers_left : List (Option Failure) → List (Option Failure)
answers_left [] = []
answers_left (a ∷ rest) = rest

-- The driver's answer to the next statement, and the database that has given it.
abbrev pub asked : TaskDb → TaskDb
asked db = record db { answers = answers_left db.answers }

abbrev pub fault : TaskDb → Option Failure
fault db = answer_of db.answers

-- `WHERE task_uid = $n`
unfoldable pub find_row : String → List Task → Option Task
find_row uid [] = none
find_row uid (r ∷ rs) = if str_eq r.task_uid uid then some r else find_row uid rs

-- The columns that INSERT does not name are NULL.
unfoldable pub inserted : ℤ → Task → Task
inserted id t = record t {
  id = id;
  exit_code = none;
  stdout = "";
  stderr = "";
  error_message = "";
  pid = none;
  started_at = none;
  finished_at = none;
}

-- `task_uid` is UNIQUE. The new id is scanned into the caller's task.
unfoldable pub create : Task → TaskDb → Option Failure × Task × TaskDb
unfolding inserted
create t db = elim (fault db) [
  | some e ↦ (some e, t, asked db)
  | none ↦ elim (find_row t.task_uid db.rows) [
    | some _ ↦ (some (external "duplicate key value violates unique constraint"), t, asked db)
    | none ↦ (
      none,
      record t { id = db.next_id },
      record db {
        rows = db.rows ++ inserted db.next_id t ∷ [];
        next_id = db.next_id +ℤ pos 1;
        answers = answers_left db.answers;
      },
    )
  ]
]

-- UPDATE sets every column but id, task_uid and created_at.
unfoldable pub overwrite : Task → Task → Task
overwrite t r = record t { id = r.id; task_uid = r.task_uid; created_at = r.created_at }

unfoldable pub update_rows : Task → List Task → List Task
unfolding overwrite
update_rows t [] = []
update_rows t (r ∷ rs) =
    (if str_eq r.task_uid t.task_uid then overwrite t r else r) ∷ update_rows t rs

-- The caller's task gets a new update time, also if the statement fails; an UPDATE that matches no
-- row is no error.
unfoldable pub update : Time → Task → TaskDb → Option Failure × Task × TaskDb
update now t db =
    let stamped = record t { updated_at = now } in
    elim (fault db) [
      | some e ↦ (some e, stamped, asked db)
      | none ↦ (
        none,
        stamped,
        record db { rows = update_rows stamped db.rows; answers = answers_left db.answers },
      )
    ]

unfoldable pub get_by_uid : String → TaskDb → Result Task × TaskDb
get_by_uid uid db = elim (fault db) [
  | some e ↦ (err e, asked db)
  | none ↦ (elim (find_row uid db.rows) [ none ↦ err no_rows | some r ↦ ok r ], asked db)
]

-- `string(status)` as the column holds it.
unfoldable pub status_text : TaskStatus → String
status_text created = "created"
status_text pending = "pending"
status_text running = "running"
status_text success = "success"
status_text failed = "failed"
status_text canceled = "canceled"
status_text (unknown s) = s

unfoldable pub has_status : String → Task → Bool
unfolding status_text
has_status s t = str_eq (status_text t.status) s

-- `ORDER BY priority DESC, created_at ASC`
abbrev pub before : Task → Task → Bool
before a b =
    ltb_ℤ b.priority a.priority
    || (not (ltb_ℤ a.priority b.priority) && ltb_ℤ a.created_at b.created_at)

unfoldable pub insert_row : Task → List Task → List Task
insert_row t [] = t ∷ []
insert_row t (r ∷ rs) = let later = r ∷ insert_row t rs in if before t r then t ∷ r ∷ rs else later

unfoldable pub order_rows : List Task → List Task
unfolding insert_row
order_rows [] = []
order_rows (r ∷ rs) = insert_row r (order_rows rs)

unfoldable pub select_status : TaskStatus → TaskDb → Result (List Task) × TaskDb
unfolding order_rows has_status keep
select_status s db = elim (fault db) [
  | some e ↦ (err e, asked db)
  | none ↦ (ok (order_rows (keep (has_status (status_text s)) db.rows)), asked db)
]

unfoldable pub get_pending_tasks : TaskDb → Result (List Task) × TaskDb
unfolding select_status
get_pending_tasks db = select_status pending db

unfoldable pub get_running_tasks : TaskDb → Result (List Task) × TaskDb
unfolding select_status
get_running_tasks db = select_status running db

unfoldable pub get_created_tasks : TaskDb → Result (List Task) × TaskDb
unfolding select_status
get_created_tasks db = select_status created db

unfoldable pub skip_rows : ℕ → List Task → List Task
skip_rows zero rs = rs
skip_rows (suc n) [] = []
skip_rows (suc n) (r ∷ rs) = skip_rows n rs

unfoldable pub limit_rows : ℕ → List Task → List Task
limit_rows zero rs = []
limit_rows (suc n) [] = []
limit_rows (suc n) (r ∷ rs) = r ∷ limit_rows n rs

-- The WHERE clause is left out if `status == ""`.
selected : String → List Task → List Task
unfolding has_status keep
selected status rows = if str_eq status "" then rows else keep (has_status status) rows

-- LIMIT and OFFSET of a page; PostgreSQL refuses a negative one.
window : ℤ → ℤ → List Task → Result (List Task)
unfolding skip_rows limit_rows
window page (pos zero) rs = ok []
window (pos (suc page)) (pos size) rs = ok (limit_rows size (skip_rows (page * size) rs))
window page size rs = err (external "LIMIT and OFFSET must not be negative")

page_of : Result (List Task) → ℕ → Result (List Task × ℕ)
page_of (ok rs) n = ok (rs, n)
page_of (err e) n = err e

-- COUNT(*) is one statement and the page another.
unfoldable pub list : String → ℤ → ℤ → TaskDb → Result (List Task × ℕ) × TaskDb
unfolding selected window page_of order_rows
list status page size db = elim (fault db) [
  | some e ↦ (err e, asked db)
  | none ↦ elim (fault (asked db)) [
    | some e ↦ (err e, asked (asked db))
    | none ↦ (
      page_of (window page size (order_rows (selected status db.rows)))
          (length (selected status db.rows)),
      asked (asked db),
    )
  ]
]
