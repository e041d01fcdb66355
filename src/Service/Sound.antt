-- ===== src/Service/Sound.antt =====
-- What the operations of internal/store/task_store.go that the service calls keep of the table.
pub mod Calls
pub mod Ticked
use mini_bk.Prelude.{
  ℕ, ◌+◌, ◌≤◌, ◌≡◌, refl, sym, ap, ◌∙◌, arith, String, List, [], ◌∷◌, ◌++◌, Option, none, some,
  Bool, true, false, if◌then◌else◌, str_eq, eq_iff, All, All-append, Bool-cases, Option-cases, inl,
  inr, ◌⊎◌, subst,
}
use mini_bk.Prelude.Int.{ℤ, pos, ◌≤ℤ◌, ltb_ℤ}
use mini_bk.Model.Errors.{Failure, Result, ok, err, canceled}
use mini_bk.Model.Task.{Task, Time, transition_to, set_idempotency_key, new_task, is_terminal}
use mini_bk.Store.TaskTable.{
  TaskDb, find_row, create, inserted, update, update_rows, overwrite, get_by_uid, list, asked,
  fault, answers_left,
}
use mini_bk.Store.Load.{DistinctUids, update_rows-DistinctUids}
use mini_bk.Queue.Interface.{TaskQueue, AcceptsTasks}
use mini_bk.Scheduler.Limits.{HasLimits, transition_to-limits}
use mini_bk.Service.{
  TaskService, CreateTaskRequest, RedisReplies, requested, positive_or, duplicate_of,
  count_submitted, enqueue_task, create_task, get_task, list_tasks, publish_cancel, cancel_read,
  cancel_task, rerun_task,
}

find_row-append :
    (uid : String) (rs : List Task) (t : Task)
    → find_row uid (rs ++ t ∷ []) ≡ elim (find_row uid rs) [
      | some r ↦ some r
      | none ↦ if str_eq t.task_uid uid then some t else none
    ]
unfolding find_row
find_row-append uid [] t = refl
find_row-append uid (r ∷ rs) t = ground (arith, find_row-append uid rs t)

append-DistinctUids :
    (rs : List Task) (t : Task)
    → find_row t.task_uid rs ≡ none
    → DistinctUids rs
    → DistinctUids (rs ++ t ∷ [])
unfolding find_row
append-DistinctUids [] t h d = (refl, tt)
append-DistinctUids (r ∷ rs) t h d = (
  find_row-append r.task_uid rs t
      ∙ ground (arith, d.0, eq_iff t.task_uid r.task_uid, eq_iff r.task_uid t.task_uid),
  append-DistinctUids rs t (ground arith) d.1,
)

-- The two properties of the table.
pub record IsSoundTable (db : TaskDb) : Type 0 where
  pub distinct : DistinctUids db.rows
  pub limited : All HasLimits db.rows

pub create-IsSoundTable :
    (t : Task) (db : TaskDb) → HasLimits t → IsSoundTable db → IsSoundTable (create t db).2
unfolding create inserted
create-IsSoundTable t db l h = elim (Option-cases (fault db)) [
  | inr (x, e) ↦ rw (e, create) (record { distinct = h.distinct; limited = h.limited })
  | inl e ↦ elim (Option-cases (find_row t.task_uid db.rows)) [
    | inr (r, f) ↦ rw (e, create, f) ((record { distinct = h.distinct; limited = h.limited }))
    | inl f ↦
        rw (e, create, f)
          ((record {
            distinct = append-DistinctUids db.rows (inserted db.next_id t) f h.distinct;
            limited =
                All-append HasLimits db.rows _ h.limited
                  (record { cpu = l.cpu; memory = l.memory }, tt);
          }))
  ]
]

pub requested-HasLimits :
    (now : Time) (uuid : String) (req : CreateTaskRequest) → HasLimits (requested now uuid req)
unfolding requested positive_or new_task
requested-HasLimits now uuid req = record { cpu = ground arith; memory = ground arith }

pub find_row-HasLimits :
    (uid : String) (rs : List Task) (t : Task)
    → All HasLimits rs
    → find_row uid rs ≡ some t
    → HasLimits t
unfolding find_row
find_row-HasLimits uid [] t h e = absurd (ground arith)
find_row-HasLimits uid (r ∷ rs) t h e = elim (Bool-cases (str_eq r.task_uid uid)) [
  | inl s ↦ subst HasLimits (ground (arith, rw s at e)) h.0
  | inr s ↦ find_row-HasLimits uid rs t h.1 (rw s at e)
]

update_rows-HasLimits :
    (t : Task) (rs : List Task) → HasLimits t → All HasLimits rs → All HasLimits (update_rows t rs)
unfolding update_rows overwrite
update_rows-HasLimits t [] l h = tt
update_rows-HasLimits t (r ∷ rs) l h = elim (Bool-cases (str_eq r.task_uid t.task_uid)) [
  | inl e ↦ rw e (record { cpu = l.cpu; memory = l.memory }, update_rows-HasLimits t rs l h.1)
  | inr e ↦ rw e (h.0, update_rows-HasLimits t rs l h.1)
]

pub update-IsSoundTable :
    (now : Time) (t : Task) (db : TaskDb)
    → HasLimits t
    → IsSoundTable db
    → IsSoundTable (update now t db).2
unfolding update
update-IsSoundTable now t db l h = elim (Option-cases (fault db)) [
  | inr (x, e) ↦ rw (e, update) (record { distinct = h.distinct; limited = h.limited })
  | inl e ↦
      let stamped : Task = record t { updated_at = now } in
      rw (e, update)
        (record {
          distinct = update_rows-DistinctUids stamped db.rows h.distinct;
          limited =
              update_rows-HasLimits stamped db.rows (record { cpu = l.cpu; memory = l.memory })
                h.limited;
        })
]

pub get_by_uid-rows : (uid : String) (db : TaskDb) → (get_by_uid uid db).1.rows ≡ db.rows
unfolding get_by_uid
get_by_uid-rows uid db = elim (Option-cases (fault db)) [
  | inl e ↦ rw (e, get_by_uid) refl
  | inr (x, e) ↦ rw (e, get_by_uid) refl
]

pub get_by_uid-found :
    (uid : String) (db : TaskDb) (t : Task)
    → (get_by_uid uid db).0 ≡ ok t
    → find_row uid db.rows ≡ some t
unfolding get_by_uid
get_by_uid-found uid db t h = ground (arith, h)
