-- ===== src/Scheduler/Retry.antt =====
-- What completeTask, failTask and HandleRemoteResult of internal/scheduler/scheduler.go leave in
-- the table and in the queue.
use mini_bk.Prelude.{
  String, List, [], none, some, true, false, ◌≡◌, ◌≢◌, refl, ap, ◌∙◌, arith, ◌⊎◌, inl, inr,
  Bool-cases, eq_iff,
}
use mini_bk.Prelude.Int.{pos, ◌+ℤ◌}
use mini_bk.Model.Errors.{TaskStatus, pending, running, success, failed, invalid_transition}
use mini_bk.Model.Task.{Task, Time, can_retry, transition_to}
use mini_bk.Model.Lifecycle.{◌⟶◌, break, finish, transition_to-cases}
use mini_bk.Store.TaskTable.{TaskDb, find_row, update, update_rows}
use mini_bk.Store.Rows.{find_row-uid, find_row-update_rows}
use mini_bk.Queue.Interface.{TaskQueue}
use mini_bk.Scheduler.State.{Scheduler, count_stat}
use mini_bk.Scheduler.Backoff.{retry_delay}
use mini_bk.Scheduler.Finish.{requeue, retry_task, give_up, fail_task, succeed}

-- The row of a task once a version of it is written.
pub find_row-written :
    (uid : String) (t t' : Task) (rs : List Task)
    → find_row uid rs ≡ some t
    → t'.task_uid ≡ t.task_uid
    → find_row uid (update_rows t' rs) ≡ some (record t' { id = t.id; created_at = t.created_at })
find_row-written uid t t' rs h same =
    ground (arith, find_row-update_rows t' uid rs, find_row-uid uid rs t h, eq_iff t'.task_uid uid)

⟶-failed : {s : TaskStatus} → s ⟶ failed → s ≡ running
⟶-failed break = refl

⟶-success : {s : TaskStatus} → s ⟶ success → s ≡ running
⟶-success finish = refl

-- A final status is reached from running alone.
to_failed :
    (now : Time) (t : Task)
    → ((t.status ≡ running)
        × (transition_to now failed t ≡ (none, record t { status = failed; updated_at = now })))
      ⊎ ((t.status ≢ running)
          × (transition_to now failed t ≡ (some (invalid_transition t.status failed), t)))
to_failed now t = elim (transition_to-cases now failed t) [
  | inl (a, e) ↦ inl (⟶-failed a, e)
  | inr (n, e) ↦ inr (λ h. n (rw h break), e)
]

to_success :
    (now : Time) (t : Task)
    → ((t.status ≡ running)
        × (transition_to now success t ≡ (none, record t { status = success; updated_at = now })))
      ⊎ ((t.status ≢ running)
          × (transition_to now success t ≡ (some (invalid_transition t.status success), t)))
to_success now t = elim (transition_to-cases now success t) [
  | inl (a, e) ↦ inl (⟶-success a, e)
  | inr (n, e) ↦ inr (λ h. n (rw h finish), e)
]

pub update-calm :
    (now : Time) (t : Task) (db : TaskDb)
    → db.answers ≡ []
    → update now t db ≡ (
      none,
      record t { updated_at = now },
      record {
        rows = update_rows (record t { updated_at = now }) db.rows;
        next_id = db.next_id;
        answers = [];
      },
    )
unfolding update
update-calm now t db h = ground (arith, h)

count_stat-keeps :
    {F Q E : Type 0} (now : Time) (field : String) (s : Scheduler F Q E)
    → ((count_stat now field s).queue ≡ s.queue) × ((count_stat now field s).db ≡ s.db)
unfolding count_stat
count_stat-keeps now field s = elim (Bool-cases s.has_redis) [
  | inl e ↦ rw (e, count_stat) (refl, refl)
  | inr e ↦ rw (e, count_stat) (refl, refl)
]

module _ {F Q E : Type 0} (o : TaskQueue Q) (now : Time) (message : String) (t : Task)
    (s : Scheduler F Q E) where
  -- The task as it is tried again.
  abbrev pub again : Task
  again = record t {
    error_message = message;
    retry_count = t.retry_count +ℤ pos 1;
    status = pending;
    finished_at = none;
    updated_at = now;
  }

  abbrev pub given_up : Task
  given_up = record t {
    error_message = message;
    finished_at = some now;
    status = failed;
    updated_at = now;
  }

  pub fail_task-again :
      s.db.answers ≡ []
      → can_retry t ≡ true
      → ((fail_task o now message t s).db.rows ≡ update_rows again s.db.rows)
        × ((fail_task o now message t s).queue
            ≡ (o.push_delayed now
                (retry_delay t.retry_interval_sec (t.retry_count +ℤ pos 1))
                again
                s.queue).1)
  unfolding fail_task retry_task requeue update can_retry
  fail_task-again none_left h = rw (h, none_left) (refl, refl)

  pub fail_task-given_up :
      s.db.answers ≡ []
      → can_retry t ≡ false
      → ((fail_task o now message t s).queue ≡ s.queue)
        × (((t.status ≡ running)
              × ((fail_task o now message t s).db.rows ≡ update_rows given_up s.db.rows))
            ⊎ ((t.status ≢ running) × ((fail_task o now message t s).db.rows ≡ s.db.rows)))
  unfolding fail_task give_up can_retry
  fail_task-given_up none_left h =
      elim (to_failed now (record t { error_message = message; finished_at = some now })) [
        | inl (e, done) ↦
            let kept =
              count_stat-keeps now "failed" (record s { db = (update now given_up s.db).2 }) in
            rw (h, give_up, done)
              (rw done (
                kept.0,
                inl (
                  e,
                  ap (λ db. db.rows) kept.1
                      ∙ ap (λ r. r.2.rows) (update-calm now given_up s.db none_left),
                ),
              ))
        | inr (n, refused) ↦ rw (h, give_up, refused) (refl, inr (n, refl))
      ]

  pub succeed-cases :
      s.db.answers ≡ []
      → ((succeed o now t s).queue ≡ s.queue)
        × (((t.status ≡ running)
              × ((succeed o now t s).db.rows
                  ≡ update_rows (record t { status = success; updated_at = now }) s.db.rows))
            ⊎ ((t.status ≢ running) × ((succeed o now t s).db.rows ≡ s.db.rows)))
  unfolding succeed
  succeed-cases none_left = elim (to_success now t) [
    | inl (e, done) ↦
        let t' : Task = record t { status = success; updated_at = now } in
        let kept = count_stat-keeps now "success" (record s { db = (update now t' s.db).2 }) in
        rw (succeed, done)
          (rw done (
            kept.0,
            inl (
              e,
              ap (λ db. db.rows) kept.1 ∙ ap (λ r. r.2.rows) (update-calm now t' s.db none_left),
            ),
          ))
    | inr (n, refused) ↦ rw (succeed, refused) (refl, inr (n, refl))
  ]
