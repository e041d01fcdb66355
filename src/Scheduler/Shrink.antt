-- ===== src/Scheduler/Shrink.antt =====
-- What the end of an execution (failTask of internal/scheduler/scheduler.go) does to the running
-- rows and to the queue.
use mini_bk.Prelude.{ℕ, String, List, [], ◌∷◌, none, some, ◌≡◌, arith, inl, inr, Bool-cases, All}
use mini_bk.Prelude.Int.{ℤ, pos, ◌+ℤ◌}
use mini_bk.Model.Errors.{pending, failed}
use mini_bk.Model.Task.{Task, Time, transition_to, can_retry}
use mini_bk.Store.TaskTable.{update, has_status}
use mini_bk.Store.Load.{DistinctUids, update-DistinctUids, load-update}
use mini_bk.Queue.Interface.{TaskQueue, KeepsTasks}
use mini_bk.Scheduler.State.{Scheduler, count_stat}
use mini_bk.Scheduler.Backoff.{retry_delay}
use mini_bk.Scheduler.Limits.{HasLimits}
use mini_bk.Scheduler.Growth.{Adds}
use mini_bk.Scheduler.Finish.{requeue, retry_task, give_up, fail_task}
use mini_bk.Scheduler.Tick.{fail_overdue, is_overdue}

module _ {F Q E : Type 0} (o : TaskQueue Q) (now : Time) (g : ℤ → ℤ → ℕ) where
  retry_task-Adds :
      (t : Task) (s : Scheduler F Q E) → DistinctUids s.db.rows → Adds g 0 s (retry_task o now t s)
  unfolding retry_task requeue has_status
  retry_task-Adds t s d = record {
    distinct = ground (arith, update-DistinctUids now again s.db d);
    grown = ground (arith, load-update now again s.db g d);
  }
    where
      again : Task
      again = record t {
        retry_count = t.retry_count +ℤ pos 1;
        status = pending;
        finished_at = none;
      }

  give_up-Adds :
      (t : Task) (s : Scheduler F Q E) → DistinctUids s.db.rows → Adds g 0 s (give_up o now t s)
  unfolding give_up transition_to count_stat has_status
  give_up-Adds t s d = record {
    distinct = ground (arith, update-DistinctUids now ended s.db d);
    grown = ground (arith, load-update now ended s.db g d);
  }
    where
      ended : Task
      ended = record t { finished_at = some now; status = failed; updated_at = now }

  -- A failed execution never adds to the running rows.
  pub fail_task-Adds :
      (message : String) (t : Task) (s : Scheduler F Q E)
      → DistinctUids s.db.rows
      → Adds g 0 s (fail_task o now message t s)
  unfolding fail_task
  fail_task-Adds message t s d =
      elim (Bool-cases (can_retry (record t { error_message = message }))) [
        | inl e ↦ rw e (retry_task-Adds (record t { error_message = message }) s d)
        | inr e ↦ rw e (give_up-Adds (record t { error_message = message }) s d)
      ]

  pub fail_overdue-Adds :
      (ts : List Task) (s : Scheduler F Q E)
      → DistinctUids s.db.rows
      → Adds g 0 s (fail_overdue o now ts s)
  unfolding fail_overdue
  fail_overdue-Adds [] s d = record { distinct = d; grown = omega arith }
  fail_overdue-Adds (t ∷ ts) s d = elim (Bool-cases (is_overdue now t)) [
    | inl e ↦
        let a = fail_task-Adds "task timed out" t s d in
        let b = fail_overdue-Adds ts (fail_task o now "task timed out" t s) a.distinct in
        rw e (record { distinct = b.distinct; grown = omega (arith, a.grown, b.grown) })
    | inr e ↦ rw e (fail_overdue-Adds ts s d)
  ]

-- The queue gets no task with a negative limit.

module _ {F Q E : Type 0} (o : TaskQueue Q) (AllIn : Q → Type 0)
    (holds : KeepsTasks o HasLimits AllIn) (now : Time) where
  retry_task-holds :
      (t : Task) (s : Scheduler F Q E)
      → HasLimits t
      → AllIn s.queue
      → AllIn (retry_task o now t s).queue
  unfolding retry_task requeue update
  retry_task-holds t s p a =
      let again : Task = record t {
        retry_count = t.retry_count +ℤ pos 1;
        status = pending;
        finished_at = none;
        updated_at = now;
      } in
      let p' : HasLimits again = record { cpu = p.cpu; memory = p.memory } in
      ground (
        arith,
        holds.delayed_holds now (retry_delay again.retry_interval_sec again.retry_count) again
            s.queue p' a,
      )

  give_up-queue : (t : Task) (s : Scheduler F Q E) → (give_up o now t s).queue ≡ s.queue
  unfolding give_up count_stat
  give_up-queue t s = ground arith

  fail_task-holds :
      (message : String) (t : Task) (s : Scheduler F Q E)
      → HasLimits t
      → AllIn s.queue
      → AllIn (fail_task o now message t s).queue
  unfolding fail_task
  fail_task-holds message t s p a =
      let t' : Task = record t { error_message = message } in
      elim (Bool-cases (can_retry t')) [
        | inl e ↦ rw e (retry_task-holds t' s (record { cpu = p.cpu; memory = p.memory }) a)
        | inr e ↦ rw (e, give_up-queue t' s) a
      ]

  pub fail_overdue-holds :
      (ts : List Task) (s : Scheduler F Q E)
      → All HasLimits ts
      → AllIn s.queue
      → AllIn (fail_overdue o now ts s).queue
  unfolding fail_overdue
  fail_overdue-holds [] s p a = a
  fail_overdue-holds (t ∷ ts) s p a = elim (Bool-cases (is_overdue now t)) [
    | inl e ↦
        rw (e, fail_overdue)
          (fail_overdue-holds ts (fail_task o now "task timed out" t s) p.1
            (fail_task-holds "task timed out" t s p.0 a))
    | inr e ↦ rw (e, fail_overdue) (fail_overdue-holds ts s p.1 a)
  ]
