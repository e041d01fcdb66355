-- ===== src/Queue/Interface.antt =====
-- The interface `TaskQueue` of internal/queue/queue.go: the operations, and what a client may rely
-- on. `Q` is the state of the queue; each call is given the time at which it is made.
use mini_bk.Prelude.{ℕ, ◌<◌, ◌≤◌, Option, some, ◌≡◌}
use mini_bk.Prelude.Int.{ℤ}
use mini_bk.Model.Errors.{Failure, Result, ok}
use mini_bk.Model.Task.{Task, Time}

pub record TaskQueue (Q : Type 0) : Type 0 where
  pub push : Task → Q → Option Failure × Q
  -- The arguments are the timeout, and the time of the call.
  pub pop : ℤ → Time → Q → Result (Option Task) × Q
  pub push_priority : Task → Q → Option Failure × Q
  pub push_delayed : Time → ℤ → Task → Q → Option Failure × Q
  pub size : Q → Result ℕ

-- `waiting` counts the tasks that Pop may return at once. A Pop that returns a task takes it out, and
-- a delayed task is not among them.
pub record IsTaskQueue {Q : Type 0} (o : TaskQueue Q) (waiting : Q → ℕ) : Type 0 where
  pub pop_takes :
      (timeout : ℤ) (now : Time) (q : Q) (t : Task)
      → (o.pop timeout now q).0 ≡ ok (some t)
      → waiting (o.pop timeout now q).1 < waiting q
  pub delayed_waits :
      (now : Time) (delay : ℤ) (t : Task) (q : Q)
      → waiting (o.push_delayed now delay t q).1 ≤ waiting q

-- Every task in the queue has the property; Pop returns such a task, and the queue keeps it.
pub record KeepsTasks {Q : Type 0} (o : TaskQueue Q) (P : Task → Type 0) (All : Q → Type 0)
    : Type 0 where
  pub pop_holds : (timeout : ℤ) (now : Time) (q : Q) → All q → All (o.pop timeout now q).1
  pub popped_holds :
      (timeout : ℤ) (now : Time) (q : Q) (t : Task)
      → All q
      → (o.pop timeout now q).0 ≡ ok (some t)
      → P t
  pub delayed_holds :
      (now : Time) (delay : ℤ) (t : Task) (q : Q)
      → P t
      → All q
      → All (o.push_delayed now delay t q).1

-- A pushed task leaves every task in the queue with the property, if it has it.
pub record AcceptsTasks {Q : Type 0} (o : TaskQueue Q) (P : Task → Type 0) (All : Q → Type 0)
    : Type 0 where
  pub push_holds : (t : Task) (q : Q) → P t → All q → All (o.push t q).1
  pub urgent_holds : (t : Task) (q : Q) → P t → All q → All (o.push_priority t q).1
