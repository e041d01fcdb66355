-- ===== src/Model/Errors.antt =====
-- Task statuses (internal/model/task.go) and the errors that the Go code returns. A Go `error`
-- result is `Option Failure`, and `(value, error)` is `Result`.
use mini_bk.Prelude.{String}

-- `TaskStatus` is a Go string: a row of the database may hold any other text.
pub data TaskStatus : Type 0 where
  created pending running success failed canceled : TaskStatus
  unknown : String → TaskStatus

-- `external` is an error of a driver or of a remote service, with its message.
pub data Failure : Type 0 where
  task_not_found no_rows already_terminal : Failure
  invalid_transition : TaskStatus → TaskStatus → Failure
  duplicate_task : String → Failure
  no_matching_labels insufficient_resources : Failure
  session_expired deadline_exceeded context_canceled : Failure
  remote_error external : String → Failure
  wrapped : String → Failure → Failure

pub data Result {ℓ} (A : Type ℓ) : Type ℓ where
  ok : A → Result A
  err : Failure → Result A
