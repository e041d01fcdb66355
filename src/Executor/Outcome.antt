-- ===== src/Executor/Outcome.antt =====
-- What a run of a task yields (internal/executor/executor.go): the end of `Executor.Run` after the
-- process has been waited for, and the result built from an agent's report
-- (internal/grpcserver/server.go). Executor/Run has the rest of it.
use Prim.Native.String.{◌++◌ as ◌<>◌}
use mini_bk.Prelude.{String, Option, none, some, Bool, true, false, if◌then◌else◌, str_eq}
use mini_bk.Prelude.Int.{ℤ, pos, ltb_ℤ}
use mini_bk.Model.Errors.{
  Failure, task_not_found, no_rows, already_terminal, invalid_transition, duplicate_task,
  no_matching_labels, insufficient_resources, session_expired, deadline_exceeded, context_canceled,
  remote_error, external, wrapped,
}
use mini_bk.Store.TaskTable.{status_text}

pub record TaskResult : Type 0 where
  pub exit_code : ℤ
  pub stdout : String
  pub stderr : String
  pub timed_out : Bool
  pub error : Option Failure

-- The method `Error()`.
unfoldable pub error_text : Failure → String
unfolding status_text
error_text task_not_found = "task not found"
error_text no_rows = "sql: no rows in result set"
error_text already_terminal = "任务已处于终态，无法取消"
error_text (invalid_transition s t) =
    "invalid status transition: " <> (status_text s <> (" -> " <> status_text t))
error_text (duplicate_task uid) = "duplicate task: " <> uid
error_text no_matching_labels = "no node matching labels"
error_text insufficient_resources = "no node with sufficient resources"
error_text session_expired = "session expired"
error_text deadline_exceeded = "context deadline exceeded"
error_text context_canceled = "context canceled"
error_text (remote_error m) = m
error_text (external m) = m
error_text (wrapped m e) = m <> (": " <> error_text e)

-- How `cmd.Wait` ended: no error, an exit status other than 0, or another error.
pub data WaitResult : Type 0 where
  clean : WaitResult
  exit_status : ℤ → String → WaitResult
  wait_failed : Failure → WaitResult

-- `execCtx.Err()`.
pub data ContextState : Type 0 where
  active timed_out_ctx canceled_ctx : ContextState

-- The tail of `Run`: the timeout is looked at first, then the cancellation, then the exit status.
unfoldable pub run_result : ContextState → WaitResult → String → String → TaskResult
run_result ctx clean out errs = record {
  exit_code = pos 0;
  stdout = out;
  stderr = errs;
  timed_out = false;
  error = none;
}
run_result timed_out_ctx _ out errs = record {
  exit_code = pos 0;
  stdout = out;
  stderr = errs;
  timed_out = true;
  error = some deadline_exceeded;
}
run_result canceled_ctx _ out errs = record {
  exit_code = pos 0;
  stdout = out;
  stderr = errs;
  timed_out = false;
  error = some context_canceled;
}
run_result active (exit_status code text) out errs = record {
  exit_code = code;
  stdout = out;
  stderr = errs;
  timed_out = false;
  error = some (external text);
}
run_result active (wait_failed e) out errs = record {
  exit_code = pos 0;
  stdout = out;
  stderr = errs;
  timed_out = false;
  error = some e;
}

-- The seconds that a run may take.
unfoldable pub run_timeout : ℤ → ℤ
run_timeout secs = if ltb_ℤ (pos 0) secs then secs else pos 300

-- The request of ReportResult, and the result that it becomes.
pub record ResultRequest : Type 0 where
  pub task_uid : String
  pub exit_code : ℤ
  pub stdout : String
  pub stderr : String
  pub error_message : String
  pub timed_out : Bool

unfoldable pub reported_result : ResultRequest → TaskResult
reported_result req = record {
  exit_code = req.exit_code;
  stdout = req.stdout;
  stderr = req.stderr;
  timed_out = req.timed_out;
  error = if str_eq req.error_message "" then none else some (remote_error req.error_message);
}
