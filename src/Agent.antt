-- ===== src/Agent.antt =====
-- cmd/agent/main.go: here a pulled task and its report, where how the executor runs a task is a parameter
-- (Executor/Run has its Run).
pub mod Report
pub mod Machine
pub mod Words
pub mod Bounds
pub mod Joined
pub mod Beats
use mini_bk.Prelude.{String, Option, none, some, str_eq, if◌then◌else◌}
use mini_bk.Model.Errors.{Failure}
use mini_bk.Model.Task.{Task, Time, new_task}
use mini_bk.Executor.Outcome.{TaskResult, error_text, ResultRequest}
use mini_bk.Grpc.{PullTaskResponse, to_int32}

unfoldable pub task_of : Time → String → PullTaskResponse → Task
task_of now uuid req = record (new_task now uuid req.name req.command) {
  task_uid = req.task_uid;
  workdir = req.workdir;
  env = req.env;
  timeout_sec = req.timeout_sec;
}

unfoldable pub message_or_empty : Option Failure → String
message_or_empty none = ""
message_or_empty (some e) = error_text e

unfoldable pub request_of : String → TaskResult → ResultRequest
unfolding message_or_empty
request_of uid result = record {
  task_uid = uid;
  exit_code = to_int32 result.exit_code;
  stdout = result.stdout;
  stderr = result.stderr;
  error_message = message_or_empty result.error;
  timed_out = result.timed_out;
}

-- executeTask: the request that it sends with ReportResult.
unfoldable pub execute_task : (Task → TaskResult) → Time → String → PullTaskResponse → ResultRequest
execute_task run now uuid req = request_of req.task_uid (run (task_of now uuid req))

-- A round of taskPollLoop with the answer of PullTask, `none` for an error: the task to execute.
unfoldable pub polled : Option PullTaskResponse → Option PullTaskResponse
polled none = none
polled (some resp) = if str_eq resp.task_uid "" then none else some resp
