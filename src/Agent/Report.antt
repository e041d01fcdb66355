-- ===== src/Agent/Report.antt =====
-- That a result reported over gRPC ends as one found on the machine itself: executeTask of
-- cmd/agent/main.go, ReportResult of internal/grpcserver/server.go and completeTask of
-- internal/scheduler/scheduler.go.
use mini_bk.Prelude.{String}
use mini_bk.Prelude.Int.{ℤ, pos, negsuc, ◌≤ℤ◌, ◌<ℤ◌}
use mini_bk.Model.Task.{Task}
use mini_bk.Executor.Outcome.{TaskResult, reported_result}
use mini_bk.Scheduler.State.{Scheduler}
use mini_bk.Agent.{request_of}

-- An exit code of a process, from -1 (killed by a signal) up.
abbrev pub FitsInt32 : ℤ → Type 0
FitsInt32 n = (negsuc 2_147_483_647 ≤ℤ n) × (n <ℤ pos 2_147_483_648)

-- The result as the server gets it.
abbrev pub over_the_wire : String → TaskResult → TaskResult
over_the_wire uid result = reported_result (request_of uid result)
