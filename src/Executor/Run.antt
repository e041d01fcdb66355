-- ===== src/Executor/Run.antt =====
-- NewExecutor and Run of internal/executor/executor.go. The operating system and Redis are parameters.
use Prim.Native.String.{◌++◌ as ◌<>◌}
use mini_bk.Prelude.{
  ℕ, suc, String, List, [], ◌∷◌, ◌++◌, Option, none, some, Bool, false, if◌then◌else◌, str_eq, ltb,
  ◌-◌,
}
use mini_bk.Prelude.Int.{ℤ, pos}
use mini_bk.Model.Errors.{Failure}
use mini_bk.Model.Task.{Task, EnvMap}
use mini_bk.LogStream.{StreamOps, append}
use mini_bk.Executor.Outcome.{TaskResult, WaitResult, ContextState, run_result, run_timeout}
use mini_bk.Executor.Output.{scanned, unlines, stream_lines}

-- `slots` is how many runs hold a slot of the channel.
pub record Executor : Type 0 where
  pub slots : ℕ
  pub max_concurrent : ℕ

unfoldable pub new_executor : ℕ → Executor
new_executor n = record { slots = 0; max_concurrent = n }

-- `none` while the channel is full.
unfoldable pub acquire : Executor → Option Executor
acquire e = if ltb e.slots e.max_concurrent then some (record e { slots = suc e.slots }) else none

unfoldable pub release : Executor → Executor
release e = record e { slots = e.slots - 1 }

pub record Command : Type 0 where
  pub name : String
  pub args : List String
  pub dir : String
  pub env : List String

unfoldable pub env_lines : EnvMap → List String
env_lines [] = []
env_lines ((k, v) ∷ kvs) = (k <> ("=" <> v)) ∷ env_lines kvs

-- An empty `Dir` is the directory of the process itself.
unfoldable pub command_of : List String → Task → Command
unfolding env_lines
command_of environ t = record {
  name = "sh";
  args = "-c" ∷ t.command ∷ [];
  dir = if str_eq t.workdir "" then "" else t.workdir;
  env = environ ++ env_lines t.env;
}

-- What becomes of a command with a deadline: it does not start, or it prints two outputs and ends.
pub data Ran : Type 0 where
  not_started : Failure → Ran
  ended : String → String → ContextState → WaitResult → Ran

unfoldable pub failed_result : Failure → TaskResult
failed_result e = record {
  exit_code = pos 0;
  stdout = "";
  stderr = "";
  timed_out = false;
  error = some e;
}

module _ {R : Type 0} (o : StreamOps R) where
  -- Two goroutines append the lines of the outputs; `turn n` says which of them comes n-th.
  unfoldable pub stream_both : String → (ℕ → ℤ) → (ℕ → Bool) → ℕ → List String → List String → R → R
  stream_both uid clock turn n [] errs r = stream_lines o uid "stderr" clock n errs r
  stream_both uid clock turn n (l ∷ ls) [] r = stream_lines o uid "stdout" clock n (l ∷ ls) r
  stream_both uid clock turn n (l ∷ ls) (k ∷ ks) r =
      let out =
        stream_both uid clock turn (suc n) ls (k ∷ ks) (append o uid l "stdout" (clock n) r).1 in
      let errs =
        stream_both uid clock turn (suc n) (l ∷ ls) ks (append o uid k "stderr" (clock n) r).1 in
      if turn n then out else errs

  -- The log, if there is a client, after both outputs were read to their ends.
  unfoldable pub both_logged : String → (ℕ → ℤ) → (ℕ → Bool) → String → String → Option R → Option R
  unfolding stream_both scanned
  both_logged uid clock turn out errs none = none
  both_logged uid clock turn out errs (some r) =
      some (stream_both uid clock turn 0 (scanned out) (scanned errs) r)

  -- Run while it holds its slot, where `spawn` is the operating system.
  unfoldable pub run :
      (Command → ℤ → Ran)
      → List String
      → (ℕ → ℤ)
      → (ℕ → Bool)
      → Task
      → Option R
      → TaskResult × Option R
  unfolding failed_result both_logged
  run spawn environ clock turn t log =
      elim (spawn (command_of environ t) (run_timeout t.timeout_sec)) [
        | not_started e ↦ (failed_result e, log)
        | ended out errs ctx wait ↦ (
          run_result ctx wait (unlines (scanned out)) (unlines (scanned errs)),
          both_logged t.task_uid clock turn out errs log,
        )
      ]

  -- The whole Run: it waits while all slots are taken (`none`), and gives its slot back at each of its
  -- returns. `others` is what other runs do to the slots meanwhile.
  unfoldable pub run_in_slot :
      (Command → ℤ → Ran)
      → List String
      → (ℕ → ℤ)
      → (ℕ → Bool)
      → Task
      → Option R
      → (Executor → Executor)
      → Executor
      → Option ((TaskResult × Option R) × Executor)
  unfolding run
  run_in_slot spawn environ clock turn t log others e = elim (acquire e) [
    | none ↦ none
    | some e' ↦ some (run spawn environ clock turn t log, release (others e'))
  ]
