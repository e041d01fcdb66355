-- ===== src/Api.antt =====
-- internal/api/task_handler.go over internal/service/task_service.go. gin is not in the repository: what it
-- binds of a request is an argument, and the answer is the status with what the body is made of.
pub mod Nodes
pub mod Resources
pub mod Missing
pub mod Routes
use Prim.Native.Char.{code}
use mini_bk.Prelude.{
  ℕ, ◌+◌, ◌-◌, ◌*◌, String, List, [], ◌∷◌, ◌++◌, Option, none, some, Bool, true, false, not, ◌&&◌,
  if◌then◌else◌, ◌==◌, leb, ltb, length,
}
use mini_bk.Prelude.Decimal.{atoi}
use mini_bk.Prelude.Int.{ℤ, pos, negsuc, ltb_ℤ, ◌-ℤ◌}
use mini_bk.Model.Errors.{TaskStatus, Failure, task_not_found, Result, ok, err}
use mini_bk.Model.Task.{Task, Time, is_terminal}
use mini_bk.Executor.Outcome.{error_text}
use mini_bk.Queue.Interface.{TaskQueue}
use mini_bk.Service.{
  TaskService, CreateTaskRequest, TaskListResult, RedisReplies, create_task, get_task, list_tasks,
  cancel_task, rerun_task,
}

-- `refused` is the status with the text under "error".
pub data Reply (B : Type 0) : Type 0 where
  refused : ℤ → String → Reply B
  answered : ℤ → B → Reply B

-- `err == model.ErrTaskNotFound`
is_not_found : Failure → Bool
is_not_found task_not_found = true
is_not_found _ = false

-- How the handlers of one task answer an error.
unfoldable pub refuse_task : {B : Type 0} → Failure → Reply B
unfolding is_not_found error_text
refuse_task e =
    if is_not_found e then refused (pos 404) "任务未找到" else refused (pos 500) (error_text e)

-- The three fields of a new task.
pub record CreatedTask : Type 0 where
  pub task_uid : String
  pub status : TaskStatus
  pub created_at : Time

unfoldable pub created_of : Task → CreatedTask
created_of t = record { task_uid = t.task_uid; status = t.status; created_at = t.created_at }

unfoldable pub at_least_one : ℤ → ℤ → ℤ
at_least_one n default = if ltb_ℤ (pos 0) n then n else default

-- What the stream writes: the JSON of an entry, or the end.
pub data Chunk : Type 0 where
  logged : String → Chunk
  done : Chunk

-- An entry as logStream.Read returns it: its id, and its JSON, if it has one.
pub record Entry : Type 0 where
  pub id : String
  pub text : Option String

-- A round of the stream: what Read returns for the last id, and what happens to the service up to
-- the next look at the task.
pub record StreamRound (Q : Type 0) : Type 0 where
  pub read : String → Result (List Entry)
  pub others : TaskService Q → TaskService Q

unfoldable pub written : List Entry → List Chunk
written [] = []
written (e ∷ es) = elim e.text [ none ↦ written es | some text ↦ logged text ∷ written es ]

unfoldable pub last_written : String → List Entry → String
last_written id [] = id
last_written id (e ∷ es) = elim e.text [ none ↦ last_written id es | some _ ↦ last_written e.id es ]

module _ {Q : Type 0} (o : TaskQueue Q) where
  unfoldable pub create_task_handler :
      (String → String)
      → Time
      → String
      → Option RedisReplies
      → Result CreateTaskRequest
      → TaskService Q
      → Reply CreatedTask × TaskService Q
  create_task_handler hex now uuid redis (err e) s = (refused (pos 400) (error_text e), s)
  create_task_handler hex now uuid redis (ok req) s =
      let (r, s') = create_task o hex now uuid redis req s in
      (
        elim r [
          | err e ↦ refused (pos 500) (error_text e)
          | ok t ↦ answered (pos 201) (created_of t)
        ],
        s',
      )

  unfoldable pub get_task_handler : String → TaskService Q → Reply Task × TaskService Q
  get_task_handler uid s =
      let (r, s') = get_task o uid s in
      (elim r [ err e ↦ refuse_task e | ok t ↦ answered (pos 200) t ], s')

  -- The query's texts for status, page and size, with the defaults filled in.
  unfoldable pub list_tasks_handler :
      String → String → String → TaskService Q → Reply TaskListResult × TaskService Q
  list_tasks_handler status page size s =
      let (r, s') =
        list_tasks o status (at_least_one (atoi page) (pos 1)) (at_least_one (atoi size) (pos 10))
          s in
      (elim r [ err e ↦ refused (pos 500) (error_text e) | ok l ↦ answered (pos 200) l ], s')

  unfoldable pub cancel_task_handler :
      Time → Option RedisReplies → String → TaskService Q → Reply String × TaskService Q
  cancel_task_handler now redis uid s =
      let (e, s') = cancel_task o now redis uid s in
      (elim e [ some x ↦ refuse_task x | none ↦ answered (pos 200) "任务已取消" ], s')

  unfoldable pub rerun_task_handler :
      (String → String)
      → Time
      → String
      → Option RedisReplies
      → String
      → TaskService Q
      → Reply CreatedTask × TaskService Q
  rerun_task_handler hex now uuid redis uid s =
      let (r, s') = rerun_task o hex now uuid redis uid s in
      (elim r [ err e ↦ refuse_task e | ok t ↦ answered (pos 201) (created_of t) ], s')

  unfoldable pub get_task_log : String → TaskService Q → Reply (String × String) × TaskService Q
  get_task_log uid s =
      let (r, s') = get_task o uid s in
      (elim r [ err e ↦ refuse_task e | ok t ↦ answered (pos 200) (t.stdout, t.stderr) ], s')

  is_finished : Result Task → Bool
  is_finished (err _) = false
  is_finished (ok t) = is_terminal t.status

  -- The rounds up to the end of the request.
  unfoldable pub stream_rounds :
      String → String → List (StreamRound Q) → TaskService Q → List Chunk × TaskService Q
  unfolding is_finished
  stream_rounds uid last [] s = ([], s)
  stream_rounds uid last (round ∷ rest) s = elim (round.read last) [
    | err _ ↦ stream_rounds uid last rest (round.others s)
    | ok entries ↦
        let (r, s') = get_task o uid (round.others s) in
        let (chunks, s'') = stream_rounds uid (last_written last entries) rest s' in
        if is_finished r && length entries == 0
        then (written entries ++ done ∷ [], s')
        else (written entries ++ chunks, s'')
  ]

  -- `flushes` says whether the writer is a Flusher.
  unfoldable pub stream_task_log :
      Bool → String → List (StreamRound Q) → TaskService Q → Reply (List Chunk) × TaskService Q
  stream_task_log flushes uid rounds s =
      let (r, s') = get_task o uid s in
      elim r [
        | err e ↦ (refuse_task e, s')
        | ok _ ↦
            let (chunks, s'') = stream_rounds uid "0" rounds s' in
            if flushes
            then (answered (pos 200) chunks, s'')
            else (refused (pos 500) "streaming not supported", s')
      ]
