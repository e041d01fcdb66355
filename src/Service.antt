-- ===== src/Service.antt =====
-- internal/service/task_service.go. Redis is not in the repository: `none` stands for a nil client, and
-- otherwise its replies to SetNX, Get and Publish are arguments. The service has a queue.
pub mod Cancel
pub mod Sound
pub mod Race
use mini_bk.Prelude.{
  String, List, ◌∷◌, Option, none, some, Bool, true, false, if◌then◌else◌, str_eq, not, ℕ,
}
use mini_bk.Prelude.Int.{ℤ, pos, ltb_ℤ}
use mini_bk.Model.Errors.{
  canceled, Failure, already_terminal, duplicate_task, wrapped, Result, ok, err,
}
use mini_bk.Model.Task.{
  Task, Time, EnvMap, new_task, set_idempotency_key, is_terminal, transition_to,
}
use mini_bk.Store.TaskTable.{TaskDb, create, update, get_by_uid, list}
use mini_bk.Queue.Interface.{TaskQueue}
use mini_bk.Scheduler.State.{StatEvent}

-- `env` and `node_selector` are `none` for a nil map.
pub record CreateTaskRequest : Type 0 where
  pub name : String
  pub command : String
  pub workdir : String
  pub env : Option EnvMap
  pub cpu_limit : ℤ
  pub memory_limit : ℤ
  pub timeout_sec : ℤ
  pub priority : ℤ
  pub node_selector : Option EnvMap

pub record TaskListResult : Type 0 where
  pub tasks : List Task
  pub total : ℕ
  pub page : ℤ
  pub size : ℤ

pub record RedisReplies : Type 0 where
  pub set_nx : Result Bool
  pub existing : String
  pub publish : Option Failure

-- `published` lists the UIDs of the cancel messages.
pub record TaskService (Q : Type 0) : Type 0 where
  pub db : TaskDb
  pub queue : Q
  pub stats : List StatEvent
  pub published : List String

unfoldable pub positive_or : ℤ → ℤ → ℤ
positive_or given default = if ltb_ℤ (pos 0) given then given else default

unfoldable pub map_or : Option EnvMap → EnvMap → EnvMap
map_or none default = default
map_or (some given) default = given

-- NewTask with the parameters of the request.
unfoldable pub requested : Time → String → CreateTaskRequest → Task
unfolding new_task positive_or map_or
requested now uuid req =
    let t = new_task now uuid req.name req.command in
    record t {
      workdir = if str_eq req.workdir "" then t.workdir else req.workdir;
      env = map_or req.env t.env;
      cpu_limit = positive_or req.cpu_limit t.cpu_limit;
      memory_limit = positive_or req.memory_limit t.memory_limit;
      timeout_sec = positive_or req.timeout_sec t.timeout_sec;
      priority = positive_or req.priority t.priority;
      node_selector = map_or req.node_selector t.node_selector;
    }

-- The UID of the other task where the key is taken; an error of Redis lets the task pass.
unfoldable pub duplicate_of : Option RedisReplies → Option String
duplicate_of none = none
duplicate_of (some redis) = elim redis.set_nx [
  | err _ ↦ none
  | ok fresh ↦ if fresh then none else some redis.existing
]

module _ {Q : Type 0} (o : TaskQueue Q) where
  unfoldable pub count_submitted : Time → Option RedisReplies → TaskService Q → TaskService Q
  count_submitted now none s = s
  count_submitted now (some _) s = record s {
    stats = record { at = now; field = "submitted" } ∷ s.stats;
  }

  -- An error of the queue is logged only.
  unfoldable pub enqueue_task : Task → TaskService Q → TaskService Q
  enqueue_task t s =
      if ltb_ℤ (pos 0) t.priority
      then record s { queue = (o.push_priority t s.queue).1 }
      else record s { queue = (o.push t s.queue).1 }

  unfoldable pub create_task :
      (String → String)
      → Time
      → String
      → Option RedisReplies
      → CreateTaskRequest
      → TaskService Q
      → Result Task × TaskService Q
  unfolding requested duplicate_of count_submitted enqueue_task set_idempotency_key
  create_task hex_sha256 now uuid redis req s =
      let t = set_idempotency_key hex_sha256 (requested now uuid req) in
      elim (duplicate_of redis) [
        | some uid ↦ (err (duplicate_task uid), s)
        | none ↦
            let (e, t', db) = create t s.db in
            elim e [
              | some x ↦ (err x, record s { db = db })
              | none ↦ (ok t', enqueue_task t' (count_submitted now redis (record s { db = db })))
            ]
      ]

  unfoldable pub get_task : String → TaskService Q → Result Task × TaskService Q
  get_task uid s = let (r, db) = get_by_uid uid s.db in (r, record s { db = db })

  unfoldable pub list_tasks : String → ℤ → ℤ → TaskService Q → Result TaskListResult × TaskService Q
  unfolding positive_or
  list_tasks status page size s =
      let p = positive_or page (pos 1) in
      let n = positive_or size (pos 10) in
      let (r, db) = list status p n s.db in
      (
        elim r [
          | err e ↦ err e
          | ok (rows, total) ↦ ok (record { tasks = rows; total = total; page = p; size = n })
        ],
        record s { db = db },
      )

  -- `Publish`, which the scheduler listens to.
  unfoldable pub publish_cancel :
      String → Option RedisReplies → TaskService Q → Option Failure × TaskService Q
  publish_cancel uid none s = (none, s)
  publish_cancel uid (some redis) s = elim redis.publish [
    | some e ↦ (some (wrapped "publish cancel event" e), s)
    | none ↦ (none, record s { published = uid ∷ s.published })
  ]

  -- CancelTask for the task that was read.
  unfoldable pub cancel_read :
      Time → Option RedisReplies → String → Task → TaskService Q → Option Failure × TaskService Q
  cancel_read now redis uid t s =
      let (e, t') = transition_to now canceled t in
      let (e', _, db) = update now t' s.db in
      let s' = record s { db = db } in
      if is_terminal t.status then (some already_terminal, s) else elim e [
        | some x ↦ (some x, s)
        | none ↦ elim e' [ some x ↦ (some x, s') | none ↦ publish_cancel uid redis s' ]
      ]

  unfoldable pub cancel_task :
      Time → Option RedisReplies → String → TaskService Q → Option Failure × TaskService Q
  cancel_task now redis uid s =
      let (r, db) = get_by_uid uid s.db in
      let s' = record s { db = db } in
      elim r [ err e ↦ (some e, s') | ok t ↦ cancel_read now redis uid t s' ]

  unfoldable pub rerun_task :
      (String → String)
      → Time
      → String
      → Option RedisReplies
      → String
      → TaskService Q
      → Result Task × TaskService Q
  unfolding create_task
  rerun_task hex_sha256 now uuid redis uid s =
      let (r, db) = get_by_uid uid s.db in
      let s' = record s { db = db } in
      elim r [
        | err e ↦ (err e, s')
        | ok t ↦
            create_task hex_sha256 now uuid redis
              (record {
                name = t.name;
                command = t.command;
                workdir = t.workdir;
                env = some t.env;
                cpu_limit = t.cpu_limit;
                memory_limit = t.memory_limit;
                timeout_sec = t.timeout_sec;
                priority = t.priority;
                node_selector = some t.node_selector;
              })
              s'
      ]
