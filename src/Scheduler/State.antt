-- ===== src/Scheduler/State.antt =====
-- The state of `Scheduler` (internal/scheduler/scheduler.go), its parameters, and the queues of the
-- nodes. The ints that the scheduler adds up are unbounded here.
use mini_bk.Prelude.{
  ℕ, suc, String, List, [], ◌∷◌, ◌++◌, Option, none, some, Bool, if◌then◌else◌, length, ltb,
}
use mini_bk.Prelude.Int.{ℤ}
use mini_bk.Prelude.Maps.{lookup, insert, remove}
use mini_bk.Model.Errors.{Result}
use mini_bk.Model.Task.{Task, Time}
use mini_bk.Nodes.Manager.{NodeManager}
use mini_bk.Store.TaskTable.{TaskDb}

-- The uses of `float64`: `<`, and `int(float64(total)*pct/100.0)`.
pub record Floats (F : Type 0) : Type 0 where
  pub less : F → F → Bool
  pub used_of : ℤ → F → ℤ

-- The etcd transaction of ClaimTask over the claim keys, `E` being the state of etcd: the arguments
-- are the task and the scheduler that claims it.
pub record ClaimStore (E : Type 0) : Type 0 where
  pub claim : String → String → E → Result Bool × E

-- A goroutine that runs a task on this machine, with the context it was given.
pub record Execution : Type 0 where
  pub context : ℕ
  pub task : Task

-- `HIncrBy("stats:daily:<day of the time>", field, 1)`
pub record StatEvent : Type 0 where
  pub at : Time
  pub field : String

-- `etcd` is `none` for a nil client. `contexts` counts the task contexts made so far, and a
-- cancel function is the number of its context; `canceled` lists those that were called.
pub record Scheduler (F Q E : Type 0) : Type 0 where
  pub db : TaskDb
  pub queue : Q
  pub node_mgr : Option (NodeManager F)
  pub max_concurrent : ℤ
  pub total_cpu : ℤ
  pub total_mem_mb : ℤ
  pub has_redis : Bool
  pub stats : List StatEvent
  pub cancel_funcs : List (String × ℕ)
  pub contexts : ℕ
  pub canceled : List ℕ
  pub executions : List Execution
  pub node_tasks : List (String × List Task)
  pub etcd : Option E
  pub scheduler_id : String

module _ {F Q E : Type 0} where
  unfoldable pub count_stat : Time → String → Scheduler F Q E → Scheduler F Q E
  count_stat now field s =
      if s.has_redis then record s { stats = record { at = now; field = field } ∷ s.stats } else s

  -- A new context for the task, with its cancel function under the task's UID.
  unfoldable pub add_context : Task → Scheduler F Q E → Scheduler F Q E
  add_context t s = record s {
    contexts = suc s.contexts;
    cancel_funcs = insert t.task_uid s.contexts s.cancel_funcs;
  }

  -- A local execution under the context made last.
  unfoldable pub launch : ℕ → Task → Scheduler F Q E → Scheduler F Q E
  launch ctx t s = record s { executions = s.executions ++ record { context = ctx; task = t } ∷ [] }

  unfoldable pub drop_cancel : String → Scheduler F Q E → Scheduler F Q E
  drop_cancel uid s = record s { cancel_funcs = remove uid s.cancel_funcs }

  -- The body of the Pub/Sub listener for one message.
  unfoldable pub cancel_message : String → Scheduler F Q E → Scheduler F Q E
  cancel_message uid s = elim (lookup uid s.cancel_funcs) [
    | none ↦ s
    | some ctx ↦ record s { canceled = ctx ∷ s.canceled; cancel_funcs = remove uid s.cancel_funcs }
  ]

  -- getOrCreateNodeQueue: the tasks in the node's channel.
  unfoldable pub node_queue : String → Scheduler F Q E → List Task
  node_queue id s = elim (lookup id s.node_tasks) [ none ↦ [] | some ch ↦ ch ]

  -- The non-blocking send to the node's channel, whose buffer takes 10 tasks: `none` if it is full.
  unfoldable pub send_to_node : String → Task → Scheduler F Q E → Option (Scheduler F Q E)
  unfolding node_queue
  send_to_node id t s =
      if ltb (length (node_queue id s)) 10
      then some (record s { node_tasks = insert id (node_queue id s ++ t ∷ []) s.node_tasks })
      else none

  -- The node's channel is made if it is not there, also where the send is refused.
  unfoldable pub open_node_queue : String → Scheduler F Q E → Scheduler F Q E
  unfolding node_queue
  open_node_queue id s = record s { node_tasks = insert id (node_queue id s) s.node_tasks }

  unfoldable pub receive : String → List Task → Scheduler F Q E → Option Task × Scheduler F Q E
  receive id [] s = (none, s)
  receive id (t ∷ rest) s = (some t, record s { node_tasks = insert id rest s.node_tasks })

  unfoldable pub get_next_task_for_node : String → Scheduler F Q E → Option Task × Scheduler F Q E
  unfolding receive
  get_next_task_for_node id s = elim (lookup id s.node_tasks) [
    | none ↦ (none, s)
    | some ch ↦ receive id ch s
  ]

  unfoldable pub get_total_resources : Scheduler F Q E → ℤ × ℤ
  get_total_resources s = (s.total_cpu, s.total_mem_mb)
