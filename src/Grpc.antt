-- ===== src/Grpc.antt =====
-- internal/grpcserver/server.go: the handlers that agents call. What the proto messages carry is a
-- record each; a message of one Boolean is the Boolean.
pub mod Pull
use mini_bk.Prelude.{
  ℕ, ◌%◌, ◌-◌, ◌+◌, String, List, [], ◌∷◌, Option, none, some, Bool, true, false, if◌then◌else◌,
  ltb,
}
use mini_bk.Prelude.Int.{ℤ, pos, negsuc}
use mini_bk.Model.Errors.{Failure, Result}
use mini_bk.Model.Task.{Task, Time, EnvMap}
use mini_bk.Executor.Outcome.{ResultRequest, reported_result}
use mini_bk.Nodes.Manager.{
  NodeManager, EtcdReplies, RegisterRequest, HeartbeatRequest, register, heartbeat,
}
use mini_bk.Queue.Interface.{TaskQueue}
use mini_bk.Scheduler.State.{Scheduler, get_next_task_for_node}
use mini_bk.Scheduler.Finish.{handle_remote_result}

-- `int32(n)`
unfoldable pub to_int32 : ℤ → ℤ
to_int32 (pos n) =
    let b = n % 4_294_967_296 in if ltb b 2_147_483_648 then pos b else negsuc (4_294_967_295 - b)
to_int32 (negsuc n) =
    let b = n % 4_294_967_296 in if ltb b 2_147_483_648 then negsuc b else pos (4_294_967_295 - b)

pub record PullTaskResponse : Type 0 where
  pub task_uid : String
  pub name : String
  pub command : String
  pub workdir : String
  pub env : EnvMap
  pub timeout_sec : ℤ

unfoldable pub empty_response : PullTaskResponse
empty_response = record {
  task_uid = "";
  name = "";
  command = "";
  workdir = "";
  env = [];
  timeout_sec = pos 0;
}

unfoldable pub response_of : Task → PullTaskResponse
response_of t = record {
  task_uid = t.task_uid;
  name = t.name;
  command = t.command;
  workdir = t.workdir;
  env = t.env;
  timeout_sec = to_int32 t.timeout_sec;
}

unfoldable pub is_ok : Option Failure → Bool
is_ok none = true
is_ok (some _) = false

unfoldable pub pulled : Option Task → PullTaskResponse
pulled none = empty_response
pulled (some t) = response_of t

-- `scheduler` is `none` for a nil dispatcher.
pub record AgentServer (F Q E : Type 0) : Type 0 where
  pub node_mgr : NodeManager F
  pub scheduler : Option (Scheduler F Q E)

module _ {F Q E : Type 0} where
  unfoldable pub register_agent :
      Option EtcdReplies
      → F
      → Time
      → String
      → RegisterRequest
      → AgentServer F Q E
      → Result String × AgentServer F Q E
  register_agent etcd z now uuid req s =
      let (r, m) = register etcd z now uuid req s.node_mgr in (r, record s { node_mgr = m })

  unfoldable pub agent_heartbeat :
      F
      → Time
      → Option EtcdReplies
      → HeartbeatRequest F
      → AgentServer F Q E
      → Bool × Option Failure × AgentServer F Q E
  unfolding is_ok
  agent_heartbeat z now etcd req s =
      let (e, m) = heartbeat z now etcd req s.node_mgr in (is_ok e, e, record s { node_mgr = m })

  -- The two stubs, which accept whatever they get.
  unfoldable pub submit_task : AgentServer F Q E → Bool × AgentServer F Q E
  submit_task s = (true, s)

  unfoldable pub cancel_agent_task : AgentServer F Q E → Bool × AgentServer F Q E
  cancel_agent_task s = (true, s)

  unfoldable pub stream_log : AgentServer F Q E → Option Failure × AgentServer F Q E
  stream_log s = (none, s)

  unfoldable pub report_result :
      TaskQueue Q → Time → ResultRequest → AgentServer F Q E → Bool × AgentServer F Q E
  report_result o now req s = elim s.scheduler [
    | none ↦ (false, s)
    | some sched ↦ (
      true,
      record s {
        scheduler = some (handle_remote_result o now req.task_uid (reported_result req) sched);
      },
    )
  ]

  unfoldable pub pull_task : String → AgentServer F Q E → PullTaskResponse × AgentServer F Q E
  unfolding pulled
  pull_task id s = elim s.scheduler [
    | none ↦ (empty_response, s)
    | some sched ↦
        let (t, sched') = get_next_task_for_node id sched in
        (pulled t, record s { scheduler = some sched' })
  ]
