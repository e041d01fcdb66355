-- ===== src/Examples.antt =====
-- Data for the examples of the modules below, with the scheduler's parameters instantiated.
mod Lifecycle
mod Queueing
mod Registry
mod Delays
mod Reports
mod Ticks
mod Cancels
mod Starts
mod Pools
mod Events
mod Wires
mod Sounds
mod Memory
mod Stocked
mod Answers
mod Claims
mod Logs
mod Servers
mod Hosts
mod Routings
use mini_bk.Prelude.{ℕ, String, List, [], ◌∷◌, Option, none, some, Bool, true, false, ◌*◌, ◌/◌, ltb}
use mini_bk.Prelude.Int.{ℤ, pos, pos_part}
use mini_bk.Model.Errors.{created, pending, running, canceled, Result, ok, external}
use mini_bk.Model.Task.{Task}
use mini_bk.Model.Node.{Node, online}
use mini_bk.Store.TaskTable.{TaskDb}
use mini_bk.Nodes.Table.{NodeDb, Usage}
use mini_bk.Nodes.Manager.{NodeManager, HeartbeatRequest}
use mini_bk.Executor.Outcome.{TaskResult}
use mini_bk.Queue.InMem.{InMemQueue}
use mini_bk.Scheduler.State.{Scheduler, Floats, ClaimStore}

abbrev pub task_a : Task
task_a = record {
  id = pos 0;
  task_uid = "a";
  name = "first";
  command = "true";
  workdir = "/tmp";
  env = [];
  cpu_limit = pos 0;
  memory_limit = pos 0;
  timeout_sec = pos 300;
  priority = pos 0;
  max_retries = pos 3;
  retry_count = pos 0;
  retry_interval_sec = pos 1;
  idempotency_key = "";
  node_selector = [];
  assigned_node_id = "";
  status = created;
  exit_code = none;
  stdout = "";
  stderr = "";
  error_message = "";
  pid = none;
  started_at = none;
  finished_at = none;
  created_at = pos 5;
  updated_at = pos 5;
}

abbrev pub task_b : Task
task_b = record {
  id = pos 0;
  task_uid = "b";
  name = "second";
  command = "false";
  workdir = "/tmp";
  env = [];
  cpu_limit = pos 2;
  memory_limit = pos 64;
  timeout_sec = pos 300;
  priority = pos 3;
  max_retries = pos 3;
  retry_count = pos 0;
  retry_interval_sec = pos 1;
  idempotency_key = "";
  node_selector = [];
  assigned_node_id = "";
  status = created;
  exit_code = none;
  stdout = "";
  stderr = "";
  error_message = "";
  pid = none;
  started_at = none;
  finished_at = none;
  created_at = pos 6;
  updated_at = pos 6;
}

-- Usages are percents.
abbrev pub percents : Floats ℕ
percents = record { less = ltb; used_of = λ total pct. pos (pos_part total * pct / 100) }

-- Whoever asks gets the task.
abbrev pub granting : ClaimStore ℕ
granting = record { claim = λ uid id state. (ok true, state) }

abbrev pub table : TaskDb
table = record {
  rows =
      record task_a { status = canceled }
      ∷ record task_b { status = running; max_retries = pos 0 }
      ∷ [];
  next_id = pos 3;
  answers = [];
}

abbrev pub node_n : Node ℕ
node_n = record {
  id = pos 1;
  node_id = "n";
  hostname = "host";
  ip = "10.0.0.1";
  version = "v1";
  status = online;
  total_cpu = pos 4;
  total_memory_mb = pos 1024;
  total_disk_mb = pos 10;
  cpu_usage_pct = 20;
  memory_used_mb = pos 0;
  disk_used_mb = pos 0;
  load_avg_1m = 0;
  running_tasks = pos 0;
  labels = "zone=a" ∷ [];
  last_heartbeat_at = some (pos 1);
  registered_at = pos 1;
  created_at = pos 1;
  updated_at = pos 1;
}

abbrev pub manager : NodeManager ℕ
manager = record {
  db = record { rows = node_n ∷ []; next_id = pos 2; answers = [] };
  online_nodes = ("n", node_n) ∷ [];
  watchers = [];
  offline_after = pos 30;
}

abbrev pub beat_of_n : HeartbeatRequest ℕ
beat_of_n = record { node_id = "n"; version = "v1"; resources = none }

abbrev pub queue_ab : InMemQueue
queue_ab = record { items = task_a ∷ []; pq = task_b ∷ []; closed = false; delayed = [] }

abbrev pub scheduler : Scheduler ℕ InMemQueue ℕ
scheduler = record {
  db = table;
  queue = queue_ab;
  node_mgr = some manager;
  max_concurrent = pos 5;
  total_cpu = pos 8;
  total_mem_mb = pos 4096;
  has_redis = true;
  stats = [];
  cancel_funcs = [];
  contexts = 0;
  canceled = [];
  executions = [];
  node_tasks = [];
  etcd = some 0;
  scheduler_id = "s";
}

abbrev pub broken_run : TaskResult
broken_run = record {
  exit_code = pos 1;
  stdout = "out";
  stderr = "no";
  timed_out = false;
  error = some (external "exit status 1");
}

abbrev pub clean_run : TaskResult
clean_run = record {
  exit_code = pos 0;
  stdout = "out";
  stderr = "";
  timed_out = false;
  error = none;
}
