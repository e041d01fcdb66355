-- ===== src/Scheduler/Start.antt =====
-- Start, runTickLoop and the two listeners of internal/scheduler/scheduler.go. What a goroutine waits
-- for comes as a list of rounds in the order in which they happen; at the end of the list it still
-- waits.
pub mod Idle
pub mod Cancels
pub mod Settings
use Prim.Native.Char.{code}
use Prim.Native.String.{◌++◌ as ◌<>◌}
use mini_bk.Prelude.{
  ℕ, zero, suc, ◌+◌, ◌-◌, ◌*◌, String, List, [], ◌∷◌, Option, none, some, Bool, true, false, not,
  ◌&&◌, ◌||◌, if◌then◌else◌, ◌==◌, leb, ltb,
}
use mini_bk.Prelude.Int.{ℤ, pos, negsuc, ltb_ℤ, ◌*ℤ◌, ◌-ℤ◌}
use mini_bk.Prelude.Decimal.{scan_int}
use mini_bk.Prelude.Text.{trim_prefix, has_suffix}
use mini_bk.Model.Errors.{Failure}
use mini_bk.Model.Task.{Time}
use mini_bk.Store.TaskTable.{TaskDb}
use mini_bk.Nodes.Manager.{NodeManager}
use mini_bk.Queue.Interface.{TaskQueue}
use mini_bk.Election.{LeaderElection, campaign}
use mini_bk.Scheduler.State.{Scheduler, Floats, ClaimStore, cancel_message}
use mini_bk.Scheduler.Tick.{PopRound, tick}
use mini_bk.Scheduler.Backoff.{of_bits, mul_bits, to_bits}

-- The scheduler with the fields that only Start uses.
pub record Runner (F Q E : Type 0) : Type 0 where
  pub sched : Scheduler F Q E
  pub tick_interval : ℤ
  pub election : Option LeaderElection

-- The first characters of a text.
first_chars : ℕ → String → String
first_chars zero s = String.[]
first_chars (suc n) String.[] = String.[]
first_chars (suc n) (String.◌∷◌ c s) = String.◌∷◌ c (first_chars n s)

module _ {F Q E : Type 0} where
  -- NewScheduler for the number of CPUs and a new UUID.
  unfoldable pub new_scheduler :
      ℤ → String → TaskDb → ℤ → ℤ → Bool → Q → Option E → Option LeaderElection → Runner F Q E
  unfolding first_chars
  new_scheduler cpus uuid db interval max_concurrent has_redis q etcd election = record {
    sched = record {
      db = db;
      queue = q;
      node_mgr = none;
      max_concurrent = max_concurrent;
      total_cpu = cpus;
      total_mem_mb = pos 8192;
      has_redis = has_redis;
      stats = [];
      cancel_funcs = [];
      contexts = 0;
      canceled = [];
      executions = [];
      node_tasks = [];
      etcd = etcd;
      scheduler_id = "scheduler-" <> first_chars 8 uuid;
    };
    tick_interval = interval;
    election = election;
  }

  unfoldable pub set_node_manager : NodeManager F → Runner F Q E → Runner F Q E
  set_node_manager nm r = record r { sched = record r.sched { node_mgr = some nm } }

pub data ConfigEvent : Type 0 where
  config_put : String → String → ConfigEvent
  config_deleted : String → ConfigEvent

module _ {F Q E : Type 0} where
  -- The callback of the config watcher.
  unfoldable pub on_config : String → String → Runner F Q E → Runner F Q E
  unfolding has_suffix
  on_config key value r =
      let val = scan_int value in
      if has_suffix key "/max_concurrent_tasks"
      then (if ltb_ℤ (pos 0) val
          then record r { sched = record r.sched { max_concurrent = val } }
          else r)
      else if has_suffix key "/tick_interval_ms"
      then (if ltb_ℤ (pos 0) val
          then record r { tick_interval = of_bits (mul_bits (to_bits val) 1_000_000) }
          else r)
      else r

  -- The watcher of internal/config/watcher.go: the keys of the first load, none where it fails, and
  -- the puts of the watch after it; other events are passed over.
  unfoldable pub load_config_keys : List (String × String) → Runner F Q E → Runner F Q E
  load_config_keys [] r = r
  load_config_keys ((key, value) ∷ kvs) r = load_config_keys kvs (on_config key value r)

  unfoldable pub watch_config : List ConfigEvent → Runner F Q E → Runner F Q E
  watch_config [] r = r
  watch_config (config_put key value ∷ events) r = watch_config events (on_config key value r)
  watch_config (config_deleted key ∷ events) r = watch_config events r

  unfoldable pub watch_scheduler_config :
      Option (List (String × String)) → List ConfigEvent → Runner F Q E → Runner F Q E
  watch_scheduler_config none events r = watch_config events r
  watch_scheduler_config (some kvs) events r = watch_config events (load_config_keys kvs r)

  -- One message of the Pub/Sub channel.
  unfoldable pub on_cancel_message : String → Scheduler F Q E → Scheduler F Q E
  on_cancel_message channel s = cancel_message (trim_prefix channel "tasks:cancel:") s

-- What the `select` of the tick loop gets: the end of the context, or the ticker at a time, with the
-- rounds of the tick.
pub data TickEvent (Q : Type 0) : Type 0 where
  context_done : TickEvent Q
  ticked : Time → List (PopRound Q) → TickEvent Q

-- A round of the tick loop: whether this instance leads when it asks, and what comes then.
pub record TickRound (Q : Type 0) : Type 0 where
  pub leads : Bool
  pub event : TickEvent Q

-- A round of the election loop: the end of the context, or what etcd replies to the campaign and the
-- rounds of the tick loop that follows a campaign without error.
pub data ElectionRound (Q : Type 0) : Type 0 where
  election_stopped : ElectionRound Q
  campaigned : Option Failure → List (TickRound Q) → ElectionRound Q

-- Where a loop is at the end of its rounds: it panicked, some tick goes on, or it has left a state.
pub data LoopEnd (A : Type 0) : Type 0 where
  panicked going_on : LoopEnd A
  left : A → LoopEnd A

module _ {F Q E : Type 0} (o : TaskQueue Q) (fl : Floats F) (c : ClaimStore E) where
  -- The `for` of runTickLoop; `none` if a tick goes on after its rounds.
  unfoldable pub tick_loop : Bool → List (TickRound Q) → Scheduler F Q E → Option (Scheduler F Q E)
  tick_loop elected [] s = some s
  tick_loop elected (round ∷ rest) s = elim (elected && not round.leads) [
    | true ↦ some s
    | false ↦ elim round.event [
      | context_done ↦ some s
      | ticked now pops ↦ elim (tick o fl c pops now s) [
        | none ↦ none
        | some s' ↦ tick_loop elected rest s'
      ]
    ]
  ]

  unfoldable pub loop_end : Option (Scheduler F Q E) → LoopEnd (Scheduler F Q E)
  loop_end none = going_on
  loop_end (some s) = left s

  -- A ticker with an interval that is not positive panics.
  unfoldable pub run_tick_loop :
      ℤ → Bool → List (TickRound Q) → Scheduler F Q E → LoopEnd (Scheduler F Q E)
  unfolding tick_loop loop_end
  run_tick_loop interval elected rounds s =
      if ltb_ℤ (pos 0) interval then loop_end (tick_loop elected rounds s) else panicked

  -- The goroutine of the election.
  unfoldable pub election_loop :
      ℤ
      → List (ElectionRound Q)
      → LeaderElection
      → Scheduler F Q E
      → LoopEnd (LeaderElection × Scheduler F Q E)
  election_loop interval [] le s = left (le, s)
  election_loop interval (election_stopped ∷ rest) le s = left (le, s)
  election_loop interval (campaigned reply ticks ∷ rest) le s =
      let (e, le') = campaign reply le in
      elim e [
        | some _ ↦ election_loop interval rest le' s
        | none ↦ elim (run_tick_loop interval true ticks s) [
          | panicked ↦ panicked
          | going_on ↦ going_on
          | left s' ↦ election_loop interval rest le' s'
        ]
      ]

  -- Start with the rounds of the loop that it enters; without an election it is the tick loop.
  unfoldable pub start :
      List (TickRound Q) → List (ElectionRound Q) → Runner F Q E → LoopEnd (Runner F Q E)
  start ticks rounds r = elim r.election [
    | none ↦ elim (run_tick_loop r.tick_interval false ticks r.sched) [
      | panicked ↦ panicked
      | going_on ↦ going_on
      | left s ↦ left (record r { sched = s })
    ]
    | some le ↦ elim (election_loop r.tick_interval rounds le r.sched) [
      | panicked ↦ panicked
      | going_on ↦ going_on
      | left (le', s) ↦ left (record r { sched = s; election = some le' })
    ]
  ]
