-- ===== src/Nodes/Manager.antt =====
-- internal/nodemanager/manager.go. `onlineNodes` and `watchers` are maps, listed in the order in
-- which a `range` visits them; an operation that holds `mu` is one step. etcd is not in the repository: its
-- replies are arguments, and `none` stands for a manager without an etcd client.
use mini_bk.Prelude.{String, List, [], ◌∷◌, Option, none, some, Bool, false, if◌then◌else◌, ◌&&◌}
use mini_bk.Prelude.Int.{ℤ, pos, ltb_ℤ, ◌-ℤ◌}
use mini_bk.Prelude.Maps.{lookup, insert, remove}
use mini_bk.Model.Errors.{Failure, wrapped, Result, ok, err}
use mini_bk.Model.Task.{Time, EnvMap}
use mini_bk.Model.Node.{Node, NodeStatus, online, offline, drain, new_node, is_schedulable}
use mini_bk.Nodes.Labels.{selector_matches}
use mini_bk.Nodes.Table.{NodeDb, Usage, create_node, update_node, get_by_node_id, update_heartbeat}

pub record NodeManager (F : Type 0) : Type 0 where
  pub db : NodeDb F
  pub online_nodes : List (String × Node F)
  pub watchers : List (String × ℤ)
  pub offline_after : ℤ

-- What etcd answers to Grant, Put and KeepAliveOnce.
pub record EtcdReplies : Type 0 where
  pub grant : Result ℤ
  pub put : Option Failure
  pub keep_alive : Option Failure

pub record RegisterRequest : Type 0 where
  pub hostname : String
  pub ip : String
  pub version : String
  pub total_cpu : ℤ
  pub total_memory_mb : ℤ
  pub total_disk_mb : ℤ
  pub labels : List String

pub record HeartbeatRequest (F : Type 0) : Type 0 where
  pub node_id : String
  pub version : String
  pub resources : Option (Usage F)

module _ {F : Type 0} where
  unfoldable pub new_node_manager : NodeDb F → NodeManager F
  new_node_manager db = record {
    db = db;
    online_nodes = [];
    watchers = [];
    offline_after = pos 30_000_000_000;
  }

  unfoldable pub cached : Node F → NodeManager F → NodeManager F
  cached n m = record m { online_nodes = insert n.node_id n m.online_nodes }

  -- The `etcdClient != nil` block of Register: the lease, then the key under it.
  unfoldable pub leased :
      Option EtcdReplies → Node F → NodeManager F → Option Failure × NodeManager F
  leased none n m = (none, m)
  leased (some etcd) n m = elim etcd.grant [
    | err e ↦ (some (wrapped "etcd lease grant" e), m)
    | ok lease ↦ elim etcd.put [
      | some e ↦ (some (wrapped "etcd put" e), m)
      | none ↦ (none, record m { watchers = insert n.node_id lease m.watchers })
    ]
  ]

  unfoldable pub enter : Option EtcdReplies → Node F → NodeManager F → Result String × NodeManager F
  unfolding leased cached
  enter etcd n m =
      let (e, m') = leased etcd n m in
      elim e [ some e ↦ (err e, m') | none ↦ (ok n.node_id, cached n m') ]

  -- The new node id of the response, or the error.
  unfoldable pub register :
      Option EtcdReplies
      → F
      → Time
      → String
      → RegisterRequest
      → NodeManager F
      → Result String × NodeManager F
  unfolding enter
  register etcd float_zero now uuid req m =
      let n =
        new_node float_zero now uuid req.hostname req.ip req.version req.total_cpu
          req.total_memory_mb req.total_disk_mb req.labels in
      let (e, n', db) = create_node n m.db in
      let m' = record m { db = db } in elim e [ some e ↦ (err e, m') | none ↦ enter etcd n' m' ]

  -- A request with no resources writes zeros.
  unfoldable pub usage_or_zero : F → Option (Usage F) → Usage F
  usage_or_zero z none = record {
    cpu_usage = z;
    memory_used = pos 0;
    disk_used = pos 0;
    load_avg = z;
    running = pos 0;
  }
  usage_or_zero z (some u) = u

  unfoldable pub persist :
      F → Time → HeartbeatRequest F → NodeManager F → Option Failure × NodeManager F
  unfolding usage_or_zero
  persist z now req m =
      let (e, db) = update_heartbeat now req.node_id (usage_or_zero z req.resources) m.db in
      (e, record m { db = db })

  unfoldable pub refreshed : Time → HeartbeatRequest F → Option (Usage F) → Node F → Node F
  refreshed now req none n = record n {
    version = req.version;
    last_heartbeat_at = some now;
    status = online;
  }
  refreshed now req (some u) n = record n {
    version = req.version;
    cpu_usage_pct = u.cpu_usage;
    memory_used_mb = u.memory_used;
    disk_used_mb = u.disk_used;
    load_avg_1m = u.load_avg;
    running_tasks = u.running;
    last_heartbeat_at = some now;
    status = online;
  }

  unfoldable pub renew :
      F → Time → HeartbeatRequest F → EtcdReplies → NodeManager F → Option Failure × NodeManager F
  unfolding persist
  renew z now req etcd m = elim etcd.keep_alive [ none ↦ (none, m) | some _ ↦ persist z now req m ]

  -- The lease is granted again if the manager has none for the node.
  unfoldable pub keep_lease :
      F
      → Time
      → HeartbeatRequest F
      → Option EtcdReplies
      → NodeManager F
      → Option Failure × NodeManager F
  unfolding persist renew
  keep_lease z now req none m = persist z now req m
  keep_lease z now req (some etcd) m = elim (lookup req.node_id m.watchers) [
    | some lease ↦ renew z now req etcd m
    | none ↦ elim etcd.grant [
      | err e ↦ (some (wrapped "etcd lease re-grant" e), m)
      | ok lease ↦
          renew z now req etcd (record m { watchers = insert req.node_id lease m.watchers })
    ]
  ]

  unfoldable pub recover :
      F → Time → HeartbeatRequest F → NodeManager F → Option Failure × NodeManager F
  unfolding persist
  recover z now req m =
      let (r, db) = get_by_node_id req.node_id m.db in
      let m' = record m { db = db } in
      elim r [
        | err e ↦ (some e, m')
        | ok n ↦
            persist z now req (record m' { online_nodes = insert req.node_id n m.online_nodes })
      ]

  unfoldable pub heartbeat :
      F
      → Time
      → Option EtcdReplies
      → HeartbeatRequest F
      → NodeManager F
      → Option Failure × NodeManager F
  unfolding refreshed keep_lease recover
  heartbeat z now etcd req m = elim (lookup req.node_id m.online_nodes) [
    | some n ↦ keep_lease z now req etcd (record m {
      online_nodes = insert req.node_id (refreshed now req req.resources n) m.online_nodes;
    })
    | none ↦ recover z now req m
  ]

  -- The errors of the store are logged only.
  unfoldable pub mark_offline : Time → String → NodeManager F → NodeManager F
  mark_offline now id m = elim (lookup id m.online_nodes) [
    | some n ↦
        let (_, _, db) = update_node now (record n { status = offline }) m.db in
        record m {
          db = db;
          online_nodes = remove id m.online_nodes;
          watchers = remove id m.watchers;
        }
    | none ↦
        let (r, db) = get_by_node_id id m.db in
        elim r [
          | err _ ↦ record m { db = db }
          | ok n ↦
              let (_, _, db') = update_node now (record n { status = offline }) db in
              record m { db = db' }
        ]
  ]

  unfoldable pub is_stale : Time → ℤ → Node F → Bool
  is_stale now after n = elim n.last_heartbeat_at [
    | none ↦ false
    | some beat ↦ ltb_ℤ after (now -ℤ beat)
  ]

  -- The `range` over the cache, which deletes from it as it goes.
  unfoldable pub sweep : Time → List (String × Node F) → NodeManager F → NodeManager F
  unfolding is_stale
  sweep now [] m = m
  sweep now ((id, n) ∷ rest) m = sweep now rest (
      if is_stale now m.offline_after n
      then (let (_, _, db) = update_node now (record n { status = offline }) m.db in
          record m { db = db; online_nodes = remove id m.online_nodes })
      else m)

  unfoldable pub check_offline_nodes : Time → NodeManager F → NodeManager F
  unfolding sweep
  check_offline_nodes now m = sweep now m.online_nodes m

  -- FindByLabels over the entries in the order of the `range`.
  unfoldable pub matching : EnvMap → List (String × Node F) → List (Node F)
  unfolding selector_matches
  matching sel [] = []
  matching sel ((id, n) ∷ rest) =
      if is_schedulable n && selector_matches sel n.labels
      then n ∷ matching sel rest
      else matching sel rest

  unfoldable pub find_by_labels : EnvMap → NodeManager F → List (Node F)
  unfolding matching
  find_by_labels sel m = matching sel m.online_nodes

  unfoldable pub schedulable_nodes : List (String × Node F) → List (Node F)
  schedulable_nodes [] = []
  schedulable_nodes ((id, n) ∷ rest) =
      if is_schedulable n then n ∷ schedulable_nodes rest else schedulable_nodes rest

  unfoldable pub cached_online_nodes : NodeManager F → List (Node F)
  unfolding schedulable_nodes
  cached_online_nodes m = schedulable_nodes m.online_nodes

  -- The common body of DrainNode and UncordonNode.
  unfoldable pub set_status :
      Time → NodeStatus → String → NodeManager F → Option Failure × NodeManager F
  set_status now status id m = elim (lookup id m.online_nodes) [
    | some n ↦
        let (e, n', db) = update_node now (record n { status = status }) m.db in
        (e, record m { db = db; online_nodes = insert id n' m.online_nodes })
    | none ↦
        let (r, db) = get_by_node_id id m.db in
        elim r [
          | err e ↦ (some e, record m { db = db })
          | ok n ↦
              let (e, _, db') = update_node now (record n { status = status }) db in
              (e, record m { db = db' })
        ]
  ]

  unfoldable pub drain_node : Time → String → NodeManager F → Option Failure × NodeManager F
  unfolding set_status
  drain_node now id m = set_status now drain id m

  unfoldable pub uncordon_node : Time → String → NodeManager F → Option Failure × NodeManager F
  unfolding set_status
  uncordon_node now id m = set_status now online id m
