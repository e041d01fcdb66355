-- ===== src/Server.antt =====
-- cmd/server/main.go and the connections of internal/store/postgres.go, redis.go and etcd.go: what the
-- server is made of, by its settings and by what it reaches. What PostgreSQL, Redis and etcd reply is
-- an argument.
pub mod Starts
use Prim.Native.String.{◌++◌ as ◌<>◌}
use mini_bk.Prelude.{
  String, List, [], ◌∷◌, Option, none, some, Bool, true, false, if◌then◌else◌, str_eq, ◌&&◌, ◌*◌,
}
use mini_bk.Prelude.Int.{ℤ, pos, ltb_ℤ, pos_part}
use mini_bk.Model.Errors.{Failure, external, wrapped, Result, ok, err}
use mini_bk.Store.TaskTable.{TaskDb}
use mini_bk.Nodes.Table.{NodeDb}
use mini_bk.Nodes.Manager.{new_node_manager}
use mini_bk.Config.{Config, ReadResult, default_config, load_config, address}
use mini_bk.Discovery.{ServiceDiscovery, new_service_discovery}
use mini_bk.Election.{LeaderElection, new_leader_election}
use mini_bk.Executor.Run.{Executor, new_executor}
use mini_bk.Scheduler.Backoff.{of_bits, mul_bits, to_bits}
use mini_bk.Scheduler.Start.{Runner, new_scheduler, set_node_manager}

-- NewPostgres: the error of `sql.Open`, then that of the ping.
unfoldable pub new_postgres : Option Failure → Option Failure → Option Failure
new_postgres (some e) ping = some (wrapped "open postgres" e)
new_postgres none (some e) = some (wrapped "ping postgres" e)
new_postgres none none = none

-- NewRedis: the error of the ping.
unfoldable pub new_redis : Option Failure → Option Failure
new_redis none = none
new_redis (some e) = some (wrapped "ping redis" e)

-- NewEtcdStore: the error of the client, then that of a first Get; `E` is what etcd holds.
unfoldable pub new_etcd_store : {E : Type 0} → Result E → Option Failure → Result E
new_etcd_store (err e) get = err (wrapped "connect etcd" e)
new_etcd_store (ok s) (some e) = err (wrapped "ping etcd" e)
new_etcd_store (ok s) none = ok s

-- What the server meets when it starts: `unmarshal` is what viper makes of the defaults, with the file and
-- the environment; of Redis the reply to the ping, of etcd also those to the lease
-- and to the session of the election.
pub record Surroundings (F E : Type 0) : Type 0 where
  pub env : String → String
  pub file : String → ReadResult
  pub unmarshal : Config → Result Config
  pub opened : Option Failure
  pub pinged : Option Failure
  pub tasks : TaskDb
  pub nodes : NodeDb F
  pub redis_ping : Option Failure
  pub etcd_client : Result E
  pub etcd_get : Option Failure
  pub lease : Result ℤ
  pub session : Option Failure
  pub cpus : ℤ
  pub uuid : String

-- The parts of the server; a lease of 0 is none.
pub record Server (F Q E : Type 0) : Type 0 where
  pub runner : Runner F Q E
  pub executor : Executor
  pub logs : Bool
  pub limits : Bool
  pub per_minute : ℤ
  pub watches_nodes : Bool
  pub discovery : Option ServiceDiscovery
  pub lease_id : ℤ
  pub http_addr : String
  pub grpc_addr : String

unfoldable pub config_path : (String → String) → String
config_path env = if str_eq (env "CONFIG_PATH") "" then "configs/config.yaml" else env "CONFIG_PATH"

abbrev succeeded : Option Failure → Bool
succeeded none = true
succeeded (some e) = false

abbrev value_if : {A : Type 0} → Result A → Option A
value_if (ok a) = some a
value_if (err e) = none

-- Redis is used if an address is set and the ping succeeds.
unfoldable pub redis_client : String → Option Failure → Bool
unfolding new_redis
redis_client addr ping = if str_eq addr "" then false else succeeded (new_redis ping)

unfoldable pub etcd_of : {E : Type 0} → List String → Result E → Option Failure → Option E
unfolding new_etcd_store
etcd_of [] client get = none
etcd_of (endpoint ∷ rest) client get = value_if (new_etcd_store client get)

-- Without etcd there is no election, nor where its session fails.
unfoldable pub election_of : {E : Type 0} → Option E → Option Failure → Option LeaderElection
election_of none session = none
election_of (some e) session = value_if (new_leader_election "/mini-bk/election" session)

unfoldable pub lease_of : {E : Type 0} → Option E → Result ℤ → ℤ
lease_of (some e) (ok id) = id
lease_of _ _ = pos 0

unfoldable pub discovery_of : {E : Type 0} → Option E → Option ServiceDiscovery
discovery_of none = none
discovery_of (some e) = some new_service_discovery

abbrev is_some : {E : Type 0} → Option E → Bool
is_some none = false
is_some (some e) = true

module _ {F Q E : Type 0} (redis_queue in_mem_queue : Q) where
  -- The parts, once PostgreSQL is reached.
  unfoldable pub assembled : Config → Surroundings F E → Server F Q E
  unfolding redis_client etcd_of election_of lease_of discovery_of
  assembled cfg w =
      let redis = redis_client cfg.redis.addr w.redis_ping in
      let etcd = etcd_of cfg.etcd.endpoints w.etcd_client w.etcd_get in
      let q = if redis then redis_queue else in_mem_queue in
      record {
        runner = set_node_manager (new_node_manager w.nodes) (
            new_scheduler w.cpus w.uuid w.tasks
              (of_bits (mul_bits (to_bits cfg.scheduler.tick_interval_ms) 1_000_000))
              cfg.scheduler.max_concurrent_tasks redis q etcd (election_of etcd w.session));
        executor = new_executor (pos_part cfg.scheduler.max_concurrent_tasks);
        logs = redis;
        limits = cfg.rate_limit.enabled;
        per_minute = cfg.rate_limit.requests_per_minute;
        watches_nodes = is_some etcd;
        discovery = discovery_of etcd;
        lease_id = lease_of etcd w.lease;
        http_addr = address cfg.server;
        grpc_addr = ":50051";
      }

  -- A channel of a negative size panics.
  unfoldable pub checked : Config → Server F Q E → Result (Server F Q E)
  checked cfg s =
      if ltb_ℤ cfg.scheduler.max_concurrent_tasks (pos 0)
      then err (external "makechan: size out of range")
      else ok s

  -- Up to the start of the goroutines; an error ends the process.
  unfoldable pub start_server : Surroundings F E → Result (Server F Q E)
  unfolding assembled checked
  start_server w =
      elim (load_config (w.file (config_path w.env)) (w.unmarshal default_config) w.env) [
        | err e ↦ err e
        | ok cfg ↦ elim (new_postgres w.opened w.pinged) [
          | some e ↦ err e
          | none ↦ checked cfg (assembled cfg w)
        ]
      ]
