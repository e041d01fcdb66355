-- ===== src/Config.antt =====
-- internal/config/config.go. viper, which reads the file, is not in the repository: how its two calls end is an
-- argument, and so is the environment, a text for every name.
use Prim.Native.String.{◌++◌ as ◌<>◌}
use mini_bk.Prelude.{String, List, [], ◌∷◌, Bool, true, if◌then◌else◌, str_eq}
use mini_bk.Prelude.Decimal.{atoi, is_int, decimal}
use mini_bk.Prelude.Int.{ℤ, pos}
use mini_bk.Model.Errors.{Failure, wrapped, Result, ok, err}

pub record EtcdConfig : Type 0 where
  pub endpoints : List String
  pub dial_timeout_sec : ℤ

pub record RedisConfig : Type 0 where
  pub addr : String
  pub password : String
  pub db : ℤ

pub record RetryConfig : Type 0 where
  pub max_attempts : ℤ
  pub initial_interval_sec : ℤ
  pub max_interval_sec : ℤ
  pub multiplier : ℤ

pub record RateLimitConfig : Type 0 where
  pub enabled : Bool
  pub requests_per_minute : ℤ

pub record ServerConfig : Type 0 where
  pub port : ℤ
  pub host : String

pub record DatabaseConfig : Type 0 where
  pub host : String
  pub port : ℤ
  pub user : String
  pub password : String
  pub db_name : String
  pub ssl_mode : String

pub record SchedulerConfig : Type 0 where
  pub tick_interval_ms : ℤ
  pub max_concurrent_tasks : ℤ

pub record ExecutorConfig : Type 0 where
  pub default_timeout_sec : ℤ
  pub default_workdir : String

pub record GrpcConfig : Type 0 where
  pub port : ℤ

pub record AgentConfig : Type 0 where
  pub heartbeat_interval_sec : ℤ
  pub heartbeat_timeout_sec : ℤ

pub record Config : Type 0 where
  pub server : ServerConfig
  pub database : DatabaseConfig
  pub redis : RedisConfig
  pub etcd : EtcdConfig
  pub scheduler : SchedulerConfig
  pub executor : ExecutorConfig
  pub retry : RetryConfig
  pub rate_limit : RateLimitConfig
  pub grpc : GrpcConfig
  pub agent : AgentConfig

-- `Addr` and `DSN`.
unfoldable pub address : ServerConfig → String
address s = s.host <> (":" <> decimal s.port)

unfoldable pub dsn : DatabaseConfig → String
dsn d =
    "postgres://"
    <> (d.user
        <> (":"
            <> (d.password
                <> ("@"
                    <> (d.host
                        <> (":"
                            <> (decimal d.port
                                <> ("/" <> (d.db_name <> ("?sslmode=" <> d.ssl_mode))))))))))

-- What a variable of the environment makes of a text and of an int: an empty one changes nothing, nor
-- does a text that is no int.
unfoldable pub text_or : String → String → String
text_or given default = if str_eq given "" then default else given

unfoldable pub int_or : String → ℤ → ℤ
int_or given default =
    if str_eq given "" then default else if is_int given then atoi given else default

-- The block of manual overrides.
unfoldable pub overridden : (String → String) → Config → Config
unfolding text_or int_or
overridden env c = record c {
  server = record c.server { port = int_or (env "MINIBK_SERVER_PORT") c.server.port };
  database = record c.database {
    host = text_or (env "MINIBK_DATABASE_HOST") c.database.host;
    port = int_or (env "MINIBK_DATABASE_PORT") c.database.port;
    user = text_or (env "MINIBK_DATABASE_USER") c.database.user;
    password = text_or (env "MINIBK_DATABASE_PASSWORD") c.database.password;
    db_name = text_or (env "MINIBK_DATABASE_DBNAME") c.database.db_name;
    ssl_mode = text_or (env "MINIBK_DATABASE_SSLMODE") c.database.ssl_mode;
  };
  scheduler = record c.scheduler {
    tick_interval_ms =
        int_or (env "MINIBK_SCHEDULER_TICK_INTERVAL_MS") c.scheduler.tick_interval_ms;
    max_concurrent_tasks =
        int_or (env "MINIBK_SCHEDULER_MAX_CONCURRENT_TASKS") c.scheduler.max_concurrent_tasks;
  };
  executor = record c.executor {
    default_timeout_sec =
        int_or (env "MINIBK_EXECUTOR_DEFAULT_TIMEOUT_SEC") c.executor.default_timeout_sec;
    default_workdir = text_or (env "MINIBK_EXECUTOR_DEFAULT_WORKDIR") c.executor.default_workdir;
  };
}

-- What Load tells viper to use for a key that is set nowhere; other keys are zero.
unfoldable pub default_config : Config
default_config = record {
  server = record { port = pos 8080; host = "0.0.0.0" };
  database = record {
    host = "localhost";
    port = pos 5432;
    user = "";
    password = "";
    db_name = "";
    ssl_mode = "disable";
  };
  redis = record { addr = "localhost:6379"; password = ""; db = pos 0 };
  etcd = record { endpoints = "localhost:2379" ∷ []; dial_timeout_sec = pos 5 };
  scheduler = record { tick_interval_ms = pos 500; max_concurrent_tasks = pos 10 };
  executor = record { default_timeout_sec = pos 300; default_workdir = "/tmp" };
  retry = record {
    max_attempts = pos 3;
    initial_interval_sec = pos 1;
    max_interval_sec = pos 60;
    multiplier = pos 2;
  };
  rate_limit = record { enabled = true; requests_per_minute = pos 100 };
  grpc = record { port = pos 50_051 };
  agent = record { heartbeat_interval_sec = pos 10; heartbeat_timeout_sec = pos 30 };
}

-- How `ReadInConfig` ends; a file that is not found will do.
pub data ReadResult : Type 0 where
  read file_not_found : ReadResult
  read_failed : Failure → ReadResult

abbrev unmarshaled : Result Config → (String → String) → Result Config
unmarshaled (err e) env = err (wrapped "unmarshal config" e)
unmarshaled (ok c) env = ok (overridden env c)

-- `config` is what `Unmarshal` makes of the file, the environment and the defaults.
unfoldable pub load_config : ReadResult → Result Config → (String → String) → Result Config
load_config (read_failed e) config env = err (wrapped "read config" e)
load_config read config env = unmarshaled config env
load_config file_not_found config env = unmarshaled config env
