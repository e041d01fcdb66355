-- ===== src/Examples/Servers.antt =====
-- A start of cmd/server/main.go with the settings of configs/config.yaml, where etcd is reached.
use mini_bk.Prelude.{ℕ, List, [], ◌∷◌, none, true}
use mini_bk.Prelude.Int.{pos}
use mini_bk.Model.Errors.{ok}
use mini_bk.Config.{Config, default_config, read}
use mini_bk.Queue.InMem.{InMemQueue, new_in_mem_queue}
use mini_bk.Scheduler.Start.{TickRound, ticked}
use mini_bk.Server.{Surroundings, Server, assembled}
use mini_bk.Examples.{table, manager}

-- With the user, the password and the name of the database.
abbrev settings : Config
settings = record default_config {
  database = record default_config.database {
    user = "mini-bk";
    password = "mini-bk";
    db_name = "mini-bk";
  };
}

abbrev reached : Surroundings ℕ ℕ
reached = record {
  env = λ name. "";
  file = λ path. read;
  unmarshal = λ defaults. ok settings;
  opened = none;
  pinged = none;
  tasks = table;
  nodes = manager.db;
  redis_ping = none;
  etcd_client = ok 0;
  etcd_get = none;
  lease = ok (pos 17);
  session = none;
  cpus = pos 8;
  uuid = "0123456789";
}

abbrev built : Server ℕ InMemQueue ℕ
built = assembled new_in_mem_queue new_in_mem_queue settings reached

abbrev one_tick : List (TickRound InMemQueue)
one_tick = record { leads = true; event = ticked (pos 10) [] } ∷ []
