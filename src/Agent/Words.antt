-- ===== src/Agent/Words.antt =====
-- The start and the heartbeats of the agent of cmd/agent/main.go.
use Prim.Native.Char.{code}
use mini_bk.Prelude.{
  ℕ, String, List, [], ◌∷◌, Option, none, some, Bool, ◌&&◌, ◌||◌, if◌then◌else◌, ◌==◌, leb, str_eq,
}
use mini_bk.Prelude.Int.{ℤ, pos}
use mini_bk.Model.Errors.{Failure, external, Result, ok, err}
use mini_bk.Nodes.Table.{Usage}
use mini_bk.Nodes.Manager.{RegisterRequest, HeartbeatRequest}
use mini_bk.Agent.Machine.{
  Machine, detect_memory, get_memory_used, detect_disk, get_disk_used, get_load_avg,
  get_outbound_ip,
}

-- `unicode.IsSpace`.
unfoldable pub is_space : ℕ → Bool
is_space c =
    c == b' '
    || leb 9 c && leb c 13
    || c == 133
    || c == 160
    || c == 5760
    || leb 8192 c && leb c 8202
    || c == 8232
    || c == 8233
    || c == 8239
    || c == 8287
    || c == 12_288

unfoldable pub trim_left : String → String
unfolding is_space
trim_left String.[] = String.[]
trim_left (String.◌∷◌ c s) =
    let rest = trim_left s in if is_space (code c) then rest else String.◌∷◌ c s

-- A character before the trimmed rest of its text.
unfoldable pub trim_right : String → String
unfolding is_space
trim_right String.[] = String.[]
trim_right (String.◌∷◌ c s) =
    let rest = trim_right s in
    if str_eq rest "" && is_space (code c) then String.[] else String.◌∷◌ c rest

unfoldable pub trim_space : String → String
unfolding trim_left trim_right
trim_space s = trim_right (trim_left s)

-- `strings.Split(s, ",")`
abbrev pub onto_first : (String → String) → List String → List String
onto_first f [] = f "" ∷ []
onto_first f (w ∷ ws) = f w ∷ ws

unfoldable pub split_commas : String → List String
split_commas String.[] = "" ∷ []
split_commas (String.◌∷◌ c s) =
    let rest = split_commas s in
    if code c == b',' then "" ∷ rest else onto_first (λ w. String.◌∷◌ c w) rest

unfoldable pub trimmed_words : List String → List String
unfolding trim_space
trimmed_words [] = []
trimmed_words (w ∷ ws) =
    let rest = trimmed_words ws in if str_eq (trim_space w) "" then rest else trim_space w ∷ rest

-- The flag `labels`.
unfoldable pub label_list : String → List String
unfolding split_commas trimmed_words
label_list s = if str_eq s "" then [] else trimmed_words (split_commas s)

abbrev name_or_unknown : Result String → String
name_or_unknown (err e) = "unknown"
name_or_unknown (ok name) = name

pub record NodeResource (F : Type 0) : Type 0 where
  pub cpu_usage_percent : F
  pub memory_used_mb : ℤ
  pub memory_total_mb : ℤ
  pub disk_used_mb : ℤ
  pub disk_total_mb : ℤ
  pub load_avg_1m : F
  pub running_tasks : ℤ

pub record RegisterResponse : Type 0 where
  pub accepted : Bool
  pub node_id : String
  pub message : String

module _ {F : Type 0} (m : Machine F) where
  unfoldable pub register_request : String → RegisterRequest
  unfolding label_list
  register_request labels = record {
    hostname = name_or_unknown m.hostname;
    ip = get_outbound_ip m;
    version = "0.3.0";
    total_cpu = m.num_cpu;
    total_memory_mb = pos (detect_memory m);
    total_disk_mb = pos (detect_disk m "/");
    labels = label_list labels;
  }

  -- The CPU usage and the count of running tasks are always 0.
  unfoldable pub collect_resources : NodeResource F
  collect_resources = record {
    cpu_usage_percent = m.zero_load;
    memory_used_mb = get_memory_used m;
    memory_total_mb = pos (detect_memory m);
    disk_used_mb = pos (get_disk_used m "/");
    disk_total_mb = pos (detect_disk m "/");
    load_avg_1m = get_load_avg m;
    running_tasks = pos 0;
  }

  -- What the server takes of it.
  unfoldable pub usage_of : NodeResource F → Usage F
  usage_of r = record {
    cpu_usage = r.cpu_usage_percent;
    memory_used = r.memory_used_mb;
    disk_used = r.disk_used_mb;
    load_avg = r.load_avg_1m;
    running = r.running_tasks;
  }

  unfoldable pub heartbeat_request : String → HeartbeatRequest F
  unfolding collect_resources usage_of
  heartbeat_request id = record {
    node_id = id;
    version = "0.3.0";
    resources = some (usage_of collect_resources);
  }

-- The id under which the two loops run; an error ends the process.
unfoldable pub registered_as : Option Failure → Result RegisterResponse → Result String
registered_as (some e) reply = err e
registered_as none (err e) = err e
registered_as none (ok resp) =
    if resp.accepted then ok resp.node_id else err (external resp.message)
