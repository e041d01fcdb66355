-- ===== src/Model/Task.antt =====
-- internal/model/task.go. A method that mutates `*Task` returns the new record; the time that
-- `time.Now()` reads, the UUID and the digest are arguments.
use Prim.Native.String.{compare, slice, ◌++◌ as ◌<>◌}
use Prim.Native.Nat.{Ordering}
use mini_bk.Prelude.{
  String, List, [], ◌∷◌, Option, none, some, Bool, true, false, map, if◌then◌else◌,
}
use mini_bk.Prelude.Int.{ℤ, pos, ltb_ℤ}
use mini_bk.Prelude.Maps.{lookup}
use mini_bk.Model.Errors.{
  TaskStatus, created, pending, running, success, failed, canceled, unknown, Failure,
  invalid_transition,
}

-- A `time.Time` in nanoseconds.
abbrev pub Time : Type 0
Time = ℤ

abbrev pub EnvMap : Type 0
EnvMap = List (String × String)

unfoldable pub is_terminal : TaskStatus → Bool
is_terminal success = true
is_terminal failed = true
is_terminal canceled = true
is_terminal _ = false

-- The inner maps of `validTransitions`; a missing key reads as `false`.
from_created : TaskStatus → Bool
from_created pending = true
from_created canceled = true
from_created _ = false

from_pending : TaskStatus → Bool
from_pending running = true
from_pending canceled = true
from_pending _ = false

from_running : TaskStatus → Bool
from_running success = true
from_running failed = true
from_running canceled = true
from_running _ = false

unfoldable pub valid_transitions : TaskStatus → Option (TaskStatus → Bool)
unfolding from_created from_pending from_running
valid_transitions created = some from_created
valid_transitions pending = some from_pending
valid_transitions running = some from_running
valid_transitions success = some (λ _. false)
valid_transitions failed = some (λ _. false)
valid_transitions canceled = some (λ _. false)
valid_transitions (unknown _) = none

pub record Task : Type 0 where
  pub id : ℤ
  pub task_uid : String
  pub name : String
  pub command : String
  pub workdir : String
  pub env : EnvMap
  pub cpu_limit : ℤ
  pub memory_limit : ℤ
  pub timeout_sec : ℤ
  pub priority : ℤ
  pub max_retries : ℤ
  pub retry_count : ℤ
  pub retry_interval_sec : ℤ
  pub idempotency_key : String
  pub node_selector : EnvMap
  pub assigned_node_id : String
  pub status : TaskStatus
  pub exit_code : Option ℤ
  pub stdout : String
  pub stderr : String
  pub error_message : String
  pub pid : Option ℤ
  pub started_at : Option Time
  pub finished_at : Option Time
  pub created_at : Time
  pub updated_at : Time

unfoldable pub new_task : Time → String → String → String → Task
new_task now uuid name command = record {
  id = pos 0;
  task_uid = uuid;
  name = name;
  command = command;
  workdir = "/tmp";
  env = [];
  cpu_limit = pos 0;
  memory_limit = pos 0;
  timeout_sec = pos 300;
  priority = pos 0;
  max_retries = pos 3;
  retry_count = pos 0;
  retry_interval_sec = pos 1;
  idempotency_key = "";
  node_selector = [];
  assigned_node_id = "";
  status = created;
  exit_code = none;
  stdout = "";
  stderr = "";
  error_message = "";
  pid = none;
  started_at = none;
  finished_at = none;
  created_at = now;
  updated_at = now;
}

-- `sort.Strings`.
insert_key : String → List String → List String
insert_key k [] = k ∷ []
insert_key k (j ∷ js) = elim (compare j k) [ Ordering.gt ↦ k ∷ j ∷ js | _ ↦ j ∷ insert_key k js ]

sort_keys : List String → List String
unfolding insert_key
sort_keys [] = []
sort_keys (k ∷ ks) = insert_key k (sort_keys ks)

value_of : Option String → String
value_of none = ""
value_of (some v) = v

-- What the loop over the sorted keys writes to the hash.
env_bytes : EnvMap → List String → String
unfolding value_of
env_bytes env [] = ""
env_bytes env (k ∷ ks) = k <> (value_of (lookup k env) <> env_bytes env ks)

unfoldable pub key_material : Task → String
unfolding env_bytes sort_keys
key_material t =
    t.command
    <> (t.workdir <> env_bytes t.env (sort_keys (map (λ (kv : String × String). kv.0) t.env)))

-- `hex_sha256` is `fmt.Sprintf("%x", sha256(...))`.
unfoldable pub set_idempotency_key : (String → String) → Task → Task
unfolding key_material
set_idempotency_key hex_sha256 t = record t {
  idempotency_key = slice (hex_sha256 (key_material t)) 0 16;
}

unfoldable pub can_retry : Task → Bool
can_retry t = ltb_ℤ t.retry_count t.max_retries

abbrev allows : Option (TaskStatus → Bool) → TaskStatus → Bool
allows none target = false
allows (some allowed) target = allowed target

unfoldable pub transition_to : Time → TaskStatus → Task → Option Failure × Task
unfolding valid_transitions
transition_to now target t =
    if allows (valid_transitions t.status) target
    then (none, record t { status = target; updated_at = now })
    else (some (invalid_transition t.status target), t)
