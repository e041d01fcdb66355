-- ===== src/Model/Node.antt =====
-- internal/model/node.go. `F` stands for `float64`.
use mini_bk.Prelude.{String, List, [], ◌∷◌, Option, none, Bool, true, false, str_eq, ◌||◌}
use mini_bk.Prelude.Int.{ℤ, pos}
use mini_bk.Model.Task.{Time}

pub data NodeStatus : Type 0 where
  online offline drain cordon : NodeStatus

pub record Node (F : Type 0) : Type 0 where
  pub id : ℤ
  pub node_id : String
  pub hostname : String
  pub ip : String
  pub version : String
  pub status : NodeStatus
  pub total_cpu : ℤ
  pub total_memory_mb : ℤ
  pub total_disk_mb : ℤ
  pub cpu_usage_pct : F
  pub memory_used_mb : ℤ
  pub disk_used_mb : ℤ
  pub load_avg_1m : F
  pub running_tasks : ℤ
  pub labels : List String
  pub last_heartbeat_at : Option Time
  pub registered_at : Time
  pub created_at : Time
  pub updated_at : Time

abbrev pub is_online : NodeStatus → Bool
is_online online = true
is_online _ = false

unfoldable pub label_in : String → List String → Bool
label_in label [] = false
label_in label (l ∷ ls) = str_eq l label || label_in label ls

module _ {F : Type 0} where
  -- `float_zero` is the zero value of the two `float64` fields.
  unfoldable pub new_node :
      F → Time → String → String → String → String → ℤ → ℤ → ℤ → List String → Node F
  new_node float_zero now uuid hostname ip version cpu mem disk labels = record {
    id = pos 0;
    node_id = uuid;
    hostname = hostname;
    ip = ip;
    version = version;
    status = online;
    total_cpu = cpu;
    total_memory_mb = mem;
    total_disk_mb = disk;
    cpu_usage_pct = float_zero;
    memory_used_mb = pos 0;
    disk_used_mb = pos 0;
    load_avg_1m = float_zero;
    running_tasks = pos 0;
    labels = labels;
    last_heartbeat_at = none;
    registered_at = now;
    created_at = now;
    updated_at = now;
  }

  unfoldable pub is_schedulable : Node F → Bool
  is_schedulable n = is_online n.status

  unfoldable pub has_label : Node F → String → Bool
  unfolding label_in
  has_label n label = label_in label n.labels
