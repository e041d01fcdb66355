-- ===== src/Nodes/Table.antt =====
-- internal/store/node_store.go over the `nodes` table, under the conventions of Store/TaskTable.
use mini_bk.Prelude.{
  String, List, [], ◌∷◌, ◌++◌, Option, none, some, not, if◌then◌else◌, str_eq, keep,
}
use mini_bk.Prelude.Int.{ℤ, pos, ltb_ℤ, ◌+ℤ◌}
use mini_bk.Model.Errors.{Failure, no_rows, external, Result, ok, err}
use mini_bk.Model.Task.{Time}
use mini_bk.Model.Node.{Node, NodeStatus, online, offline, drain, cordon}
use mini_bk.Store.TaskTable.{answer_of, answers_left}

pub record NodeDb (F : Type 0) : Type 0 where
  pub rows : List (Node F)
  pub next_id : ℤ
  pub answers : List (Option Failure)

-- The column `status` as text.
unfoldable pub node_status_text : NodeStatus → String
node_status_text online = "online"
node_status_text offline = "offline"
node_status_text drain = "drain"
node_status_text cordon = "cordon"

-- What a heartbeat reports of the node's resources.
pub record Usage (F : Type 0) : Type 0 where
  pub cpu_usage : F
  pub memory_used : ℤ
  pub disk_used : ℤ
  pub load_avg : F
  pub running : ℤ

module _ {F : Type 0} where
  abbrev pub node_asked : NodeDb F → NodeDb F
  node_asked db = record db { answers = answers_left db.answers }

  abbrev pub node_fault : NodeDb F → Option Failure
  node_fault db = answer_of db.answers

  unfoldable pub find_node : String → List (Node F) → Option (Node F)
  find_node id [] = none
  find_node id (r ∷ rs) = if str_eq r.node_id id then some r else find_node id rs

  find_by_id : ℤ → List (Node F) → Option (Node F)
  find_by_id id [] = none
  find_by_id id (r ∷ rs) =
      if not (ltb_ℤ r.id id)
      then (if ltb_ℤ id r.id then find_by_id id rs else some r)
      else find_by_id id rs

  -- INSERT names no last_heartbeat_at.
  unfoldable pub create_node : Node F → NodeDb F → Option Failure × Node F × NodeDb F
  unfolding find_node
  create_node n db = elim (node_fault db) [
    | some e ↦ (some e, n, node_asked db)
    | none ↦ elim (find_node n.node_id db.rows) [
      | some _ ↦
          (some (external "duplicate key value violates unique constraint"), n, node_asked db)
      | none ↦ (
        none,
        record n { id = db.next_id },
        record db {
          rows = db.rows ++ record n { id = db.next_id; last_heartbeat_at = none } ∷ [];
          next_id = db.next_id +ℤ pos 1;
          answers = answers_left db.answers;
        },
      )
    ]
  ]

  -- UPDATE leaves id, node_id, registered_at and created_at.
  unfoldable pub overwrite_node : Node F → Node F → Node F
  overwrite_node n r = record n {
    id = r.id;
    node_id = r.node_id;
    registered_at = r.registered_at;
    created_at = r.created_at;
  }

  unfoldable pub update_nodes : Node F → List (Node F) → List (Node F)
  unfolding overwrite_node
  update_nodes n [] = []
  update_nodes n (r ∷ rs) =
      (if str_eq r.node_id n.node_id then overwrite_node n r else r) ∷ update_nodes n rs

  unfoldable pub update_node : Time → Node F → NodeDb F → Option Failure × Node F × NodeDb F
  unfolding update_nodes
  update_node now n db =
      let stamped = record n { updated_at = now } in
      elim (node_fault db) [
        | some e ↦ (some e, stamped, node_asked db)
        | none ↦ (
          none,
          stamped,
          record db { rows = update_nodes stamped db.rows; answers = answers_left db.answers },
        )
      ]

  unfoldable pub get_by_node_id : String → NodeDb F → Result (Node F) × NodeDb F
  unfolding find_node
  get_by_node_id id db = elim (node_fault db) [
    | some e ↦ (err e, node_asked db)
    | none ↦ (elim (find_node id db.rows) [ none ↦ err no_rows | some r ↦ ok r ], node_asked db)
  ]

  unfoldable pub get_by_id : ℤ → NodeDb F → Result (Node F) × NodeDb F
  unfolding find_by_id
  get_by_id id db = elim (node_fault db) [
    | some e ↦ (err e, node_asked db)
    | none ↦ (elim (find_by_id id db.rows) [ none ↦ err no_rows | some r ↦ ok r ], node_asked db)
  ]

  insert_newest : Node F → List (Node F) → List (Node F)
  insert_newest n [] = n ∷ []
  insert_newest n (r ∷ rs) =
      let later = r ∷ insert_newest n rs in
      if ltb_ℤ r.registered_at n.registered_at then n ∷ r ∷ rs else later

  -- `ORDER BY registered_at DESC`
  newest_first : List (Node F) → List (Node F)
  unfolding insert_newest
  newest_first [] = []
  newest_first (r ∷ rs) = insert_newest r (newest_first rs)

  unfoldable pub list_nodes : String → NodeDb F → Result (List (Node F)) × NodeDb F
  unfolding newest_first node_status_text keep
  list_nodes status db = elim (node_fault db) [
    | some e ↦ (err e, node_asked db)
    | none ↦ (
      ok (
          newest_first (
            if str_eq status ""
            then db.rows
            else keep (λ r. str_eq (node_status_text r.status) status) db.rows)),
      node_asked db,
    )
  ]

  unfoldable pub get_online_nodes : NodeDb F → Result (List (Node F)) × NodeDb F
  unfolding list_nodes
  get_online_nodes db = list_nodes (node_status_text online) db

  unfoldable pub beat : Time → Usage F → Node F → Node F
  beat now u r = record r {
    cpu_usage_pct = u.cpu_usage;
    memory_used_mb = u.memory_used;
    disk_used_mb = u.disk_used;
    load_avg_1m = u.load_avg;
    running_tasks = u.running;
    last_heartbeat_at = some now;
    updated_at = now;
  }

  unfoldable pub beat_rows : Time → String → Usage F → List (Node F) → List (Node F)
  unfolding beat
  beat_rows now id u [] = []
  beat_rows now id u (r ∷ rs) =
      (if str_eq r.node_id id then beat now u r else r) ∷ beat_rows now id u rs

  -- The status column is not among those that UpdateHeartbeat sets.
  unfoldable pub update_heartbeat : Time → String → Usage F → NodeDb F → Option Failure × NodeDb F
  unfolding beat_rows
  update_heartbeat now id u db = elim (node_fault db) [
    | some e ↦ (some e, node_asked db)
    | none ↦
        (none, record db { rows = beat_rows now id u db.rows; answers = answers_left db.answers })
  ]
