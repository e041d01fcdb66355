-- ===== src/Api/Nodes.antt =====
-- internal/api/node_handler.go over internal/nodemanager/manager.go, as Api has the task handlers.
use mini_bk.Prelude.{ℕ, String, List, Option, none, some, length}
use mini_bk.Prelude.Int.{pos}
use mini_bk.Model.Errors.{Failure, Result, ok, err}
use mini_bk.Model.Task.{Time}
use mini_bk.Model.Node.{Node}
use mini_bk.Executor.Outcome.{error_text}
use mini_bk.Nodes.Table.{list_nodes, get_by_node_id}
use mini_bk.Nodes.Manager.{NodeManager, drain_node, uncordon_node}
use mini_bk.Api.{Reply, refused, answered}

-- The message of a drained or restored node, with its id.
abbrev pub done_for : String → String → Option Failure → Reply (String × String)
done_for message id none = answered (pos 200) (message, id)
done_for message id (some e) = refused (pos 500) (error_text e)

module _ {F : Type 0} where
  -- `ListNodes` and `GetNode` of the node manager.
  unfoldable pub listed_nodes : String → NodeManager F → Result (List (Node F)) × NodeManager F
  listed_nodes status m = let (r, db) = list_nodes status m.db in (r, record m { db = db })

  unfoldable pub stored_node : String → NodeManager F → Result (Node F) × NodeManager F
  stored_node id m = let (r, db) = get_by_node_id id m.db in (r, record m { db = db })

  -- The nodes with their number.
  unfoldable pub list_nodes_handler :
      String → NodeManager F → Reply (List (Node F) × ℕ) × NodeManager F
  unfolding listed_nodes
  list_nodes_handler status m =
      let (r, m') = listed_nodes status m in
      (
        elim r [
          | err e ↦ refused (pos 500) (error_text e)
          | ok nodes ↦ answered (pos 200) (nodes, length nodes)
        ],
        m',
      )

  -- Every error is answered as one that was not found.
  unfoldable pub get_node_handler : String → NodeManager F → Reply (Node F) × NodeManager F
  unfolding stored_node
  get_node_handler id m =
      let (r, m') = stored_node id m in
      (elim r [ err e ↦ refused (pos 404) (error_text e) | ok n ↦ answered (pos 200) n ], m')

  unfoldable pub drain_node_handler :
      Time → String → NodeManager F → Reply (String × String) × NodeManager F
  drain_node_handler now id m =
      let (e, m') = drain_node now id m in (done_for "节点已设为 Drain 状态" id e, m')

  unfoldable pub uncordon_node_handler :
      Time → String → NodeManager F → Reply (String × String) × NodeManager F
  uncordon_node_handler now id m =
      let (e, m') = uncordon_node now id m in (done_for "节点已恢复 Online 状态" id e, m')
