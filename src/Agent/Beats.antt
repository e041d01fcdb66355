-- ===== src/Agent/Beats.antt =====
-- An agent (cmd/agent/main.go) that registers with internal/grpcserver/server.go and then sends its
-- heartbeats: what internal/nodemanager/manager.go knows of its node.
use mini_bk.Prelude.{String, [], ◌∷◌, none, some, true, ◌≡◌, refl, ap, sym, subst, ◌∙◌, ◌++◌}
use mini_bk.Prelude.Maps.{lookup, insert, lookup-insert_self}
use mini_bk.Prelude.Int.{pos, ◌+ℤ◌}
use mini_bk.Store.TaskTable.{answer_of, answers_left}
use mini_bk.Model.Errors.{ok}
use mini_bk.Model.Task.{Time}
use mini_bk.Model.Node.{Node, online, new_node}
use mini_bk.Nodes.Table.{find_node, create_node, update_heartbeat, NodeDb}
use mini_bk.Nodes.Manager.{
  NodeManager, RegisterRequest, HeartbeatRequest, register, enter, leased, cached, heartbeat,
  refreshed, keep_lease, persist,
}
use mini_bk.Grpc.{AgentServer, is_ok, register_agent, agent_heartbeat}
use mini_bk.Agent.Machine.{Machine, detect_memory, get_memory_used, get_load_avg}
use mini_bk.Agent.Words.{
  label_list, register_request, heartbeat_request, collect_resources, usage_of,
}

module _ {F : Type 0} where
  create_node_lem :
      (n : Node F) (db : NodeDb F)
      → db.answers ≡ []
      → find_node n.node_id db.rows ≡ none
      → (db' : NodeDb F) × (create_node n db ≡ (none, record n { id = db.next_id }, db'))
        × (db'.answers ≡ [])
  unfolding create_node
  create_node_lem n db fine new = (
    record db {
      rows = db.rows ++ record n { id = db.next_id; last_heartbeat_at = none } ∷ [];
      next_id = db.next_id +ℤ pos 1;
      answers = answers_left db.answers;
    },
    rw (create_node, ap answer_of fine, new) refl,
    ap answers_left fine,
  )

  -- The node that Register puts into the cache.
  node_of : F → Time → String → RegisterRequest → NodeDb F → Node F
  node_of z now uuid req db =
      record (new_node z now uuid req.hostname req.ip req.version req.total_cpu req.total_memory_mb
        req.total_disk_mb req.labels) { id = db.next_id }

  register_lem :
      (z : F) (now : Time) (uuid : String) (req : RegisterRequest) (nm : NodeManager F)
      → nm.db.answers ≡ []
      → find_node uuid nm.db.rows ≡ none
      → (db' : NodeDb F) × (register none z now uuid req nm
          ≡ (ok uuid, cached (node_of z now uuid req nm.db) (record nm { db = db' })))
        × (db'.answers ≡ [])
  unfolding register enter leased new_node node_of
  register_lem z now uuid req nm fine new =
      let n =
        new_node z now uuid req.hostname req.ip req.version req.total_cpu req.total_memory_mb
          req.total_disk_mb req.labels in
      let (db', made, after) = create_node_lem n nm.db fine new in
      (db', rw (made, register) (ap (λ p. enter none p.1 (record nm { db = p.2 })) made), after)

  heartbeat_cached :
      (z : F) (later : Time) (req : HeartbeatRequest F) (n : Node F) (nm : NodeManager F)
      → lookup req.node_id nm.online_nodes ≡ some n
      → heartbeat z later none req nm
        ≡ persist z later req (record nm {
          online_nodes = insert req.node_id (refreshed later req req.resources n) nm.online_nodes;
        })
  unfolding heartbeat keep_lease
  heartbeat_cached z later req n nm here = rw (here, heartbeat) refl

  persist-fine :
      (z : F) (later : Time) (req : HeartbeatRequest F) (nm : NodeManager F)
      → nm.db.answers ≡ []
      → (persist z later req nm).0 ≡ none
  unfolding persist update_heartbeat
  persist-fine z later req nm fine = rw (ap answer_of fine, update_heartbeat) refl

  heartbeat_lem :
      (z : F) (later : Time) (req : HeartbeatRequest F) (n : Node F) (nm : NodeManager F)
      → nm.db.answers ≡ []
      → lookup req.node_id nm.online_nodes ≡ some n
      → ((heartbeat z later none req nm).0 ≡ none)
        × (lookup req.node_id (heartbeat z later none req nm).1.online_nodes
            ≡ some (refreshed later req req.resources n))
  unfolding persist
  heartbeat_lem z later req n nm fine here =
      let next = record nm {
        online_nodes = insert req.node_id (refreshed later req req.resources n) nm.online_nodes;
      } in
      let same = heartbeat_cached z later req n nm here in
      (
        ap (λ p. p.0) same ∙ persist-fine z later req next fine,
        ap (λ p. lookup req.node_id p.1.online_nodes) same
            ∙ lookup-insert_self req.node_id (refreshed later req req.resources n) nm.online_nodes,
      )

module _ {F Q E : Type 0} (m : Machine F) (z : F) where
  -- The node in the cache, with what the agent has sent.
  pub Known : Time → String → String → AgentServer F Q E → Type 0
  Known later uuid labels s =
      (n : Node F) × (lookup uuid s.node_mgr.online_nodes ≡ some n)
      × (n.status ≡ online)
      × (n.last_heartbeat_at ≡ some later)
      × (n.labels ≡ label_list labels)
      × (n.total_memory_mb ≡ pos (detect_memory m))
      × (n.memory_used_mb ≡ get_memory_used m)
      × (n.load_avg_1m ≡ get_load_avg m)
      × (n.cpu_usage_pct ≡ m.zero_load)

  -- Where PostgreSQL fails nowhere and the new UUID is no node's, an agent is registered under that
  -- UUID, and its first heartbeat is accepted. The server then has its node online, with the time of
  -- the heartbeat, the labels of its flag, its memory and its load; its CPU usage is 0, however
  -- busy the machine is. (The server has no etcd.)
  pub heartbeat-Known :
      (now later : Time) (uuid labels : String) (s : AgentServer F Q E)
      → s.node_mgr.db.answers ≡ []
      → find_node uuid s.node_mgr.db.rows ≡ none
      → let registered = register_agent none z now uuid (register_request m labels) s in
        let beaten = agent_heartbeat z later none (heartbeat_request m uuid) registered.1 in
        (registered.0 ≡ ok uuid) × (beaten.0 ≡ true) × Known later uuid labels beaten.2
  unfolding register_agent agent_heartbeat Known register_request heartbeat_request
      collect_resources usage_of refreshed node_of new_node cached
  heartbeat-Known now later uuid labels s fine new =
      let req = register_request m labels in
      let hb = heartbeat_request m uuid in
      let (db', made, after) = register_lem z now uuid req s.node_mgr fine new in
      let n = node_of z now uuid req s.node_mgr.db in
      let nm = cached n (record s.node_mgr { db = db' }) in
      let (fine2, known) =
        heartbeat_lem z later hb n nm after (lookup-insert_self uuid n s.node_mgr.online_nodes) in
      let there =
        subst
          (λ p.
            lookup uuid (heartbeat z later none hb p.1).1.online_nodes
            ≡ some (refreshed later hb hb.resources n))
          (sym made) known in
      (
        ap (λ p. p.0) made,
        ap (λ p. is_ok (heartbeat z later none hb p.1).0) made ∙ ap is_ok fine2,
        (refreshed later hb hb.resources n, there, refl, refl, refl, refl, refl, refl, refl),
      )
