-- ===== src/Nodes/Offline.antt =====
-- What heartbeats make of a node that was drained or that went offline
-- (internal/nodemanager/manager.go).
use mini_bk.Prelude.{String, [], Option, none, some, ◌≡◌, refl, ap, ◌∙◌, arith, eq_refl}
use mini_bk.Prelude.Maps.{lookup, insert, lookup-remove_self}
use mini_bk.Model.Errors.{ok}
use mini_bk.Model.Task.{Time}
use mini_bk.Model.Node.{Node, NodeStatus, online, offline, drain}
use mini_bk.Nodes.Table.{NodeDb, find_node, get_by_node_id}
use mini_bk.Nodes.Manager.{
  NodeManager, EtcdReplies, HeartbeatRequest, heartbeat, recover, drain_node, mark_offline,
}
use mini_bk.Nodes.Status.{
  status_of, cached_status, stored_status, persist-keeps, heartbeat-cached, cached_insert,
  set_status-both, update_node-calm, update_nodes-status,
}

module _ {F : Type 0} where
  some-status :
      (o : Option (Node F)) (s : NodeStatus)
      → status_of o ≡ some s
      → (n : Node F) × (o ≡ some n) × (n.status ≡ s)
  some-status none s h = absurd (ground arith)
  some-status (some n) s h = (n, refl, ground arith)

  -- A node that is cached and stored is drained, with no fault of the store: both statuses become
  -- drain. The node's next heartbeat, whatever etcd answers, puts it online again in the cache,
  -- where the scheduler takes its nodes from, while the table still says drain.
  pub drain-heartbeat :
      (z : F) (now later : Time) (etcd : Option EtcdReplies) (req : HeartbeatRequest F)
      (m : NodeManager F) (n r : Node F)
      → m.db.answers ≡ []
      → lookup req.node_id m.online_nodes ≡ some n
      → n.node_id ≡ req.node_id
      → find_node req.node_id m.db.rows ≡ some r
      → let drained = (drain_node now req.node_id m).1 in
        let beaten = (heartbeat z later etcd req drained).1 in
        (cached_status req.node_id drained ≡ some drain)
        × (stored_status req.node_id drained ≡ some drain)
        × (cached_status req.node_id beaten ≡ some online)
        × (stored_status req.node_id beaten ≡ some drain)
  unfolding drain_node cached_status
  drain-heartbeat z now later etcd req m n r calm cached own stored =
      let drained = (drain_node now req.node_id m).1 in
      let (_, c, s) = set_status-both now drain req.node_id m n r calm cached own stored in
      let (n1, there, _) = some-status (lookup req.node_id drained.online_nodes) drain c in
      let (c2, s2) = heartbeat-cached z later etcd req drained n1 there in (c, s, c2, s2 ∙ s)

  -- The manager after a node in the cache was marked offline.
  mark_offline-both :
      (now : Time) (id : String) (m : NodeManager F) (n r : Node F)
      → m.db.answers ≡ []
      → lookup id m.online_nodes ≡ some n
      → n.node_id ≡ id
      → find_node id m.db.rows ≡ some r
      → let m' = mark_offline now id m in
        (lookup id m'.online_nodes ≡ none)
        × (stored_status id m' ≡ some offline)
        × (m'.db.answers ≡ [])
  unfolding mark_offline stored_status
  mark_offline-both now id m n r calm cached own stored =
      let n' : Node F = record n { status = offline; updated_at = now } in
      let done = update_node-calm now (record n { status = offline }) m.db calm in
      rw (cached, mark_offline)
        (rw done (
          lookup-remove_self id m.online_nodes,
          update_nodes-status n' id m.db.rows ∙ rw own (rw (eq_refl id, stored) refl),
          refl,
        ))

  get_by_node_id-calm :
      (id : String) (db : NodeDb F) (r : Node F)
      → db.answers ≡ []
      → find_node id db.rows ≡ some r
      → get_by_node_id id db ≡ (ok r, record db { answers = [] })
  unfolding get_by_node_id
  get_by_node_id-calm id db r h e = ground (arith, h, e)

  -- The heartbeat of a node that is not in the cache.
  heartbeat-recovers :
      (z : F) (now : Time) (etcd : Option EtcdReplies) (req : HeartbeatRequest F)
      (m : NodeManager F) (r : Node F)
      → m.db.answers ≡ []
      → lookup req.node_id m.online_nodes ≡ none
      → find_node req.node_id m.db.rows ≡ some r
      → let m' = (heartbeat z now etcd req m).1 in
        (cached_status req.node_id m' ≡ some r.status)
        × (stored_status req.node_id m' ≡ some r.status)
  unfolding heartbeat recover stored_status
  heartbeat-recovers z now etcd req m r calm gone stored =
      let m1 : NodeManager F = record m {
        db = record m.db { answers = [] };
        online_nodes = insert req.node_id r m.online_nodes;
      } in
      let kept = persist-keeps z now req req.node_id m1 in
      let read = get_by_node_id-calm req.node_id m.db r calm stored in
      rw (gone, heartbeat)
        (rw (read, recover)
          (rw read (kept.0 ∙ cached_insert req.node_id r _, kept.1 ∙ ap status_of stored)))

  -- A node that is cached and stored is marked offline, with no fault of the store: it leaves the
  -- cache. Its first heartbeat brings it back as it is stored, offline, so the scheduler still does
  -- not see it; its second one puts it online in the cache. The table says offline all along.
  pub mark_offline-heartbeat :
      (z : F) (now t1 t2 : Time) (etcd : Option EtcdReplies) (req : HeartbeatRequest F)
      (m : NodeManager F) (n r : Node F)
      → m.db.answers ≡ []
      → lookup req.node_id m.online_nodes ≡ some n
      → n.node_id ≡ req.node_id
      → find_node req.node_id m.db.rows ≡ some r
      → let lost = mark_offline now req.node_id m in
        let once = (heartbeat z t1 etcd req lost).1 in
        let twice = (heartbeat z t2 etcd req once).1 in
        (cached_status req.node_id lost ≡ none)
        × (stored_status req.node_id lost ≡ some offline)
        × (cached_status req.node_id once ≡ some offline)
        × (stored_status req.node_id once ≡ some offline)
        × (cached_status req.node_id twice ≡ some online)
        × (stored_status req.node_id twice ≡ some offline)
  unfolding cached_status stored_status
  mark_offline-heartbeat z now t1 t2 etcd req m n r calm cached own stored =
      let lost = mark_offline now req.node_id m in
      let once = (heartbeat z t1 etcd req lost).1 in
      let (gone, s, a) = mark_offline-both now req.node_id m n r calm cached own stored in
      let (r1, there, off) = some-status (find_node req.node_id lost.db.rows) offline s in
      let (c1, s1) = heartbeat-recovers z t1 etcd req lost r1 a gone there in
      let (n1, back, _) = some-status (lookup req.node_id once.online_nodes) r1.status c1 in
      let (c2, s2) = heartbeat-cached z t2 etcd req once n1 back in
      (ap status_of gone, s, c1 ∙ ap some off, s1 ∙ ap some off, c2, s2 ∙ s1 ∙ ap some off)
