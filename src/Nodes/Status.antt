-- ===== src/Nodes/Status.antt =====
-- The two copies of a node's status that internal/nodemanager/manager.go keeps: the cache
-- `onlineNodes`, which the scheduler reads, and the row of the table, which the API shows.
use mini_bk.Prelude.{
  String, List, [], ◌∷◌, Option, none, some, ◌≡◌, refl, ap, ◌∙◌, arith, inl, inr, Option-cases,
  if◌then◌else◌, str_eq, eq_iff, eq_refl,
}
use mini_bk.Prelude.Int.{ℤ}
use mini_bk.Prelude.Maps.{lookup, insert, lookup-insert_self}
use mini_bk.Model.Errors.{Result, ok, err}
use mini_bk.Model.Task.{Time}
use mini_bk.Model.Node.{Node, NodeStatus, online}
use mini_bk.Nodes.Table.{
  NodeDb, Usage, find_node, update_nodes, update_node, overwrite_node, beat, beat_rows,
  update_heartbeat,
}
use mini_bk.Nodes.Manager.{
  NodeManager, EtcdReplies, HeartbeatRequest, heartbeat, refreshed, keep_lease, renew, persist,
  usage_or_zero, set_status,
}

module _ {F : Type 0} where
  abbrev pub status_of : Option (Node F) → Option NodeStatus
  status_of none = none
  status_of (some n) = some n.status

  -- The status in the cache, and the one in the table.
  unfoldable pub cached_status : String → NodeManager F → Option NodeStatus
  cached_status id m = status_of (lookup id m.online_nodes)

  unfoldable pub stored_status : String → NodeManager F → Option NodeStatus
  stored_status id m = status_of (find_node id m.db.rows)

  beat_rows-status :
      (now : Time) (id j : String) (u : Usage F) (rs : List (Node F))
      → status_of (find_node j (beat_rows now id u rs)) ≡ status_of (find_node j rs)
  unfolding find_node beat_rows beat
  beat_rows-status now id j u [] = refl
  beat_rows-status now id j u (r ∷ rs) = ground (arith, beat_rows-status now id j u rs)

  pub persist-keeps :
      (z : F) (now : Time) (req : HeartbeatRequest F) (id : String) (m : NodeManager F)
      → (cached_status id (persist z now req m).1 ≡ cached_status id m)
        × (stored_status id (persist z now req m).1 ≡ stored_status id m)
  unfolding persist update_heartbeat cached_status stored_status
  persist-keeps z now req id m =
      ground (arith, beat_rows-status now req.node_id id (usage_or_zero z req.resources) m.db.rows)

  abbrev Keeps : String → NodeManager F → NodeManager F → Type 0
  Keeps id m m' =
      (cached_status id m' ≡ cached_status id m) × (stored_status id m' ≡ stored_status id m)

  renew-Keeps :
      (z : F) (now : Time) (req : HeartbeatRequest F) (etcd : EtcdReplies) (id : String)
      (m : NodeManager F)
      → Keeps id m (renew z now req etcd m).1
  unfolding renew
  renew-Keeps z now req etcd id m = elim (Option-cases etcd.keep_alive) [
    | inl e ↦ rw (e, renew) (refl, refl)
    | inr (x, e) ↦ rw (e, renew) (persist-keeps z now req id m)
  ]

  keep_lease-Keeps :
      (z : F) (now : Time) (req : HeartbeatRequest F) (etcd : Option EtcdReplies) (id : String)
      (m : NodeManager F)
      → Keeps id m (keep_lease z now req etcd m).1
  unfolding keep_lease cached_status stored_status
  keep_lease-Keeps z now req none id m = persist-keeps z now req id m
  keep_lease-Keeps z now req (some etcd) id m =
      elim (Option-cases (lookup req.node_id m.watchers)) [
        | inr (lease, e) ↦ rw (e, keep_lease) (renew-Keeps z now req etcd id m)
        | inl e ↦ by_grant e etcd.grant refl
      ]
    where
      by_grant :
          lookup req.node_id m.watchers ≡ none
          → (r : Result ℤ) → etcd.grant ≡ r
          → Keeps id m (keep_lease z now req (some etcd) m).1
      by_grant e (err x) g = rw (e, keep_lease, g) (refl, refl)
      by_grant e (ok lease) g =
          rw (e, keep_lease, g)
            (renew-Keeps z now req etcd id
              (record m { watchers = insert req.node_id lease m.watchers }))

  pub update_nodes-status :
      (n : Node F) (id : String) (rs : List (Node F))
      → status_of (find_node id (update_nodes n rs)) ≡ (
          if str_eq n.node_id id
          then elim (find_node id rs) [ none ↦ none | some r ↦ some n.status ]
          else status_of (find_node id rs))
  unfolding find_node update_nodes overwrite_node
  update_nodes-status n id [] = ground arith
  update_nodes-status n id (r ∷ rs) = ground (
    arith,
    eq_iff n.node_id id,
    eq_iff r.node_id id,
    eq_iff r.node_id n.node_id,
    update_nodes-status n id rs,
  )

  refreshed-online :
      (now : Time) (req : HeartbeatRequest F) (u : Option (Usage F)) (n : Node F)
      → (refreshed now req u n).status ≡ online
  unfolding refreshed
  refreshed-online now req none n = refl
  refreshed-online now req (some u) n = refl

  pub cached_insert :
      (id : String) (n : Node F) (m : NodeManager F)
      → cached_status id (record m { online_nodes = insert id n m.online_nodes }) ≡ some n.status
  unfolding cached_status
  cached_insert id n m = ap status_of (lookup-insert_self id n m.online_nodes)

  -- A heartbeat of a node in the cache: the cache has it online, the table has the status it had.
  pub heartbeat-cached :
      (z : F) (now : Time) (etcd : Option EtcdReplies) (req : HeartbeatRequest F)
      (m : NodeManager F) (n : Node F)
      → lookup req.node_id m.online_nodes ≡ some n
      → let m' = (heartbeat z now etcd req m).1 in
        (cached_status req.node_id m' ≡ some online)
        × (stored_status req.node_id m' ≡ stored_status req.node_id m)
  unfolding heartbeat stored_status
  heartbeat-cached z now etcd req m n h =
      let fresh = refreshed now req req.resources n in
      let m1 : NodeManager F = record m {
        online_nodes = insert req.node_id fresh m.online_nodes;
      } in
      let kept = keep_lease-Keeps z now req etcd req.node_id m1 in
      rw (h, heartbeat)
        (
          kept.0
              ∙ cached_insert req.node_id fresh m
              ∙ ap some (refreshed-online now req req.resources n),
          kept.1,
        )

  pub update_node-calm :
      (now : Time) (n : Node F) (db : NodeDb F)
      → db.answers ≡ []
      → update_node now n db ≡ (
        none,
        record n { updated_at = now },
        record {
          rows = update_nodes (record n { updated_at = now }) db.rows;
          next_id = db.next_id;
          answers = [];
        },
      )
  unfolding update_node
  update_node-calm now n db h = ground (arith, h)

  -- The status that DrainNode and UncordonNode set, in the cache and in the table.
  pub set_status-both :
      (now : Time) (status : NodeStatus) (id : String) (m : NodeManager F) (n r : Node F)
      → m.db.answers ≡ []
      → lookup id m.online_nodes ≡ some n
      → n.node_id ≡ id
      → find_node id m.db.rows ≡ some r
      → let m' = (set_status now status id m).1 in
        ((set_status now status id m).0 ≡ none)
        × (cached_status id m' ≡ some status)
        × (stored_status id m' ≡ some status)
  unfolding set_status stored_status
  set_status-both now status id m n r calm cached own stored =
      let n' : Node F = record n { status = status; updated_at = now } in
      let done = update_node-calm now (record n { status = status }) m.db calm in
      rw (cached, set_status)
        (rw (done) (
          refl,
          cached_insert id n' _,
          update_nodes-status n' id m.db.rows ∙ rw (own) (rw (eq_refl id, stored) refl),
        ))
