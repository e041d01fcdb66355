-- ===== src/Nodes/Watch.antt =====
-- The two goroutines of internal/nodemanager/manager.go that find nodes offline, and the etcd key of
-- a node's status. The events of the watch and the times of the ticker are arguments, in order.
use Prim.Native.String.{◌++◌ as ◌<>◌}
use mini_bk.Prelude.{
  String, List, [], ◌∷◌, none, Bool, false, ◌≡◌, ◌≢◌, refl, ap, ◌∙◌, arith, if◌then◌else◌, str_eq,
  eq_iff, inl, inr, Option-cases,
}
use mini_bk.Prelude.Maps.{lookup, lookup-remove_self}
use mini_bk.Prelude.Text.{
  trim_prefix, first_segment, HasNoSlash, trim_prefix-append, first_segment-append,
}
use mini_bk.Model.Errors.{Result, ok, err}
use mini_bk.Model.Task.{Time}
use mini_bk.Model.Node.{Node, offline}
use mini_bk.Nodes.Table.{get_by_node_id, update_node}
use mini_bk.Nodes.Manager.{NodeManager, mark_offline, check_offline_nodes}

unfoldable pub node_key : String → String
node_key id = "/nodes/" <> (id <> "/status")

-- Both kinds of event of etcd: a put is passed over.
pub data NodeKeyEvent : Type 0 where
  key_put key_deleted : String → NodeKeyEvent

unfoldable pub extract_node_id : String → String
extract_node_id key = first_segment (trim_prefix key "/nodes/")

node_key-id : (id : String) → HasNoSlash id → extract_node_id (node_key id) ≡ id
unfolding extract_node_id node_key
node_key-id id h =
    rw (trim_prefix-append "/nodes/" (id <> "/status")) (first_segment-append id "status" h)

module _ {F : Type 0} where
  unfoldable pub on_node_event : Time → NodeKeyEvent → NodeManager F → NodeManager F
  on_node_event now (key_put key) m = m
  on_node_event now (key_deleted key) m =
      let id = extract_node_id key in if str_eq id "" then m else mark_offline now id m

  -- The goroutine of StartNodeWatcher, with the time at which each event is handled.
  unfoldable pub watch_nodes : List (Time × NodeKeyEvent) → NodeManager F → NodeManager F
  watch_nodes [] m = m
  watch_nodes ((now, e) ∷ rest) m = watch_nodes rest (on_node_event now e m)

  -- StartOfflineChecker, which does nothing where there is an etcd client.
  unfoldable pub offline_checker : Bool → List Time → NodeManager F → NodeManager F
  offline_checker has_etcd [] m = m
  offline_checker has_etcd (now ∷ rest) m =
      if has_etcd then m else offline_checker has_etcd rest (check_offline_nodes now m)

  mark_offline-gone :
      (now : Time) (id : String) (m : NodeManager F)
      → lookup id (mark_offline now id m).online_nodes ≡ none
  unfolding mark_offline
  mark_offline-gone now id m = elim (Option-cases (lookup id m.online_nodes)) [
    | inr (n, e) ↦ rw (e, mark_offline) (lookup-remove_self id m.online_nodes)
    | inl e ↦ rw (e, mark_offline) (by_row e (get_by_node_id id m.db).0 refl)
  ]
    where
      by_row :
          lookup id m.online_nodes ≡ none
          → (r : Result (Node F)) → (get_by_node_id id m.db).0 ≡ r
          → lookup id
              (elim (get_by_node_id id m.db).0 as (λ x. NodeManager F) [
                | ok n ↦ record m {
                  db =
                      (update_node now
                        (record n { status = offline })
                        (get_by_node_id id m.db).1).2;
                }
                | err x ↦ record m { db = (get_by_node_id id m.db).1 }
              ]).online_nodes
            ≡ none
      by_row e (ok n) h = rw h e
      by_row e (err x) h = rw h e

  -- When the lease of a node runs out, and etcd reports that the key under which Register put its
  -- status is deleted, the watcher marks this very node offline, and the node is no longer among
  -- those that the scheduler may choose, whatever the store answers. The id of a node is not empty
  -- and has no slash.
  pub on_node_event-gone :
      (now : Time) (id : String) (m : NodeManager F)
      → HasNoSlash id
      → id ≢ ""
      → let m' = on_node_event now (key_deleted (node_key id)) m in
        (m' ≡ mark_offline now id m) × (lookup id m'.online_nodes ≡ none)
  unfolding on_node_event
  on_node_event-gone now id m h full =
      let present : str_eq id "" ≡ false = ground (arith, eq_iff id "") in
      let same : on_node_event now (key_deleted (node_key id)) m ≡ mark_offline now id m =
        rw (node_key-id id h) (rw present refl) in
      (same, ap (λ x. lookup id x.online_nodes) same ∙ mark_offline-gone now id m)
