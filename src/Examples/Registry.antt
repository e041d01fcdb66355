-- ===== src/Examples/Registry.antt =====
-- Runs of internal/nodemanager/manager.go.
use mini_bk.Prelude.{◌≡◌, refl, none, some}
use mini_bk.Prelude.Int.{pos, ◌-ℤ◌}
use mini_bk.Prelude.Maps.{lookup}
use mini_bk.Model.Node.{online, offline, drain}
use mini_bk.Nodes.Table.{find_node}
use mini_bk.Nodes.Manager.{drain_node, mark_offline, heartbeat, check_offline_nodes, is_stale}
use mini_bk.Nodes.Status.{cached_status, stored_status}
use mini_bk.Nodes.Offline.{drain-heartbeat, mark_offline-heartbeat}
use mini_bk.Nodes.Sweep.{check_offline_nodes-lookup}
use mini_bk.Examples.{node_n, manager, beat_of_n}

drain-heartbeat_example :
    (cached_status "n" (drain_node (pos 2) "n" manager).1 ≡ some drain)
    × (stored_status "n" (drain_node (pos 2) "n" manager).1 ≡ some drain)
    × (cached_status "n" (heartbeat 0 (pos 3) none beat_of_n (drain_node (pos 2) "n" manager).1).1
        ≡ some online)
    × (stored_status "n" (heartbeat 0 (pos 3) none beat_of_n (drain_node (pos 2) "n" manager).1).1
        ≡ some drain)
unfolding lookup find_node
drain-heartbeat_example =
    drain-heartbeat 0 (pos 2) (pos 3) none beat_of_n manager node_n node_n refl refl refl refl

mark_offline-heartbeat_example :
    let lost = mark_offline (pos 2) "n" manager in
    let once = (heartbeat 0 (pos 3) none beat_of_n lost).1 in
    let twice = (heartbeat 0 (pos 4) none beat_of_n once).1 in
    (cached_status "n" lost ≡ none)
    × (stored_status "n" lost ≡ some offline)
    × (cached_status "n" once ≡ some offline)
    × (stored_status "n" once ≡ some offline)
    × (cached_status "n" twice ≡ some online)
    × (stored_status "n" twice ≡ some offline)
unfolding lookup find_node
mark_offline-heartbeat_example =
    mark_offline-heartbeat 0 (pos 2) (pos 3) (pos 4) none beat_of_n manager node_n node_n refl refl
      refl refl

check_offline_nodes-lookup_example :
    lookup "n" (check_offline_nodes (pos 100) manager).online_nodes ≡ none
unfolding lookup is_stale ◌-ℤ◌
check_offline_nodes-lookup_example = check_offline_nodes-lookup (pos 100) manager "n" (refl, tt)
