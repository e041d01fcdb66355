-- ===== src/Examples/Events.antt =====
-- Runs of internal/discovery/discovery.go and of the watcher of internal/nodemanager/manager.go.
use mini_bk.Prelude.{◌≡◌, refl, List, [], ◌∷◌, none, some, eq_iff, arith}
use mini_bk.Prelude.Maps.{lookup}
use mini_bk.Prelude.Int.{pos}
use mini_bk.Discovery.{
  KeyValue, WatchEvent, put, deleted, start_watching, new_service_discovery, get_node_info,
  subscribe,
}
use mini_bk.Discovery.Follow.{subscribe-follow, follow, first_listener}
use mini_bk.Discovery.Replay.{get_node_info-start_watching, loaded, latest}
use mini_bk.Nodes.Watch.{on_node_event, key_deleted, node_key, on_node_event-gone}
use mini_bk.Nodes.Manager.{mark_offline}
use mini_bk.Examples.{manager}

abbrev stored : List KeyValue
stored = record { key = "/nodes/n/status"; value = "v1" } ∷ []

abbrev events : List WatchEvent
events = put (record { key = "/nodes/m/status"; value = "v2" }) ∷ deleted "/nodes/n/status" ∷ []

get_node_info-start_watching_example :
    get_node_info "n" (start_watching (some stored) events new_service_discovery)
    ≡ latest "n" events (loaded "n" stored none)
get_node_info-start_watching_example = get_node_info-start_watching "n" stored events

subscribe-follow_example :
    let sd = start_watching (some stored) events (subscribe new_service_discovery) in
    follow "n" (first_listener sd.listeners) none ≡ get_node_info "n" sd
subscribe-follow_example = subscribe-follow "n" stored events (omega arith)

on_node_event-gone_example :
    let m' = on_node_event (pos 9) (key_deleted (node_key "n")) manager in
    (m' ≡ mark_offline (pos 9) "n" manager) × (lookup "n" m'.online_nodes ≡ none)
on_node_event-gone_example =
    on_node_event-gone (pos 9) "n" manager (refl, tt)
      (λ e. absurd (ground (arith, (eq_iff "n" "").1 e)))
