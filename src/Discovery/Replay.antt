-- ===== src/Discovery/Replay.antt =====
-- What the cache and a listener of internal/discovery/discovery.go know of the nodes.
use mini_bk.Prelude.{
  ◌≡◌, refl, ap, ◌∙◌, String, List, [], ◌∷◌, Option, none, some, if◌then◌else◌, str_eq, Bool-cases,
  inl, inr,
}
use mini_bk.Prelude.Maps.{lookup, lookup-insert, lookup-remove}
use mini_bk.Discovery.{
  ServiceDiscovery, KeyValue, WatchEvent, put, deleted, new_service_discovery, extract_node_id,
  emit, load_key, on_event, load_keys, watch, start_watching, get_node_info,
}

-- What a put of a key, or its deletion, makes of what is known of node `j`.
abbrev after_put : String → KeyValue → Option String → Option String
after_put j kv known =
    let id = extract_node_id kv.key in
    if str_eq id "" then known else if str_eq id j then some kv.value else known

abbrev after_delete : String → String → Option String → Option String
after_delete j key known =
    let id = extract_node_id key in
    if str_eq id "" then known else if str_eq id j then none else known

-- The value of node `j` by the keys of the load, and by the events after it.
pub loaded : String → List KeyValue → Option String → Option String
loaded j [] known = known
loaded j (kv ∷ rest) known = loaded j rest (after_put j kv known)

pub latest : String → List WatchEvent → Option String → Option String
latest j [] known = known
latest j (put kv ∷ rest) known = latest j rest (after_put j kv known)
latest j (deleted key ∷ rest) known = latest j rest (after_delete j key known)

load_key-lookup :
    (j : String) (kv : KeyValue) (sd : ServiceDiscovery)
    → lookup j (load_key kv sd).nodes ≡ after_put j kv (lookup j sd.nodes)
unfolding load_key emit
load_key-lookup j kv sd = elim (Bool-cases (str_eq (extract_node_id kv.key) "")) [
  | inl e ↦ rw e refl
  | inr e ↦ rw e (lookup-insert (extract_node_id kv.key) j kv.value sd.nodes)
]

on_event-lookup :
    (j : String) (e : WatchEvent) (sd : ServiceDiscovery)
    → lookup j (on_event e sd).nodes ≡ latest j (e ∷ []) (lookup j sd.nodes)
unfolding on_event emit latest
on_event-lookup j (put kv) sd = elim (Bool-cases (str_eq (extract_node_id kv.key) "")) [
  | inl e ↦ rw e refl
  | inr e ↦ rw e (lookup-insert (extract_node_id kv.key) j kv.value sd.nodes)
]
on_event-lookup j (deleted key) sd = elim (Bool-cases (str_eq (extract_node_id key) "")) [
  | inl e ↦ rw e refl
  | inr e ↦ rw e (lookup-remove (extract_node_id key) j sd.nodes)
]

load_keys-lookup :
    (j : String) (kvs : List KeyValue) (sd : ServiceDiscovery)
    → lookup j (load_keys kvs sd).nodes ≡ loaded j kvs (lookup j sd.nodes)
unfolding load_keys loaded
load_keys-lookup j [] sd = refl
load_keys-lookup j (kv ∷ kvs) sd =
    load_keys-lookup j kvs (load_key kv sd) ∙ ap (loaded j kvs) (load_key-lookup j kv sd)

watch-lookup :
    (j : String) (es : List WatchEvent) (sd : ServiceDiscovery)
    → lookup j (watch es sd).nodes ≡ latest j es (lookup j sd.nodes)
unfolding watch latest
watch-lookup j [] sd = refl
watch-lookup j (put kv ∷ es) sd =
    watch-lookup j es (on_event (put kv) sd) ∙ ap (latest j es) (on_event-lookup j (put kv) sd)
watch-lookup j (deleted key ∷ es) sd =
    watch-lookup j es (on_event (deleted key) sd)
    ∙ ap (latest j es) (on_event-lookup j (deleted key) sd)

-- After the first load and any events of the watch, GetNodeInfo of a node gives the value of the last
-- key of that node that was loaded or put, unless the node was deleted since, or has no such key.
pub get_node_info-start_watching :
    (j : String) (kvs : List KeyValue) (es : List WatchEvent)
    → get_node_info j (start_watching (some kvs) es new_service_discovery)
      ≡ latest j es (loaded j kvs none)
unfolding get_node_info start_watching new_service_discovery lookup
get_node_info-start_watching j kvs es =
    watch-lookup j es (load_keys kvs new_service_discovery)
    ∙ ap (latest j es) (load_keys-lookup j kvs new_service_discovery)
