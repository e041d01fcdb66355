-- ===== src/Discovery.antt =====
-- internal/discovery/discovery.go. etcd is not in the repository: the keys of the first load and the events
-- of the watch are arguments. A value of etcd is the text of its bytes. A listener is the events in
-- its channel; receiving from it is its reader's affair.
pub mod Replay
pub mod Follow
use mini_bk.Prelude.{
  ℕ, String, List, [], ◌∷◌, ◌++◌, Option, none, some, Bool, true, false, if◌then◌else◌, str_eq, ltb,
  length, map,
}
use mini_bk.Prelude.Maps.{lookup, insert, remove}
use mini_bk.Prelude.Text.{trim_prefix, first_segment}

pub data NodeEventType : Type 0 where
  node_added node_updated node_removed : NodeEventType

pub record NodeEvent : Type 0 where
  pub kind : NodeEventType
  pub node_id : String
  pub key : String
  pub value : String

-- A key with its value, and an event of the watch.
pub record KeyValue : Type 0 where
  pub key : String
  pub value : String

pub data WatchEvent : Type 0 where
  put : KeyValue → WatchEvent
  deleted : String → WatchEvent

pub record ServiceDiscovery : Type 0 where
  pub nodes : List (String × String)
  pub listeners : List (List NodeEvent)

unfoldable pub new_service_discovery : ServiceDiscovery
new_service_discovery = record { nodes = []; listeners = [] }

unfoldable pub extract_node_id : String → String
extract_node_id key = first_segment (trim_prefix key "/nodes/")

-- A channel holds 100 events; one that is full drops the event.
unfoldable pub deliver : NodeEvent → List NodeEvent → List NodeEvent
deliver e ch = if ltb (length ch) 100 then ch ++ e ∷ [] else ch

deliver_all : NodeEvent → List (List NodeEvent) → List (List NodeEvent)
deliver_all e [] = []
deliver_all e (ch ∷ chs) = deliver e ch ∷ deliver_all e chs

unfoldable pub emit : NodeEvent → ServiceDiscovery → ServiceDiscovery
unfolding deliver_all
emit e sd = record sd { listeners = deliver_all e sd.listeners }

kind_of : Option String → NodeEventType
kind_of none = node_added
kind_of (some _) = node_updated

-- A key of the first load.
unfoldable pub load_key : KeyValue → ServiceDiscovery → ServiceDiscovery
load_key kv sd =
    let id = extract_node_id kv.key in
    if str_eq id ""
    then sd
    else emit (record { kind = node_added; node_id = id; key = kv.key; value = kv.value })
        (record sd { nodes = insert id kv.value sd.nodes })

unfoldable pub on_event : WatchEvent → ServiceDiscovery → ServiceDiscovery
unfolding kind_of
on_event (put kv) sd =
    let id = extract_node_id kv.key in
    if str_eq id ""
    then sd
    else emit
        (record {
          kind = kind_of (lookup id sd.nodes);
          node_id = id;
          key = kv.key;
          value = kv.value;
        })
        (record sd { nodes = insert id kv.value sd.nodes })
on_event (deleted key) sd =
    let id = extract_node_id key in
    if str_eq id ""
    then sd
    else emit (record { kind = node_removed; node_id = id; key = key; value = "" })
        (record sd { nodes = remove id sd.nodes })

unfoldable pub load_keys : List KeyValue → ServiceDiscovery → ServiceDiscovery
load_keys [] sd = sd
load_keys (kv ∷ rest) sd = load_keys rest (load_key kv sd)

unfoldable pub watch : List WatchEvent → ServiceDiscovery → ServiceDiscovery
watch [] sd = sd
watch (e ∷ rest) sd = watch rest (on_event e sd)

-- StartWatching; `none` if the first load fails.
unfoldable pub start_watching :
    Option (List KeyValue) → List WatchEvent → ServiceDiscovery → ServiceDiscovery
start_watching none events sd = watch events sd
start_watching (some kvs) events sd = watch events (load_keys kvs sd)

keys_of : List (String × String) → List String
keys_of [] = []
keys_of ((id, v) ∷ m) = id ∷ keys_of m

unfoldable pub get_online_node_ids : ServiceDiscovery → List String
unfolding keys_of
get_online_node_ids sd = keys_of sd.nodes

unfoldable pub get_node_info : String → ServiceDiscovery → Option String
get_node_info id sd = lookup id sd.nodes

unfoldable pub subscribe : ServiceDiscovery → ServiceDiscovery
subscribe sd = record sd { listeners = sd.listeners ++ [] ∷ [] }
