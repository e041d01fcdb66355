-- ===== src/Discovery/Follow.antt =====
-- What a subscriber of internal/discovery/discovery.go can know from the events in its channel.
use mini_bk.Prelude.{
  ℕ, suc, ◌+◌, ◌≤◌, ◌<◌, ◌≡◌, refl, ap, ◌∙◌, arith, String, List, [], ◌∷◌, ◌++◌, Option, none, some,
  true, false, str_eq, ltb, length, length-append, Bool-cases, inl, inr, lt→ltb,
}
use mini_bk.Prelude.Maps.{lookup, insert, remove, lookup-insert, lookup-remove}
use mini_bk.Discovery.{
  ServiceDiscovery, NodeEvent, node_removed, KeyValue, WatchEvent, put, deleted,
  new_service_discovery, extract_node_id, deliver, deliver_all, emit, kind_of, load_key, on_event,
  load_keys, watch, start_watching, subscribe, get_node_info,
}

-- A reader of a channel who follows its events.
pub follow : String → List NodeEvent → Option String → Option String
follow j [] known = known
follow j (e ∷ es) known = follow j es (elim (str_eq e.node_id j) [
  | false ↦ known
  | true ↦ elim e.kind [ node_removed ↦ none | _ ↦ some e.value ]
])

follow-append :
    (j : String) (es : List NodeEvent) (e : NodeEvent) (known : Option String)
    → follow j (es ++ e ∷ []) known ≡ follow j (e ∷ []) (follow j es known)
unfolding follow
follow-append j [] e known = refl
follow-append j (x ∷ es) e known = follow-append j es e _

abbrev pub first_listener : List (List NodeEvent) → List NodeEvent
first_listener [] = []
first_listener (ch ∷ _) = ch

-- The first listener has had at most `n` events, and knows what the cache knows of node `j`.
record InStep (j : String) (n : ℕ) (sd : ServiceDiscovery) : Type 0 where
  others : List (List NodeEvent)
  has : sd.listeners ≡ first_listener sd.listeners ∷ others
  short : length (first_listener sd.listeners) ≤ n
  same : follow j (first_listener sd.listeners) none ≡ lookup j sd.nodes

-- The listener gets the event that the cache has just gone through.
emit-InStep :
    (j : String) (n : ℕ) (e : NodeEvent) (sd : ServiceDiscovery) (nodes : List (String × String))
    → n < 100
    → InStep j n sd
    → follow j (e ∷ []) (lookup j sd.nodes) ≡ lookup j nodes
    → InStep j (suc n) (emit e (record sd { nodes = nodes }))
unfolding emit deliver_all deliver
emit-InStep j n e sd nodes room h next =
    let ch = first_listener sd.listeners in
    let fits : ltb (length ch) 100 ≡ true = lt→ltb _ _ (omega (arith, h.short)) in
    rw (h.has, deliver_all)
      (rw (fits) (record {
        others = deliver_all e h.others;
        has = refl;
        short = omega (arith, h.short, length-append ch (e ∷ []));
        same = follow-append j ch e none ∙ ap (follow j (e ∷ [])) h.same ∙ next;
      }))

InStep-mono : (j : String) (n : ℕ) (sd : ServiceDiscovery) → InStep j n sd → InStep j (suc n) sd
InStep-mono j n sd h = record {
  others = h.others;
  has = h.has;
  short = omega (arith, h.short);
  same = h.same;
}

load_key-InStep :
    (j : String) (n : ℕ) (kv : KeyValue) (sd : ServiceDiscovery)
    → n < 100
    → InStep j n sd
    → InStep j (suc n) (load_key kv sd)
unfolding load_key follow
load_key-InStep j n kv sd room h =
    let id = extract_node_id kv.key in
    elim (Bool-cases (str_eq id "")) [
      | inl e ↦ rw (e, load_key) (InStep-mono j n sd h)
      | inr e ↦
          rw (e, load_key)
            (emit-InStep j n _ sd (insert id kv.value sd.nodes) room h
              (ground (arith, lookup-insert id j kv.value sd.nodes)))
    ]

on_event-InStep :
    (j : String) (n : ℕ) (e : WatchEvent) (sd : ServiceDiscovery)
    → n < 100
    → InStep j n sd
    → InStep j (suc n) (on_event e sd)
unfolding on_event follow kind_of
on_event-InStep j n (put kv) sd room h =
    let id = extract_node_id kv.key in
    elim (Bool-cases (str_eq id "")) [
      | inl e ↦ rw (e, on_event) (InStep-mono j n sd h)
      | inr e ↦
          rw (e, on_event)
            (emit-InStep j n _ sd (insert id kv.value sd.nodes) room h
              (ground (arith, lookup-insert id j kv.value sd.nodes)))
    ]
on_event-InStep j n (deleted key) sd room h =
    let id = extract_node_id key in
    elim (Bool-cases (str_eq id "")) [
      | inl e ↦ rw (e, on_event) (InStep-mono j n sd h)
      | inr e ↦
          rw (e, on_event)
            (emit-InStep j n _ sd (remove id sd.nodes) room h
              (ground (arith, lookup-remove id j sd.nodes)))
    ]

load_keys-InStep :
    (j : String) (n : ℕ) (kvs : List KeyValue) (sd : ServiceDiscovery)
    → n + length kvs ≤ 100
    → InStep j n sd
    → InStep j (n + length kvs) (load_keys kvs sd)
unfolding load_keys
load_keys-InStep j n [] sd room h = let e : n ≡ n + 0 = omega arith in rw (← e) h
load_keys-InStep j n (kv ∷ kvs) sd room h =
    let e : suc n + length kvs ≡ n + suc (length kvs) = omega arith in
    rw (← e) (
      load_keys-InStep j (suc n) kvs (load_key kv sd) (omega arith)
        (load_key-InStep j n kv sd (omega arith) h))

watch-InStep :
    (j : String) (n : ℕ) (es : List WatchEvent) (sd : ServiceDiscovery)
    → n + length es ≤ 100
    → InStep j n sd
    → InStep j (n + length es) (watch es sd)
unfolding watch
watch-InStep j n [] sd room h = let e : n ≡ n + 0 = omega arith in rw (← e) h
watch-InStep j n (x ∷ es) sd room h =
    let e : suc n + length es ≡ n + suc (length es) = omega arith in
    rw (← e) (
      watch-InStep j (suc n) es (on_event x sd) (omega arith)
        (on_event-InStep j n x sd (omega arith) h))

-- A listener that subscribed before the watch was started and has read nothing yet: if the keys of
-- the load and the events are at most 100 together, then going through the events in its channel
-- gives for every node what the cache has of it.
pub subscribe-follow :
    (j : String) (kvs : List KeyValue) (es : List WatchEvent)
    → length kvs + length es ≤ 100
    → let sd = start_watching (some kvs) es (subscribe new_service_discovery) in
      follow j (first_listener sd.listeners) none ≡ get_node_info j sd
unfolding start_watching subscribe new_service_discovery get_node_info follow lookup
subscribe-follow j kvs es room =
    let sd0 = subscribe new_service_discovery in
    let start : InStep j 0 sd0 = record {
      others = [];
      has = refl;
      short = omega arith;
      same = refl;
    } in
    (watch-InStep j (0 + length kvs) es (load_keys kvs sd0) (omega arith)
      (load_keys-InStep j 0 kvs sd0 (omega arith) start)).same
