-- ===== src/Examples/Hosts.antt =====
-- An agent of cmd/agent/main.go on a machine with Linux, and the server that it registers with.
use mini_bk.Prelude.{map, ℕ, List, [], ◌∷◌, none, some, true, ◌≡◌, refl, All}
use mini_bk.Prelude.Int.{pos}
use mini_bk.Model.Errors.{external, ok, err}
use mini_bk.Nodes.Table.{find_node}
use mini_bk.Queue.InMem.{InMemQueue}
use mini_bk.Grpc.{AgentServer, register_agent, agent_heartbeat}
use mini_bk.Agent.Machine.{Machine}
use mini_bk.Agent.Words.{is_space, label_list, register_request, heartbeat_request}
use mini_bk.Agent.Joined.{
  HasNoComma, IsPadding, StartsPlain, EndsPlain, Field, blank, labelled, text_of, labels_of,
  IsField, join, label_list-join,
}
use mini_bk.Agent.Beats.{Known, heartbeat-Known}
use mini_bk.Examples.{manager, scheduler}

abbrev linux : Machine ℕ
linux = record {
  hostname = ok "host";
  outbound = ok "10.0.0.7";
  num_cpu = pos 4;
  sysctl = λ name. err (external "not supported");
  read_file = λ path. ok "MemTotal:        2048 kB\nMemFree:         1024 kB\n";
  statfs = λ path. ok (record { blocks = 2048; block_size = 1024; free = 1024 });
  zero_load = 0;
  load_of_file = λ text. 1;
  load_of_sysctl = λ text. 2;
}

abbrev server : AgentServer ℕ InMemQueue ℕ
server = record { node_mgr = manager; scheduler = some scheduler }

-- The flag "zone=a, gpu,".
abbrev three_fields : List Field
three_fields = labelled "" "zone=a" "" ∷ labelled " " "gpu" "" ∷ blank "" ∷ []

three_fields-IsField : All IsField three_fields
unfolding IsField HasNoComma IsPadding StartsPlain EndsPlain is_space
three_fields-IsField = (
  (tt, (refl, (refl, (refl, (refl, (refl, (refl, tt)))))), refl, refl, tt),
  (((refl, tt), (refl, (refl, (refl, tt))), refl, refl, tt), (tt, tt)),
)

label_list-join_example : label_list (join (map text_of three_fields)) ≡ labels_of three_fields
label_list-join_example = label_list-join three_fields three_fields-IsField

n2-new : find_node "n2" server.node_mgr.db.rows ≡ none
unfolding find_node
n2-new = refl

heartbeat-Known_example :
    let registered =
      register_agent none 0 (pos 5) "n2" (register_request linux "zone=a, gpu") server in
    let beaten = agent_heartbeat 0 (pos 15) none (heartbeat_request linux "n2") registered.1 in
    (registered.0 ≡ ok "n2")
    × (beaten.0 ≡ true)
    × Known linux 0 (pos 15) "n2" "zone=a, gpu" beaten.2
heartbeat-Known_example =
    heartbeat-Known linux 0 (pos 5) (pos 15) "n2" "zone=a, gpu" server refl n2-new
