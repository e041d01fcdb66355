-- ===== src/Examples/Wires.antt =====
-- A task on its way to an agent over internal/grpcserver/server.go, and its result on the way back.
use mini_bk.Prelude.{ℕ, ◌≡◌, [], ◌∷◌, ◌++◌, some, length, arith, suc}
use mini_bk.Prelude.Maps.{lookup}
use mini_bk.Queue.InMem.{InMemQueue}
use mini_bk.Scheduler.State.{Scheduler, node_queue, send_to_node}
use mini_bk.Grpc.{AgentServer, empty_response}
use mini_bk.Grpc.Pull.{pulls, responses, pulls-send_to_node}
use mini_bk.Examples.{task_a, task_b, manager, scheduler}

abbrev channel_a : Scheduler ℕ InMemQueue ℕ
channel_a = record scheduler { node_tasks = ("n", task_a ∷ []) ∷ [] }

abbrev server : AgentServer ℕ InMemQueue ℕ
server = record { node_mgr = manager; scheduler = some channel_a }

pulls-send_to_node_example :
    (sched' : Scheduler ℕ InMemQueue ℕ) × (send_to_node "n" task_b channel_a ≡ some sched')
    × (pulls "n"
          (suc (length (node_queue "n" channel_a ++ task_b ∷ [])))
          (record server { scheduler = some sched' })
        ≡ responses (node_queue "n" channel_a ++ task_b ∷ []) ++ empty_response ∷ [])
unfolding node_queue lookup
pulls-send_to_node_example = pulls-send_to_node "n" task_b channel_a server (omega arith)
