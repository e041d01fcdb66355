-- ===== src/Grpc/Pull.antt =====
-- The way of a task from the dispatch (internal/scheduler/scheduler.go) over a node's channel to the
-- agent that pulls it (internal/grpcserver/server.go).
use mini_bk.Prelude.{
  ℕ, zero, suc, ◌<◌, ◌≡◌, refl, ap, String, List, [], ◌∷◌, ◌++◌, some, true, length, ltb, lt→ltb,
}
use mini_bk.Prelude.Maps.{lookup, insert, lookup-insert_self}
use mini_bk.Model.Task.{Task}
use mini_bk.Scheduler.State.{Scheduler, node_queue, send_to_node, get_next_task_for_node, receive}
use mini_bk.Grpc.{AgentServer, PullTaskResponse, empty_response, response_of, pulled, pull_task}

abbrev pub responses : List Task → List PullTaskResponse
responses [] = []
responses (t ∷ ts) = response_of t ∷ responses ts

module _ {F Q E : Type 0} (id : String) where
  -- So many pulls of the agent, one after the other.
  pub pulls : ℕ → AgentServer F Q E → List PullTaskResponse
  pulls zero s = []
  pulls (suc n) s = let (r, s') = pull_task id s in r ∷ pulls n s'

  taken : List Task → Scheduler F Q E → AgentServer F Q E → AgentServer F Q E
  taken rest sched s = record s {
    scheduler = some (record sched { node_tasks = insert id rest sched.node_tasks });
  }

  pull_task-next :
      (t : Task) (rest : List Task) (s : AgentServer F Q E) (sched : Scheduler F Q E)
      → s.scheduler ≡ some sched
      → lookup id sched.node_tasks ≡ some (t ∷ rest)
      → pull_task id s ≡ (response_of t, taken rest sched s)
  unfolding pull_task get_next_task_for_node receive pulled taken
  pull_task-next t rest s sched h e = rw (h, pull_task) (rw (e, get_next_task_for_node) refl)

  pull_task-empty :
      (s : AgentServer F Q E) (sched : Scheduler F Q E)
      → s.scheduler ≡ some sched
      → lookup id sched.node_tasks ≡ some []
      → (pull_task id s).0 ≡ empty_response
  unfolding pull_task get_next_task_for_node receive pulled
  pull_task-empty s sched h e = rw (h, pull_task) (rw (e, get_next_task_for_node) refl)

  pulls-channel :
      (ts : List Task) (s : AgentServer F Q E) (sched : Scheduler F Q E)
      → s.scheduler ≡ some sched
      → lookup id sched.node_tasks ≡ some ts
      → pulls (suc (length ts)) s ≡ responses ts ++ empty_response ∷ []
  unfolding pulls taken
  pulls-channel [] s sched h e = ap (λ r. r ∷ []) (pull_task-empty s sched h e)
  pulls-channel (t ∷ ts) s sched h e =
      let next = pull_task-next t ts s sched h e in
      rw next (
        ap (λ rs. response_of t ∷ rs)
          (pulls-channel ts (taken ts sched s)
            (record sched { node_tasks = insert id ts sched.node_tasks }) refl
            (lookup-insert_self id ts sched.node_tasks)))

  -- As long as fewer than 10 tasks wait in the channel of a node, one more is accepted; the pulls of
  -- the agent then get the waiting tasks and after them this one, each once and in that order, and
  -- after these the empty answer.
  pub pulls-send_to_node :
      (t : Task) (sched : Scheduler F Q E) (s : AgentServer F Q E)
      → length (node_queue id sched) < 10
      → (sched' : Scheduler F Q E) × (send_to_node id t sched ≡ some sched')
        × (pulls
              (suc (length (node_queue id sched ++ t ∷ [])))
              (record s { scheduler = some sched' })
            ≡ responses (node_queue id sched ++ t ∷ []) ++ empty_response ∷ [])
  unfolding send_to_node
  pulls-send_to_node t sched s room =
      let ts = node_queue id sched ++ t ∷ [] in
      let sched' : Scheduler F Q E = record sched { node_tasks = insert id ts sched.node_tasks } in
      let fits : ltb (length (node_queue id sched)) 10 ≡ true = lt→ltb _ _ room in
      (
        sched',
        rw (fits, send_to_node) refl,
        pulls-channel ts (record s { scheduler = some sched' }) sched' refl
            (lookup-insert_self id ts sched.node_tasks),
      )
