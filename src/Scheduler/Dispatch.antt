-- ===== src/Scheduler/Dispatch.antt =====
-- ClaimTask, dispatch, dispatchLocal and dispatchRemote of internal/scheduler/scheduler.go. A task
-- that is not started is dropped: the code logs it and returns.
use mini_bk.Prelude.{String, Option, none, some, Bool, true, false}
use mini_bk.Model.Errors.{TaskStatus, created, pending, running, wrapped, Result, ok, err}
use mini_bk.Model.Task.{Task, Time, transition_to}
use mini_bk.Model.Node.{Node}
use mini_bk.Store.TaskTable.{update}
use mini_bk.Scheduler.State.{
  Scheduler, Floats, ClaimStore, add_context, launch, open_node_queue, send_to_node,
}
use mini_bk.Scheduler.Selection.{select_node}

module _ {F Q E : Type 0} where
  -- `none` as the first part is an error of the transaction. With no etcd the claim is granted.
  unfoldable pub claim_task :
      ClaimStore E → String → Scheduler F Q E → Result Bool × Scheduler F Q E
  claim_task c uid s = elim s.etcd [
    | none ↦ (ok true, s)
    | some state ↦
        let (r, state') = c.claim uid s.scheduler_id state in
        (
          elim r [ ok won ↦ ok won | err e ↦ err (wrapped "claim task" e) ],
          record s { etcd = some state' },
        )
  ]

  -- The task is started here, on the node of that id if there is one: a new start time, and the row
  -- written. `none` if the transition or the write is refused.
  unfoldable pub start_task :
      Time → (Task → Task) → Task → Scheduler F Q E → Option Task × Scheduler F Q E
  start_task now assign t s =
      let (e, t1) = transition_to now running t in
      elim e [
        | some _ ↦ (none, s)
        | none ↦
            let (e', t2, db) = update now (record (assign t1) { started_at = some now }) s.db in
            elim e' [
              | some _ ↦ (none, record s { db = db })
              | none ↦ (some t2, record s { db = db })
            ]
      ]

  unfoldable pub run_locally : Task → Scheduler F Q E → Scheduler F Q E
  run_locally t s = launch s.contexts t (add_context t s)

  unfoldable pub dispatch_local : Time → Task → Scheduler F Q E → Scheduler F Q E
  unfolding run_locally
  dispatch_local now t s =
      let (started, s') = start_task now (λ u. u) t s in
      elim started [ none ↦ s' | some t' ↦ run_locally t' s' ]

  -- A full channel falls back on a local execution.
  unfoldable pub hand_to_node : String → Task → Scheduler F Q E → Scheduler F Q E
  hand_to_node id t s =
      let s' = add_context t s in
      elim (send_to_node id t s') [
        | some sent ↦ sent
        | none ↦ launch s.contexts t (open_node_queue id s')
      ]

  unfoldable pub dispatch_remote : Time → Task → Node F → Scheduler F Q E → Scheduler F Q E
  unfolding hand_to_node
  dispatch_remote now t n s =
      let (started, s') = start_task now (λ u. record u { assigned_node_id = n.node_id }) t s in
      elim started [ none ↦ s' | some t' ↦ hand_to_node n.node_id t' s' ]

module _ {F Q E : Type 0} (fl : Floats F) (c : ClaimStore E) where
  -- A task without a fitting node runs locally.
  unfoldable pub place : Time → Task → Scheduler F Q E → Scheduler F Q E
  place now t s = elim (select_node fl t s.node_mgr) [
    | err _ ↦ dispatch_local now t s
    | ok chosen ↦ elim chosen [ none ↦ dispatch_local now t s | some n ↦ dispatch_remote now t n s ]
  ]

  unfoldable pub make_pending : Time → Task → Scheduler F Q E → Option Task × Scheduler F Q E
  make_pending now t s =
      let (e, t1) = transition_to now pending t in
      elim e [
        | some _ ↦ (none, s)
        | none ↦
            let (e', t2, db) = update now t1 s.db in
            elim e' [
              | some _ ↦ (none, record s { db = db })
              | none ↦ (some t2, record s { db = db })
            ]
      ]

  -- The test `task.Status == created`.
  unfoldable pub enqueue_created :
      TaskStatus → Time → Task → Scheduler F Q E → Option Task × Scheduler F Q E
  enqueue_created created now t s = make_pending now t s
  enqueue_created _ now t s = (some t, s)

  -- What follows a granted claim.
  unfoldable pub start_claimed : Time → Task → Scheduler F Q E → Scheduler F Q E
  unfolding enqueue_created
  start_claimed now t s =
      let (ready, s') = enqueue_created t.status now t s in
      elim ready [ none ↦ s' | some t' ↦ place now t' s' ]

  unfoldable pub dispatch : Time → Task → Scheduler F Q E → Scheduler F Q E
  dispatch now t s =
      let (claimed, s') = claim_task c t.task_uid s in
      elim claimed [ err _ ↦ s' | ok won ↦ elim won [ false ↦ s' | true ↦ start_claimed now t s' ] ]
