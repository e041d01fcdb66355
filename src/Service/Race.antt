-- ===== src/Service/Race.antt =====
-- A task that was canceled while its copy waited in the queue (internal/service/task_service.go,
-- internal/scheduler/scheduler.go).
use mini_bk.Prelude.{
  String, [], Bool, true, false, Option, none, some, ◌≡◌, ◌≢◌, refl, sym, subst, ap, ◌∙◌, arith,
  ◌⊎◌, inl, inr,
}
use mini_bk.Model.Errors.{created, pending, running, Result, ok, err}
use mini_bk.Model.Task.{Task, Time, transition_to}
use mini_bk.Model.Node.{Node}
use mini_bk.Store.TaskTable.{TaskDb, find_row, update_rows}
use mini_bk.Store.Rows.{find_row-uid}
use mini_bk.Scheduler.State.{Scheduler, Floats, ClaimStore, launch, add_context}
use mini_bk.Scheduler.Selection.{select_node}
use mini_bk.Scheduler.Dispatch.{
  claim_task, start_task, run_locally, dispatch_local, dispatch_remote, place, make_pending,
  enqueue_created, start_claimed, dispatch,
}
use mini_bk.Scheduler.Limits.{hand_to_node-db}
use mini_bk.Scheduler.Growth.{claim_task-db}
use mini_bk.Scheduler.Retry.{find_row-written, update-calm}

module _ (now : Time) where
  -- The row of the task with the id and the time of creation of `r`, as `t` says, and running.
  pub IsRestarted : Task → Task → TaskDb → Type 0
  IsRestarted r t db =
      (node : String) × (find_row t.task_uid db.rows
        ≡ some (record t {
          status = running;
          started_at = some now;
          assigned_node_id = node;
          updated_at = now;
          id = r.id;
          created_at = r.created_at;
        }))

  started_on : Task → String → Task
  started_on t node = record t {
    status = running;
    started_at = some now;
    assigned_node_id = node;
    updated_at = now;
  }

  to_running :
      (t : Task)
      → t.status ≡ pending
      → transition_to now running t ≡ (none, record t { status = running; updated_at = now })
  unfolding transition_to
  to_running t e = ground (arith, e)

  as_pending : Task → Task
  as_pending t = record t { status = pending; updated_at = now }

  to_pending : (t : Task) → t.status ≡ created → transition_to now pending t ≡ (none, as_pending t)
  unfolding transition_to as_pending
  to_pending t e = ground (arith, e)

module _ {F Q E : Type 0} (fl : Floats F) (c : ClaimStore E) (now : Time) (r : Task) where
  module _ (t : Task) (s : Scheduler F Q E) (calm : s.db.answers ≡ [])
      (there : find_row t.task_uid s.db.rows ≡ some r) (waits : t.status ≡ pending) where
    written : (node : String) → TaskDb
    written node = record s.db {
      rows = update_rows (started_on now t node) s.db.rows;
      answers = [];
    }

    started-IsRestarted : (node : String) → IsRestarted now r t (written node)
    unfolding IsRestarted started_on written
    started-IsRestarted node = (
      node,
      find_row-written t.task_uid r (started_on now t node) s.db.rows there
          (sym (find_row-uid t.task_uid s.db.rows r there)),
    )

    start_here :
        start_task now (λ u. u) t s
        ≡ (some (started_on now t t.assigned_node_id), record s { db = written t.assigned_node_id })
    unfolding start_task started_on written
    start_here = ground (
      arith,
      to_running now t waits,
      update-calm now (started_on now t t.assigned_node_id) s.db calm,
    )

    start_there :
        (node : String)
        → start_task now (λ u. record u { assigned_node_id = node }) t s
          ≡ (some (started_on now t node), record s { db = written node })
    unfolding start_task started_on written
    start_there node =
        ground (arith, to_running now t waits, update-calm now (started_on now t node) s.db calm)

    local-IsRestarted : IsRestarted now r t (dispatch_local now t s).db
    unfolding dispatch_local run_locally launch add_context
    local-IsRestarted =
        rw (start_here, dispatch_local)
          (subst (λ x. IsRestarted now r t x.1.db) (sym start_here)
            (started-IsRestarted t.assigned_node_id))

    remote-IsRestarted : (n : Node F) → IsRestarted now r t (dispatch_remote now t n s).db
    unfolding dispatch_remote
    remote-IsRestarted n =
        let u = started_on now t n.node_id in
        let done = start_task now (λ u. record u { assigned_node_id = n.node_id }) t s in
        rw (start_there n.node_id, dispatch_remote, hand_to_node-db n.node_id u done.1)
          (subst (λ x. IsRestarted now r t x.1.db) (sym (start_there n.node_id))
            (started-IsRestarted n.node_id))

    place-IsRestarted : IsRestarted now r t (place fl c now t s).db
    unfolding place
    place-IsRestarted = by_choice (select_node fl t s.node_mgr) refl
      where
        by_choice :
            (x : Result (Option (Node F)))
            → select_node fl t s.node_mgr ≡ x
            → IsRestarted now r t (place fl c now t s).db
        by_choice (err x) e = rw (e, place) local-IsRestarted
        by_choice (ok none) e = rw (e, place) local-IsRestarted
        by_choice (ok (some n)) e = rw (e, place) (remote-IsRestarted n)

module _ {F Q E : Type 0} (fl : Floats F) (c : ClaimStore E) (now : Time) (t r : Task)
    (s : Scheduler F Q E) (calm : s.db.answers ≡ [])
    (there : find_row t.task_uid s.db.rows ≡ some r) where
  pending_written : Scheduler F Q E
  pending_written = record s {
    db = record s.db { rows = update_rows (as_pending now t) s.db.rows; answers = [] };
  }

  make_pending-done :
      t.status ≡ created → make_pending fl c now t s ≡ (some (as_pending now t), pending_written)
  unfolding make_pending as_pending pending_written
  make_pending-done e =
      ground (arith, to_pending now t e, update-calm now (as_pending now t) s.db calm)

  enqueue_created-done :
      t.status ≡ created
      → enqueue_created fl c t.status now t s ≡ (some (as_pending now t), pending_written)
  unfolding enqueue_created
  enqueue_created-done e =
      subst (λ st. enqueue_created fl c st now t s ≡ (some (as_pending now t), pending_written))
        (sym e) (make_pending-done e)

  abbrev placed : Option Task × Scheduler F Q E → Scheduler F Q E
  placed x = elim x.0 [ none ↦ x.1 | some t' ↦ place fl c now t' x.1 ]

  start_claimed-placed : start_claimed fl c now t s ≡ placed (enqueue_created fl c t.status now t s)
  unfolding start_claimed
  start_claimed-placed = refl

  enqueue_created-same : t.status ≡ pending → enqueue_created fl c t.status now t s ≡ (some t, s)
  unfolding enqueue_created
  enqueue_created-same e = subst (λ st. enqueue_created fl c st now t s ≡ (some t, s)) (sym e) refl

  start_claimed-IsRestarted :
      (t.status ≡ created) ⊎ (t.status ≡ pending)
      → IsRestarted now r t (start_claimed fl c now t s).db
  unfolding start_claimed enqueue_created IsRestarted pending_written as_pending
  start_claimed-IsRestarted (inr e) =
      subst (λ s'. IsRestarted now r t s'.db)
        (sym (start_claimed-placed ∙ ap placed (enqueue_created-same e)))
        (place-IsRestarted fl c now r t s calm there e)
  start_claimed-IsRestarted (inl e) =
      subst (λ s'. IsRestarted now r t s'.db)
        (sym (start_claimed-placed ∙ ap placed (enqueue_created-done e)))
        (place-IsRestarted fl c now
          (record (as_pending now t) { id = r.id; created_at = r.created_at }) (as_pending now t)
          pending_written refl
          (find_row-written t.task_uid r (as_pending now t) s.db.rows there
            (sym (find_row-uid t.task_uid s.db.rows r there)))
          refl)

module _ {F Q E : Type 0} (fl : Floats F) (c : ClaimStore E) (now : Time) (t r : Task)
    (s : Scheduler F Q E) (calm : s.db.answers ≡ [])
    (there : find_row t.task_uid s.db.rows ≡ some r) where
  -- The queue holds a copy of a task from the time when it was created or made pending, and the
  -- scheduler does not read its row again. With no fault of the store and a row of that UID, whatever
  -- status it has by now, also canceled: if the claim is granted, dispatch leaves a row that is
  -- running, started now, on some node or none, and else as the copy says, but for its id and its
  -- time of creation; if the claim is refused or fails, dispatch leaves the table as it is.
  pub dispatch-IsRestarted :
      (t.status ≡ created) ⊎ (t.status ≡ pending)
      → (((claim_task c t.task_uid s).0 ≡ ok true) × IsRestarted now r t (dispatch fl c now t s).db)
        ⊎ (((claim_task c t.task_uid s).0 ≢ ok true) × ((dispatch fl c now t s).db ≡ s.db))
  unfolding dispatch
  dispatch-IsRestarted waits = by_claim (claim_task c t.task_uid s).0 refl
    where
      s1 : Scheduler F Q E
      s1 = (claim_task c t.task_uid s).1

      kept : s1.db ≡ s.db
      kept = claim_task-db fl c now (λ a b. 0) t s

      by_claim :
          (x : Result Bool)
          → (claim_task c t.task_uid s).0 ≡ x
          → (((claim_task c t.task_uid s).0 ≡ ok true)
              × IsRestarted now r t (dispatch fl c now t s).db)
            ⊎ (((claim_task c t.task_uid s).0 ≢ ok true) × ((dispatch fl c now t s).db ≡ s.db))
      by_claim (err x) e = inr (λ h. absurd (ground (arith, e, h)), rw (e, dispatch) kept)
      by_claim (ok false) e = inr (λ h. absurd (ground (arith, e, h)), rw (e, dispatch) kept)
      by_claim (ok true) e = inl (
        e,
        rw (e, dispatch)
            (start_claimed-IsRestarted fl c now t r s1 (ap (λ db. db.answers) kept ∙ calm)
              (ap (λ db. find_row t.task_uid db.rows) kept ∙ there) waits),
      )
