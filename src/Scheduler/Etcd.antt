-- ===== src/Scheduler/Etcd.antt =====
-- What of internal/scheduler/scheduler.go leaves the state of etcd alone: all but ClaimTask.
use mini_bk.Prelude.{
  String, List, [], ◌∷◌, Option, none, some, Bool, true, false, ◌≡◌, refl, ◌∙◌, arith, inl, inr,
  Bool-cases, Option-cases, if◌then◌else◌,
}
use mini_bk.Prelude.Maps.{lookup}
use mini_bk.Model.Errors.{TaskStatus, created, pending, running, Result, ok, err}
use mini_bk.Model.Task.{Task, Time, can_retry}
use mini_bk.Model.Node.{Node}
use mini_bk.Store.TaskTable.{get_by_uid}
use mini_bk.Executor.Outcome.{TaskResult, error_text}
use mini_bk.Queue.Interface.{TaskQueue}
use mini_bk.Scheduler.State.{
  Scheduler, Floats, ClaimStore, add_context, launch, open_node_queue, send_to_node, count_stat,
  drop_cancel, cancel_message, get_next_task_for_node, receive,
}
use mini_bk.Scheduler.Selection.{select_node}
use mini_bk.Scheduler.Finish.{
  requeue, retry_task, give_up, fail_task, succeed, complete_task, handle_remote_result,
}
use mini_bk.Scheduler.Dispatch.{
  start_task, dispatch_local, hand_to_node, dispatch_remote, place, make_pending, enqueue_created,
  start_claimed,
}
use mini_bk.Scheduler.Tick.{fail_overdue, is_overdue}

module _ {F Q E : Type 0} where
  abbrev pub SameEtcd : Scheduler F Q E → Scheduler F Q E → Type 0
  SameEtcd s s' = s'.etcd ≡ s.etcd

  start_task-etcd :
      (now : Time) (assign : Task → Task) (t : Task) (s : Scheduler F Q E)
      → SameEtcd s (start_task now assign t s).1
  unfolding start_task
  start_task-etcd now assign t s = ground arith

  send_to_node-etcd :
      (id : String) (t : Task) (s s' : Scheduler F Q E)
      → send_to_node id t s ≡ some s'
      → SameEtcd s s'
  unfolding send_to_node
  send_to_node-etcd id t s s' h = ground (arith, h)

  dispatch_local-etcd :
      (now : Time) (t : Task) (s : Scheduler F Q E) → SameEtcd s (dispatch_local now t s)
  unfolding dispatch_local launch add_context
  dispatch_local-etcd now t s = elim (Option-cases (start_task now (λ u. u) t s).0) [
    | inl e ↦ rw (e, dispatch_local) (start_task-etcd now (λ u. u) t s)
    | inr (t', e) ↦ rw (e, dispatch_local) (start_task-etcd now (λ u. u) t s)
  ]

  hand_to_node-etcd :
      (id : String) (t : Task) (s : Scheduler F Q E) → SameEtcd s (hand_to_node id t s)
  unfolding hand_to_node launch open_node_queue add_context
  hand_to_node-etcd id t s = elim (Option-cases (send_to_node id t (add_context t s))) [
    | inl e ↦ rw (e, hand_to_node) refl
    | inr (s', e) ↦ rw (e, hand_to_node) (send_to_node-etcd id t (add_context t s) s' e)
  ]

  dispatch_remote-etcd :
      (now : Time) (t : Task) (n : Node F) (s : Scheduler F Q E)
      → SameEtcd s (dispatch_remote now t n s)
  unfolding dispatch_remote
  dispatch_remote-etcd now t n s =
      elim (Option-cases (start_task now (λ u. record u { assigned_node_id = n.node_id }) t s).0) [
        | inl e ↦ rw (e, dispatch_remote) (start_task-etcd now _ t s)
        | inr (t', e) ↦
            rw (e, dispatch_remote) (hand_to_node-etcd n.node_id t' _ ∙ start_task-etcd now _ t s)
      ]

  make_pending-etcd :
      (fl : Floats F) (c : ClaimStore E) (now : Time) (t : Task) (s : Scheduler F Q E)
      → SameEtcd s (make_pending fl c now t s).1
  unfolding make_pending
  make_pending-etcd fl c now t s = ground arith

  place-etcd :
      (fl : Floats F) (c : ClaimStore E) (now : Time) (t : Task) (s : Scheduler F Q E)
      → SameEtcd s (place fl c now t s)
  unfolding place
  place-etcd fl c now t s = by_choice (select_node fl t s.node_mgr) refl
    where
      by_choice :
          (r : Result (Option (Node F)))
          → select_node fl t s.node_mgr ≡ r
          → SameEtcd s (place fl c now t s)
      by_choice (err x) e = rw (e, place) (dispatch_local-etcd now t s)
      by_choice (ok none) e = rw (e, place) (dispatch_local-etcd now t s)
      by_choice (ok (some n)) e = rw (e, place) (dispatch_remote-etcd now t n s)

  pub start_claimed-etcd :
      (fl : Floats F) (c : ClaimStore E) (now : Time) (t : Task) (s : Scheduler F Q E)
      → SameEtcd s (start_claimed fl c now t s)
  unfolding start_claimed enqueue_created
  start_claimed-etcd fl c now t s = elim (Option-cases (enqueue_created fl c t.status now t s).0) [
    | inl e ↦ rw (e, start_claimed) (readied t.status)
    | inr (t', e) ↦ rw (e, start_claimed) (place-etcd fl c now t' _ ∙ readied t.status)
  ]
    where
      readied : (status : TaskStatus) → SameEtcd s (enqueue_created fl c status now t s).1
      readied created = make_pending-etcd fl c now t s
      readied pending = refl
      readied running = refl
      readied TaskStatus.success = refl
      readied TaskStatus.failed = refl
      readied TaskStatus.canceled = refl
      readied (TaskStatus.unknown x) = refl

  give_up-etcd :
      (o : TaskQueue Q) (now : Time) (t : Task) (s : Scheduler F Q E)
      → SameEtcd s (give_up o now t s)
  unfolding give_up count_stat
  give_up-etcd o now t s = ground arith

  retry_task-etcd :
      (o : TaskQueue Q) (now : Time) (t : Task) (s : Scheduler F Q E)
      → SameEtcd s (retry_task o now t s)
  unfolding retry_task requeue
  retry_task-etcd o now t s = ground arith

  fail_task-etcd :
      (o : TaskQueue Q) (now : Time) (message : String) (t : Task) (s : Scheduler F Q E)
      → SameEtcd s (fail_task o now message t s)
  unfolding fail_task
  fail_task-etcd o now message t s =
      let u = record t { error_message = message } in
      elim (Bool-cases (can_retry u)) [
        | inl e ↦ rw (e, fail_task) (retry_task-etcd o now u s)
        | inr e ↦ rw (e, fail_task) (give_up-etcd o now u s)
      ]

  succeed-etcd :
      (o : TaskQueue Q) (now : Time) (t : Task) (s : Scheduler F Q E)
      → SameEtcd s (succeed o now t s)
  unfolding succeed count_stat
  succeed-etcd o now t s = ground arith

  pub complete_task-etcd :
      (o : TaskQueue Q) (now : Time) (result : TaskResult) (t : Task) (s : Scheduler F Q E)
      → SameEtcd s (complete_task o now result t s)
  unfolding complete_task
  complete_task-etcd o now result t s =
      let u = record t { stdout = result.stdout; stderr = result.stderr; finished_at = some now } in
      elim (Option-cases result.error) [
        | inl e ↦
            rw (e, complete_task)
              (succeed-etcd o now (record u { exit_code = some result.exit_code }) s)
        | inr (x, e) ↦
            rw (e, complete_task)
              (fail_task-etcd o now (if result.timed_out then "task timed out" else error_text x) u
                s)
      ]

  pub handle_remote_result-etcd :
      (o : TaskQueue Q) (now : Time) (uid : String) (result : TaskResult) (s : Scheduler F Q E)
      → SameEtcd s (handle_remote_result o now uid result s)
  unfolding handle_remote_result drop_cancel
  handle_remote_result-etcd o now uid result s = by_row (get_by_uid uid s.db).0 refl
    where
      by_row :
          (r : Result Task)
          → (get_by_uid uid s.db).0 ≡ r
          → SameEtcd s (handle_remote_result o now uid result s)
      by_row (err x) e = rw (e, handle_remote_result) refl
      by_row (ok t) e = rw (e, handle_remote_result) (complete_task-etcd o now result t _)

  pub fail_overdue-etcd :
      (o : TaskQueue Q) (now : Time) (ts : List Task) (s : Scheduler F Q E)
      → SameEtcd s (fail_overdue o now ts s)
  unfolding fail_overdue
  fail_overdue-etcd o now [] s = refl
  fail_overdue-etcd o now (t ∷ ts) s =
      fail_overdue-etcd o now ts
        (if is_overdue now t then fail_task o now "task timed out" t s else s)
      ∙ first (is_overdue now t)
    where
      first : (due : Bool) → SameEtcd s (if due then fail_task o now "task timed out" t s else s)
      first true = fail_task-etcd o now "task timed out" t s
      first false = refl

  pub get_next_task_for_node-etcd :
      (id : String) (s : Scheduler F Q E) → SameEtcd s (get_next_task_for_node id s).1
  unfolding get_next_task_for_node receive
  get_next_task_for_node-etcd id s = elim (Option-cases (lookup id s.node_tasks)) [
    | inl e ↦ rw (e, get_next_task_for_node) refl
    | inr (ch, e) ↦ rw (e, get_next_task_for_node) (received ch)
  ]
    where
      received : (ch : List Task) → SameEtcd s (receive id ch s).1
      received [] = refl
      received (t ∷ rest) = refl

  pub cancel_message-etcd : (uid : String) (s : Scheduler F Q E) → SameEtcd s (cancel_message uid s)
  unfolding cancel_message
  cancel_message-etcd uid s = elim (Option-cases (lookup uid s.cancel_funcs)) [
    | inl e ↦ rw (e, cancel_message) refl
    | inr (ctx, e) ↦ rw (e, cancel_message) refl
  ]
