-- ===== src/Scheduler/Growth.antt =====
-- What one dispatch (internal/scheduler/scheduler.go) changes: at most one task's demand is added to
-- the running rows, and the queue is left alone.
use mini_bk.Prelude.{
  ℕ, ◌+◌, ◌≤◌, Option, none, some, Bool, true, false, ◌≡◌, refl, arith, inl, inr, sym, subst,
  Option-cases,
}
use mini_bk.Prelude.Int.{ℤ}
use mini_bk.Model.Errors.{TaskStatus, created, pending, Result, ok, err}
use mini_bk.Model.Task.{Task, Time, transition_to}
use mini_bk.Model.Node.{Node}
use mini_bk.Store.TaskTable.{update, has_status}
use mini_bk.Store.Load.{DistinctUids, load, update-DistinctUids, load-update}
use mini_bk.Scheduler.State.{
  Scheduler, Floats, ClaimStore, add_context, launch, send_to_node, open_node_queue,
}
use mini_bk.Scheduler.Selection.{select_node}
use mini_bk.Scheduler.Limits.{
  demand, dispatch_local-load, dispatch_local-DistinctUids, dispatch_remote-load,
  dispatch_remote-DistinctUids,
}
use mini_bk.Scheduler.Dispatch.{
  claim_task, start_task, run_locally, dispatch_local, hand_to_node, dispatch_remote, place,
  make_pending, enqueue_created, start_claimed, dispatch,
}

-- What a step does to the table and the queue: `n` is the most that it adds to the running rows.
pub record Adds {F Q E : Type 0} (g : ℤ → ℤ → ℕ) (n : ℕ) (s s' : Scheduler F Q E) : Type 0 where
  pub distinct : DistinctUids s'.db.rows
  pub grown : load g s'.db.rows ≤ load g s.db.rows + n

module _ {F Q E : Type 0} (fl : Floats F) (c : ClaimStore E) (now : Time) (g : ℤ → ℤ → ℕ) where
  place-Adds :
      (t : Task) (s : Scheduler F Q E)
      → DistinctUids s.db.rows
      → Adds g (demand g t) s (place fl c now t s)
  unfolding place
  place-Adds t s d = by_choice (select_node fl t s.node_mgr) refl
    where
      local : Adds g (demand g t) s (dispatch_local now t s)
      local = record {
        distinct = dispatch_local-DistinctUids now g t s d;
        grown = dispatch_local-load now g t s d;
      }

      by_choice :
          (r : Result (Option _))
          → select_node fl t s.node_mgr ≡ r
          → Adds g (demand g t) s (place fl c now t s)
      by_choice (err x) e = rw (e, place) local
      by_choice (ok none) e = rw (e, place) local
      by_choice (ok (some n)) e =
          rw (e, place)
            (record {
              distinct = dispatch_remote-DistinctUids now g t n s d;
              grown = dispatch_remote-load now g t n s d;
            })

  -- A created task becomes pending first; any other is passed on.
  make_pending-Adds :
      (t : Task) (s : Scheduler F Q E)
      → DistinctUids s.db.rows
      → t.status ≡ created
      → Adds g 0 s (make_pending fl c now t s).1
  unfolding make_pending transition_to has_status
  make_pending-Adds t s d e = record {
    distinct = ground (arith, update-DistinctUids now pending_task s.db d);
    grown = ground (arith, load-update now pending_task s.db g d);
  }
    where
      pending_task : Task
      pending_task = record t { status = pending; updated_at = now }

  -- The task that is passed on has the limits of the one that was taken.
  make_pending-limits :
      (t u : Task) (s : Scheduler F Q E)
      → (make_pending fl c now t s).0 ≡ some u
      → demand g u ≡ demand g t
  unfolding make_pending transition_to update
  make_pending-limits t u s e = ground arith

  Started : Task → Scheduler F Q E → Option Task × Scheduler F Q E → Type 0
  Started t s r = Adds g 0 s r.1 × ((u : Task) → r.0 ≡ some u → demand g u ≡ demand g t)

  enqueue_created-Started :
      (st : TaskStatus) (t : Task) (s : Scheduler F Q E)
      → DistinctUids s.db.rows
      → t.status ≡ st
      → Started t s (enqueue_created fl c st now t s)
  unfolding enqueue_created Started
  enqueue_created-Started created t s d e =
      (make_pending-Adds t s d e, λ u p. make_pending-limits t u s p)
  enqueue_created-Started _ t s d e =
      (record { distinct = d; grown = omega arith }, λ u p. ground arith)

  start_claimed-Adds :
      (t : Task) (s : Scheduler F Q E)
      → DistinctUids s.db.rows
      → Adds g (demand g t) s (start_claimed fl c now t s)
  unfolding start_claimed Started
  start_claimed-Adds t s d =
      let (adds, limits) = enqueue_created-Started t.status t s d refl in
      elim (Option-cases (enqueue_created fl c t.status now t s).0) [
        | inl e ↦
            rw (e, start_claimed)
              (record { distinct = adds.distinct; grown = omega (arith, adds.grown) })
        | inr (u, e) ↦
            let more = place-Adds u (enqueue_created fl c t.status now t s).1 adds.distinct in
            rw (e, start_claimed)
              (record {
                distinct = more.distinct;
                grown = omega (arith, adds.grown, more.grown, limits u e);
              })
      ]

  pub claim_task-db : (t : Task) (s : Scheduler F Q E) → (claim_task c t.task_uid s).1.db ≡ s.db
  unfolding claim_task
  claim_task-db t s = ground arith

  Adds-from : {n : ℕ} {s s1 s' : Scheduler F Q E} → s1.db ≡ s.db → Adds g n s1 s' → Adds g n s s'
  Adds-from {n} {s} {s1} {s'} e a = record {
    distinct = a.distinct;
    grown = subst (λ db. load g s'.db.rows ≤ load g db.rows + n) e a.grown;
  }

  -- A dispatch adds at most the task's own demand to the running rows, on every branch, and keeps the
  -- UIDs of the table distinct.
  pub dispatch-Adds :
      (t : Task) (s : Scheduler F Q E)
      → DistinctUids s.db.rows
      → Adds g (demand g t) s (dispatch fl c now t s)
  unfolding dispatch
  dispatch-Adds t s d = by_claim (claim_task c t.task_uid s).0 refl
    where
      s1 : Scheduler F Q E
      s1 = (claim_task c t.task_uid s).1

      d1 : DistinctUids s1.db.rows
      d1 = subst (λ db. DistinctUids db.rows) (sym (claim_task-db t s)) d

      nothing : Adds g (demand g t) s s1
      nothing =
          Adds-from {s1 = s1} (claim_task-db t s) (record { distinct = d1; grown = omega arith })

      by_claim :
          (r : Result Bool)
          → (claim_task c t.task_uid s).0 ≡ r
          → Adds g (demand g t) s (dispatch fl c now t s)
      by_claim (err x) e = rw (e, dispatch) nothing
      by_claim (ok false) e = rw (e, dispatch) nothing
      by_claim (ok true) e =
          rw (e, dispatch) (Adds-from (claim_task-db t s) (start_claimed-Adds t s1 d1))

module _ {F Q E : Type 0} (now : Time) where
  start_task-queue :
      (f : Task → Task) (t : Task) (s : Scheduler F Q E) → (start_task now f t s).1.queue ≡ s.queue
  unfolding start_task
  start_task-queue f t s = ground arith

  dispatch_local-queue : (t : Task) (s : Scheduler F Q E) → (dispatch_local now t s).queue ≡ s.queue
  unfolding dispatch_local run_locally launch add_context
  dispatch_local-queue t s = ground (arith, start_task-queue (λ u. u) t s)

  dispatch_remote-queue :
      (t : Task) (n : Node F) (s : Scheduler F Q E) → (dispatch_remote now t n s).queue ≡ s.queue
  unfolding dispatch_remote hand_to_node launch add_context send_to_node open_node_queue
  dispatch_remote-queue t n s =
      ground (arith, start_task-queue (λ u. record u { assigned_node_id = n.node_id }) t s)

module _ {F Q E : Type 0} (fl : Floats F) (c : ClaimStore E) (now : Time) where
  place-queue : (t : Task) (s : Scheduler F Q E) → (place fl c now t s).queue ≡ s.queue
  unfolding place
  place-queue t s = grind (arith, dispatch_local-queue, dispatch_remote-queue)

  enqueue_created-queue :
      (st : TaskStatus) (t : Task) (s : Scheduler F Q E)
      → (enqueue_created fl c st now t s).1.queue ≡ s.queue
  unfolding enqueue_created make_pending
  enqueue_created-queue created t s = ground arith
  enqueue_created-queue _ t s = refl

  start_claimed-queue :
      (t : Task) (s : Scheduler F Q E) → (start_claimed fl c now t s).queue ≡ s.queue
  unfolding start_claimed
  start_claimed-queue t s = grind (arith, place-queue, enqueue_created-queue t.status t s)

  -- A dispatch neither takes from the queue nor adds to it.
  pub dispatch-queue : (t : Task) (s : Scheduler F Q E) → (dispatch fl c now t s).queue ≡ s.queue
  unfolding dispatch claim_task
  dispatch-queue t s = grind (arith, start_claimed-queue)
