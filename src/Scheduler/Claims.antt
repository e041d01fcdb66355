-- ===== src/Scheduler/Claims.antt =====
-- The claim of a task in etcd, over whatever the scheduler (internal/scheduler/scheduler.go) does after
-- it.
use mini_bk.Prelude.{
  String, List, [], ◌∷◌, Option, none, some, Bool, true, false, ◌≡◌, ◌≢◌, refl, sym, ap, ◌∙◌, subst,
  inl, inr, Bool-cases, Option-cases, length,
}
use mini_bk.Prelude.Int.{ℤ, pos, ltb_ℤ, ◌-ℤ◌}
use mini_bk.Model.Errors.{wrapped, Result, ok, err}
use mini_bk.Model.Task.{Task, Time}
use mini_bk.Store.TaskTable.{get_running_tasks}
use mini_bk.Executor.Outcome.{TaskResult}
use mini_bk.Queue.Interface.{TaskQueue}
use mini_bk.Scheduler.State.{
  Scheduler, Floats, ClaimStore, Execution, drop_cancel, cancel_message, get_next_task_for_node,
}
use mini_bk.Scheduler.Finish.{complete_task, handle_remote_result, finish_execution}
use mini_bk.Scheduler.Dispatch.{claim_task, start_claimed, dispatch}
use mini_bk.Scheduler.Tick.{
  fail_overdue, put_back, pop_task, PopRound, dispatch_loop, can_allocate, tick, allocated_cpu,
  allocated_mem,
}
use mini_bk.Scheduler.Etcd.{
  SameEtcd, start_claimed-etcd, handle_remote_result-etcd, complete_task-etcd, fail_overdue-etcd,
  get_next_task_for_node-etcd, cancel_message-etcd,
}

-- What etcd is documented to do with the transaction of ClaimTask while the lease of the keys lives:
-- `held` says whether the key of a task is there.
pub record IsClaims {E : Type 0} (c : ClaimStore E) (held : String → E → Bool) : Type 0 where
  pub claim_takes :
      (uid id : String) (e : E)
      → (c.claim uid id e).0 ≡ ok true
      → held uid (c.claim uid id e).1 ≡ true
  pub claim_refuses : (uid id : String) (e : E) → held uid e ≡ true → (c.claim uid id e).0 ≢ ok true
  pub claim_keeps :
      (uid other id : String) (e : E) → held uid e ≡ true → held uid (c.claim other id e).1 ≡ true

-- What a scheduler may do: dispatch a task that some queue returned, tick, take the result of an agent or
-- of a run of its own, hand a task to an agent, or get a cancel message.
pub data Event (F Q E : Type 0) : Type 0 where
  dispatches : Time → Task → Event F Q E
  ticks : List (PopRound Q) → Time → Event F Q E
  reports : Time → String → TaskResult → Event F Q E
  finishes : Time → TaskResult → Execution → Event F Q E
  pulls : String → Event F Q E
  cancels : String → Event F Q E

module _ {F Q E : Type 0} (o : TaskQueue Q) (fl : Floats F) (c : ClaimStore E)
    (held : String → E → Bool) (laws : IsClaims c held) where
  -- A tick that goes on after its rounds is no event.
  happen : Event F Q E → Scheduler F Q E → Scheduler F Q E
  happen (dispatches now t) s = dispatch fl c now t s
  happen (ticks rounds now) s = elim (tick o fl c rounds now s) [ none ↦ s | some s' ↦ s' ]
  happen (reports now uid result) s = handle_remote_result o now uid result s
  happen (finishes now result x) s = finish_execution o now result x s
  happen (pulls id) s = (get_next_task_for_node id s).1
  happen (cancels uid) s = cancel_message uid s

  pub run : List (Event F Q E) → Scheduler F Q E → Scheduler F Q E
  unfolding happen
  run [] s = s
  run (e ∷ es) s = run es (happen e s)

  -- The key of the task is in etcd.
  abbrev IsHeld : String → Scheduler F Q E → Type 0
  IsHeld uid s = (e : E) × (s.etcd ≡ some e) × (held uid e ≡ true)

  same-IsHeld :
      (uid : String) (s s' : Scheduler F Q E) → SameEtcd s s' → IsHeld uid s → IsHeld uid s'
  same-IsHeld uid s s' same (e, here, h) = (e, same ∙ here, h)

  claim_task-IsHeld :
      (uid other : String) (s : Scheduler F Q E)
      → IsHeld uid s
      → IsHeld uid (claim_task c other s).1
  unfolding claim_task
  claim_task-IsHeld uid other s (e, here, h) =
      rw (here, claim_task)
        ((c.claim other s.scheduler_id e).1, refl, laws.claim_keeps uid other s.scheduler_id e h)

  dispatch-IsHeld :
      (uid : String) (now : Time) (t : Task) (s : Scheduler F Q E)
      → IsHeld uid s
      → IsHeld uid (dispatch fl c now t s)
  unfolding dispatch
  dispatch-IsHeld uid now t s h = by_claim (claim_task c t.task_uid s).0 refl
    where
      kept : IsHeld uid (claim_task c t.task_uid s).1
      kept = claim_task-IsHeld uid t.task_uid s h

      by_claim :
          (r : Result Bool) → (claim_task c t.task_uid s).0 ≡ r → IsHeld uid (dispatch fl c now t s)
      by_claim (err x) e = rw (e, dispatch) kept
      by_claim (ok false) e = rw (e, dispatch) kept
      by_claim (ok true) e =
          rw (e, dispatch)
            (same-IsHeld uid (claim_task c t.task_uid s).1
              (start_claimed fl c now t (claim_task c t.task_uid s).1)
              (start_claimed-etcd fl c now t (claim_task c t.task_uid s).1) kept)

  -- What a tick leaves, if it ends.
  AfterHeld : String → Option (Scheduler F Q E) → Type 0
  AfterHeld uid none = Unit
  AfterHeld uid (some s') = IsHeld uid s'

  pop_task-IsHeld :
      (uid : String) (now : Time) (s : Scheduler F Q E)
      → IsHeld uid s
      → IsHeld uid (pop_task o now s).1
  unfolding pop_task
  pop_task-IsHeld uid now s h = h

  put_back-IsHeld :
      (uid : String) (now : Time) (t : Task) (s : Scheduler F Q E)
      → IsHeld uid s
      → IsHeld uid (put_back o now t s)
  unfolding put_back
  put_back-IsHeld uid now t s h = h

  dispatch_loop-IsHeld :
      (uid : String) (rounds : List (PopRound Q)) (cpu mem slots : ℤ) (s : Scheduler F Q E)
      → IsHeld uid s
      → AfterHeld uid (dispatch_loop o fl c rounds cpu mem slots s)
  unfolding dispatch_loop AfterHeld
  dispatch_loop-IsHeld uid [] cpu mem slots s h = tt
  dispatch_loop-IsHeld uid (r ∷ rs) cpu mem slots s h =
      let now = r.at in
      let s0 : Scheduler F Q E = record s { queue = r.others s.queue } in
      let s1 = (pop_task o now s0).1 in
      let h1 = pop_task-IsHeld uid now s0 h in
      elim (Bool-cases (ltb_ℤ (pos 0) slots)) [
        | inr e ↦ rw (e, dispatch_loop) h
        | inl e ↦ elim (Option-cases (pop_task o now s0).0) [
          | inl empty ↦ rw (e, empty, dispatch_loop) h1
          | inr (t, popped) ↦ elim (Bool-cases (can_allocate t cpu mem)) [
            | inl fits ↦
                rw (e, popped, fits, dispatch_loop)
                  (dispatch_loop-IsHeld uid rs (cpu -ℤ t.cpu_limit) (mem -ℤ t.memory_limit)
                    (slots -ℤ pos 1) (dispatch fl c now t s1) (dispatch-IsHeld uid now t s1 h1))
            | inr large ↦
                rw (e, popped, large, dispatch_loop)
                  (dispatch_loop-IsHeld uid rs cpu mem slots (put_back o now t s1)
                    (put_back-IsHeld uid now t s1 h1))
          ]
        ]
      ]

  tick-IsHeld :
      (uid : String) (rounds : List (PopRound Q)) (now : Time) (s : Scheduler F Q E)
      → IsHeld uid s
      → AfterHeld uid (tick o fl c rounds now s)
  unfolding tick AfterHeld
  tick-IsHeld uid rounds now s h = by_rows (get_running_tasks s.db).0 refl
    where
      s1 : Scheduler F Q E
      s1 = record s { db = (get_running_tasks s.db).1 }

      by_rows :
          (r : Result (List Task))
          → (get_running_tasks s.db).0 ≡ r
          → AfterHeld uid (tick o fl c rounds now s)
      by_rows (err x) e = rw (e, tick) h
      by_rows (ok ts) e =
          let after =
            same-IsHeld uid s1 (fail_overdue o now ts s1) (fail_overdue-etcd o now ts s1) h in
          elim (Bool-cases (ltb_ℤ (pos 0) (s.max_concurrent -ℤ pos (length ts)))) [
            | inr full ↦ rw (e, tick, full) after
            | inl free ↦
                rw (e, tick, free)
                  (dispatch_loop-IsHeld uid rounds (s.total_cpu -ℤ allocated_cpu ts)
                    (s.total_mem_mb -ℤ allocated_mem ts) (s.max_concurrent -ℤ pos (length ts))
                    (fail_overdue o now ts s1) after)
          ]

  happen-IsHeld :
      (uid : String) (e : Event F Q E) (s : Scheduler F Q E)
      → IsHeld uid s
      → IsHeld uid (happen e s)
  unfolding happen AfterHeld
  happen-IsHeld uid (dispatches now t) s h = dispatch-IsHeld uid now t s h
  happen-IsHeld uid (ticks fuel now) s h =
      ended (tick o fl c fuel now s) (tick-IsHeld uid fuel now s h)
    where
      ended :
          (r : Option (Scheduler F Q E))
          → AfterHeld uid r
          → IsHeld uid (elim r as (λ x. Scheduler F Q E) [ none ↦ s | some s' ↦ s' ])
      ended none k = h
      ended (some s') k = k
  happen-IsHeld uid (reports now other result) s h =
      same-IsHeld uid s (handle_remote_result o now other result s)
        (handle_remote_result-etcd o now other result s) h
  happen-IsHeld uid (finishes now result x) s h =
      unfold finish_execution drop_cancel in
      same-IsHeld uid s (complete_task o now result x.task s)
        (complete_task-etcd o now result x.task s) h
  happen-IsHeld uid (pulls id) s h =
      same-IsHeld uid s (get_next_task_for_node id s).1 (get_next_task_for_node-etcd id s) h
  happen-IsHeld uid (cancels other) s h =
      same-IsHeld uid s (cancel_message other s) (cancel_message-etcd other s) h

  run-IsHeld :
      (uid : String) (es : List (Event F Q E)) (s : Scheduler F Q E)
      → IsHeld uid s
      → IsHeld uid (run es s)
  unfolding run
  run-IsHeld uid [] s h = h
  run-IsHeld uid (e ∷ es) s h = run-IsHeld uid es (happen e s) (happen-IsHeld uid e s h)

  after_claim : String → Scheduler F Q E → E → Scheduler F Q E
  after_claim uid s e = record s { etcd = some (c.claim uid s.scheduler_id e).1 }

  named : Result Bool → Result Bool
  named (ok won) = ok won
  named (err x) = err (wrapped "claim task" x)

  claim_task_lem :
      (uid : String) (s : Scheduler F Q E) (e : E) (r : Result Bool)
      → s.etcd ≡ some e
      → (c.claim uid s.scheduler_id e).0 ≡ r
      → claim_task c uid s ≡ (named r, after_claim uid s e)
  unfolding claim_task named after_claim
  claim_task_lem uid s e (ok won) here a = rw (here, claim_task) (rw a refl)
  claim_task_lem uid s e (err x) here a = rw (here, claim_task) (rw a refl)

  -- A claim that is refused, or fails, changes nothing but etcd.
  dispatch-refused :
      (now : Time) (t : Task) (s : Scheduler F Q E)
      → IsHeld t.task_uid s
      → (e' : E) × (dispatch fl c now t s ≡ record s { etcd = some e' })
  unfolding dispatch named after_claim
  dispatch-refused now t s (e, here, h) = by_answer (c.claim t.task_uid s.scheduler_id e).0 refl
    where
      e1 : E
      e1 = (c.claim t.task_uid s.scheduler_id e).1

      by_answer :
          (r : Result Bool)
          → (c.claim t.task_uid s.scheduler_id e).0 ≡ r
          → (e' : E) × (dispatch fl c now t s ≡ record s { etcd = some e' })
      by_answer (err x) a = (
        e1,
        rw (claim_task_lem t.task_uid s e (err x) here a, dispatch)
            (ap (λ p. p.1) (claim_task_lem t.task_uid s e (err x) here a)),
      )
      by_answer (ok false) a = (
        e1,
        rw (claim_task_lem t.task_uid s e (ok false) here a, dispatch)
            (ap (λ p. p.1) (claim_task_lem t.task_uid s e (ok false) here a)),
      )
      by_answer (ok true) a = absurd (laws.claim_refuses t.task_uid s.scheduler_id e h a)

  dispatch-granted :
      (now : Time) (t : Task) (s : Scheduler F Q E) (e : E)
      → s.etcd ≡ some e
      → (c.claim t.task_uid s.scheduler_id e).0 ≡ ok true
      → IsHeld t.task_uid (dispatch fl c now t s)
  unfolding dispatch named after_claim
  dispatch-granted now t s e here granted =
      let won = claim_task_lem t.task_uid s e (ok true) here granted in
      let s1 = (claim_task c t.task_uid s).1 in
      rw (won, dispatch)
        (same-IsHeld t.task_uid s1 (start_claimed fl c now t s1) (start_claimed-etcd fl c now t s1)
          (
            (c.claim t.task_uid s.scheduler_id e).1,
            ap (λ p. p.1.etcd) won,
            laws.claim_takes t.task_uid s.scheduler_id e granted,
          ))

  -- Once the claim of a task is granted, and as long as the lease of the claim lives: whatever ticks,
  -- dispatches, results, pulls and cancel messages come after its dispatch, a further dispatch of the
  -- same task changes nothing but etcd. It is thus never started twice, and a retry of it, too, is
  -- taken from the queue and not started.
  pub dispatch-once :
      (now later : Time) (t u : Task) (s : Scheduler F Q E) (e : E) (es : List (Event F Q E))
      → s.etcd ≡ some e
      → (c.claim t.task_uid s.scheduler_id e).0 ≡ ok true
      → u.task_uid ≡ t.task_uid
      → let s' = run es (dispatch fl c now t s) in
        (e' : E) × (dispatch fl c later u s' ≡ record s' { etcd = some e' })
  dispatch-once now later t u s e es here granted same =
      let s' = run es (dispatch fl c now t s) in
      let h =
        run-IsHeld t.task_uid es (dispatch fl c now t s)
          (dispatch-granted now t s e here granted) in
      dispatch-refused later u s' (subst (λ uid. IsHeld uid s') (sym same) h)
