-- ===== src/Examples/Claims.antt =====
-- Dispatches of internal/scheduler/scheduler.go against a store of claims in memory.
use mini_bk.Prelude.{
  ℕ, String, List, [], ◌∷◌, Bool, true, false, ◌≡◌, refl, some, arith, if◌then◌else◌, str_eq, ◌||◌,
  eq_refl,
}
use mini_bk.Prelude.Int.{pos}
use mini_bk.Model.Errors.{ok}
use mini_bk.Queue.InMem.{InMemQueue, in_mem}
use mini_bk.Scheduler.State.{Scheduler, ClaimStore}
use mini_bk.Scheduler.Dispatch.{dispatch}
use mini_bk.Scheduler.Claims.{IsClaims, Event, reports, ticks, pulls, run, dispatch-once}
use mini_bk.Examples.{task_a, percents, scheduler, broken_run}

abbrev held : String → List String → Bool
held uid [] = false
held uid (u ∷ us) = str_eq u uid || held uid us

-- The first who asks for a task gets it.
abbrev first_come : ClaimStore (List String)
first_come = record {
  claim = λ uid id us. if held uid us then (ok false, us) else (ok true, uid ∷ us);
}

first_come-IsClaims : IsClaims first_come held
first_come-IsClaims = record {
  claim_takes = λ uid id us e. ground (arith, eq_refl uid, e);
  claim_refuses = λ uid id us h e. ground (arith, h, e);
  claim_keeps = λ uid other id us h. ground (arith, h);
}

-- The task waits for its first dispatch.
abbrev claiming : Scheduler ℕ InMemQueue (List String)
claiming = record {
  db = scheduler.db;
  queue = scheduler.queue;
  node_mgr = scheduler.node_mgr;
  max_concurrent = pos 5;
  total_cpu = pos 8;
  total_mem_mb = pos 4096;
  has_redis = true;
  stats = [];
  cancel_funcs = [];
  contexts = 0;
  canceled = [];
  executions = [];
  node_tasks = [];
  etcd = some [];
  scheduler_id = "s";
}

-- The agent reports a failure, the node pulls and the scheduler ticks.
abbrev afterwards : List (Event ℕ InMemQueue (List String))
afterwards =
    reports (pos 7) "a" broken_run
    ∷ pulls "n"
    ∷ ticks (record { others = λ q. q; at = pos 9 } ∷ []) (pos 9)
    ∷ []

dispatch-once_example :
    let s' =
      run in_mem percents first_come held first_come-IsClaims afterwards
        (dispatch percents first_come (pos 6) task_a claiming) in
    (e' : List String) × (dispatch percents first_come
        (pos 8)
        (record task_a { retry_count = pos 1 })
        s'
      ≡ record s' { etcd = some e' })
dispatch-once_example =
    dispatch-once in_mem percents first_come held first_come-IsClaims (pos 6) (pos 8) task_a
      (record task_a { retry_count = pos 1 }) claiming [] afterwards refl refl refl
