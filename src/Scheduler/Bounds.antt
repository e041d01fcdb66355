-- ===== src/Scheduler/Bounds.antt =====
-- How many rounds a tick of internal/scheduler/scheduler.go has while nothing new comes to wait.
pub mod InMem
use mini_bk.Prelude.{
  ℕ, [], ◌∷◌, All, ◌≤◌, ◌<◌, List, Option, some, ◌≡◌, refl, arith, inl, inr, Bool-cases,
  Option-cases, length, subst,
}
use mini_bk.Prelude.Int.{ℤ, pos, ltb_ℤ, ◌-ℤ◌}
use mini_bk.Model.Errors.{Result, ok, err}
use mini_bk.Model.Task.{Task, Time}
use mini_bk.Store.TaskTable.{get_running_tasks}
use mini_bk.Queue.Interface.{TaskQueue}
use mini_bk.Scheduler.State.{Scheduler, Floats, ClaimStore}
use mini_bk.Scheduler.Dispatch.{dispatch}
use mini_bk.Scheduler.Growth.{dispatch-queue}
use mini_bk.Scheduler.Tick.{
  can_allocate, allocated_cpu, allocated_mem, fail_overdue, put_back, pop_task, PopRound,
  dispatch_loop, tick,
}

module _ {F Q E : Type 0} (o : TaskQueue Q) where
  unfoldable pub after_first : Time → Scheduler F Q E → Result (List Task) → Scheduler F Q E
  after_first now s (err e) = s
  after_first now s (ok tasks) = fail_overdue o now tasks s

  -- The state after the first loop of the tick.
  unfoldable pub after_timeouts : Time → Scheduler F Q E → Scheduler F Q E
  after_timeouts now s =
      after_first now (record s { db = (get_running_tasks s.db).1 }) (get_running_tasks s.db).0

module _ {F Q E : Type 0} (o : TaskQueue Q) (waiting : Q → ℕ)
    (takes : (timeout : ℤ) (now : Time) (q : Q) (t : Task)
      → (o.pop timeout now q).0 ≡ ok (some t)
      → waiting (o.pop timeout now q).1 < waiting q)
    (fl : Floats F) (c : ClaimStore E) where
  pop_task-waiting :
      (now : Time) (s : Scheduler F Q E) (t : Task)
      → (pop_task o now s).0 ≡ some t
      → waiting (pop_task o now s).1.queue < waiting s.queue
  unfolding pop_task
  pop_task-waiting now s t e = ground (arith, takes (pos 100_000_000) now s.queue t)

  Ends : Option (Scheduler F Q E) → Type 0
  Ends r = (s' : Scheduler F Q E) × (r ≡ some s')

  -- Neither the others nor a put-back in the round make more tasks wait.
  pub Quiet : PopRound Q → Type 0
  Quiet r =
      ((q : Q) → waiting (r.others q) ≤ waiting q)
      × ((s : Scheduler F Q E) (t : Task) → waiting (put_back o r.at t s).queue ≤ waiting s.queue)

  dispatch_loop-Ends :
      (rounds : List (PopRound Q)) (cpu mem slots : ℤ) (s : Scheduler F Q E)
      → All Quiet rounds
      → waiting s.queue < length rounds
      → Ends (dispatch_loop o fl c rounds cpu mem slots s)
  unfolding dispatch_loop Ends Quiet
  dispatch_loop-Ends [] cpu mem slots s k h = absurd (omega arith)
  dispatch_loop-Ends (r ∷ rs) cpu mem slots s ((k, back), ks) h =
      let now = r.at in
      let s0 : Scheduler F Q E = record s { queue = r.others s.queue } in
      let quiet = k s.queue in
      elim (Bool-cases (ltb_ℤ (pos 0) slots)) [
        | inr e ↦ (s, rw e)
        | inl e ↦ elim (Option-cases (pop_task o now s0).0) [
          | inl empty ↦ ((pop_task o now s0).1, rw (e, empty))
          | inr (t, popped) ↦
              let s1 = (pop_task o now s0).1 in
              let fewer = pop_task-waiting now s0 t popped in
              elim (Bool-cases (can_allocate t cpu mem)) [
                | inl fits ↦
                    rw (e, popped, fits)
                      (dispatch_loop-Ends rs (cpu -ℤ t.cpu_limit) (mem -ℤ t.memory_limit)
                        (slots -ℤ pos 1) (dispatch fl c now t s1) ks
                        (rw (dispatch-queue fl c now t s1) (omega arith)))
                | inr large ↦
                    rw (e, popped, large)
                      (dispatch_loop-Ends rs cpu mem slots (put_back o now t s1) ks
                        (omega (arith, back s1 t)))
              ]
        ]
      ]

  pub tick-Ends :
      (now : Time) (rounds : List (PopRound Q)) (s : Scheduler F Q E)
      → All Quiet rounds
      → waiting (after_timeouts o now s).queue < length rounds
      → (s' : Scheduler F Q E) × (tick o fl c rounds now s ≡ some s')
  unfolding tick Ends after_timeouts after_first
  tick-Ends now rounds s k h = by_rows (get_running_tasks s.db).0 refl h
    where
      s1 : Scheduler F Q E
      s1 = record s { db = (get_running_tasks s.db).1 }

      by_rows :
          (r : Result (List Task))
          → (get_running_tasks s.db).0 ≡ r
          → waiting (after_timeouts o now s).queue < length rounds
          → Ends (tick o fl c rounds now s)
      by_rows (err x) e few = (s1, rw (e, tick))
      by_rows (ok ts) e few =
          let slots = s.max_concurrent -ℤ pos (length ts) in
          elim (Bool-cases (ltb_ℤ (pos 0) slots)) [
            | inr full ↦ (fail_overdue o now ts s1, rw (e, tick, full))
            | inl free ↦
                rw (e, tick, free)
                  (dispatch_loop-Ends rounds (s.total_cpu -ℤ allocated_cpu ts)
                    (s.total_mem_mb -ℤ allocated_mem ts) slots (fail_overdue o now ts s1) k
                    (subst (λ r. waiting (after_first o now s1 r).queue < length rounds) e few))
          ]
