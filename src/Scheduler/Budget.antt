-- ===== src/Scheduler/Budget.antt =====
-- A tick of internal/scheduler/scheduler.go keeps the running work within the limits.
use Prim.Native.Nat.{max}
use mini_bk.Prelude.{
  ◌+◌, ◌≤◌, List, [], ◌∷◌, Option, none, some, true, ◌≡◌, refl, arith, inl, inr, Bool-cases,
  Option-cases, All, length, subst, sym,
}
use mini_bk.Prelude.Int.{ℤ, pos, pos_part, ltb_ℤ, ◌-ℤ◌}
use mini_bk.Model.Task.{Task, Time}
use mini_bk.Store.TaskTable.{asked}
use mini_bk.Store.Load.{
  DistinctUids, load, running_rows, cost-running_rows, cost_one, All-running_rows,
  get_running_tasks-cases, get_running_tasks-db,
}
use mini_bk.Queue.Interface.{TaskQueue, KeepsTasks}
use mini_bk.Scheduler.State.{Scheduler, Floats, ClaimStore}
use mini_bk.Scheduler.Dispatch.{dispatch}
use mini_bk.Scheduler.Limits.{HasLimits}
use mini_bk.Scheduler.Growth.{dispatch-Adds, dispatch-queue}
use mini_bk.Scheduler.Shrink.{fail_overdue-Adds, fail_overdue-holds}
use mini_bk.Scheduler.Tick.{
  can_allocate, allocated_cpu, allocated_mem, fail_overdue, put_back, pop_task, PopRound,
  dispatch_loop, tick,
}
use mini_bk.Scheduler.Costs.{
  one, cpu_of, mem_of, one_less, fits_cpu, fits_mem, allocated_cpu-cost, allocated_mem-cost,
  left_of,
}

-- The running rows of the second table exceed those of the first by at most what was free.
pub record Within (cpu mem slots : ℤ) (rs rs' : List Task) : Type 0 where
  pub by_slots : load one rs' ≤ load one rs + pos_part slots
  pub by_cpu : load cpu_of rs' ≤ load cpu_of rs + pos_part cpu
  pub by_mem : load mem_of rs' ≤ load mem_of rs + pos_part mem

Within-refl : (cpu mem slots : ℤ) (rs : List Task) → Within cpu mem slots rs rs
Within-refl cpu mem slots rs = record {
  by_slots = omega arith;
  by_cpu = omega arith;
  by_mem = omega arith;
}

module _ {F Q E : Type 0} (o : TaskQueue Q) (AllIn : Q → Type 0)
    (holds : KeepsTasks o HasLimits AllIn) (fl : Floats F) (c : ClaimStore E) where
  popped-HasLimits :
      (now : Time) (s : Scheduler F Q E) (t : Task)
      → AllIn s.queue
      → (pop_task o now s).0 ≡ some t
      → HasLimits t
  unfolding pop_task
  popped-HasLimits now s t a e = holds.popped_holds (pos 100_000_000) now s.queue t a (ground arith)

  -- A task that fits, then what the loop does with what is left.
  Within-step :
      (now : Time) (cpu mem slots : ℤ) (t : Task) (s : Scheduler F Q E) (rs' : List Task)
      → DistinctUids s.db.rows
      → HasLimits t
      → can_allocate t cpu mem ≡ true
      → ltb_ℤ (pos 0) slots ≡ true
      → Within
          (cpu -ℤ t.cpu_limit)
          (mem -ℤ t.memory_limit)
          (slots -ℤ pos 1)
          (dispatch fl c now t s).db.rows
          rs'
      → Within cpu mem slots s.db.rows rs'
  Within-step now cpu mem slots t s rs' d n fits free w = record {
    by_slots =
        omega (arith, w.by_slots, (dispatch-Adds fl c now one t s d).grown, one_less slots free);
    by_cpu =
        omega
          (arith, w.by_cpu, (dispatch-Adds fl c now cpu_of t s d).grown, fits_cpu t cpu mem n fits);
    by_mem =
        omega
          (arith, w.by_mem, (dispatch-Adds fl c now mem_of t s d).grown, fits_mem t cpu mem n fits);
  }

  AfterLoop : (cpu mem slots : ℤ) (rs : List Task) → Option (Scheduler F Q E) → Type 0
  AfterLoop cpu mem slots rs none = Unit
  AfterLoop cpu mem slots rs (some s') =
      Within cpu mem slots rs s'.db.rows × DistinctUids s'.db.rows

  AfterLoop-mono :
      (cpu mem slots cpu' mem' slots' : ℤ) (rs rs1 : List Task)
      → ((rs' : List Task) → Within cpu' mem' slots' rs1 rs' → Within cpu mem slots rs rs')
      → (r : Option (Scheduler F Q E)) → AfterLoop cpu' mem' slots' rs1 r
      → AfterLoop cpu mem slots rs r
  unfolding AfterLoop
  AfterLoop-mono cpu mem slots cpu' mem' slots' rs rs1 f none h = tt
  AfterLoop-mono cpu mem slots cpu' mem' slots' rs rs1 f (some s') h = (f s'.db.rows h.0, h.1)

  -- What the others do leaves every task in the queue with its limits, if it was so before.
  abbrev Harmless : PopRound Q → Type 0
  Harmless r = (q : Q) → AllIn q → AllIn (r.others q)

  dispatch_loop-Within :
      (rounds : List (PopRound Q)) (cpu mem slots : ℤ) (s : Scheduler F Q E)
      → All Harmless rounds
      → AllIn s.queue
      → DistinctUids s.db.rows
      → AfterLoop cpu mem slots s.db.rows (dispatch_loop o fl c rounds cpu mem slots s)
  unfolding dispatch_loop AfterLoop pop_task put_back
  dispatch_loop-Within [] cpu mem slots s k a d = tt
  dispatch_loop-Within (r ∷ rs) cpu mem slots s (k, ks) a d =
      let now = r.at in
      let s0 : Scheduler F Q E = record s { queue = r.others s.queue } in
      let a0 = k s.queue a in
      elim (Bool-cases (ltb_ℤ (pos 0) slots)) [
        | inr e ↦ rw (e, dispatch_loop) (Within-refl cpu mem slots s.db.rows, d)
        | inl e ↦ elim (Option-cases (pop_task o now s0).0) [
          | inl empty ↦ rw (e, empty, dispatch_loop) (Within-refl cpu mem slots s.db.rows, d)
          | inr (t, popped) ↦
              let s1 = (pop_task o now s0).1 in
              let a1 = holds.pop_holds (pos 100_000_000) now s0.queue a0 in
              let limits = popped-HasLimits now s0 t a0 popped in
              elim (Bool-cases (can_allocate t cpu mem)) [
                | inl fits ↦
                    let s2 = dispatch fl c now t s1 in
                    rw (e, popped, fits, dispatch_loop)
                      (AfterLoop-mono cpu mem slots (cpu -ℤ t.cpu_limit) (mem -ℤ t.memory_limit)
                        (slots -ℤ pos 1) s.db.rows s2.db.rows
                        (λ rs' w. Within-step now cpu mem slots t s1 rs' d limits fits e w)
                        (dispatch_loop o fl c rs (cpu -ℤ t.cpu_limit) (mem -ℤ t.memory_limit)
                          (slots -ℤ pos 1) s2)
                        (dispatch_loop-Within rs (cpu -ℤ t.cpu_limit) (mem -ℤ t.memory_limit)
                          (slots -ℤ pos 1) s2 ks
                          (subst AllIn (sym (dispatch-queue fl c now t s1)) a1)
                          (dispatch-Adds fl c now one t s1 d).distinct))
                | inr large ↦
                    rw (e, popped, large, dispatch_loop)
                      (dispatch_loop-Within rs cpu mem slots (put_back o now t s1) ks
                        (holds.delayed_holds now (pos 1_000_000_000) t s1.queue limits a1) (d))
              ]
        ]
      ]

  -- What a tick may leave, for the limits of the scheduler it started from.
  WithinLimits : (total_cpu total_mem limit : ℤ) (rs rs' : List Task) → Type 0
  WithinLimits total_cpu total_mem limit rs rs' =
      (load one rs' ≤ max (pos_part limit) (load one rs))
      × (load cpu_of rs' ≤ max (pos_part total_cpu) (load cpu_of rs))
      × (load mem_of rs' ≤ max (pos_part total_mem) (load mem_of rs))

  AfterTick : Scheduler F Q E → Option (Scheduler F Q E) → Type 0
  unfolding WithinLimits
  AfterTick s none = Unit
  AfterTick s (some s') =
      WithinLimits s.total_cpu s.total_mem_mb s.max_concurrent s.db.rows s'.db.rows

  loop-WithinLimits :
      (s s1 : Scheduler F Q E) (r : Option (Scheduler F Q E))
      → All HasLimits s.db.rows
      → load one s1.db.rows ≤ load one s.db.rows
      → load cpu_of s1.db.rows ≤ load cpu_of s.db.rows
      → load mem_of s1.db.rows ≤ load mem_of s.db.rows
      → AfterLoop
          (s.total_cpu -ℤ allocated_cpu (running_rows s.db.rows))
          (s.total_mem_mb -ℤ allocated_mem (running_rows s.db.rows))
          (s.max_concurrent -ℤ pos (length (running_rows s.db.rows)))
          s1.db.rows
          r
      → AfterTick s r
  unfolding AfterLoop AfterTick WithinLimits
  loop-WithinLimits s s1 none l p q r h = tt
  loop-WithinLimits s s1 (some s') l p q r (w, _) =
      let rs = running_rows s.db.rows in
      let limits = All-running_rows HasLimits s.db.rows l in
      let w' =
        rw
          (
            allocated_cpu-cost rs limits,
            allocated_mem-cost rs limits,
            ← cost_one rs,
            cost-running_rows cpu_of s.db.rows,
            cost-running_rows mem_of s.db.rows,
            cost-running_rows one s.db.rows,
          )
          at w in
      (
        omega (arith, w'.by_slots, left_of s.max_concurrent (load one s.db.rows), p),
        omega (arith, w'.by_cpu, left_of s.total_cpu (load cpu_of s.db.rows), q),
        omega (arith, w'.by_mem, left_of s.total_mem_mb (load mem_of s.db.rows), r),
      )

  tick-AfterTick :
      (now : Time) (rounds : List (PopRound Q)) (s : Scheduler F Q E)
      → All Harmless rounds
      → AllIn s.queue
      → DistinctUids s.db.rows
      → All HasLimits s.db.rows
      → AfterTick s (tick o fl c rounds now s)
  unfolding tick AfterTick WithinLimits
  tick-AfterTick now rounds s k a d l = elim (get_running_tasks-cases s.db.answers s.db refl) [
    | inl (x, e) ↦ rw (e, tick, get_running_tasks-db s.db) (omega arith, omega arith, omega arith)
    | inr e ↦
        let rs = running_rows s.db.rows in
        let limits = All-running_rows HasLimits s.db.rows l in
        let s1 : Scheduler F Q E = record s { db = asked s.db } in
        let s2 = fail_overdue o now rs s1 in
        let a2 = fail_overdue-holds o AllIn holds now rs s1 limits a in
        let by_one = fail_overdue-Adds o now one rs s1 d in
        let by_cpu = fail_overdue-Adds o now cpu_of rs s1 d in
        let by_mem = fail_overdue-Adds o now mem_of rs s1 d in
        elim (Bool-cases (ltb_ℤ (pos 0) (s.max_concurrent -ℤ pos (length rs)))) [
          | inr full ↦
              rw (e, tick, full, get_running_tasks-db s.db)
                (
                  omega (arith, by_one.grown),
                  omega (arith, by_cpu.grown),
                  omega (arith, by_mem.grown),
                )
          | inl free ↦
              let cpu = s.total_cpu -ℤ allocated_cpu rs in
              let mem = s.total_mem_mb -ℤ allocated_mem rs in
              let slots = s.max_concurrent -ℤ pos (length rs) in
              rw (e, tick, free, get_running_tasks-db s.db)
                (loop-WithinLimits s s2 (dispatch_loop o fl c rounds cpu mem slots s2) l
                  (omega (arith, by_one.grown)) (omega (arith, by_cpu.grown))
                  (omega (arith, by_mem.grown))
                  (dispatch_loop-Within rounds cpu mem slots s2 k a2 by_one.distinct))
        ]
  ]

  -- Whatever the queue, etcd and the store answer, and whatever others do to the queue during the tick, a
  -- tick never leaves more running tasks than the
  -- concurrency limit, nor more CPU or memory given to them than the machine has, unless that was so
  -- before; then it leaves no more than there was. The UIDs of the table are distinct, and no limit
  -- in the table or in the queue is negative, also after what the others do to the queue.
  pub tick_within_limits :
      (now : Time) (rounds : List (PopRound Q)) (s s' : Scheduler F Q E)
      → All (λ r. (q : Q) → AllIn q → AllIn (r.others q)) rounds
      → AllIn s.queue
      → DistinctUids s.db.rows
      → All HasLimits s.db.rows
      → tick o fl c rounds now s ≡ some s'
      → (load one s'.db.rows ≤ max (pos_part s.max_concurrent) (load one s.db.rows))
        × (load cpu_of s'.db.rows ≤ max (pos_part s.total_cpu) (load cpu_of s.db.rows))
        × (load mem_of s'.db.rows ≤ max (pos_part s.total_mem_mb) (load mem_of s.db.rows))
  unfolding AfterTick WithinLimits
  tick_within_limits now rounds s s' k a d l e =
      subst (AfterTick s) e (tick-AfterTick now rounds s k a d l)
