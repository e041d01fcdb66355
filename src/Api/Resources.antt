-- ===== src/Api/Resources.antt =====
-- internal/api/resource_handler.go, as Api has the task handlers. What Redis has of a day is an
-- argument, `none` for a nil client, and so is the quotient of two ints as float64.
use mini_bk.Prelude.{ℕ, ◌+◌, String, List, [], ◌∷◌, Option, none, some, if◌then◌else◌, ◌==◌}
use mini_bk.Prelude.Int.{ℤ, pos}
use mini_bk.Model.Errors.{TaskStatus, ok, err}
use mini_bk.Model.Task.{Task}
use mini_bk.Executor.Outcome.{error_text}
use mini_bk.Queue.Interface.{TaskQueue}
use mini_bk.Scheduler.State.{Scheduler, get_total_resources}
use mini_bk.Service.{TaskService, list_tasks}
use mini_bk.Api.{Reply, refused, answered}

pub record ResourceReply : Type 0 where
  pub cpu_cores : ℤ
  pub memory_mb : ℤ
  -- Both are 0 without a provider, and are not in the answer otherwise.
  pub allocated : Option (ℤ × ℤ)

unfoldable pub get_resources : {F Q E : Type 0} → Option (Scheduler F Q E) → Reply ResourceReply
get_resources none =
    answered (pos 200)
      (record { cpu_cores = pos 0; memory_mb = pos 0; allocated = some (pos 0, pos 0) })
get_resources (some s) =
    let (cpu, mem) = get_total_resources s in
    answered (pos 200) (record { cpu_cores = cpu; memory_mb = mem; allocated = none })

-- The four counters of the loop.
pub record Counts : Type 0 where
  pub submitted : ℕ
  pub success : ℕ
  pub failed : ℕ
  pub running : ℕ

unfoldable pub count_status : TaskStatus → Counts → Counts
count_status TaskStatus.success c = record c { success = c.success + 1 }
count_status TaskStatus.failed c = record c { failed = c.failed + 1 }
count_status TaskStatus.running c = record c { running = c.running + 1 }
count_status _ c = c

unfoldable pub count_tasks : List Task → Counts → Counts
count_tasks [] c = c
count_tasks (t ∷ ts) c =
    count_tasks ts (count_status t.status (record c { submitted = c.submitted + 1 }))

unfoldable pub safe_div : {F : Type 0} → F → (ℕ → ℕ → F) → ℕ → ℕ → F
safe_div z quotient a b = if b == 0 then z else quotient a b

pub record Stats (F : Type 0) : Type 0 where
  pub total_tasks : ℕ
  pub counts : Counts
  pub success_rate : F
  pub daily : Option (List (String × String))

-- An empty map of the day is left out.
unfoldable pub daily_of : Option (List (String × String)) → Option (List (String × String))
daily_of none = none
daily_of (some []) = none
daily_of (some (x ∷ xs)) = some (x ∷ xs)

unfoldable pub get_stats :
    {F Q : Type 0}
    → TaskQueue Q
    → F
    → (ℕ → ℕ → F)
    → Option (List (String × String))
    → TaskService Q
    → Reply (Stats F) × TaskService Q
unfolding count_tasks safe_div daily_of
get_stats o z quotient today s =
    let (r, s') = list_tasks o "" (pos 1) (pos 1000) s in
    (
      elim r [
        | err e ↦ refused (pos 500) (error_text e)
        | ok l ↦
            let c =
              count_tasks l.tasks
                (record { submitted = 0; success = 0; failed = 0; running = 0 }) in
            answered (pos 200) (record {
              total_tasks = l.total;
              counts = c;
              success_rate = safe_div z quotient c.success c.submitted;
              daily = daily_of today;
            })
      ],
      s',
    )

-- Without a client the answer is empty.
unfoldable pub get_daily_stats : Option (List (String × String)) → Reply (List (String × String))
get_daily_stats none = answered (pos 200) []
get_daily_stats (some stats) = answered (pos 200) stats
