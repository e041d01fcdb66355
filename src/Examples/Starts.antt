-- ===== src/Examples/Starts.antt =====
-- Starts of the scheduler of internal/scheduler/scheduler.go, and a message to it.
use mini_bk.Prelude.{arith, ℕ, ◌≡◌, List, [], ◌∷◌, none, some, ◌⊎◌, if◌then◌else◌, str_eq}
use mini_bk.Prelude.Int.{pos}
use mini_bk.Prelude.Maps.{lookup}
use mini_bk.Queue.InMem.{InMemQueue}
use mini_bk.Scheduler.State.{Scheduler}
use mini_bk.Scheduler.Start.{
  Runner, on_cancel_message, ConfigEvent, config_put, config_deleted, watch_scheduler_config,
}
use mini_bk.Scheduler.Start.Cancels.{on_cancel_message-cases}
use mini_bk.Scheduler.Start.Settings.{IsTuned, watch_scheduler_config-IsTuned}
use mini_bk.Examples.{scheduler}

abbrev lonely : Runner ℕ InMemQueue ℕ
lonely = record { sched = scheduler; tick_interval = pos 500_000_000; election = none }

abbrev busy : Scheduler ℕ InMemQueue ℕ
busy = record scheduler { cancel_funcs = ("b", 0) ∷ []; contexts = 1 }

on_cancel_message-cases_example :
    let s' = on_cancel_message "tasks:cancel:b" busy in
    ((lookup "b" busy.cancel_funcs ≡ none) × (s' ≡ busy))
    ⊎ ((ctx : ℕ) × (lookup "b" busy.cancel_funcs ≡ some ctx)
        × (s'.canceled ≡ ctx ∷ [])
        × (lookup "a" s'.cancel_funcs
            ≡ (if str_eq "b" "a" then none else lookup "a" busy.cancel_funcs)))
on_cancel_message-cases_example = on_cancel_message-cases "b" busy "a"

abbrev limits_put : List ConfigEvent
limits_put =
    config_put "/config/scheduler/max_concurrent_tasks" "7"
    ∷ config_deleted "/config/scheduler/tick_interval_ms"
    ∷ config_put "/config/scheduler/max_concurrent_tasks" "none"
    ∷ []

watch_scheduler_config-IsTuned_example :
    IsTuned lonely (watch_scheduler_config none limits_put lonely)
watch_scheduler_config-IsTuned_example =
    watch_scheduler_config-IsTuned none limits_put lonely (omega arith)
