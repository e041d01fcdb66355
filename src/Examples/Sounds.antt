-- ===== src/Examples/Sounds.antt =====
-- Calls of internal/service/task_service.go one after the other.
use Prim.Native.Nat.{max}
use mini_bk.Prelude.{
  ℕ, zero, suc, All, length, refl, ap, ◌≤◌, ◌≡◌, String, List, [], ◌∷◌, none, some, arith, map,
}
use mini_bk.Prelude.Int.{pos, negsuc, ◌+ℤ◌}
use mini_bk.Model.Task.{Time}
use mini_bk.Queue.InMem.{InMemQueue, in_mem}
use mini_bk.Queue.InMem.Laws.{AllIn, in_mem-KeepsTasks, in_mem-AcceptsTasks}
use mini_bk.Store.Load.{load}
use mini_bk.Scheduler.State.{Scheduler}
use mini_bk.Scheduler.Limits.{HasLimits, HasLimits-prop}
use mini_bk.Scheduler.Tick.{PopRound, tick}
use mini_bk.Scheduler.Bounds.{after_timeouts}
use mini_bk.Scheduler.Bounds.InMem.{in_queue, drains, delay_round, IsQuick, tick_ends}
use mini_bk.Scheduler.Costs.{one, cpu_of, mem_of}
use mini_bk.Service.{TaskService, CreateTaskRequest}
use mini_bk.Service.Sound.Calls.{IsSound, Call, creates, cancels, reruns, serve, serve-IsSound}
use mini_bk.Service.Sound.Ticked.{sharing, tick-serve}
use mini_bk.Examples.{table, queue_ab, scheduler, percents, granting}
use mini_bk.Examples.Ticks.{limits_of, distinct, limited}

-- A request with a negative limit, which is passed over.
abbrev request : CreateTaskRequest
request = record {
  name = "third";
  command = "true";
  workdir = "";
  env = none;
  cpu_limit = negsuc 4;
  memory_limit = pos 32;
  timeout_sec = pos 0;
  priority = pos 2;
  node_selector = none;
}

abbrev pub same_text : String → String
same_text s = s

abbrev three_calls : List Call
three_calls =
    creates same_text (pos 7) "c" none request
    ∷ cancels (pos 8) none "b"
    ∷ reruns same_text (pos 9) "d" none "a"
    ∷ []

abbrev pub service : TaskService InMemQueue
service = record { db = table; queue = queue_ab; stats = []; published = [] }

service-IsSound :
    IsSound in_mem (AllIn HasLimits) (in_mem-AcceptsTasks HasLimits HasLimits-prop) service
service-IsSound = record {
  table = record { distinct = distinct; limited = limited };
  queued = limits_of;
}

serve-IsSound_example :
    IsSound in_mem (AllIn HasLimits) (in_mem-AcceptsTasks HasLimits HasLimits-prop) (
      serve in_mem
        (AllIn HasLimits)
        (in_mem-AcceptsTasks HasLimits HasLimits-prop)
        three_calls
        service)
serve-IsSound_example =
    serve-IsSound in_mem (AllIn HasLimits) (in_mem-AcceptsTasks HasLimits HasLimits-prop)
      three_calls service service-IsSound

-- What a tick finds after the calls, and what it comes to.
abbrev before : Scheduler ℕ InMemQueue ℕ
before =
    sharing in_mem (AllIn HasLimits) (in_mem-KeepsTasks HasLimits HasLimits-prop)
      (in_mem-AcceptsTasks HasLimits HasLimits-prop) percents granting (pos 10)
      (serve in_mem (AllIn HasLimits) (in_mem-AcceptsTasks HasLimits HasLimits-prop) three_calls
        service)
      scheduler

-- Rounds during which no other goroutine works on the queue.
still_rounds : ℕ → List (List Time × Time)
still_rounds zero = []
still_rounds (suc n) = ([], pos 10) ∷ still_rounds n

length-still_rounds : (n : ℕ) → length (still_rounds n) ≡ n
unfolding still_rounds
length-still_rounds zero = refl
length-still_rounds (suc n) = ap suc (length-still_rounds n)

still_rounds-IsQuick : (n : ℕ) → All (IsQuick (pos 10)) (still_rounds n)
unfolding still_rounds IsQuick ◌+ℤ◌
still_rounds-IsQuick zero = tt
still_rounds-IsQuick (suc n) = ((tt, omega arith), still_rounds-IsQuick n)

still_rounds-AllIn :
    (n : ℕ)
    → All
        (λ r. (q : InMemQueue) → AllIn HasLimits q → AllIn HasLimits (r.others q))
        (map delay_round (still_rounds n))
unfolding still_rounds delay_round drains
still_rounds-AllIn zero = tt
still_rounds-AllIn (suc n) = (λ q a. a, still_rounds-AllIn n)

abbrev most : ℕ
most = in_queue (after_timeouts in_mem (pos 10) before).queue

abbrev enough : List (PopRound InMemQueue)
enough = map delay_round (still_rounds (suc most))

after_calls :
    (s' : Scheduler ℕ InMemQueue ℕ) × (tick in_mem percents granting enough (pos 10) before
      ≡ some s')
after_calls =
    tick_ends percents granting (pos 10) (pos 10) (still_rounds (suc most)) before
      (still_rounds-IsQuick (suc most)) (omega (arith, length-still_rounds (suc most)))

tick-serve_example :
    (load one after_calls.0.db.rows ≤ max 5 (load one before.db.rows))
    × (load cpu_of after_calls.0.db.rows ≤ max 8 (load cpu_of before.db.rows))
    × (load mem_of after_calls.0.db.rows ≤ max 4096 (load mem_of before.db.rows))
tick-serve_example =
    tick-serve in_mem (AllIn HasLimits) (in_mem-KeepsTasks HasLimits HasLimits-prop)
      (in_mem-AcceptsTasks HasLimits HasLimits-prop) percents granting (pos 10) three_calls service
      enough scheduler after_calls.0 service-IsSound (still_rounds-AllIn (suc most)) after_calls.1
