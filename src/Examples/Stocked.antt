-- ===== src/Examples/Stocked.antt =====
-- Runs of internal/queue/redis.go on a Redis in memory.
use mini_bk.Prelude.{◌/◌, refl, String, [], ◌∷◌, none, some, true, if◌then◌else◌, str_eq, ◌↔◌}
use mini_bk.Prelude.Int.{ℤ, pos, negsuc, ◌+ℤ◌, pos_part}
use mini_bk.Model.Errors.{external, Result, ok, err}
use mini_bk.Model.Task.{Task}
use mini_bk.Queue.Interface.{IsTaskQueue}
use mini_bk.Queue.Redis.{
  Json, Scores, wake, stop, pop, on_redis, process_delayed_loop, pending_key, priority_key,
  delayed_key, push_priority, store_task,
}
use mini_bk.Queue.Redis.Takes.{Popped, pop-Popped}
use mini_bk.Queue.Redis.Kept.{waits, on_redis-IsTaskQueue}
use mini_bk.Queue.Redis.Moves.{Queued, process_delayed_loop-Queued}
use mini_bk.Queue.Redis.Back.{put, Back, pop-put}
use mini_bk.Examples.{task_a, task_b}
use mini_bk.Examples.Memory.Laws.{memory-IsRedis, memory-IsLasting}
use mini_bk.Examples.Memory.{Memory, memory, views}

-- The text of a task is its UID.
abbrev read_text : String → Result Task
read_text s =
    if str_eq s "a" then ok task_a else if str_eq s "b" then ok task_b else err (external "text")

abbrev json : Json
json = record { marshal = λ t. ok t.task_uid; unmarshal = read_text }

abbrev scores : Scores ℤ
scores = record {
  float_of = λ n. n;
  seconds_of = λ d. pos (pos_part d / 1_000_000_000);
  plus = ◌+ℤ◌;
}

abbrev bare : Memory
bare = record { lists = λ k. []; zsets = λ k. []; values = λ k. none }

-- `b` is urgent, `a` is pending and `c`, of which no text is there, is delayed.
abbrev stocked : Memory
stocked = record {
  lists = λ k. if str_eq k pending_key then "a" ∷ [] else [];
  zsets = λ k.
      if str_eq k priority_key
      then ("b", negsuc 2) ∷ []
      else if str_eq k delayed_key
      then ("c", pos 5) ∷ []
      else [];
  values = λ k.
      if str_eq k "tasks:task:a"
      then some "a"
      else if str_eq k "tasks:task:b"
      then some "b"
      else none;
}

pop-Popped_example :
    Popped memory views memory-IsRedis json stocked
      (pop memory json (pos 100) stocked).0
      (pop memory json (pos 100) stocked).1
pop-Popped_example = pop-Popped memory views memory-IsRedis json (pos 100) stocked

on_redis-IsTaskQueue_example :
    IsTaskQueue (on_redis memory json scores) (waits memory views memory-IsRedis json)
on_redis-IsTaskQueue_example = on_redis-IsTaskQueue memory views memory-IsRedis json scores

process_delayed_loop-Queued_example :
    Queued memory views memory-IsRedis "c" stocked
    ↔ Queued memory views memory-IsRedis "c"
        (process_delayed_loop memory (wake (pos 9_000_000_000) ∷ stop ∷ []) stocked)
process_delayed_loop-Queued_example =
    process_delayed_loop-Queued memory views memory-IsRedis (wake (pos 9_000_000_000) ∷ stop ∷ [])
      stocked "c"

pop-put_example :
    Back memory views memory-IsRedis memory-IsLasting json "b"
      (pop memory json
        (pos 100)
        (put memory views memory-IsRedis memory-IsLasting json scores true task_b bare).1).0
unfolding push_priority store_task
pop-put_example =
    pop-put memory views memory-IsRedis memory-IsLasting json (pos 100) scores true task_b "b" bare
      refl refl refl refl
