-- ===== src/Queue/Redis.antt =====
-- internal/queue/redis.go. Redis, the client for it and encoding/json are not in the repository: `R` is what
-- Redis holds, and the commands that the code uses, what JSON makes of a task, and the float64 scores
-- are parameters. A command that goes out answers, or fails with an error.
pub mod Laws
pub mod Takes
pub mod Moves
pub mod Kept
pub mod Holds
pub mod Back
use Prim.Native.String.{◌++◌ as ◌<>◌}
use mini_bk.Prelude.{
  ℕ, ◌+◌, ◌/◌, String, List, [], ◌∷◌, Option, none, some, Bool, true, false, if◌then◌else◌,
}
use mini_bk.Prelude.Int.{ℤ, pos, negsuc, ◌-ℤ◌}
use mini_bk.Model.Errors.{Failure, wrapped, Result, ok, err}
use mini_bk.Model.Task.{Task, Time}
use mini_bk.Queue.Interface.{TaskQueue}

-- GET and BRPOP answer `none` where the client returns `redis.Nil`; BRPOP answers the value alone,
-- and the sorted sets their members.
pub record RedisOps (F R : Type 0) : Type 0 where
  pub set_ex : String → String → ℤ → R → Option Failure × R
  pub get : String → R → Result (Option String) × R
  pub l_push : String → String → R → Option Failure × R
  pub br_pop : ℤ → String → R → Result (Option String) × R
  pub l_len : String → R → Result ℕ × R
  pub z_add : String → F → String → R → Option Failure × R
  pub z_pop_min : String → R → Result (List String) × R
  pub z_rem : String → String → R → Option Failure × R
  pub z_range_by_score : String → ℤ → ℤ → R → Result (List String) × R
  pub z_card : String → R → Result ℕ × R
  pub close : R → Option Failure × R

pub record Json : Type 0 where
  pub marshal : Task → Result String
  pub unmarshal : String → Result Task

-- `float64` of an int, `Seconds()` of a duration, and the sum.
pub record Scores (F : Type 0) : Type 0 where
  pub float_of : ℤ → F
  pub seconds_of : ℤ → F
  pub plus : F → F → F

-- The goroutine of the delay loop stands in `process_delayed_loop`.
pub record RedisQueue (R : Type 0) : Type 0 where
  pub redis : R
  pub closed : Bool

unfoldable pub new_redis_queue : {R : Type 0} → R → RedisQueue R
new_redis_queue r = record { redis = r; closed = false }

abbrev pub pending_key : String
pending_key = "tasks:queue:pending"

abbrev pub priority_key : String
priority_key = "tasks:queue:priority"

abbrev pub delayed_key : String
delayed_key = "tasks:queue:delayed"

abbrev pub task_key : String → String
task_key uid = "tasks:task:" <> uid

abbrev task_ttl : ℤ
task_ttl = pos 86_400_000_000_000

-- `Unix()` of a time: whole seconds, rounded down.
abbrev pub unix : Time → ℤ
unix (pos n) = pos (n / 1_000_000_000)
unix (negsuc n) = negsuc (n / 1_000_000_000)

-- What the `select` of the delay loop gets.
pub data LoopEvent : Type 0 where
  stop : LoopEvent
  wake : Time → LoopEvent

module _ {F R : Type 0} (o : RedisOps F R) where
  -- One round of the loop of moveDueDelayed; what fails is logged.
  unfoldable pub move_one : String → R → R
  move_one uid r =
      let (e, r1) = o.l_push pending_key uid r in
      elim e [ some _ ↦ r1 | none ↦ let (_, r2) = o.z_rem delayed_key uid r1 in r2 ]

  unfoldable pub move_all : List String → R → R
  move_all [] r = r
  move_all (uid ∷ uids) r = move_all uids (move_one uid r)

  unfoldable pub move_due_delayed : Time → R → R
  unfolding move_all
  move_due_delayed now r =
      let (answer, r1) = o.z_range_by_score delayed_key (pos 0) (unix now) r in
      elim answer [ err _ ↦ r1 | ok uids ↦ move_all uids r1 ]

  unfoldable pub process_delayed_loop : List LoopEvent → R → R
  process_delayed_loop [] r = r
  process_delayed_loop (stop ∷ rest) r = r
  process_delayed_loop (wake now ∷ rest) r = process_delayed_loop rest (move_due_delayed now r)

  module _ (json : Json) where
    unfoldable pub store_task : Task → R → Option Failure × R
    store_task t r = elim (json.marshal t) [
      | err e ↦ (some (wrapped "marshal task" e), r)
      | ok text ↦ o.set_ex (task_key t.task_uid) text task_ttl r
    ]

    unfoldable pub decoded : Result (Option String) → Result (Option Task)
    decoded (err e) = err (wrapped "get task" e)
    decoded (ok none) = ok none
    decoded (ok (some text)) = elim (json.unmarshal text) [
      | err e ↦ err (wrapped "unmarshal task" e)
      | ok t ↦ ok (some t)
    ]

    unfoldable pub get_task : String → R → Result (Option Task) × R
    unfolding decoded
    get_task uid r = let (answer, r') = o.get (task_key uid) r in (decoded answer, r')

    unfoldable pub push : Task → R → Option Failure × R
    push t r =
        let (e, r1) = store_task t r in
        elim e [ some x ↦ (some x, r1) | none ↦ o.l_push pending_key t.task_uid r1 ]

    -- The second half of Pop.
    unfoldable pub pop_pending : ℤ → R → Result (Option Task) × R
    pop_pending timeout r =
        let (answer, r1) = o.br_pop timeout pending_key r in
        elim answer [
          | err e ↦ (err e, r1)
          | ok none ↦ (ok none, r1)
          | ok (some uid) ↦ get_task uid r1
        ]

    unfoldable pub pop : ℤ → R → Result (Option Task) × R
    pop timeout r =
        let (answer, r1) = o.z_pop_min priority_key r in
        elim answer [
          | err e ↦ (err e, r1)
          | ok [] ↦ pop_pending timeout r1
          | ok (uid ∷ _) ↦ get_task uid r1
        ]

    module _ (f : Scores F) where
      unfoldable pub push_priority : Task → R → Option Failure × R
      push_priority t r =
          let (e, r1) = store_task t r in
          elim e [
            | some x ↦ (some x, r1)
            | none ↦ o.z_add priority_key (f.float_of (pos 0 -ℤ t.priority)) t.task_uid r1
          ]

      unfoldable pub push_delayed : Time → ℤ → Task → R → Option Failure × R
      push_delayed now delay t r =
          let (e, r1) = store_task t r in
          elim e [
            | some x ↦ (some x, r1)
            | none ↦
                o.z_add delayed_key (f.plus (f.float_of (unix now)) (f.seconds_of delay)) t.task_uid
                  r1
          ]

  unfoldable pub ack : String → R → Option Failure × R
  ack uid r = (none, r)

  unfoldable pub size : R → Result ℕ × R
  size r =
      let (pending, r1) = o.l_len pending_key r in
      elim pending [
        | err e ↦ (err e, r1)
        | ok n ↦
            let (priority, r2) = o.z_card priority_key r1 in
            elim priority [
              | err e ↦ (err e, r2)
              | ok m ↦
                  let (delayed, r3) = o.z_card delayed_key r2 in
                  elim delayed [ err e ↦ (err e, r3) | ok k ↦ (ok (n + m + k), r3) ]
            ]
      ]

  unfoldable pub close : RedisQueue R → Option Failure × RedisQueue R
  close q =
      let (e, r) = o.close q.redis in
      if q.closed then (none, q) else (e, record { redis = r; closed = true })

-- The queue as an implementation of `TaskQueue`. It keeps its state in Redis; The flag and
-- the loop are not part of the interface.
abbrev pub on_redis : {F R : Type 0} → RedisOps F R → Json → Scores F → TaskQueue R
on_redis o json f = record {
  push = push o json;
  pop = λ timeout now r. pop o json timeout r;
  push_priority = push_priority o json f;
  push_delayed = push_delayed o json f;
  size = λ r. (size o r).0;
}
