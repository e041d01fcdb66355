-- ===== src/Queue/Redis/Kept.antt =====
-- The queue of internal/queue/redis.go as an implementation of `TaskQueue` (internal/queue/queue.go).
use mini_bk.Prelude.{
  ℕ, ◌<◌, ◌≡◌, ◌≢◌, refl, ap, arith, String, [], ◌∷◌, Option, none, some, length, length-append,
  eq_iff,
}
use mini_bk.Prelude.Int.{ℤ}
use mini_bk.Model.Errors.{Failure, Result, ok, err}
use mini_bk.Model.Task.{Task, Time}
use mini_bk.Queue.Interface.{IsTaskQueue}
use mini_bk.Queue.Redis.{
  RedisOps, Json, Scores, on_redis, store_task, push_delayed, task_key, pending_key, priority_key,
  delayed_key,
}
use mini_bk.Queue.Redis.Laws.{Views, IsRedis}
use mini_bk.Queue.Redis.Takes.{pending_of, waiting_in, Popped, urgent, oldest, pop-Popped}

-- ZADD on the delayed set leaves the priority set.
not_delayed : priority_key ≢ delayed_key
not_delayed e = absurd (ground (arith, (eq_iff priority_key delayed_key).1 e))

module _ {F R : Type 0} (o : RedisOps F R) (v : Views R) (laws : IsRedis o v) (json : Json) where
  abbrev pub waits : R → ℕ
  waits r = waiting_in o v laws json r

  store_task-waits : (t : Task) (r : R) → waits (store_task o json t r).1 ≡ waits r
  unfolding store_task
  store_task-waits t r = by_text (json.marshal t) refl
    where
      by_text : (x : Result String) → json.marshal t ≡ x → waits (store_task o json t r).1 ≡ waits r
      by_text (err x) e = rw (e, store_task) refl
      by_text (ok text) e =
          rw (e, store_task)
            (omega (
              arith,
              ap length (laws.set_ex_zsets (task_key t.task_uid) text _ r priority_key),
              ap length (laws.set_ex_lists (task_key t.task_uid) text _ r pending_key),
            ))

  push_delayed-waits :
      (f : Scores F) (now : Time) (delay : ℤ) (t : Task) (r : R)
      → waits (push_delayed o json f now delay t r).1 ≡ waits r
  unfolding push_delayed
  push_delayed-waits f now delay t r = by_store (store_task o json t r).0 refl
    where
      r1 : R
      r1 = (store_task o json t r).1

      by_store :
          (x : Option Failure)
          → (store_task o json t r).0 ≡ x
          → waits (push_delayed o json f now delay t r).1 ≡ waits r
      by_store (some x) e = rw (e, push_delayed) (store_task-waits t r)
      by_store none e =
          rw (e, push_delayed)
            (omega (
              arith,
              store_task-waits t r,
              ap length (laws.z_add_others delayed_key _ t.task_uid r1 priority_key not_delayed),
              ap length (laws.z_add_lists delayed_key _ t.task_uid r1 pending_key),
            ))

  Popped-takes :
      (r : R) (a : Result (Option Task)) (r' : R) (t : Task)
      → Popped o v laws json r a r'
      → a ≡ ok (some t)
      → waits r' < waits r
  Popped-takes r _ r' t (urgent uid first same found) e =
      omega (arith, ap length first, ap length same)
  Popped-takes r _ r' t (oldest uid before after last found) e = omega (
    arith,
    ap length before,
    ap length after,
    ap length last,
    length-append (pending_of o v laws json r') (uid ∷ []),
  )
  Popped-takes r _ r' t (Popped.nothing _ _ _) e = absurd (ground (arith, e))
  Popped-takes r _ r' t (Popped.refused x _) e = absurd (ground (arith, e))

  -- The queue on Redis is a task queue whose waiting tasks are the UIDs of the priority set and of the
  -- pending list: a Pop that returns a task leaves fewer UIDs to wait, and PushDelayed, whatever of it
  -- fails, leaves no more than there were.
  pub on_redis-IsTaskQueue : (f : Scores F) → IsTaskQueue (on_redis o json f) waits
  on_redis-IsTaskQueue f = record {
    pop_takes = λ timeout now r t e. Popped-takes r _ _ t (pop-Popped o v laws json timeout r) e;
    delayed_waits = λ now delay t r. omega (arith, push_delayed-waits f now delay t r);
  }
