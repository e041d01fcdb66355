-- ===== src/Service/Sound/Calls.antt =====
-- What the operations of internal/service/task_service.go keep of the table and of the queue, which is
-- what the scheduler relies on.
use mini_bk.Prelude.{
  ◌≡◌, refl, sym, String, List, [], ◌∷◌, Option, none, some, All, Bool-cases, Option-cases, inl,
  inr, subst,
}
use mini_bk.Prelude.Int.{pos, ltb_ℤ}
use mini_bk.Model.Errors.{Result, ok, err, canceled}
use mini_bk.Model.Task.{Task, Time, transition_to, set_idempotency_key, is_terminal}
use mini_bk.Store.TaskTable.{TaskDb, find_row, create, update, get_by_uid, fault}
use mini_bk.Store.Load.{DistinctUids}
use mini_bk.Queue.Interface.{TaskQueue, AcceptsTasks}
use mini_bk.Scheduler.Limits.{HasLimits, transition_to-limits}
use mini_bk.Service.{
  TaskService, CreateTaskRequest, RedisReplies, requested, duplicate_of, count_submitted,
  enqueue_task, create_task, publish_cancel, cancel_read, cancel_task, rerun_task,
}
use mini_bk.Service.Sound.{
  IsSoundTable, create-IsSoundTable, requested-HasLimits, find_row-HasLimits, update-IsSoundTable,
  get_by_uid-rows, get_by_uid-found,
}

abbrev asking_again : Task → CreateTaskRequest
asking_again t = record {
  name = t.name;
  command = t.command;
  workdir = t.workdir;
  env = some t.env;
  cpu_limit = t.cpu_limit;
  memory_limit = t.memory_limit;
  timeout_sec = t.timeout_sec;
  priority = t.priority;
  node_selector = some t.node_selector;
}

-- A call of the service that may change its state.
pub data Call : Type 0 where
  creates : (String → String) → Time → String → Option RedisReplies → CreateTaskRequest → Call
  cancels : Time → Option RedisReplies → String → Call
  reruns : (String → String) → Time → String → Option RedisReplies → String → Call

module _ {Q : Type 0} (o : TaskQueue Q) (AllIn : Q → Type 0)
    (accepts : AcceptsTasks o HasLimits AllIn) where
  -- The table is sound, and no task in the queue has a negative limit.
  pub record IsSound (s : TaskService Q) : Type 0 where
    pub table : IsSoundTable s.db
    pub queued : AllIn s.queue

  enqueue_task-IsSound :
      (t : Task) (s : TaskService Q) → HasLimits t → IsSound s → IsSound (enqueue_task o t s)
  unfolding enqueue_task
  enqueue_task-IsSound t s l h = elim (Bool-cases (ltb_ℤ (pos 0) t.priority)) [
    | inl e ↦
        rw (e, enqueue_task)
          (record { table = h.table; queued = accepts.urgent_holds t s.queue l h.queued })
    | inr e ↦
        rw (e, enqueue_task)
          (record { table = h.table; queued = accepts.push_holds t s.queue l h.queued })
  ]

  count_submitted-IsSound :
      (now : Time) (redis : Option RedisReplies) (s : TaskService Q)
      → IsSound s
      → IsSound (count_submitted o now redis s)
  unfolding count_submitted
  count_submitted-IsSound now none s h = h
  count_submitted-IsSound now (some r) s h = record { table = h.table; queued = h.queued }

  create-limits : (t : Task) (db : TaskDb) → HasLimits t → HasLimits (create t db).1
  unfolding create
  create-limits t db l = elim (Option-cases (fault db)) [
    | inr (x, e) ↦ rw (e, create) l
    | inl e ↦ elim (Option-cases (find_row t.task_uid db.rows)) [
      | inr (r, f) ↦ rw (e, create, f) l
      | inl f ↦ rw (e, create, f) (record { cpu = l.cpu; memory = l.memory })
    ]
  ]

  create_task-IsSound :
      (hex : String → String) (now : Time) (uuid : String) (redis : Option RedisReplies)
      (req : CreateTaskRequest) (s : TaskService Q)
      → IsSound s
      → IsSound (create_task o hex now uuid redis req s).1
  unfolding create_task set_idempotency_key
  create_task-IsSound hex now uuid redis req s h =
      let asks = requested-HasLimits now uuid req in
      let t = set_idempotency_key hex (requested now uuid req) in
      let l : HasLimits t = record { cpu = asks.cpu; memory = asks.memory } in
      let made : IsSound (record s { db = (create t s.db).2 }) = record {
        table = create-IsSoundTable t s.db l h.table;
        queued = h.queued;
      } in
      elim (Option-cases (duplicate_of redis)) [
        | inr (uid, e) ↦ rw (e, create_task) h
        | inl e ↦ elim (Option-cases (create t s.db).0) [
          | inr (x, f) ↦ rw (e, create_task, f) made
          | inl f ↦
              rw (e, create_task, f)
                (enqueue_task-IsSound (create t s.db).1 _ (create-limits t s.db l)
                  (count_submitted-IsSound now redis _ made))
        ]
      ]

  get_by_uid-IsSound :
      (uid : String) (s : TaskService Q)
      → IsSound s
      → IsSound (record s { db = (get_by_uid uid s.db).1 })
  get_by_uid-IsSound uid s h = record {
    table = record {
      distinct = subst DistinctUids (sym (get_by_uid-rows uid s.db)) h.table.distinct;
      limited = subst (All HasLimits) (sym (get_by_uid-rows uid s.db)) h.table.limited;
    };
    queued = h.queued;
  }

  publish_cancel-IsSound :
      (uid : String) (redis : Option RedisReplies) (s : TaskService Q)
      → IsSound s
      → IsSound (publish_cancel o uid redis s).1
  unfolding publish_cancel
  publish_cancel-IsSound uid none s h = h
  publish_cancel-IsSound uid (some r) s h = elim (Option-cases r.publish) [
    | inl e ↦ rw (e, publish_cancel) (record { table = h.table; queued = h.queued })
    | inr (x, e) ↦ rw (e, publish_cancel) h
  ]

  cancel_read-IsSound :
      (now : Time) (redis : Option RedisReplies) (uid : String) (t : Task) (s : TaskService Q)
      → HasLimits t
      → IsSound s
      → IsSound (cancel_read o now redis uid t s).1
  unfolding cancel_read
  cancel_read-IsSound now redis uid t s l h =
      let t' = (transition_to now canceled t).1 in
      let (c, m) = transition_to-limits now canceled t in
      let l' : HasLimits t' = record { cpu = rw c l.cpu; memory = rw m l.memory } in
      let wrote : IsSound (record s { db = (update now t' s.db).2 }) = record {
        table = update-IsSoundTable now t' s.db l' h.table;
        queued = h.queued;
      } in
      elim (Bool-cases (is_terminal t.status)) [
        | inl e ↦ rw (e, cancel_read) h
        | inr e ↦ elim (Option-cases (transition_to now canceled t).0) [
          | inr (x, f) ↦ rw (e, cancel_read, f) h
          | inl f ↦ elim (Option-cases (update now t' s.db).0) [
            | inr (x, g) ↦ rw (e, cancel_read, f, g) wrote
            | inl g ↦ rw (e, cancel_read, f, g) (publish_cancel-IsSound uid redis _ wrote)
          ]
        ]
      ]

  cancel_task-IsSound :
      (now : Time) (redis : Option RedisReplies) (uid : String) (s : TaskService Q)
      → IsSound s
      → IsSound (cancel_task o now redis uid s).1
  unfolding cancel_task
  cancel_task-IsSound now redis uid s h = by_row (get_by_uid uid s.db).0 refl
    where
      by_row :
          (r : Result Task)
          → (get_by_uid uid s.db).0 ≡ r
          → IsSound (cancel_task o now redis uid s).1
      by_row (err x) e = rw (e, cancel_task) (get_by_uid-IsSound uid s h)
      by_row (ok t) e =
          rw (e, cancel_task)
            (cancel_read-IsSound now redis uid t _
              (find_row-HasLimits uid s.db.rows t h.table.limited (get_by_uid-found uid s.db t e))
              (get_by_uid-IsSound uid s h))

  rerun_task-IsSound :
      (hex : String → String) (now : Time) (uuid : String) (redis : Option RedisReplies)
      (uid : String) (s : TaskService Q)
      → IsSound s
      → IsSound (rerun_task o hex now uuid redis uid s).1
  unfolding rerun_task
  rerun_task-IsSound hex now uuid redis uid s h = by_row (get_by_uid uid s.db).0 refl
    where
      by_row :
          (r : Result Task)
          → (get_by_uid uid s.db).0 ≡ r
          → IsSound (rerun_task o hex now uuid redis uid s).1
      by_row (err x) e = rw (e, rerun_task) (get_by_uid-IsSound uid s h)
      by_row (ok t) e =
          rw (e, rerun_task)
            (create_task-IsSound hex now uuid redis (asking_again t)
              (record s { db = (get_by_uid uid s.db).1 }) (get_by_uid-IsSound uid s h))

  pub serve : List Call → TaskService Q → TaskService Q
  serve [] s = s
  serve (creates hex now uuid redis req ∷ calls) s =
      serve calls (create_task o hex now uuid redis req s).1
  serve (cancels now redis uid ∷ calls) s = serve calls (cancel_task o now redis uid s).1
  serve (reruns hex now uuid redis uid ∷ calls) s =
      serve calls (rerun_task o hex now uuid redis uid s).1

  -- Whatever is created, cancelled and rerun, with whatever requests, faults of the store and
  -- answers of Redis: the UIDs of the table stay distinct, and no task in the table or in the queue
  -- gets a negative limit, if that was so before.
  pub serve-IsSound : (calls : List Call) (s : TaskService Q) → IsSound s → IsSound (serve calls s)
  unfolding serve
  serve-IsSound [] s h = h
  serve-IsSound (creates hex now uuid redis req ∷ calls) s h =
      serve-IsSound calls _ (create_task-IsSound hex now uuid redis req s h)
  serve-IsSound (cancels now redis uid ∷ calls) s h =
      serve-IsSound calls _ (cancel_task-IsSound now redis uid s h)
  serve-IsSound (reruns hex now uuid redis uid ∷ calls) s h =
      serve-IsSound calls _ (rerun_task-IsSound hex now uuid redis uid s h)
