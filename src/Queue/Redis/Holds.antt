-- ===== src/Queue/Redis/Holds.antt =====
-- What the texts of internal/queue/redis.go say of the tasks in the queue.
use mini_bk.Prelude.{
  ◌≡◌, refl, sym, ◌∙◌, arith, String, List, [], ◌∷◌, Option, none, some, inl, inr, ◌⊎◌,
  Option-cases,
}
use mini_bk.Prelude.Int.{ℤ}
use mini_bk.Model.Errors.{Result, ok, err}
use mini_bk.Model.Task.{Task, Time}
use mini_bk.Queue.Interface.{KeepsTasks, AcceptsTasks}
use mini_bk.Queue.Redis.{
  RedisOps, Json, Scores, on_redis, push, pop, pop_pending, get_task, store_task, push_delayed,
  push_priority, task_key, pending_key, priority_key, delayed_key,
}
use mini_bk.Queue.Redis.Laws.{Views, IsRedis, Fades}
use mini_bk.Queue.Redis.Takes.{Fetched, there, Popped, urgent, oldest, pop-Popped}

-- What is written as JSON and read again has the property, if it had it.
unfoldable pub IsKept : Json → (Task → Type 0) → Type 0
IsKept json P =
    (t t' : Task) (text : String)
    → json.marshal t ≡ ok text
    → json.unmarshal text ≡ ok t'
    → P t
    → P t'

-- Every task that a text of the database stands for has the property.
pub Holding : {R : Type 0} → Views R → Json → (Task → Type 0) → R → Type 0
Holding v json P r =
    (k text : String) (t : Task) → v.value_of k r ≡ some text → json.unmarshal text ≡ ok t → P t

module _ {F R : Type 0} (o : RedisOps F R) (v : Views R) (laws : IsRedis o v) (json : Json)
    (P : Task → Type 0) (kept : IsKept json P) where
  Fades-Holding : (r r' : R) → Fades v r r' → Holding v json P r → Holding v json P r'
  unfolding Holding
  Fades-Holding r r' fades h k text t e = by_fade (fades k)
    where
      by_fade :
          (v.value_of k r' ≡ none) ⊎ (v.value_of k r' ≡ v.value_of k r)
          → json.unmarshal text ≡ ok t
          → P t
      by_fade (inl gone) = absurd (ground (arith, gone, e))
      by_fade (inr same) = h k text t (sym same ∙ e)

  -- A database in which the text of a task is new, and the others are as before or have run out.
  wrote-Holding :
      (t : Task) (text : String) (r r' : R) (key : String)
      → json.marshal t ≡ ok text
      → ((k : String)
          → ((v.value_of k r' ≡ none) ⊎ (v.value_of k r' ≡ v.value_of k r))
            ⊎ ((k ≡ key) × (v.value_of k r' ≡ some text)))
      → P t
      → Holding v json P r
      → Holding v json P r'
  unfolding Holding IsKept
  wrote-Holding t text r r' key written frame p h k found t' e d = by_frame (frame k)
    where
      by_text : some text ≡ some found → P t'
      by_text same = kept t t' text written (ground (arith, same, d)) p

      by_frame :
          ((v.value_of k r' ≡ none) ⊎ (v.value_of k r' ≡ v.value_of k r))
            ⊎ ((k ≡ key) × (v.value_of k r' ≡ some text))
          → P t'
      by_frame (inl (inl gone)) = absurd (ground (arith, gone, e))
      by_frame (inl (inr same)) = h k found t' (sym same ∙ e) d
      by_frame (inr (_, new)) = by_text (sym new ∙ e)

  store_task-Holding :
      (t : Task) (r : R) → P t → Holding v json P r → Holding v json P (store_task o json t r).1
  unfolding store_task
  store_task-Holding t r p h = by_text (json.marshal t) refl
    where
      by_text :
          (x : Result String) → json.marshal t ≡ x → Holding v json P (store_task o json t r).1
      by_text (err x) e = rw (e, store_task) h
      by_text (ok text) e =
          rw (e, store_task)
            (wrote-Holding t text r _ (task_key t.task_uid) e
              (λ k. laws.set_ex_only (task_key t.task_uid) text _ r k) p h)

  push-Holding :
      (t : Task) (r : R) → P t → Holding v json P r → Holding v json P (push o json t r).1
  unfolding push
  push-Holding t r p h = elim (Option-cases (store_task o json t r).0) [
    | inr (x, e) ↦ rw (e, push) (store_task-Holding t r p h)
    | inl e ↦
        rw (e, push)
          (Fades-Holding _ _ (laws.l_push_values pending_key t.task_uid _)
            (store_task-Holding t r p h))
  ]

  push_priority-Holding :
      (f : Scores F) (t : Task) (r : R)
      → P t
      → Holding v json P r
      → Holding v json P (push_priority o json f t r).1
  unfolding push_priority
  push_priority-Holding f t r p h = elim (Option-cases (store_task o json t r).0) [
    | inr (x, e) ↦ rw (e, push_priority) (store_task-Holding t r p h)
    | inl e ↦
        rw (e, push_priority)
          (Fades-Holding _ _ (laws.z_add_values priority_key _ t.task_uid _)
            (store_task-Holding t r p h))
  ]

  push_delayed-Holding :
      (f : Scores F) (now : Time) (delay : ℤ) (t : Task) (r : R)
      → P t
      → Holding v json P r
      → Holding v json P (push_delayed o json f now delay t r).1
  unfolding push_delayed
  push_delayed-Holding f now delay t r p h = elim (Option-cases (store_task o json t r).0) [
    | inr (x, e) ↦ rw (e, push_delayed) (store_task-Holding t r p h)
    | inl e ↦
        rw (e, push_delayed)
          (Fades-Holding _ _ (laws.z_add_values delayed_key _ t.task_uid _)
            (store_task-Holding t r p h))
  ]

  get_task-Holding :
      (uid : String) (r : R) → Holding v json P r → Holding v json P (get_task o json uid r).1
  unfolding get_task
  get_task-Holding uid r h = Fades-Holding r _ (laws.get_values (task_key uid) r) h

  pop_pending-Holding :
      (timeout : ℤ) (r : R) → Holding v json P r → Holding v json P (pop_pending o json timeout r).1
  unfolding pop_pending
  pop_pending-Holding timeout r h = by_answer (o.br_pop timeout pending_key r).0 refl
    where
      after : Holding v json P (o.br_pop timeout pending_key r).1
      after = Fades-Holding r _ (laws.br_pop_values timeout pending_key r) h

      by_answer :
          (a : Result (Option String))
          → (o.br_pop timeout pending_key r).0 ≡ a
          → Holding v json P (pop_pending o json timeout r).1
      by_answer (err x) e = rw (e, pop_pending) after
      by_answer (ok none) e = rw (e, pop_pending) after
      by_answer (ok (some uid)) e = rw (e, pop_pending) (get_task-Holding uid _ after)

  pop-Holding :
      (timeout : ℤ) (r : R) → Holding v json P r → Holding v json P (pop o json timeout r).1
  unfolding pop
  pop-Holding timeout r h = by_answer (o.z_pop_min priority_key r).0 refl
    where
      after : Holding v json P (o.z_pop_min priority_key r).1
      after = Fades-Holding r _ (laws.z_pop_min_values priority_key r) h

      by_answer :
          (a : Result (List String))
          → (o.z_pop_min priority_key r).0 ≡ a
          → Holding v json P (pop o json timeout r).1
      by_answer (err x) e = rw (e, pop) after
      by_answer (ok []) e = rw (e, pop) (pop_pending-Holding timeout _ after)
      by_answer (ok (uid ∷ _)) e = rw (e, pop) (get_task-Holding uid _ after)

  Fetched-holds :
      (uid : String) (r : R) (a : Result (Option Task)) (r' : R) (t : Task)
      → Fetched o v laws json uid r a r'
      → a ≡ ok (some t)
      → Holding v json P r
      → P t
  unfolding Holding
  Fetched-holds uid r _ r' t (there text u stored read) e h =
      h (task_key uid) text t stored (ground (arith, read, e))
  Fetched-holds uid r _ r' t (Fetched.expired _) e h = absurd (ground (arith, e))
  Fetched-holds uid r _ r' t (Fetched.unread x) e h = absurd (ground (arith, e))

  Popped-holds :
      (r : R) (a : Result (Option Task)) (r' : R) (t : Task)
      → Popped o v laws json r a r'
      → a ≡ ok (some t)
      → Holding v json P r
      → P t
  Popped-holds r a r' t (urgent uid first same found) e h = Fetched-holds uid r a r' t found e h
  Popped-holds r a r' t (oldest uid before after last found) e h =
      Fetched-holds uid r a r' t found e h
  Popped-holds r _ r' t (Popped.nothing _ _ _) e h = absurd (ground (arith, e))
  Popped-holds r _ r' t (Popped.refused x _) e h = absurd (ground (arith, e))

  -- For a property that a task keeps when it is written as JSON and read again: if every text in
  -- Redis that can be read stands for a task with it, then Pop returns only tasks with it, and a Pop,
  -- or a PushDelayed of a task with it, leaves that so, whatever fails.
  pub on_redis-KeepsTasks : (f : Scores F) → KeepsTasks (on_redis o json f) P (Holding v json P)
  on_redis-KeepsTasks f = record {
    pop_holds = λ timeout now r h. pop-Holding timeout r h;
    popped_holds =
        λ timeout now r t h e. Popped-holds r _ _ t (pop-Popped o v laws json timeout r) e h;
    delayed_holds = λ now delay t r p h. push_delayed-Holding f now delay t r p h;
  }

  pub on_redis-AcceptsTasks : (f : Scores F) → AcceptsTasks (on_redis o json f) P (Holding v json P)
  on_redis-AcceptsTasks f = record {
    push_holds = push-Holding;
    urgent_holds = push_priority-Holding f;
  }
