-- ===== src/Queue/Redis/Back.antt =====
-- That a task which is pushed by internal/queue/redis.go comes back, if nothing fails.
use mini_bk.Prelude.{
  ◌≡◌, refl, sym, ap, ◌∙◌, subst, arith, String, List, [], ◌∷◌, ◌++◌, Option, none, some, inl, inr,
  ◌⊎◌, Bool, true, false,
}
use mini_bk.Prelude.Int.{ℤ, pos, ◌-ℤ◌}
use mini_bk.Model.Errors.{Failure, Result, ok, err}
use mini_bk.Model.Task.{Task}
use mini_bk.Queue.Redis.{
  RedisOps, Json, Scores, push, push_priority, pop, pop_pending, get_task, store_task, task_key,
  pending_key, priority_key,
}
use mini_bk.Queue.Redis.Laws.{Views, IsRedis, IsLasting, SameValues, Executed}
use mini_bk.Queue.Redis.Takes.{
  pending_of, urgent_of, Fetched, there, Popped, urgent, oldest, pop-Popped,
}

module _ {F R : Type 0} (o : RedisOps F R) (v : Views R) (laws : IsRedis o v)
    (lasting : IsLasting o v) (json : Json) where
  get_task-lasts : (uid : String) (r : R) → SameValues v r (get_task o json uid r).1
  unfolding get_task
  get_task-lasts uid r k = lasting.get_lasts (task_key uid) r k

  pop_pending-lasts : (timeout : ℤ) (r : R) → SameValues v r (pop_pending o json timeout r).1
  unfolding pop_pending
  pop_pending-lasts timeout r k = by_answer (o.br_pop timeout pending_key r).0 refl
    where
      after : v.value_of k (o.br_pop timeout pending_key r).1 ≡ v.value_of k r
      after = lasting.br_pop_lasts timeout pending_key r k

      by_answer :
          (a : Result (Option String))
          → (o.br_pop timeout pending_key r).0 ≡ a
          → v.value_of k (pop_pending o json timeout r).1 ≡ v.value_of k r
      by_answer (err x) e = rw (e, pop_pending) after
      by_answer (ok none) e = rw (e, pop_pending) after
      by_answer (ok (some uid)) e = rw (e, pop_pending) (get_task-lasts uid _ k ∙ after)

  pop-lasts : (timeout : ℤ) (r : R) → SameValues v r (pop o json timeout r).1
  unfolding pop
  pop-lasts timeout r k = by_answer (o.z_pop_min priority_key r).0 refl
    where
      after : v.value_of k (o.z_pop_min priority_key r).1 ≡ v.value_of k r
      after = lasting.z_pop_min_lasts priority_key r k

      by_answer :
          (a : Result (List String))
          → (o.z_pop_min priority_key r).0 ≡ a
          → v.value_of k (pop o json timeout r).1 ≡ v.value_of k r
      by_answer (err x) e = rw (e, pop) after
      by_answer (ok []) e = rw (e, pop) (pop_pending-lasts timeout _ k ∙ after)
      by_answer (ok (uid ∷ _)) e = rw (e, pop) (get_task-lasts uid _ k ∙ after)

  -- An error, or the task that the text stands for.
  abbrev pub Back : String → Result (Option Task) → Type 0
  Back text a =
      ((e : Failure) × (a ≡ err e))
      ⊎ ((t : Task) × (a ≡ ok (some t)) × (json.unmarshal text ≡ ok t))

  Fetched-Back :
      (uid text : String) (r r' : R) (a : Result (Option Task))
      → Fetched o v laws json uid r a r'
      → v.value_of (task_key uid) r ≡ some text
      → v.value_of (task_key uid) r' ≡ v.value_of (task_key uid) r
      → Back text a
  Fetched-Back uid text r r' _ (there found t stored read) e same =
      inr (t, refl, subst (λ x. json.unmarshal x ≡ ok t) (ground (arith, stored, e)) read)
  Fetched-Back uid text r r' _ (Fetched.expired gone) e same =
      absurd (ground (arith, gone, e, same))
  Fetched-Back uid text r r' _ (Fetched.unread x) e same = inl (x, refl)

  -- The one UID in the queue is `uid`.
  abbrev Only : String → R → Type 0
  Only uid r =
      ((urgent_of o v laws json r ≡ uid ∷ []) × (pending_of o v laws json r ≡ []))
      ⊎ ((urgent_of o v laws json r ≡ []) × (pending_of o v laws json r ≡ uid ∷ []))

  same_head : (a b : String) (us : List String) → a ∷ us ≡ b ∷ [] → a ≡ b
  same_head a b us e = ground (arith, e)

  same_last : (a b : String) (us : List String) → us ++ a ∷ [] ≡ b ∷ [] → a ≡ b
  same_last a b [] e = ground (arith, e)
  same_last a b (x ∷ []) e = absurd (ground (arith, e))
  same_last a b (x ∷ y ∷ us) e = absurd (ground (arith, e))

  Popped-Back :
      (uid text : String) (r r' : R) (a : Result (Option Task))
      → Popped o v laws json r a r'
      → Only uid r
      → v.value_of (task_key uid) r ≡ some text
      → ((k : String) → v.value_of k r' ≡ v.value_of k r)
      → Back text a
  Popped-Back uid text r r' a (urgent u first same found) (inl (one, empty)) e lasts =
      let is : u ≡ uid = same_head u uid _ (sym first ∙ one) in
      Fetched-Back u text r r' a found (ap (λ x. v.value_of (task_key x) r) is ∙ e)
        (lasts (task_key u))
  Popped-Back uid text r r' a (urgent u first same found) (inr (empty, one)) e lasts =
      absurd (ground (arith, sym first ∙ empty))
  Popped-Back uid text r r' a (oldest u before after last found) (inl (one, empty)) e lasts =
      absurd (ground (arith, sym before ∙ one))
  Popped-Back uid text r r' a (oldest u before after last found) (inr (empty, one)) e lasts =
      let is : u ≡ uid = same_last u uid _ (sym last ∙ one) in
      Fetched-Back u text r r' a found (ap (λ x. v.value_of (task_key x) r) is ∙ e)
        (lasts (task_key u))
  Popped-Back uid text r r' _ (Popped.nothing before gone w) (inl (one, empty)) e lasts =
      absurd (ground (arith, sym before ∙ one))
  Popped-Back uid text r r' _ (Popped.nothing before gone w) (inr (empty, one)) e lasts =
      absurd (ground (arith, sym gone ∙ one))
  Popped-Back uid text r r' _ (Popped.refused x w) only e lasts = inl (x, refl)

  -- What storeTask has done where it returns no error.
  store_task-text :
      (t : Task) (text : String) (r : R)
      → json.marshal t ≡ ok text
      → (store_task o json t r).0 ≡ none
      → let r1 = (store_task o json t r).1 in
        (v.value_of (task_key t.task_uid) r1 ≡ some text)
        × (urgent_of o v laws json r1 ≡ urgent_of o v laws json r)
        × (pending_of o v laws json r1 ≡ pending_of o v laws json r)
  unfolding store_task
  store_task-text t text r e h =
      rw (e, store_task)
        (
          laws.set_ex_writes (task_key t.task_uid) text _ r (rw (e, store_task) at h),
          laws.set_ex_zsets (task_key t.task_uid) text _ r priority_key,
          laws.set_ex_lists (task_key t.task_uid) text _ r pending_key,
        )

  -- Whichever command puts the UID in, a Pop finds it.
  put-Back :
      (timeout : ℤ) (uid text : String) (r : R)
      → v.value_of (task_key uid) r ≡ some text
      → Only uid r
      → Back text (pop o json timeout r).0
  put-Back timeout uid text r e only =
      Popped-Back uid text r _ _ (pop-Popped o v laws json timeout r) only e (pop-lasts timeout r)

  push-Back :
      (timeout : ℤ) (t : Task) (text : String) (r : R)
      → urgent_of o v laws json r ≡ []
      → pending_of o v laws json r ≡ []
      → json.marshal t ≡ ok text
      → (push o json t r).0 ≡ none
      → Back text (pop o json timeout (push o json t r).1).0
  unfolding push Executed
  push-Back timeout t text r still empty e h = by_store (store_task o json t r).0 refl
    where
      r1 : R
      r1 = (store_task o json t r).1

      by_store :
          (x : Option Failure)
          → (store_task o json t r).0 ≡ x
          → Back text (pop o json timeout (push o json t r).1).0
      by_store (some x) f = absurd (ground (arith, rw (f, push) at h))
      by_store none f =
          let (stored, zsets, lists) = store_task-text t text r e f in
          let pushed : (o.l_push pending_key t.task_uid r1).0 ≡ none = rw (f, push) at h in
          let added : v.list_of pending_key (o.l_push pending_key t.task_uid r1).1
              ≡ t.task_uid ∷ v.list_of pending_key r1 =
            subst
              (λ a.
                Executed a (v.list_of pending_key (o.l_push pending_key t.task_uid r1).1)
                  (t.task_uid ∷ v.list_of pending_key r1) (v.list_of pending_key r1))
              pushed (laws.l_push_adds pending_key t.task_uid r1) in
          rw (f, push)
            (put-Back timeout t.task_uid text _
              (lasting.l_push_lasts pending_key t.task_uid r1 (task_key t.task_uid) ∙ stored)
              (inr (
                laws.l_push_zsets pending_key t.task_uid r1 priority_key ∙ zsets ∙ still,
                added ∙ ap (λ l. t.task_uid ∷ l) (lists ∙ empty),
              )))

  push_priority-Back :
      (timeout : ℤ) (f : Scores F) (t : Task) (text : String) (r : R)
      → urgent_of o v laws json r ≡ []
      → pending_of o v laws json r ≡ []
      → json.marshal t ≡ ok text
      → (push_priority o json f t r).0 ≡ none
      → Back text (pop o json timeout (push_priority o json f t r).1).0
  unfolding push_priority Executed
  push_priority-Back timeout f t text r still empty e h = by_store (store_task o json t r).0 refl
    where
      r1 : R
      r1 = (store_task o json t r).1

      score : F
      score = f.float_of (pos 0 -ℤ t.priority)

      by_store :
          (x : Option Failure)
          → (store_task o json t r).0 ≡ x
          → Back text (pop o json timeout (push_priority o json f t r).1).0
      by_store (some x) g = absurd (ground (arith, rw (g, push_priority) at h))
      by_store none g =
          let (stored, zsets, lists) = store_task-text t text r e g in
          let r2 = (o.z_add priority_key score t.task_uid r1).1 in
          let added : v.zset_of priority_key r2 ≡ t.task_uid ∷ [] =
            subst (λ a. Executed a (v.zset_of priority_key r2) (t.task_uid ∷ []) [])
              (rw (g, push_priority) at h)
              (laws.z_add_first priority_key score t.task_uid r1 (zsets ∙ still)) in
          rw (g, push_priority)
            (put-Back timeout t.task_uid text _
              (lasting.z_add_lasts priority_key score t.task_uid r1 (task_key t.task_uid) ∙ stored)
              (inl (
                added,
                laws.z_add_lists priority_key score t.task_uid r1 pending_key ∙ lists ∙ empty,
              )))

  -- The two ways in which the service queues a task.
  abbrev pub put : Scores F → Bool → Task → R → Option Failure × R
  put f true t r = push_priority o json f t r
  put f false t r = push o json t r

  -- While no key runs out: a task that Push or PushPriority has put into a queue that was empty comes
  -- back from the next Pop as what JSON makes of its text, unless that Pop returns an error.
  pub pop-put :
      (timeout : ℤ) (f : Scores F) (high : Bool) (t : Task) (text : String) (r : R)
      → urgent_of o v laws json r ≡ []
      → pending_of o v laws json r ≡ []
      → json.marshal t ≡ ok text
      → (put f high t r).0 ≡ none
      → Back text (pop o json timeout (put f high t r).1).0
  pop-put timeout f true t text r still empty e h =
      push_priority-Back timeout f t text r still empty e h
  pop-put timeout f false t text r still empty e h = push-Back timeout t text r still empty e h
