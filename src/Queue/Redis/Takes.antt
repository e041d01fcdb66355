-- ===== src/Queue/Redis/Takes.antt =====
-- What a Pop of internal/queue/redis.go takes out of Redis, whatever it returns.
use mini_bk.Prelude.{
  ℕ, ◌+◌, ◌≤◌, ◌≡◌, refl, sym, ap, ◌∙◌, arith, String, List, [], ◌∷◌, ◌++◌, Option, none, some, inl,
  inr, ◌⊎◌, length, length-append,
}
use mini_bk.Prelude.Int.{ℤ}
use mini_bk.Model.Errors.{Failure, Result, ok, err}
use mini_bk.Model.Task.{Task}
use mini_bk.Queue.Redis.{
  RedisOps, Json, pop, pop_pending, get_task, decoded, task_key, pending_key, priority_key,
}
use mini_bk.Queue.Redis.Laws.{Views, IsRedis}

module _ {F R : Type 0} (o : RedisOps F R) (v : Views R) (laws : IsRedis o v) (json : Json) where
  abbrev pub pending_of : R → List String
  pending_of r = v.list_of pending_key r

  abbrev pub urgent_of : R → List String
  urgent_of r = v.zset_of priority_key r

  abbrev pub waiting_in : R → ℕ
  waiting_in r = length (urgent_of r) + length (pending_of r)

  -- The answer of Pop for a UID that it has taken out, from the database `r` to the one that it
  -- leaves.
  pub data Fetched (uid : String) (r : R) : Result (Option Task) → R → Type 0 where
    there :
        {r' : R} (text : String) (t : Task)
        → v.value_of (task_key uid) r ≡ some text
        → json.unmarshal text ≡ ok t
        → Fetched uid r (ok (some t)) r'
    expired : {r' : R} → v.value_of (task_key uid) r' ≡ none → Fetched uid r (ok none) r'
    unread : {r' : R} (e : Failure) → Fetched uid r (err e) r'

  pub data Popped (r : R) : Result (Option Task) → R → Type 0 where
    urgent :
        {a : Result (Option Task)} {r' : R} (uid : String)
        → urgent_of r ≡ uid ∷ urgent_of r'
        → pending_of r' ≡ pending_of r
        → Fetched uid r a r'
        → Popped r a r'
    oldest :
        {a : Result (Option Task)} {r' : R} (uid : String)
        → urgent_of r ≡ []
        → urgent_of r' ≡ []
        → pending_of r ≡ pending_of r' ++ uid ∷ []
        → Fetched uid r a r'
        → Popped r a r'
    nothing :
        {r' : R} → urgent_of r ≡ [] → pending_of r ≡ [] → waiting_in r' ≡ 0 → Popped r (ok none) r'
    refused : {r' : R} (e : Failure) → waiting_in r' ≤ waiting_in r → Popped r (err e) r'

  decoded-Fetched :
      (uid : String) (r r' : R) (a : Result (Option String))
      → ((text : String) → a ≡ ok (some text) → v.value_of (task_key uid) r ≡ some text)
      → (a ≡ ok none → v.value_of (task_key uid) r' ≡ none)
      → Fetched uid r (decoded o json a) r'
  unfolding decoded
  decoded-Fetched uid r r' (err e) h gone = unread _
  decoded-Fetched uid r r' (ok none) h gone = expired (gone refl)
  decoded-Fetched uid r r' (ok (some text)) h gone = by_task (json.unmarshal text) refl
    where
      by_task :
          (x : Result Task)
          → json.unmarshal text ≡ x
          → Fetched uid r
              (elim (json.unmarshal text) as (λ y. Result (Option Task)) [
                | err e ↦ err (Failure.wrapped "unmarshal task" e)
                | ok t ↦ ok (some t)
              ])
              r'
      by_task (err e) same = rw same (unread _)
      by_task (ok t) same = rw same (there text t (h text refl) same)

  -- The text that GET finds at `r1` was there at `r`, if nothing was written in between.
  get_task-Fetched :
      (uid : String) (r r1 : R)
      → (v.value_of (task_key uid) r1 ≡ none)
        ⊎ (v.value_of (task_key uid) r1 ≡ v.value_of (task_key uid) r)
      → Fetched uid r (get_task o json uid r1).0 (get_task o json uid r1).1
  unfolding get_task
  get_task-Fetched uid r r1 fades =
      decoded-Fetched uid r _ (o.get (task_key uid) r1).0
        (λ text e. before fades (laws.get_reads (task_key uid) text r1 e))
        (λ e. laws.get_misses (task_key uid) r1 e)
    where
      before :
          {text : String}
          → (v.value_of (task_key uid) r1 ≡ none)
            ⊎ (v.value_of (task_key uid) r1 ≡ v.value_of (task_key uid) r)
          → v.value_of (task_key uid) r1 ≡ some text
          → v.value_of (task_key uid) r ≡ some text
      before (inl gone) e = absurd (ground (arith, gone, e))
      before (inr same) e = sym same ∙ e

  fades-then :
      (k : String) (r r1 r2 : R)
      → (v.value_of k r1 ≡ none) ⊎ (v.value_of k r1 ≡ v.value_of k r)
      → (v.value_of k r2 ≡ none) ⊎ (v.value_of k r2 ≡ v.value_of k r1)
      → (v.value_of k r2 ≡ none) ⊎ (v.value_of k r2 ≡ v.value_of k r)
  fades-then k r r1 r2 a (inl gone) = inl gone
  fades-then k r r1 r2 (inl gone) (inr same) = inl (same ∙ gone)
  fades-then k r r1 r2 (inr kept) (inr same) = inr (same ∙ kept)

  get_task-pending : (uid : String) (r : R) → pending_of (get_task o json uid r).1 ≡ pending_of r
  unfolding get_task
  get_task-pending uid r = laws.get_lists (task_key uid) r pending_key

  get_task-urgent : (uid : String) (r : R) → urgent_of (get_task o json uid r).1 ≡ urgent_of r
  unfolding get_task
  get_task-urgent uid r = laws.get_zsets (task_key uid) r priority_key

  -- The second half, from the state `r1` that ZPOPMIN has left of `r`.
  pop_pending-Popped :
      (timeout : ℤ) (r r1 : R)
      → urgent_of r ≡ []
      → urgent_of r1 ≡ []
      → pending_of r1 ≡ pending_of r
      → ((k : String) → (v.value_of k r1 ≡ none) ⊎ (v.value_of k r1 ≡ v.value_of k r))
      → Popped r (pop_pending o json timeout r1).0 (pop_pending o json timeout r1).1
  unfolding pop_pending
  pop_pending-Popped timeout r r1 none_urgent still same fades =
      by_answer (o.br_pop timeout pending_key r1).0 refl
    where
      r2 : R
      r2 = (o.br_pop timeout pending_key r1).1

      left : urgent_of r2 ≡ []
      left = laws.br_pop_zsets timeout pending_key r1 priority_key ∙ still

      by_answer :
          (a : Result (Option String))
          → (o.br_pop timeout pending_key r1).0 ≡ a
          → Popped r (pop_pending o json timeout r1).0 (pop_pending o json timeout r1).1
      by_answer (ok (some uid)) e =
          rw (e, pop_pending)
            (oldest uid none_urgent (get_task-urgent uid r2 ∙ left)
              (sym same
                ∙ laws.br_pop_takes timeout pending_key uid r1 e
                ∙ ap (λ l. l ++ uid ∷ []) (sym (get_task-pending uid r2)))
              (get_task-Fetched uid r r2 (
                fades-then (task_key uid) r r1 r2 (fades (task_key uid))
                  (laws.br_pop_values timeout pending_key r1 (task_key uid)))))
      by_answer (ok none) e =
          let (empty, gone) = laws.br_pop_waits timeout pending_key r1 e in
          rw (e, pop_pending)
            (nothing none_urgent (sym same ∙ empty) (omega (arith, ap length left, ap length gone)))
      by_answer (err x) e =
          rw (e, pop_pending) (refused x (fewer (laws.br_pop_fails timeout pending_key r1 x e)))
        where
          fewer :
              (pending_of r1 ≡ pending_of r2)
                ⊎ ((s : String) × (pending_of r1 ≡ pending_of r2 ++ s ∷ []))
              → waiting_in r2 ≤ waiting_in r
          fewer (inl kept) = omega (arith, ap length left, ap length kept, ap length same)
          fewer (inr (s, cut)) = omega (
            arith,
            ap length left,
            ap length cut,
            ap length same,
            length-append (pending_of r2) (s ∷ []),
          )

  -- A Pop takes the first UID of the priority set, or else the oldest of the pending list, or finds
  -- both empty, unless the very command that takes a UID fails. The entry that it took is out of Redis
  -- whatever becomes of the rest: Pop may return the task stored under the UID, but where its text has
  -- run out, or GET or JSON fails, it returns no task, and the entry is gone all the same.
  pub pop-Popped :
      (timeout : ℤ) (r : R) → Popped r (pop o json timeout r).0 (pop o json timeout r).1
  unfolding pop
  pop-Popped timeout r = by_answer (o.z_pop_min priority_key r).0 refl
    where
      r1 : R
      r1 = (o.z_pop_min priority_key r).1

      same : pending_of r1 ≡ pending_of r
      same = laws.z_pop_min_lists priority_key r pending_key

      by_members :
          (ms : List String)
          → (o.z_pop_min priority_key r).0 ≡ ok ms
          → ((ms ≡ []) × (urgent_of r ≡ []) × (urgent_of r1 ≡ []))
            ⊎ ((m : String) × (ms ≡ m ∷ []) × (urgent_of r ≡ m ∷ urgent_of r1))
          → Popped r (pop o json timeout r).0 (pop o json timeout r).1
      by_members ms e (inl (none_left, before, after)) =
          rw (e ∙ ap ok none_left, pop)
            (pop_pending-Popped timeout r r1 before after same
              (λ k. laws.z_pop_min_values priority_key r k))
      by_members ms e (inr (m, one, before)) =
          rw (e ∙ ap ok one, pop)
            (urgent m (before ∙ ap (λ l. m ∷ l) (sym (get_task-urgent m r1)))
              (get_task-pending m r1 ∙ same)
              (get_task-Fetched m r r1 (laws.z_pop_min_values priority_key r (task_key m))))

      by_answer :
          (a : Result (List String))
          → (o.z_pop_min priority_key r).0 ≡ a
          → Popped r (pop o json timeout r).0 (pop o json timeout r).1
      by_answer (ok ms) e = by_members ms e (laws.z_pop_min_takes priority_key r ms e)
      by_answer (err x) e =
          rw (e, pop) (refused x (fewer (laws.z_pop_min_fails priority_key r x e)))
        where
          fewer :
              (urgent_of r ≡ urgent_of r1) ⊎ ((m : String) × (urgent_of r ≡ m ∷ urgent_of r1))
              → waiting_in r1 ≤ waiting_in r
          fewer (inl kept) = omega (arith, ap length kept, ap length same)
          fewer (inr (m, cut)) = omega (arith, ap length cut, ap length same)
