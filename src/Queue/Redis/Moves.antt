-- ===== src/Queue/Redis/Moves.antt =====
-- That the delay loop of internal/queue/redis.go neither loses nor invents a task.
use mathlib.Core.List.Memᴰ as Mem
use mini_bk.Prelude.{
  ◌≡◌, refl, sym, subst, arith, String, List, [], ◌∷◌, Option, none, some, str_eq, eq_iff, inl, inr,
  ◌⊎◌, ◌↔◌, Memᴰ, Bool-cases,
}
use mini_bk.Prelude.Int.{pos}
use mini_bk.Model.Errors.{Failure, Result, ok, err}
use mini_bk.Model.Task.{Time}
use mini_bk.Queue.Redis.{
  RedisOps, LoopEvent, stop, wake, move_one, move_all, move_due_delayed, process_delayed_loop,
  pending_key, delayed_key, unix,
}
use mini_bk.Queue.Redis.Laws.{Views, IsRedis, Executed}

module _ {F R : Type 0} (o : RedisOps F R) (v : Views R) (laws : IsRedis o v) where
  -- The UID waits in the pending list or in the delayed set.
  pub data Queued (u : String) (r : R) : Type 0 where
    ready : Memᴰ u (v.list_of pending_key r) → Queued u r
    delayed : Memᴰ u (v.zset_of delayed_key r) → Queued u r

  same-Queued :
      (u : String) (r r' : R)
      → v.list_of pending_key r' ≡ v.list_of pending_key r
      → v.zset_of delayed_key r' ≡ v.zset_of delayed_key r
      → Queued u r
      → Queued u r'
  same-Queued u r r' l z (ready m) = ready (subst (Memᴰ u) (sym l) m)
  same-Queued u r r' l z (delayed m) = delayed (subst (Memᴰ u) (sym z) m)

  -- After LPUSH of `uid`, executed or not.
  pushed-Queued :
      (u uid : String) (r r1 : R)
      → (v.list_of pending_key r1 ≡ uid ∷ v.list_of pending_key r)
        ⊎ (v.list_of pending_key r1 ≡ v.list_of pending_key r)
      → v.zset_of delayed_key r1 ≡ v.zset_of delayed_key r
      → Queued u r
      → Queued u r1
  pushed-Queued u uid r r1 (inl l) z (ready m) = ready (subst (Memᴰ u) (sym l) (Memᴰ.tail m))
  pushed-Queued u uid r r1 (inl l) z (delayed m) = delayed (subst (Memᴰ u) (sym z) m)
  pushed-Queued u uid r r1 (inr l) z q = same-Queued u r r1 l z q

  pushed-only :
      (u uid : String) (r r1 : R)
      → (v.list_of pending_key r1 ≡ uid ∷ v.list_of pending_key r)
        ⊎ (v.list_of pending_key r1 ≡ v.list_of pending_key r)
      → v.zset_of delayed_key r1 ≡ v.zset_of delayed_key r
      → Queued u r1
      → Queued u r ⊎ (u ≡ uid)
  pushed-only u uid r r1 (inl l) z (ready m) = by_place (Mem.cases_cons (subst (Memᴰ u) l m))
    where
      by_place : (u ≡ uid) ⊎ Memᴰ u (v.list_of pending_key r) → Queued u r ⊎ (u ≡ uid)
      by_place (inl e) = inr e
      by_place (inr n) = inl (ready n)
  pushed-only u uid r r1 (inl l) z (delayed m) = inl (delayed (subst (Memᴰ u) z m))
  pushed-only u uid r r1 (inr l) z q = inl (same-Queued u r1 r (sym l) (sym z) q)

  -- ZREM of `uid`, which is in the pending list.
  removed-Queued :
      (u uid : String) (r : R)
      → Memᴰ uid (v.list_of pending_key r)
      → Queued u r
      → Queued u (o.z_rem delayed_key uid r).1
  removed-Queued u uid r there (ready m) =
      ready (subst (Memᴰ u) (sym (laws.z_rem_lists delayed_key uid r pending_key)) m)
  removed-Queued u uid r there (delayed m) = elim (Bool-cases (str_eq u uid)) [
    | inl e ↦ ready (
        subst (Memᴰ u) (sym (laws.z_rem_lists delayed_key uid r pending_key))
          (Mem.cast ((eq_iff u uid).0 e) there))
    | inr e ↦ delayed (
        laws.z_rem_keeps delayed_key uid u r
          (λ same. absurd (ground (arith, (eq_iff u uid).1 same))) m)
  ]

  removed-only : (u uid : String) (r : R) → Queued u (o.z_rem delayed_key uid r).1 → Queued u r
  removed-only u uid r (ready m) =
      ready (subst (Memᴰ u) (laws.z_rem_lists delayed_key uid r pending_key) m)
  removed-only u uid r (delayed m) = delayed (laws.z_rem_only delayed_key uid u r m)

  -- Up to one UID, the same are queued.
  abbrev Adds : String → R → R → Type 0
  Adds uid r r' = (u : String) → (Queued u r → Queued u r') × (Queued u r' → Queued u r ⊎ (u ≡ uid))

  move_one-Adds : (uid : String) (r : R) → Adds uid r (move_one o uid r)
  unfolding move_one Executed
  move_one-Adds uid r u = by_answer (o.l_push pending_key uid r).0 refl
    where
      r1 : R
      r1 = (o.l_push pending_key uid r).1

      still : v.zset_of delayed_key r1 ≡ v.zset_of delayed_key r
      still = laws.l_push_zsets pending_key uid r delayed_key

      by_answer :
          (a : Option Failure)
          → (o.l_push pending_key uid r).0 ≡ a
          → (Queued u r → Queued u (move_one o uid r))
            × (Queued u (move_one o uid r) → Queued u r ⊎ (u ≡ uid))
      by_answer (some x) e =
          let l =
            subst
              (λ a.
                Executed a (v.list_of pending_key r1) (uid ∷ v.list_of pending_key r)
                  (v.list_of pending_key r))
              e (laws.l_push_adds pending_key uid r) in
          rw (e, move_one) (pushed-Queued u uid r r1 l still, pushed-only u uid r r1 l still)
      by_answer none e =
          let l =
            subst
              (λ a.
                Executed a (v.list_of pending_key r1) (uid ∷ v.list_of pending_key r)
                  (v.list_of pending_key r))
              e (laws.l_push_adds pending_key uid r) in
          rw (e, move_one)
            (
              λ q.
                  removed-Queued u uid r1 (subst (Memᴰ uid) (sym l) (Memᴰ.head refl))
                    (pushed-Queued u uid r r1 (inl l) still q),
              λ q. pushed-only u uid r r1 (inl l) still (removed-only u uid r1 q),
            )

  move_all-Queued :
      (uids : List String) (r : R) (u : String) → Queued u r → Queued u (move_all o uids r)
  unfolding move_all
  move_all-Queued [] r u q = q
  move_all-Queued (uid ∷ uids) r u q =
      move_all-Queued uids (move_one o uid r) u ((move_one-Adds uid r u).0 q)

  move_all-only :
      (uids : List String) (r : R) (u : String)
      → Queued u (move_all o uids r)
      → Queued u r ⊎ Memᴰ u uids
  unfolding move_all
  move_all-only [] r u q = inl q
  move_all-only (uid ∷ uids) r u q = later (move_all-only uids (move_one o uid r) u q)
    where
      first : Queued u r ⊎ (u ≡ uid) → Queued u r ⊎ Memᴰ u (uid ∷ uids)
      first (inl p) = inl p
      first (inr e) = inr (Memᴰ.head e)

      later : Queued u (move_one o uid r) ⊎ Memᴰ u uids → Queued u r ⊎ Memᴰ u (uid ∷ uids)
      later (inl p) = first ((move_one-Adds uid r u).1 p)
      later (inr m) = inr (Memᴰ.tail m)

  move_due_delayed-Queued :
      (now : Time) (r : R) (u : String)
      → (Queued u r → Queued u (move_due_delayed o now r))
        × (Queued u (move_due_delayed o now r) → Queued u r)
  unfolding move_due_delayed
  move_due_delayed-Queued now r u =
      by_answer (o.z_range_by_score delayed_key (pos 0) (unix now) r).0 refl
    where
      r1 : R
      r1 = (o.z_range_by_score delayed_key (pos 0) (unix now) r).1

      lists : v.list_of pending_key r1 ≡ v.list_of pending_key r
      lists = laws.z_range_by_score_lists delayed_key (pos 0) (unix now) r pending_key

      zsets : v.zset_of delayed_key r1 ≡ v.zset_of delayed_key r
      zsets = laws.z_range_by_score_zsets delayed_key (pos 0) (unix now) r delayed_key

      back : Queued u r1 → Queued u r
      back q = same-Queued u r1 r (sym lists) (sym zsets) q

      by_answer :
          (a : Result (List String))
          → (o.z_range_by_score delayed_key (pos 0) (unix now) r).0 ≡ a
          → (Queued u r → Queued u (move_due_delayed o now r))
            × (Queued u (move_due_delayed o now r) → Queued u r)
      by_answer (err x) e = rw (e, move_due_delayed) (same-Queued u r r1 lists zsets, back)
      by_answer (ok uids) e =
          rw (e, move_due_delayed)
            (
              λ q. move_all-Queued uids r1 u (same-Queued u r r1 lists zsets q),
              λ q. which (move_all-only uids r1 u q),
            )
        where
          which : Queued u r1 ⊎ Memᴰ u uids → Queued u r
          which (inl q) = back q
          which (inr m) =
              delayed (laws.z_range_by_score_members delayed_key (pos 0) (unix now) r uids u e m)

  -- Whichever commands fail in whichever rounds, the delay loop loses no UID and makes none up: after
  -- it the UIDs in the pending list or the delayed set are those that were in one of them before.
  pub process_delayed_loop-Queued :
      (events : List LoopEvent) (r : R) (u : String)
      → Queued u r ↔ Queued u (process_delayed_loop o events r)
  unfolding process_delayed_loop
  process_delayed_loop-Queued [] r u = (λ q. q, λ q. q)
  process_delayed_loop-Queued (stop ∷ rest) r u = (λ q. q, λ q. q)
  process_delayed_loop-Queued (wake now ∷ rest) r u =
      let (ahead, back) = move_due_delayed-Queued now r u in
      let (on, undo) = process_delayed_loop-Queued rest (move_due_delayed o now r) u in
      (λ q. on (ahead q), λ q. back (undo q))
