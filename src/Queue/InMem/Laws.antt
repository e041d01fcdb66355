-- ===== src/Queue/InMem/Laws.antt =====
-- `InMemQueue` (internal/queue/inmem.go) as an implementation of `TaskQueue`
-- (internal/queue/queue.go).
use mathlib.Core.List.Perm
use mini_bk.Prelude.{
  ℕ, ◌+◌, ◌<◌, ◌≡◌, refl, ap, Option, none, some, true, arith, length, All, All-append, subst,
}
use mini_bk.Prelude.Int.{ℤ, pos, ◌+ℤ◌, ltb_ℤ, int_laws, lt→ltb_ℤ}
use mini_bk.Model.Errors.{ok}
use mini_bk.Model.Task.{Task, Time}
use mini_bk.Queue.Interface.{IsTaskQueue, KeepsTasks, AcceptsTasks}
use mini_bk.Queue.Heap.Up.{heap_push-perm}
use mini_bk.Queue.Heap.Content.{length-perm, All-perm}
use mini_bk.Queue.InMem.{
  InMemQueue, in_mem, pop, pop_loop, pop_internal, push, push_priority, push_delayed,
}
use mini_bk.Queue.InMem.Contents.{Attempt, nothing, oldest, urgent, pop_internal-Attempt}

unfoldable pub waiting : InMemQueue → ℕ
waiting q = length q.pq + length q.items

late : (now timeout : ℤ) → ltb_ℤ (now +ℤ timeout) (now +ℤ timeout +ℤ pos 1) ≡ true
late now timeout = lt→ltb_ℤ (now +ℤ timeout) (now +ℤ timeout +ℤ pos 1) (omega int_laws)

-- A Pop during which nothing else happens makes one attempt.
pub pop_lem :
    (timeout : ℤ) (now : Time) (q : InMemQueue)
    → pop timeout now q ≡ (ok (pop_internal q).0, (pop_internal q).1)
unfolding pop pop_loop
pop_lem timeout now q = by_attempt (pop_internal q) refl
  where
    by_attempt :
        (r : Option Task × InMemQueue) → pop_internal q ≡ r → pop timeout now q ≡ (ok r.0, r.1)
    by_attempt (some t, q') e = rw (e, pop_loop) (ap (λ r. (ok (some t), r.1)) e)
    by_attempt (none, q') e = rw (e, pop_loop) (rw (late now timeout) (ap (λ r. (ok none, r.1)) e))

takes :
    (q : InMemQueue) (r : Option Task × InMemQueue) (t : Task)
    → Attempt q r
    → r.0 ≡ some t
    → waiting r.1 < waiting q
unfolding waiting
takes q _ t (nothing p e) h = absurd (ground arith)
takes q _ t (oldest u rest p e) h = omega (arith, ap length e)
takes q _ t (urgent u rest full popped same) h = omega (arith, length-perm same)

-- The queue of one process is a task queue whose waiting tasks are its priority tasks and its plain
-- tasks: a Pop that returns a task leaves fewer to wait, and a delayed task is not waiting.
pub in_mem-IsTaskQueue : IsTaskQueue in_mem waiting
unfolding push_delayed waiting
in_mem-IsTaskQueue = record {
  pop_takes = λ timeout now q t h.
      rw (pop_lem timeout now q) (
        takes q (pop_internal q) t (pop_internal-Attempt q)
          (ground (arith, pop_lem timeout now q)));
  delayed_waits = λ now delay t q. omega arith;
}

-- Every task in the queue has the property, delayed ones included.
pub record AllIn (P : Task → Type 0) (q : InMemQueue) : Type 0 where
  pub in_items : All P q.items
  pub in_pq : All P q.pq
  pub in_delayed : All (λ d. P d.task) q.delayed

module _ (P : Task → Type 0) (prop : (t : Task) → IsProp (P t)) where
  Attempt-AllIn :
      (q : InMemQueue) (r : Option Task × InMemQueue) → Attempt q r → AllIn P q → AllIn P r.1
  Attempt-AllIn q _ (nothing p e) a = a
  Attempt-AllIn q _ (oldest t rest p e) a = record {
    in_items = (subst (All P) e a.in_items).1;
    in_pq = a.in_pq;
    in_delayed = a.in_delayed;
  }
  Attempt-AllIn q _ (urgent t rest full popped same) a = record {
    in_items = a.in_items;
    in_pq = (All-perm P prop (Perm.symm same) a.in_pq).1;
    in_delayed = a.in_delayed;
  }

  Attempt-holds :
      (q : InMemQueue) (r : Option Task × InMemQueue) (t : Task)
      → Attempt q r
      → AllIn P q
      → r.0 ≡ some t
      → P t
  Attempt-holds q _ t (nothing p e) a h = absurd (ground arith)
  Attempt-holds q _ t (oldest u rest p e) a h =
      subst P (ground arith) (subst (All P) e a.in_items).0
  Attempt-holds q _ t (urgent u rest full popped same) a h =
      subst P (ground arith) (All-perm P prop (Perm.symm same) a.in_pq).0

  -- If every task of the queue has a property, Pop returns a task with the property and leaves only
  -- such tasks, and so does PushDelayed of such a task.
  pub in_mem-KeepsTasks : KeepsTasks in_mem P (AllIn P)
  unfolding push_delayed
  in_mem-KeepsTasks = record {
    pop_holds = λ timeout now q a.
        rw (pop_lem timeout now q) (Attempt-AllIn q (pop_internal q) (pop_internal-Attempt q) a);
    popped_holds = λ timeout now q t a h.
        Attempt-holds q (pop_internal q) t (pop_internal-Attempt q) a
          (ground (arith, pop_lem timeout now q));
    delayed_holds = λ now delay t q h a. record {
      in_items = a.in_items;
      in_pq = a.in_pq;
      in_delayed = All-append (λ d. P d.task) q.delayed _ a.in_delayed (h, tt);
    };
  }

  pub in_mem-AcceptsTasks : AcceptsTasks in_mem P (AllIn P)
  unfolding push push_priority
  in_mem-AcceptsTasks = record {
    push_holds = λ t q h a. record {
      in_items = All-append P q.items _ a.in_items (h, tt);
      in_pq = a.in_pq;
      in_delayed = a.in_delayed;
    };
    urgent_holds = λ t q h a. record {
      in_items = a.in_items;
      in_pq = All-perm P prop (Perm.symm (heap_push-perm t q.pq)) (h, a.in_pq);
      in_delayed = a.in_delayed;
    };
  }
