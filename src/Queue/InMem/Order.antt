-- ===== src/Queue/InMem/Order.antt =====
-- The order in which Pop of `InMemQueue` (internal/queue/inmem.go) returns the tasks.
use mathlib.Core.List.{Perm}
use mini_bk.Prelude.{◌≡◌, refl, [], ◌∷◌, Option, none, some, arith, ◌⊎◌, inl, inr, All, subst}
use mini_bk.Prelude.Int.{◌≤ℤ◌}
use mini_bk.Model.Task.{Task}
use mini_bk.Queue.Heap.Up.{IsHeap}
use mini_bk.Queue.Heap.Down.{heap_pop-Popped}
use mini_bk.Queue.InMem.{InMemQueue, pop_internal}
use mini_bk.Queue.InMem.Contents.{Attempt, nothing, oldest, urgent, pop_internal-Attempt, ready}

-- A task that may be returned next: no priority task is before it, and it is a priority task or the
-- oldest of the others.
pub data IsNext (q : InMemQueue) (t : Task) (q' : InMemQueue) : Type 0 where
  by_priority :
      Perm (t ∷ q'.pq) q.pq
      → All (λ u. u.priority ≤ℤ t.priority) q.pq
      → q'.items ≡ q.items
      → IsNext q t q'
  by_age : q.pq ≡ [] → q'.pq ≡ [] → q.items ≡ t ∷ q'.items → IsNext q t q'

abbrev pub NextPop : InMemQueue → Type 0
NextPop q =
    ((ready q ≡ []) × (pop_internal q ≡ (none, q)))
    ⊎ ((t : Task) × (q' : InMemQueue) × (pop_internal q ≡ (some t, q'))
        × IsNext q t q'
        × IsHeap q'.pq
        × (q'.delayed ≡ q.delayed)
        × (q'.closed ≡ q.closed))

-- Pop on a queue whose priority slice is a heap: either nothing is in it and the queue stays as it
-- was, or it returns a priority task of the highest priority, or, where there is none, the oldest of
-- the other tasks; it takes that task and no other out, and the slice is a heap again.
pub pop_internal-IsNext :
    (q : InMemQueue)
    → IsHeap q.pq
    → ((ready q ≡ []) × (pop_internal q ≡ (none, q)))
      ⊎ ((t : Task) × (q' : InMemQueue) × (pop_internal q ≡ (some t, q'))
          × IsNext q t q'
          × IsHeap q'.pq
          × (q'.delayed ≡ q.delayed)
          × (q'.closed ≡ q.closed))
pop_internal-IsNext q v = by_attempt (pop_internal q) (pop_internal-Attempt q) refl
  where
    by_attempt : (r : Option Task × InMemQueue) → Attempt q r → pop_internal q ≡ r → NextPop q
    by_attempt _ (nothing p e) h = inl (rw (p, e) refl, h)
    by_attempt _ (oldest t rest p e) h =
        inr (t, record q { items = rest }, h, by_age p p e, v, refl, refl)
    by_attempt _ (urgent t rest full popped same) h =
        let (t1, rest1, popped1, made) = heap_pop-Popped q.pq v full in
        let one : t1 ≡ t = ground arith in
        let two : rest1 ≡ rest = ground arith in
        inr (
          t,
          record q { pq = rest },
          h,
          by_priority same (rw (← one) made.highest) refl,
          subst IsHeap two made.heap,
          refl,
          refl,
        )
