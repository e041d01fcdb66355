-- ===== src/Queue/InMem/Contents.antt =====
-- What one step of `InMemQueue` (internal/queue/inmem.go) takes out of the queue and what it leaves.
use mathlib.Core.List.{Perm, append_assoc, append-nil}
use mini_bk.Prelude.{
  ◌+◌, ◌<◌, ◌≡◌, refl, ap, List, [], ◌∷◌, ◌++◌, Option, none, some, Bool, false, not, arith, length,
  ltb, keep, length-append, inl, inr, Bool-cases,
}
use mini_bk.Prelude.Int.{ltb_ℤ}
use mini_bk.Model.Errors.{ok}
use mini_bk.Model.Task.{Task, Time}
use mini_bk.Queue.Heap.{heap_pop}
use mini_bk.Queue.Heap.Content.{heap_pop-perm}
use mini_bk.Queue.InMem.{
  DelayedItem, InMemQueue, pop_internal, pop_priority, pop_item, drain_items, drain_due, size,
}

-- What a Pop may return at once: the priority tasks, then the others.
abbrev pub ready : InMemQueue → List Task
ready q = q.pq ++ q.items

-- What one attempt of Pop on a queue may give.
pub data Attempt (q : InMemQueue) : Option Task × InMemQueue → Type 0 where
  -- Nothing is ready, and the queue is as it was.
  nothing : q.pq ≡ [] → q.items ≡ [] → Attempt q (none, q)
  -- The oldest of the plain tasks, where no priority task waits.
  oldest :
      (t : Task) (rest : List Task)
      → q.pq ≡ []
      → q.items ≡ t ∷ rest
      → Attempt q (some t, record q { items = rest })
  -- A priority task.
  urgent :
      (t : Task) (rest : List Task)
      → 0 < length q.pq
      → heap_pop q.pq ≡ some (t, rest)
      → Perm (t ∷ rest) q.pq
      → Attempt q (some t, record q { pq = rest })

no_items :
    (q : InMemQueue) (items : List Task)
    → q.pq ≡ []
    → q.items ≡ items
    → Attempt q (pop_item items q)
unfolding pop_item
no_items q [] p e = nothing p e
no_items q (t ∷ rest) p e = oldest t rest p e

empty_of : {A : Type 0} (xs : List A) → ltb 0 (length xs) ≡ false → xs ≡ []
empty_of [] h = refl
empty_of (x ∷ xs) h = absurd (ground arith)

pub pop_internal-Attempt : (q : InMemQueue) → Attempt q (pop_internal q)
unfolding pop_internal
pop_internal-Attempt q = elim (Bool-cases (ltb 0 (length q.pq))) [
  | inl e ↦
      let full : 0 < length q.pq = ground arith in
      let (t, rest, popped, same) = heap_pop-perm q.pq full in
      rw (e, pop_internal, popped, pop_priority) (urgent t rest full popped same)
  | inr e ↦ rw (e, pop_internal) (no_items q q.items (empty_of q.pq e) refl)
]

-- The due items of a list, in order, and the others.
abbrev pub is_due : Time → DelayedItem → Bool
is_due now d = not (ltb_ℤ now d.due)

abbrev pub is_early : Time → DelayedItem → Bool
is_early now d = ltb_ℤ now d.due

abbrev pub tasks_of : List DelayedItem → List Task
tasks_of [] = []
tasks_of (d ∷ ds) = d.task ∷ tasks_of ds

drain_items_lem :
    (now : Time) (ds remaining : List DelayedItem) (items : List Task)
    → drain_items now ds remaining items
      ≡ (items ++ tasks_of (keep (is_due now) ds), remaining ++ keep (is_early now) ds)
unfolding drain_items keep
drain_items_lem now [] remaining items = rw (append-nil items, append-nil remaining) refl
drain_items_lem now (d ∷ ds) remaining items = elim (Bool-cases (ltb_ℤ now d.due)) [
  | inl e ↦
      rw (e, drain_items_lem now ds (remaining ++ d ∷ []) items, append_assoc remaining (d ∷ []))
        refl
  | inr e ↦
      rw
        (
          e,
          drain_items_lem now ds remaining (items ++ d.task ∷ []),
          append_assoc items (d.task ∷ []),
        )
        refl
]

keep-both :
    (now : Time) (ds : List DelayedItem)
    → length (tasks_of (keep (is_due now) ds)) + length (keep (is_early now) ds) ≡ length ds
unfolding keep
keep-both now [] = refl
keep-both now (d ∷ ds) = ground (arith, keep-both now ds)

-- A tick of the background loop of a queue that is not closed appends the tasks that are due to the
-- plain tasks, in the order in which they were delayed, and keeps the delayed items that are not due
-- as they stand; the priority tasks stay, and the number of tasks in the queue does not change.
pub drain_due_lem :
    (now : Time) (q : InMemQueue)
    → q.closed ≡ false
    → (drain_due now q ≡ record q {
      items = q.items ++ tasks_of (keep (is_due now) q.delayed);
      delayed = keep (is_early now) q.delayed;
    })
      × (size (drain_due now q) ≡ size q)
unfolding drain_due size
drain_due_lem now q alive =
    rw (alive, drain_items_lem now q.delayed [] q.items)
      (
        refl,
        ap ok (
            omega (
              arith,
              keep-both now q.delayed,
              length-append q.items (tasks_of (keep (is_due now) q.delayed)),
            )),
      )
