-- ===== src/Examples/Queueing.antt =====
-- Runs of internal/queue/inmem.go.
use mini_bk.Prelude.{◌≡◌, refl, [], ◌∷◌, false, arith, keep}
use mini_bk.Prelude.Int.{pos}
use mini_bk.Model.Task.{Task}
use mini_bk.Queue.Heap.Up.{IsHeap}
use mini_bk.Queue.InMem.{InMemQueue, drain_due, size}
use mini_bk.Queue.InMem.Contents.{drain_due_lem, is_due, is_early, tasks_of}
use mini_bk.Queue.InMem.Order.{pop_internal-IsNext, NextPop}
use mini_bk.Examples.{task_a, task_b, queue_ab}

one-IsHeap : (t : Task) → IsHeap (t ∷ [])
one-IsHeap t c p q = absurd (omega arith)

pop_internal-IsNext_example : NextPop queue_ab
pop_internal-IsNext_example = pop_internal-IsNext queue_ab (one-IsHeap task_b)

-- One item is due and one is not.
abbrev delaying : InMemQueue
delaying = record {
  items = [];
  pq = [];
  closed = false;
  delayed = record { task = task_a; due = pos 4 } ∷ record { task = task_b; due = pos 9 } ∷ [];
}

drain_due_lem_example :
    (drain_due (pos 5) delaying ≡ record delaying {
      items = tasks_of (keep (is_due (pos 5)) delaying.delayed);
      delayed = keep (is_early (pos 5)) delaying.delayed;
    })
    × (size (drain_due (pos 5) delaying) ≡ size delaying)
drain_due_lem_example = drain_due_lem (pos 5) delaying refl
