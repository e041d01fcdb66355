-- ===== src/Queue/InMem.antt =====
-- internal/queue/inmem.go. An operation that holds `mu` or `delayedMu` is one step. `Pop` polls: the
-- rounds of its loop are listed with the times that they read and with what other goroutines do to
-- the queue while it sleeps. The background loop is the step `drain_due` at a time of its ticker,
-- until the queue is closed.
pub mod Contents
pub mod Order
pub mod Laws
use mini_bk.Prelude.{
  ℕ, ◌+◌, List, [], ◌∷◌, ◌++◌, Option, none, some, Bool, true, false, if◌then◌else◌, length, map,
  ltb, String, not, keep,
}
use mini_bk.Prelude.Int.{ℤ, pos, ltb_ℤ, ◌+ℤ◌}
use mini_bk.Model.Errors.{Failure, Result, ok}
use mini_bk.Model.Task.{Task, Time}
use mini_bk.Queue.Interface.{TaskQueue}
use mini_bk.Queue.Heap.{heap_push, heap_pop}

pub record DelayedItem : Type 0 where
  pub task : Task
  pub due : Time

pub record InMemQueue : Type 0 where
  pub items : List Task
  pub pq : List Task
  pub closed : Bool
  pub delayed : List DelayedItem

unfoldable pub new_in_mem_queue : InMemQueue
new_in_mem_queue = record { items = []; pq = []; closed = false; delayed = [] }

-- The loop over `q.delayed`, with the remaining items collected.
unfoldable pub drain_items :
    Time → List DelayedItem → List DelayedItem → List Task → List Task × List DelayedItem
drain_items now [] remaining items = (items, remaining)
drain_items now (d ∷ ds) remaining items =
    let early = drain_items now ds (remaining ++ d ∷ []) items in
    let due = drain_items now ds remaining (items ++ d.task ∷ []) in
    if ltb_ℤ now d.due then early else due

unfoldable pub drain_due : Time → InMemQueue → InMemQueue
unfolding drain_items
drain_due now q =
    let (items, remaining) = drain_items now q.delayed [] q.items in
    if q.closed then q else record q { items = items; delayed = remaining }

unfoldable pub pop_priority : Option (Task × List Task) → InMemQueue → Option Task × InMemQueue
pop_priority none q = (none, q)
pop_priority (some (t, rest)) q = (some t, record q { pq = rest })

unfoldable pub pop_item : List Task → InMemQueue → Option Task × InMemQueue
pop_item [] q = (none, q)
pop_item (t ∷ rest) q = (some t, record q { items = rest })

unfoldable pub pop_internal : InMemQueue → Option Task × InMemQueue
unfolding pop_priority pop_item
pop_internal q = if ltb 0 (length q.pq) then pop_priority (heap_pop q.pq) q else pop_item q.items q

unfoldable pub push : Task → InMemQueue → Option Failure × InMemQueue
push t q = (none, record q { items = q.items ++ t ∷ [] })

-- A round of Pop that found nothing: the time that it reads, and the queue after the sleep.
pub record Round : Type 0 where
  pub at : Time
  pub others : InMemQueue → InMemQueue

-- With no round left the schedule is over and nothing has been returned.
unfoldable pub pop_loop : Time → List Round → InMemQueue → Option Task × InMemQueue
pop_loop deadline [] q = pop_internal q
pop_loop deadline (r ∷ rs) q =
    let (t, q') = pop_internal q in
    let again = pop_loop deadline rs (r.others q') in
    elim t [
      | some found ↦ (some found, q')
      | none ↦ if ltb_ℤ deadline r.at then (none, q') else again
    ]

-- The last attempt of the loop above, which is the Pop of `in_mem` below: the attempts before it find
-- nothing and leave the queue as it is, and what others do between them comes before this one.
unfoldable pub pop : ℤ → Time → InMemQueue → Result (Option Task) × InMemQueue
unfolding pop_loop
pop timeout now q =
    let deadline = now +ℤ timeout in
    let rounds = record { at = deadline +ℤ pos 1; others = λ q. q } ∷ [] in
    let (t, q') = pop_loop deadline rounds q in (ok t, q')

unfoldable pub push_priority : Task → InMemQueue → Option Failure × InMemQueue
push_priority t q = (none, record q { pq = heap_push t q.pq })

unfoldable pub push_delayed : Time → ℤ → Task → InMemQueue → Option Failure × InMemQueue
push_delayed now delay t q =
    (none, record q { delayed = q.delayed ++ record { task = t; due = now +ℤ delay } ∷ [] })

unfoldable pub ack : String → InMemQueue → Option Failure × InMemQueue
ack uid q = (none, q)

unfoldable pub size : InMemQueue → Result ℕ
size q = ok (length q.items + length q.pq + length q.delayed)

unfoldable pub close : InMemQueue → Option Failure × InMemQueue
close q = if q.closed then (none, q) else (none, record q { closed = true })

abbrev pub in_mem : TaskQueue InMemQueue
in_mem = record {
  push = push;
  pop = pop;
  push_priority = push_priority;
  push_delayed = push_delayed;
  size = size;
}
