-- ===== src/Scheduler/Bounds/InMem.antt =====
-- A tick of internal/scheduler/scheduler.go on the queue of internal/queue/inmem.go, whose delay loop
-- works between the Pops of the tick.
use mini_bk.Prelude.{
  ℕ, [], ◌∷◌, ◌++◌, All, ◌≤◌, ◌<◌, ◌+◌, List, Option, some, true, ◌≡◌, refl, ap, arith, inl, inr,
  Bool-cases, length, length-append, length-keep-le, keep, map,
}
use mini_bk.Prelude.Int.{ℤ, pos, ltb_ℤ, lt→ltb_ℤ, ◌+ℤ◌, ◌≤ℤ◌, ◌<ℤ◌}
use mini_bk.Model.Errors.{ok}
use mini_bk.Model.Task.{Task, Time}
use mini_bk.Queue.Heap.Content.{length-perm}
use mini_bk.Queue.InMem.{DelayedItem, InMemQueue, in_mem, pop_internal, push_delayed, drain_due}
use mini_bk.Queue.InMem.Contents.{
  Attempt, nothing, oldest, urgent, pop_internal-Attempt, is_due, is_early, tasks_of, drain_due_lem,
}
use mini_bk.Queue.InMem.Laws.{pop_lem}
use mini_bk.Scheduler.State.{Scheduler, Floats, ClaimStore}
use mini_bk.Scheduler.Tick.{PopRound, put_back, tick}
use mini_bk.Scheduler.Bounds.{Quiet, after_timeouts, tick-Ends}

-- The tasks that wait, or that the delay loop brings up to a time.
waiting_by : Time → InMemQueue → ℕ
waiting_by end q = length q.pq + length q.items + length (keep (is_due end) q.delayed)

-- All tasks in the queue.
unfoldable pub in_queue : InMemQueue → ℕ
in_queue q = length q.pq + length q.items + length q.delayed

keep-early :
    (now end : Time) (ds : List DelayedItem)
    → now ≤ℤ end
    → length (tasks_of (keep (is_due now) ds)) + length (keep (is_due end) (keep (is_early now) ds))
      ≤ length (keep (is_due end) ds)
unfolding keep
keep-early now end [] h = omega arith
keep-early now end (d ∷ ds) h = ground (arith, keep-early now end ds h, h)

keep-late :
    (end : Time) (ds : List DelayedItem) (d : DelayedItem)
    → ltb_ℤ end d.due ≡ true
    → keep (is_due end) (ds ++ d ∷ []) ≡ keep (is_due end) ds
unfolding keep
keep-late end [] d h = rw h refl
keep-late end (x ∷ ds) d h = elim (Bool-cases (ltb_ℤ end x.due)) [
  | inl e ↦ rw e (keep-late end ds d h)
  | inr e ↦ rw (e, keep-late end ds d h) refl
]

drain_due-closed : (now : Time) (q : InMemQueue) → q.closed ≡ true → drain_due now q ≡ q
unfolding drain_due
drain_due-closed now q h = rw h refl

drain_due-waiting :
    (now end : Time) (q : InMemQueue)
    → now ≤ℤ end
    → waiting_by end (drain_due now q) ≤ waiting_by end q
unfolding waiting_by
drain_due-waiting now end q h = elim (Bool-cases q.closed) [
  | inl e ↦ rw (drain_due-closed now q e) (omega arith)
  | inr e ↦
      let due = tasks_of (keep (is_due now) q.delayed) in
      rw (drain_due_lem now q e).0
        (omega (arith, keep-early now end q.delayed h, length-append q.items due))
]

push_delayed-waiting :
    (now end : Time) (t : Task) (q : InMemQueue)
    → end <ℤ now +ℤ pos 1_000_000_000
    → waiting_by end (push_delayed now (pos 1_000_000_000) t q).1 ≤ waiting_by end q
unfolding waiting_by push_delayed
push_delayed-waiting now end t q h =
    let d : DelayedItem = record { task = t; due = now +ℤ pos 1_000_000_000 } in
    rw (keep-late end q.delayed d (lt→ltb_ℤ end (now +ℤ pos 1_000_000_000) h)) (omega arith)

takes_by :
    (end : Time) (q : InMemQueue) (r : Option Task × InMemQueue) (t : Task)
    → Attempt q r
    → r.0 ≡ some t
    → waiting_by end r.1 < waiting_by end q
unfolding waiting_by
takes_by end q _ t (nothing p e) h = absurd (ground arith)
takes_by end q _ t (oldest u rest p e) h = omega (arith, ap length e)
takes_by end q _ t (urgent u rest full popped same) h = omega (arith, length-perm same)

pop-takes :
    (end : Time) (timeout : ℤ) (now : Time) (q : InMemQueue) (t : Task)
    → (in_mem.pop timeout now q).0 ≡ ok (some t)
    → waiting_by end (in_mem.pop timeout now q).1 < waiting_by end q
pop-takes end timeout now q t h = rw (pop_lem timeout now q) (
    takes_by end q (pop_internal q) t (pop_internal-Attempt q)
      (ground (arith, pop_lem timeout now q)))

waiting_by-all : (end : Time) (q : InMemQueue) → waiting_by end q ≤ in_queue q
unfolding waiting_by in_queue
waiting_by-all end q = omega (arith, length-keep-le (is_due end) q.delayed)

-- The rounds of the delay loop at some times, one after the other.
unfoldable pub drains : List Time → InMemQueue → InMemQueue
drains [] q = q
drains (d ∷ ds) q = drains ds (drain_due d q)

-- The round of a Pop at a time, before which the delay loop has worked at some times.
unfoldable pub delay_round : List Time × Time → PopRound InMemQueue
delay_round (ds, now) = record { others = drains ds; at = now }

-- The delay loop has worked up to a time at most that is less than a second after the Pop.
unfoldable pub IsQuick : Time → List Time × Time → Type 0
IsQuick end (ds, now) = All (λ d. d ≤ℤ end) ds × (end <ℤ now +ℤ pos 1_000_000_000)

drains-waiting :
    (end : Time) (ds : List Time) (q : InMemQueue)
    → All (λ d. d ≤ℤ end) ds
    → waiting_by end (drains ds q) ≤ waiting_by end q
unfolding drains
drains-waiting end [] q h = omega arith
drains-waiting end (d ∷ ds) q (h, hs) =
    omega (arith, drains-waiting end ds (drain_due d q) hs, drain_due-waiting d end q h)

length-rounds : (rs : List (List Time × Time)) → length (map delay_round rs) ≡ length rs
length-rounds [] = refl
length-rounds (r ∷ rs) = omega (arith, length-rounds rs)

module _ {F E : Type 0} (fl : Floats F) (c : ClaimStore E) where
  quick-Quiet :
      (end : Time) (r : List Time × Time)
      → IsQuick end r
      → Quiet {F = F} {Q = InMemQueue} {E = E} in_mem
          (waiting_by end)
          (pop-takes end)
          fl
          c
          (delay_round r)
  unfolding Quiet delay_round IsQuick put_back
  quick-Quiet end (ds, now) (hs, h) =
      (λ q. drains-waiting end ds q hs, λ s t. push_delayed-waiting now end t s.queue h)

  All-Quiet :
      (end : Time) (rs : List (List Time × Time))
      → All (IsQuick end) rs
      → All
          (Quiet {F = F} {Q = InMemQueue} {E = E} in_mem (waiting_by end) (pop-takes end) fl c)
          (map delay_round rs)
  All-Quiet end [] h = tt
  All-Quiet end (r ∷ rs) (h, hs) = (quick-Quiet end r h, All-Quiet end rs hs)

  -- A tick with the queue of one process, on which the delay loop alone works between its Pops: if
  -- the last round of the delay loop is less than a second after each Pop, and there are more Pops
  -- than tasks are in the queue after the overdue tasks were failed, the tick ends.
  pub tick_ends :
      (now end : Time) (rs : List (List Time × Time)) (s : Scheduler F InMemQueue E)
      → All (IsQuick end) rs
      → in_queue (after_timeouts in_mem now s).queue < length rs
      → (s' : Scheduler F InMemQueue E) × (tick in_mem fl c (map delay_round rs) now s ≡ some s')
  tick_ends now end rs s quick few =
      tick-Ends in_mem (waiting_by end) (pop-takes end) fl c now (map delay_round rs) s
        (All-Quiet end rs quick)
        (omega
          (arith, few, length-rounds rs, waiting_by-all end (after_timeouts in_mem now s).queue))
