-- ===== src/Queue/Heap.antt =====
-- The priority queue of internal/queue/inmem.go: `priorityQueue`, driven by `heap.Push` and
-- `heap.Pop` of Go's container/heap. The slice is a list; every index that container/heap uses lies in
-- the slice, so what happens outside (a panic) is left out. Fuel counts the rounds of a loop.
pub mod Slice
pub mod Up
pub mod Down
pub mod Content
use Prim.Native.Nat.{pred}
use mini_bk.Prelude.{
  ℕ, zero, suc, ◌+◌, ◌-◌, ◌*◌, ◌/◌, List, [], ◌∷◌, ◌++◌, Option, none, some, Bool, not, ◌&&◌, ◌||◌,
  if◌then◌else◌, length, get_elem?, set, ltb, leb, ◌==◌,
}
use mini_bk.Prelude.Int.{ℤ, pos, ltb_ℤ}
use mini_bk.Model.Task.{Task}

-- The priority at an index.
unfoldable pub key : List Task → ℕ → ℤ
key [] i = pos 0
key (t ∷ ts) zero = t.priority
key (t ∷ ts) (suc i) = key ts i

-- `Less`: the higher priority comes first.
abbrev pub less : List Task → ℕ → ℕ → Bool
less pq i j = ltb_ℤ (key pq j) (key pq i)

unfoldable pub swap : List Task → ℕ → ℕ → List Task
swap pq i j = elim (get_elem? pq i) [
  | none ↦ pq
  | some a ↦ elim (get_elem? pq j) [ none ↦ pq | some b ↦ set (set pq i b) j a ]
]

abbrev pub parent : ℕ → ℕ
parent j = (j - 1) / 2

up_loop : ℕ → List Task → ℕ → List Task
up_loop zero pq j = pq
up_loop (suc fuel) pq j =
    let rise = up_loop fuel (swap pq (parent j) j) (parent j) in
    if parent j == j || not (less pq j (parent j)) then pq else rise

unfoldable pub up : List Task → ℕ → List Task
unfolding up_loop
up pq j = up_loop (suc j) pq j

larger_child : List Task → ℕ → ℕ → ℕ
larger_child pq i n =
    if ltb (2 * i + 2) n && less pq (2 * i + 2) (2 * i + 1) then 2 * i + 2 else 2 * i + 1

unfoldable pub down_loop : ℕ → List Task → ℕ → ℕ → List Task
unfolding larger_child
down_loop zero pq i n = pq
down_loop (suc fuel) pq i n =
    let j = larger_child pq i n in
    let sink = down_loop fuel (swap pq i j) j n in
    if leb n (2 * i + 1) || not (less pq j i) then pq else sink

unfoldable pub down : List Task → ℕ → ℕ → List Task
unfolding down_loop
down pq i n = down_loop (suc n) pq i n

unfoldable pub heap_push : Task → List Task → List Task
unfolding up
heap_push t pq = up (pq ++ t ∷ []) (length (pq ++ t ∷ []) - 1)

-- `Pop` of the slice: the last task, and the slice without it.
unfoldable pub pop_last : List Task → Option (Task × List Task)
pop_last [] = none
pop_last (t ∷ ts) = elim (pop_last ts) [
  | none ↦ some (t, [])
  | some (last, init) ↦ some (last, t ∷ init)
]

-- `none` for an empty heap, on which the code does not call it.
unfoldable pub heap_pop : List Task → Option (Task × List Task)
unfolding down pop_last
heap_pop pq = let n = length pq - 1 in pop_last (down (swap pq 0 n) 0 n)
