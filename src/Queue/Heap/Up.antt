-- ===== src/Queue/Heap/Up.antt =====
-- The heap order of internal/queue/inmem.go, and `heap.Push`, which restores it from the bottom.
use mathlib.Core.List.{Perm, perm_middle, append-nil}
use mathlib.Core.List.Perm
use mini_bk.Prelude.{
  ℕ, zero, suc, ◌+◌, ◌-◌, ◌<◌, ◌≡◌, ◌≢◌, refl, List, [], ◌∷◌, ◌++◌, arith, length, ◌==◌, ◌||◌, not,
  Bool-cases, inl, inr, true, false, length-append,
}
use mini_bk.Prelude.Int.{◌≤ℤ◌}
use mini_bk.Model.Task.{Task}
use mini_bk.Queue.Heap.{key, swap, less, parent, up_loop, up, heap_push}
use mini_bk.Queue.Heap.Slice.{length-swap, key-swap, swap-perm}

-- No task is above its parent, among the first `n`.
abbrev pub IsHeapTo : ℕ → List Task → Type 0
IsHeapTo n pq = (c : ℕ) → 0 < c → c < n → key pq c ≤ℤ key pq (parent c)

abbrev pub IsHeap : List Task → Type 0
IsHeap pq = IsHeapTo (length pq) pq

-- In order but for the edge from `j` to its parent, and with the children of `j` below that parent.
record UpInv (pq : List Task) (j : ℕ) : Type 0 where
  inside : j < length pq
  edges : (c : ℕ) → 0 < c → c < length pq → c ≢ j → key pq c ≤ℤ key pq (parent c)
  bridged : (c : ℕ) → 0 < c → c < length pq → parent c ≡ j → 0 < j → key pq c ≤ℤ key pq (parent j)

module _ (pq : List Task) (j : ℕ) (v : UpInv pq j) where
  -- The loop stops in order.
  stop-IsHeap : ((parent j == j) || not (less pq j (parent j))) ≡ true → IsHeap pq
  stop-IsHeap h c p q = elim (Bool-cases (c == j)) [
    | inl e ↦ ground arith
    | inr e ↦ v.edges c p q (ground arith)
  ]

  rise-UpInv :
      ((parent j == j) || not (less pq j (parent j))) ≡ false
      → UpInv (swap pq (parent j) j) (parent j)
  rise-UpInv h =
      let hi : parent j < length pq = omega (arith, v.inside) in
      let size = length-swap pq (parent j) j in
      let at = λ (c : ℕ). key-swap pq (parent j) j c hi v.inside in
      record {
        inside = omega (arith, size, v.inside);
        edges =
            λ c p q r. ground (arith, size, at c, at (parent c), v.edges c, v.bridged c, v.inside);
        bridged = λ c p q r s.
            ground
              (arith, size, at c, at (parent (parent j)), v.edges c, v.edges (parent j), v.inside);
      }

-- With enough rounds the loop restores the order, and it moves tasks only.
up_loop-IsHeap :
    (fuel : ℕ) (pq : List Task) (j : ℕ) → j < fuel → UpInv pq j → IsHeap (up_loop fuel pq j)
unfolding up_loop
up_loop-IsHeap zero pq j h v = absurd (omega arith)
up_loop-IsHeap (suc fuel) pq j h v =
    elim (Bool-cases ((parent j == j) || not (less pq j (parent j)))) [
      | inl e ↦ rw e (stop-IsHeap pq j v e)
      | inr e ↦ rw e (
          up_loop-IsHeap fuel (swap pq (parent j) j) (parent j) (ground arith)
            (rise-UpInv pq j v e))
    ]

up_loop-perm : (fuel : ℕ) (pq : List Task) (j : ℕ) → j < length pq → Perm (up_loop fuel pq j) pq
unfolding up_loop
up_loop-perm zero pq j h = Perm.rfl
up_loop-perm (suc fuel) pq j h = elim (Bool-cases ((parent j == j) || not (less pq j (parent j)))) [
  | inl e ↦ rw e Perm.rfl
  | inr e ↦ rw e (
      Perm.trans
        (up_loop-perm fuel (swap pq (parent j) j) (parent j)
          (omega (arith, length-swap pq (parent j) j)))
        (swap-perm pq (parent j) j (omega arith) h))
]

pub key-append :
    (pq : List Task) (t : Task) (c : ℕ) → c < length pq → key (pq ++ t ∷ []) c ≡ key pq c
unfolding key
key-append [] t c h = elim h [ ]
key-append (x ∷ pq) t zero h = refl
key-append (x ∷ pq) t (suc c) h = key-append pq t c (omega arith)

-- `heap.Push` adds exactly the task, and keeps the heap order.
pub heap_push-IsHeap :
    (t : Task) (pq : List Task)
    → IsHeap pq
    → IsHeap (heap_push t pq) × Perm (heap_push t pq) (t ∷ pq)
unfolding heap_push up
heap_push-IsHeap t pq v = (
  up_loop-IsHeap (suc last) grown last (omega arith) start,
  Perm.trans (up_loop-perm (suc last) grown last (omega (arith, size)))
      (rw (append-nil pq) at (perm_middle {a = t} pq [])),
)
  where
    grown : List Task
    grown = pq ++ t ∷ []

    last : ℕ
    last = length grown - 1

    size : length grown ≡ length pq + 1
    size = length-append pq (t ∷ [])

    start : UpInv grown last
    start = record {
      inside = omega (arith, size);
      edges = λ c p q r. ground (arith, size, v c, key-append pq t c, key-append pq t (parent c));
      bridged = λ c p q r s. absurd (omega (arith, size));
    }

pub heap_push-perm : (t : Task) (pq : List Task) → Perm (heap_push t pq) (t ∷ pq)
unfolding heap_push up
heap_push-perm t pq =
    let grown = pq ++ t ∷ [] in
    let last = length grown - 1 in
    Perm.trans (up_loop-perm (suc last) grown last (omega (arith, length-append pq (t ∷ []))))
      (rw (append-nil pq) at (perm_middle {a = t} pq []))
