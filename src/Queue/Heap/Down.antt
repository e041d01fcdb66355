-- ===== src/Queue/Heap/Down.antt =====
-- `heap.Pop` of the priority queue of internal/queue/inmem.go, which restores the order from the top.
use mathlib.Core.List.{Perm, perm_middle, append-nil}
use mathlib.Core.List.Perm
use mini_bk.Prelude.{
  ℕ, zero, suc, ◌+◌, ◌-◌, ◌*◌, ◌<◌, ◌≤◌, ◌≡◌, ◌≢◌, refl, sym, ap, ◌∙◌, List, [], ◌∷◌, ◌++◌, some,
  arith, length, ◌==◌, leb, ◌||◌, not, Bool-cases, inl, inr, true, false, length-append, All,
}
use mini_bk.Prelude.Int.{ℤ, ◌≤ℤ◌}
use mini_bk.Model.Task.{Task}
use mini_bk.Queue.Heap.{key, swap, less, parent, larger_child, down_loop, down, pop_last, heap_pop}
use mini_bk.Queue.Heap.Slice.{length-swap, key-swap, swap-perm}
use mini_bk.Queue.Heap.Up.{IsHeapTo, IsHeap, key-append}

-- In order but for the edges below `i`, and with the children of `i` below its parent.
record DownInv (n : ℕ) (pq : List Task) (i : ℕ) : Type 0 where
  fits : n ≤ length pq
  edges : (c : ℕ) → 0 < c → c < n → parent c ≢ i → key pq c ≤ℤ key pq (parent c)
  bridged : (c : ℕ) → 0 < c → c < n → parent c ≡ i → 0 < i → key pq c ≤ℤ key pq (parent i)

module _ (n : ℕ) (pq : List Task) (i : ℕ) (left : 2 * i + 1 < n) where
  larger_child-place :
      (parent (larger_child pq i n) ≡ i) × (larger_child pq i n < n) × (i < larger_child pq i n)
  unfolding larger_child
  larger_child-place = ground arith

  larger_child-max :
      (c : ℕ) → 0 < c → c < n → parent c ≡ i → key pq c ≤ℤ key pq (larger_child pq i n)
  unfolding larger_child
  larger_child-max c p q r = elim (Bool-cases (c == 2 * i + 1)) [
    | inl e ↦ let c1 : c ≡ 2 * i + 1 = ground arith in rw c1 (ground arith)
    | inr e ↦ let c2 : c ≡ 2 * i + 2 = ground arith in rw c2 (ground (arith, (rw c2 at q)))
  ]

module _ (n : ℕ) (pq : List Task) (i : ℕ) (v : DownInv n pq i) where
  stop-IsHeapTo :
      (leb n (2 * i + 1) || not (less pq (larger_child pq i n) i)) ≡ true → IsHeapTo n pq
  stop-IsHeapTo h c p q = elim (Bool-cases (parent c == i)) [
    | inr e ↦ v.edges c p q (ground arith)
    | inl e ↦
        let at : parent c ≡ i = ground arith in
        let left : 2 * i + 1 < n = omega arith in
        ground (arith, larger_child-max n pq i left c p q at)
  ]

  sink-DownInv :
      (leb n (2 * i + 1) || not (less pq (larger_child pq i n) i)) ≡ false
      → DownInv n (swap pq i (larger_child pq i n)) (larger_child pq i n)
  sink-DownInv h =
      let j = larger_child pq i n in
      let left : 2 * i + 1 < n = ground arith in
      let place = larger_child-place n pq i left in
      let hi : i < length pq = omega (arith, place, v.fits) in
      let hj : j < length pq = omega (arith, place, v.fits) in
      let at = λ (c : ℕ). key-swap pq i j c hi hj in
      record {
        fits = omega (arith, v.fits, length-swap pq i j);
        edges = λ c p q r. ground (
          arith,
          place,
          at c,
          at (parent c),
          v.edges c,
          v.bridged j,
          larger_child-max n pq i left c,
        );
        bridged = λ c p q r s. ground (arith, place, at c, at (parent j), v.edges c);
      }

-- With enough rounds the loop restores the order among the first `n`, and leaves the rest alone.
down_loop-IsHeapTo :
    (fuel : ℕ) (pq : List Task) (i n : ℕ)
    → n < fuel + i
    → DownInv n pq i
    → IsHeapTo n (down_loop fuel pq i n)
unfolding down_loop
down_loop-IsHeapTo zero pq i n h v = λ c p q. v.edges c p q (omega arith)
down_loop-IsHeapTo (suc fuel) pq i n h v =
    elim (Bool-cases (leb n (2 * i + 1) || not (less pq (larger_child pq i n) i))) [
      | inl e ↦ rw e (stop-IsHeapTo n pq i v e)
      | inr e ↦
          let left : 2 * i + 1 < n = ground arith in
          let j = larger_child pq i n in
          rw e (
            down_loop-IsHeapTo fuel (swap pq i j) j n
              (omega (arith, larger_child-place n pq i left)) (sink-DownInv n pq i v e))
    ]

-- What the loop keeps: the contents, and the priority at `n`.
pub record Kept (n : ℕ) (pq qs : List Task) : Type 0 where
  pub same : Perm qs pq
  pub size : length qs ≡ length pq
  pub last : key qs n ≡ key pq n

pub down_loop-Kept :
    (fuel : ℕ) (pq : List Task) (i n : ℕ) → n ≤ length pq → Kept n pq (down_loop fuel pq i n)
unfolding down_loop
down_loop-Kept zero pq i n h = record { same = Perm.rfl; size = refl; last = refl }
down_loop-Kept (suc fuel) pq i n h =
    elim (Bool-cases (leb n (2 * i + 1) || not (less pq (larger_child pq i n) i))) [
      | inl e ↦ rw e (record { same = Perm.rfl; size = refl; last = refl })
      | inr e ↦
          let left : 2 * i + 1 < n = ground arith in
          let j = larger_child pq i n in
          let place = larger_child-place n pq i left in
          let hi : i < length pq = omega (arith, place) in
          let hj : j < length pq = omega (arith, place) in
          let rest = down_loop-Kept fuel (swap pq i j) j n (omega (arith, length-swap pq i j)) in
          rw e (record {
            same = Perm.trans rest.same (swap-perm pq i j hi hj);
            size = rest.size ∙ length-swap pq i j;
            last = rest.last ∙ rw (key-swap pq i j n hi hj) (ground (arith, place));
          })
    ]

pub pop_last-some :
    (pq : List Task) (n : ℕ)
    → length pq ≡ suc n
    → (t : Task) × (init : List Task) × (pop_last pq ≡ some (t, init)) × (init ++ t ∷ [] ≡ pq)
unfolding pop_last
pop_last-some [] n h = absurd (omega arith)
pop_last-some (x ∷ []) n h = (x, [], refl, refl)
pop_last-some (x ∷ y ∷ pq) n h =
    let (t, init, e, whole) = pop_last-some (y ∷ pq) (n - 1) (omega arith) in
    (t, x ∷ init, rw (e, pop_last), ap (◌∷◌ x) whole)

key-last : (pq : List Task) (t : Task) → key (pq ++ t ∷ []) (length pq) ≡ t.priority
unfolding key
key-last [] t = refl
key-last (x ∷ pq) t = key-last pq t

root_max_below :
    (k : ℕ) (pq : List Task) (i : ℕ) → IsHeap pq → i < k → i < length pq → key pq i ≤ℤ key pq 0
root_max_below zero pq i h f p = absurd (omega arith)
root_max_below (suc k) pq i h f p = ground (arith, h i, root_max_below k pq (parent i) h)

All-key :
    (pq : List Task) (b : ℤ)
    → ((i : ℕ) → i < length pq → key pq i ≤ℤ b)
    → All (λ t. t.priority ≤ℤ b) pq
unfolding key
All-key [] b h = tt
All-key (t ∷ ts) b h = (h 0 (omega arith), All-key ts b (λ i p. h (suc i) (omega arith)))

-- What `heap.Pop` makes of a heap: a task of the highest priority, and a heap of the others.
pub record Popped (pq : List Task) (t : Task) (rest : List Task) : Type 0 where
  pub heap : IsHeap rest
  pub same : Perm (t ∷ rest) pq
  pub highest : All (λ u. u.priority ≤ℤ t.priority) pq

cut_Popped :
    (pq b : List Task) (n : ℕ) (t : Task) (rest : List Task)
    → IsHeap pq
    → IsHeapTo n b
    → length b ≡ suc n
    → Perm b pq
    → key b n ≡ key pq 0
    → rest ++ t ∷ [] ≡ b
    → Popped pq t rest
cut_Popped pq b n t rest v heap size same top whole =
    let short : length rest ≡ n =
      omega (arith, size, ap length whole, length-append rest (t ∷ [])) in
    let kept =
      λ (c : ℕ) (p : c < length rest). ap (λ x. key x c) (sym whole) ∙ key-append rest t c p in
    let prio : key pq 0 ≡ t.priority =
      sym top ∙ ap (λ x. key x n) (sym whole) ∙ rw (← short) (key-last rest t) in
    record {
      heap = λ c p q.
          ground (arith, heap c p (rw (← short) q), kept c q, kept (parent c) (omega arith));
      same =
          Perm.trans (Perm.symm (rw (append-nil rest) at (perm_middle {a = t} rest [])))
            (rw whole same);
      highest =
          All-key pq t.priority
            (λ i p. rw (← prio) (root_max_below (suc i) pq i v (omega arith) p));
    }

pub heap_pop-Popped :
    (pq : List Task)
    → IsHeap pq
    → 0 < length pq
    → (t : Task) × (rest : List Task) × (heap_pop pq ≡ some (t, rest)) × Popped pq t rest
unfolding heap_pop down
heap_pop-Popped pq v h =
    let n = length pq - 1 in
    let a = swap pq 0 n in
    let at = λ (c : ℕ). key-swap pq 0 n c h (omega arith) in
    let size = length-swap pq 0 n in
    let start : DownInv n a 0 = record {
      fits = omega (arith, size);
      edges = λ c p q r. ground (arith, at c, at (parent c), v c);
      bridged = λ c p q r s. absurd (omega arith);
    } in
    let b = down_loop (suc n) a 0 n in
    let heap = down_loop-IsHeapTo (suc n) a 0 n (omega arith) start in
    let kept = down_loop-Kept (suc n) a 0 n (omega (arith, size)) in
    let (t, rest, popped, whole) = pop_last-some b n (omega (arith, size, kept.size)) in
    (
      t,
      rest,
      popped,
      cut_Popped pq b n t rest v heap (omega (arith, size, kept.size))
          (Perm.trans kept.same (swap-perm pq 0 n h (omega arith)))
          (kept.last ∙ (at n ∙ ground arith)) whole,
    )
