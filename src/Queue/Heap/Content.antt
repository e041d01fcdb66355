-- ===== src/Queue/Heap/Content.antt =====
-- What `heap.Pop` of internal/queue/inmem.go keeps of any slice, in order or not.
use mathlib.Core.Logic.{∥∥₁_elim}
use mathlib.Core.HLevel.{×_prop, Unit-prop}
use mathlib.Core.List.{Perm, Permᴰ, perm_middle, append-nil}
use mathlib.Core.List.Perm
use mini_bk.Prelude.{
  suc, ◌-◌, ◌<◌, ◌≡◌, refl, ap, ◌∙◌, List, [], ◌∷◌, some, arith, length, All, subst,
}
use native.Mathlib.Nat.{ℕ_set}
use mini_bk.Model.Task.{Task}
use mini_bk.Queue.Heap.{swap, down, down_loop, heap_pop}
use mini_bk.Queue.Heap.Slice.{length-swap, swap-perm}
use mini_bk.Queue.Heap.Down.{down_loop-Kept, pop_last-some}

Permᴰ-length {ℓ} : {A : Type ℓ} {xs ys : List A} → Permᴰ xs ys → length xs ≡ length ys
Permᴰ-length (Permᴰ.trans first second) = Permᴰ-length first ∙ Permᴰ-length second
Permᴰ-length (Permᴰ.swap _ _) = refl
Permᴰ-length (Permᴰ.cons _ tail) = ap suc (Permᴰ-length tail)
Permᴰ-length Permᴰ.nil = refl

pub length-perm {ℓ} : {A : Type ℓ} {xs ys : List A} → Perm xs ys → length xs ≡ length ys
length-perm p = ∥∥₁_elim p (ℕ_set _ _) Permᴰ-length

module _ {A : Type 0} (P : A → Type 0) (prop : (a : A) → IsProp (P a)) where
  All-prop : (xs : List A) → IsProp (All P xs)
  All-prop [] = Unit-prop
  All-prop (x ∷ xs) = ×_prop (prop x) (All-prop xs)

  All-permᴰ : {xs ys : List A} → Permᴰ xs ys → All P xs → All P ys
  All-permᴰ Permᴰ.nil h = h
  All-permᴰ (Permᴰ.cons e p) h = (subst P e h.0, All-permᴰ p h.1)
  All-permᴰ (Permᴰ.swap e f) h = (subst P f h.1.0, (subst P e h.0, h.1.1))
  All-permᴰ (Permᴰ.trans p q) h = All-permᴰ q (All-permᴰ p h)

  pub All-perm : {xs ys : List A} → Perm xs ys → All P xs → All P ys
  All-perm {xs} {ys} p h = ∥∥₁_elim p (All-prop ys) (λ d. All-permᴰ d h)

-- Of a slice that is not empty `heap.Pop` takes out one task and keeps the others.
pub heap_pop-perm :
    (pq : List Task)
    → 0 < length pq
    → (t : Task) × (rest : List Task) × (heap_pop pq ≡ some (t, rest)) × Perm (t ∷ rest) pq
unfolding heap_pop down
heap_pop-perm pq h =
    let n = length pq - 1 in
    let a = swap pq 0 n in
    let size = length-swap pq 0 n in
    let kept = down_loop-Kept (suc n) a 0 n (omega (arith, size)) in
    let b = down_loop (suc n) a 0 n in
    let (t, rest, popped, whole) = pop_last-some b n (omega (arith, size, kept.size)) in
    (
      t,
      rest,
      popped,
      Perm.trans (Perm.symm (rw (append-nil rest) at (perm_middle {a = t} rest [])))
          (rw whole (Perm.trans kept.same (swap-perm pq 0 n h (omega arith)))),
    )
