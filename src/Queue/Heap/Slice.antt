-- ===== src/Queue/Heap/Slice.antt =====
-- The slice operations of internal/queue/inmem.go: what `Swap` does to the priorities and to the
-- contents.
use mathlib.Core.List.{Perm}
use mathlib.Core.List.Perm
use mini_bk.Prelude.{
  ℕ, zero, suc, ◌<◌, ◌≡◌, refl, ap, ◌∙◌, List, [], ◌∷◌, Option, none, some, arith, if◌then◌else◌,
  length, get_elem?, set, ◌==◌,
}
use mini_bk.Model.Task.{Task}
use mini_bk.Queue.Heap.{key, swap}

length-set {ℓ} : {A : Type ℓ} (xs : List A) (i : ℕ) (v : A) → length (set xs i v) ≡ length xs
length-set [] i v = refl
length-set (x ∷ xs) zero v = refl
length-set (x ∷ xs) (suc i) v = ap suc (length-set xs i v)

pub get_elem?-some {ℓ} :
    {A : Type ℓ} (xs : List A) (i : ℕ) → i < length xs → (a : A) × (get_elem? xs i ≡ some a)
get_elem?-some [] i h = elim h [ ]
get_elem?-some (x ∷ xs) zero h = (x, refl)
get_elem?-some (x ∷ xs) (suc i) h = get_elem?-some xs i (omega arith)

get_elem?-lt {ℓ} :
    {A : Type ℓ} (xs : List A) (i : ℕ) (a : A) → get_elem? xs i ≡ some a → i < length xs
get_elem?-lt [] i a h = ground arith
get_elem?-lt (x ∷ xs) zero a h = omega arith
get_elem?-lt (x ∷ xs) (suc i) a h = omega (arith, get_elem?-lt xs i a h)

pub length-swap : (pq : List Task) (i j : ℕ) → length (swap pq i j) ≡ length pq
unfolding swap
length-swap pq i j = by_first (get_elem? pq i) (get_elem? pq j)
  where
    by_first :
        (x y : Option Task)
        → length
            (elim x [ none ↦ pq | some a ↦ elim y [ none ↦ pq | some b ↦ set (set pq i b) j a ] ])
          ≡ length pq
    by_first none y = refl
    by_first (some a) none = refl
    by_first (some a) (some b) = length-set (set pq i b) j a ∙ length-set pq i b

key-get : (pq : List Task) (i : ℕ) (a : Task) → get_elem? pq i ≡ some a → key pq i ≡ a.priority
unfolding key
key-get [] i a h = ground arith
key-get (t ∷ ts) zero a h = ground arith
key-get (t ∷ ts) (suc i) a h = key-get ts i a h

key-set :
    (pq : List Task) (i c : ℕ) (v : Task)
    → i < length pq
    → key (set pq i v) c ≡ (if i == c then v.priority else key pq c)
unfolding key
key-set [] i c v h = elim h [ ]
key-set (t ∷ ts) zero zero v h = refl
key-set (t ∷ ts) zero (suc c) v h = ground arith
key-set (t ∷ ts) (suc i) zero v h = ground arith
key-set (t ∷ ts) (suc i) (suc c) v h = ground (arith, key-set ts i c v)

swap_lem :
    (pq : List Task) (i j : ℕ) (a b : Task)
    → get_elem? pq i ≡ some a
    → get_elem? pq j ≡ some b
    → swap pq i j ≡ set (set pq i b) j a
unfolding swap
swap_lem pq i j a b ea eb = rw (ea, swap) (rw (eb, swap))

pub key-swap :
    (pq : List Task) (i j c : ℕ)
    → i < length pq
    → j < length pq
    → key (swap pq i j) c ≡ (if j == c then key pq i else if i == c then key pq j else key pq c)
key-swap pq i j c hi hj =
    let (a, ea) = get_elem?-some pq i hi in
    let (b, eb) = get_elem?-some pq j hj in
    rw (swap_lem pq i j a b ea eb) (
      rw (key-set (set pq i b) j c a (rw length-set hj), key-set pq i c b hi)
        (rw (key-get pq i a ea, key-get pq j b eb) refl))

-- A write trades the old entry for the new one.
set-perm :
    (pq : List Task) (i : ℕ) (a v : Task) → get_elem? pq i ≡ some a → Perm (a ∷ set pq i v) (v ∷ pq)
set-perm [] i a v h = absurd (ground arith)
set-perm (t ∷ ts) zero a v h = let e : t ≡ a = ground arith in rw e (Perm.swap v a ts)
set-perm (t ∷ ts) (suc i) a v h =
    Perm.trans (Perm.swap t a (set ts i v))
      (Perm.trans (Perm.cons t (set-perm ts i a v h)) (Perm.swap v t ts))

-- Writing the value of another index leaves that index as it is.
get_elem?-set_value :
    (pq : List Task) (i j : ℕ) (b : Task)
    → get_elem? pq j ≡ some b
    → get_elem? (set pq i b) j ≡ some b
get_elem?-set_value [] i j b h = h
get_elem?-set_value (t ∷ ts) zero zero b h = refl
get_elem?-set_value (t ∷ ts) zero (suc j) b h = h
get_elem?-set_value (t ∷ ts) (suc i) zero b h = h
get_elem?-set_value (t ∷ ts) (suc i) (suc j) b h = get_elem?-set_value ts i j b h

-- An exchange keeps the contents.
pub swap-perm : (pq : List Task) (i j : ℕ) → i < length pq → j < length pq → Perm (swap pq i j) pq
swap-perm pq i j hi hj =
    let (a, ea) = get_elem?-some pq i hi in
    let (b, eb) = get_elem?-some pq j hj in
    let second = set-perm (set pq i b) j b a (get_elem?-set_value pq i j b eb) in
    rw (swap_lem pq i j a b ea eb) (Perm.cons_inv (Perm.trans second (set-perm pq i a b ea)))
