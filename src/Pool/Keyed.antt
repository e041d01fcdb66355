-- ===== src/Pool/Keyed.antt =====
-- Association lists without a key that stands twice, for the maps of internal/grpcclient/pool.go.
use mini_bk.Prelude.{
  ℕ, ◌+◌, ◌==◌, ◌++◌, Bool, true, false, ◌≡◌, refl, ◌∙◌, subst, arith, String, List, [], ◌∷◌, none,
  some, str_eq, eq_iff, Bool-cases, inl, inr,
}
use mini_bk.Prelude.Maps.{lookup, insert, remove, lookup-insert, lookup-remove}

-- No key is twice in the list.
abbrev pub IsMap : List (String × ℕ) → Type 0
IsMap [] = Unit
IsMap ((k, v) ∷ m) = (lookup k m ≡ none) × IsMap m

-- How often a number is in a list, and how often it is a value of a map.
abbrev pub once_if : Bool → ℕ
once_if true = 1
once_if false = 0

unfoldable pub times_in : ℕ → List ℕ → ℕ
times_in n [] = 0
times_in n (m ∷ ms) = once_if (m == n) + times_in n ms

unfoldable pub times : ℕ → List (String × ℕ) → ℕ
times n [] = 0
times n ((k, v) ∷ m) = once_if (v == n) + times n m

pub times-append :
    (n : ℕ) (xs ys : List (String × ℕ)) → times n (xs ++ ys) ≡ times n xs + times n ys
unfolding times
times-append n [] ys = omega arith
times-append n ((k, v) ∷ xs) ys = omega (arith, times-append n xs ys)

pub times-insert_new :
    (n : ℕ) (k : String) (v : ℕ) (m : List (String × ℕ))
    → lookup k m ≡ none
    → times n (insert k v m) ≡ once_if (v == n) + times n m
unfolding lookup insert times
times-insert_new n k v [] h = refl
times-insert_new n k v ((j, w) ∷ m) h = elim (Bool-cases (str_eq j k)) [
  | inl e ↦ absurd (ground (arith, rw e at h))
  | inr e ↦ rw e (omega (arith, times-insert_new n k v m (rw e at h)))
]

pub insert-IsMap : (k : String) (v : ℕ) (m : List (String × ℕ)) → IsMap m → IsMap (insert k v m)
unfolding insert lookup
insert-IsMap k v [] h = (refl, tt)
insert-IsMap k v ((j, w) ∷ m) h = elim (Bool-cases (str_eq j k)) [
  | inl e ↦ rw e (rw (← (eq_iff j k).0 e) h.0, h.1)
  | inr e ↦
      rw e (
        lookup-insert k j v m ∙ ground (arith, eq_iff k j, eq_iff j k, h.0),
        insert-IsMap k v m h.1,
      )
]

pub remove-same : (k : String) (m : List (String × ℕ)) → lookup k m ≡ none → remove k m ≡ m
unfolding lookup remove
remove-same k [] h = refl
remove-same k ((j, w) ∷ m) h = ground (arith, remove-same k m)

pub times-remove_there :
    (n : ℕ) (k : String) (v : ℕ) (m : List (String × ℕ))
    → IsMap m
    → lookup k m ≡ some v
    → times n m ≡ once_if (v == n) + times n (remove k m)
unfolding lookup remove times
times-remove_there n k v [] d h = absurd (ground arith)
times-remove_there n k v ((j, w) ∷ m) d h = elim (Bool-cases (str_eq j k)) [
  | inl e ↦
      let same : w ≡ v = ground (arith, rw e at h) in
      rw e (rw (same, remove-same k m (subst (λ i. lookup i m ≡ none) ((eq_iff j k).0 e) d.0)) refl)
  | inr e ↦ rw e (omega (arith, times-remove_there n k v m d.1 (rw e at h)))
]

pub remove-IsMap : (k : String) (m : List (String × ℕ)) → IsMap m → IsMap (remove k m)
unfolding remove
remove-IsMap k [] h = tt
remove-IsMap k ((j, w) ∷ m) h = elim (Bool-cases (str_eq j k)) [
  | inl e ↦ rw e (remove-IsMap k m h.1)
  | inr e ↦
      rw e (lookup-remove k j m ∙ ground (arith, eq_iff k j, eq_iff j k, h.0), remove-IsMap k m h.1)
]
