-- ===== src/Nodes/Matching.antt =====
-- FindByLabels of internal/nodemanager/manager.go: the second pass over a node's labels.
use Prim.Native.String.{◌++◌ as ◌<>◌}
use Prim.Native.Char.{Char, code}
use text.Mathlib.TextEquality.{codes_equal}
use text.Mathlib.TextLemmas.{nil-append, cons-append}
use mini_bk.Prelude.{
  String, List, [], ◌∷◌, Option, none, some, true, ◌≡◌, refl, sym, ap, ◌∙◌, arith, inl, inr,
  Bool-cases, Option-cases, ◌&&◌, ◌||◌, str_eq, eq_iff, ◌==◌,
}
use mini_bk.Model.Node.{label_in}
use mini_bk.Nodes.Labels.{split_label, parts_are, found, entry_matches}

is_equals : (c : Char) → (code c == b'=') ≡ true → c ≡ "="
is_equals c h = codes_equal c "=" (ground arith)

pair_of :
    {a b k v : String} (o : Option (String × String))
    → o ≡ some (a, b)
    → o ≡ some (k, v)
    → (a ≡ k) × (b ≡ v)
pair_of o p q = ground (arith, p, q)

none_is_not : {k v : String} (o : Option (String × String)) → o ≡ none → o ≡ some (k, v) → ⊥
none_is_not o p q = ground (arith, p, q)

split_label-some : (s k v : String) → split_label s ≡ some (k, v) → s ≡ k <> ("=" <> v)
unfolding split_label
split_label-some String.[] k v h = absurd (ground arith)
split_label-some (String.◌∷◌ c s) k v h = elim (Bool-cases (code c == b'=')) [
  | inl e ↦
      let (ek, ev) =
        pair_of {a = String.[]} {b = s} (split_label (String.◌∷◌ c s)) (rw (e, split_label) refl)
          h in
      rw (← ek, ← ev, is_equals c e, nil-append)
        (sym (cons-append "=" String.[] s ∙ ap (λ u. String.◌∷◌ "=" u) (nil-append s)))
  | inr e ↦ elim (Option-cases (split_label s)) [
    | inl gone ↦
        absurd (none_is_not (split_label (String.◌∷◌ c s)) (rw (e, split_label) (rw gone refl)) h)
    | inr ((a, b), there) ↦
        let (ek, ev) =
          pair_of {a = String.◌∷◌ c a} {b = b} (split_label (String.◌∷◌ c s))
            (rw (e, split_label) (rw there refl)) h in
        rw (← ek, ← ev)
          (ap (λ u. String.◌∷◌ c u) (split_label-some s a b there)
            ∙ sym (cons-append c a ("=" <> b)))
  ]
]

-- What one label adds to the search: the label is `k=v`, or it is `v`.
parts_are_lem :
    (k v l : String) → parts_are k v (split_label l) ≡ true → str_eq l (k <> ("=" <> v)) ≡ true
unfolding parts_are
parts_are_lem k v l h = by_parts (split_label l) refl
  where
    by_parts :
        (o : Option (String × String)) → split_label l ≡ o → str_eq l (k <> ("=" <> v)) ≡ true
    by_parts none e = absurd (ground (arith, rw e at h))
    by_parts (some (a, b)) e =
        let h' : (str_eq a k && str_eq b v) ≡ true = rw e at h in
        let ea : a ≡ k = ground (arith, h', eq_iff a k) in
        let eb : b ≡ v = ground (arith, h', eq_iff b v) in
        (eq_iff l (k <> ("=" <> v))).1 (rw (← ea, ← eb) (split_label-some l a b e))

found_lem :
    (k v : String) (ls : List String)
    → found k v ls ≡ true
    → (label_in (k <> ("=" <> v)) ls || label_in v ls) ≡ true
unfolding found label_in
found_lem k v [] h = absurd (ground arith)
found_lem k v (l ∷ ls) h = ground (arith, found_lem k v ls, parts_are_lem k v l)

-- A label that the second pass of FindByLabels accepts was accepted by the first: an entry of the
-- selector matches exactly if the node has the label `key=value`, the label `value` or the label
-- `key`, so that any label equal to the key or to the value alone is enough.
pub entry_matches_lem :
    (k v : String) (ls : List String)
    → entry_matches k v ls ≡ (label_in (k <> ("=" <> v)) ls || label_in v ls || label_in k ls)
unfolding entry_matches
entry_matches_lem k v ls = ground (arith, found_lem k v ls)
