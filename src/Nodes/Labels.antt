-- ===== src/Nodes/Labels.antt =====
-- splitLabel and the selector test of FindByLabels in internal/nodemanager/manager.go.
use Prim.Native.String.{◌++◌ as ◌<>◌}
use Prim.Native.Char.{code}
use mini_bk.Prelude.{
  String, List, [], ◌∷◌, Option, none, some, Bool, true, false, ◌&&◌, ◌||◌, if◌then◌else◌, str_eq,
  ◌==◌,
}
use mini_bk.Model.Task.{EnvMap}
use mini_bk.Model.Node.{label_in}

abbrev pub after_first {ℓ} :
    {A : Type ℓ} → (String → A) → Option (String × String) → Option (A × String)
after_first f none = none
after_first f (some (k, v)) = some (f k, v)

-- `strings.SplitN(label, "=", 2)`; `none` is the case of one part.
unfoldable pub split_label : String → Option (String × String)
split_label String.[] = none
split_label (String.◌∷◌ c s) =
    let rest = after_first (λ k. String.◌∷◌ c k) (split_label s) in
    if code c == b'=' then some (String.[], s) else rest

unfoldable pub parts_are : String → String → Option (String × String) → Bool
parts_are k v none = false
parts_are k v (some (a, b)) = str_eq a k && str_eq b v

-- The inner loop over the labels.
unfoldable pub found : String → String → List String → Bool
unfolding split_label parts_are
found k v [] = false
found k v (l ∷ ls) = parts_are k v (split_label l) || str_eq l v || found k v ls

-- One entry of the selector.
unfoldable pub entry_matches : String → String → List String → Bool
unfolding found
entry_matches k v labels =
    label_in (k <> ("=" <> v)) labels || label_in v labels || label_in k labels || found k v labels

unfoldable pub selector_matches : EnvMap → List String → Bool
unfolding entry_matches
selector_matches [] labels = true
selector_matches ((k, v) ∷ rest) labels = entry_matches k v labels && selector_matches rest labels
