-- ===== src/Agent/Joined.antt =====
-- The flag `labels` of cmd/agent/main.go read back as the labels that it joins.
use Prim.Native.Char.{Char, code}
use Prim.Native.String.{◌++◌ as ◌<>◌}
use text.Mathlib.TextLemmas.{nil-append, cons-append}
use mini_bk.Prelude.{
  ℕ, map, String, List, [], ◌∷◌, Bool, true, false, ◌≡◌, refl, ap, ◌∙◌, arith, ◌==◌, str_eq, All,
  eq_iff, Bool-cases, inl, inr,
}
use mini_bk.Agent.Words.{
  is_space, trim_left, trim_right, trim_space, split_commas, trimmed_words, label_list,
}

-- No character of the text is a comma.
unfoldable pub HasNoComma : String → Type 0
HasNoComma String.[] = Unit
HasNoComma (String.◌∷◌ c s) = ((code c == b',') ≡ false) × HasNoComma s

-- Nothing but spaces.
unfoldable pub IsPadding : String → Type 0
IsPadding String.[] = Unit
IsPadding (String.◌∷◌ c s) = (is_space (code c) ≡ true) × IsPadding s

-- The first character, and the last one, is there and is no space.
unfoldable pub StartsPlain : String → Type 0
StartsPlain String.[] = ⊥
StartsPlain (String.◌∷◌ c s) = is_space (code c) ≡ false

unfoldable pub EndsPlain : String → Type 0
EndsPlain String.[] = ⊥
EndsPlain (String.◌∷◌ c String.[]) = is_space (code c) ≡ false
EndsPlain (String.◌∷◌ c (String.◌∷◌ d s)) = EndsPlain (String.◌∷◌ d s)

-- What stands between two commas: spaces only, or a label with spaces around it.
pub data Field : Type 0 where
  blank : String → Field
  labelled : String → String → String → Field

unfoldable pub text_of : Field → String
text_of (blank p) = p
text_of (labelled p w q) = p <> (w <> q)

pub labels_of : List Field → List String
labels_of [] = []
labels_of (blank p ∷ fs) = labels_of fs
labels_of (labelled p w q ∷ fs) = w ∷ labels_of fs

unfoldable pub IsField : Field → Type 0
IsField (blank p) = IsPadding p
IsField (labelled p w q) = IsPadding p × HasNoComma w × StartsPlain w × EndsPlain w × IsPadding q

pub join : List String → String
join [] = ""
join (w ∷ []) = w
join (w ∷ v ∷ ws) = w <> ("," <> join (v ∷ ws))

split_commas-word : (w : String) → HasNoComma w → split_commas w ≡ w ∷ []
unfolding split_commas HasNoComma
split_commas-word String.[] h = refl
split_commas-word (String.◌∷◌ c w) (other, h) = rw (other, split_commas-word w h) refl

split_commas-comma : (s : String) → split_commas ("," <> s) ≡ "" ∷ split_commas s
unfolding split_commas
split_commas-comma s = rw (cons-append "," "" s, nil-append s) refl

split_commas-append :
    (w s : String) → HasNoComma w → split_commas (w <> ("," <> s)) ≡ w ∷ split_commas s
unfolding split_commas HasNoComma
split_commas-append String.[] s h = ap split_commas (nil-append ("," <> s)) ∙ split_commas-comma s
split_commas-append (String.◌∷◌ c w) s (other, h) =
    rw (cons-append c w ("," <> s), other, split_commas-append w s h) refl

space-comma : (n : ℕ) → is_space n ≡ true → (n == b',') ≡ false
unfolding is_space
space-comma n h = ground arith

IsPadding-comma : (p : String) → IsPadding p → HasNoComma p
unfolding IsPadding HasNoComma
IsPadding-comma String.[] h = tt
IsPadding-comma (String.◌∷◌ c p) (space, h) = (space-comma (code c) space, IsPadding-comma p h)

HasNoComma-append : (s t : String) → HasNoComma s → HasNoComma t → HasNoComma (s <> t)
unfolding HasNoComma
HasNoComma-append String.[] t h k = rw (nil-append t) k
HasNoComma-append (String.◌∷◌ c s) t (other, h) k =
    rw (cons-append c s t) (other, HasNoComma-append s t h k)

text_of-comma : (f : Field) → IsField f → HasNoComma (text_of f)
unfolding text_of IsField
text_of-comma (blank p) h = IsPadding-comma p h
text_of-comma (labelled p w q) (before, comma, starts, ends, after) =
    HasNoComma-append p (w <> q) (IsPadding-comma p before)
      (HasNoComma-append w q comma (IsPadding-comma q after))

trim_left-padding : (p s : String) → IsPadding p → trim_left (p <> s) ≡ trim_left s
unfolding trim_left IsPadding
trim_left-padding String.[] s h = ap trim_left (nil-append s)
trim_left-padding (String.◌∷◌ c p) s (space, h) =
    rw (cons-append c p s, space) (trim_left-padding p s h)

trim_left-plain : (w q : String) → StartsPlain w → trim_left (w <> q) ≡ w <> q
unfolding trim_left StartsPlain
trim_left-plain String.[] q h = absurd h
trim_left-plain (String.◌∷◌ c w) q h = rw (cons-append c w q, h) refl

trim_left-blank : (p : String) → IsPadding p → trim_left p ≡ ""
unfolding trim_left IsPadding
trim_left-blank String.[] h = refl
trim_left-blank (String.◌∷◌ c p) (space, h) = rw space (trim_left-blank p h)

trim_right-padding : (q : String) → IsPadding q → trim_right q ≡ ""
unfolding trim_right IsPadding
trim_right-padding String.[] h = refl
trim_right-padding (String.◌∷◌ c q) (space, h) = rw (space, trim_right-padding q h) refl

has_char : String → Bool
has_char String.[] = false
has_char (String.◌∷◌ c s) = true

cons-full : (c : Char) (s : String) → str_eq (String.◌∷◌ c s) "" ≡ false
unfolding has_char
cons-full c s = elim (Bool-cases (str_eq (String.◌∷◌ c s) "")) [
  | inl e ↦ absurd (ground (arith, ap has_char ((eq_iff (String.◌∷◌ c s) "").0 e)))
  | inr e ↦ e
]

trim_right-label : (w q : String) → EndsPlain w → IsPadding q → trim_right (w <> q) ≡ w
unfolding trim_right EndsPlain
trim_right-label String.[] q h k = absurd h
trim_right-label (String.◌∷◌ c String.[]) q h k =
    rw (cons-append c "" q, nil-append q, trim_right-padding q k, h) refl
trim_right-label (String.◌∷◌ c (String.◌∷◌ d w)) q h k =
    rw (cons-append c (String.◌∷◌ d w) q, trim_right-label (String.◌∷◌ d w) q h k, cons-full d w)
      refl

trim_space-labelled : (p w q : String) → IsField (labelled p w q) → trim_space (p <> (w <> q)) ≡ w
unfolding IsField trim_space
trim_space-labelled p w q (before, comma, starts, ends, after) =
    ap trim_right (trim_left-padding p (w <> q) before ∙ trim_left-plain w q starts)
    ∙ trim_right-label w q ends after

trim_space-blank : (p : String) → IsPadding p → trim_space p ≡ ""
unfolding trim_space trim_right
trim_space-blank p h = ap trim_right (trim_left-blank p h)

label-full : (w : String) → StartsPlain w → str_eq w "" ≡ false
unfolding StartsPlain
label-full String.[] h = absurd h
label-full (String.◌∷◌ c w) h = cons-full c w

split_commas-join :
    (f : Field) (fs : List Field)
    → All IsField (f ∷ fs)
    → split_commas (join (map text_of (f ∷ fs))) ≡ map text_of (f ∷ fs)
unfolding join
split_commas-join f [] (h, rest) = split_commas-word (text_of f) (text_of-comma f h)
split_commas-join f (g ∷ fs) (h, rest) =
    split_commas-append (text_of f) (join (map text_of (g ∷ fs))) (text_of-comma f h)
    ∙ ap (λ vs. text_of f ∷ vs) (split_commas-join g fs rest)

trimmed_words-labels :
    (fs : List Field) → All IsField fs → trimmed_words (map text_of fs) ≡ labels_of fs
unfolding trimmed_words labels_of text_of IsField
trimmed_words-labels [] h = refl
trimmed_words-labels (blank p ∷ fs) (h, rest) =
    rw (trim_space-blank p h) (trimmed_words-labels fs rest)
trimmed_words-labels (labelled p w q ∷ fs) (h, rest) =
    rw (trim_space-labelled p w q h, label-full w h.2, trimmed_words-labels fs rest) refl

label_list-words : (s : String) → label_list s ≡ trimmed_words (split_commas s)
unfolding label_list trimmed_words split_commas trim_space trim_left trim_right
label_list-words s = elim (Bool-cases (str_eq s "")) [
  | inl e ↦ rw ((eq_iff s "").0 e) refl
  | inr e ↦ rw (e, label_list) refl
]

-- The flag is a list of fields with commas between them, where each is nothing but spaces, or a label
-- without a comma and with no space at its ends, with spaces around it. The agent registers exactly
-- the labels, in order, each without the spaces around it.
pub label_list-join :
    (fs : List Field) → All IsField fs → label_list (join (map text_of fs)) ≡ labels_of fs
unfolding join labels_of label_list
label_list-join [] h = refl
label_list-join (f ∷ fs) h =
    label_list-words (join (map text_of (f ∷ fs)))
    ∙ ap trimmed_words (split_commas-join f fs h)
    ∙ trimmed_words-labels (f ∷ fs) h
