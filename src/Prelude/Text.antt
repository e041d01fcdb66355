-- ===== src/Prelude/Text.antt =====
-- What the code uses of Go's package strings, on native texts: `TrimPrefix`, `HasSuffix`, and the part
-- before the first "/" that `Split` gives.
use Prim.Native.String.{◌++◌ as ◌<>◌}
use Prim.Native.Char.{code}
use text.Mathlib.TextLemmas.{nil-append, cons-append}
use mini_bk.Prelude.{
  String, Option, none, some, Bool, false, ◌≡◌, refl, ap, arith, ◌||◌, if◌then◌else◌, str_eq, ◌==◌,
}

-- The rest of a text after a prefix, if it has it.
unfoldable pub strip : String → String → Option String
strip String.[] s = some s
strip (String.◌∷◌ c p) String.[] = none
strip (String.◌∷◌ c p) (String.◌∷◌ d s) =
    let rest = strip p s in if code c == code d then rest else none

abbrev or_whole : String → Option String → String
or_whole s none = s
or_whole s (some rest) = rest

unfoldable pub trim_prefix : String → String → String
unfolding strip
trim_prefix s p = or_whole s (strip p s)

unfoldable pub has_suffix : String → String → Bool
has_suffix String.[] p = str_eq String.[] p
has_suffix (String.◌∷◌ c s) p = str_eq (String.◌∷◌ c s) p || has_suffix s p

unfoldable pub first_segment : String → String
first_segment String.[] = String.[]
first_segment (String.◌∷◌ c s) =
    let rest = first_segment s in if code c == b'/' then String.[] else String.◌∷◌ c rest

strip-append : (p s : String) → strip p (p <> s) ≡ some s
unfolding strip
strip-append String.[] s = ap some (nil-append s)
strip-append (String.◌∷◌ c p) s = rw (cons-append c p s) (ground (arith, strip-append p s))

pub trim_prefix-append : (p s : String) → trim_prefix (p <> s) p ≡ s
unfolding trim_prefix
trim_prefix-append p s = rw (strip-append p s) refl

-- No character of the text is a slash.
abbrev pub HasNoSlash : String → Type 0
HasNoSlash String.[] = Unit
HasNoSlash (String.◌∷◌ c s) = ((code c == b'/') ≡ false) × HasNoSlash s

pub first_segment-append : (s t : String) → HasNoSlash s → first_segment (s <> ("/" <> t)) ≡ s
unfolding first_segment
first_segment-append String.[] t h = rw (nil-append, cons-append) refl
first_segment-append (String.◌∷◌ c s) t h =
    rw (cons-append c s) (rw (h.0) (ap (λ u. String.◌∷◌ c u) (first_segment-append s t h.1)))
