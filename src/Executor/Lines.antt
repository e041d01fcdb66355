-- ===== src/Executor/Lines.antt =====
-- streamOutput of internal/executor/executor.go on the output of a process that prints lines.
use Prim.Native.Char.{Char, code}
use Prim.Native.String.{◌++◌ as ◌<>◌}
use text.Mathlib.TextLemmas.{nil-append, cons-append}
use mini_bk.Prelude.{
  String, List, [], ◌∷◌, ◌++◌, false, if◌then◌else◌, ◌==◌, ◌≡◌, refl, ap, ◌∙◌, ltb,
}
use mini_bk.Executor.Output.{
  text_length, pieces, drop_empty_end, drop_cr, max_token, take_fitting, scanned, unlines,
}

-- A line: no newline in it, and no carriage return.
unfoldable pub IsPlain : String → Type 0
IsPlain String.[] = Unit
IsPlain (String.◌∷◌ c s) = ((code c == b'\n') ≡ false) × ((code c == b'\r') ≡ false) × IsPlain s

unfoldable pub ArePlain : List String → Type 0
unfolding IsPlain
ArePlain [] = Unit
ArePlain (l ∷ ls) = IsPlain l × ArePlain ls

-- The lines before the first one of 65536 bytes or more.
unfoldable pub before_long : List String → List String
before_long [] = []
before_long (l ∷ ls) =
    let rest = before_long ls in if ltb (text_length l) max_token then l ∷ rest else []

pieces-newline : (s : String) → pieces ("\n" <> s) ≡ "" ∷ pieces s
unfolding pieces
pieces-newline s = rw (cons-append "\n" "" s, nil-append s) refl

one-append : (c : Char) (l : String) → String.◌∷◌ c "" <> l ≡ String.◌∷◌ c l
one-append c l = rw (cons-append c "" l, nil-append l) refl

pieces-line : (l s : String) → IsPlain l → pieces (l <> ("\n" <> s)) ≡ l ∷ pieces s
unfolding pieces IsPlain
pieces-line String.[] s plain = ap pieces (nil-append ("\n" <> s)) ∙ pieces-newline s
pieces-line (String.◌∷◌ c l) s (newline, cr, plain) =
    rw (cons-append c l ("\n" <> s), newline, pieces-line l s plain, one-append c l) refl

pieces-unlines : (ls : List String) → ArePlain ls → pieces (unlines ls) ≡ ls ++ ("" ∷ [])
unfolding pieces unlines ArePlain
pieces-unlines [] plain = refl
pieces-unlines (l ∷ ls) (here, plain) =
    pieces-line l (unlines ls) here ∙ ap (λ rest. l ∷ rest) (pieces-unlines ls plain)

drop_empty_end-append : (ls : List String) → drop_empty_end (ls ++ ("" ∷ [])) ≡ ls
unfolding drop_empty_end
drop_empty_end-append [] = refl
drop_empty_end-append (String.[] ∷ []) = refl
drop_empty_end-append (String.◌∷◌ c l ∷ []) = refl
drop_empty_end-append (String.[] ∷ k ∷ ls) = ap (λ rest. "" ∷ rest) (drop_empty_end-append (k ∷ ls))
drop_empty_end-append (String.◌∷◌ c l ∷ k ∷ ls) =
    ap (λ rest. String.◌∷◌ c l ∷ rest) (drop_empty_end-append (k ∷ ls))

drop_cr-plain : (l : String) → IsPlain l → drop_cr l ≡ l
unfolding drop_cr IsPlain
drop_cr-plain String.[] plain = refl
drop_cr-plain (String.◌∷◌ c String.[]) (newline, cr, plain) = rw cr refl
drop_cr-plain (String.◌∷◌ c (String.◌∷◌ d s)) (newline, cr, plain) =
    ap (String.◌∷◌ c) (drop_cr-plain (String.◌∷◌ d s) plain)

take_fitting-plain : (ls : List String) → ArePlain ls → take_fitting ls ≡ before_long ls
unfolding take_fitting ArePlain before_long
take_fitting-plain [] plain = refl
take_fitting-plain (l ∷ ls) (here, plain) =
    rw (drop_cr-plain l here, take_fitting-plain ls plain) refl

-- Of lines that a process prints, the scanner yields those before the first one of 65536 bytes or more.
pub scanned-unlines : (ls : List String) → ArePlain ls → scanned (unlines ls) ≡ before_long ls
unfolding scanned
scanned-unlines ls plain =
    ap (λ ps. take_fitting (drop_empty_end ps)) (pieces-unlines ls plain)
    ∙ ap take_fitting (drop_empty_end-append ls)
    ∙ take_fitting-plain ls plain
