-- ===== src/Executor/Output.antt =====
-- streamOutput of internal/executor/executor.go, with the bufio.Scanner of Go's library that it uses. A
-- character of an output stands for one byte.
use Prim.Native.String.{◌++◌ as ◌<>◌}
use Prim.Native.Char.{code}
use mini_bk.Prelude.{ℕ, suc, String, List, [], ◌∷◌, if◌then◌else◌, ◌==◌, ltb}
use mini_bk.Prelude.Int.{ℤ}
use mini_bk.LogStream.{StreamOps, append}

unfoldable pub text_length : String → ℕ
text_length String.[] = 0
text_length (String.◌∷◌ c s) = suc (text_length s)

-- ScanLines cuts at each newline; what comes after the last one is a line if it is not empty.
abbrev pub push_char : String → List String → List String
push_char c [] = c ∷ []
push_char c (l ∷ ls) = (c <> l) ∷ ls

unfoldable pub pieces : String → List String
pieces String.[] = "" ∷ []
pieces (String.◌∷◌ c s) =
    let rest = pieces s in
    if code c == b'\n' then "" ∷ rest else push_char (String.◌∷◌ c String.[]) rest

unfoldable pub drop_empty_end : List String → List String
drop_empty_end [] = []
drop_empty_end (String.[] ∷ []) = []
drop_empty_end (l ∷ ls) = l ∷ drop_empty_end ls

-- The carriage return before a newline is dropped.
unfoldable pub drop_cr : String → String
drop_cr String.[] = String.[]
drop_cr (String.◌∷◌ c String.[]) = if code c == b'\r' then String.[] else String.◌∷◌ c String.[]
drop_cr (String.◌∷◌ c (String.◌∷◌ d s)) = String.◌∷◌ c (drop_cr (String.◌∷◌ d s))

-- The buffer of a Scanner takes 65536 bytes: it stops at a line that fills it before its newline comes.
abbrev pub max_token : ℕ
max_token = 65_536

unfoldable pub take_fitting : List String → List String
unfolding drop_cr
take_fitting [] = []
take_fitting (l ∷ ls) =
    let rest = take_fitting ls in if ltb (text_length l) max_token then drop_cr l ∷ rest else []

-- The lines that Scan yields of an output.
unfoldable pub scanned : String → List String
unfolding pieces drop_empty_end take_fitting
scanned s = take_fitting (drop_empty_end (pieces s))

unfoldable pub unlines : List String → String
unlines [] = ""
unlines (l ∷ ls) = l <> ("\n" <> unlines ls)

module _ {R : Type 0} (o : StreamOps R) where
  -- The lines are appended to the log one by one; an error of that is not kept. `clock` is the time in
  -- milliseconds at which the n-th line comes.
  unfoldable pub stream_lines : String → String → (ℕ → ℤ) → ℕ → List String → R → R
  stream_lines uid name clock n [] r = r
  stream_lines uid name clock n (l ∷ ls) r =
      stream_lines uid name clock (suc n) ls (append o uid l name (clock n) r).1
