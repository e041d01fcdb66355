-- ===== src/Prelude/Decimal.antt =====
-- How Go's packages fmt and strconv read and print an int of 64 bits.
pub mod Printed
use Prim.Native.Char.{code}
use Prim.Native.String.{◌++◌ as ◌<>◌}
use mini_bk.Prelude.{
  ℕ, zero, suc, ◌+◌, ◌-◌, ◌*◌, ◌/◌, ◌%◌, String, Bool, true, false, ◌&&◌, ◌||◌, if◌then◌else◌, ◌==◌,
  leb, ltb,
}
use mini_bk.Prelude.Int.{ℤ, pos, negsuc, ◌-ℤ◌}

-- `fmt.Sscanf(value, "%d", &val)`: blanks, a sign, then digits up to another character. `val` stays
-- 0 if there are none, or if they do not fit an int.
abbrev pub is_digit : ℕ → Bool
is_digit c = leb b'0' c && leb c b'9'

pub scan_digits : ℕ → String → ℕ
scan_digits acc String.[] = acc
scan_digits acc (String.◌∷◌ c s) =
    let more = scan_digits (acc * 10 + (code c - b'0')) s in if is_digit (code c) then more else acc

fitting : ℕ → ℤ
fitting n = if ltb n 9_223_372_036_854_775_808 then pos n else pos 0

fitting_negative : ℕ → ℤ
fitting_negative n = if leb n 9_223_372_036_854_775_808 then pos 0 -ℤ pos n else pos 0

unfoldable pub scan_int : String → ℤ
unfolding scan_digits fitting fitting_negative
scan_int String.[] = pos 0
scan_int (String.◌∷◌ c s) =
    let after_blank = scan_int s in
    if code c == b' ' || code c == 9
    then after_blank
    else if code c == b'-'
    then fitting_negative (scan_digits 0 s)
    else if code c == b'+'
    then fitting (scan_digits 0 s)
    else fitting (scan_digits 0 (String.◌∷◌ c s))

-- `strconv.Atoi` without its error: 0 for a text that is no number, and the nearest int for one that
-- does not fit.
all_digits : String → Bool
all_digits String.[] = true
all_digits (String.◌∷◌ c s) = leb b'0' (code c) && leb (code c) b'9' && all_digits s

digits_value : ℕ → String → ℕ
digits_value acc String.[] = acc
digits_value acc (String.◌∷◌ c s) = digits_value (acc * 10 + (code c - b'0')) s

abbrev pub max_int : ℕ
max_int = 9_223_372_036_854_775_807

is_number : String → Bool
unfolding all_digits
is_number String.[] = false
is_number (String.◌∷◌ c s) = all_digits (String.◌∷◌ c s)

positive_int : String → ℤ
unfolding is_number digits_value
positive_int s =
    let n = digits_value 0 s in
    if is_number s then (if leb n max_int then pos n else pos max_int) else pos 0

negative_int : String → ℤ
unfolding is_number digits_value
negative_int s =
    let n = digits_value 0 s in
    if is_number s then (if leb n (max_int + 1) then pos 0 -ℤ pos n else negsuc max_int) else pos 0

-- Whether `strconv.Atoi` returns no error.
fits_int : ℕ → String → Bool
unfolding is_number digits_value
fits_int bound s = is_number s && leb (digits_value 0 s) bound

unfoldable pub is_int : String → Bool
unfolding fits_int
is_int String.[] = false
is_int (String.◌∷◌ c s) =
    if code c == b'-'
    then fits_int (max_int + 1) s
    else if code c == b'+'
    then fits_int max_int s
    else fits_int max_int (String.◌∷◌ c s)

unfoldable pub atoi : String → ℤ
unfolding positive_int negative_int
atoi String.[] = pos 0
atoi (String.◌∷◌ c s) =
    if code c == b'-'
    then negative_int s
    else if code c == b'+'
    then positive_int s
    else positive_int (String.◌∷◌ c s)

-- The verb `%d`; an int of 64 bits has at most 19 digits.
digit_text : ℕ → String
digit_text zero = "0"
digit_text (suc zero) = "1"
digit_text (suc (suc zero)) = "2"
digit_text (suc (suc (suc zero))) = "3"
digit_text (suc (suc (suc (suc zero)))) = "4"
digit_text (suc (suc (suc (suc (suc zero))))) = "5"
digit_text (suc (suc (suc (suc (suc (suc zero)))))) = "6"
digit_text (suc (suc (suc (suc (suc (suc (suc zero))))))) = "7"
digit_text (suc (suc (suc (suc (suc (suc (suc (suc zero)))))))) = "8"
digit_text n = "9"

digits_text : ℕ → ℕ → String
unfolding digit_text
digits_text zero n = ""
digits_text (suc fuel) n =
    let front = digits_text fuel (n / 10) in
    if ltb n 10 then digit_text n else front <> digit_text (n % 10)

unfoldable pub decimal : ℤ → String
unfolding digits_text
decimal (pos n) = digits_text 20 n
decimal (negsuc n) = "-" <> digits_text 20 (n + 1)
