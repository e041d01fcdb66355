-- ===== src/Prelude/Decimal/Printed.antt =====
-- That the package strconv reads back what the package fmt prints of an int.
use Prim.Native.Char.{Char, code}
use Prim.Native.String.{◌++◌ as ◌<>◌}
use text.Mathlib.TextLemmas.{nil-append, cons-append}
use mini_bk.Prelude.{
  ℕ, zero, suc, ◌+◌, ◌-◌, ◌*◌, ◌/◌, ◌%◌, ◌^◌, ◌<◌, ◌≤◌, String, true, false, ◌≡◌, refl, ap, sym,
  subst, ◌∙◌, ◌≢◌, arith, leb, ltb, ◌==◌, Bool-cases, inl, inr,
}
use mini_bk.Prelude.Int.{pos}
use mini_bk.Prelude.Decimal.{
  all_digits, digits_value, max_int, is_number, positive_int, fits_int, is_int, atoi, digit_text,
  digits_text, decimal,
}

digits_value-digit : (acc d : ℕ) → d < 10 → digits_value acc (digit_text d) ≡ acc * 10 + d
unfolding digits_value digit_text
digits_value-digit acc zero h = refl
digits_value-digit acc (suc zero) h = refl
digits_value-digit acc (suc (suc zero)) h = refl
digits_value-digit acc (suc (suc (suc zero))) h = refl
digits_value-digit acc (suc (suc (suc (suc zero)))) h = refl
digits_value-digit acc (suc (suc (suc (suc (suc zero))))) h = refl
digits_value-digit acc (suc (suc (suc (suc (suc (suc zero)))))) h = refl
digits_value-digit acc (suc (suc (suc (suc (suc (suc (suc zero))))))) h = refl
digits_value-digit acc (suc (suc (suc (suc (suc (suc (suc (suc zero)))))))) h = refl
digits_value-digit acc (suc (suc (suc (suc (suc (suc (suc (suc (suc zero))))))))) h = refl
digits_value-digit acc (suc (suc (suc (suc (suc (suc (suc (suc (suc (suc n)))))))))) h =
    absurd (omega (arith, h))

all_digits-digit : (d : ℕ) → d < 10 → all_digits (digit_text d) ≡ true
unfolding all_digits digit_text
all_digits-digit zero h = refl
all_digits-digit (suc zero) h = refl
all_digits-digit (suc (suc zero)) h = refl
all_digits-digit (suc (suc (suc zero))) h = refl
all_digits-digit (suc (suc (suc (suc zero)))) h = refl
all_digits-digit (suc (suc (suc (suc (suc zero))))) h = refl
all_digits-digit (suc (suc (suc (suc (suc (suc zero)))))) h = refl
all_digits-digit (suc (suc (suc (suc (suc (suc (suc zero))))))) h = refl
all_digits-digit (suc (suc (suc (suc (suc (suc (suc (suc zero)))))))) h = refl
all_digits-digit (suc (suc (suc (suc (suc (suc (suc (suc (suc zero))))))))) h = refl
all_digits-digit (suc (suc (suc (suc (suc (suc (suc (suc (suc (suc n)))))))))) h =
    absurd (omega (arith, h))

digits_value-append :
    (acc : ℕ) (s t : String) → digits_value acc (s <> t) ≡ digits_value (digits_value acc s) t
unfolding digits_value
digits_value-append acc String.[] t = ap (digits_value acc) (nil-append t)
digits_value-append acc (String.◌∷◌ c s) t =
    rw (cons-append c s t) (digits_value-append (acc * 10 + (code c - b'0')) s t)

all_digits-append :
    (s t : String) → all_digits s ≡ true → all_digits t ≡ true → all_digits (s <> t) ≡ true
unfolding all_digits
all_digits-append String.[] t h k = rw (nil-append t) k
all_digits-append (String.◌∷◌ c s) t h k =
    rw (cons-append c s t) (ground (arith, all_digits-append s t))

digits_text-value :
    (fuel n : ℕ)
    → n < 10 ^ fuel
    → (digits_value 0 (digits_text fuel n) ≡ n) × (all_digits (digits_text fuel n) ≡ true)
unfolding digits_text digits_value all_digits
digits_text-value zero n h = (omega (arith, h), refl)
digits_text-value (suc fuel) n h = elim (Bool-cases (ltb n 10)) [
  | inl e ↦
      let small : n < 10 = ground arith in
      rw e (digits_value-digit 0 n small ∙ omega arith, all_digits-digit n small)
  | inr e ↦
      let (value, digits) = digits_text-value fuel (n / 10) (grind arith) in
      let last : n % 10 < 10 = omega arith in
      rw e (
        digits_value-append 0 (digits_text fuel (n / 10)) (digit_text (n % 10))
            ∙ ap (λ a. digits_value a (digit_text (n % 10))) value
            ∙ digits_value-digit (n / 10) (n % 10) last
            ∙ omega arith,
        all_digits-append (digits_text fuel (n / 10)) (digit_text (n % 10)) digits
            (all_digits-digit (n % 10) last),
      )
]

-- A text of digits has no sign.
first_digit :
    (c : Char) (s : String)
    → all_digits (String.◌∷◌ c s) ≡ true
    → (code c == b'-') ≡ false × (code c == b'+') ≡ false
unfolding all_digits
first_digit c s h = (ground arith, ground arith)

number-read :
    (c : Char) (s : String)
    → all_digits (String.◌∷◌ c s) ≡ true
    → digits_value 0 (String.◌∷◌ c s) ≤ max_int
    → (is_int (String.◌∷◌ c s) ≡ true)
      × (atoi (String.◌∷◌ c s) ≡ pos (digits_value 0 (String.◌∷◌ c s)))
unfolding is_int atoi fits_int positive_int is_number
number-read c s h fits =
    let (minus, plus) = first_digit c s h in
    let bound : leb (digits_value 0 (String.◌∷◌ c s)) max_int ≡ true = ground arith in
    (rw (is_int, minus, plus, h, bound) refl, rw (atoi, minus, plus, h, bound) refl)

zero_text : digits_text 20 0 ≢ ""
unfolding digits_text digit_text is_number
zero_text e = ground (arith, ap is_number e)

text-read :
    (n : ℕ) (s : String)
    → digits_text 20 n ≡ s
    → digits_value 0 s ≡ n
    → all_digits s ≡ true
    → n ≤ max_int
    → (is_int s ≡ true) × (atoi s ≡ pos n)
unfolding digits_value
text-read n String.[] e value digits fits =
    absurd (zero_text (subst (λ k. digits_text 20 k ≡ "") (sym value) e))
text-read n (String.◌∷◌ c s) e value digits fits =
    let (int, same) = number-read c s digits (omega arith) in (int, same ∙ ap pos value)

-- The decimal of an int that is not negative is read back as the int.
pub decimal-read :
    (n : ℕ) → n ≤ max_int → (is_int (decimal (pos n)) ≡ true) × (atoi (decimal (pos n)) ≡ pos n)
unfolding decimal
decimal-read n fits =
    let (value, digits) = digits_text-value 20 n (omega arith) in
    text-read n (digits_text 20 n) refl value digits fits
