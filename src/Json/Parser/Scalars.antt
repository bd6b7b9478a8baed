-- ===== src/Json/Parser/Scalars.antt =====
-- Written numbers and words are read back.
use jrs.Prelude.{
  subst, ℕ, suc, Text, Bool, true, false, not, ◌||◌, ◌==◌, nat_eq, Option, none, some, ◌∷◌, [],
  ◌++◌, ◌+◌, ◌-◌, ◌^◌, ◌<◌, ◌≤◌, ◌≡◌, refl, ap, sym, ◌∙◌, arith, all, is_ascii_digit, digits_value,
  decimal, decimal-cons, decimal_digits, digits_value-decimal,
}
use jrs.Json.{ℤ, pos, negsuc, int, str, display_int}
use jrs.Json.Reader.{got}
use jrs.Json.Parser.{
  is_number_char, number_text, after_number, parse_i64, digits_within, negated, non_negative,
  number_value, scalar, number,
}

-- The text goes on with something that no number does.
abbrev pub ends_number : Text → Bool
ends_number [] = true
ends_number (c ∷ s) = not (is_number_char c)

-- An i64.
abbrev pub Fits : ℤ → Type 0
Fits (pos n) = n < 2 ^ 63
Fits (negsuc n) = n < 2 ^ 63

number_text-append :
    (s rest : Text)
    → all is_number_char s ≡ true
    → ends_number rest ≡ true
    → (number_text (s ++ rest) ≡ s) × (after_number (s ++ rest) ≡ rest)
unfolding number_text after_number
number_text-append [] [] h e = (refl, refl)
number_text-append [] (c ∷ rest) h e =
    let over : is_number_char c ≡ false = ground (arith, e) in (rw over refl, rw over refl)
number_text-append (c ∷ s) rest h e =
    let here : is_number_char c ≡ true = ground (arith, h) in
    let (t, a) = number_text-append s rest (ground (arith, h)) e in
    (rw here (ap (λ l. c ∷ l) t), rw here a)

digits-number : (s : Text) → all is_ascii_digit s ≡ true → all is_number_char s ≡ true
digits-number [] h = refl
digits-number (c ∷ s) h = ground (arith, digits-number s (ground (arith, h)))

display_int-number : (n : ℤ) → all is_number_char (display_int n) ≡ true
unfolding display_int
display_int-number (pos n) = digits-number (decimal n) (decimal_digits n)
display_int-number (negsuc n) = digits-number (decimal (n + 1)) (decimal_digits (n + 1))

digits_within-decimal :
    (limit n : ℕ) → n ≤ limit → n < 10 ^ 21 → digits_within limit (decimal n) ≡ some n
unfolding digits_within
digits_within-decimal limit n h small =
    let (c, s, e, d) = decimal-cons n in
    let read = digits_value-decimal limit n h small in
    subst (λ t. digits_within limit t ≡ some n) (sym e)
      (subst (λ t. digits_value limit 0 t ≡ some n) e read)

-- The first character of a decimal is no sign.
parse_i64-digit :
    (c : ℕ) (s : Text)
    → is_ascii_digit c ≡ true
    → parse_i64 (c ∷ s) ≡ non_negative (digits_within (2 ^ 63 - 1) (c ∷ s))
unfolding parse_i64
parse_i64-digit c s h =
    let minus : (c == b'-') ≡ false = ground (arith, h) in
    let plus : (c == b'+') ≡ false = ground (arith, h) in rw (minus, plus) refl

parse_i64-display_int : (n : ℤ) → Fits n → parse_i64 (display_int n) ≡ some n
unfolding parse_i64 display_int non_negative negated
parse_i64-display_int (pos n) h =
    let (c, s, e, d) = decimal-cons n in
    let read = digits_within-decimal (2 ^ 63 - 1) n (omega (arith, h)) (omega (arith, h)) in
    subst (λ t. parse_i64 t ≡ some (pos n)) (sym e)
      (parse_i64-digit c s d ∙ ap non_negative (ap (digits_within (2 ^ 63 - 1)) (sym e) ∙ read))
parse_i64-display_int (negsuc n) h =
    let read = digits_within-decimal (2 ^ 63) (n + 1) (omega (arith, h)) (omega (arith, h)) in
    let next : n + 1 ≡ suc n = omega arith in ap negated (read ∙ ap some next)

number_value-display_int : (n : ℤ) → Fits n → number_value (display_int n) ≡ int n
unfolding number_value
number_value-display_int n h =
    subst (λ (o : Option ℤ). elim o [ some k ↦ int k | none ↦ str (display_int n) ] ≡ int n)
      (sym (parse_i64-display_int n h)) refl

-- How a written integer starts.
pub display_int-cons :
    (n : ℤ)
    → (c : ℕ) × (s : Text) × (display_int n ≡ c ∷ s) × ((c == b'-' || is_ascii_digit c) ≡ true)
unfolding display_int
display_int-cons (pos n) = let (c, s, e, h) = decimal-cons n in (c, s, e, ground (arith, h))
display_int-cons (negsuc n) = (b'-', decimal (n + 1), refl, refl)

pub number-display_int :
    (n : ℤ) (rest : Text)
    → Fits n
    → ends_number rest ≡ true
    → number (display_int n ++ rest) ≡ got (int n) rest
number-display_int n rest h e =
    let (t, a) = number_text-append (display_int n) rest (display_int-number n) e in
    rw (t, a) (ap (λ j. got j rest) (number_value-display_int n h))

pub scalar-number :
    (c : ℕ) (s : Text) → (c == b'-' || is_ascii_digit c) ≡ true → scalar c s ≡ number (c ∷ s)
unfolding scalar
scalar-number c s h =
    let quote : (c == b'"') ≡ false = ground (arith, h) in
    let t : (c == b't') ≡ false = ground (arith, h) in
    let f : (c == b'f') ≡ false = ground (arith, h) in
    let n : (c == b'n') ≡ false = ground (arith, h) in rw (scalar, quote, t, f, n, h) refl
