-- ===== src/Prelude/Decimal.antt =====
-- Numbers in decimal, as `{}` prints them, and read back.
use Prim.Native.Nat.{ℕ, zero, suc, ◌+◌, ◌/◌, ◌%◌, ◌^◌, ◌≤◌, ◌<◌}
use mathlib.Core.Path.{◌≡◌, refl, ap, sym, ◌∙◌}
use mathlib.Core.Bool.{true}
use mathlib.Core.Logic.{inl, inr}
use mathlib.Core.Option.{some}
use mathlib.Core.List.{[], ◌∷◌, ◌++◌, append_assoc, append-nil}
use native.Mathlib.Omega.{arith}
use jrs.Prelude.Lists.{all, all-append}
use jrs.Prelude.Tests.{ltb, if◌then◌else◌, Bool-cases}
use jrs.Prelude.Texts.{Text, is_ascii_digit, digits_value}

abbrev pub digit : ℕ → ℕ
digit n = b'0' + n % 10

unfoldable pub decimal_from : ℕ → ℕ → Text
decimal_from zero n = digit n ∷ []
decimal_from (suc f) n =
    let higher = decimal_from f (n / 10) in
    if ltb n 10 then digit n ∷ [] else higher ++ digit n ∷ []

-- A number below 10 ^ 21; one of 64 bits has at most twenty digits.
unfoldable pub decimal : ℕ → Text
unfolding decimal_from
decimal n = decimal_from 20 n

pub digits_value-decimal_from :
    (limit f n : ℕ) (s : Text)
    → n ≤ limit
    → n < 10 ^ suc f
    → digits_value limit 0 (decimal_from f n ++ s) ≡ digits_value limit n s
unfolding digits_value decimal_from
digits_value-decimal_from limit zero n s h small = ground (arith, h, small)
digits_value-decimal_from limit (suc f) n s h small = elim (Bool-cases (ltb n 10)) [
  | inl one ↦ rw one (ground (arith, h, one))
  | inr more ↦
      let last : digits_value limit (n / 10) (digit n ∷ s) ≡ digits_value limit n s =
        ground (arith, h, more) in
      rw more (
        ap (digits_value limit 0) (append_assoc (decimal_from f (n / 10)) (digit n ∷ []) s)
        ∙ digits_value-decimal_from limit f (n / 10) (digit n ∷ s) (omega (arith, h))
            (omega (arith, small))
        ∙ last)
]

pub decimal_from-digits : (f n : ℕ) → all is_ascii_digit (decimal_from f n) ≡ true
unfolding decimal_from
decimal_from-digits zero n = ground arith
decimal_from-digits (suc f) n = ground (
  arith,
  decimal_from-digits f (n / 10),
  all-append is_ascii_digit (decimal_from f (n / 10)) (digit n ∷ []),
)

-- The first digit, and the rest.
pub decimal_from-cons :
    (f n : ℕ) → (c : ℕ) × (s : Text) × (decimal_from f n ≡ c ∷ s) × (is_ascii_digit c ≡ true)
unfolding decimal_from
decimal_from-cons zero n = (digit n, [], refl, ground arith)
decimal_from-cons (suc f) n = elim (Bool-cases (ltb n 10)) [
  | inl one ↦ (digit n, [], rw one refl, ground arith)
  | inr more ↦
      let (c, s, e, h) = decimal_from-cons f (n / 10) in
      (c, s ++ digit n ∷ [], rw (more, e) refl, h)
]

pub digits_value-decimal :
    (limit n : ℕ) → n ≤ limit → n < 10 ^ 21 → digits_value limit 0 (decimal n) ≡ some n
unfolding decimal digits_value
digits_value-decimal limit n h small =
    ap (digits_value limit 0) (sym (append-nil (decimal_from 20 n)))
    ∙ digits_value-decimal_from limit 20 n [] h small
    ∙ ground (arith, h)

pub decimal_digits : (n : ℕ) → all is_ascii_digit (decimal n) ≡ true
unfolding decimal
decimal_digits n = decimal_from-digits 20 n

pub decimal-cons : (n : ℕ) → (c : ℕ) × (s : Text) × (decimal n ≡ c ∷ s) × (is_ascii_digit c ≡ true)
unfolding decimal
decimal-cons n = decimal_from-cons 20 n
