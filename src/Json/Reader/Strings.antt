-- ===== src/Json/Reader/Strings.antt =====
-- A written string is read back.
use jrs.Prelude.{
  is_scalar, nat_beq_iff, subst, ℕ, Text, codes, true, false, ◌==◌, nat_eq, some, ◌∷◌, [], ◌++◌,
  ◌+◌, ◌*◌, ◌/◌, ◌%◌, ◌<◌, ◌≡◌, refl, ap, sym, ◌∙◌, arith, all, append_assoc, Bool-cases, inl, inr,
  ltb,
}
use jrs.Json.{leb, hex_digit, hex4, is_escaped, escape_char, escape_chars}
use jrs.Json.Reader.{
  unicode_then, escaped, got, prepend, hex_value, read_hex4, from_hex4, hex_from, checked,
  high_half, unicode, simple_escape, string_from,
}

hex_value-hex_digit : (n : ℕ) → n < 16 → hex_value (hex_digit n) ≡ some n
unfolding hex_value
hex_value-hex_digit n h = ground (arith, h)

hex_digit-ne-plus : (n : ℕ) → n < 16 → (hex_digit n == b'+') ≡ false
hex_digit-ne-plus n h = ground (arith, h)

hex_from-cons :
    (n d : ℕ) (s : Text) → d < 16 → hex_from n (hex_digit d ∷ s) ≡ hex_from (n * 16 + d) s
unfolding hex_from
hex_from-cons n d s h = rw (hex_from, hex_value-hex_digit d h) refl

read_hex4-hex4 : (c : ℕ) (t : Text) → c < 0x10000 → read_hex4 (hex4 c ++ t) ≡ some c
unfolding read_hex4 from_hex4
read_hex4-hex4 c t h =
    let a = c / 4096 % 16 in
    let b = c / 256 % 16 in
    let d = c / 16 % 16 in
    let e = c % 16 in
    let whole : ((((0 * 16 + a) * 16 + b) * 16 + d) * 16 + e) ≡ c = omega (arith, h) in
    rw (hex_digit-ne-plus a (omega arith)) (
      hex_from-cons 0 a (hex_digit b ∷ hex_digit d ∷ hex_digit e ∷ []) (omega arith)
      ∙ hex_from-cons (0 * 16 + a) b (hex_digit d ∷ hex_digit e ∷ []) (omega arith)
      ∙ hex_from-cons ((0 * 16 + a) * 16 + b) d (hex_digit e ∷ []) (omega arith)
      ∙ hex_from-cons (((0 * 16 + a) * 16 + b) * 16 + d) e [] (omega arith)
      ∙ ap some whole)

unicode-hex4 : (c : ℕ) (t : Text) → c < 0xD800 → unicode (hex4 c ++ t) ≡ got (c, 4) t
unfolding unicode high_half checked
unicode-hex4 c t h =
    let low : ltb c 0xD800 ≡ true = ground (arith, h) in
    let no_half : leb 0xD800 c ≡ false = ground (arith, h) in
    rw (read_hex4-hex4 c t (omega (arith, h)), no_half, low) refl

read-unicode :
    (c : ℕ) (t : Text)
    → c < 0xD800
    → string_from 0 (codes "\\u" ++ (hex4 c ++ t)) ≡ prepend c (string_from 0 t)
unfolding string_from escaped unicode_then simple_escape
read-unicode c t h = rw (unicode-hex4 c t h) refl

-- A character that a written string has an escape of its own for.
ReadsBack : Text → ℕ → Type 0
ReadsBack t c = string_from 0 (escape_char c ++ t) ≡ prepend c (string_from 0 t)

read-control : (c : ℕ) (t : Text) → is_escaped c ≡ true → ReadsBack t c
unfolding ReadsBack escape_char string_from escaped simple_escape
read-control c t escaped =
    let low : c < 0xD800 = ground (arith, escaped) in
    let quote : (c == b'"') ≡ false = ground (arith, escaped) in
    let backslash : (c == b'\\') ≡ false = ground (arith, escaped) in
    elim (Bool-cases (c == b'\n')) [
      | inl is ↦ subst (ReadsBack t) (sym ((nat_beq_iff c b'\n').0 is)) refl
      | inr n ↦ elim (Bool-cases (c == b'\r')) [
        | inl is ↦ subst (ReadsBack t) (sym ((nat_beq_iff c b'\r').0 is)) refl
        | inr r ↦ elim (Bool-cases (c == b'\t')) [
          | inl is ↦ subst (ReadsBack t) (sym ((nat_beq_iff c b'\t').0 is)) refl
          | inr tab ↦ elim (Bool-cases (c == 8)) [
            | inl is ↦ subst (ReadsBack t) (sym ((nat_beq_iff c 8).0 is)) refl
            | inr b ↦ elim (Bool-cases (c == 12)) [
              | inl is ↦ subst (ReadsBack t) (sym ((nat_beq_iff c 12).0 is)) refl
              | inr f ↦
                  rw (escape_char, quote, backslash, n, r, tab, b, f, escaped)
                    (read-unicode c t low)
            ]
          ]
        ]
      ]
    ]

read-escape_char :
    (c : ℕ) (t : Text)
    → is_scalar c ≡ true
    → string_from 0 (escape_char c ++ t) ≡ prepend c (string_from 0 t)
unfolding escape_char string_from escaped simple_escape ReadsBack
read-escape_char c t h = elim (Bool-cases (is_escaped c)) [
  | inl escaped ↦ read-control c t escaped
  | inr plain ↦ ground (arith, plain)
]

-- The characters of a written string, up to its closing quote.
pub read-escape_chars :
    (s rest : Text)
    → all is_scalar s ≡ true
    → string_from 0 (escape_chars s ++ b'"' ∷ rest) ≡ got s rest
unfolding escape_chars string_from prepend
read-escape_chars [] rest h = refl
read-escape_chars (c ∷ s) rest h =
    let here : is_scalar c ≡ true = ground (arith, h) in
    ap (string_from 0) (append_assoc (escape_char c) (escape_chars s) (b'"' ∷ rest))
    ∙ read-escape_char c (escape_chars s ++ b'"' ∷ rest) here
    ∙ ap (prepend c) (read-escape_chars s rest (ground (arith, h)))
