-- ===== src/Json/Reader.antt =====
-- src/json.rs, `Reader`. The program reads bytes; what it looks at is ASCII, so the model reads
-- characters, and a failure says what is left of the text and how much of that is read already.
pub mod Strings
use jrs.Prelude.{
  is_scalar, ℕ, zero, suc, Text, codes, Bool, true, false, ◌||◌, ◌&&◌, ◌==◌, nat_eq, list_eq,
  Option, none, some, List, ◌∷◌, [], ◌++◌, if◌then◌else◌, ◌+◌, ◌-◌, ◌*◌, ◌/◌, ◌%◌, ◌^◌, ltb, leb,
  length, drop, starts_with, digits_value, is_ascii_digit, any,
}
use jrs.Json.{
  ℤ, pos, negsuc, Json, null, bool, int, str, array, object, Items, no_items, item, Pairs, no_pairs,
  pair,
}

pub data Read {κ} (Value : Type κ) : Type κ where
  got : Value → Text → Read Value
  failed : Text → Text → ℕ → Read Value
  out_of_fuel : Read Value

-- `?` on what is read, which then goes on with the rest of the text.
infixl 1 ◌>>=◌
abbrev pub ◌>>=◌ {κ ℓ} :
    {Value : Type κ} {Next : Type ℓ} → Read Value → (Value → Text → Read Next) → Read Next
got value rest >>= next = next value rest
failed what left past >>= next = failed what left past
out_of_fuel >>= next = out_of_fuel

abbrev pub is_space : ℕ → Bool
is_space c = c == b' ' || c == b'\t' || c == b'\n' || c == b'\r'

unfoldable pub space : Text → Text
space [] = []
space (c ∷ s) = let rest = space s in if is_space c then rest else c ∷ s

unfoldable pub eat_now : ℕ → Text → Text → Read (Unit {0})
eat_now c what [] = failed what [] 0
eat_now c what (d ∷ s) = if d == c then got tt s else failed what (d ∷ s) 0

-- `eat`, on the only byte that is not known to be there.
unfoldable pub eat_colon : Text → Read (Unit {0})
unfolding eat_now
eat_colon s = eat_now b':' (codes "expected `:`") (space s)

unfoldable pub hex_value : ℕ → Option ℕ
hex_value c =
    if is_ascii_digit c
    then some (c - b'0')
    else if leb b'a' c && leb c b'f'
    then some (c - b'a' + 10)
    else if leb b'A' c && leb c b'F'
    then some (c - b'A' + 10)
    else none

hex_from : ℕ → Text → Option ℕ
unfolding hex_value
hex_from n [] = some n
hex_from n (c ∷ s) = elim (hex_value c) [ none ↦ none | some d ↦ hex_from (n * 16 + d) s ]

-- `u32::from_str_radix(d, 16)` on four characters, which takes a `+` for the first one.
unfoldable pub from_hex4 : ℕ → ℕ → ℕ → ℕ → Option ℕ
unfolding hex_from
from_hex4 a b c d =
    if a == b'+' then hex_from 0 (b ∷ c ∷ d ∷ []) else hex_from 0 (a ∷ b ∷ c ∷ d ∷ [])

unfoldable pub read_hex4 : Text → Option ℕ
unfolding from_hex4
read_hex4 (a ∷ b ∷ c ∷ d ∷ s) = from_hex4 a b c d
read_hex4 _ = none

-- What stands behind `\u`: the character and how many characters of the text it takes.
abbrev pub Unicode : Type 0
Unicode = Read (ℕ × ℕ)

unfoldable pub checked : ℕ → ℕ → Text → Unicode
checked code taken s =
    if is_scalar code then got (code, taken) s else failed (codes "a lone surrogate") s 0

unfoldable pub low_half : ℕ → Text → Option ℕ → Unicode
unfolding checked
low_half high s none = failed (codes "a bad `\\u` escape") (drop 6 s) 0
low_half high s (some low) =
    if leb 0xDC00 low && ltb low 0xE000
    then checked (0x10000 + (high - 0xD800) * 1024 + (low - 0xDC00)) 10 (drop 10 s)
    else failed (codes "a lone surrogate") (drop 10 s) 0

unfoldable pub high_half : Text → Option ℕ → Unicode
unfolding checked low_half read_hex4
high_half s none = failed (codes "a bad `\\u` escape") s 0
high_half s (some high) =
    if leb 0xD800 high && ltb high 0xDC00 && starts_with (drop 4 s) (codes "\\u")
    then low_half high s (read_hex4 (drop 6 s))
    else checked high 4 (drop 4 s)

unfoldable pub unicode : Text → Unicode
unfolding high_half read_hex4
unicode s = high_half s (read_hex4 s)

unfoldable pub prepend : ℕ → Read Text → Read Text
prepend c (got s rest) = got (c ∷ s) rest
prepend c (failed what left past) = failed what left past
prepend c out_of_fuel = out_of_fuel

-- The escapes of one character.
unfoldable pub simple_escape : ℕ → Option ℕ
simple_escape c =
    if c == b'"' || c == b'\\' || c == b'/'
    then some c
    else if c == b'b'
    then some 8
    else if c == b'f'
    then some 12
    else if c == b'n'
    then some 10
    else if c == b'r'
    then some 13
    else if c == b't'
    then some 9
    else none

-- What stands behind `\u`; `go` goes on behind as many more characters of the escape.
unfoldable pub unicode_then : Read (ℕ × ℕ) → (ℕ → Read Text) → Read Text
unfolding prepend
unicode_then (got (ch, taken) rest) go = prepend ch (go (1 + taken))
unicode_then (failed what left past) go = failed what left past
unicode_then out_of_fuel go = out_of_fuel

-- Behind a backslash.
unfoldable pub escaped : Text → (ℕ → Read Text) → Read Text
unfolding prepend simple_escape unicode unicode_then
escaped [] go = failed (codes "unterminated string") [] 0
escaped (e ∷ t) go = elim (simple_escape e) [
  | some ch ↦ prepend ch (go 1)
  | none ↦
      if e == b'u' then unicode_then (unicode t) go else failed (codes "unknown escape") (e ∷ t) 1
]

-- The loop of `string`, with `skip` characters of an escape that are read already.
unfoldable pub string_from : ℕ → Text → Read Text
unfolding prepend escaped
string_from skip [] = failed (codes "unterminated string") [] 0
string_from (suc skip) (c ∷ s) = string_from skip s
string_from zero (c ∷ s) =
    let plain = prepend c (string_from zero s) in
    let behind = escaped s (λ skip. string_from skip s) in
    if c == b'"' then got [] s else if c == b'\\' then behind else plain
