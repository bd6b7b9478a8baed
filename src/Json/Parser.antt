-- ===== src/Json/Parser.antt =====
-- src/json.rs: numbers, words, arrays, objects and documents.
pub mod Scalars
pub mod Layout
pub mod Fuel
pub mod Pieces
pub mod RoundTrip
pub mod Leaves
pub mod Total
use jrs.Prelude.{
  ℕ, zero, suc, Text, codes, Bool, true, false, ◌||◌, ◌&&◌, ◌==◌, nat_eq, list_eq, Option, none,
  some, List, ◌∷◌, [], ◌++◌, if◌then◌else◌, ◌+◌, ◌-◌, ◌*◌, ◌^◌, ltb, leb, length, drop, starts_with,
  digits_value, is_ascii_digit, decimal,
}
use jrs.Json.{
  ℤ, pos, negsuc, Json, null, bool, int, str, array, object, Items, no_items, item, Pairs, no_pairs,
  pair,
}
use jrs.Json.Reader.{Read, got, failed, out_of_fuel, ◌>>=◌, space, eat_colon, string_from}

abbrev pub is_number_char : ℕ → Bool
is_number_char c = c == b'-' || c == b'+' || c == b'.' || c == b'e' || c == b'E' || is_ascii_digit c

unfoldable pub number_text : Text → Text
number_text [] = []
number_text (c ∷ s) = let rest = number_text s in if is_number_char c then c ∷ rest else []

unfoldable pub after_number : Text → Text
after_number [] = []
after_number (c ∷ s) = let rest = after_number s in if is_number_char c then rest else c ∷ s

pub negated : Option ℕ → Option ℤ
negated none = none
negated (some zero) = some (pos 0)
negated (some (suc n)) = some (negsuc n)

pub non_negative : Option ℕ → Option ℤ
non_negative none = none
non_negative (some n) = some (pos n)

-- The digits of a number; there is one at least.
pub digits_within : ℕ → Text → Option ℕ
digits_within limit [] = none
digits_within limit (c ∷ s) = digits_value limit 0 (c ∷ s)

-- `parse` into an i64.
unfoldable pub parse_i64 : Text → Option ℤ
unfolding negated non_negative digits_within
parse_i64 [] = none
parse_i64 (c ∷ s) =
    if c == b'-'
    then negated (digits_within (2 ^ 63) s)
    else if c == b'+'
    then non_negative (digits_within (2 ^ 63 - 1) s)
    else non_negative (digits_within (2 ^ 63 - 1) (c ∷ s))

unfoldable pub number_value : Text → Json
unfolding parse_i64
number_value s = elim (parse_i64 s) [ some n ↦ int n | none ↦ str s ]

abbrev pub word : Text → Json → Text → Read Json
word expected value s =
    if starts_with s expected
    then got value (drop (length expected) s)
    else failed (codes "unexpected character") s 0

abbrev pub max_depth : ℕ
max_depth = 128

abbrev pub string_value : Text → Read Json
string_value s = string_from 0 s >>= λ t rest. got (str t) rest

abbrev pub number : Text → Read Json
number s = got (number_value (number_text s)) (after_number s)

-- A value that is neither an array nor an object, from its first character on.
unfoldable pub scalar : ℕ → Text → Read Json
unfolding number_value number_text after_number string_from
scalar c s =
    if c == b'"'
    then string_value s
    else if c == b't'
    then word (codes "true") (bool true) (c ∷ s)
    else if c == b'f'
    then word (codes "false") (bool false) (c ∷ s)
    else if c == b'n'
    then word (codes "null") null (c ∷ s)
    else if c == b'-' || is_ascii_digit c
    then number (c ∷ s)
    else failed (codes "unexpected character") (c ∷ s) 0

abbrev too_deep : Text
too_deep = codes "nested too deeply"

-- `value`, `array` and `object`, with fuel; `depth` is how many arrays and objects are open.
unfoldable mutual
  unfolding space eat_colon scalar

  pub value : ℕ → ℕ → Text → Read Json
  value zero depth s = out_of_fuel
  value (suc f) depth s = elim (space s) [
    | [] ↦ failed (codes "unexpected end") [] 0
    | c ∷ t ↦
        let items = elements_first f (suc depth) (space t) >>= λ xs rest. got (array xs) rest in
        let fields = members_first f (suc depth) (space t) >>= λ ps rest. got (object ps) rest in
        if c == b'{'
        then if ltb max_depth (suc depth) then failed too_deep (c ∷ t) 0 else fields
        else if c == b'['
        then if ltb max_depth (suc depth) then failed too_deep (c ∷ t) 0 else items
        else scalar c t
  ]

  -- Behind the bracket: an empty array, or the loop.
  pub elements_first : ℕ → ℕ → Text → Read Items
  elements_first zero depth s = out_of_fuel
  elements_first (suc f) depth s = elim s [
    | [] ↦ elements f depth []
    | c ∷ t ↦ let more = elements f depth (c ∷ t) in if c == b']' then got no_items t else more
  ]

  pub elements : ℕ → ℕ → Text → Read Items
  elements zero depth s = out_of_fuel
  elements (suc f) depth s = value f depth s >>= λ x rest. elim (space rest) [
    | [] ↦ failed (codes "expected `,` or `]`") [] 0
    | c ∷ t ↦
        let more = elements f depth t >>= λ xs rest. got (item x xs) rest in
        if c == b','
        then more
        else if c == b']'
        then got (item x no_items) t
        else failed (codes "expected `,` or `]`") (c ∷ t) 0
  ]

  pub members_first : ℕ → ℕ → Text → Read Pairs
  members_first zero depth s = out_of_fuel
  members_first (suc f) depth s = elim s [
    | [] ↦ members f depth []
    | c ∷ t ↦ let more = members f depth (c ∷ t) in if c == b'}' then got no_pairs t else more
  ]

  pub members : ℕ → ℕ → Text → Read Pairs
  members zero depth s = out_of_fuel
  members (suc f) depth s = elim (space s) [
    | [] ↦ failed (codes "expected a key") [] 0
    | q ∷ t ↦
        let found =
          string_from 0 t >>= λ k after. eat_colon after >>= λ _ at. member f depth k at in
        if q == b'"' then found else failed (codes "expected a key") (q ∷ t) 0
  ]

  -- Behind the colon.
  pub member : ℕ → ℕ → Text → Text → Read Pairs
  member zero depth k s = out_of_fuel
  member (suc f) depth k s = value f depth s >>= λ v rest. elim (space rest) [
    | [] ↦ failed (codes "expected `,` or `}`") [] 0
    | c ∷ t ↦
        let more = members f depth t >>= λ ps rest. got (pair k v ps) rest in
        if c == b','
        then more
        else if c == b'}'
        then got (pair k v no_pairs) t
        else failed (codes "expected `,` or `}`") (c ∷ t) 0
  ]

-- The end of a document.
pub finished : Json → Text → Read Json
finished j [] = got j []
finished j (c ∷ s) = failed (codes "text after the document") (c ∷ s) 0

-- Each call but the last of a chain of three reads a character.
abbrev pub enough : Text → ℕ
enough s = 3 * length s + 4

-- `Json::parse`, before its message is made.
unfoldable pub read_document : Text → Read Json
unfolding value finished
read_document s = value (enough s) 0 s >>= λ j rest. finished j (space rest)

-- The bytes of a text in UTF-8.
utf8_len : ℕ → ℕ
utf8_len c = if ltb c 0x80 then 1 else if ltb c 0x800 then 2 else if ltb c 0x10000 then 3 else 4

pub byte_len : Text → ℕ
byte_len [] = 0
byte_len (c ∷ s) = utf8_len c + byte_len s

pub data Document : Type 0 where
  document : Json → Document
  is_no_json : Text → Document

message : Text → Read Json → Document
message s (got j rest) = document j
message s (failed what left past) =
    is_no_json (what ++ (codes " at byte " ++ decimal (byte_len s - byte_len left + past)))
message s out_of_fuel = is_no_json []

-- `Json::parse`.
unfoldable pub parse : Text → Document
unfolding read_document message byte_len utf8_len
parse s = message s (read_document s)
