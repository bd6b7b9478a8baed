-- ===== src/Json.antt =====
-- src/json.rs: JSON values, and the writer. A text is its characters.
pub mod Reader
pub mod Parser
mod Examples
use jrs.Prelude.{
  ℕ, zero, suc, Text, codes, Bool, true, false, ◌||◌, ◌&&◌, ◌==◌, nat_eq, list_eq, Option, none,
  some, List, ◌∷◌, [], ◌++◌, if◌then◌else◌, ◌+◌, ◌-◌, ◌/◌, ◌%◌, ltb, leb, decimal,
}

-- `negsuc n` is -(n + 1).
pub data ℤ : Type 0 where
  pos negsuc : ℕ → ℤ

-- The lists of an array and an object are data types of their own.
mutual
  pub data Json : Type 0 where
    null : Json
    bool : Bool → Json
    int : ℤ → Json
    str : Text → Json
    array : Items → Json
    object : Pairs → Json

  pub data Items : Type 0 where
    no_items : Items
    item : Json → Items → Items

  pub data Pairs : Type 0 where
    no_pairs : Pairs
    pair : Text → Json → Pairs → Pairs

find_pair : Text → Pairs → Option Json
find_pair key no_pairs = none
find_pair key (pair k v ps) = if k == key then some v else find_pair key ps

-- `Json::get`, `Json::as_str` and `Json::items`.
unfoldable pub get : Json → Text → Option Json
unfolding find_pair
get (object ps) key = find_pair key ps
get _ key = none

unfoldable pub as_str : Json → Option Text
as_str (str s) = some s
as_str _ = none

unfoldable pub items : Json → Items
items (array xs) = xs
items _ = no_items

-- `{n}` on an i64.
unfoldable pub display_int : ℤ → Text
unfolding decimal
display_int (pos n) = decimal n
display_int (negsuc n) = b'-' ∷ decimal (n + 1)

-- A hexadecimal digit, in lower case.
abbrev pub hex_digit : ℕ → ℕ
hex_digit n = if ltb n 10 then b'0' + n else b'a' + (n - 10)

-- `{:04x}`, on a number below 0x10000.
abbrev pub hex4 : ℕ → Text
hex4 n =
    hex_digit (n / 4096 % 16)
    ∷ hex_digit (n / 256 % 16)
    ∷ hex_digit (n / 16 % 16)
    ∷ hex_digit (n % 16)
    ∷ []

abbrev pub is_escaped : ℕ → Bool
is_escaped c = ltb c 0x20 || c == 0x7f || c == 0x2028 || c == 0x2029

unfoldable pub escape_char : ℕ → Text
escape_char c =
    if c == b'"'
    then codes "\\\""
    else if c == b'\\'
    then codes "\\\\"
    else if c == b'\n'
    then codes "\\n"
    else if c == b'\r'
    then codes "\\r"
    else if c == b'\t'
    then codes "\\t"
    else if c == 8
    then codes "\\b"
    else if c == 12
    then codes "\\f"
    else if is_escaped c
    then codes "\\u" ++ hex4 c
    else c ∷ []

unfoldable pub escape_chars : Text → Text
unfolding escape_char
escape_chars [] = []
escape_chars (c ∷ s) = escape_char c ++ escape_chars s

-- `escape`; `escape_into` writes the same behind what there is.
unfoldable pub escape : Text → Text
unfolding escape_chars
escape s = b'"' ∷ (escape_chars s ++ b'"' ∷ [])

unfoldable pub indent : ℕ → Text
indent zero = []
indent (suc depth) = b' ' ∷ b' ' ∷ indent depth

-- What `write` puts behind the text so far. The items behind the first come with their commas.
unfoldable mutual
  unfolding escape indent display_int

  pub write : Json → ℕ → Text
  write null depth = codes "null"
  write (bool b) depth = if b then codes "true" else codes "false"
  write (int n) depth = display_int n
  write (str s) depth = escape s
  write (array no_items) depth = codes "[]"
  write (array (item x xs)) depth =
      codes "[\n"
      ++ (indent (suc depth)
          ++ (write x (suc depth)
              ++ (write_items xs (suc depth) ++ b'\n' ∷ (indent depth ++ b']' ∷ []))))
  write (object no_pairs) depth = codes "{}"
  write (object (pair k v ps)) depth =
      codes "{\n"
      ++ (indent (suc depth)
          ++ (escape k
              ++ (codes ": "
                  ++ (write v (suc depth)
                      ++ (write_pairs ps (suc depth) ++ b'\n' ∷ (indent depth ++ b'}' ∷ []))))))

  pub write_items : Items → ℕ → Text
  write_items no_items depth = []
  write_items (item x xs) depth =
      codes ",\n" ++ (indent depth ++ (write x depth ++ write_items xs depth))

  pub write_pairs : Pairs → ℕ → Text
  write_pairs no_pairs depth = []
  write_pairs (pair k v ps) depth =
      codes ",\n"
      ++ (indent depth ++ (escape k ++ (codes ": " ++ (write v depth ++ write_pairs ps depth))))

unfoldable pub render : Json → Text
unfolding write
render j = write j 0 ++ b'\n' ∷ []
