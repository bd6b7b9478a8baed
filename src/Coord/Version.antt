-- ===== src/Coord/Version.antt =====
-- src/resolve/coord.rs, "version ordering": how a version is cut into items, and how two versions
-- compare.
mod Padded
pub mod Order
pub mod Comparing
pub mod Tokens
use jrs.Prelude.{
  ℕ, zero, suc, ◌-◌, ◌^◌, ◌≡◌, refl, Bool, false, not, ◌&&◌, ◌||◌, Option, none, some, List, [],
  ◌∷◌, ◌++◌, Text, codes, ◌==◌, list_eq, nat_eq, if◌then◌else◌, is_ascii_digit, is_empty,
  parse_unsigned, trim, to_ascii_lowercase, length, get_elem?, max, compare, Ordering, compare_list,
  then_with,
}
use mathlib.Core.Option.{get_or}
use mathlib.Core.Bool.{xor}

pub data Item : Type 0 where
  num : ℕ → Item
  qualifier : Text → Item

-- `QUALIFIERS`, weakest first, and `position`.
abbrev pub qualifiers : List Text
qualifiers =
    codes "alpha"
    ∷ codes "beta"
    ∷ codes "milestone"
    ∷ codes "rc"
    ∷ codes "snapshot"
    ∷ []
    ∷ codes "sp"
    ∷ []

abbrev pub position : ℕ → Text → List Text → Option ℕ
position i s [] = none
position i s (q ∷ qs) = if q == s then some i else position (suc i) s qs

unfoldable pub qualifier_rank : Text → Option ℕ
qualifier_rank s = position 0 s qualifiers

unfoldable pub canonical_qualifier : Text → Text
canonical_qualifier s =
    if s == codes "a"
    then codes "alpha"
    else if s == codes "b"
    then codes "beta"
    else if s == codes "m"
    then codes "milestone"
    else if s == codes "cr"
    then codes "rc"
    else if s == codes "ga" || s == codes "final" || s == codes "release"
    then []
    else s

abbrev pub u64_max : ℕ
u64_max = 2 ^ 64 - 1

-- The state of the loop of `tokenize`.
pub record Scan : Type 0 where
  pub items : List Item
  pub buf : Text
  pub buf_is_digit : Bool

-- `flush`: the item in the buffer, if it holds one, goes behind the others.
pub flush : Scan → Scan
flush s = if is_empty s.buf then s else record s {
  buf = [];
  items =
      s.items
      ++ (if s.buf_is_digit
          then num (get_or (parse_unsigned u64_max s.buf) u64_max)
          else qualifier (canonical_qualifier s.buf))
        ∷ [];
}

abbrev pub is_separator : ℕ → Bool
is_separator ch = ch == b'.' || ch == b'-' || ch == b'_' || ch == b'+'

pub push : Scan → ℕ → Scan
push s ch =
    let digit = is_ascii_digit ch in
    let s' = if not (is_empty s.buf) && xor digit s.buf_is_digit then flush s else s in
    record s' { buf = s'.buf ++ ch ∷ []; buf_is_digit = digit }

pub scan : Scan → Text → Scan
scan s [] = s
scan s (ch ∷ rest) = scan (if is_separator ch then flush s else push s ch) rest

abbrev pub start : Scan
start = record { items = []; buf = []; buf_is_digit = false }

-- The loop and the last `flush`.
unfoldable pub items_of : Text → List Item
items_of chars = (flush (scan start chars)).items

unfoldable pub tokenize : Text → List Item
tokenize version = items_of (to_ascii_lowercase (trim version))

-- The `match` of `compare_qualifiers`, over the two ranks.
pub compare_ranks : Text → Text → Option ℕ → Option ℕ → Ordering
compare_ranks a b (some x) (some y) = compare x y
compare_ranks a b (some _) none = Ordering.lt
compare_ranks a b none (some _) = Ordering.gt
compare_ranks a b none none = compare_list compare a b

unfoldable pub compare_qualifiers : Text → Text → Ordering
compare_qualifiers a b = compare_ranks a b (qualifier_rank a) (qualifier_rank b)

unfoldable pub compare_items : Option Item → Option Item → Ordering
compare_items none none = Ordering.eq
compare_items (some (num n)) none = compare n 0
compare_items none (some (num n)) = compare 0 n
compare_items (some (qualifier q)) none = compare_qualifiers q []
compare_items none (some (qualifier q)) = compare_qualifiers [] q
compare_items (some (num x)) (some (num y)) = compare x y
compare_items (some (qualifier x)) (some (qualifier y)) = compare_qualifiers x y
compare_items (some (num _)) (some (qualifier _)) = Ordering.gt
compare_items (some (qualifier _)) (some (num _)) = Ordering.lt

-- The loop of `compare_versions`, with the number of rounds left and the index.
unfoldable pub compare_from : ℕ → ℕ → List Item → List Item → Ordering
compare_from zero i x y = Ordering.eq
compare_from (suc n) i x y =
    let rest = compare_from n (suc i) x y in
    then_with (compare_items (get_elem? x i) (get_elem? y i)) rest

abbrev pub compare_tokens : List Item → List Item → Ordering
compare_tokens x y = compare_from (max (length x) (length y)) 0 x y

unfoldable pub compare_versions : Text → Text → Ordering
compare_versions a b = if a == b then Ordering.eq else compare_tokens (tokenize a) (tokenize b)

-- What a test opens, to run the comparison.
unfoldable pub program : Unit {0}
unfolding compare_versions compare_from compare_items compare_qualifiers compare_ranks
    qualifier_rank tokenize items_of scan push flush canonical_qualifier xor parse_unsigned trim
    to_ascii_lowercase
program = tt
