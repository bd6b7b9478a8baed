-- ===== src/Prelude/Texts.antt =====
-- Texts as lists of code points, with the operations of `str` that the program uses.
use Prim.Native.Nat.{ℕ, zero, suc, ◌+◌, ◌-◌, ◌*◌}
use Prim.Native.Char.{code}
use Prim.Native.String.{String}
use mathlib.Core.Bool.{Bool, true, false, ◌&&◌, ◌||◌}
use mathlib.Core.Option.{Option, none, some}
use mathlib.Core.List.{List, [], ◌∷◌, ◌++◌, map, reverse}
use jrs.Prelude.Lists.{length}
use jrs.Prelude.Tests.{leb, nat_beq, if◌then◌else◌}

abbrev pub Text : Type 0
Text = List ℕ

abbrev pub codes : String → Text
codes (String.◌∷◌ first rest) = code first ∷ codes rest
codes String.[] = []

abbrev within : ℕ → ℕ → ℕ → Bool
within lo hi c = leb lo c && leb c hi

-- `char::is_whitespace`: the Unicode property White_Space.
unfoldable pub is_whitespace : ℕ → Bool
is_whitespace c =
    within 9 13 c
    || nat_beq c 0x20
    || nat_beq c 0x85
    || nat_beq c 0xA0
    || nat_beq c 0x1680
    || within 0x2000 0x200A c
    || within 0x2028 0x2029 c
    || nat_beq c 0x202F
    || nat_beq c 0x205F
    || nat_beq c 0x3000

unfoldable pub trim_start : Text → Text
unfolding is_whitespace
trim_start [] = []
trim_start (c ∷ s) = let rest = trim_start s in if is_whitespace c then rest else c ∷ s

unfoldable pub trim : Text → Text
unfolding trim_start
trim s = reverse (trim_start (reverse (trim_start s)))

abbrev pub is_ascii_digit : ℕ → Bool
is_ascii_digit c = within b'0' b'9' c

abbrev pub to_lowercase : ℕ → ℕ
to_lowercase c = if within b'A' b'Z' c then c + 32 else c

unfoldable pub to_ascii_lowercase : Text → Text
to_ascii_lowercase = map to_lowercase

unfoldable pub starts_with : Text → Text → Bool
starts_with s [] = true
starts_with [] (p ∷ ps) = false
starts_with (c ∷ s) (p ∷ ps) = nat_beq c p && starts_with s ps

-- `s.split(sep)`: always at least one part.
unfoldable pub split : ℕ → Text → List Text
split sep [] = [] ∷ []
split sep (c ∷ s) = elim (split sep s) [
  | [] ↦ [] ∷ []
  | p ∷ ps ↦ if nat_beq c sep then [] ∷ p ∷ ps else (c ∷ p) ∷ ps
]

-- `parts.join(sep)`.
unfoldable pub join : Text → List Text → Text
join sep [] = []
join sep (p ∷ ps) = elim ps [ [] ↦ p | _ ∷ _ ↦ p ++ (sep ++ join sep ps) ]

-- `s.splitn(n, sep)`: at most `n` parts, the last of which holds the rest. `splitn n` has one part
-- to fill and `n` more to open.
unfoldable pub splitn_from : ℕ → ℕ → Text → Text → List Text
splitn_from n sep part [] = part ∷ []
splitn_from zero sep part (c ∷ s) = (part ++ c ∷ s) ∷ []
splitn_from (suc n) sep part (c ∷ s) =
    let cut = part ∷ splitn_from n sep [] s in
    let longer = splitn_from (suc n) sep (part ++ c ∷ []) s in if nat_beq c sep then cut else longer

-- Whether `needle` starts `s` somewhere: `s.contains(needle)`.
unfoldable pub contains_text : Text → Text → Bool
unfolding starts_with
contains_text needle [] = starts_with [] needle
contains_text needle (c ∷ s) = starts_with (c ∷ s) needle || contains_text needle s

-- `s.replace(from, to)`, with `skip` characters of the last match still to pass over.
unfoldable pub replace_from : Text → Text → ℕ → Text → Text
unfolding starts_with
replace_from from to skip [] = []
replace_from from to (suc skip) (c ∷ s) = replace_from from to skip s
replace_from from to zero (c ∷ s) =
    let matched = to ++ replace_from from to (length from - 1) s in
    let kept = c ∷ replace_from from to zero s in if starts_with (c ∷ s) from then matched else kept

-- `from` is not empty.
abbrev pub replace : Text → Text → Text → Text
replace from to s = replace_from from to zero s

-- `s.ends_with(suffix)`.
unfoldable pub ends_with : Text → Text → Bool
unfolding starts_with
ends_with s suffix = starts_with (reverse s) (reverse suffix)

abbrev pub is_empty : Text → Bool
is_empty [] = true
is_empty (c ∷ s) = false

unfoldable pub digits_value : ℕ → ℕ → Text → Option ℕ
digits_value limit n [] = if leb n limit then some n else none
digits_value limit n (c ∷ s) =
    if is_ascii_digit c && leb n limit then digits_value limit (n * 10 + (c - b'0')) s else none

-- `s.parse()` into an unsigned integer with `limit` for its largest value: a `+` and digits.
unfoldable pub parse_unsigned : ℕ → Text → Option ℕ
unfolding digits_value
parse_unsigned limit [] = none
parse_unsigned limit (c ∷ []) = digits_value limit 0 (c ∷ [])
parse_unsigned limit (c ∷ d ∷ s) =
    if nat_beq c b'+' then digits_value limit 0 (d ∷ s) else digits_value limit 0 (c ∷ d ∷ s)
