-- ===== src/Relocate/Rewrite.antt =====
-- src/relocate.rs, `match_at` and `rewrite`: the names of a text rewritten. `rest` is
-- `text[i..]`, and `before` is `text[..i]` read backwards.
pub mod Slices
pub mod Named
pub mod Bytewise
use jrs.Prelude.{
  ℕ, zero, suc, codes, Bool, true, false, not, ◌&&◌, ◌||◌, ◌==◌, nat_eq, Option, none, some, List,
  ◌∷◌, [], ◌++◌, if◌then◌else◌, starts_with, length, take, drop, ◌-◌, ◌+◌, ltb, get_elem?, all,
  is_ascii_digit, is_empty,
}
use mathlib.Core.List.{reverse}
use jrs.Relocate.{Bytes, Rule, Context, whole, text, can_start, excludes, name_at}

-- One form of a rule: the byte behind the package must be its separator, or, for a dotted package
-- that is the whole text, nothing.
unfoldable pub match_form : Rule → Bytes → ℕ → ℕ → Bytes → Bytes → Option (ℕ × Bytes)
match_form rule rest i separator from to =
    if starts_with rest from
      && (elim (get_elem? rest (length from)) [
        | some next ↦ next == separator
        | none ↦ i == 0 && separator == b'.'
      ])
      && not (excludes rule (name_at rest separator))
    then some (length from, to)
    else none

abbrev pub or_else {ℓ} : {A : Type ℓ} → Option A → Option A → Option A
or_else (some a) other = some a
or_else none other = other

unfoldable pub match_at : List Rule → Bytes → ℕ → Option (ℕ × Bytes)
unfolding match_form
match_at [] rest i = none
match_at (r ∷ rs) rest i =
    or_else (match_form r rest i b'/' r.from.0 r.to.0)
      (or_else (match_form r rest i b'.' r.from.1 r.to.1) (match_at rs rest i))

-- What stands at byte `i`, if a name can start there and a rule matches it.
unfoldable pub match_here : List Rule → Context → Bytes → ℕ → Option (ℕ × Bytes)
match_here rules context bytes i =
    if can_start (reverse (take i bytes)) context then match_at rules (drop i bytes) i else none

-- The variables of `rewrite`.
pub record Rewriting : Type 0 where
  pub out : Option Bytes
  pub copied : ℕ
  pub i : ℕ

abbrev pub or_nothing : Option Bytes → Bytes
or_nothing none = []
or_nothing (some o) = o

-- `text[from..to]`.
abbrev pub between : ℕ → ℕ → Bytes → Bytes
between from to bytes = take (to - from) (drop from bytes)

unfoldable pub advance : Bytes → Rewriting → Option (ℕ × Bytes) → Rewriting
advance bytes s none = record s { i = s.i + 1 }
advance bytes s (some (consumed, replacement)) = record {
  out = some (or_nothing s.out ++ (between s.copied s.i bytes ++ replacement));
  copied = s.i + consumed;
  i = s.i + consumed;
}

-- The `while` loop, with fuel; `none` means that the fuel ran out.
unfoldable pub scan : ℕ → List Rule → Context → Bytes → Rewriting → Option Rewriting
unfolding advance match_here
scan zero rules context bytes s = if ltb s.i (length bytes) then none else some s
scan (suc f) rules context bytes s =
    let rest = scan f rules context bytes (advance bytes s (match_here rules context bytes s.i)) in
    if ltb s.i (length bytes) then rest else some s

abbrev pub start : Rewriting
start = record { out = none; copied = 0; i = 0 }

abbrev pub finish : Bytes → Rewriting → Option Bytes
finish bytes s = elim s.out [ none ↦ none | some o ↦ some (o ++ drop s.copied bytes) ]

abbrev pub ended : Bytes → Option Rewriting → Option Bytes
ended bytes none = none
ended bytes (some s) = finish bytes s

-- Each round passes a byte at least, so a round for each byte is enough. Without an end within them,
-- the answer is that nothing was rewritten; `Bytewise` shows that this does not come up.
unfoldable pub rewrite : List Rule → Bytes → Context → Option Bytes
unfolding scan
rewrite rules bytes context = ended bytes (scan (length bytes) rules context bytes start)

abbrev pub rewritten_or : Option Bytes → Bytes → Bytes
rewritten_or none bytes = bytes
rewritten_or (some out) bytes = out

-- `Relocator::whole` and `class_name`.
unfoldable pub class_name : List Rule → Bytes → Bytes
unfolding rewrite
class_name rules name = rewritten_or (rewrite rules name whole) name

-- `Relocator::text`.
unfoldable pub registry : List Rule → Bytes → Bytes
unfolding rewrite
registry [] bytes = bytes
registry (r ∷ rs) bytes = rewritten_or (rewrite (r ∷ rs) bytes text) bytes

abbrev services : Bytes
services = codes "META-INF/services/"

abbrev versions : Bytes
versions = codes "META-INF/versions/"

-- `rest.split_once('/')`.
split_once : Bytes → Option (Bytes × Bytes)
split_once [] = none
split_once (b ∷ bytes) =
    let rest = split_once bytes in
    if b == b'/'
    then some ([], bytes)
    else elim rest [ none ↦ none | some (version, path) ↦ some (b ∷ version, path) ]

versioned : List Rule → Bytes → Option (Bytes × Bytes) → Bytes
unfolding class_name
versioned rules name none = class_name rules name
versioned rules name (some (version, path)) =
    if not (is_empty version) && all is_ascii_digit version
    then versions ++ (version ++ b'/' ∷ class_name rules path)
    else class_name rules name

unfoldable pub entry_name : List Rule → Bytes → Bytes
unfolding class_name versioned split_once
entry_name [] name = name
entry_name (r ∷ rs) name =
    if starts_with name services
    then services ++ class_name (r ∷ rs) (drop (length services) name)
    else if starts_with name versions
    then versioned (r ∷ rs) name (split_once (drop (length versions) name))
    else class_name (r ∷ rs) name
