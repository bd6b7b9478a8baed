-- ===== src/Relocate.antt =====
-- src/relocate.rs: package relocation in a fat jar. A text is its UTF-8 bytes.
pub mod Rewrite
pub mod ClassFile
mod Examples
use jrs.Prelude.{
  ℕ, zero, suc, Text, codes, Bool, true, false, not, ◌&&◌, ◌||◌, ◌==◌, nat_eq, list_eq, Option,
  none, some, List, ◌∷◌, [], ◌++◌, map, any, if◌then◌else◌, replace, starts_with, ends_with, length,
  take, ◌-◌, leb, ltb, nat_beq, get_elem?,
}

abbrev pub Bytes : Type 0
Bytes = Text

-- A `[package.relocate]` entry of the manifest.
pub record Relocation : Type 0 where
  pub from : Bytes
  pub to : Bytes
  pub exclude : List Bytes

pub data Exclude : Type 0 where
  class_named : Bytes → Exclude
  in_package : Bytes → Exclude

-- `from` and `to` each in their slashed and their dotted form.
pub record Rule : Type 0 where
  pub from : Bytes × Bytes
  pub to : Bytes × Bytes
  pub exclude : List Exclude

pub data Context : Type 0 where
  constant whole text : Context

unfoldable pub slashed : Bytes → Bytes
slashed = replace (codes ".") (codes "/")

exclude_of : Bytes → Exclude
exclude_of e =
    if ends_with e (codes ".*")
    then in_package (take (length e - 2) e ++ b'.' ∷ [])
    else class_named e

pub rule_of : Relocation → Rule
rule_of r = record {
  from = (slashed r.from, r.from);
  to = (slashed r.to, r.to);
  exclude = map exclude_of r.exclude;
}

-- A stable sort by `Reverse(from[0].len())`.
insert_rule : Rule → List Rule → List Rule
insert_rule r [] = r ∷ []
insert_rule r (q ∷ qs) =
    let rest = insert_rule r qs in
    if leb (length q.from.0) (length r.from.0) then r ∷ q ∷ qs else q ∷ rest

sort_rules : List Rule → List Rule
sort_rules [] = []
sort_rules (r ∷ rs) = insert_rule r (sort_rules rs)

-- `Relocator::new`.
unfoldable pub relocator : List Relocation → List Rule
unfolding rule_of exclude_of sort_rules insert_rule
relocator relocations = sort_rules (map rule_of relocations)

abbrev pub is_name_byte : ℕ → Bool
is_name_byte b =
    (leb b'0' b && leb b b'9')
    || (leb b'A' b && leb b b'Z')
    || (leb b'a' b && leb b b'z')
    || b == b'_'
    || b == b'$'
    || leb 0x80 b

unfoldable pub name_at : Bytes → ℕ → Bytes
name_at [] separator = []
name_at (b ∷ bytes) separator =
    let rest = name_at bytes separator in
    if is_name_byte b || b == separator then (if b == b'/' then b'.' else b) ∷ rest else []

excluded_by_one : Bytes → Exclude → Bool
excluded_by_one dotted (class_named c) =
    dotted == c
    || (starts_with dotted c
        && (elim (get_elem? dotted (length c)) [ none ↦ false | some b ↦ b == b'$' ]))
excluded_by_one dotted (in_package prefix) = starts_with dotted prefix

unfoldable pub excludes : Rule → Bytes → Bool
unfolding excluded_by_one
excludes rule dotted = any (excluded_by_one dotted) rule.exclude

abbrev before_class_type : Bytes
before_class_type = codes "();<>:^+-*"

abbrev type_prefix : Bytes
type_prefix = codes "BCDFIJSZ["

-- Back from an `L`, over what comes before it, nearest first.
opens_type : Bytes → Bool
opens_type [] = true
opens_type (b ∷ before) =
    let further = opens_type before in
    if any (λ c. c == b) type_prefix then further else any (λ c. c == b) before_class_type

-- Whether a name can start behind `before`, which is read backwards: `text[i - 1]` comes first.
unfoldable pub can_start : Bytes → Context → Bool
unfolding opens_type
can_start [] context = true
can_start (b ∷ before) whole = false
can_start (b ∷ before) text = not (is_name_byte b) && not (b == b'.') && not (b == b'/')
can_start (b ∷ before) constant =
    if (elim before [ [] ↦ true | _ ∷ _ ↦ false ]) && b == b'/'
    then true
    else if b == b'L'
    then opens_type before
    else false
