-- ===== src/Expand.antt =====
-- src/expand.rs: `${name}` in resources.
pub mod Glob
pub mod Escaping
mod Examples
use jrs.Prelude.{
  ℕ, zero, suc, Text, codes, Bool, true, false, not, ◌&&◌, ◌||◌, ◌==◌, nat_eq, list_eq, Option,
  none, some, List, ◌∷◌, [], ◌++◌, any, all, if◌then◌else◌, length, drop, ◌+◌, trim, lookup,
  is_empty, starts_with,
}
use jrs.Expand.Glob.{glob_matches}

pub record Expansion : Type 0 where
  pub patterns : List Text
  pub properties : List (Text × Text)

unfoldable pub applies_to : Expansion → Text → Bool
applies_to e relative = any (λ p. glob_matches p relative) e.patterns

-- The expanded text, or the line and what is wrong with it.
pub data Expanded : Type 0 where
  expanded : Text → Expanded
  not_closed : ℕ → Expanded
  unknown_property : ℕ → Text → Expanded

unfoldable pub prepend : Text → Expanded → Expanded
prepend s (expanded out) = expanded (s ++ out)
prepend s (not_closed line) = not_closed line
prepend s (unknown_property line name) = unknown_property line name

-- The name before the first `}`, if that is on the line.
unfoldable pub name_before_brace : Text → Option Text
name_before_brace [] = none
name_before_brace (c ∷ s) =
    let rest = name_before_brace s in
    if c == b'}'
    then some []
    else if c == b'\n'
    then none
    else elim rest [ none ↦ none | some name ↦ some (c ∷ name) ]

-- The loop of `expand`, with `skip` characters that are read already.
unfoldable pub expand_from : List (Text × Text) → ℕ → ℕ → Text → Expanded
unfolding prepend
expand_from properties line skip [] = expanded []
expand_from properties line (suc skip) (c ∷ s) = expand_from properties line skip s
expand_from properties line zero (c ∷ s) =
    let next_line = prepend (b'\n' ∷ []) (expand_from properties (line + 1) zero s) in
    let unescaped = prepend (b'$' ∷ []) (expand_from properties line 1 s) in
    let kept = prepend (c ∷ []) (expand_from properties line zero s) in
    let after = drop 1 s in
    let replaced =
      λ (name value : Text). prepend value (expand_from properties line (length name + 2) s) in
    if c == b'\n'
    then next_line
    else if c == b'\\' && starts_with s (codes "$")
    then unescaped
    else if c == b'$' && starts_with s (codes "{")
    then elim (name_before_brace after) [
      | none ↦ not_closed line
      | some name ↦ elim (lookup (trim name) properties) [
        | none ↦ unknown_property line (trim name)
        | some value ↦ replaced name value
      ]
    ]
    else kept

unfoldable pub expand : Expansion → Text → Expanded
unfolding expand_from
expand e s = expand_from e.properties 1 zero s

-- `char::is_alphanumeric` is Unicode's.
unfoldable pub valid_property_name : (ℕ → Bool) → Text → Bool
valid_property_name is_alphanumeric name =
    not (is_empty name) && all (λ c. is_alphanumeric c || c == b'.' || c == b'-' || c == b'_') name
