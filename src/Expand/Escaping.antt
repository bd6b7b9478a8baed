-- ===== src/Expand/Escaping.antt =====
-- Any text can be written so that it expands to itself.
use jrs.Prelude.{
  ℕ, zero, Text, codes, false, ◌==◌, nat_eq, List, ◌∷◌, [], if◌then◌else◌, ◌+◌, ◌≡◌, refl, arith,
  starts_with,
}
use jrs.Expand.{Expansion, expanded, prepend, expand_from, expand}

-- A `\` before each `$`.
unfoldable pub escape : Text → Text
escape [] = []
escape (c ∷ s) = let rest = escape s in if c == b'$' then b'\\' ∷ b'$' ∷ rest else c ∷ rest

escape_starts : (s : Text) → starts_with (escape s) (codes "$") ≡ false
unfolding escape starts_with
escape_starts [] = refl
escape_starts (c ∷ s) = ground arith

expand_from-escape :
    (properties : List (Text × Text)) (line : ℕ) (s : Text)
    → expand_from properties line zero (escape s) ≡ expanded s
unfolding escape expand_from prepend starts_with
expand_from-escape properties line [] = refl
expand_from-escape properties line (c ∷ s) = ground (
  arith,
  escape_starts s,
  expand_from-escape properties line s,
  expand_from-escape properties (line + 1) s,
)

-- A text with a `\` put before each `$` expands to the text itself, whatever the properties are.
pub expand-escape : (e : Expansion) (s : Text) → expand e (escape s) ≡ expanded s
unfolding expand
expand-escape e s = expand_from-escape e.properties 1 s
