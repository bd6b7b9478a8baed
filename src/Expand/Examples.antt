-- ===== src/Expand/Examples.antt =====
-- Runs of `${name}` expansion and of glob matching (src/expand.rs).
use jrs.Prelude.{codes, true, false, ◌∷◌, [], ◌≡◌, refl, lookup, trim, starts_with, split}
use jrs.Expand.{
  Expansion, expanded, unknown_property, expand, expand_from, prepend, name_before_brace,
}
use jrs.Expand.Escaping.{escape, expand-escape}
use jrs.Expand.Glob.{segment_matches, glob_matches, advance, segments_match}
use jrs.Expand.Glob.Meaning.{matches}
use jrs.Expand.Glob.Matching.{segment_matches-eq, segment_matches-literal_star}

abbrev version : Expansion
version = record { patterns = []; properties = (codes "version", codes "1.2") ∷ [] }

replaced : expand version (codes "v${ version }\n\\${x} $1") ≡ expanded (codes "v1.2\n${x} $1")
unfolding expand expand_from prepend name_before_brace lookup trim starts_with
replaced = refl

unknown_on_second_line : expand version (codes "a\n${b}") ≡ unknown_property 2 (codes "b")
unfolding expand expand_from prepend name_before_brace lookup trim starts_with
unknown_on_second_line = refl

expand-escape_example : expand version (escape (codes "${version}")) ≡ expanded (codes "${version}")
expand-escape_example = expand-escape version (codes "${version}")

backtracks : segment_matches (codes "a*bc?") (codes "abcabcd") ≡ true
unfolding segment_matches advance
backtracks = refl

across_segments :
    glob_matches (codes "config/**/*.properties") (codes "config/a/b/c.properties") ≡ true
unfolding glob_matches segments_match segment_matches advance split
across_segments = refl

segment_matches-eq_example :
    segment_matches (codes "a*bc?") (codes "abcabcd") ≡ matches (codes "a*bc?") (codes "abcabcd")
segment_matches-eq_example = segment_matches-eq (codes "a*bc?") (codes "abcabcd") refl

segment_matches-literal_star_example :
    (segment_matches (codes "*") (codes "*.") ≡ false) × (matches (codes "*") (codes "*.") ≡ true)
segment_matches-literal_star_example = segment_matches-literal_star b'.' []
