-- ===== src/Coord/Examples.antt =====
-- Coordinates of real artifacts, run and put to the theorems.
use jrs.Prelude.{
  trim, ◌⊎◌, reversed, ◌≡◌, refl, codes, Ordering, some, none, true, split, ◌↔◌, ◌++◌, ◌∷◌,
  contains_text,
}
use jrs.Error.{ok}
use jrs.Coord.{
  Ga, Coord, parse_ga, parse_coord, display_ga, display_coord, compare_coord, pom_coord,
}
use jrs.Coord.Version
use jrs.Coord.Version.{
  compare_versions, tokenize, num, qualifier, items_of, compare_qualifiers, is_separator,
}
use jrs.Coord.Version.Comparing.{compare_versions-eq, Extends, compare_versions_transitive}
use jrs.Coord.Version.Tokens.{tokenize-append}
use jrs.Coord.Parsing.{
  IsWellFormed, parse_coord-display_coord, parse_coord_sound, parse_ga-display_ga,
}
use jrs.Coord.Ordered.{compare_coord_cycle, compare_coord_laws, at_version}
use jrs.Coord.Paths.{
  is_platform_classifier, expand_classifier, Host, repo_path, repo_path_as, version_dir,
}
use jrs.Coord.Paths.Files.{IsAboutPom, repo_path_as-pom_coord}
use jrs.Coord.Paths.Directories.{version_dir_injective}

numeric : compare_versions (codes "1.2") (codes "1.10") ≡ Ordering.lt
unfolding Version.program
numeric = refl

aliases : compare_versions (codes "1.0-cr1") (codes "1.0-rc1") ≡ Ordering.eq
unfolding Version.program
aliases = refl

prereleases : compare_versions (codes "1.0-SNAPSHOT") (codes " 1.0 ") ≡ Ordering.lt
unfolding Version.program
prereleases = refl

compare_versions_transitive_example :
    compare_versions (codes "0.9-jre") (codes "1.10-rc") ≡ Ordering.lt
unfolding Version.program
compare_versions_transitive_example =
    compare_versions_transitive (codes "0.9-jre") (codes "1.2-rc") (codes "1.10-rc") refl refl refl
      refl

tokenize-append_example :
    tokenize (codes "1.2" ++ b'+' ∷ codes "RC3") ≡ tokenize (codes "1.2") ++ tokenize (codes "RC3")
unfolding trim
tokenize-append_example = tokenize-append (codes "1.2") (codes "RC3") b'+' refl refl refl

abbrev lwjgl : Coord
lwjgl = record {
  group = codes "org.lwjgl";
  artifact = codes "lwjgl";
  version = codes "3.3.3";
  classifier = some (codes "natives");
}

compare_coord_cycle_example :
    (compare_coord (at_version lwjgl (codes "1")) (at_version lwjgl (codes "1-sp")) ≡ Ordering.lt)
    × (compare_coord (at_version lwjgl (codes "1-sp")) (at_version lwjgl (codes "01.0"))
        ≡ Ordering.lt)
    × (compare_coord (at_version lwjgl (codes "01.0")) (at_version lwjgl (codes "1")) ≡ Ordering.lt)
unfolding Version.program
compare_coord_cycle_example =
    compare_coord_cycle lwjgl (codes "1") (codes "1-sp") (codes "01.0") (codes "sp") refl refl refl
      refl

compare_coord_laws_example :
    ((compare_coord lwjgl (pom_coord lwjgl) ≡ Ordering.eq) ↔ (lwjgl ≡ pom_coord lwjgl))
    × (compare_coord (pom_coord lwjgl) lwjgl ≡ reversed (compare_coord lwjgl (pom_coord lwjgl)))
compare_coord_laws_example = compare_coord_laws lwjgl (pom_coord lwjgl)

parsed : parse_coord (codes "org.lwjgl:lwjgl:3.3.3:natives") ≡ ok lwjgl
unfolding parse_coord split
parsed = refl

parse_coord-display_coord_example : parse_coord (display_coord lwjgl) ≡ ok lwjgl
parse_coord-display_coord_example =
    parse_coord-display_coord lwjgl
      (record { group = refl; artifact = refl; version = refl; classifier = refl })

parse_coord_sound_example :
    IsWellFormed lwjgl × (display_coord lwjgl ≡ codes "org.lwjgl:lwjgl:3.3.3:natives")
parse_coord_sound_example = parse_coord_sound (codes "org.lwjgl:lwjgl:3.3.3:natives") lwjgl parsed

abbrev natives : Ga
natives = record {
  group = codes "org.lwjgl";
  artifact = codes "lwjgl";
  classifier = some (codes "natives");
}

parse_ga-display_ga_example : parse_ga (display_ga natives) ≡ some natives
parse_ga-display_ga_example =
    parse_ga-display_ga natives (record { group = refl; artifact = refl; classifier = refl })

abbrev host : Host
host = record {
  override_classifier = none;
  os = codes "macos";
  arch = codes "aarch64";
  little_endian = true;
}

file : repo_path host lwjgl (codes "jar") ≡ codes "org/lwjgl/lwjgl/3.3.3/lwjgl-3.3.3-natives.jar"
unfolding repo_path expand_classifier is_platform_classifier contains_text
file = refl

repo_path_as-pom_coord_example :
    (repo_path_as host lwjgl (codes "pom.sha1") (codes "3.3.3")
      ≡ repo_path_as host (pom_coord lwjgl) (codes "pom.sha1") (codes "3.3.3"))
    ↔ IsAboutPom (codes "pom.sha1")
repo_path_as-pom_coord_example =
    repo_path_as-pom_coord host lwjgl (codes "natives") (codes "pom.sha1") (codes "3.3.3") refl

version_dir_injective_example :
    (lwjgl.group ≡ lwjgl.group)
    × (lwjgl.artifact ≡ lwjgl.artifact)
    × (lwjgl.version ≡ lwjgl.version)
unfolding pom_coord version_dir
version_dir_injective_example =
    version_dir_injective lwjgl (pom_coord lwjgl) refl refl refl refl refl refl refl

compare_versions-eq_example : (compare_versions (codes "1.0-ga") (codes "1") ≡ Ordering.eq) ↔ (
    Extends (tokenize (codes "1.0-ga")) (tokenize (codes "1"))
    ⊎ Extends (tokenize (codes "1")) (tokenize (codes "1.0-ga")))
compare_versions-eq_example = compare_versions-eq (codes "1.0-ga") (codes "1")
