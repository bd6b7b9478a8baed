-- ===== src/Coord.antt =====
-- src/resolve/coord.rs: Maven coordinates. A `Ga` is the identity that a dependency graph dedupes on,
-- a `Coord` names one version of it. A `String` is its list of code points.
pub mod Version
pub mod Parsing
pub mod Ordered
pub mod Paths
pub mod Scope
mod Examples
use jrs.Prelude.{
  ℕ, ◌≡◌, ◌↔◌, Bool, true, false, ◌&&◌, ◌||◌, Option, none, some, List, [], ◌∷◌, ◌++◌, arith, Text,
  suc, codes, Eq, ◌==◌, list_beq, list_beq_iff, option_beq, option_beq_iff, list_eq, nat_eq,
  option_eq, split, if◌then◌else◌, any, is_empty, splitn_from, leb, length, get_elem?, ends_with,
  starts_with, contains_text, replace, trim, then_with, compare_list, compare_option, compare,
  Ordering,
}
use jrs.Error.{JrsError, Result, ok, err}
use Version.{compare_versions}

pub record Ga : Type 0 where
  pub group : Text
  pub artifact : Text
  pub classifier : Option Text

-- `PartialEq for Ga`, derived.
abbrev pub ga_beq : Ga → Ga → Bool
ga_beq a b = a.group == b.group && a.artifact == b.artifact && a.classifier == b.classifier

pub ga_beq_iff : (a b : Ga) → (ga_beq a b ≡ true) ↔ (a ≡ b)
ga_beq_iff a b = ground (
  arith,
  list_beq_iff a.group b.group,
  list_beq_iff a.artifact b.artifact,
  option_beq_iff a.classifier b.classifier,
)

instance abbrev pub ga_eq : Eq Ga
ga_eq = record { beq = ga_beq; beq_iff = ga_beq_iff }

-- The order of `str`, as that of the characters.
abbrev pub compare_text : Text → Text → Ordering
compare_text = compare_list compare

abbrev pub non_empty : Option Text → Option Text
non_empty none = none
non_empty (some p) = if is_empty p then none else some p

-- `Ga::parse`: `group:artifact`, or `group:artifact:classifier`.
ga_of_parts : List Text → Option Ga
ga_of_parts parts = elim (non_empty (get_elem? parts 0)) [
  | none ↦ none
  | some group ↦ elim (non_empty (get_elem? parts 1)) [
    | none ↦ none
    | some artifact ↦
        some (record {
          group = group;
          artifact = artifact;
          classifier = non_empty (get_elem? parts 2);
        })
  ]
]

unfoldable pub parse_ga : Text → Option Ga
unfolding ga_of_parts
parse_ga s = ga_of_parts (splitn_from 2 b':' [] s)

-- Whether an exclusion pattern covers this artifact.
unfoldable pub excluded_by : Ga → Ga → Bool
excluded_by self pattern =
    (pattern.group == codes "*" || pattern.group == self.group)
    && (pattern.artifact == codes "*" || pattern.artifact == self.artifact)

abbrev pub with_suffix : Option Text → Text
with_suffix none = []
with_suffix (some c) = b':' ∷ c

unfoldable pub display_ga : Ga → Text
display_ga g = g.group ++ b':' ∷ (g.artifact ++ with_suffix g.classifier)

pub record Coord : Type 0 where
  pub group : Text
  pub artifact : Text
  pub version : Text
  pub classifier : Option Text

abbrev coordinate_expected : Text → JrsError
coordinate_expected s =
    JrsError.resolve (codes "`" ++ s ++ codes "` is not a `group:artifact:version` coordinate")

coord_of_parts : Text → List Text → Result Coord
coord_of_parts s parts = if any is_empty parts then err (coordinate_expected s) else elim parts [
  | g ∷ a ∷ v ∷ [] ↦ ok (record { group = g; artifact = a; version = v; classifier = none })
  | g ∷ a ∷ v ∷ c ∷ [] ↦ ok (record { group = g; artifact = a; version = v; classifier = some c })
  | _ ↦ err (coordinate_expected s)
]

-- `Coord::parse`: three or four non-empty parts.
unfoldable pub parse_coord : Text → Result Coord
unfolding coord_of_parts
parse_coord s = coord_of_parts s (split b':' s)

unfoldable pub display_coord : Coord → Text
display_coord c = c.group ++ b':' ∷ (c.artifact ++ b':' ∷ (c.version ++ with_suffix c.classifier))

unfoldable pub ga : Coord → Ga
ga c = record { group = c.group; artifact = c.artifact; classifier = c.classifier }

unfoldable pub pom_coord : Coord → Coord
pom_coord c = record c { classifier = none }

abbrev pub snapshot_suffix : Text
snapshot_suffix = codes "-SNAPSHOT"

unfoldable pub is_snapshot : Coord → Bool
is_snapshot c = ends_with c.version snapshot_suffix

-- `Coord::sources`.
unfoldable pub sources : Coord → Coord
unfolding pom_coord
sources c = record (pom_coord c) { classifier = some (codes "sources") }

-- `Ord for Coord`.
unfoldable pub compare_coord : Coord → Coord → Ordering
compare_coord a b = then_with (compare_text a.group b.group) (
    then_with (compare_text a.artifact b.artifact) (
      then_with (compare_option compare_text a.classifier b.classifier)
        (then_with (compare_versions a.version b.version) (compare_text a.version b.version))))
