-- ===== src/Resolve/Managed.antt =====
-- src/resolve/mod.rs, `ManagedVersions`: the versions that `[managed]` and its BOMs decide. The
-- effective POM of a BOM comes from `effective`, which fetches it.
use jrs.Prelude.{
  Text, codes, true, false, ◌||◌, ◌==◌, list_eq, nat_eq, pair_eq, Option, none, some, List, ◌++◌,
  ◌∷◌, [], if◌then◌else◌, lookup, insert, contains_key, insert_new, contains_text, starts_with,
  trim, drop, is_empty,
}
use jrs.Error.{JrsError, Result, ok, err, ◌>>=◌, display}
use jrs.Coord.{Ga, Coord, display_coord}
use jrs.Coord.Scope.{is_range}
use jrs.Resolve.Model.{ManagedEntry, Managed, Effective, Dependency, is_managed, key}

abbrev pub Key : Type 0
Key = Text × Text

pub record ManagedVersions : Type 0 where
  pub versions : List (Key × Text)
  pub exclusions : List (Key × List Ga)

unfoldable pub get : ManagedVersions → Text → Text → Option Text
get m group artifact = lookup (group, artifact) m.versions

unfoldable pub exclusions_of : ManagedVersions → Text → Text → List Ga
exclusions_of m group artifact = elim (lookup (group, artifact) m.exclusions) [
  | none ↦ []
  | some es ↦ es
]

-- The first loop: `[managed]`'s own versions.
pub pins : List (Key × Text) → List ManagedEntry → List (Key × Text)
pins versions [] = versions
pins versions (m ∷ ms) =
    pins (if m.bom then versions else insert_new (m.group, m.artifact) m.version versions) ms

-- One entry of a BOM.
pub bom_entry : ManagedVersions → Ga × Managed → ManagedVersions
bom_entry s (ga, entry) = elim entry.version [
  | none ↦ s
  | some version ↦
      if contains_text (codes "${") version
        || is_range version
        || contains_key (ga.group, ga.artifact) s.versions
      then s
      else record {
        versions = insert (ga.group, ga.artifact) version s.versions;
        exclusions = elim entry.exclusions [
          | [] ↦ s.exclusions
          | e ∷ es ↦ insert (ga.group, ga.artifact) (e ∷ es) s.exclusions
        ];
      }
]

pub bom_entries : ManagedVersions → List (Ga × Managed) → ManagedVersions
bom_entries s [] = s
bom_entries s (e ∷ es) = bom_entries (bom_entry s e) es

abbrev bom_coord : ManagedEntry → Coord
bom_coord m = record {
  group = m.group;
  artifact = m.artifact;
  version = m.version;
  classifier = none;
}

unreadable_bom : Coord → JrsError → JrsError
unreadable_bom coord e = JrsError.resolve (
    codes "the BOM `"
    ++ display_coord coord
    ++ codes "` in [managed] could not be read\n\n"
    ++ display e)

abbrev or_unreadable : Coord → Result Effective → Result Effective
or_unreadable coord (ok bom) = ok bom
or_unreadable coord (err e) = err (unreadable_bom coord e)

module _ (effective : Coord → Result Effective) where
  -- The second loop: the BOMs, in order.
  pub boms : ManagedVersions → List ManagedEntry → Result ManagedVersions
  boms s [] = ok s
  boms s (m ∷ ms) = elim m.bom [
    | false ↦ boms s ms
    | true ↦ or_unreadable (bom_coord m) (effective (bom_coord m)) >>= λ bom.
        boms (bom_entries s bom.managed) ms
  ]

  unfoldable pub managed_versions_with : List ManagedEntry → Result ManagedVersions
  managed_versions_with entries =
      boms (record { versions = pins [] entries; exclusions = [] }) entries

-- Each versionless dependency of `section` takes its managed version.
abbrev no_version : Text → Dependency → JrsError
no_version section d = JrsError.resolve (
    codes "`"
    ++ key d
    ++ codes "` in ["
    ++ section
    ++ codes
        "] has no version, and neither [managed] nor a BOM it names manages it\n\ngive it a version, or add it to [managed]:\n\n    [managed]\n    \""
    ++ d.group
    ++ codes ":"
    ++ d.artifact
    ++ codes "\" = \"<version>\"")

pub managed_dependency : ManagedVersions → Text → Dependency → Result Dependency
managed_dependency managed section d =
    if is_managed d
    then elim (get managed d.group d.artifact) [
      | none ↦ err (no_version section d)
      | some v ↦ ok (record d { version = v })
    ]
    else ok d

unfoldable pub with_managed_versions :
    List Dependency → ManagedVersions → Text → Result (List Dependency)
with_managed_versions [] managed section = ok []
with_managed_versions (d ∷ ds) managed section = managed_dependency managed section d >>= λ d'.
    with_managed_versions ds managed section >>= λ ds'. ok (d' ∷ ds')

-- The lowest version that a range admits, when it names one it includes.
abbrev up_to : Text → Text
up_to [] = []
up_to (c ∷ s) = let rest = up_to s in if c == b',' || c == b']' then [] else c ∷ rest

unfoldable pub range_floor : Text → Option Text
range_floor range =
    if starts_with range (codes "[")
    then (let floor = trim (up_to (drop 1 range)) in if is_empty floor then none else some floor)
    else none
