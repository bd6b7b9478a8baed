-- ===== src/Resolve/Admission.antt =====
-- src/resolve/mod.rs: the first level of the walk (`seed`), and which dependencies of a POM it goes
-- on to (`admissible`).
pub mod Rules
use jrs.Prelude.{
  ℕ, Text, codes, Bool, true, false, not, ◌&&◌, ◌||◌, ◌==◌, list_eq, nat_eq, Option, none, some,
  List, ◌++◌, ◌∷◌, [], map, any, if◌then◌else◌, contains_text, retain,
}
use mathlib.Core.Option.{get_or}
use jrs.Error.{JrsError, Result, ok, err}
use jrs.Coord.{Ga, Coord, excluded_by, display_coord, display_ga}
use jrs.Coord.Scope.{is_range, is_transitive}
use jrs.Resolve.Classpath.{Classpath, compile, provided, runtime, test}
use jrs.Resolve.Model.{
  Exclusion, Dependency, is_local, PomDependency, pom_ga, scope_of, Effective, Pending, Warning,
}
use jrs.Resolve.Managed.{ManagedVersions, get, exclusions_of, range_floor}

abbrev pub dependency_coord : Dependency → Coord
dependency_coord d = record {
  group = d.group;
  artifact = d.artifact;
  version = d.version;
  classifier = d.classifier;
}

-- The closure `push` of `seed`.
pub seed_one : ManagedVersions → Classpath → Dependency → Pending
seed_one managed classpath d = record {
  coord = dependency_coord d;
  classpath = if d.compile_only then provided else if d.runtime_only then runtime else classpath;
  depth = 1;
  exclusions =
      map (λ (e : Exclusion). record { group = e.group; artifact = e.artifact; classifier = none })
        d.exclusions
      ++ exclusions_of managed d.group d.artifact;
  parent = none;
  pom_only = false;
}

abbrev pub remote : List Dependency → List Dependency
remote = retain (λ d. not (is_local d))

unfoldable pub seed : List Dependency → List Dependency → ManagedVersions → List Pending
unfolding seed_one
seed dependencies dev_dependencies managed =
    map (seed_one managed compile) (remote dependencies)
    ++ map (seed_one managed test) (remote dev_dependencies)

-- What a `<type>` is on a classpath: the classifier of its jar and whether it is a POM only, or
-- nothing that goes on one.
pub kind_of : PomDependency → Option (Option Text × Bool)
kind_of dep =
    if dep.kind == codes "jar"
      || dep.kind == codes "bundle"
      || dep.kind == codes "ejb"
      || dep.kind == codes "maven-plugin"
    then some (dep.classifier, false)
    else if dep.kind == codes "test-jar"
    then some (some (get_or dep.classifier (codes "tests")), false)
    else if dep.kind == codes "pom"
    then some (none, true)
    else none

abbrev pub Admitted : Type 0
Admitted = Result (Option (Coord × Bool) × List Warning)

abbrev pub skipped : Text → List Text → Admitted
skipped what names = ok (none, record { what = what; names = names; depth = 0 } ∷ [])

abbrev pub admitted_at : PomDependency → Option Text → Bool → Text → Admitted
admitted_at dep classifier pom_only version = ok (
  some (
    record {
      group = dep.group;
      artifact = dep.artifact;
      version = version;
      classifier = classifier;
    },
    pom_only,
  ),
  [],
)

pub range_refused : Effective → PomDependency → Text → JrsError
range_refused eff dep version = JrsError.resolve (
    codes "`"
    ++ display_coord eff.coord
    ++ codes "` depends on `"
    ++ display_ga (pom_ga dep)
    ++ codes "` with the version range `"
    ++ version
    ++ codes "`\n\njrs resolves exact versions only; pin one in [managed] (\""
    ++ display_ga (pom_ga dep)
    ++ codes "\" = \""
    ++ get_or (range_floor version) (codes "<version>")
    ++ codes "\"), or exclude the dependency and declare an exact version")

-- The last part of `admissible`, where no `[managed]` entry holds the version.
pub with_own_version : PomDependency → Effective → Option Text → Bool → Option Text → Admitted
with_own_version dep eff classifier pom_only none =
    skipped (codes "with no version and no dependencyManagement entry")
      (display_coord eff.coord ∷ display_ga (pom_ga dep) ∷ [])
with_own_version dep eff classifier pom_only (some version) =
    if is_range version
    then err (range_refused eff dep version)
    else if contains_text (codes "${") version
    then skipped (codes "with an unresolvable version")
        (display_coord eff.coord ∷ display_ga (pom_ga dep) ∷ version ∷ [])
    else admitted_at dep classifier pom_only version

pub with_kind :
    PomDependency → Pending → Effective → ManagedVersions → Option (Option Text × Bool) → Admitted
with_kind dep parent eff managed none =
    skipped (codes "which does not go on a classpath; skipped")
      (display_coord eff.coord ∷ display_ga (pom_ga dep) ∷ dep.kind ∷ [])
with_kind dep parent eff managed (some (classifier, pom_only)) =
    if any (λ e. excluded_by (pom_ga dep) e) parent.exclusions
    then ok (none, [])
    else elim (get managed dep.group dep.artifact) [
      | some version ↦ admitted_at dep classifier pom_only version
      | none ↦ with_own_version dep eff classifier pom_only dep.version
    ]

unfoldable pub admissible : PomDependency → Pending → Effective → ManagedVersions → Admitted
admissible dep parent eff managed =
    if dep.optional || not (is_transitive (scope_of dep))
    then ok (none, [])
    else with_kind dep parent eff managed (kind_of dep)

-- What a test opens, to run `admissible`.
unfoldable pub program : Unit {0}
unfolding admissible with_kind with_own_version range_refused kind_of seed
program = tt
