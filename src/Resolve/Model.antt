-- ===== src/Resolve/Model.antt =====
-- The data of resolution: the manifest's dependencies (src/manifest/mod.rs), a POM's and the
-- effective POM (src/resolve/pom.rs), and the walk's own (src/resolve/mod.rs).
use jrs.Prelude.{
  ℕ, Text, Bool, true, false, not, ◌&&◌, ◌==◌, list_eq, nat_eq, Option, none, some, List, ◌++◌, ◌∷◌,
  [], if◌then◌else◌, lookup, contains, is_empty,
}
use jrs.Coord.{Ga, ga_eq, Coord, with_suffix}
use jrs.Coord.Scope
use jrs.Coord.Scope.{Scope}
use jrs.Resolve.Classpath.{Classpath}

pub record Exclusion : Type 0 where
  pub group : Text
  pub artifact : Text

pub record Dependency : Type 0 where
  pub group : Text
  pub artifact : Text
  pub version : Text
  pub classifier : Option Text
  pub exclusions : List Exclusion
  pub compile_only : Bool
  pub runtime_only : Bool
  pub path : Option Text

abbrev pub is_some {ℓ} : {A : Type ℓ} → Option A → Bool
is_some none = false
is_some (some _) = true

unfoldable pub is_local : Dependency → Bool
is_local d = is_some d.path

unfoldable pub is_managed : Dependency → Bool
is_managed d = not (is_local d) && is_empty d.version

unfoldable pub key : Dependency → Text
key d =
    if is_local d then d.artifact else d.group ++ b':' ∷ (d.artifact ++ with_suffix d.classifier)

-- A `[managed]` entry of the manifest.
pub record ManagedEntry : Type 0 where
  pub group : Text
  pub artifact : Text
  pub version : Text
  pub bom : Bool

pub record PomDependency : Type 0 where
  pub group : Text
  pub artifact : Text
  pub version : Option Text
  pub scope : Option Text
  pub optional : Bool
  pub kind : Text
  pub classifier : Option Text
  pub exclusions : List Ga

unfoldable pub pom_ga : PomDependency → Ga
pom_ga d = record { group = d.group; artifact = d.artifact; classifier = none }

unfoldable pub scope_of : PomDependency → Scope
scope_of d = elim d.scope [ none ↦ Scope.compile | some s ↦ Scope.parse s ]

-- An entry of `<dependencyManagement>`.
pub record Managed : Type 0 where
  pub version : Option Text
  pub scope : Option Text
  pub exclusions : List Ga

-- The effective POM, with the fields that resolution reads.
pub record Effective : Type 0 where
  pub coord : Coord
  pub packaging : Text
  pub managed : List (Ga × Managed)
  pub dependencies : List PomDependency

abbrev first_of_two {ℓ} : {A : Type ℓ} → Option A → Option A → Option A
first_of_two none b = b
first_of_two (some a) b = some a

-- The exclusions of an entry that are not there yet, pushed in order.
pub merge_exclusions : List Ga → List Ga → List Ga
merge_exclusions out [] = out
merge_exclusions out (e ∷ es) = merge_exclusions (if contains out e then out else out ++ e ∷ []) es

-- `Effective::manage`.
unfoldable pub manage : Effective → PomDependency → PomDependency
unfolding merge_exclusions
manage eff dep = elim (lookup (pom_ga dep) eff.managed) [
  | none ↦ dep
  | some m ↦ record dep {
    version = first_of_two dep.version m.version;
    scope = first_of_two dep.scope m.scope;
    exclusions = merge_exclusions dep.exclusions m.exclusions;
  }
]

-- A pending node of the walk.
pub record Pending : Type 0 where
  pub coord : Coord
  pub classpath : Classpath
  pub depth : ℕ
  pub exclusions : List Ga
  pub parent : Option Ga
  pub pom_only : Bool

pub record Selected : Type 0 where
  pub coord : Coord
  pub depth : ℕ
  pub classpath : Classpath
  pub direct : Bool
  pub mediated : Bool

-- A warning, as the fixed part of its message and the texts and the depth that it names.
pub record Warning : Type 0 where
  pub what : Text
  pub names : List Text
  pub depth : ℕ

abbrev pub warning_beq : Warning → Warning → Bool
warning_beq a b = a.what == b.what && a.names == b.names && a.depth == b.depth
