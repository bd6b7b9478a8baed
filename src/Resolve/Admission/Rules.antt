-- ===== src/Resolve/Admission/Rules.antt =====
-- Which dependencies of a POM are walked.
use jrs.Prelude.{
  ◌||◌, not, ◌∙◌, sym, ap, Bool-cases, ◌≡◌, ◌⊎◌, inl, inr, refl, arith, Text, codes, Bool, true,
  false, Option, none, some, List, any, contains_text,
}
use jrs.Error.{ok}
use jrs.Coord.{Coord, excluded_by}
use jrs.Coord.Scope.{is_range, is_transitive}
use jrs.Resolve.Model.{PomDependency, Pending, Effective, Warning, pom_ga, scope_of}
use jrs.Resolve.Managed.{ManagedVersions, get}
use jrs.Resolve.Admission.{admissible, Admitted, admitted_at, with_kind, with_own_version, kind_of}

-- What holds of a dependency that is walked as `child`.
pub record IsWalked (dep : PomDependency) (parent : Pending) (managed : ManagedVersions)
    (child : Coord) : Type 0 where
  pub required : dep.optional ≡ false
  pub transitive : is_transitive (scope_of dep) ≡ true
  pub kept : any (λ e. excluded_by (pom_ga dep) e) parent.exclusions ≡ false
  pub group : child.group ≡ dep.group
  pub artifact : child.artifact ≡ dep.artifact
  pub version :
      (get managed dep.group dep.artifact ≡ some child.version)
      ⊎ ((get managed dep.group dep.artifact ≡ none)
          × (dep.version ≡ some child.version)
          × (is_range child.version ≡ false)
          × (contains_text (codes "${") child.version ≡ false))

own_version :
    (dep : PomDependency) (eff : Effective) (classifier : Option Text) (pom_only : Bool)
    (v : Option Text) (child : Coord) (p : Bool) (ws : List Warning)
    → with_own_version dep eff classifier pom_only v ≡ ok (some (child, p), ws)
    → (child.group ≡ dep.group)
      × (child.artifact ≡ dep.artifact)
      × (v ≡ some child.version)
      × (is_range child.version ≡ false)
      × (contains_text (codes "${") child.version ≡ false)
unfolding with_own_version
own_version dep eff classifier pom_only none child p ws h = absurd (ground arith)
own_version dep eff classifier pom_only (some v) child p ws h = ground arith

abbrev Version : PomDependency → ManagedVersions → Coord → Type 0
Version dep managed child =
    (get managed dep.group dep.artifact ≡ some child.version)
    ⊎ ((get managed dep.group dep.artifact ≡ none)
        × (dep.version ≡ some child.version)
        × (is_range child.version ≡ false)
        × (contains_text (codes "${") child.version ≡ false))

version_cases :
    (dep : PomDependency) (eff : Effective) (managed : ManagedVersions) (classifier : Option Text)
    (p p' : Bool) (held : Option Text) (child : Coord) (ws : List Warning)
    → get managed dep.group dep.artifact ≡ held
    → (elim held as (λ _. Admitted) [
      | some version ↦ admitted_at dep classifier p version
      | none ↦ with_own_version dep eff classifier p dep.version
    ])
      ≡ ok (some (child, p'), ws)
    → (child.group ≡ dep.group) × (child.artifact ≡ dep.artifact) × Version dep managed child
version_cases dep eff managed classifier p p' none child ws e h =
    let (g, a, v, r, u) = own_version dep eff classifier p dep.version child p' ws h in
    (g, a, inr (e, v, r, u))
version_cases dep eff managed classifier p p' (some w) child ws e h =
    let made : Coord = record {
      group = dep.group;
      artifact = dep.artifact;
      version = w;
      classifier = classifier;
    } in
    let same : made ≡ child = ground arith in
    (
      ap (λ (c : Coord). c.group) (sym same),
      ap (λ (c : Coord). c.artifact) (sym same),
      inl (e ∙ ap (λ (c : Coord). some c.version) same),
    )

with_kind_sound :
    (dep : PomDependency) (parent : Pending) (eff : Effective) (managed : ManagedVersions)
    (k : Option (Option Text × Bool)) (child : Coord) (p : Bool) (ws : List Warning)
    → with_kind dep parent eff managed k ≡ ok (some (child, p), ws)
    → (any (λ e. excluded_by (pom_ga dep) e) parent.exclusions ≡ false)
      × (child.group ≡ dep.group)
      × (child.artifact ≡ dep.artifact)
      × Version dep managed child
unfolding with_kind
with_kind_sound dep parent eff managed none child p ws h = absurd (ground arith)
with_kind_sound dep parent eff managed (some (classifier, q)) child p ws h =
    elim (Bool-cases (any (λ e. excluded_by (pom_ga dep) e) parent.exclusions)) [
      | inl out ↦ absurd (ground arith)
      | inr kept ↦
          let (g, a, v) =
            version_cases dep eff managed classifier q p (get managed dep.group dep.artifact) child
              ws refl (rw kept at h) in
          (kept, g, a, v)
    ]

-- A dependency that is walked is not optional, is in a transitive scope, is covered by no exclusion
-- of the path that leads to it, keeps its group and artifact, and has either the version that
-- `[managed]` holds it to, or its own, which is then exact: no range and no placeholder.
pub admissible_sound :
    (dep : PomDependency) (parent : Pending) (eff : Effective) (managed : ManagedVersions)
    (child : Coord) (pom_only : Bool) (ws : List Warning)
    → admissible dep parent eff managed ≡ ok (some (child, pom_only), ws)
    → IsWalked dep parent managed child
unfolding admissible
admissible_sound dep parent eff managed child pom_only ws h =
    elim (Bool-cases (dep.optional || not (is_transitive (scope_of dep)))) [
      | inl out ↦ absurd (ground arith)
      | inr walked ↦
          let (kept, g, a, v) =
            with_kind_sound dep parent eff managed (kind_of dep) child pom_only ws
              (rw walked at h) in
          record {
            required = ground arith;
            transitive = ground arith;
            kept = kept;
            group = g;
            artifact = a;
            version = v;
          }
    ]
