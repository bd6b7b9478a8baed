-- ===== src/Resolve/Examples.antt =====
-- Runs of resolution (src/resolve/mod.rs) on a small graph.
use jrs.Prelude.{
  modify, not, ◌&&◌, ◌||◌, ◌⊎◌, ℕ, zero, suc, ◌≡◌, refl, Bool, true, false, Text, codes, Option,
  none, some, List, ◌∷◌, [], lookup,
}
use jrs.Error.{err, Result, ok}
use jrs.Coord.{Ga, ga_eq, Coord}
use jrs.Resolve.Classpath.{
  Classpath, compile, provided, runtime, test, join, compiles, runs, carried,
}
use jrs.Resolve.Classpath.Places.{places_injective, join_places, carried_places}
use jrs.Resolve.Model.{scope_of, PomDependency, Effective, Pending, Selected}
use jrs.Resolve.Managed.{get, ManagedVersions}
use jrs.Resolve.Admission
use jrs.Resolve.Walk.Levels
use jrs.Resolve.Widen
use jrs.Coord.Version
use jrs.Coord.Scope.{is_transitive}
use jrs.Resolve.Admission.{admissible}
use jrs.Resolve.Admission.Rules.{IsWalked, admissible_sound}
use jrs.Resolve.Walk.{Walk, empty, mediate_all, Level, first_request}
use jrs.Resolve.Walk.Levels.{levels}
use jrs.Resolve.Walk.Nearest.{mediate_all_selects, settled, requests_for}
use jrs.Resolve.Walk.Levels.Settled.{levels_keep}
use jrs.Resolve.Widen.{Selection, Edges, widen, enough}
use jrs.Resolve.Widen.Closure.{widen_terminates, widen-IsClosed, IsClosed}

-- app → a:1 → b:1 → c:1, and app → d:1 → b:2.
abbrev coord : Text → Text → Coord
coord a v = record { group = codes "g"; artifact = a; version = v; classifier = none }

abbrev ga : Text → Ga
ga a = record { group = codes "g"; artifact = a; classifier = none }

abbrev depends : Text → Text → PomDependency
depends a v = record {
  group = codes "g";
  artifact = a;
  version = some v;
  scope = none;
  optional = false;
  kind = codes "jar";
  classifier = none;
  exclusions = [];
}

abbrev pom_of : Coord → List PomDependency → Effective
pom_of c ds = record { coord = c; packaging = codes "jar"; managed = []; dependencies = ds }

abbrev one_dependency : Coord → Result Effective
one_dependency c = ok (pom_of c (depends (codes "b") (codes "1") ∷ []))

abbrev request : Text → Text → Classpath → Pending
request a v c = record {
  coord = coord a v;
  classpath = c;
  depth = 1;
  exclusions = [];
  parent = none;
  pom_only = false;
}

abbrev nothing_managed : ManagedVersions
nothing_managed = record { versions = []; exclusions = [] }

abbrev a1 : Pending
a1 = request (codes "a") (codes "1") compile

admits_b :
    admissible
      (depends (codes "b") (codes "1"))
      a1
      (pom_of (coord (codes "a") (codes "1")) [])
      nothing_managed
    ≡ ok (some (coord (codes "b") (codes "1"), false), [])
unfolding Admission.program get scope_of is_transitive lookup jrs.Coord.Scope.is_range
    jrs.Prelude.starts_with jrs.Prelude.trim jrs.Prelude.contains_text
admits_b = refl

admissible_sound_example :
    IsWalked (depends (codes "b") (codes "1")) a1 nothing_managed (coord (codes "b") (codes "1"))
admissible_sound_example =
    admissible_sound (depends (codes "b") (codes "1")) a1
      (pom_of (coord (codes "a") (codes "1")) []) nothing_managed (coord (codes "b") (codes "1"))
      false [] admits_b

abbrev nothing_walked : Level
nothing_walked = record { walk = empty; admitted = []; rewalk = [] }

abbrev b_twice : List Pending
b_twice = request (codes "b") (codes "2") test ∷ request (codes "b") (codes "1") runtime ∷ []

mediate_all_selects_example :
    lookup (ga (codes "b")) (mediate_all false nothing_walked b_twice).walk.selected
    ≡ settled none (requests_for (ga (codes "b")) b_twice)
unfolding lookup
mediate_all_selects_example = mediate_all_selects false nothing_walked b_twice (ga (codes "b"))

-- a:1 is selected; the next level asks for a:2 and for b:1.
abbrev chosen : Selected
chosen = first_request a1

abbrev walked_a : Walk
walked_a = record empty { selected = (ga (codes "a"), chosen) ∷ [] }

abbrev no_dependencies : Coord → Result Effective
no_dependencies c = ok (pom_of c [])

abbrev a2 : List Pending
a2 = record (request (codes "a") (codes "2") test) { depth = 2 } ∷ []

abbrev after_a2 : Result Walk
after_a2 = levels no_dependencies nothing_managed false 63 2 walked_a a2

abbrev walk_or : Result Walk → Walk
walk_or (ok w) = w
walk_or (err _) = walked_a

walks_a2 : after_a2 ≡ ok (walk_or after_a2)
unfolding Levels.program Version.program lookup jrs.Coord.ga
walks_a2 = refl

levels_keep_example :
    (s' : Selected) × (lookup (ga (codes "a")) (walk_or after_a2).selected ≡ some s')
    × (s'.coord ≡ chosen.coord)
    × (s'.depth ≡ chosen.depth)
unfolding lookup
levels_keep_example =
    levels_keep no_dependencies nothing_managed false 63 2 walked_a a2 (walk_or after_a2)
      (ga (codes "a")) chosen walks_a2 refl

-- a is on the compile classpath, and b, which it depends on, was found by a test.
abbrev found : Selection
found =
    (ga (codes "a"), chosen)
    ∷ (ga (codes "b"), first_request (request (codes "b") (codes "1") test))
    ∷ []

abbrev a_on_b : Edges
a_on_b = (ga (codes "a"), ga (codes "b") ∷ []) ∷ []

abbrev widened_b : Selection
widened_b =
    (ga (codes "a"), chosen)
    ∷ (ga (codes "b"), first_request (request (codes "b") (codes "1") compile))
    ∷ []

widens_b : widen (enough found) a_on_b found ≡ some widened_b
unfolding Widen.program join lookup modify
widens_b = refl

widen_terminates_example : (m' : Selection) × (widen (enough found) a_on_b found ≡ some m')
widen_terminates_example = widen_terminates a_on_b found

widen-IsClosed_example : IsClosed a_on_b widened_b
widen-IsClosed_example = widen-IsClosed (enough found) a_on_b found widened_b widens_b

places_injective_example : join runtime provided ≡ compile
unfolding join
places_injective_example = places_injective (join runtime provided) compile refl refl

join_places_example :
    (compiles (join runtime provided) ≡ (compiles runtime || compiles provided))
    × (runs (join runtime provided) ≡ (runs runtime || runs provided))
join_places_example = join_places runtime provided

carried_places_example :
    ((carried runtime compile ≡ none) × (runs compile ≡ false))
    ⊎ ((c : Classpath) × (carried runtime compile ≡ some c)
        × (runs compile ≡ true)
        × (runs c ≡ runs runtime)
        × (compiles c ≡ (compiles runtime && (compiles compile || not (runs runtime)))))
carried_places_example = carried_places runtime compile
