-- ===== src/Resolve/Walk/Levels.antt =====
-- src/resolve/mod.rs, `resolve_walking`: the levels of the walk. The POMs of the packages that a
-- level admits give the next one; the effective POM of a coordinate comes from `effective`.
pub mod Settled
use jrs.Prelude.{
  ℕ, zero, suc, ◌+◌, Text, codes, Bool, list_eq, nat_eq, option_eq, none, some, List, ◌++◌, ◌∷◌, [],
  if◌then◌else◌, insert, ltb,
}
use jrs.Error.{JrsError, Result, ok, err, ◌>>=◌}
use jrs.Coord.{ga_eq, Coord, ga, pom_coord}
use jrs.Resolve.Model.{PomDependency, Effective, manage, Pending, is_some}
use jrs.Resolve.Managed.{ManagedVersions, exclusions_of}
use jrs.Resolve.Admission.{admissible}
use jrs.Resolve.Walk.{
  Walk, empty, mediate, mediate_all, warn, warn_all, raise_highest, rewalk_with, rewalk_on,
  rewalk_item, select_on, select, add_edge,
}

-- What an admitted package is packaged as.
pub packaging_of : Pending → Effective → Text
packaging_of parent eff =
    if parent.pom_only
    then codes "pom"
    else if is_some parent.coord.classifier
    then codes "jar"
    else eff.packaging

pub child_of : ManagedVersions → ℕ → Pending → PomDependency → Coord × Bool → Pending
child_of managed depth parent dep (child, pom_only) = record {
  coord = child;
  classpath = parent.classpath;
  depth = depth + 1;
  exclusions =
      parent.exclusions ++ (dep.exclusions ++ exclusions_of managed dep.group dep.artifact);
  parent = some (ga parent.coord);
  pom_only = pom_only;
}

-- The inner loop, over the dependencies of one POM; the next level grows behind `next`.
pub children :
    ManagedVersions
    → ℕ
    → Pending
    → Effective
    → Walk
    → List Pending
    → List PomDependency
    → Result (Walk × List Pending)
children managed depth parent eff w next [] = ok (w, next)
children managed depth parent eff w next (d ∷ ds) =
    let dep = manage eff d in
    admissible dep parent eff managed >>= λ (found, msgs).
    children managed depth parent eff (warn_all msgs w)
      (elim found [ none ↦ next | some c ↦ next ++ child_of managed depth parent dep c ∷ [] ]) ds

module _ (effective : Coord → Result Effective) (managed : ManagedVersions)
    (every_path : Bool) where
  -- The loop over the POMs of the admitted packages.
  pub expand : ℕ → Walk → List Pending → List Pending → Result (Walk × List Pending)
  expand depth w next [] = ok (w, next)
  expand depth w next (parent ∷ parents) = effective (pom_coord parent.coord) >>= λ eff.
      children managed depth parent eff
        (record w { packaging = insert (ga parent.coord) (packaging_of parent eff) w.packaging })
        next eff.dependencies
      >>= λ (w', next'). expand depth w' next' parents

  pub level_step : ℕ → Walk → List Pending → Result (Walk × List Pending)
  level_step depth w level =
      let s = mediate_all every_path (record { walk = w; admitted = []; rewalk = [] }) level in
      expand depth s.walk [] (s.admitted ++ s.rewalk)

  abbrev too_deep : JrsError
  too_deep =
      JrsError.resolve (codes "dependency graph is more than 64 levels deep; refusing to continue")

  -- The `while` loop. `left` counts the levels up to the limit: `left + depth` stays 65, and the
  -- test of `depth` ends the loop before `left` is used up.
  unfoldable pub levels : ℕ → ℕ → Walk → List Pending → Result Walk
  levels left depth w [] = ok w
  levels zero depth w (item ∷ items) = err too_deep
  levels (suc left) depth w (item ∷ items) = level_step depth w (item ∷ items) >>= λ (w', next).
      let rest = levels left (depth + 1) w' next in
      if ltb 64 (depth + 1) then err too_deep else rest

  unfoldable pub walk_from : List Pending → Result Walk
  walk_from seeds = levels 64 1 empty seeds

-- What a test opens, to run the walk.
unfoldable pub program : Unit {0}
unfolding warn warn_all raise_highest rewalk_with rewalk_on rewalk_item select_on select add_edge
    mediate mediate_all packaging_of child_of children expand level_step levels walk_from
program = tt
