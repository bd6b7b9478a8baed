-- ===== src/Resolve/Walk.antt =====
-- src/resolve/mod.rs, `resolve_walking`: the breadth-first walk. A level is mediated item by item
-- against what is selected; the POMs of what it admits give the next level. The effective POM of a
-- coordinate comes from `effective`, which fetches and merges it.
pub mod Levels
pub mod Nearest
use jrs.Prelude.{
  ℕ, zero, suc, ◌+◌, Text, codes, Bool, true, false, not, ◌&&◌, ◌||◌, ◌==◌, list_eq, nat_eq,
  option_eq, Option, none, some, List, ◌++◌, ◌∷◌, [], map, any, all, if◌then◌else◌, retain,
  contains, lookup, insert, modify, contains_key, length, ltb, Ordering,
}
use jrs.Error.{JrsError, Result, ok, err, ◌>>=◌}
use jrs.Coord.{Ga, ga_eq, Coord, ga, pom_coord, display_ga}
use jrs.Coord.Version.{compare_versions}
use jrs.Resolve.Classpath.{Classpath, join}
use jrs.Resolve.Model.{
  PomDependency, pom_ga, Effective, manage, Pending, Selected, Warning, warning_beq, is_some,
}
use jrs.Resolve.Managed.{ManagedVersions, exclusions_of}
use jrs.Resolve.Admission.{admissible}

-- The shared state of the walk.
pub record Walk : Type 0 where
  pub selected : List (Ga × Selected)
  pub edges : List (Ga × List Ga)
  pub packaging : List (Ga × Text)
  pub walked : List (Ga × (List Ga × Bool))
  pub highest : List (Ga × Text)
  pub warnings : List Warning

abbrev pub empty : Walk
empty = record {
  selected = [];
  edges = [];
  packaging = [];
  walked = [];
  highest = [];
  warnings = [];
}

-- `Context::warn`: a message is kept once.
pub warn : Warning → Walk → Walk
warn msg w =
    if any (λ m. warning_beq m msg) w.warnings
    then w
    else record w { warnings = w.warnings ++ msg ∷ [] }

pub warn_all : List Warning → Walk → Walk
warn_all [] w = w
warn_all (msg ∷ msgs) w = warn_all msgs (warn msg w)

abbrev is_gt : Ordering → Bool
is_gt Ordering.gt = true
is_gt _ = false

abbrev pub is_eq : Ordering → Bool
is_eq Ordering.eq = true
is_eq _ = false

-- The highest version that the package is asked for.
pub raise_highest : Pending → Walk → Walk
raise_highest item w = elim (lookup (ga item.coord) w.highest) [
  | none ↦ record w { highest = insert (ga item.coord) item.coord.version w.highest }
  | some top ↦
      if is_gt (compare_versions item.coord.version top)
      then record w { highest = insert (ga item.coord) item.coord.version w.highest }
      else w
]

-- With `every_path`: a package walked before with exclusions that this path does not make is
-- walked again with those that both make.
pub rewalk_with : Pending → Walk → List Pending → Selected → List Ga × Bool → Walk × List Pending
rewalk_with item w rewalk existing (before, pom_only) =
    let kept = retain (λ e. contains item.exclusions e) before in
    if ltb (length kept) (length before)
    then (
      record w { walked = insert (ga item.coord) (kept, pom_only) w.walked },
      rewalk
          ++ record {
            coord = existing.coord;
            classpath = join existing.classpath item.classpath;
            depth = existing.depth;
            exclusions = kept;
            parent = none;
            pom_only = pom_only;
          }
            ∷ [],
    )
    else (w, rewalk)

pub rewalk_on :
    Pending → Walk → List Pending → Option Selected → Option (List Ga × Bool) → Walk × List Pending
rewalk_on item w rewalk (some existing) (some before) = rewalk_with item w rewalk existing before
rewalk_on item w rewalk _ _ = (w, rewalk)

pub rewalk_item : Bool → Pending → Walk → List Pending → Walk × List Pending
rewalk_item every_path item w rewalk =
    if every_path
    then rewalk_on item w rewalk (lookup (ga item.coord) w.selected)
        (lookup (ga item.coord) w.walked)
    else (w, rewalk)

abbrev pub mediation : Pending → Selected → Warning
mediation item existing = record {
  what = codes "is requested at both; nearest-wins picked";
  names = display_ga (ga item.coord) ∷ existing.coord.version ∷ item.coord.version ∷ [];
  depth = existing.depth;
}

-- What a further request changes of a selected package: never its coordinate or its depth.
abbrev pub requested_again : Pending → Selected → Selected
requested_again item existing = record existing {
  mediated =
      existing.mediated || not (is_eq (compare_versions existing.coord.version item.coord.version));
  classpath = join existing.classpath item.classpath;
  direct = existing.direct || item.depth == 1;
}

abbrev pub first_request : Pending → Selected
first_request item = record {
  coord = item.coord;
  depth = item.depth;
  classpath = item.classpath;
  direct = item.depth == 1;
  mediated = false;
}

abbrev warn_if_differs : Pending → Selected → Walk → Walk
warn_if_differs item existing w =
    if is_eq (compare_versions existing.coord.version item.coord.version)
    then w
    else warn (mediation item existing) w

pub select_on : Bool → Pending → Walk → Option Selected → Walk × Bool
select_on every_path item w (some existing) = (
  record (warn_if_differs item existing w) {
    selected = modify (ga item.coord) (requested_again item) w.selected;
  },
  false,
)
select_on every_path item w none = (
  record w {
    selected = insert (ga item.coord) (first_request item) w.selected;
    walked =
        if every_path
        then insert (ga item.coord) (item.exclusions, item.pom_only) w.walked
        else w.walked;
  },
  true,
)

-- The selection of one item; whether it is admitted stands beside the state.
pub select : Bool → Pending → Walk → Walk × Bool
select every_path item w = select_on every_path item w (lookup (ga item.coord) w.selected)

-- `edges.entry(parent).or_default().push(ga)`.
pub add_edge : Pending → Walk → Walk
add_edge item w = elim item.parent [
  | none ↦ w
  | some parent ↦ record w {
    edges =
        insert parent
          ((elim (lookup parent w.edges) [ none ↦ [] | some children ↦ children ])
            ++ ga item.coord ∷ [])
          w.edges;
  }
]

-- The state of the loop over a level: what is admitted, and what is walked again.
pub record Level : Type 0 where
  pub walk : Walk
  pub admitted : List Pending
  pub rewalk : List Pending

pub mediate : Bool → Level → Pending → Level
mediate every_path s item =
    let (w, rewalk) = rewalk_item every_path item (raise_highest item s.walk) s.rewalk in
    let (w', is_admitted) = select every_path item w in
    record {
      walk = add_edge item w';
      admitted = if is_admitted then s.admitted ++ item ∷ [] else s.admitted;
      rewalk = rewalk;
    }

unfoldable pub mediate_all : Bool → Level → List Pending → Level
mediate_all every_path s [] = s
mediate_all every_path s (item ∷ items) = mediate_all every_path (mediate every_path s item) items
