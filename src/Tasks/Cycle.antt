-- ===== src/Tasks/Cycle.antt =====
-- src/task.rs, `find_cycle`: a depth-first walk in the order of declaration.
pub mod Consistent
pub mod Acyclic
pub mod Ends
pub mod Sound
use jrs.Prelude.{
  ℕ, zero, suc, Bool, true, false, ◌==◌, nat_eq, Option, none, some, List, ◌∷◌, [], ◌++◌, map,
  if◌then◌else◌, drop, lookup, insert, length, ◌+◌,
}
use mathlib.Core.Option
use jrs.Tasks.{TaskRef, task, task_ref_eq, Manifest, Step, edges, Hook}

pub data State : Type 0 where
  open_node done : State

abbrev pub States : Type 0
States = List (TaskRef × State)

-- What a walk gives: the states and the path, the cycle it found, or that the fuel ran out.
pub data Walk : Type 0 where
  walked : States → List Step → Walk
  found : List Step → Walk
  out_of_fuel : Walk

-- `path.iter().position(..)`, and then `path[start..]`.
unfoldable pub position : TaskRef → List Step → Option ℕ
position node [] = none
position node (s ∷ path) =
    let rest = Option.map suc (position node path) in if s.0 == node then some 0 else rest

unfoldable pub pop : List Step → List Step
pop [] = []
pop (s ∷ []) = []
pop (s ∷ t ∷ path) = s ∷ pop (t ∷ path)

unfoldable pub meet_open : Step → States → List Step → Walk
unfolding position
meet_open step states path = elim (position step.0 path) [
  | none ↦ walked states path
  | some start ↦ found (drop start path ++ step ∷ [])
]

unfoldable pub leave : TaskRef → Walk → Walk
unfolding pop insert
leave node (walked states path) = walked (insert node done states) (pop path)
leave node (found cycle) = found cycle
leave node out_of_fuel = out_of_fuel

-- The loop over the steps, until a walk does not come back with a path.
unfoldable pub each : (Step → States → List Step → Walk) → List Step → States → List Step → Walk
each visit [] states path = walked states path
each visit (next ∷ steps) states path = elim (visit next states path) [
  | walked states' path' ↦ each visit steps states' path'
  | found cycle ↦ found cycle
  | out_of_fuel ↦ out_of_fuel
]

unfoldable pub walk : ℕ → Manifest → Step → States → List Step → Walk
unfolding lookup insert meet_open leave each edges
walk zero m step states path = out_of_fuel
walk (suc f) m step states path = elim (lookup step.0 states) [
  | some done ↦ walked states path
  | some open_node ↦ meet_open step states path
  | none ↦
      leave step.0
        (each (walk f m) (edges m step.0) (insert step.0 open_node states) (path ++ step ∷ []))
]

-- The search from each task, with a path of its own.
unfoldable pub from_each : ℕ → Manifest → List TaskRef → States → Walk
unfolding walk
from_each f m [] states = walked states []
from_each f m (start ∷ starts) states = elim (walk f m (start, none) states []) [
  | walked states' path ↦ from_each f m starts states'
  | found cycle ↦ found cycle
  | out_of_fuel ↦ out_of_fuel
]

-- `Ok` of no cycle, or of the first.
unfoldable pub find_cycle : ℕ → Manifest → Walk
unfolding from_each
find_cycle f m = from_each f m (map (λ t. task t.name) m.tasks) []
