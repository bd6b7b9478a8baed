-- ===== src/Workspace/Build.antt =====
-- src/workspace.rs, `build_order`: the search for a cycle that names it, and then the order.
use jrs.Prelude.{
  ℕ, zero, suc, Text, codes, ◌==◌, nat_eq, Option, none, some, List, ◌∷◌, [], ◌++◌, map,
  if◌then◌else◌, length, get_or, get_elem?, set, replicate, ◌+◌, join,
}
use jrs.Error.{JrsError, Result, ok, err}
use jrs.Workspace.{Member, modules_of}
use jrs.Workspace.Order.{order_of}
use jrs.Resolve.Classpath.{Classpath}

-- What `visit` gives: the states and the stack, the cycle it met, or that the fuel ran out.
pub data Visit : Type 0 where
  visited : (state stack : List ℕ) → Visit
  cycle : List ℕ → Visit
  out_of_fuel : Visit

-- `stack[at..]`, from the first `i` on.
from_first : ℕ → List ℕ → List ℕ
from_first i [] = []
from_first i (s ∷ stack) = let rest = from_first i stack in if s == i then s ∷ stack else rest

pop : List ℕ → List ℕ
pop [] = []
pop (s ∷ []) = []
pop (s ∷ t ∷ stack) = s ∷ pop (t ∷ stack)

-- What `visit` does behind its modules.
leave : ℕ → Visit → Visit
unfolding pop
leave i (visited state stack) = visited (set state i 2) (pop stack)
leave i (cycle c) = cycle c
leave i out_of_fuel = out_of_fuel

mutual
  pub visit : ℕ → List Member → ℕ → List ℕ → List ℕ → Visit
  visit zero members i state stack = out_of_fuel
  visit (suc f) members i state stack =
      let inside = visit_all f members (modules_of members i) (set state i 1) (stack ++ i ∷ []) in
      if get_or state i 0 == 2
      then visited state stack
      else if get_or state i 0 == 1
      then cycle (from_first i stack ++ i ∷ [])
      else leave i inside

  pub visit_all : ℕ → List Member → List (ℕ × Classpath) → List ℕ → List ℕ → Visit
  visit_all f members [] state stack = visited state stack
  visit_all zero members (m ∷ ms) state stack = out_of_fuel
  visit_all (suc f) members ((up, _) ∷ ms) state stack = elim (visit f members up state stack) [
    | visited state' stack' ↦ visit_all f members ms state' stack'
    | cycle c ↦ cycle c
    | out_of_fuel ↦ out_of_fuel
  ]

-- The loop over the members, each with a stack of its own.
pub visit_each : ℕ → List Member → List ℕ → List ℕ → Visit
visit_each f members [] state = visited state []
visit_each f members (i ∷ rest) state = elim (visit f members i state []) [
  | visited state' stack ↦ visit_each f members rest state'
  | cycle c ↦ cycle c
  | out_of_fuel ↦ out_of_fuel
]

abbrev pub positions_from : ℕ → List Member → List ℕ
positions_from i [] = []
positions_from i (m ∷ ms) = i ∷ positions_from (i + 1) ms

name_of : List Member → ℕ → Text
name_of members i = elim (get_elem? members i) [ none ↦ [] | some m ↦ m.name ]

in_a_cycle : List Member → List ℕ → JrsError
in_a_cycle members c = JrsError.manifest (
    codes "the workspace's members depend on each other in a cycle: "
    ++ join (codes " → ") (map (name_of members) c)
    ++ codes
        "\n\na member's classes are compiled before any member that depends on them, so the members cannot depend on each other both ways")

-- `none` means that the fuel of the search ran out.
unfoldable pub build_order : ℕ → List Member → Option (Result (List ℕ))
unfolding visit visit_all visit_each in_a_cycle name_of from_first leave
build_order f members =
    elim (visit_each f members (positions_from 0 members) (replicate (length members) 0)) [
      | visited state stack ↦ some (ok (order_of members))
      | cycle c ↦ some (err (in_a_cycle members c))
      | out_of_fuel ↦ none
    ]
