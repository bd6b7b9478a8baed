-- ===== src/Workspace.antt =====
-- src/workspace.rs: the members of a workspace, what they depend on, and the order they build in.
-- A member is named by its position.
pub mod Order
pub mod Build
pub mod Upstream
mod Examples
use jrs.Prelude.{
  ℕ, zero, suc, Text, codes, Bool, true, false, not, ◌&&◌, ◌||◌, ◌==◌, nat_eq, list_eq, Option,
  none, some, List, ◌∷◌, [], ◌++◌, map, any, if◌then◌else◌, length, get_elem?, retain, contains,
  ◌+◌, max, lookup, insert, join, foldl,
}
use jrs.Error.{JrsError, Result, ok, err, ◌>>=◌}
use jrs.Resolve.Classpath.{Classpath, compile, provided, runtime, test, classpath_eq, carried}
use jrs.Resolve.Classpath
use jrs.Resolve.Model.{Dependency}

-- A member, with the fields that the operations here read.
pub record Member : Type 0 where
  pub name : Text
  pub dir : Text
  pub modules : List (ℕ × Classpath)

pub record Workspace : Type 0 where
  pub root : Text
  pub members : List Member
  pub order : List ℕ

-- `members[i].modules`; every index that `module_edges` makes is a member's.
abbrev pub modules_of : List Member → ℕ → List (ℕ × Classpath)
modules_of members i = elim (get_elem? members i) [ none ↦ [] | some m ↦ m.modules ]

position_from : ℕ → (Member → Bool) → List Member → Option ℕ
position_from i p [] = none
position_from i p (m ∷ ms) = let rest = position_from (i + 1) p ms in if p m then some i else rest

-- `Workspace::member` and `Workspace::names`.
unfoldable pub member : Workspace → Text → Option ℕ
unfolding position_from
member w name = position_from 0 (λ m. m.name == name) w.members

unfoldable pub names : Workspace → Text
names w = join (codes ", ") (map (λ (m : Member). b'`' ∷ (m.name ++ b'`' ∷ [])) w.members)

no_member : Workspace → Text → JrsError
no_member w name = JrsError.usage (
    codes "there is no member `"
    ++ name
    ++ codes "` in the workspace at "
    ++ w.root
    ++ codes "\n\nits members are "
    ++ names w)

pub select_named : Workspace → List ℕ → List Text → Result (List ℕ)
unfolding no_member
select_named w out [] = ok out
select_named w out (name ∷ rest) = elim (member w name) [
  | none ↦ err (no_member w name)
  | some i ↦ select_named w (if contains out i then out else out ++ i ∷ []) rest
]

-- `Workspace::selected`.
unfoldable pub selected : Workspace → List Text → Option ℕ → Result (List ℕ)
unfolding select_named
selected w [] (some i) = ok (i ∷ [])
selected w [] none = ok w.order
selected w (name ∷ rest) location = select_named w [] (name ∷ rest)

-- The loop of `with_upstream` over one member's modules: what is wanted, and the queue behind it.
pub want : List ℕ × List ℕ → List (ℕ × Classpath) → List ℕ × List ℕ
want s [] = s
want (wanted, queue) ((up, _) ∷ modules) =
    want (if contains wanted up then (wanted, queue) else (up ∷ wanted, queue ++ up ∷ [])) modules

-- The `while` loop, with fuel; `none` means that the fuel ran out.
pub reach : ℕ → List Member → List ℕ → List ℕ → Option (List ℕ)
reach f members wanted [] = some wanted
reach zero members wanted (i ∷ queue) = none
reach (suc f) members wanted (i ∷ queue) =
    let (wanted', queue') = want (wanted, queue) (modules_of members i) in
    reach f members wanted' queue'

abbrev pub in_order : Workspace → Option (List ℕ) → Option (List ℕ)
in_order w none = none
in_order w (some wanted) = some (retain (λ i. contains wanted i) w.order)

unfoldable pub with_upstream : ℕ → Workspace → List ℕ → Option (List ℕ)
unfolding reach want
with_upstream f w members = in_order w (reach f w.members members members)

-- One more than the deepest upstream member that has a depth.
depth_below : List (ℕ × ℕ) → List (ℕ × Classpath) → ℕ
depth_below depth [] = 0
depth_below depth ((up, _) ∷ modules) = elim (lookup up depth) [
  | none ↦ depth_below depth modules
  | some d ↦ max (d + 1) (depth_below depth modules)
]

abbrev or_zero : Option ℕ → ℕ
or_zero none = 0
or_zero (some n) = n

pub widths : List Member → List (ℕ × ℕ) → List (ℕ × ℕ) → List ℕ → List (ℕ × ℕ)
unfolding depth_below
widths members depth width [] = width
widths members depth width (i ∷ rest) =
    let d = depth_below depth (modules_of members i) in
    widths members (insert i d depth) (insert d (or_zero (lookup d width) + 1) width) rest

unfoldable pub widest_level : Workspace → List ℕ → ℕ
unfolding widths
widest_level w members = foldl (λ n (e : ℕ × ℕ). max n e.1) 0 (widths w.members [] [] members)

-- `upstream`: the entry of a member that was reached before, widened.
abbrev pub Reached : Type 0
Reached = List (ℕ × Classpath)

carried_to : Classpath → List (ℕ × Classpath) → List (ℕ × Classpath)
carried_to classpath [] = []
carried_to classpath ((up, edge) ∷ modules) = elim (carried classpath edge) [
  | none ↦ carried_to classpath modules
  | some c ↦ (up, c) ∷ carried_to classpath modules
]

-- The `while` loop of `upstream`, with fuel.
pub upstream_from : ℕ → List Member → ℕ → Reached → List (ℕ × Classpath) → Option Reached
unfolding carried_to
upstream_from f members self reached [] = some reached
upstream_from zero members self reached (q ∷ queue) = none
upstream_from (suc f) members self reached ((i, classpath) ∷ queue) =
    let skipped = upstream_from f members self reached queue in
    let onward = queue ++ carried_to classpath (modules_of members i) in
    let first = upstream_from f members self (reached ++ (i, classpath) ∷ []) onward in
    if i == self then skipped else elim (lookup i reached) [
      | none ↦ first
      | some seen ↦
          let joined = Classpath.join seen classpath in
          let widened = upstream_from f members self (insert i joined reached) onward in
          if joined == seen then skipped else widened
    ]

unfoldable pub upstream : ℕ → Workspace → ℕ → Option Reached
unfolding upstream_from
upstream f w self = upstream_from f w.members self [] (modules_of w.members self)

-- `merge` and `classpath_of`.
unfoldable pub merge : Dependency → Dependency → Dependency
merge into other = record into {
  exclusions =
      retain (λ e. any (λ o. o.group == e.group && o.artifact == e.artifact) other.exclusions)
        into.exclusions;
  compile_only = into.compile_only && other.compile_only;
  runtime_only = into.runtime_only && other.runtime_only;
}

unfoldable pub classpath_of : Dependency → Classpath
classpath_of d = if d.compile_only then provided else if d.runtime_only then runtime else compile

-- The manifest's dependency on another member.
pub record ModuleDependency : Type 0 where
  pub name : Text
  pub path : Text
  pub dev : Bool
  pub compile_only : Bool
  pub runtime_only : Bool

unfoldable pub module_classpath : ModuleDependency → Classpath
module_classpath m =
    if m.dev
    then test
    else if m.compile_only
    then provided
    else if m.runtime_only
    then runtime
    else compile
