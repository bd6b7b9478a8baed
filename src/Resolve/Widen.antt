-- ===== src/Resolve/Widen.antt =====
-- src/resolve/mod.rs, the `loop` behind the walk of `resolve_walking`: a package that was widened
-- after its dependencies were walked takes them along.
pub mod Closure
use jrs.Prelude.{
  ℕ, zero, suc, Bool, true, false, not, ◌==◌, Option, none, some, List, ◌∷◌, [], if◌then◌else◌,
  lookup, modify, ◌+◌, ◌*◌, length,
}
use jrs.Coord.{Ga, ga_eq}
use jrs.Resolve.Classpath.{Classpath, join, classpath_eq}
use jrs.Resolve.Model.{Selected}

abbrev pub Selection : Type 0
Selection = List (Ga × Selected)

abbrev pub Edges : Type 0
Edges = List (Ga × List Ga)

-- The state of a pass: the selection, and whether it changed.
abbrev pub Pass : Type 0
Pass = Selection × Bool

abbrev pub widened : Classpath → Selected → Selected
widened widest c = record c { classpath = join c.classpath widest }

-- The `if let` over one child.
pub widen_on : Classpath → Pass → Ga → Option Selected → Pass
widen_on widest (m, changed) child none = (m, changed)
widen_on widest (m, changed) child (some c) =
    if join c.classpath widest == c.classpath
    then (m, changed)
    else (modify child (widened widest) m, true)

pub widen_child : Classpath → Pass → Ga → Pass
widen_child widest p child = widen_on widest p child (lookup child p.0)

pub widen_children : Classpath → Pass → List Ga → Pass
widen_children widest p [] = p
widen_children widest p (c ∷ cs) = widen_children widest (widen_child widest p c) cs

-- The body of the `for` over the edges; a parent that is not selected is passed over.
pub widen_parent : Pass → Option Selected → List Ga → Pass
widen_parent p none children = p
widen_parent p (some s) children = widen_children s.classpath p children

pub pass : Pass → Edges → Pass
pass p [] = p
pass p ((parent, children) ∷ es) = pass (widen_parent p (lookup parent p.0) children) es

-- The `loop`, with fuel; `none` means that the fuel ran out.
unfoldable pub widen : ℕ → Edges → Selection → Option Selection
widen zero edges m = none
widen (suc f) edges m =
    let (m', changed) = pass (m, false) edges in
    let again = widen f edges m' in if changed then again else some m'

-- Each round that goes on narrows a package's rank by one at least, and a rank is at most 2.
abbrev pub enough : Selection → ℕ
enough m = suc (2 * length m)

-- What a test opens, to run the loop.
unfoldable pub program : Unit {0}
unfolding widen_on widen_child widen_children widen_parent pass widen
program = tt
