-- ===== src/Impact/Walk.antt =====
-- src/compile/impact.rs, `walk`: every class that can be reached from one.
pub mod Visits
pub mod Reached
use jrs.Prelude.{
  ℕ, zero, suc, Text, Bool, true, false, List, ◌∷◌, [], contains, list_eq, nat_eq, if◌then◌else◌,
  set_insert,
}

-- What is seen, and the queue, the class that was put in last being the first.
abbrev pub Walked : Type 0
Walked = List Text × List Text

unfoldable pub visit : Walked → List Text → Walked
visit walked [] = walked
visit (seen, queue) (n ∷ ns) =
    let old = visit (seen, queue) ns in
    let new = visit (set_insert n seen, n ∷ queue) ns in if contains seen n then old else new

-- The loop, with fuel.
unfoldable pub walk_from : ℕ → (Text → List Text) → Walked → List Text
unfolding visit
walk_from fuel next (seen, []) = seen
walk_from zero next (seen, c ∷ queue) = seen
walk_from (suc fuel) next (seen, c ∷ queue) = walk_from fuel next (visit (seen, queue) (next c))

unfoldable pub walk : ℕ → Text → (Text → List Text) → List Text
unfolding walk_from
walk fuel start next = walk_from fuel next (start ∷ [], start ∷ [])
