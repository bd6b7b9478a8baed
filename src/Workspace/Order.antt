-- ===== src/Workspace/Order.antt =====
-- src/workspace.rs, the second half of `build_order`: Kahn's algorithm, taking the earliest declared
-- member that is ready.
pub mod Ready
pub mod Topological
use jrs.Prelude.{
  ℕ, zero, suc, Bool, true, false, not, ◌&&◌, ◌==◌, nat_eq, Option, none, some, List, ◌∷◌, [], ◌++◌,
  all, if◌then◌else◌, length, get_or, set, replicate, ◌+◌,
}
use jrs.Workspace.{Member, modules_of}
use jrs.Resolve.Classpath.{Classpath}

-- What is done, by member.
abbrev pub Done : Type 0
Done = List Bool

abbrev pub ready : List Member → Done → ℕ → Bool
ready members finished i =
    not (get_or finished i false)
    && all (λ (e : ℕ × Classpath). get_or finished e.0 false) (modules_of members i)

-- `(from..from + n).find(ready)`.
pub next_from : List Member → Done → ℕ → ℕ → Option ℕ
next_from members finished from zero = none
next_from members finished from (suc n) =
    let rest = next_from members finished (from + 1) n in
    if ready members finished from then some from else rest

-- `.unwrap_or(0)`.
abbrev pub or_first : Option ℕ → ℕ
or_first none = 0
or_first (some i) = i

unfoldable pub kahn : ℕ → List Member → Done → List ℕ
unfolding next_from
kahn zero members finished = []
kahn (suc left) members finished =
    let next = or_first (next_from members finished 0 (length members)) in
    next ∷ kahn left members (set finished next true)

unfoldable pub order_of : List Member → List ℕ
unfolding kahn
order_of members = kahn (length members) members (replicate (length members) false)
