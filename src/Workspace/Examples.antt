-- ===== src/Workspace/Examples.antt =====
-- Runs on a small workspace (src/workspace.rs).
use jrs.Prelude.{
  true, retain, contains, ℕ, zero, suc, codes, false, none, some, List, ◌∷◌, [], ◌≡◌, refl, arith,
  lookup, length, replicate, insert, nat_eq,
}
use jrs.Error.{ok}
use jrs.Resolve.Classpath.{Classpath, compile, provided, runtime, test, carried}
use jrs.Resolve.Classpath
use jrs.Workspace.{
  modules_of, Member, Workspace, with_upstream, widest_level, upstream, selected, member,
}
use jrs.Workspace.Order.{order_of}
use jrs.Workspace.Order.Ready.{IsRanked}
use jrs.Workspace.Order.Topological.{IsBuildOrder, order_of-IsBuildOrder}
use jrs.Workspace.Upstream.{IsInside}
use jrs.Workspace.Upstream.Closed.{HasAll, with_upstream_closed}
use jrs.Workspace.Build.{build_order}

-- app needs core at runtime and api; api and core stand alone.
abbrev three : List Member
three =
    record { name = codes "app"; dir = codes "app"; modules = (2, runtime) ∷ (1, compile) ∷ [] }
    ∷ record { name = codes "api"; dir = codes "api"; modules = [] }
    ∷ record { name = codes "core"; dir = codes "core"; modules = (1, compile) ∷ [] }
    ∷ []

abbrev built : Workspace
built = record { root = codes "/w"; members = three; order = 1 ∷ 2 ∷ 0 ∷ [] }

orders : build_order 20 three ≡ some (ok (1 ∷ 2 ∷ 0 ∷ []))
unfolding build_order order_of
orders = refl

needs : with_upstream 9 built (2 ∷ []) ≡ some (1 ∷ 2 ∷ [])
unfolding with_upstream
needs = refl

sees : upstream 9 built 0 ≡ some ((2, runtime) ∷ (1, compile) ∷ [])
unfolding upstream lookup insert carried Classpath.join
sees = refl

at_once : widest_level built (1 ∷ 2 ∷ 0 ∷ []) ≡ 1
unfolding widest_level lookup insert
at_once = refl

chosen : selected built (codes "core" ∷ codes "app" ∷ codes "core" ∷ []) none ≡ ok (2 ∷ 0 ∷ [])
unfolding selected member
chosen = refl

-- app above core above api.
abbrev height : ℕ → ℕ
height zero = 2
height (suc zero) = 0
height (suc (suc i)) = 1

ranked : IsRanked three height
ranked zero = ((omega arith, omega arith), ((omega arith, omega arith), tt))
ranked (suc zero) = tt
ranked (suc (suc zero)) = ((omega arith, omega arith), tt)
ranked (suc (suc (suc i))) = tt

order_of-IsBuildOrder_example :
    IsBuildOrder three (replicate 3 false) (order_of three) × (length (order_of three) ≡ 3)
order_of-IsBuildOrder_example = order_of-IsBuildOrder three height ranked

-- Two ways to a library with a runtime-only module, one of them compile-only.
abbrev two_ways : List (ℕ × Classpath) → Workspace
two_ways modules = record {
  root = codes "/w";
  members =
      record { name = codes "app"; dir = codes "app"; modules = modules }
      ∷ record { name = codes "x"; dir = codes "x"; modules = (3, compile) ∷ [] }
      ∷ record { name = codes "y"; dir = codes "y"; modules = (3, compile) ∷ [] }
      ∷ record { name = codes "lib"; dir = codes "lib"; modules = (4, runtime) ∷ [] }
      ∷ record { name = codes "driver"; dir = codes "driver"; modules = [] }
      ∷ [];
  order = 4 ∷ 3 ∷ 1 ∷ 2 ∷ 0 ∷ [];
}

compile_only_first :
    upstream 20 (two_ways ((1, provided) ∷ (2, compile) ∷ [])) 0
    ≡ some ((1, provided) ∷ (2, compile) ∷ (3, compile) ∷ (4, compile) ∷ [])
unfolding upstream lookup insert carried Classpath.join
compile_only_first = refl

compile_only_last :
    upstream 20 (two_ways ((2, compile) ∷ (1, provided) ∷ [])) 0
    ≡ some ((2, compile) ∷ (1, provided) ∷ (3, compile) ∷ (4, runtime) ∷ [])
unfolding upstream lookup insert carried Classpath.join
compile_only_last = refl

inside : IsInside three
inside zero = (omega arith, (omega arith, tt))
inside (suc zero) = tt
inside (suc (suc zero)) = (omega arith, tt)
inside (suc (suc (suc i))) = tt

with_upstream_closed_example :
    (found : List ℕ) × (with_upstream 4 built (2 ∷ [])
      ≡ some (retain (λ i. contains found i) built.order))
    × ((i : ℕ) → contains (2 ∷ []) i ≡ true → contains found i ≡ true)
    × ((i : ℕ) → contains found i ≡ true → HasAll found (modules_of three i))
with_upstream_closed_example = with_upstream_closed built (2 ∷ []) inside
