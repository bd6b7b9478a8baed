-- ===== src/Tasks/Plan/Schedules.antt =====
-- What a schedule of tasks is.
use jrs.Prelude.{
  ℕ, true, false, ◌||◌, ◌==◌, nat_eq, list_eq, List, ◌∷◌, [], ◌++◌, contains, ◌<◌, ◌≡◌, arith,
}
use jrs.Tasks.{TaskRef, task_ref_eq, Manifest}
use jrs.Tasks.Plan.{dependencies}

-- Each node comes once, and after all that it depends on, the nodes of `before` having come.
abbrev pub IsScheduled : Manifest → List TaskRef → List TaskRef → Type 0
IsScheduled m before [] = Unit {0}
IsScheduled m before (node ∷ rest) =
    ((d : TaskRef) → contains (dependencies m node) d ≡ true → contains before d ≡ true)
    × (contains before node ≡ false)
    × IsScheduled m (node ∷ before) rest

-- What a node depends on is ranked below it.
abbrev pub IsRanked : Manifest → (TaskRef → ℕ) → Type 0
IsRanked m rank = (node d : TaskRef) → contains (dependencies m node) d ≡ true → rank d < rank node

pub IsScheduled-snoc :
    (m : Manifest) (before out : List TaskRef) (node : TaskRef)
    → IsScheduled m before out
    → ((d : TaskRef)
        → contains (dependencies m node) d ≡ true
        → (contains before d || contains out d) ≡ true)
    → (contains before node || contains out node) ≡ false
    → IsScheduled m before (out ++ node ∷ [])
IsScheduled-snoc m before [] node h deps new =
    (λ d among. ground (arith, deps d among), ground (arith, new), tt)
IsScheduled-snoc m before (x ∷ out) node (first, fresh, rest) deps new = (
  first,
  fresh,
  IsScheduled-snoc m (x ∷ before) out node rest (λ d among. ground (arith, deps d among))
      (ground (arith, new)),
)

pub contains-snoc :
    (out : List TaskRef) (node x : TaskRef)
    → contains (out ++ node ∷ []) x ≡ (contains out x || node == x)
contains-snoc [] node x = ground arith
contains-snoc (y ∷ out) node x = ground (arith, contains-snoc out node x)
