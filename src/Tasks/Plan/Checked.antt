-- ===== src/Tasks/Plan/Checked.antt =====
-- Tasks that `find_cycle` finds no cycle in have a plan.
use jrs.Prelude.{
  ℕ, suc, true, Text, ◌==◌, nat_eq, list_eq, pair_eq, option_eq, none, some, List, ◌∷◌, [], map,
  find, if◌then◌else◌, contains, length, ◌+◌, ◌≤◌, ◌<◌, ◌≡◌, sym, subst, arith, Bool-cases,
  Option-cases, inl, inr, eq_sound,
}
use jrs.Tasks.{
  TaskRef, task, builtin, in_member, task_ref_eq, hook_eq, Manifest, TaskDef, Step, edges,
  task_named, depends_on,
}
use jrs.Tasks.Cycle.{States, walked, find_cycle}
use jrs.Tasks.Cycle.Consistent.{IsOrdered}
use jrs.Tasks.Cycle.Acyclic.{find_cycle_complete}
use jrs.Tasks.Plan.{dependencies, plan}
use jrs.Tasks.Plan.Schedules.{IsScheduled}
use jrs.Tasks.Plan.Scheduled.{plan_works}

-- How many nodes stand behind the last place of a node, itself counted.
rank_in : List TaskRef → TaskRef → ℕ
rank_in [] x = 0
rank_in (node ∷ order) x =
    let rest = rank_in order x in
    if contains order x then rest else if node == x then suc (length order) else 0

rank_in_le : (order : List TaskRef) (x : TaskRef) → rank_in order x ≤ length order
unfolding rank_in
rank_in_le [] x = omega arith
rank_in_le (node ∷ order) x = ground (arith, rank_in_le order x)

order_closed :
    (m : Manifest) (order : List TaskRef) (n : TaskRef) (s : Step)
    → IsOrdered m order
    → contains order n ≡ true
    → contains (edges m n) s ≡ true
    → contains order s.0 ≡ true
order_closed m [] n s h among e = absurd (ground (arith, among))
order_closed m (k ∷ order) n s (first, h) among e = elim (Bool-cases (k == n)) [
  | inl is ↦
      let later = first s (subst (λ j. contains (edges m j) s ≡ true) (sym (eq_sound k n is)) e) in
      ground (arith, later)
  | inr other ↦
      let later = order_closed m order n s h (ground (arith, among, other)) e in
      ground (arith, later)
]

rank_in_lower :
    (m : Manifest) (order : List TaskRef) (n : TaskRef) (s : Step)
    → IsOrdered m order
    → contains order n ≡ true
    → contains (edges m n) s ≡ true
    → rank_in order s.0 < rank_in order n
unfolding rank_in
rank_in_lower m [] n s h among e = absurd (ground (arith, among))
rank_in_lower m (k ∷ order) n s (first, h) among e = elim (Bool-cases (contains order n)) [
  | inl later ↦
      let target = order_closed m order n s h later e in
      rw (later, target) (rank_in_lower m order n s h later e)
  | inr last ↦
      let is : (k == n) ≡ true = ground (arith, among, last) in
      let target : contains order s.0 ≡ true =
        first s (subst (λ j. contains (edges m j) s ≡ true) (sym (eq_sound k n is)) e) in
      rw (last, is, target) (omega (arith, rank_in_le order s.0))
]

find_named :
    (tasks : List TaskDef) (name : Text) (t : TaskDef)
    → find (λ (d : TaskDef). d.name == name) tasks ≡ some t
    → contains (map (λ (d : TaskDef). task d.name) tasks) (task name) ≡ true
find_named [] name t h = absurd (ground (arith, h))
find_named (d ∷ tasks) name t h = elim (Bool-cases (d.name == name)) [
  | inl is ↦ ground (arith, is)
  | inr other ↦ let later = find_named tasks name t (rw other at h) in ground (arith, later)
]

abbrev as_step : TaskRef → Step
as_step d = (d, none)

contains-steps :
    (deps : List TaskRef) (d : TaskRef)
    → contains deps d ≡ true
    → contains (map as_step deps) (as_step d) ≡ true
contains-steps [] d h = absurd (ground (arith, h))
contains-steps (e ∷ deps) d h = elim (Bool-cases (e == d)) [
  | inl is ↦ ground (arith, is)
  | inr other ↦
      let later = contains-steps deps d (ground (arith, h, other)) in ground (arith, later)
]

-- What depends on something is a task of the manifest, and its edges lead there.
dependencies-edges :
    (m : Manifest) (node d : TaskRef)
    → contains (dependencies m node) d ≡ true
    → (contains (map (λ (t : TaskDef). task t.name) m.tasks) node ≡ true)
      × (contains (edges m node) (d, none) ≡ true)
unfolding dependencies edges depends_on task_named
dependencies-edges m (builtin b) d h = absurd (ground (arith, h))
dependencies-edges m (in_member member name) d h = absurd (ground (arith, h))
dependencies-edges m (task name) d h = (
  elim (Option-cases (task_named m name)) [
    | inl no_task ↦ absurd (ground (arith, (rw (depends_on, no_task) at h)))
    | inr (t, is) ↦ find_named m.tasks name t is
  ],
  contains-steps (depends_on m name) d h,
)

-- Where `find_cycle` comes to its end without a cycle, `plan` comes to its end for any roots, with
-- enough fuel, and gives a list with the roots in it in which each node comes once and after all
-- that it depends on.
pub plan_of_checked :
    (f : ℕ) (m : Manifest) (s : States) (p : List Step) (roots : List TaskRef)
    → find_cycle f m ≡ walked s p
    → (g : ℕ) × (out : List TaskRef) × (plan g m roots ≡ some out)
      × IsScheduled m [] out
      × ((root : TaskRef) → contains roots root ≡ true → contains out root ≡ true)
plan_of_checked f m s p roots h =
    let (order, ordered, all_tasks) = find_cycle_complete f m s p h in
    let g = length order + 1 in
    let (out, runs, scheduled, has_roots) =
      plan_works m (rank_in order) g roots
        (λ node d among.
          let (is_task, edge) = dependencies-edges m node d among in
          rank_in_lower m order node (d, none) ordered (all_tasks node is_task) edge)
        (λ root among. omega (arith, rank_in_le order root)) in
    (g, out, runs, scheduled, has_roots)
