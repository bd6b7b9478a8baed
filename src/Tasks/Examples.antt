-- ===== src/Tasks/Examples.antt =====
-- Runs of the graph of tasks (src/task.rs).
use jrs.Prelude.{
  ℕ, Text, codes, true, none, some, List, ◌∷◌, [], ◌==◌, nat_eq, list_eq, pair_eq, option_eq, ◌≡◌,
  ◌≢◌, refl, arith, contains, map, join, Bool-cases, inl, inr,
}
use jrs.Error.{ok}
use jrs.Tasks.{
  TaskRef, task, builtin, in_member, build, test, package_jar, doc, hook_tasks, task_ref_eq,
  hook_eq, Manifest, TaskDef, Step, pre_compile, edges, depends_on, task_named,
}
use jrs.Tasks.Cycle.{found, walked, out_of_fuel, find_cycle, States, done}
use jrs.Tasks.Cycle.Sound.{IsCycle, find_cycle_sound}
use jrs.Tasks.Cycle.Consistent.{IsOrdered}
use jrs.Tasks.Cycle.Acyclic.{find_cycle_complete}
use jrs.Tasks.Cycle.Ends.{IsClosed, find_cycle_ends}
use jrs.Tasks.Plan.{plan}
use jrs.Tasks.Plan.Schedules.{IsScheduled}
use jrs.Tasks.Plan.Checked.{plan_of_checked}
use jrs.Tasks.Check.{check_graph, describe_cycle}

abbrev a : TaskRef
a = task (codes "a")

abbrev b : TaskRef
b = task (codes "b")

-- `a` needs a build, and a build runs `b` before it compiles.
abbrev hooked : Manifest
hooked = record {
  tasks =
      (record { name = codes "a"; depends_on = builtin build ∷ b ∷ [] })
      ∷ (record { name = codes "b"; depends_on = [] })
      ∷ [];
  hooks = (pre_compile, codes "b" ∷ []) ∷ [];
}

-- Here `b` needs the build that runs it.
abbrev circular : Manifest
circular = record {
  tasks = (record { name = codes "b"; depends_on = builtin build ∷ [] }) ∷ [];
  hooks = (pre_compile, codes "b" ∷ []) ∷ [];
}

abbrev the_cycle : List Step
the_cycle = (b, none) ∷ (builtin build, none) ∷ (b, some pre_compile) ∷ []

finds_cycle : find_cycle 3 circular ≡ found the_cycle
unfolding find_cycle
finds_cycle = refl

abbrev all_done : States
all_done = (a, done) ∷ (builtin build, done) ∷ (b, done) ∷ []

finds_no_cycle : find_cycle 4 hooked ≡ walked all_done []
unfolding find_cycle
finds_no_cycle = refl

plans : plan 3 hooked (a ∷ b ∷ []) ≡ some (builtin build ∷ b ∷ a ∷ [])
unfolding plan
plans = refl

describes :
    describe_cycle the_cycle
    ≡ codes
        "the tasks depend on each other in a cycle: b → build → b\n\n`build` runs the `pre-compile` hook, which runs `b`: a task a hook runs cannot depend on a command that fires that hook"
unfolding describe_cycle join
describes = refl

checks : check_graph 4 hooked ≡ some (ok tt)
unfolding check_graph
checks = refl

find_cycle_sound_example : IsCycle circular the_cycle
find_cycle_sound_example = find_cycle_sound 3 circular the_cycle finds_cycle

find_cycle_complete_example :
    (order : List TaskRef) × IsOrdered hooked order
    × ((x : TaskRef)
        → contains (map (λ (t : TaskDef). task t.name) hooked.tasks) x ≡ true
        → contains order x ≡ true)
find_cycle_complete_example = find_cycle_complete 4 hooked all_done [] finds_no_cycle

plan_of_checked_example :
    (g : ℕ) × (out : List TaskRef) × (plan g hooked (a ∷ []) ≡ some out)
    × IsScheduled hooked [] out
    × ((root : TaskRef) → contains (a ∷ []) root ≡ true → contains out root ≡ true)
plan_of_checked_example = plan_of_checked 4 hooked all_done [] (a ∷ []) finds_no_cycle

abbrev names : List TaskRef
names = b ∷ builtin build ∷ []

edges_of_task :
    (name : Text) (s : Step)
    → contains (edges circular (task name)) s ≡ true
    → contains names s.0 ≡ true
unfolding edges depends_on task_named
edges_of_task name s h = elim (Bool-cases (codes "b" == name)) [
  | inr other ↦ absurd (ground (arith, (rw (depends_on, task_named, other) at h)))
  | inl is ↦ ground (arith, (rw (depends_on, task_named, is) at h))
]

names-IsClosed : IsClosed circular names
unfolding edges hook_tasks
names-IsClosed (task name) s h = edges_of_task name s h
names-IsClosed (builtin build) s h = ground (arith, h)
names-IsClosed (builtin test) s h = ground (arith, h)
names-IsClosed (builtin package_jar) s h = ground (arith, h)
names-IsClosed (builtin doc) s h = ground (arith, h)
names-IsClosed (in_member member name) s h = absurd (ground (arith, h))

tasks_named :
    (x : TaskRef)
    → contains (map (λ (t : TaskDef). task t.name) circular.tasks) x ≡ true
    → contains names x ≡ true
tasks_named x h = ground (arith, h)

find_cycle_ends_example : find_cycle 3 circular ≢ out_of_fuel
find_cycle_ends_example = find_cycle_ends 3 circular names names-IsClosed tasks_named (omega arith)
