-- ===== src/Tasks/Plan.antt =====
-- src/task.rs, `plan` and what stands on it.
pub mod Schedules
pub mod Scheduled
pub mod Checked
use jrs.Prelude.{
  ℕ, zero, suc, Bool, true, false, Text, codes, ◌==◌, nat_eq, list_eq, Option, none, some, List,
  ◌∷◌, [], ◌++◌, map, if◌then◌else◌, contains, join,
}
use jrs.Error.{JrsError}
use jrs.Tasks.{
  TaskRef, task, builtin, in_member, Builtin, build, test, package_jar, doc, task_ref_eq, Manifest,
  TaskDef, task_named, depends_on, Hook, hook_tasks, Step, pre_compile, post_compile, pre_test,
  post_test, post_package, pre_run,
}

-- What is seen, and the order so far.
abbrev pub Planned : Type 0
Planned = List TaskRef × List TaskRef

unfoldable pub dependencies : Manifest → TaskRef → List TaskRef
unfolding depends_on
dependencies m (task name) = depends_on m name
dependencies m (builtin b) = []
dependencies m (in_member member name) = []

-- The loop over what a task depends on, or over the roots.
unfoldable pub visit_all :
    (TaskRef → Planned → Option Planned) → List TaskRef → Planned → Option Planned
visit_all visit [] planned = some planned
visit_all visit (dep ∷ deps) planned = elim (visit dep planned) [
  | none ↦ none
  | some after ↦ visit_all visit deps after
]

push : TaskRef → Option Planned → Option Planned
push node none = none
push node (some (seen, out)) = some (seen, out ++ node ∷ [])

-- `none` means that the fuel ran out.
unfoldable pub visit : ℕ → Manifest → TaskRef → Planned → Option Planned
unfolding dependencies visit_all push
visit zero m node planned = none
visit (suc f) m node (seen, out) =
    let inside = visit_all (visit f m) (dependencies m node) (node ∷ seen, out) in
    if contains seen node then some (seen, out) else push node inside

order_in : Option Planned → Option (List TaskRef)
order_in none = none
order_in (some (seen, out)) = some out

unfoldable pub plan : ℕ → Manifest → List TaskRef → Option (List TaskRef)
unfolding visit order_in
plan f m roots = order_in (visit_all (visit f m) roots ([], []))

tasks_among : Manifest → List TaskRef → List TaskDef
unfolding task_named
tasks_among m [] = []
tasks_among m (task name ∷ steps) = elim (task_named m name) [
  | none ↦ tasks_among m steps
  | some t ↦ t ∷ tasks_among m steps
]
tasks_among m (_ ∷ steps) = tasks_among m steps

-- The tasks that a hook runs.
unfoldable pub reached_from : ℕ → Manifest → Hook → Option (List TaskDef)
unfolding plan tasks_among hook_tasks
reached_from f m hook = elim (plan f m (map task (hook_tasks m hook))) [
  | none ↦ none
  | some steps ↦ some (tasks_among m steps)
]

-- `depends_on`: whether a task needs a built-in command.
unfoldable pub needs_builtin : ℕ → Manifest → Text → Builtin → Option Bool
unfolding plan
needs_builtin f m name b = elim (plan f m (task name ∷ [])) [
  | none ↦ none
  | some steps ↦ some (contains steps (builtin b))
]
