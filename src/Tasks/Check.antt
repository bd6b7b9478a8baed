-- ===== src/Tasks/Check.antt =====
-- src/task.rs: the checks of the graph in `check`, up to the placeholder of the jar, and the message
-- about a cycle.
use jrs.Prelude.{
  ℕ, Text, codes, nat_eq, list_eq, Option, none, some, List, ◌∷◌, [], ◌++◌, map, if◌then◌else◌,
  contains, join,
}
use jrs.Error.{JrsError, Result, ok, err, ◌>>=◌}
use jrs.Tasks.{
  TaskRef, task, builtin, in_member, Builtin, build, test, package_jar, doc, task_ref_eq, Manifest,
  TaskDef, task_named, Hook, Step, pre_compile, post_compile, pre_test, post_test, post_package,
  pre_run,
}
use jrs.Tasks.Cycle.{Walk, walked, found, out_of_fuel, find_cycle}

abbrev pub builtin_name : Builtin → Text
builtin_name build = codes "build"
builtin_name test = codes "test"
builtin_name package_jar = codes "package"
builtin_name doc = codes "doc"

abbrev pub hook_name : Hook → Text
hook_name pre_compile = codes "pre-compile"
hook_name post_compile = codes "post-compile"
hook_name pre_test = codes "pre-test"
hook_name post_test = codes "post-test"
hook_name post_package = codes "post-package"
hook_name pre_run = codes "pre-run"

-- `Display for TaskRef`.
unfoldable pub display_task : TaskRef → Text
display_task (task name) = name
display_task (builtin b) = builtin_name b
display_task (in_member member name) = member ++ b':' ∷ name

-- What a hook of a built-in command has to do with a cycle.
hook_note : Step → Step → Text
unfolding display_task
hook_note (builtin b, _) (node, some hook) =
    codes "\n\n`"
    ++ (builtin_name b
        ++ (codes "` runs the `"
            ++ (hook_name hook
                ++ (codes "` hook, which runs `"
                    ++ (display_task node
                        ++ codes
                            "`: a task a hook runs cannot depend on a command that fires that hook")))))
hook_note _ _ = []

hook_notes : List Step → Text
unfolding hook_note
hook_notes [] = []
hook_notes (s ∷ []) = []
hook_notes (s ∷ t ∷ steps) = hook_note s t ++ hook_notes (t ∷ steps)

unfoldable pub describe_cycle : List Step → Text
unfolding hook_notes display_task
describe_cycle cycle =
    codes "the tasks depend on each other in a cycle: "
    ++ (join (codes " → ") (map (λ (s : Step). display_task s.0) cycle) ++ hook_notes cycle)

no_task : Text → Text → JrsError
no_task owner name = JrsError.manifest (
    codes "`tasks."
    ++ (owner
        ++ (codes ".depends-on` names `" ++ (name ++ codes "`, which is not a task in [tasks]"))))

check_dependencies : Manifest → Text → List TaskRef → Result (Unit {0})
unfolding task_named no_task
check_dependencies m owner [] = ok tt
check_dependencies m owner (task name ∷ deps) = elim (task_named m name) [
  | none ↦ err (no_task owner name)
  | some t ↦ check_dependencies m owner deps
]
check_dependencies m owner (_ ∷ deps) = check_dependencies m owner deps

check_each : Manifest → List TaskDef → Result (Unit {0})
unfolding check_dependencies
check_each m [] = ok tt
check_each m (t ∷ tasks) = check_dependencies m t.name t.depends_on >>= λ _. check_each m tasks

-- `RESERVED_TASK_NAMES`.
abbrev pub reserved_task_names : List Text
reserved_task_names =
    codes "build"
    ∷ codes "test"
    ∷ codes "run"
    ∷ codes "package"
    ∷ codes "doc"
    ∷ codes "clean"
    ∷ codes "tree"
    ∷ codes "classpath"
    ∷ codes "update"
    ∷ codes "verify"
    ∷ codes "outdated"
    ∷ codes "licenses"
    ∷ codes "audit"
    ∷ codes "add"
    ∷ codes "remove"
    ∷ codes "cache"
    ∷ codes "init"
    ∷ codes "migrate"
    ∷ codes "completions"
    ∷ codes "task"
    ∷ codes "help"
    ∷ codes "metadata"
    ∷ codes "fetch"
    ∷ codes "self"
    ∷ codes "jdk"
    ∷ codes "wrapper"
    ∷ codes "install"
    ∷ []

no_hook_task : Hook → Text → JrsError
no_hook_task hook name = JrsError.manifest (
    codes "`hooks."
    ++ (hook_name hook
        ++ (codes "` names `"
            ++ (name
                ++ (codes "`, "
                    ++ (if contains reserved_task_names name
                        then codes "which is a jrs command; a hook runs tasks"
                        else codes "which is not a task in [tasks]"))))))

check_hook : Manifest → Hook → List Text → Result (Unit {0})
unfolding task_named no_hook_task
check_hook m hook [] = ok tt
check_hook m hook (name ∷ names) = elim (task_named m name) [
  | none ↦ err (no_hook_task hook name)
  | some t ↦ check_hook m hook names
]

check_hooks : Manifest → List (Hook × List Text) → Result (Unit {0})
unfolding check_hook
check_hooks m [] = ok tt
check_hooks m ((hook, names) ∷ hooks) = check_hook m hook names >>= λ _. check_hooks m hooks

cycle_error : Walk → Option (Result (Unit {0}))
unfolding describe_cycle
cycle_error (walked states path) = some (ok tt)
cycle_error (found cycle) = some (err (JrsError.manifest (describe_cycle cycle)))
cycle_error out_of_fuel = none

-- `none` means that the fuel of the search ran out.
unfoldable pub check_graph : ℕ → Manifest → Option (Result (Unit {0}))
unfolding check_each check_hooks find_cycle cycle_error
check_graph f m = elim (check_each m m.tasks >>= λ _. check_hooks m m.hooks) [
  | err problem ↦ some (err problem)
  | ok _ ↦ cycle_error (find_cycle f m)
]
