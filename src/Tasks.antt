-- ===== src/Tasks.antt =====
-- src/task.rs, with the data of src/manifest/mod.rs: the graph of tasks, what they depend on, and
-- the order in which they run.
pub mod Cycle
pub mod Plan
pub mod Check
mod Examples
use jrs.Prelude.{
  ℕ, zero, suc, Text, codes, Bool, true, false, ◌&&◌, ◌==◌, ◌≡◌, ◌↔◌, nat_eq, list_eq, Eq, Option,
  none, some, List, ◌∷◌, [], ◌++◌, map, find, arith, if◌then◌else◌, contains, join,
}
use jrs.Error.{JrsError, Result, ok, err}

pub data Builtin : Type 0 where
  build test package_jar doc : Builtin

pub data Hook : Type 0 where
  pre_compile post_compile pre_test post_test post_package pre_run : Hook

pub data TaskRef : Type 0 where
  task : Text → TaskRef
  builtin : Builtin → TaskRef
  in_member : (member name : Text) → TaskRef

-- What the graph reads of a task.
pub record TaskDef : Type 0 where
  pub name : Text
  pub depends_on : List TaskRef

pub record Manifest : Type 0 where
  pub tasks : List TaskDef
  pub hooks : List (Hook × List Text)

-- `PartialEq`, derived.
abbrev pub builtin_beq : Builtin → Builtin → Bool
builtin_beq build build = true
builtin_beq test test = true
builtin_beq package_jar package_jar = true
builtin_beq doc doc = true
builtin_beq _ _ = false

pub builtin_beq_iff : (a b : Builtin) → (builtin_beq a b ≡ true) ↔ (a ≡ b)
builtin_beq_iff build b = ground arith
builtin_beq_iff test b = ground arith
builtin_beq_iff package_jar b = ground arith
builtin_beq_iff doc b = ground arith

instance abbrev pub builtin_eq : Eq Builtin
builtin_eq = record { beq = builtin_beq; beq_iff = builtin_beq_iff }

abbrev pub hook_beq : Hook → Hook → Bool
hook_beq pre_compile pre_compile = true
hook_beq post_compile post_compile = true
hook_beq pre_test pre_test = true
hook_beq post_test post_test = true
hook_beq post_package post_package = true
hook_beq pre_run pre_run = true
hook_beq _ _ = false

pub hook_beq_iff : (a b : Hook) → (hook_beq a b ≡ true) ↔ (a ≡ b)
hook_beq_iff pre_compile b = ground arith
hook_beq_iff post_compile b = ground arith
hook_beq_iff pre_test b = ground arith
hook_beq_iff post_test b = ground arith
hook_beq_iff post_package b = ground arith
hook_beq_iff pre_run b = ground arith

instance abbrev pub hook_eq : Eq Hook
hook_eq = record { beq = hook_beq; beq_iff = hook_beq_iff }

abbrev pub task_ref_beq : TaskRef → TaskRef → Bool
task_ref_beq (task a) (task b) = a == b
task_ref_beq (builtin a) (builtin b) = a == b
task_ref_beq (in_member a b) (in_member c d) = a == c && b == d
task_ref_beq _ _ = false

pub task_ref_beq_iff : (a b : TaskRef) → (task_ref_beq a b ≡ true) ↔ (a ≡ b)
task_ref_beq_iff (task a) (task b) = ground (arith, (list_eq {A = ℕ}).beq_iff a b)
task_ref_beq_iff (task a) (builtin b) = ground arith
task_ref_beq_iff (task a) (in_member b c) = ground arith
task_ref_beq_iff (builtin a) (task b) = ground arith
task_ref_beq_iff (builtin a) (builtin b) = ground (arith, builtin_beq_iff a b)
task_ref_beq_iff (builtin a) (in_member b c) = ground arith
task_ref_beq_iff (in_member a b) (task c) = ground arith
task_ref_beq_iff (in_member a b) (builtin c) = ground arith
task_ref_beq_iff (in_member a b) (in_member c d) =
    ground (arith, (list_eq {A = ℕ}).beq_iff a c, (list_eq {A = ℕ}).beq_iff b d)

instance abbrev pub task_ref_eq : Eq TaskRef
task_ref_eq = record { beq = task_ref_beq; beq_iff = task_ref_beq_iff }

-- `Manifest::task`.
unfoldable pub task_named : Manifest → Text → Option TaskDef
task_named m name = find (λ (t : TaskDef). t.name == name) m.tasks

-- `Builtin::hooks`.
abbrev pub hooks_fired : Builtin → List Hook
hooks_fired build = pre_compile ∷ post_compile ∷ []
hooks_fired test = pre_compile ∷ post_compile ∷ pre_test ∷ post_test ∷ []
hooks_fired package_jar = pre_compile ∷ post_compile ∷ post_package ∷ []
hooks_fired doc = pre_compile ∷ []

-- `Hooks::tasks`.
unfoldable pub hook_tasks : Manifest → Hook → List Text
hook_tasks m hook = elim (find (λ (e : Hook × List Text). e.0 == hook) m.hooks) [
  | none ↦ []
  | some e ↦ e.1
]

-- A node, and the hook that led to it.
abbrev pub Step : Type 0
Step = TaskRef × Option Hook

steps_of : Manifest → List Hook → List Step
unfolding hook_tasks
steps_of m [] = []
steps_of m (hook ∷ hooks) =
    map (λ name. (task name, some hook)) (hook_tasks m hook) ++ steps_of m hooks

unfoldable pub depends_on : Manifest → Text → List TaskRef
unfolding task_named
depends_on m name = elim (task_named m name) [ none ↦ [] | some t ↦ t.depends_on ]

unfoldable pub edges : Manifest → TaskRef → List Step
unfolding depends_on steps_of
edges m (task name) = map (λ d. (d, none)) (depends_on m name)
edges m (in_member member name) = []
edges m (builtin b) = steps_of m (hooks_fired b)
