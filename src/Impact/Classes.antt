-- ===== src/Impact/Classes.antt =====
-- src/compile/impact.rs: the classes of the project, who uses them, and what they reach.
pub mod Pushes
pub mod Users
use jrs.Prelude.{
  ℕ, zero, suc, Text, codes, Bool, true, false, not, ◌&&◌, ◌||◌, ◌==◌, nat_eq, list_eq, Option,
  none, some, List, ◌∷◌, [], ◌++◌, ◌+◌, if◌then◌else◌, any, find, map, retain, contains, length,
  lookup, insert, contains_key, starts_with, ends_with, replace, replace_from, set_insert,
  set_extend,
}
use jrs.Error.{Result, ok, err, ◌>>=◌}
use jrs.Impact.{
  Selection, every, only, Entry, Snapshot, ClassInfo, dynamic, is_class, is_under, top_level,
  added_or_removed,
}
use jrs.Impact.Walk.{walk}

abbrev pub Classes : Type 0
Classes = List (Text × ClassInfo)

-- Who refers to a class: a HashMap of names.
abbrev pub Users : Type 0
Users = List (Text × List Text)

unfoldable pub users_at : Users → Text → List Text
unfolding lookup
users_at users target = elim (lookup target users) [ none ↦ [] | some names ↦ names ]

pub push_user : Text → Text → Users → Users
unfolding insert users_at
push_user target name users = insert target (users_at users target ++ name ∷ []) users

unfoldable pub add_refs : Classes → Text → List Text → Users → Users
unfolding push_user lookup
add_refs classes name [] users = users
add_refs classes name (target ∷ refs) users = add_refs classes name refs (
    if not (target == name) && contains_key target classes
    then push_user target name users
    else users)

-- The loop over the classes `left`.
unfoldable pub users_of : Classes → Classes → Users → Users
unfolding add_refs
users_of classes [] users = users
users_of classes ((name, info) ∷ left) users =
    users_of classes left (add_refs classes name info.refs users)

-- A round for each class and one for the first.
abbrev pub rounds : Classes → ℕ
rounds classes = length classes + 1

unfoldable pub reach_users : Classes → Users → Text → List Text
unfolding walk users_at
reach_users classes users class = walk (rounds classes) class (users_at users)

-- What the changed classes reach, or the reason to run every test.
pub data Reach : Type 0 where
  unused : Text → Reach
  reached : List Text → Reach

unfoldable pub reach_from : Classes → Users → List Text → List Text → List Text → Reach
unfolding reach_users replace_from
reach_from classes users tests [] so_far = reached so_far
reach_from classes users tests (class ∷ changed) so_far =
    let from_here = reach_users classes users class in
    let rest = reach_from classes users tests changed (set_extend so_far from_here) in
    if any (contains tests) from_here
    then rest
    else unused (
        b'`'
        ∷ (replace (codes "/") (codes ".") class
            ++ codes "` changed, and no test class refers to it"))

-- The classes of the project that a class refers to.
unfoldable pub refs_at : Classes → Text → List Text
unfolding lookup
refs_at classes name = elim (lookup name classes) [
  | none ↦ []
  | some info ↦ retain (λ r. contains_key r classes) info.refs
]

unfoldable pub finds : Classes → Text → Bool
unfolding lookup starts_with
finds classes name = elim (lookup name classes) [
  | none ↦ false
  | some info ↦ any (λ r. any (starts_with r) dynamic) info.refs
]

unfoldable pub finding_from : Classes → List Text → List Text → List Text
unfolding walk refs_at finds top_level set_insert
finding_from classes [] out = out
finding_from classes (test ∷ tests) out =
    let top = top_level test in
    let reach = walk (rounds classes) test (refs_at classes) in
    finding_from classes tests (
      if contains out top
      then out
      else if any (finds classes) reach
      then set_insert top out
      else out)

unfoldable pub finding_classes : Classes → List Text → List Text
unfolding finding_from
finding_classes classes tests = finding_from classes tests []
