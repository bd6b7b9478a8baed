-- ===== src/Impact.antt =====
-- src/compile/impact.rs: which test classes a change can reach. A path is its bytes, as on
-- Unix, with `/` between its parts; `display` makes a text of it. The hash, the reader of class files
-- (src/compile/abi.rs) and the file system are arguments.
pub mod Walk
pub mod Snapshots
mod Examples
pub mod Classes
pub mod Compare
pub mod Select
use jrs.Prelude.{
  lossy, ℕ, Text, codes, Bool, true, false, ◌&&◌, ◌||◌, ◌==◌, nat_eq, list_eq, Option, none, some,
  List, ◌∷◌, [], ◌++◌, if◌then◌else◌, any, map, drop, length, starts_with, ends_with, split,
  replace, replace_from, is_empty,
}

-- `Every`, with the reason, or only these top-level test classes.
pub data Selection : Type 0 where
  every : Text → Selection
  only : List Text → Selection

pub record Entry : Type 0 where
  pub path : List ℕ
  pub size : ℕ
  pub modified : ℕ
  pub hash : Text

pub record Snapshot : Type 0 where
  pub settings : Text
  pub files : List Entry
  pub pending : List Text

-- What the selection reads of a class.
pub record ClassInfo : Type 0 where
  pub name : Text
  pub source_file : Option Text
  pub refs : List Text

abbrev pub dynamic : List Text
dynamic =
    codes "org/springframework/boot/test/"
    ∷ codes "org/springframework/test/"
    ∷ codes "io/micronaut/test/"
    ∷ codes "io/quarkus/test/"
    ∷ codes "io/ktor/server/testing/"
    ∷ codes "org/junit/platform/suite/"
    ∷ codes "io/cucumber/"
    ∷ codes "com/tngtech/archunit/"
    ∷ codes "org/reflections/"
    ∷ codes "io/github/classgraph/"
    ∷ codes "java/util/ServiceLoader"
    ∷ codes "java/lang/reflect/"
    ∷ []

-- `s.rsplit_once(sep)`.
unfoldable pub rsplit_once : ℕ → Text → Option (Text × Text)
rsplit_once sep [] = none
rsplit_once sep (c ∷ s) = elim (rsplit_once sep s) [
  | some (a, b) ↦ some (c ∷ a, b)
  | none ↦ if c == sep then some ([], s) else none
]

-- `Path::extension`.
extension_of : List ℕ → Option (List ℕ)
unfolding rsplit_once
extension_of name = elim (rsplit_once b'.' name) [
  | none ↦ none
  | some (stem, extension) ↦ if is_empty stem then none else some extension
]

file_name : List ℕ → List ℕ
unfolding rsplit_once
file_name path = elim (rsplit_once b'/' path) [ none ↦ path | some (dir, name) ↦ name ]

unfoldable pub is_class : List ℕ → Bool
unfolding extension_of file_name
is_class path = elim (extension_of (file_name path)) [ none ↦ false | some e ↦ e == codes "class" ]

-- `path.starts_with(dir)`, by the parts of a path.
unfoldable pub is_under : List ℕ → List ℕ → Bool
unfolding starts_with
is_under dir path = path == dir || starts_with path (dir ++ b'/' ∷ [])

first_part : ℕ → Text → Text
unfolding split
first_part sep s = elim (split sep s) [ [] ↦ s | p ∷ ps ↦ p ]

unfoldable pub top_level : Text → Text
unfolding rsplit_once first_part replace_from
top_level internal = elim (rsplit_once b'/' internal) [
  | none ↦ first_part b'$' internal
  | some (prefix, simple) ↦
      if is_empty prefix
      then first_part b'$' simple
      else replace (codes "/") (codes ".") prefix ++ b'.' ∷ first_part b'$' simple
]

unfoldable pub added_or_removed : List ℕ → Selection
unfolding is_class lossy
added_or_removed path =
    if is_class path
    then every (codes "a class was added or removed")
    else every (codes "a resource changed: " ++ lossy path)
