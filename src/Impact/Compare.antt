-- ===== src/Impact/Compare.antt =====
-- src/compile/impact.rs, `compare`, `finding_classes` and `select`.
pub mod Finding
pub mod Safe
pub mod Selects
use jrs.Prelude.{
  lossy, ℕ, zero, suc, Text, codes, Bool, true, false, not, ◌&&◌, ◌||◌, ◌==◌, nat_eq, list_eq,
  Option, none, some, List, ◌∷◌, [], ◌++◌, ◌+◌, if◌then◌else◌, any, find, map, retain, contains,
  length, lookup, insert, contains_key, starts_with, ends_with, replace, replace_from, set_insert,
  set_extend,
}
use jrs.Error.{Result, ok, err, ◌>>=◌}
use jrs.Impact.{
  Selection, every, only, Entry, Snapshot, ClassInfo, dynamic, is_class, is_under, top_level,
  added_or_removed,
}
use jrs.Impact.Walk.{walk}
use jrs.Impact.Classes.{
  Classes, Users, users_at, add_refs, users_of, rounds, reach_users, Reach, reach_from, refs_at,
  finds, finding_from, finding_classes, unused, reached,
}

-- A map from paths to hashes; of two entries the later one counts.
unfoldable pub hashes_from : List (List ℕ × Text) → List Entry → List (List ℕ × Text)
unfolding insert
hashes_from hashes [] = hashes
hashes_from hashes (e ∷ es) = hashes_from (insert e.path e.hash hashes) es

abbrev pub hashes_of : List Entry → List (List ℕ × Text)
hashes_of es = hashes_from [] es

-- The first file that was not there, or the files that changed.
pub data Changes : Type 0 where
  added : List ℕ → Changes
  files : List (List ℕ) → Changes

changed_and : List ℕ → Changes → Changes
changed_and path (added p) = added p
changed_and path (files ps) = files (path ∷ ps)

unfoldable pub changes : List (List ℕ × Text) → List Entry → Changes
unfolding lookup changed_and
changes before [] = files []
changes before (e ∷ es) = elim (lookup e.path before) [
  | none ↦ added e.path
  | some hash ↦ if hash == e.hash then changes before es else changed_and e.path (changes before es)
]

pub record Loaded : Type 0 where
  pub classes : Classes
  pub by_path : List (List ℕ × Text)
  pub tests : List Text

-- All classes, or the reason to run every test.
pub data Loading : Type 0 where
  whole : Text → Loading
  loaded : Loaded → Loading

abbrev pub nothing : Loaded
nothing = record { classes = []; by_path = []; tests = [] }

is_groovy : Option Text → Bool
unfolding ends_with
is_groovy none = false
is_groovy (some s) = ends_with s (codes ".groovy")

add_class : List ℕ → List ℕ → ClassInfo → Loaded → Loaded
unfolding insert set_insert is_under
add_class scan_dir path info l = record {
  classes = insert info.name info l.classes;
  by_path = insert path info.name l.by_path;
  tests = if is_under scan_dir path then set_insert info.name l.tests else l.tests;
}

-- The names of the classes that changed.
unfoldable pub names_at : List (List ℕ × Text) → List (List ℕ) → List Text
unfolding lookup
names_at by_path [] = []
names_at by_path (p ∷ ps) = elim (lookup p by_path) [
  | none ↦ names_at by_path ps
  | some name ↦ set_insert name (names_at by_path ps)
]

-- Where something changed, the tests that find classes by themselves come in.
unfoldable pub with_finding : Loaded → List Text → List Text → List Text
unfolding finding_classes
with_finding l [] tops = tops
with_finding l (c ∷ changed) tops = set_extend tops (finding_classes l.classes l.tests)

-- The end of `compare`.
unfoldable pub selected : Loaded → List Text → List Text → List Text → List Text
unfolding with_finding top_level set_extend
selected l changed reach pending =
    let tops = set_extend [] (map top_level (retain (contains l.tests) reach)) in
    let present = map top_level l.tests in
    set_extend (with_finding l changed tops) (retain (contains present) pending)

unfoldable pub select_reached : Loaded → List Text → List Text → Selection
unfolding names_at users_of reach_from selected
select_reached l changed_files pending =
    let changed = names_at l.by_path changed_files in
    elim (reach_from l.classes (users_of l.classes l.classes []) l.tests changed []) [
      | unused why ↦ every why
      | reached reach ↦ only (selected l changed reach pending)
    ]

unfoldable pub select_loaded : List Text → List Text → Loading → Selection
unfolding select_reached
select_loaded changed_files pending (whole why) = every why
select_loaded changed_files pending (loaded l) = select_reached l changed_files pending

unfoldable pub is_resource : List ℕ → Bool
unfolding is_class
is_resource p = not (is_class p)

module _ (read : List ℕ → Result (List ℕ)) (class_info : List ℕ → Option ClassInfo) where
  -- The loop that reads the classes.
  unfoldable pub load : Text → List Entry → Loaded → Result Loading
  unfolding is_class is_groovy add_class lossy
  load scan_dir [] l = ok (loaded l)
  load scan_dir (e ∷ es) l =
      let classes_of = read e.path >>= λ bytes. elim (class_info bytes) [
        | none ↦ ok (whole (codes "a class could not be read: " ++ lossy e.path))
        | some info ↦
            if is_groovy info.source_file
            then ok (whole (codes "Groovy classes are called by name at run time"))
            else load scan_dir es (add_class scan_dir e.path info l)
      ] in
      if is_class e.path then classes_of else load scan_dir es l

  unfoldable pub compare_changed : Snapshot → Snapshot → Text → Changes → Result Selection
  unfolding lossy added_or_removed hashes_from is_resource load select_loaded
  compare_changed previous now scan_dir (added path) = ok (added_or_removed path)
  compare_changed previous now scan_dir (files changed) =
      if not (length (hashes_of previous.files) == length now.files)
      then ok (every (codes "a file was removed from the classes"))
      else elim (find is_resource changed) [
        | some resource ↦ ok (every (codes "a resource changed: " ++ lossy resource))
        | none ↦ load scan_dir now.files nothing >>= λ loading.
            ok (select_loaded changed previous.pending loading)
      ]

  unfoldable pub compare : Snapshot → Snapshot → Text → Result Selection
  unfolding compare_changed changes hashes_from
  compare previous now scan_dir =
      compare_changed previous now scan_dir (changes (hashes_of previous.files) now.files)
