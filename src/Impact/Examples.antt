-- ===== src/Impact/Examples.antt =====
-- Runs of the selection of test classes (src/compile/impact.rs).
use jrs.Prelude.{
  as_bytes, set_insert, none, set_extend, decimal, ℕ, Text, codes, true, false, Option, some, List,
  ◌∷◌, [], ◌==◌, nat_eq, list_eq, ◌≡◌, refl, arith, ◌↔◌, if◌then◌else◌, contains, lookup,
  starts_with, split, length, ◌⊎◌, Bool-cases, inl, inr,
}
use jrs.Error.{Result, ok}
use jrs.Impact.{every, only, Entry, Snapshot, ClassInfo, top_level, is_class}
use jrs.Impact.Snapshots.{parse_snapshot, render_snapshot, snapshot_lines, cut_return, file_line}
use jrs.Impact.Snapshots.RoundTrip.{IsKept, IsLine, parse_snapshot-render_snapshot}
use jrs.Impact.Select.{Stat, select}
use jrs.Impact.Walk.{walk}
use jrs.Impact.Walk.Visits.{Reaches, here}
use jrs.Impact.Walk.Reached.{walk-eq}
use jrs.Impact.Classes.{finds, refs_at}
use jrs.Impact.Compare.{compare, Loaded, selected, load, hashes_of, nothing, loaded}
use jrs.Impact.Compare.Finding.{selected_finding, selected_pending, FindsClasses}
use jrs.Impact.Classes.Users.{itself, through}
use jrs.Impact.Compare.Selects.{compare_selects, compare_files}

-- A class file holds its own path, and is read by it.
abbrev read : Text → Result (List ℕ)
read path = ok path

abbrev class : Text → List Text → ClassInfo
class name refs = record { name = name; source_file = some (codes "X.java"); refs = refs }

abbrev class_info : List ℕ → Option ClassInfo
class_info bytes =
    if bytes == codes "main/A.class"
    then some (class (codes "p/A") (codes "p/A" ∷ []))
    else if bytes == codes "main/B.class"
    then some (class (codes "p/B") (codes "p/A" ∷ codes "p/B" ∷ []))
    else if bytes == codes "test/BTest.class"
    then some (class (codes "p/BTest$In") (codes "p/B" ∷ []))
    else some (class (codes "p/CTest") (codes "java/util/List" ∷ []))

abbrev file : Text → Text → Entry
file path hash = record { path = path; size = 1; modified = 1; hash = hash }

abbrev run : Text → Snapshot
run hash = record {
  settings = [];
  files =
      file (codes "main/A.class") hash
      ∷ file (codes "main/B.class") (codes "b")
      ∷ file (codes "test/BTest.class") (codes "t")
      ∷ file (codes "test/CTest.class") (codes "c")
      ∷ [];
  pending = [];
}

selects_users :
    compare read class_info (run (codes "a")) (run (codes "z")) (codes "test")
    ≡ ok (only (codes "p.BTest" ∷ []))
unfolding compare
selects_users = refl

nothing_changed :
    compare read class_info (run (codes "a")) (run (codes "a")) (codes "test") ≡ ok (only [])
unfolding compare
nothing_changed = refl

names_nested : top_level (codes "com/example/FooTest$Inner") ≡ codes "com.example.FooTest"
unfolding top_level
names_nested = refl

tells_class : is_class (codes "a.b/Foo.class") ≡ true
unfolding is_class
tells_class = refl

hidden_file : is_class (codes "a/.class") ≡ false
unfolding is_class
hidden_file = refl

abbrev names : List Text
names = codes "a" ∷ codes "b" ∷ []

abbrev next : Text → List Text
next c = if c == codes "a" then codes "b" ∷ codes "a" ∷ [] else []

names_inside : (c d : Text) → contains (next c) d ≡ true → contains names d ≡ true
names_inside c d h = elim (Bool-cases (c == codes "a")) [
  | inl first ↦
      let found : contains (codes "b" ∷ codes "a" ∷ []) d ≡ true = rw first at h in
      ground (arith, found)
  | inr other ↦
      let none_found : contains {A = Text} [] d ≡ true = rw other at h in
      absurd (ground (arith, none_found))
]

walk-eq_example :
    (contains (walk 3 (codes "a") next) (codes "b") ≡ true) ↔ Reaches next (codes "a") (codes "b")
walk-eq_example = walk-eq 3 names (codes "a") next names_inside (omega arith) (codes "b")

abbrev spring_project : Loaded
spring_project = record {
  classes =
      (codes "A", class (codes "A") [])
      ∷ (codes "T", class (codes "T") (codes "java/lang/reflect/Method" ∷ []))
      ∷ [];
  by_path = [];
  tests = codes "T" ∷ [];
}

T_finds : FindsClasses spring_project.classes (codes "T")
unfolding FindsClasses lookup starts_with finds
T_finds = (codes "T", here, refl)

selected_finding_example :
    contains (selected spring_project (codes "A" ∷ []) [] []) (top_level (codes "T")) ≡ true
selected_finding_example =
    selected_finding spring_project (codes "A") [] [] [] (codes "T") refl T_finds

T_waits : contains (codes "T" ∷ []) (top_level (codes "T")) ≡ true
unfolding top_level split
T_waits = refl

selected_pending_example :
    contains (selected spring_project [] [] (codes "T" ∷ [])) (top_level (codes "T")) ≡ true
selected_pending_example =
    selected_pending spring_project [] [] (codes "T" ∷ []) (codes "T") refl T_waits

abbrev before : Snapshot
before = run (codes "a")

abbrev now : Snapshot
now = run (codes "z")

abbrev everything : Loaded
everything = record {
  classes =
      (codes "p/A", class (codes "p/A") (codes "p/A" ∷ []))
      ∷ (codes "p/B", class (codes "p/B") (codes "p/A" ∷ codes "p/B" ∷ []))
      ∷ (codes "p/BTest$In", class (codes "p/BTest$In") (codes "p/B" ∷ []))
      ∷ (codes "p/CTest", class (codes "p/CTest") (codes "java/util/List" ∷ []))
      ∷ [];
  by_path =
      (codes "main/A.class", codes "p/A")
      ∷ (codes "main/B.class", codes "p/B")
      ∷ (codes "test/BTest.class", codes "p/BTest$In")
      ∷ (codes "test/CTest.class", codes "p/CTest")
      ∷ [];
  tests = codes "p/BTest$In" ∷ codes "p/CTest" ∷ [];
}

loads : load read class_info (codes "test") now.files nothing ≡ ok (loaded everything)
unfolding load
loads = refl

is_A : lookup (codes "main/A.class") everything.by_path ≡ some (codes "p/A")
unfolding lookup
is_A = refl

uses_B : contains (refs_at everything.classes (codes "p/BTest$In")) (codes "p/B") ≡ true
unfolding refs_at
uses_B = refl

B_uses_A : contains (refs_at everything.classes (codes "p/B")) (codes "p/A") ≡ true
unfolding refs_at
B_uses_A = refl

compare_selects_example :
    (lookup (codes "main/A.class") (hashes_of before.files) ≡ some (codes "z"))
    ⊎ (contains (codes "p.BTest" ∷ []) (top_level (codes "p/BTest$In")) ≡ true)
compare_selects_example =
    compare_selects read class_info before now (codes "test") (codes "p.BTest" ∷ []) everything 0
      (file (codes "main/A.class") (codes "z")) (codes "p/A") (codes "p/BTest$In") selects_users
      loads refl is_A refl
      (through (codes "p/BTest$In") (codes "p/B") uses_B
        (through (codes "p/B") (codes "p/A") B_uses_A itself))

compare_files_example :
    (length (hashes_of before.files) ≡ length now.files)
    × (hash : Text) × (lookup (codes "test/CTest.class") (hashes_of before.files) ≡ some hash)
    × ((hash ≡ codes "c") ⊎ (is_class (codes "test/CTest.class") ≡ true))
compare_files_example =
    compare_files read class_info before now (codes "test") (codes "p.BTest" ∷ []) 3
      (file (codes "test/CTest.class") (codes "c")) selects_users refl

abbrev kept : Snapshot
kept = record {
  settings = codes "5e";
  files =
      (record {
        path = as_bytes (codes "main/Café App.class");
        size = 12;
        modified = 99;
        hash = codes "ab";
      })
      ∷ [];
  pending = codes "p.ATest" ∷ codes "p.BTest" ∷ [];
}

writes :
    render_snapshot kept
    ≡ codes
        "jrs test impact 1\nsettings 5e\npending p.ATest\npending p.BTest\nfile 12 99 ab main/Café App.class\n"
unfolding render_snapshot decimal as_bytes
writes = refl

kept-IsKept : IsKept kept
unfolding set_extend set_insert IsLine snapshot_lines cut_return decimal as_bytes file_line
kept-IsKept = (
  refl,
  ((omega arith, omega arith, refl, (codes "main/Café App.class", refl, refl)), tt),
  ((refl, refl), ((refl, refl), ((refl, refl), ((refl, refl), ((refl, refl), tt))))),
)

-- A path with a line feed ends its line, and the snapshot is refused.
broken_path :
    parse_snapshot
      (render_snapshot (record kept { files = file (codes "main/a\nb.txt") (codes "ab") ∷ [] }))
    ≡ none
unfolding render_snapshot decimal parse_snapshot
broken_path = refl

-- A path that is no UTF-8 is kept as another path.
lossy_path :
    parse_snapshot (render_snapshot (record kept { files = file (0xFF ∷ []) (codes "ab") ∷ [] }))
    ≡ some (record kept { files = file (0xEF ∷ 0xBF ∷ 0xBD ∷ []) (codes "ab") ∷ [] })
unfolding render_snapshot decimal as_bytes parse_snapshot
lossy_path = refl

parse_snapshot-render_snapshot_example : parse_snapshot (render_snapshot kept) ≡ some kept
parse_snapshot-render_snapshot_example = parse_snapshot-render_snapshot kept kept-IsKept

abbrev stat : Text → Stat
stat path = record { path = path; size = 1; modified = 1 }

first_run :
    select
      (λ bytes. bytes)
      read
      class_info
      none
      (codes "s")
      (stat (codes "main/A.class") ∷ [])
      (codes "test")
    ≡ ok (
      every (codes "there is no earlier run to compare with"),
      record {
        settings = codes "s";
        files = file (codes "main/A.class") (codes "main/A.class") ∷ [];
        pending = [];
      },
    )
unfolding select
first_run = refl
