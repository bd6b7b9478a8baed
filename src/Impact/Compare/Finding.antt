-- ===== src/Impact/Compare/Finding.antt =====
-- Tests that find classes by themselves, and tests that are pending, are selected.
use jrs.Prelude.{
  Text, Bool, true, ◌&&◌, ◌||◌, ◌==◌, nat_eq, list_eq, List, ◌∷◌, [], ◌≡◌, ap, sym, ◌∙◌, arith,
  if◌then◌else◌, any, map, retain, contains, lookup, contains_key, Bool-cases, Option-cases, inl,
  inr, eq_sound, eq_refl, subst, set_insert, set_extend, contains-set_insert, contains-set_extend,
}
use jrs.Impact.{top_level}
use jrs.Impact.Walk.{walk}
use jrs.Impact.Walk.Visits.{Reaches}
use jrs.Impact.Walk.Reached.{walk-eq}
use jrs.Impact.Classes.{Classes, refs_at, rounds, finds, finding_from, finding_classes}
use jrs.Impact.Classes.Users.{names_of, contains-retain, length-names_of}
use jrs.Impact.Compare.{Loaded, selected, with_finding}
use jrs.Impact.Compare.Safe.{contains-map}

names_of_key :
    (classes : Classes) (n : Text)
    → contains_key n classes ≡ true
    → contains (names_of classes) n ≡ true
unfolding lookup
names_of_key [] n h = absurd (ground (arith, h))
names_of_key ((name, info) ∷ classes) n h = elim (Bool-cases (name == n)) [
  | inl same ↦ ground (arith, same)
  | inr other ↦ ground (arith, names_of_key classes n (rw (contains_key, other) at h))
]

refs_at_inside :
    (classes : Classes) (c d : Text)
    → contains (refs_at classes c) d ≡ true
    → contains (names_of classes) d ≡ true
unfolding refs_at
refs_at_inside classes c d h = elim (Option-cases (lookup c classes)) [
  | inl no_class ↦ absurd (ground (arith, (rw (refs_at, no_class) at h)))
  | inr (info, found) ↦
      let both : (contains_key d classes && contains info.refs d) ≡ true =
        sym (contains-retain (λ r. contains_key r classes) info.refs d)
        ∙ (rw (refs_at, found) at h) in
      names_of_key classes d (ground (arith, both))
]

any_at :
    (p : Text → Bool) (xs : List Text) (a : Text)
    → contains xs a ≡ true
    → p a ≡ true
    → any p xs ≡ true
any_at p [] a h holds = absurd (ground (arith, h))
any_at p (x ∷ xs) a h holds = elim (Bool-cases (x == a)) [
  | inl same ↦ let first : p x ≡ true = ap p (eq_sound x a same) ∙ holds in ground (arith, first)
  | inr other ↦ ground (arith, any_at p xs a (ground (arith, h, other)) holds)
]

-- One test of the loop.
with_test : Classes → Text → List Text → List Text
unfolding walk refs_at finds top_level set_insert
with_test classes test out =
    let top = top_level test in
    if contains out top
    then out
    else if any (finds classes) (walk (rounds classes) test (refs_at classes))
    then set_insert top out
    else out

or_true : (b : Bool) → (b || true) ≡ true
or_true b = ground arith

with_test_keeps :
    (classes : Classes) (test : Text) (out : List Text) (top : Text)
    → contains out top ≡ true
    → contains (with_test classes test out) top ≡ true
unfolding with_test
with_test_keeps classes test out top h =
    let more : contains (set_insert (top_level test) out) top ≡ true =
      contains-set_insert (top_level test) top out
      ∙ ap (λ b. top_level test == top || b) h
      ∙ or_true (top_level test == top) in
    elim (Bool-cases (contains out (top_level test))) [
      | inl old ↦ rw old h
      | inr new ↦
          elim (Bool-cases (any (finds classes) (walk (rounds classes) test (refs_at classes)))) [
            | inl does ↦ rw (new, does) more
            | inr not_it ↦ rw (new, not_it) h
          ]
    ]

finding_from_keeps :
    (classes : Classes) (tests out : List Text) (top : Text)
    → contains out top ≡ true
    → contains (finding_from classes tests out) top ≡ true
unfolding finding_from with_test
finding_from_keeps classes [] out top h = h
finding_from_keeps classes (test ∷ tests) out top h =
    finding_from_keeps classes tests (with_test classes test out) top
      (with_test_keeps classes test out top h)

-- A class that refers to something that finds classes can be reached from the test.
unfoldable pub FindsClasses : Classes → Text → Type 0
FindsClasses classes test = (c : Text) × Reaches (refs_at classes) test c × (finds classes c ≡ true)

with_test_adds :
    (classes : Classes) (test : Text) (out : List Text)
    → FindsClasses classes test
    → contains (with_test classes test out) (top_level test) ≡ true
unfolding FindsClasses with_test
with_test_adds classes test out (c, reaches, does) =
    let walked : contains (walk (rounds classes) test (refs_at classes)) c ≡ true =
      (walk-eq (rounds classes) (names_of classes) test (refs_at classes) (refs_at_inside classes)
          (omega (arith, length-names_of classes)) c).1
        reaches in
    let some_finds : any (finds classes) (walk (rounds classes) test (refs_at classes)) ≡ true =
      any_at (finds classes) (walk (rounds classes) test (refs_at classes)) c walked does in
    ground (
      arith,
      some_finds,
      eq_refl (top_level test),
      contains-set_insert (top_level test) (top_level test) out,
    )

finding_from_complete :
    (classes : Classes) (tests out : List Text) (test : Text)
    → contains tests test ≡ true
    → FindsClasses classes test
    → contains (finding_from classes tests out) (top_level test) ≡ true
unfolding finding_from with_test
finding_from_complete classes [] out test h does = absurd (ground (arith, h))
finding_from_complete classes (first ∷ tests) out test h does = elim (Bool-cases (first == test)) [
  | inr other ↦
      finding_from_complete classes tests (with_test classes first out) test
        (ground (arith, h, other)) does
  | inl same ↦
      let its : contains (with_test classes first out) (top_level test) ≡ true =
        subst (λ t. contains (with_test classes t out) (top_level test) ≡ true)
          (sym (eq_sound first test same)) (with_test_adds classes test out does) in
      finding_from_keeps classes tests (with_test classes first out) (top_level test) its
]

-- When a class changed, a test class from which a class can be reached that finds classes by itself
-- has its top-level class selected, whatever the change reaches.
pub selected_finding :
    (l : Loaded) (first : Text) (changed reach pending : List Text) (t : Text)
    → contains l.tests t ≡ true
    → FindsClasses l.classes t
    → contains (selected l (first ∷ changed) reach pending) (top_level t) ≡ true
unfolding selected with_finding finding_classes
selected_finding l first changed reach pending t test does =
    let tops = set_extend [] (map top_level (retain (contains l.tests) reach)) in
    let finding = finding_classes l.classes l.tests in
    let pending_too = retain (contains (map top_level l.tests)) pending in
    let found : contains finding (top_level t) ≡ true =
      finding_from_complete l.classes l.tests [] t test does in
    let more : contains (set_extend tops finding) (top_level t) ≡ true =
      ground (arith, found, contains-set_extend tops finding (top_level t)) in
    ground (arith, more, contains-set_extend (set_extend tops finding) pending_too (top_level t))

-- A test class that is pending, and still there, is selected whatever changed.
pub selected_pending :
    (l : Loaded) (changed reach pending : List Text) (t : Text)
    → contains l.tests t ≡ true
    → contains pending (top_level t) ≡ true
    → contains (selected l changed reach pending) (top_level t) ≡ true
unfolding selected
selected_pending l changed reach pending t test waits =
    let tops = set_extend [] (map top_level (retain (contains l.tests) reach)) in
    let present = map top_level l.tests in
    let there_still : contains present (top_level t) ≡ true =
      contains-map top_level l.tests t test in
    let kept : contains (retain (contains present) pending) (top_level t) ≡ true =
      contains-retain (contains present) pending (top_level t)
      ∙ ground (arith, there_still, waits) in
    ground (
      arith,
      kept,
      contains-set_extend (with_finding l changed tops) (retain (contains present) pending)
          (top_level t),
    )
