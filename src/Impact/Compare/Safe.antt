-- ===== src/Impact/Compare/Safe.antt =====
-- A test class that a change can reach is selected.
use jrs.Prelude.{
  Text, true, ◌==◌, nat_eq, list_eq, List, ◌∷◌, [], ◌≡◌, refl, ap, sym, ◌∙◌, arith, any, map,
  retain, contains, Bool-cases, inl, inr, ◌⊎◌, eq_sound, eq_refl, subst, set_extend,
  contains-set_extend,
}
use jrs.Impact.{only, top_level}
use jrs.Impact.Classes.{
  Classes, users_of, reach_users, finding_classes, Reach, unused, reached, reach_from,
}
use jrs.Impact.Classes.Users.{Uses, reach_users_complete, contains-retain}
use jrs.Impact.Compare.{Loaded, names_at, selected, with_finding, select_reached}

reach_from_keeps :
    (classes : Classes) (users : List (Text × List Text)) (tests changed so_far reach : List Text)
    (d : Text)
    → reach_from classes users tests changed so_far ≡ reached reach
    → contains so_far d ≡ true
    → contains reach d ≡ true
unfolding reach_from
reach_from_keeps classes users tests [] so_far reach d h m =
    let same : so_far ≡ reach = ground (arith, h) in subst (λ r. contains r d ≡ true) same m
reach_from_keeps classes users tests (c ∷ changed) so_far reach d h m =
    elim (Bool-cases (any (contains tests) (reach_users classes users c))) [
      | inr no_test ↦ absurd (ground (arith, (rw no_test at h)))
      | inl some_test ↦
          reach_from_keeps classes users tests changed
            (set_extend so_far (reach_users classes users c)) reach d (rw some_test at h)
            (ground (arith, m, contains-set_extend so_far (reach_users classes users c) d))
    ]

reach_from_complete :
    (classes : Classes) (users : List (Text × List Text)) (tests changed so_far reach : List Text)
    (c d : Text)
    → reach_from classes users tests changed so_far ≡ reached reach
    → contains changed c ≡ true
    → contains (reach_users classes users c) d ≡ true
    → contains reach d ≡ true
unfolding reach_from
reach_from_complete classes users tests [] so_far reach c d h among m =
    absurd (ground (arith, among))
reach_from_complete classes users tests (first ∷ changed) so_far reach c d h among m =
    let from_here = reach_users classes users first in
    elim (Bool-cases (any (contains tests) from_here)) [
      | inr no_test ↦ absurd (ground (arith, (rw no_test at h)))
      | inl some_test ↦ elim (Bool-cases (first == c)) [
        | inr other ↦
            reach_from_complete classes users tests changed (set_extend so_far from_here) reach c d
              (rw some_test at h) (ground (arith, among, other)) m
        | inl same ↦
            let found : contains from_here d ≡ true =
              subst (λ k. contains (reach_users classes users k) d ≡ true)
                (sym (eq_sound first c same)) m in
            reach_from_keeps classes users tests changed (set_extend so_far from_here) reach d
              (rw some_test at h) (ground (arith, found, contains-set_extend so_far from_here d))
      ]
    ]

pub contains-map :
    (f : Text → Text) (xs : List Text) (a : Text)
    → contains xs a ≡ true
    → contains (map f xs) (f a) ≡ true
contains-map f [] a h = absurd (ground (arith, h))
contains-map f (x ∷ xs) a h = elim (Bool-cases (x == a)) [
  | inl same ↦
      let e : f x ≡ f a = ap f (eq_sound x a same) in
      let first : (f x == f a) ≡ true = ap (λ y. y == f a) e ∙ eq_refl (f a) in
      ground (arith, first)
  | inr other ↦ ground (arith, contains-map f xs a (ground (arith, h, other)))
]

with_finding_keeps :
    (l : Loaded) (changed tops : List Text) (top : Text)
    → contains tops top ≡ true
    → contains (with_finding l changed tops) top ≡ true
unfolding with_finding
with_finding_keeps l [] tops top h = h
with_finding_keeps l (c ∷ changed) tops top h =
    ground (arith, h, contains-set_extend tops (finding_classes l.classes l.tests) top)

selected_keeps :
    (l : Loaded) (changed reach pending : List Text) (t : Text)
    → contains l.tests t ≡ true
    → contains reach t ≡ true
    → contains (selected l changed reach pending) (top_level t) ≡ true
unfolding selected
selected_keeps l changed reach pending t test m =
    let picked = retain (contains l.tests) reach in
    let among : contains picked t ≡ true =
      contains-retain (contains l.tests) reach t ∙ ground (arith, test, m) in
    let top : contains (map top_level picked) (top_level t) ≡ true =
      contains-map top_level picked t among in
    let tops : contains (set_extend [] (map top_level picked)) (top_level t) ≡ true =
      ground (arith, top, contains-set_extend [] (map top_level picked) (top_level t)) in
    let pending_too = retain (contains (map top_level l.tests)) pending in
    let more = with_finding l changed (set_extend [] (map top_level picked)) in
    let kept : contains more (top_level t) ≡ true =
      with_finding_keeps l changed (set_extend [] (map top_level picked)) (top_level t) tops in
    ground (arith, kept, contains-set_extend more pending_too (top_level t))

Reach-cases :
    (r : Reach) → ((why : Text) × (r ≡ unused why)) ⊎ ((reach : List Text) × (r ≡ reached reach))
Reach-cases (unused why) = inl (why, refl)
Reach-cases (reached reach) = inr (reach, refl)

-- A test class that uses a changed class.
pub select_reached_sound :
    (l : Loaded) (changed_files pending sel : List Text) (c t : Text)
    → select_reached l changed_files pending ≡ only sel
    → contains (names_at l.by_path changed_files) c ≡ true
    → contains l.tests t ≡ true
    → Uses l.classes c t
    → contains sel (top_level t) ≡ true
unfolding select_reached
select_reached_sound l changed_files pending sel c t h changes_it test uses =
    let changed = names_at l.by_path changed_files in
    let users = users_of l.classes l.classes [] in
    elim (Reach-cases (reach_from l.classes users l.tests changed [])) [
      | inl (why, e) ↦ absurd (ground (arith, (rw (select_reached, e) at h)))
      | inr (reach, e) ↦
          let same : selected l changed reach pending ≡ sel =
            ground (arith, (rw (select_reached, e) at h)) in
          let found : contains reach t ≡ true =
            reach_from_complete l.classes users l.tests changed [] reach c t e changes_it
              (reach_users_complete l.classes c t uses) in
          subst (λ s. contains s (top_level t) ≡ true) same
            (selected_keeps l changed reach pending t test found)
    ]
