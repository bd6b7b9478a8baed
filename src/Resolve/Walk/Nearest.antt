-- ===== src/Resolve/Walk/Nearest.antt =====
-- Nearest-wins mediation: what the walk selects, and that no later request changes it.
use jrs.Prelude.{
  eq_sound, retain-append, ◌++◌, ◌≡◌, refl, ap, sym, ◌∙◌, arith, Bool, true, false, not, ◌||◌, ◌==◌,
  nat_eq, Option, none, some, List, ◌∷◌, [], retain, lookup, lookup-insert, lookup-modify, foldl,
  Bool-cases, inl, inr,
}
use jrs.Coord.{Ga, ga_eq, ga}
use jrs.Coord.Version.{compare_versions}
use jrs.Resolve.Classpath.{join}
use jrs.Resolve.Model.{Pending, Selected, Warning}
use jrs.Resolve.Walk.{
  rewalk_on, select_on, Walk, Level, warn, warn_all, raise_highest, rewalk_item, rewalk_with,
  select, add_edge, mediate, mediate_all, requested_again, first_request, is_eq,
}

abbrev pub requests_for : Ga → List Pending → List Pending
requests_for g = retain (λ i. ga i.coord == g)

-- A selected package and further requests for it.
abbrev pub settle : Selected → List Pending → Selected
settle e items = record {
  coord = e.coord;
  depth = e.depth;
  classpath = foldl (λ c (i : Pending). join c i.classpath) e.classpath items;
  direct = foldl (λ b (i : Pending). b || i.depth == 1) e.direct items;
  mediated =
      foldl (λ b (i : Pending). b || not (is_eq (compare_versions e.coord.version i.coord.version)))
        e.mediated items;
}

-- What a package is after its requests: the first one selects it, where it is not selected yet.
abbrev pub settled : Option Selected → List Pending → Option Selected
settled (some e) items = some (settle e items)
settled none [] = none
settled none (i ∷ items) = some (settle (first_request i) items)

warn_selected : (msg : Warning) (w : Walk) → (warn msg w).selected ≡ w.selected
unfolding warn
warn_selected msg w = ground arith

pub warn_all_selected : (msgs : List Warning) (w : Walk) → (warn_all msgs w).selected ≡ w.selected
unfolding warn_all
warn_all_selected [] w = refl
warn_all_selected (m ∷ ms) w = warn_all_selected ms (warn m w) ∙ warn_selected m w

raise_highest_selected : (item : Pending) (w : Walk) → (raise_highest item w).selected ≡ w.selected
unfolding raise_highest
raise_highest_selected item w = ground arith

rewalk_with_selected :
    (item : Pending) (w : Walk) (l : List Pending) (e : Selected) (b : List Ga × Bool)
    → (rewalk_with item w l e b).0.selected ≡ w.selected
unfolding rewalk_with
rewalk_with_selected item w l e (before, p) = ground arith

rewalk_on_selected :
    (item : Pending) (w : Walk) (l : List Pending) (e : Option Selected)
    (b : Option (List Ga × Bool))
    → (rewalk_on item w l e b).0.selected ≡ w.selected
unfolding rewalk_on
rewalk_on_selected item w l (some e) (some b) = rewalk_with_selected item w l e b
rewalk_on_selected item w l (some e) none = refl
rewalk_on_selected item w l none b = refl

rewalk_item_selected :
    (every : Bool) (item : Pending) (w : Walk) (l : List Pending)
    → (rewalk_item every item w l).0.selected ≡ w.selected
unfolding rewalk_item
rewalk_item_selected false item w l = refl
rewalk_item_selected true item w l =
    rewalk_on_selected item w l (lookup (ga item.coord) w.selected)
      (lookup (ga item.coord) w.walked)

add_edge_selected : (item : Pending) (w : Walk) → (add_edge item w).selected ≡ w.selected
unfolding add_edge
add_edge_selected item w = ground arith

settled_none : (o : Option Selected) → settled o [] ≡ o
settled_none none = refl
settled_none (some e) = refl

settle-append :
    (e : Selected) (xs ys : List Pending) → settle (settle e xs) ys ≡ settle e (xs ++ ys)
settle-append e [] ys = refl
settle-append e (x ∷ xs) ys = settle-append (requested_again x e) xs ys

select_on_selected :
    (every : Bool) (item : Pending) (w : Walk) (g : Ga) (o : Option Selected)
    → lookup (ga item.coord) w.selected ≡ o
    → lookup g (select_on every item w o).0.selected
      ≡ settled (lookup g w.selected) (requests_for g (item ∷ []))
unfolding select_on
select_on_selected every item w g none e = elim (Bool-cases (ga item.coord == g)) [
  | inl same ↦
      let named : ga item.coord ≡ g = eq_sound (ga item.coord) g same in
      let absent : lookup g w.selected ≡ none = rw (← named) e in
      lookup-insert g (ga item.coord) (first_request item) w.selected ∙ rw (same, absent)
  | inr other ↦
      lookup-insert g (ga item.coord) (first_request item) w.selected
      ∙ rw other (sym (settled_none (lookup g w.selected)))
]
select_on_selected every item w g (some x) e = elim (Bool-cases (ga item.coord == g)) [
  | inl same ↦
      let named : ga item.coord ≡ g = eq_sound (ga item.coord) g same in
      let present : lookup g w.selected ≡ some x = rw (← named) e in
      lookup-modify g (ga item.coord) (requested_again item) w.selected ∙ rw (same, present)
  | inr other ↦
      lookup-modify g (ga item.coord) (requested_again item) w.selected
      ∙ rw other (sym (settled_none (lookup g w.selected)))
]

select_selected :
    (every : Bool) (item : Pending) (w : Walk) (g : Ga)
    → lookup g (select every item w).0.selected
      ≡ settled (lookup g w.selected) (requests_for g (item ∷ []))
unfolding select
select_selected every item w g =
    select_on_selected every item w g (lookup (ga item.coord) w.selected) refl

mediate_selected :
    (every : Bool) (s : Level) (item : Pending) (g : Ga)
    → lookup g (mediate every s item).walk.selected
      ≡ settled (lookup g s.walk.selected) (requests_for g (item ∷ []))
unfolding mediate
mediate_selected every s item g =
    let raised = raise_highest item s.walk in
    let (w, l) = rewalk_item every item raised s.rewalk in
    ap (lookup g) (add_edge_selected item (select every item w).0)
    ∙ select_selected every item w g
    ∙ ap (λ m. settled (lookup g m) (requests_for g (item ∷ [])))
        (rewalk_item_selected every item raised s.rewalk ∙ raise_highest_selected item s.walk)

settled-append :
    (o : Option Selected) (xs ys : List Pending) → settled (settled o xs) ys ≡ settled o (xs ++ ys)
settled-append none [] ys = refl
settled-append none (x ∷ xs) ys = ap some (settle-append (first_request x) xs ys)
settled-append (some e) xs ys = ap some (settle-append e xs ys)

-- The selection of a level is that of its packages one by one: a package selected before keeps its
-- coordinate and depth, and another takes them from the level's first request for it; its classpath
-- is the join of all its requests', it is direct if one of them is, and mediated if one of them
-- asks for a version that compares otherwise.
pub mediate_all_selects :
    (every : Bool) (s : Level) (items : List Pending) (g : Ga)
    → lookup g (mediate_all every s items).walk.selected
      ≡ settled (lookup g s.walk.selected) (requests_for g items)
unfolding mediate_all
mediate_all_selects every s [] g = sym (settled_none (lookup g s.walk.selected))
mediate_all_selects every s (item ∷ items) g =
    mediate_all_selects every (mediate every s item) items g
    ∙ ap (λ o. settled o (requests_for g items)) (mediate_selected every s item g)
    ∙ settled-append (lookup g s.walk.selected) (requests_for g (item ∷ [])) (requests_for g items)
    ∙ ap (settled (lookup g s.walk.selected))
        (sym (retain-append (λ i. ga i.coord == g) (item ∷ []) items))
