-- ===== src/Tasks/Cycle/Consistent.antt =====
-- What a walk over the tasks knows of its states.
use jrs.Prelude.{
  ℕ, suc, true, false, ◌||◌, ◌==◌, nat_eq, list_eq, pair_eq, option_eq, some, List, ◌∷◌, [], ◌++◌,
  map, if◌then◌else◌, lookup, insert, lookup-insert, ◌≡◌, refl, ap, sym, ◌∙◌, arith, contains,
  Bool-cases, inl, inr,
}
use jrs.Tasks.{TaskRef, task_ref_eq, hook_eq, Manifest, Step, edges}
use jrs.Tasks.Cycle.{State, open_node, done, States, Walk, walked, found, out_of_fuel, position}

-- Each node stands in front of all that its edges lead to.
abbrev pub IsOrdered : Manifest → List TaskRef → Type 0
IsOrdered m [] = Unit {0}
IsOrdered m (node ∷ order) =
    ((s : Step) → contains (edges m node) s ≡ true → contains order s.0 ≡ true) × IsOrdered m order

abbrev pub nodes_of : List Step → List TaskRef
nodes_of path = map (λ (s : Step). s.0) path

unfoldable pub IsDone : States → TaskRef → Type 0
IsDone states node = lookup node states ≡ some done

-- The nodes that are done have an order, and those that are open are on the path.
pub record IsConsistent (m : Manifest) (states : States) (path : List Step) (order : List TaskRef)
    : Type 0 where
  pub done_in : (x : TaskRef) → lookup x states ≡ some done → contains order x ≡ true
  pub open_in : (x : TaskRef) → lookup x states ≡ some open_node → contains (nodes_of path) x ≡ true
  pub ordered : IsOrdered m order

-- What a walk leaves: the path as it was, consistent states in which what was done still is, and
-- the nodes done that are asked for.
unfoldable pub Completes : Manifest → States → List Step → (States → Type 0) → Walk → Type 0
Completes m states path Asked (walked s p) =
    (p ≡ path)
    × (order : List TaskRef) × IsConsistent m s path order
    × ((x : TaskRef) → IsDone states x → IsDone s x)
    × Asked s
Completes m states path Asked (found cycle) = Unit {0}
Completes m states path Asked out_of_fuel = Unit {0}

pub position-some :
    (node : TaskRef) (path : List Step)
    → contains (nodes_of path) node ≡ true
    → (i : ℕ) × (position node path ≡ some i)
unfolding position
position-some node [] h = absurd (ground (arith, h))
position-some node (s ∷ path) h = elim (Bool-cases (s.0 == node)) [
  | inl same ↦ (0, rw same refl)
  | inr other ↦
      let (i, later) = position-some node path (ground (arith, h, other)) in
      (suc i, rw (other, later) refl)
]

pub nodes_of-snoc :
    (path : List Step) (step : Step) (x : TaskRef)
    → contains (nodes_of (path ++ step ∷ [])) x ≡ (contains (nodes_of path) x || step.0 == x)
nodes_of-snoc [] step x = ground arith
nodes_of-snoc (s ∷ path) step x = ground (arith, nodes_of-snoc path step x)

pub lookup_same :
    (k x : TaskRef) (state : State) (states : States)
    → (k == x) ≡ true
    → lookup x (insert k state states) ≡ some state
lookup_same k x state states same =
    lookup-insert x k state states ∙ ap (λ b. if b then some state else lookup x states) same

pub lookup_other :
    (k x : TaskRef) (state : State) (states : States)
    → (k == x) ≡ false
    → lookup x (insert k state states) ≡ lookup x states
lookup_other k x state states other =
    lookup-insert x k state states ∙ ap (λ b. if b then some state else lookup x states) other

pub IsConsistent-open :
    (m : Manifest) (states : States) (path : List Step) (order : List TaskRef) (step : Step)
    → IsConsistent m states path order
    → IsConsistent m (insert step.0 open_node states) (path ++ step ∷ []) order
IsConsistent-open m states path order step c = record {
  done_in = λ x h. elim (Bool-cases (step.0 == x)) [
    | inl same ↦ absurd (ground (arith, h, lookup_same step.0 x open_node states same))
    | inr other ↦ c.done_in x (sym (lookup_other step.0 x open_node states other) ∙ h)
  ];
  open_in = λ x h. elim (Bool-cases (step.0 == x)) [
    | inl same ↦ nodes_of-snoc path step x ∙ ground (arith, same)
    | inr other ↦
        let before = c.open_in x (sym (lookup_other step.0 x open_node states other) ∙ h) in
        nodes_of-snoc path step x ∙ ground (arith, before)
  ];
  ordered = c.ordered;
}

pub IsConsistent-done :
    (m : Manifest) (states : States) (path : List Step) (order : List TaskRef) (step : Step)
    → ((s : Step) → contains (edges m step.0) s ≡ true → IsDone states s.0)
    → IsConsistent m states (path ++ step ∷ []) order
    → IsConsistent m (insert step.0 done states) path (step.0 ∷ order)
unfolding IsDone
IsConsistent-done m states path order step all_done c = record {
  done_in = λ x h. elim (Bool-cases (step.0 == x)) [
    | inl same ↦ ground (arith, same)
    | inr other ↦
        let before = c.done_in x (sym (lookup_other step.0 x done states other) ∙ h) in
        ground (arith, before)
  ];
  open_in = λ x h. elim (Bool-cases (step.0 == x)) [
    | inl same ↦ absurd (ground (arith, h, lookup_same step.0 x done states same))
    | inr other ↦
        let before : (contains (nodes_of path) x || step.0 == x) ≡ true =
          sym (nodes_of-snoc path step x)
          ∙ c.open_in x (sym (lookup_other step.0 x done states other) ∙ h) in
        ground (arith, before, other)
  ];
  ordered = (λ s among. c.done_in s.0 (all_done s among), c.ordered);
}
