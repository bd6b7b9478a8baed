-- ===== src/Tasks/Cycle/Sound.antt =====
-- The cycle that `find_cycle` gives is one.
use jrs.Prelude.{
  ℕ, zero, suc, true, ◌==◌, nat_eq, list_eq, pair_eq, option_eq, none, some, List, ◌∷◌, [], ◌++◌,
  map, drop, lookup, insert, ◌≡◌, refl, ap, sym, ◌∙◌, subst, arith, contains, Bool-cases,
  Option-cases, inl, inr, ◌⊎◌, eq_sound, eq_refl,
}
use jrs.Tasks.{TaskRef, task, task_ref_eq, hook_eq, Manifest, TaskDef, Step, edges}
use jrs.Tasks.Cycle.{
  State, open_node, done, States, Walk, walked, found, out_of_fuel, position, pop, meet_open, leave,
  each, walk, from_each, find_cycle,
}

-- Each step is an edge of the node before it.
abbrev pub IsLinked : Manifest → List Step → Type 0
IsLinked m [] = Unit {0}
IsLinked m (s ∷ []) = Unit {0}
IsLinked m (s ∷ t ∷ path) = (contains (edges m s.0) t ≡ true) × IsLinked m (t ∷ path)

-- A way along edges from a node back to it.
abbrev pub IsCycle : Manifest → List Step → Type 0
IsCycle m cycle =
    IsLinked m cycle
    × (first : Step) × (between : List Step) × (last : Step) × (cycle
        ≡ first ∷ (between ++ last ∷ []))
    × (first.0 ≡ last.0)

IsLinked-tail :
    (m : Manifest) (s : Step) (path : List Step) → IsLinked m (s ∷ path) → IsLinked m path
IsLinked-tail m s [] h = tt
IsLinked-tail m s (t ∷ path) h = h.1

IsLinked-drop :
    (m : Manifest) (i : ℕ) (path rest : List Step)
    → IsLinked m (path ++ rest)
    → IsLinked m (drop i path ++ rest)
IsLinked-drop m zero path rest h = h
IsLinked-drop m (suc i) [] rest h = h
IsLinked-drop m (suc i) (s ∷ path) rest h =
    IsLinked-drop m i path rest (IsLinked-tail m s (path ++ rest) h)

pub IsLinked-snoc :
    (m : Manifest) (path : List Step) (s t : Step)
    → IsLinked m (path ++ s ∷ [])
    → contains (edges m s.0) t ≡ true
    → IsLinked m ((path ++ s ∷ []) ++ t ∷ [])
IsLinked-snoc m [] s t h e = (e, tt)
IsLinked-snoc m (x ∷ []) s t h e = (h.0, (e, tt))
IsLinked-snoc m (x ∷ y ∷ path) s t h e = (h.0, IsLinked-snoc m (y ∷ path) s t h.1 e)

pub pop-snoc : (path : List Step) (s : Step) → pop (path ++ s ∷ []) ≡ path
unfolding pop
pop-snoc [] s = refl
pop-snoc (x ∷ []) s = refl
pop-snoc (x ∷ y ∷ path) s = ap (λ p. x ∷ p) (pop-snoc (y ∷ path) s)

position_splits :
    (node : TaskRef) (path : List Step) (i : ℕ)
    → position node path ≡ some i
    → (s : Step) × (rest : List Step) × (drop i path ≡ s ∷ rest) × (s.0 ≡ node)
unfolding position
position_splits node [] i h = absurd (ground (arith, h))
position_splits node (s ∷ path) i h = elim (Bool-cases (s.0 == node)) [
  | inl same ↦
      let first : 0 ≡ i = ground (arith, (rw same at h)) in
      (s, path, ap (λ k. drop k (s ∷ path)) (sym first), eq_sound s.0 node same)
  | inr other ↦ elim (Option-cases (position node path)) [
    | inl no_place ↦ absurd (ground (arith, (rw (other, no_place) at h)))
    | inr (j, later) ↦
        let (t, rest, at, is) = position_splits node path j later in
        let next : suc j ≡ i = ground (arith, (rw (other, later) at h)) in
        (t, rest, ap (λ k. drop k (s ∷ path)) (sym next) ∙ at, is)
  ]
]

pub Walk-cases :
    (w : Walk)
    → ((s : States) × (p : List Step) × (w ≡ walked s p))
      ⊎ (((c : List Step) × (w ≡ found c)) ⊎ (w ≡ out_of_fuel))
Walk-cases (walked s p) = inl (s, p, refl)
Walk-cases (found c) = inr (inl (c, refl))
Walk-cases out_of_fuel = inr (inr refl)

-- A walk comes back with its path, or with a cycle.
Sound : Manifest → List Step → Walk → Type 0
Sound m path (walked states p) = p ≡ path
Sound m path (found cycle) = IsCycle m cycle
Sound m path out_of_fuel = Unit {0}

Sound-meet_open :
    (m : Manifest) (step : Step) (states : States) (path : List Step)
    → IsLinked m (path ++ step ∷ [])
    → Sound m path (meet_open step states path)
unfolding Sound meet_open
Sound-meet_open m step states path linked = elim (Option-cases (position step.0 path)) [
  | inl no_place ↦ rw (meet_open, no_place) refl
  | inr (i, at) ↦
      let (s, rest, split_up, is) = position_splits step.0 path i at in
      rw (meet_open, at)
        (
          IsLinked-drop m i path (step ∷ []) linked,
          s,
          rest,
          step,
          ap (λ (l : List Step). l ++ step ∷ []) split_up,
          is,
        )
]

Sound-leave :
    (m : Manifest) (step : Step) (path : List Step) (w : Walk)
    → Sound m (path ++ step ∷ []) w
    → Sound m path (leave step.0 w)
unfolding Sound leave
Sound-leave m step path (walked states p) h = ap pop h ∙ pop-snoc path step
Sound-leave m step path (found cycle) h = h
Sound-leave m step path out_of_fuel h = tt

Sound-each :
    (m : Manifest) (visit : Step → States → List Step → Walk) (steps : List Step) (states : States)
    (path : List Step)
    → ((next : Step) (s : States) → contains steps next ≡ true → Sound m path (visit next s path))
    → Sound m path (each visit steps states path)
unfolding Sound each
Sound-each m visit [] states path h = refl
Sound-each m visit (next ∷ steps) states path h =
    let first = h next states (ground (arith, eq_refl next)) in
    elim (Walk-cases (visit next states path)) [
      | inl (s, p, e) ↦
          let same : p ≡ path = subst (Sound m path) e first in
          rw (each, e, same)
            (Sound-each m visit steps s path (λ n t among. h n t (ground (arith, among))))
      | inr (inl (c, e)) ↦ rw (each, e) (subst (Sound m path) e first)
      | inr (inr e) ↦ rw (each, e) tt
    ]

pub State-cases : (s : State) → (s ≡ open_node) ⊎ (s ≡ done)
State-cases open_node = inl refl
State-cases done = inr refl

Sound-walk :
    (f : ℕ) (m : Manifest) (step : Step) (states : States) (path : List Step)
    → IsLinked m (path ++ step ∷ [])
    → Sound m path (walk f m step states path)
unfolding Sound walk
Sound-walk zero m step states path linked = tt
Sound-walk (suc f) m step states path linked = elim (Option-cases (lookup step.0 states)) [
  | inl new ↦
      rw (walk, new)
        (Sound-leave m step path
          (each (walk f m) (edges m step.0) (insert step.0 open_node states) (path ++ step ∷ []))
          (Sound-each m (walk f m) (edges m step.0) (insert step.0 open_node states)
            (path ++ step ∷ [])
            (λ next s among.
              Sound-walk f m next s (path ++ step ∷ [])
                (IsLinked-snoc m path step next linked among))))
  | inr (state, known) ↦ elim (State-cases state) [
    | inl is ↦ rw (walk, known, is) (Sound-meet_open m step states path linked)
    | inr is ↦ rw (walk, known, is) refl
  ]
]

Sound-from_each :
    (f : ℕ) (m : Manifest) (starts : List TaskRef) (states : States)
    → Sound m [] (from_each f m starts states)
unfolding Sound from_each
Sound-from_each f m [] states = refl
Sound-from_each f m (start ∷ starts) states =
    let first = Sound-walk f m (start, none) states [] tt in
    elim (Walk-cases (walk f m (start, none) states [])) [
      | inl (s, p, e) ↦ rw (from_each, e) (Sound-from_each f m starts s)
      | inr (inl (c, e)) ↦ rw (from_each, e) (subst (Sound m []) e first)
      | inr (inr e) ↦ rw (from_each, e) tt
    ]

-- What `find_cycle` finds leads along the edges of the graph from a node back to that node.
pub find_cycle_sound :
    (f : ℕ) (m : Manifest) (cycle : List Step) → find_cycle f m ≡ found cycle → IsCycle m cycle
unfolding find_cycle Sound
find_cycle_sound f m cycle h =
    subst (Sound m []) h (Sound-from_each f m (map (λ (t : TaskDef). task t.name) m.tasks) [])
