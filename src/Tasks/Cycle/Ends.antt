-- ===== src/Tasks/Cycle/Ends.antt =====
-- A depth of fuel for each node is enough for `find_cycle`.
use jrs.Prelude.{
  ℕ, zero, suc, true, false, ◌||◌, ◌==◌, nat_eq, list_eq, pair_eq, option_eq, none, List, ◌∷◌, [],
  ◌++◌, map, if◌then◌else◌, lookup, insert, lookup-insert, contains_key, length, ◌+◌, ◌≤◌, ◌<◌, ◌≡◌,
  ◌≢◌, refl, ap, ◌∙◌, subst, arith, contains, Bool-cases, Option-cases, inl, inr, eq_sound, eq_refl,
}
use jrs.Tasks.{TaskRef, task, task_ref_eq, hook_eq, Manifest, TaskDef, Step, edges}
use jrs.Tasks.Cycle.{
  State, open_node, done, States, Walk, walked, found, out_of_fuel, position, meet_open, leave,
  each, walk, from_each, find_cycle,
}
use jrs.Tasks.Cycle.Sound.{Walk-cases, State-cases}

-- How many of the names have no state.
missing : List TaskRef → States → ℕ
missing [] states = 0
missing (n ∷ names) states = (if contains_key n states then 0 else 1) + missing names states

contains_key-insert :
    (k x : TaskRef) (v : State) (states : States)
    → contains_key x (insert k v states) ≡ (k == x || contains_key x states)
contains_key-insert k x v states =
    let at = lookup-insert x k v states in
    elim (Bool-cases (k == x)) [
      | inl same ↦ rw (contains_key, at, same) refl
      | inr other ↦ rw (contains_key, at, other) refl
    ]

missing_fewer :
    (names : List TaskRef) (states : States) (k : TaskRef) (v : State)
    → missing names (insert k v states) ≤ missing names states
unfolding missing
missing_fewer [] states k v = omega arith
missing_fewer (n ∷ names) states k v =
    let rest = missing_fewer names states k v in
    elim (Bool-cases (contains_key n states)) [
      | inl old ↦
          let still : contains_key n (insert k v states) ≡ true =
            contains_key-insert k n v states ∙ ground (arith, old) in
          rw (still, old) (omega (arith, rest))
      | inr new ↦ elim (Bool-cases (contains_key n (insert k v states))) [
        | inl now ↦ rw (new, now) (omega (arith, rest))
        | inr not_yet ↦ rw (new, not_yet) (omega (arith, rest))
      ]
    ]

missing-insert :
    (names : List TaskRef) (states : States) (k : TaskRef) (v : State)
    → contains names k ≡ true
    → contains_key k states ≡ false
    → missing names (insert k v states) + 1 ≤ missing names states
unfolding missing
missing-insert [] states k v among new = absurd (ground (arith, among))
missing-insert (n ∷ names) states k v among new =
    let fewer = missing_fewer names states k v in
    elim (Bool-cases (n == k)) [
      | inl same ↦
          let is : n ≡ k = eq_sound n k same in
          let before : contains_key n states ≡ false = ap (λ x. contains_key x states) is ∙ new in
          let now : contains_key n (insert k v states) ≡ true =
            contains_key-insert k n v states
            ∙ ap (λ b. b || contains_key n states) (ap (λ x. k == x) is ∙ eq_refl k) in
          rw (before, now) (omega (arith, fewer))
      | inr other ↦
          let rest = missing-insert names states k v (ground (arith, among, other)) new in
          elim (Bool-cases (contains_key n states)) [
            | inl old ↦
                let still : contains_key n (insert k v states) ≡ true =
                  contains_key-insert k n v states ∙ ground (arith, old) in
                rw (still, old) (omega (arith, rest))
            | inr fresh ↦ elim (Bool-cases (contains_key n (insert k v states))) [
              | inl now ↦ rw (fresh, now) (omega (arith, rest))
              | inr not_yet ↦ rw (fresh, not_yet) (omega (arith, rest))
            ]
          ]
    ]

-- The walk comes to its end, and no more names lack a state than before.
Ends : List TaskRef → States → Walk → Type 0
Ends names states (walked s p) = missing names s ≤ missing names states
Ends names states (found cycle) = Unit {0}
Ends names states out_of_fuel = ⊥

Ends-le :
    (names : List TaskRef) (s t : States) (w : Walk)
    → missing names s ≤ missing names t
    → Ends names s w
    → Ends names t w
unfolding Ends
Ends-le names s t (walked after p) h e = omega (arith, h, e)
Ends-le names s t (found cycle) h e = tt
Ends-le names s t out_of_fuel h e = e

Ends-meet_open :
    (names : List TaskRef) (step : Step) (states : States) (path : List Step)
    → Ends names states (meet_open step states path)
unfolding Ends meet_open
Ends-meet_open names step states path = elim (Option-cases (position step.0 path)) [
  | inl no_place ↦ rw (meet_open, no_place) (omega arith)
  | inr (i, at) ↦ rw (meet_open, at) tt
]

Ends-leave :
    (names : List TaskRef) (node : TaskRef) (states : States) (w : Walk)
    → Ends names states w
    → Ends names states (leave node w)
unfolding Ends leave
Ends-leave names node states (walked s p) h = omega (arith, h, missing_fewer names s node done)
Ends-leave names node states (found cycle) h = tt
Ends-leave names node states out_of_fuel h = h

Ends-each :
    (names : List TaskRef) (visit : Step → States → List Step → Walk) (bound : ℕ)
    (steps : List Step) (states : States) (path : List Step)
    → missing names states ≤ bound
    → ((next : Step) (s : States) (p : List Step)
        → contains steps next ≡ true
        → missing names s ≤ bound
        → Ends names s (visit next s p))
    → Ends names states (each visit steps states path)
unfolding Ends each
Ends-each names visit bound [] states path few h = omega arith
Ends-each names visit bound (next ∷ steps) states path few h =
    let first = h next states path (ground (arith, eq_refl next)) few in
    elim (Walk-cases (visit next states path)) [
      | inr (inl (c, e)) ↦ rw (each, e) tt
      | inr (inr e) ↦ absurd (subst (Ends names states) e first)
      | inl (s, p, e) ↦
          let fewer : missing names s ≤ missing names states = subst (Ends names states) e first in
          rw (each, e)
            (Ends-le names s states (each visit steps s p) fewer (
              Ends-each names visit bound steps s p (omega (arith, few, fewer))
                (λ n t q among. h n t q (ground (arith, among)))))
    ]

-- Every edge leads to one of the names.
abbrev pub IsClosed : Manifest → List TaskRef → Type 0
IsClosed m names =
    (node : TaskRef) (s : Step) → contains (edges m node) s ≡ true → contains names s.0 ≡ true

Ends-walk :
    (f : ℕ) (m : Manifest) (names : List TaskRef) (step : Step) (states : States) (path : List Step)
    → IsClosed m names
    → contains names step.0 ≡ true
    → missing names states < f
    → Ends names states (walk f m step states path)
unfolding Ends walk
Ends-walk zero m names step states path closed named few = absurd (omega (arith, few))
Ends-walk (suc f) m names step states path closed named few =
    elim (Option-cases (lookup step.0 states)) [
      | inr (state, known) ↦ elim (State-cases state) [
        | inl is ↦ rw (walk, known, is) (Ends-meet_open names step states path)
        | inr is ↦ rw (walk, known, is) (omega arith)
      ]
      | inl new ↦
          let no_key : contains_key step.0 states ≡ false = rw (contains_key, new) refl in
          let opened = insert step.0 open_node states in
          let fewer = missing-insert names states step.0 open_node named no_key in
          let inside = each (walk f m) (edges m step.0) opened (path ++ step ∷ []) in
          rw (walk, new)
            (Ends-leave names step.0 states inside (
              Ends-le names opened states inside (omega (arith, fewer)) (
                Ends-each names (walk f m) (missing names opened) (edges m step.0) opened
                  (path ++ step ∷ []) (omega arith)
                  (λ next s p among few_left.
                    Ends-walk f m names next s p closed (closed step.0 next among)
                      (omega (arith, few, fewer, few_left))))))
    ]

Ends-from_each :
    (f : ℕ) (m : Manifest) (names starts : List TaskRef) (states : States)
    → IsClosed m names
    → ((x : TaskRef) → contains starts x ≡ true → contains names x ≡ true)
    → missing names states < f
    → Ends names states (from_each f m starts states)
unfolding Ends from_each
Ends-from_each f m names [] states closed named few = omega arith
Ends-from_each f m names (start ∷ starts) states closed named few =
    let first =
      Ends-walk f m names (start, none) states [] closed
        (named start (ground (arith, eq_refl start))) few in
    elim (Walk-cases (walk f m (start, none) states [])) [
      | inr (inl (c, e)) ↦ rw (from_each, e) tt
      | inr (inr e) ↦ absurd (subst (Ends names states) e first)
      | inl (s, p, e) ↦
          let fewer : missing names s ≤ missing names states = subst (Ends names states) e first in
          rw (from_each, e)
            (Ends-le names s states (from_each f m starts s) fewer (
              Ends-from_each f m names starts s closed (λ x among. named x (ground (arith, among)))
                (omega (arith, few, fewer))))
    ]

missing_bound : (names : List TaskRef) → missing names [] ≤ length names
unfolding missing lookup
missing_bound [] = omega arith
missing_bound (n ∷ names) = omega (arith, missing_bound names)

-- With fuel for more than the names, all tasks being among them and all that an edge leads to,
-- `find_cycle` comes to its end.
pub find_cycle_ends :
    (f : ℕ) (m : Manifest) (names : List TaskRef)
    → IsClosed m names
    → ((x : TaskRef)
        → contains (map (λ (t : TaskDef). task t.name) m.tasks) x ≡ true
        → contains names x ≡ true)
    → length names < f
    → find_cycle f m ≢ out_of_fuel
unfolding find_cycle Ends
find_cycle_ends f m names closed named enough e = subst (Ends names []) e (
    Ends-from_each f m names (map (λ (t : TaskDef). task t.name) m.tasks) [] closed named
      (omega (arith, enough, missing_bound names)))
