-- ===== src/Tasks/Cycle/Acyclic.antt =====
-- Where `find_cycle` finds nothing, the graph has an order.
use jrs.Prelude.{
  ℕ, zero, suc, true, ◌==◌, nat_eq, list_eq, pair_eq, option_eq, none, some, List, ◌∷◌, [], ◌++◌,
  map, lookup, insert, ◌≡◌, refl, ap, ◌∙◌, subst, arith, contains, Bool-cases, Option-cases, inl,
  inr, eq_sound, eq_refl,
}
use jrs.Tasks.{TaskRef, task, task_ref_eq, hook_eq, Manifest, TaskDef, Step, edges}
use jrs.Tasks.Cycle.{
  open_node, done, States, Walk, walked, found, out_of_fuel, pop, meet_open, leave, each, walk,
  from_each, find_cycle,
}
use jrs.Tasks.Cycle.Sound.{pop-snoc, Walk-cases, State-cases}
use jrs.Tasks.Cycle.Consistent.{
  IsOrdered, nodes_of, IsDone, IsConsistent, Completes, position-some, lookup_same, lookup_other,
  IsConsistent-open, IsConsistent-done,
}

-- What is left after the first step, seen from before it.
Completes-weaken :
    (m : Manifest) (states s : States) (path : List Step) (next : Step) (steps : List Step)
    (w : Walk)
    → ((x : TaskRef) → IsDone states x → IsDone s x)
    → IsDone s next.0
    → Completes m s path (λ after. (t : Step) → contains steps t ≡ true → IsDone after t.0) w
    → Completes m states path
        (λ after. (t : Step) → contains (next ∷ steps) t ≡ true → IsDone after t.0)
        w
unfolding Completes
Completes-weaken m states s path next steps (walked after p) kept now
      (same, order, c, keeps, all_done) =
    (
      same,
      order,
      c,
      λ x d. keeps x (kept x d),
      λ t among. elim (Bool-cases (next == t)) [
        | inl is ↦ subst (λ (u : Step). IsDone after u.0) (eq_sound next t is) (keeps next.0 now)
        | inr other ↦ all_done t (ground (arith, among, other))
      ],
    )
Completes-weaken m states s path next steps (found cycle) kept now h = tt
Completes-weaken m states s path next steps out_of_fuel kept now h = tt

Completes-each :
    (m : Manifest) (visit : Step → States → List Step → Walk) (steps : List Step) (states : States)
    (path : List Step) (order : List TaskRef)
    → IsConsistent m states path order
    → ((next : Step) (s : States) (known : List TaskRef)
        → contains steps next ≡ true
        → IsConsistent m s path known
        → Completes m s path (λ after. IsDone after next.0) (visit next s path))
    → Completes m states path
        (λ after. (s : Step) → contains steps s ≡ true → IsDone after s.0)
        (each visit steps states path)
unfolding Completes each
Completes-each m visit [] states path order c h =
    (refl, order, c, λ x d. d, λ s among. absurd (ground (arith, among)))
Completes-each m visit (next ∷ steps) states path order c h =
    let first = h next states order (ground (arith, eq_refl next)) c in
    elim (Walk-cases (visit next states path)) [
      | inr (inl (cycle, e)) ↦ rw (each, e) tt
      | inr (inr e) ↦ rw (each, e) tt
      | inl (s, p, e) ↦
          let (same, order2, c2, kept, now) =
            subst (Completes m states path (λ after. IsDone after next.0)) e first in
          let rest =
            Completes-each m visit steps s path order2 c2
              (λ n t known among. h n t known (ground (arith, among))) in
          rw (each, e, same)
            (Completes-weaken m states s path next steps (each visit steps s path) kept now rest)
    ]

Completes-leave :
    (m : Manifest) (step : Step) (states : States) (path : List Step) (w : Walk)
    → lookup step.0 states ≡ none
    → Completes m
        (insert step.0 open_node states)
        (path ++ step ∷ [])
        (λ after. (s : Step) → contains (edges m step.0) s ≡ true → IsDone after s.0)
        w
    → Completes m states path (λ after. IsDone after step.0) (leave step.0 w)
unfolding Completes leave IsDone
Completes-leave m step states path (walked s p) new (same, order, c, kept, all_done) = (
  ap pop same ∙ pop-snoc path step,
  step.0 ∷ order,
  IsConsistent-done m s path order step all_done c,
  λ x d. elim (Bool-cases (step.0 == x)) [
    | inl is ↦ lookup_same step.0 x done s is
    | inr other ↦
        lookup_other step.0 x done s other
        ∙ kept x (lookup_other step.0 x open_node states other ∙ d)
  ],
  lookup_same step.0 step.0 done s (eq_refl step.0),
)
Completes-leave m step states path (found cycle) new h = tt
Completes-leave m step states path out_of_fuel new h = tt

Completes-meet_open :
    (m : Manifest) (step : Step) (states : States) (path : List Step)
    → contains (nodes_of path) step.0 ≡ true
    → Completes m states path (λ after. IsDone after step.0) (meet_open step states path)
unfolding Completes meet_open
Completes-meet_open m step states path on_path =
    let (i, at) = position-some step.0 path on_path in rw (meet_open, at) tt

Completes-walk :
    (f : ℕ) (m : Manifest) (step : Step) (states : States) (path : List Step) (order : List TaskRef)
    → IsConsistent m states path order
    → Completes m states path (λ after. IsDone after step.0) (walk f m step states path)
unfolding Completes walk IsDone
Completes-walk zero m step states path order c = tt
Completes-walk (suc f) m step states path order c = elim (Option-cases (lookup step.0 states)) [
  | inl new ↦
      rw (walk, new)
        (Completes-leave m step states path
          (each (walk f m) (edges m step.0) (insert step.0 open_node states) (path ++ step ∷ []))
          new
          (Completes-each m (walk f m) (edges m step.0) (insert step.0 open_node states)
            (path ++ step ∷ []) order (IsConsistent-open m states path order step c)
            (λ next s known among k. Completes-walk f m next s (path ++ step ∷ []) known k)))
  | inr (state, known) ↦ elim (State-cases state) [
    | inl is ↦
        rw (walk, known, is)
          (Completes-meet_open m step states path (c.open_in step.0 (known ∙ ap some is)))
    | inr is ↦ rw (walk, known, is) (refl, order, c, λ x d. d, known ∙ ap some is)
  ]
]

from_each_orders :
    (f : ℕ) (m : Manifest) (starts : List TaskRef) (states s : States) (p : List Step)
    (order : List TaskRef)
    → IsConsistent m states [] order
    → from_each f m starts states ≡ walked s p
    → (all_of : List TaskRef) × IsConsistent m s [] all_of
      × ((x : TaskRef) → IsDone states x → IsDone s x)
      × ((x : TaskRef) → contains starts x ≡ true → IsDone s x)
unfolding from_each Completes
from_each_orders f m [] states s p order c h =
    let same : states ≡ s = ground (arith, h) in
    subst
      (λ t.
        (all_of : List TaskRef) × IsConsistent m t [] all_of
        × ((x : TaskRef) → IsDone states x → IsDone t x)
        × ((x : TaskRef) → contains {A = TaskRef} [] x ≡ true → IsDone t x))
      same (order, c, λ x d. d, λ x among. absurd (ground (arith, among)))
from_each_orders f m (start ∷ starts) states s p order c h =
    let first = Completes-walk f m (start, none) states [] order c in
    elim (Walk-cases (walk f m (start, none) states [])) [
      | inr (inl (cycle, e)) ↦ absurd (ground (arith, (rw (from_each, e) at h)))
      | inr (inr e) ↦ absurd (ground (arith, (rw (from_each, e) at h)))
      | inl (s1, p1, e) ↦
          let (same, order1, c1, kept, now) =
            subst (Completes m states [] (λ after. IsDone after start)) e first in
          let (all_of, c2, keeps, each_done) =
            from_each_orders f m starts s1 s p order1 c1 (rw (from_each, e) at h) in
          (
            all_of,
            c2,
            λ x d. keeps x (kept x d),
            λ x among. elim (Bool-cases (start == x)) [
              | inl is ↦ subst (IsDone s) (eq_sound start x is) (keeps start now)
              | inr other ↦ each_done x (ground (arith, among, other))
            ],
          )
    ]

nothing_known : (m : Manifest) → IsConsistent m [] [] []
unfolding lookup
nothing_known m = record {
  done_in = λ x h. absurd (ground (arith, h));
  open_in = λ x h. absurd (ground (arith, h));
  ordered = tt;
}

-- Where `find_cycle` comes to its end without a cycle, there is an order of nodes with all tasks in
-- it in which each node stands in front of everything that it depends on.
pub find_cycle_complete :
    (f : ℕ) (m : Manifest) (s : States) (p : List Step)
    → find_cycle f m ≡ walked s p
    → (order : List TaskRef) × IsOrdered m order
      × ((x : TaskRef)
          → contains (map (λ (t : TaskDef). task t.name) m.tasks) x ≡ true
          → contains order x ≡ true)
unfolding find_cycle IsDone
find_cycle_complete f m s p h =
    let (order, c, kept, each_done) =
      from_each_orders f m (map (λ (t : TaskDef). task t.name) m.tasks) [] s p [] (nothing_known m)
        h in
    (order, c.ordered, λ x among. c.done_in x (each_done x among))
