-- ===== src/Impact/Walk/Reached.antt =====
-- What `walk` gives is what can be reached.
use jrs.Prelude.{
  ℕ, zero, suc, Text, true, ◌==◌, List, ◌∷◌, [], contains, list_eq, nat_eq, set_insert, ◌≡◌, ◌≤◌,
  ◌+◌, arith, sym, length, Bool-cases, inl, inr, ◌⊎◌, ◌↔◌, eq_sound, eq_refl, subst,
}
use jrs.Impact.Walk.{Walked, visit, walk_from, walk}
use jrs.Impact.Walk.Visits.{
  here, there, Reaches, visit_keeps, visit_queues, visit_sees, visit_new, visit_queue, missing,
  missing-set_insert,
}

AllIn : List Text → List Text → Type 0
AllIn names ns = (c : Text) → contains ns c ≡ true → contains names c ≡ true

visit_counts :
    (names : List Text) (walked : Walked) (ns : List Text)
    → AllIn names ns
    → missing names (visit walked ns).0 + length (visit walked ns).1
      ≤ missing names walked.0 + length walked.1
unfolding visit AllIn
visit_counts names walked [] inside = omega arith
visit_counts names (seen, queue) (n ∷ ns) inside =
    let rest : AllIn names ns = λ c h. inside c (ground (arith, h)) in
    elim (Bool-cases (contains seen n)) [
      | inl old ↦ rw old (visit_counts names (seen, queue) ns rest)
      | inr new ↦
          let known : contains names n ≡ true = inside n (ground (arith, eq_refl n)) in
          rw new (
            omega (
              arith,
              visit_counts names (set_insert n seen, n ∷ queue) ns rest,
              missing-set_insert names seen n known new,
            ))
    ]

-- What is seen and not queued has all that follows it seen.
IsExplored : (Text → List Text) → Walked → Type 0
IsExplored next walked =
    (c : Text) → contains walked.0 c ≡ true → (contains walked.1 c ≡ true) ⊎ AllIn walked.0 (next c)

IsExplored-visit :
    (next : Text → List Text) (seen : List Text) (c : Text) (queue : List Text)
    → IsExplored next (seen, c ∷ queue)
    → IsExplored next (visit (seen, queue) (next c))
unfolding IsExplored AllIn
IsExplored-visit next seen c queue explored d h = elim (visit_new (seen, queue) (next c) d h) [
  | inr (among, queued) ↦ inl queued
  | inl before ↦ elim (explored d before) [
    | inr done ↦ inr (λ e m. visit_keeps (seen, queue) (next c) e (done e m))
    | inl waiting ↦ elim (Bool-cases (c == d)) [
      | inr other ↦ inl (visit_queues (seen, queue) (next c) d (ground (arith, waiting, other)))
      | inl same ↦ inr (λ e m.
          visit_sees (seen, queue) (next c) e
            (subst (λ k. contains (next k) e ≡ true) (sym (eq_sound c d same)) m))
    ]
  ]
]

AreReached : (Text → List Text) → Text → List Text → Type 0
AreReached next start cs = (c : Text) → contains cs c ≡ true → Reaches next start c

walk_from_sound :
    (f : ℕ) (next : Text → List Text) (start : Text) (seen queue : List Text)
    → AreReached next start seen
    → AreReached next start queue
    → AreReached next start (walk_from f next (seen, queue))
unfolding walk_from AreReached
walk_from_sound f next start seen [] h k = h
walk_from_sound zero next start seen (c ∷ queue) h k = h
walk_from_sound (suc f) next start seen (c ∷ queue) h k =
    let walked = visit (seen, queue) (next c) in
    let first : Reaches next start c = k c (ground (arith, eq_refl c)) in
    walk_from_sound f next start walked.0 walked.1
      (λ d m. elim (visit_new (seen, queue) (next c) d m) [
        | inl before ↦ h d before
        | inr (among, queued) ↦ there c d first among
      ])
      (λ d m. elim (visit_queue (seen, queue) (next c) d m) [
        | inl before ↦ k d (ground (arith, before))
        | inr among ↦ there c d first among
      ])

walk_from_closed :
    (f : ℕ) (names : List Text) (next : Text → List Text) (seen queue : List Text)
    → ((c : Text) → AllIn names (next c))
    → missing names seen + length queue ≤ f
    → IsExplored next (seen, queue)
    → AllIn (walk_from f next (seen, queue)) seen
      × ((c : Text)
          → contains (walk_from f next (seen, queue)) c ≡ true
          → AllIn (walk_from f next (seen, queue)) (next c))
unfolding walk_from AllIn IsExplored
walk_from_closed f names next seen [] inside h explored = (
  λ c m. m,
  λ c m. elim (explored c m) [
    | inl queued ↦ absurd (ground (arith, queued))
    | inr all_seen ↦ all_seen
  ],
)
walk_from_closed zero names next seen (c ∷ queue) inside h explored = absurd (omega (arith, h))
walk_from_closed (suc f) names next seen (c ∷ queue) inside h explored =
    let walked = visit (seen, queue) (next c) in
    let fewer : missing names walked.0 + length walked.1 ≤ f =
      omega (arith, h, visit_counts names (seen, queue) (next c) (inside c)) in
    let (kept, closed) =
      walk_from_closed f names next walked.0 walked.1 inside fewer
        (IsExplored-visit next seen c queue explored) in
    (λ d m. kept d (visit_keeps (seen, queue) (next c) d m), closed)

missing_bound : (names seen : List Text) → missing names seen ≤ length names
unfolding missing
missing_bound [] seen = omega arith
missing_bound (n ∷ names) seen = ground (arith, missing_bound names seen)

walk-Reaches :
    (next : Text → List Text) (start : Text) (found : List Text)
    → contains found start ≡ true
    → ((c : Text) → contains found c ≡ true → AllIn found (next c))
    → (c : Text) → Reaches next start c
    → contains found c ≡ true
unfolding AllIn
walk-Reaches next start found first closed c here = first
walk-Reaches next start found first closed c (there b _ r m) =
    closed b (walk-Reaches next start found first closed b r) c m

-- Where all that follows a class is among the names, and there is a round for each name and one
-- for the first class, `walk` gives the classes that can be reached and no others.
pub walk-eq :
    (f : ℕ) (names : List Text) (start : Text) (next : Text → List Text)
    → ((c d : Text) → contains (next c) d ≡ true → contains names d ≡ true)
    → length names + 1 ≤ f
    → (c : Text) → (contains (walk f start next) c ≡ true) ↔ Reaches next start c
unfolding walk AllIn IsExplored AreReached
walk-eq f names start next inside fuel c =
    let only : (d : Text) → contains (start ∷ []) d ≡ true → start ≡ d =
      λ d h. eq_sound start d (ground (arith, h)) in
    let begins : (d : Text) → contains (start ∷ []) d ≡ true → Reaches next start d =
      λ d h. subst (Reaches next start) (only d h) here in
    let (kept, closed) =
      walk_from_closed f names next (start ∷ []) (start ∷ []) inside
        (omega (arith, fuel, missing_bound names (start ∷ []))) (λ d m. inl m) in
    (
      walk_from_sound f next start (start ∷ []) (start ∷ []) begins begins c,
      walk-Reaches next start (walk f start next) (kept start (ground (arith, eq_refl start)))
          closed c,
    )
