-- ===== src/Impact/Walk/Visits.antt =====
-- What one round of `walk` does.
use jrs.Prelude.{
  ℕ, Text, true, false, ◌||◌, ◌==◌, List, ◌∷◌, [], contains, list_eq, nat_eq, if◌then◌else◌,
  set_insert, contains-set_insert, ◌≡◌, ◌≤◌, ◌+◌, arith, ap, sym, ◌∙◌, Bool-cases, inl, inr, ◌⊎◌,
  eq_sound, eq_refl,
}
use jrs.Impact.Walk.{Walked, visit}

-- A class can be reached from another along `next`.
pub data Reaches (next : Text → List Text) (start : Text) : Text → Type 0 where
  here : Reaches next start start
  there : (c d : Text) → Reaches next start c → contains (next c) d ≡ true → Reaches next start d

pub visit_keeps :
    (walked : Walked) (ns : List Text) (c : Text)
    → contains walked.0 c ≡ true
    → contains (visit walked ns).0 c ≡ true
unfolding visit
visit_keeps walked [] c h = h
visit_keeps (seen, queue) (n ∷ ns) c h = elim (Bool-cases (contains seen n)) [
  | inl old ↦ rw old (visit_keeps (seen, queue) ns c h)
  | inr new ↦ rw new (
      visit_keeps (set_insert n seen, n ∷ queue) ns c
        (ground (arith, contains-set_insert n c seen, h)))
]

pub visit_queues :
    (walked : Walked) (ns : List Text) (c : Text)
    → contains walked.1 c ≡ true
    → contains (visit walked ns).1 c ≡ true
unfolding visit
visit_queues walked [] c h = h
visit_queues (seen, queue) (n ∷ ns) c h = elim (Bool-cases (contains seen n)) [
  | inl old ↦ rw old (visit_queues (seen, queue) ns c h)
  | inr new ↦ rw new (visit_queues (set_insert n seen, n ∷ queue) ns c (ground (arith, h)))
]

pub visit_sees :
    (walked : Walked) (ns : List Text) (c : Text)
    → contains ns c ≡ true
    → contains (visit walked ns).0 c ≡ true
unfolding visit
visit_sees walked [] c h = absurd (ground (arith, h))
visit_sees (seen, queue) (n ∷ ns) c h = elim (Bool-cases (contains seen n)) [
  | inl old ↦ rw old (elim (Bool-cases (n == c)) [
    | inl same ↦ visit_keeps (seen, queue) ns c (ap (contains seen) (sym (eq_sound n c same)) ∙ old)
    | inr other ↦ visit_sees (seen, queue) ns c (ground (arith, h, other))
  ])
  | inr new ↦ rw new (elim (Bool-cases (n == c)) [
    | inl same ↦
        visit_keeps (set_insert n seen, n ∷ queue) ns c
          (ground (arith, contains-set_insert n c seen, same))
    | inr other ↦ visit_sees (set_insert n seen, n ∷ queue) ns c (ground (arith, h, other))
  ])
]

-- What comes to be seen stands among the classes visited, and in the queue.
pub visit_new :
    (walked : Walked) (ns : List Text) (c : Text)
    → contains (visit walked ns).0 c ≡ true
    → (contains walked.0 c ≡ true)
      ⊎ ((contains ns c ≡ true) × (contains (visit walked ns).1 c ≡ true))
unfolding visit
visit_new walked [] c h = inl h
visit_new (seen, queue) (n ∷ ns) c h = elim (Bool-cases (contains seen n)) [
  | inl old ↦ elim (visit_new (seen, queue) ns c (rw old at h)) [
    | inl before ↦ inl before
    | inr (among, queued) ↦ inr (ground (arith, among), rw old queued)
  ]
  | inr new ↦ elim (visit_new (set_insert n seen, n ∷ queue) ns c (rw new at h)) [
    | inr (among, queued) ↦ inr (ground (arith, among), rw new queued)
    | inl added ↦ elim (Bool-cases (n == c)) [
      | inr other ↦ inl (ground (arith, contains-set_insert n c seen, added, other))
      | inl same ↦ inr (
        ground (arith, same),
        rw new (visit_queues (set_insert n seen, n ∷ queue) ns c (ground (arith, same))),
      )
    ]
  ]
]

pub visit_queue :
    (walked : Walked) (ns : List Text) (c : Text)
    → contains (visit walked ns).1 c ≡ true
    → (contains walked.1 c ≡ true) ⊎ (contains ns c ≡ true)
unfolding visit
visit_queue walked [] c h = inl h
visit_queue (seen, queue) (n ∷ ns) c h = elim (Bool-cases (contains seen n)) [
  | inl old ↦ elim (visit_queue (seen, queue) ns c (rw old at h)) [
    | inl before ↦ inl before
    | inr among ↦ inr (ground (arith, among))
  ]
  | inr new ↦ elim (visit_queue (set_insert n seen, n ∷ queue) ns c (rw new at h)) [
    | inl before ↦ ground (arith, before)
    | inr among ↦ inr (ground (arith, among))
  ]
]

-- How many of the names are not seen.
unfoldable pub missing : List Text → List Text → ℕ
missing [] seen = 0
missing (n ∷ names) seen = (if contains seen n then 0 else 1) + missing names seen

pub missing_fewer :
    (names seen : List Text) (n : Text) → missing names (set_insert n seen) ≤ missing names seen
unfolding missing
missing_fewer [] seen n = omega arith
missing_fewer (m ∷ names) seen n =
    ground (arith, contains-set_insert n m seen, missing_fewer names seen n)

pub missing-set_insert :
    (names seen : List Text) (n : Text)
    → contains names n ≡ true
    → contains seen n ≡ false
    → missing names (set_insert n seen) + 1 ≤ missing names seen
unfolding missing
missing-set_insert [] seen n h new = absurd (ground (arith, h))
missing-set_insert (m ∷ names) seen n h new = elim (Bool-cases (m == n)) [
  | inl same ↦
      let first : contains seen m ≡ false = ap (contains seen) (eq_sound m n same) ∙ new in
      let now : contains (set_insert n seen) m ≡ true =
        contains-set_insert n m seen
        ∙ ap (λ k. k == m || contains seen m) (sym (eq_sound m n same))
        ∙ ap (λ b. b || contains seen m) (eq_refl m) in
      rw (first, now) (omega (arith, missing_fewer names seen n))
  | inr other ↦
      let later = missing-set_insert names seen n (ground (arith, h, other)) new in
      ground (arith, contains-set_insert n m seen, later)
]
