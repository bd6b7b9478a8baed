-- ===== src/Workspace/Upstream/Closed.antt =====
-- What `with_upstream` reaches: the members it is given and, with each, all that it depends on.
use jrs.Prelude.{
  subst, ℕ, zero, suc, true, false, ◌==◌, nat_eq, some, List, ◌∷◌, [], ◌++◌, length, contains,
  retain, ◌+◌, ◌≡◌, refl, ap, arith, Bool-cases, inl, inr, ◌⊎◌, any-append,
}
use jrs.Workspace.{in_order, Member, Workspace, modules_of, want, reach, with_upstream}
use jrs.Workspace.Upstream.{IsInside, Modules, reach_ends, missing_bound}
use jrs.Resolve.Classpath.{Classpath}

want_keeps :
    (s : List ℕ × List ℕ) (es : Modules) (i : ℕ)
    → contains s.0 i ≡ true
    → contains (want s es).0 i ≡ true
unfolding want
want_keeps s [] i h = h
want_keeps (wanted, queue) ((up, c) ∷ es) i h = elim (Bool-cases (contains wanted up)) [
  | inl old ↦ rw old (want_keeps (wanted, queue) es i h)
  | inr new ↦ rw new (want_keeps (up ∷ wanted, queue ++ up ∷ []) es i (ground (arith, h)))
]

want_queues :
    (s : List ℕ × List ℕ) (es : Modules) (i : ℕ)
    → contains s.1 i ≡ true
    → contains (want s es).1 i ≡ true
unfolding want
want_queues s [] i h = h
want_queues (wanted, queue) ((up, c) ∷ es) i h = elim (Bool-cases (contains wanted up)) [
  | inl old ↦ rw old (want_queues (wanted, queue) es i h)
  | inr new ↦ rw new (
      want_queues (up ∷ wanted, queue ++ up ∷ []) es i
        (ground (arith, h, any-append (λ x. x == i) queue (up ∷ []))))
]

want_new :
    (s : List ℕ × List ℕ) (es : Modules) (i : ℕ)
    → contains (want s es).0 i ≡ true
    → (contains s.0 i ≡ true) ⊎ (contains (want s es).1 i ≡ true)
unfolding want
want_new s [] i h = inl h
want_new (wanted, queue) ((up, c) ∷ es) i h = elim (Bool-cases (contains wanted up)) [
  | inl old ↦ rw old (want_new (wanted, queue) es i (rw old at h))
  | inr new ↦ elim (want_new (up ∷ wanted, queue ++ up ∷ []) es i (rw new at h)) [
    | inr queued ↦ inr (rw new queued)
    | inl added ↦ elim (Bool-cases (up == i)) [
      | inr other ↦ inl (ground (arith, added, other))
      | inl same ↦ inr (
          rw new (
            want_queues (up ∷ wanted, queue ++ up ∷ []) es i
              (ground (arith, same, any-append (λ x. x == i) queue (up ∷ [])))))
    ]
  ]
]

-- Each of the modules is in the list.
abbrev pub HasAll : List ℕ → Modules → Type 0
HasAll wanted [] = Unit {0}
HasAll wanted (e ∷ es) = (contains wanted e.0 ≡ true) × HasAll wanted es

want_old :
    (wanted queue : List ℕ) (up : ℕ) (c : Classpath) (es : Modules)
    → contains wanted up ≡ true
    → want (wanted, queue) es ≡ want (wanted, queue) ((up, c) ∷ es)
unfolding want
want_old wanted queue up c es old = rw old refl

want_fresh :
    (wanted queue : List ℕ) (up : ℕ) (c : Classpath) (es : Modules)
    → contains wanted up ≡ false
    → want (up ∷ wanted, queue ++ up ∷ []) es ≡ want (wanted, queue) ((up, c) ∷ es)
unfolding want
want_fresh wanted queue up c es new = rw new refl

want-HasAll : (s : List ℕ × List ℕ) (es : Modules) → HasAll (want s es).0 es
want-HasAll s [] = tt
want-HasAll (wanted, queue) ((up, c) ∷ es) = elim (Bool-cases (contains wanted up)) [
  | inl old ↦
      subst (λ s. (contains s.0 up ≡ true) × HasAll s.0 es) (want_old wanted queue up c es old)
        (want_keeps (wanted, queue) es up old, want-HasAll (wanted, queue) es)
  | inr new ↦
      subst (λ s. (contains s.0 up ≡ true) × HasAll s.0 es) (want_fresh wanted queue up c es new)
        (
          want_keeps (up ∷ wanted, queue ++ up ∷ []) es up (ground arith),
          want-HasAll (up ∷ wanted, queue ++ up ∷ []) es,
        )
]

HasAll-want : (s : List ℕ × List ℕ) (es ms : Modules) → HasAll s.0 ms → HasAll (want s es).0 ms
HasAll-want s es [] h = tt
HasAll-want s es (m ∷ ms) (a, h) = (want_keeps s es m.0 a, HasAll-want s es ms h)

-- What is wanted and no longer queued has all its modules wanted.
abbrev IsExplored : List Member → List ℕ → List ℕ → Type 0
IsExplored members wanted queue =
    (i : ℕ)
    → contains wanted i ≡ true
    → (contains queue i ≡ true) ⊎ HasAll wanted (modules_of members i)

IsExplored-step :
    (members : List Member) (wanted : List ℕ) (i : ℕ) (queue : List ℕ)
    → IsExplored members wanted (i ∷ queue)
    → IsExplored members
        (want (wanted, queue) (modules_of members i)).0
        (want (wanted, queue) (modules_of members i)).1
IsExplored-step members wanted i queue explored j h =
    elim (want_new (wanted, queue) (modules_of members i) j h) [
      | inr queued ↦ inl queued
      | inl old ↦ elim (explored j old) [
        | inr all_wanted ↦
            inr
              (HasAll-want (wanted, queue) (modules_of members i) (modules_of members j) all_wanted)
        | inl waiting ↦ elim (Bool-cases (i == j)) [
          | inl same ↦
              let is_i : i ≡ j = ground (arith, same) in
              inr (
                subst
                  (λ k.
                    HasAll (want (wanted, queue) (modules_of members i)).0 (modules_of members k))
                  is_i (want-HasAll (wanted, queue) (modules_of members i)))
          | inr other ↦ inl (
              want_queues (wanted, queue) (modules_of members i) j (ground (arith, waiting, other)))
        ]
      ]
    ]

reach_closed :
    (f : ℕ) (members : List Member) (wanted queue found : List ℕ)
    → IsExplored members wanted queue
    → reach f members wanted queue ≡ some found
    → ((i : ℕ) → contains wanted i ≡ true → contains found i ≡ true)
      × ((i : ℕ) → contains found i ≡ true → HasAll found (modules_of members i))
unfolding reach
reach_closed f members wanted [] found explored h =
    let same : wanted ≡ found = ground (arith, h) in
    subst
      (λ l.
        ((i : ℕ) → contains wanted i ≡ true → contains l i ≡ true)
        × ((i : ℕ) → contains l i ≡ true → HasAll l (modules_of members i)))
      same
      (
        λ i e. e,
        λ i e. elim (explored i e) [ inl queued ↦ absurd (ground (arith, queued)) | inr has ↦ has ],
      )
reach_closed zero members wanted (i ∷ queue) found explored h = absurd (ground (arith, h))
reach_closed (suc f) members wanted (i ∷ queue) found explored h =
    let s = want (wanted, queue) (modules_of members i) in
    let (kept, closed) =
      reach_closed f members s.0 s.1 found (IsExplored-step members wanted i queue explored) h in
    (λ j e. kept j (want_keeps (wanted, queue) (modules_of members i) j e), closed)

-- Where every module is a member, a round for each member of the workspace and of the command is
-- enough for `with_upstream`, and what it gives is the members, in build order, that are in a list
-- with all the command's members in it and, with each member in it, all of that member's modules.
pub with_upstream_closed :
    (w : Workspace) (members : List ℕ)
    → IsInside w.members
    → (found : List ℕ) × (with_upstream (length w.members + length members) w members
        ≡ some (retain (λ i. contains found i) w.order))
      × ((i : ℕ) → contains members i ≡ true → contains found i ≡ true)
      × ((i : ℕ) → contains found i ≡ true → HasAll found (modules_of w.members i))
unfolding with_upstream
with_upstream_closed w members inside =
    let (found, ends) =
      reach_ends (length w.members + length members) w.members members members inside
        (omega (arith, missing_bound (length w.members) members)) in
    let (kept, closed) =
      reach_closed (length w.members + length members) w.members members members found
        (λ i e. inl e) ends in
    (found, ap (in_order w) ends, kept, closed)
