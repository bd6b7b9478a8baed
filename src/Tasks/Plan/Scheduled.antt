-- ===== src/Tasks/Plan/Scheduled.antt =====
-- What `plan` gives runs everything once, and after what it depends on.
use jrs.Prelude.{
  ℕ, zero, suc, true, false, ◌==◌, nat_eq, list_eq, Option, some, List, ◌∷◌, [], ◌++◌, contains,
  ◌≤◌, ◌<◌, ◌≡◌, refl, ap, sym, ◌∙◌, subst, arith, Bool-cases, inl, inr, ◌⊎◌, eq_sound, eq_refl,
}
use jrs.Tasks.{TaskRef, task_ref_eq, Manifest}
use jrs.Tasks.Plan.{Planned, dependencies, visit, visit_all, push, plan, order_in}
use jrs.Tasks.Plan.Schedules.{IsScheduled, IsRanked, IsScheduled-snoc, contains-snoc}

module _ (m : Manifest) (rank : TaskRef → ℕ) where
  -- The order so far is a schedule, of nodes that are seen.
  record IsSound (planned : Planned) : Type 0 where
    scheduled : IsScheduled m [] planned.1
    among_seen : (x : TaskRef) → contains planned.1 x ≡ true → contains planned.0 x ≡ true

  -- What is seen and not in the order yet is ranked `r` at least.
  AllHigh : ℕ → Planned → Type 0
  AllHigh r planned =
      (x : TaskRef) → contains planned.0 x ≡ true → (contains planned.1 x ≡ true) ⊎ (r ≤ rank x)

  -- From one state to a later one: the order grows by nodes that were not seen, and all that come to
  -- be seen are in it.
  record Grows (a b : Planned) : Type 0 where
    keeps : (x : TaskRef) → contains a.1 x ≡ true → contains b.1 x ≡ true
    adds_new :
        (x : TaskRef) → contains b.1 x ≡ true → (contains a.1 x ≡ true) ⊎ (contains a.0 x ≡ false)
    seen_too : (x : TaskRef) → contains a.0 x ≡ true → contains b.0 x ≡ true
    finishes :
        (x : TaskRef) → contains b.0 x ≡ true → (contains b.1 x ≡ true) ⊎ (contains a.0 x ≡ true)

  Grows-self : (a : Planned) → Grows a a
  Grows-self a = record {
    keeps = λ x h. h;
    adds_new = λ x h. inl h;
    seen_too = λ x h. h;
    finishes = λ x h. inr h;
  }

  Grows-chain : (a b c : Planned) → Grows a b → Grows b c → Grows a c
  Grows-chain a b c g h = record {
    keeps = λ x e. h.keeps x (g.keeps x e);
    adds_new = λ x e. elim (h.adds_new x e) [
      | inl before ↦ g.adds_new x before
      | inr unseen ↦ elim (Bool-cases (contains a.0 x)) [
        | inl old ↦ absurd (ground (arith, unseen, g.seen_too x old))
        | inr new ↦ inr new
      ]
    ];
    seen_too = λ x e. h.seen_too x (g.seen_too x e);
    finishes = λ x e. elim (h.finishes x e) [
      | inl now ↦ inl now
      | inr before ↦ elim (g.finishes x before) [
        | inl then_in ↦ inl (h.keeps x then_in)
        | inr at_first ↦ inr at_first
      ]
    ];
  }

  AllHigh-Grows : (r : ℕ) (a b : Planned) → Grows a b → AllHigh r a → AllHigh r b
  unfolding AllHigh
  AllHigh-Grows r a b g high x seen = elim (g.finishes x seen) [
    | inl now ↦ inl now
    | inr before ↦ elim (high x before) [
      | inl in_order ↦ inl (g.keeps x in_order)
      | inr above ↦ inr above
    ]
  ]

  -- A visit comes back, with the node in the order.
  Visits : (TaskRef → Planned → Option Planned) → TaskRef → Planned → Type 0
  Visits go node a =
      (b : Planned) × (go node a ≡ some b) × IsSound b × Grows a b × (contains b.1 node ≡ true)

  visit_all_works :
      (go : TaskRef → Planned → Option Planned) (r : ℕ) (deps : List TaskRef) (a : Planned)
      → IsSound a
      → AllHigh r a
      → ((d : TaskRef) (p : Planned)
          → contains deps d ≡ true
          → IsSound p
          → AllHigh r p
          → Visits go d p)
      → (b : Planned) × (visit_all go deps a ≡ some b)
        × IsSound b
        × Grows a b
        × ((d : TaskRef) → contains deps d ≡ true → contains b.1 d ≡ true)
  unfolding visit_all Visits
  visit_all_works go r [] a sound high h =
      (a, refl, sound, Grows-self a, λ d among. absurd (ground (arith, among)))
  visit_all_works go r (dep ∷ deps) a sound high h =
      let (b, e, sound_b, grows, now) = h dep a (ground (arith, eq_refl dep)) sound high in
      let (c, f, sound_c, more, rest) =
        visit_all_works go r deps b sound_b (AllHigh-Grows r a b grows high)
          (λ d p among. h d p (ground (arith, among))) in
      (
        c,
        rw (visit_all, e) f,
        sound_c,
        Grows-chain a b c grows more,
        λ d among. elim (Bool-cases (dep == d)) [
          | inl is ↦ more.keeps d (subst (λ k. contains b.1 k ≡ true) (eq_sound dep d is) now)
          | inr other ↦ rest d (ground (arith, among, other))
        ],
      )

  AllHigh-le : (r s : ℕ) (a : Planned) → r ≤ s → AllHigh s a → AllHigh r a
  unfolding AllHigh
  AllHigh-le r s a h high x seen = elim (high x seen) [
    | inl in_order ↦ inl in_order
    | inr above ↦ inr (omega (arith, h, above))
  ]

  enters :
      (node : TaskRef) (seen out : List TaskRef)
      → IsSound (seen, out)
      → AllHigh (suc (rank node)) (seen, out)
      → IsSound (node ∷ seen, out) × AllHigh (rank node) (node ∷ seen, out)
  unfolding AllHigh
  enters node seen out sound high = (
    record {
      scheduled = sound.scheduled;
      among_seen = λ x h. let old = sound.among_seen x h in ground (arith, old);
    },
    λ x h. elim (Bool-cases (node == x)) [
      | inl is ↦ inr (
          let same : node ≡ x = eq_sound node x is in
          subst (λ k. rank node ≤ rank k) same (omega arith))
      | inr other ↦ elim (high x (ground (arith, h, other))) [
        | inl in_order ↦ inl in_order
        | inr above ↦ inr (omega (arith, above))
      ]
    ],
  )

  not_yet :
      (node : TaskRef) (seen out s o : List TaskRef)
      → IsSound (seen, out)
      → contains seen node ≡ false
      → Grows (node ∷ seen, out) (s, o)
      → contains o node ≡ false
  not_yet node seen out s o sound new grows = elim (Bool-cases (contains o node)) [
    | inr no_node ↦ no_node
    | inl pushed ↦ elim (grows.adds_new node pushed) [
      | inl before ↦ absurd (ground (arith, new, sound.among_seen node before))
      | inr unseen ↦ absurd (ground (arith, unseen, eq_refl node))
    ]
  ]

  leaves :
      (node : TaskRef) (seen out s o : List TaskRef)
      → IsSound (seen, out)
      → contains seen node ≡ false
      → IsSound (s, o)
      → Grows (node ∷ seen, out) (s, o)
      → ((d : TaskRef) → contains (dependencies m node) d ≡ true → contains o d ≡ true)
      → IsSound (s, o ++ node ∷ []) × Grows (seen, out) (s, o ++ node ∷ [])
  leaves node seen out s o sound new after grows deps = (
    record {
      scheduled =
          IsScheduled-snoc m [] o node after.scheduled (λ d among. deps d among)
            (not_yet node seen out s o sound new grows);
      among_seen = λ x h. elim (Bool-cases (node == x)) [
        | inl is ↦ grows.seen_too x (ground (arith, is))
        | inr other ↦
            let split_up = sym (contains-snoc o node x) ∙ h in
            after.among_seen x (ground (arith, split_up, other))
      ];
    },
    record {
      keeps = λ x h. let kept = grows.keeps x h in contains-snoc o node x ∙ ground (arith, kept);
      adds_new = λ x h. elim (Bool-cases (node == x)) [
        | inl is ↦ inr (subst (λ k. contains seen k ≡ false) (eq_sound node x is) new)
        | inr other ↦
            let split_up = sym (contains-snoc o node x) ∙ h in
            elim (grows.adds_new x (ground (arith, split_up, other))) [
              | inl before ↦ inl before
              | inr unseen ↦ inr (ground (arith, unseen, other))
            ]
      ];
      seen_too = λ x h. grows.seen_too x (ground (arith, h));
      finishes = λ x h. elim (Bool-cases (node == x)) [
        | inl is ↦ inl (contains-snoc o node x ∙ ground (arith, is))
        | inr other ↦ elim (grows.finishes x h) [
          | inl now ↦ inl (contains-snoc o node x ∙ ground (arith, now))
          | inr before ↦ inr (ground (arith, before, other))
        ]
      ];
    },
  )

  visit_works :
      (f : ℕ) (node : TaskRef) (a : Planned)
      → IsRanked m rank
      → rank node < f
      → IsSound a
      → AllHigh (suc (rank node)) a
      → Visits (visit f m) node a
  unfolding visit Visits push AllHigh
  visit_works zero node a ranked few sound high = absurd (omega (arith, few))
  visit_works (suc f) node (seen, out) ranked few sound high =
      elim (Bool-cases (contains seen node)) [
        | inl old ↦ elim (high node old) [
          | inl in_order ↦ ((seen, out), rw old refl, sound, Grows-self (seen, out), in_order)
          | inr above ↦ absurd (omega (arith, above))
        ]
        | inr new ↦
            let (sound1, high1) = enters node seen out sound high in
            let (b, e, sound_b, grows, rest) =
              visit_all_works (visit f m) (rank node) (dependencies m node) (node ∷ seen, out)
                sound1 high1
                (λ d p among sound_p high_p.
                  let lower = ranked node d among in
                  visit_works f d p ranked (omega (arith, few, lower)) sound_p
                    (AllHigh-le (suc (rank d)) (rank node) p (omega (arith, lower)) high_p)) in
            let (sound_c, grows_c) = leaves node seen out b.0 b.1 sound new sound_b grows rest in
            (
              (b.0, b.1 ++ node ∷ []),
              rw (new, e) refl,
              sound_c,
              grows_c,
              contains-snoc b.1 node node ∙ ground (arith, eq_refl node),
            )
      ]

  -- Where what a node depends on is ranked below it, and the fuel is above the ranks of the roots,
  -- `plan` gives a list with all roots in it, in which each node comes once and after all that it
  -- depends on.
  pub plan_works :
      (f : ℕ) (roots : List TaskRef)
      → IsRanked m rank
      → ((root : TaskRef) → contains roots root ≡ true → rank root < f)
      → (out : List TaskRef) × (plan f m roots ≡ some out)
        × IsScheduled m [] out
        × ((root : TaskRef) → contains roots root ≡ true → contains out root ≡ true)
  unfolding plan order_in AllHigh
  plan_works f roots ranked few =
      let nothing : IsSound ([], []) = record {
        scheduled = tt;
        among_seen = λ x h. absurd (ground (arith, h));
      } in
      let (b, e, sound_b, grows, rest) =
        visit_all_works (visit f m) f roots ([], []) nothing (λ x h. absurd (ground (arith, h)))
          (λ d p among sound_p high_p.
            visit_works f d p ranked (few d among) sound_p
              (AllHigh-le (suc (rank d)) f p (omega (arith, few d among)) high_p)) in
      (b.1, ap order_in e, sound_b.scheduled, rest)
