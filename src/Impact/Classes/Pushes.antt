-- ===== src/Impact/Classes/Pushes.antt =====
-- How the list of a class's users grows.
use jrs.Prelude.{
  Text, Bool, true, not, ◌&&◌, ◌==◌, nat_eq, list_eq, List, ◌∷◌, [], ◌++◌, ◌≡◌, refl, ap, sym, ◌∙◌,
  arith, if◌then◌else◌, contains, contains_key, lookup-insert, any-append, Bool-cases, inl, inr,
  ◌⊎◌, eq_sound, eq_refl, subst,
}
use jrs.Impact.Classes.{Classes, Users, users_at, push_user, add_refs}

pub users_at-push_user :
    (target name : Text) (users : Users) (k : Text)
    → users_at (push_user target name users) k
      ≡ (if target == k then users_at users target ++ name ∷ [] else users_at users k)
unfolding users_at push_user
users_at-push_user target name users k =
    let found = lookup-insert k target (users_at users target ++ name ∷ []) users in
    elim (Bool-cases (target == k)) [
      | inl same ↦ rw (users_at, found, same) refl
      | inr other ↦ rw (users_at, found, other) refl
    ]

-- Who uses a class still does when another user comes in.
pub push_user_keeps :
    (target name : Text) (users : Users) (k d : Text)
    → contains (users_at users k) d ≡ true
    → contains (users_at (push_user target name users) k) d ≡ true
push_user_keeps target name users k d h = elim (Bool-cases (target == k)) [
  | inr other ↦ rw (users_at-push_user target name users k, other) h
  | inl same ↦
      let there_too : contains (users_at users target) d ≡ true =
        ap (λ t. contains (users_at users t) d) (eq_sound target k same) ∙ h in
      rw (users_at-push_user target name users k, same)
        (ground (arith, there_too, any-append (λ x. x == d) (users_at users target) (name ∷ [])))
]

pub push_user_adds :
    (target name : Text) (users : Users)
    → contains (users_at (push_user target name users) target) name ≡ true
push_user_adds target name users =
    rw (users_at-push_user target name users target, eq_refl target)
      (ground
        (arith, eq_refl name, any-append (λ x. x == name) (users_at users target) (name ∷ [])))

pub push_user_only :
    (target name : Text) (users : Users) (k d : Text)
    → contains (users_at (push_user target name users) k) d ≡ true
    → (contains (users_at users k) d ≡ true) ⊎ (name ≡ d)
push_user_only target name users k d h = elim (Bool-cases (target == k)) [
  | inr other ↦ inl (rw (users_at-push_user target name users k, other) at h)
  | inl same ↦
      let split_up : contains (users_at users target ++ name ∷ []) d ≡ true =
        rw (users_at-push_user target name users k, same) at h in
      elim (Bool-cases (name == d)) [
        | inl is ↦ inr (eq_sound name d is)
        | inr not_it ↦ inl (
            ap (λ t. contains (users_at users t) d) (sym (eq_sound target k same))
            ∙ ground (
              arith,
              split_up,
              not_it,
              any-append (λ x. x == d) (users_at users target) (name ∷ []),
            ))
      ]
]

-- The loop's test, and what it does.
unfoldable pub counts : Classes → Text → Text → Bool
counts classes name target = not (target == name) && contains_key target classes

pub add_refs_keeps :
    (classes : Classes) (name : Text) (refs : List Text) (users : Users) (k d : Text)
    → contains (users_at users k) d ≡ true
    → contains (users_at (add_refs classes name refs users) k) d ≡ true
unfolding add_refs counts
add_refs_keeps classes name [] users k d h = h
add_refs_keeps classes name (target ∷ refs) users k d h =
    elim (Bool-cases (counts classes name target)) [
      | inr passes ↦ rw passes (add_refs_keeps classes name refs users k d h)
      | inl does ↦ rw does (
          add_refs_keeps classes name refs (push_user target name users) k d
            (push_user_keeps target name users k d h))
    ]

pub add_refs_adds :
    (classes : Classes) (name : Text) (refs : List Text) (users : Users) (m : Text)
    → contains refs m ≡ true
    → counts classes name m ≡ true
    → contains (users_at (add_refs classes name refs users) m) name ≡ true
unfolding add_refs counts
add_refs_adds classes name [] users m h does = absurd (ground (arith, h))
add_refs_adds classes name (target ∷ refs) users m h does = elim (Bool-cases (target == m)) [
  | inr other ↦
      let later : contains refs m ≡ true = ground (arith, h, other) in
      elim (Bool-cases (counts classes name target)) [
        | inr passes ↦ rw passes (add_refs_adds classes name refs users m later does)
        | inl does_too ↦
            rw does_too (add_refs_adds classes name refs (push_user target name users) m later does)
      ]
  | inl same ↦
      let is_m : target ≡ m = eq_sound target m same in
      let here_too : counts classes name target ≡ true = ap (counts classes name) is_m ∙ does in
      rw here_too (
        add_refs_keeps classes name refs (push_user target name users) m name (
          subst (λ k. contains (users_at (push_user target name users) k) name ≡ true) is_m
            (push_user_adds target name users)))
]
