-- ===== src/Impact/Classes/Users.antt =====
-- The users of a class are those that refer to it.
use jrs.Prelude.{
  suc, Text, Bool, true, ◌&&◌, ◌==◌, nat_eq, list_eq, some, List, ◌∷◌, [], ◌≡◌, refl, ap, sym, ◌∙◌,
  arith, map, retain, contains, length, lookup, contains_key, Bool-cases, Option-cases, inl, inr,
  ◌⊎◌, eq_sound, eq_refl, subst,
}
use jrs.Impact.{ClassInfo}
use jrs.Impact.Walk.Visits.{Reaches, here, there}
use jrs.Impact.Walk.Reached.{walk-eq}
use jrs.Impact.Classes.{
  Classes, Users, users_at, push_user, add_refs, users_of, refs_at, reach_users, rounds,
}
use jrs.Impact.Classes.Pushes.{push_user_only, counts, add_refs_keeps, add_refs_adds}

-- All users are among the names.
AreNamed : List Text → Users → Type 0
AreNamed names users = (k d : Text) → contains (users_at users k) d ≡ true → contains names d ≡ true

AreNamed-add_refs :
    (names : List Text) (classes : Classes) (name : Text) (refs : List Text) (users : Users)
    → contains names name ≡ true
    → AreNamed names users
    → AreNamed names (add_refs classes name refs users)
unfolding add_refs counts AreNamed
AreNamed-add_refs names classes name [] users known h = h
AreNamed-add_refs names classes name (target ∷ refs) users known h =
    elim (Bool-cases (counts classes name target)) [
      | inr passes ↦ rw passes (AreNamed-add_refs names classes name refs users known h)
      | inl does ↦ rw does (
          AreNamed-add_refs names classes name refs (push_user target name users) known (λ k d m.
            elim (push_user_only target name users k d m) [
              | inl before ↦ h k d before
              | inr is ↦ subst (λ n. contains names n ≡ true) is known
            ]))
    ]

abbrev pub names_of : Classes → List Text
names_of classes = map (λ (e : Text × ClassInfo). e.0) classes

pub length-names_of : (classes : Classes) → length (names_of classes) ≡ length classes
length-names_of [] = refl
length-names_of (e ∷ classes) = ap suc (length-names_of classes)

AreNamed-users_of :
    (names : List Text) (classes left : Classes) (users : Users)
    → ((n : Text) → contains (names_of left) n ≡ true → contains names n ≡ true)
    → AreNamed names users
    → AreNamed names (users_of classes left users)
unfolding users_of
AreNamed-users_of names classes [] users known h = h
AreNamed-users_of names classes ((name, info) ∷ left) users known h =
    AreNamed-users_of names classes left (add_refs classes name info.refs users)
      (λ n m. known n (ground (arith, m)))
      (AreNamed-add_refs names classes name info.refs users
        (known name (ground (arith, eq_refl name))) h)

users_of_keeps :
    (classes left : Classes) (users : Users) (k d : Text)
    → contains (users_at users k) d ≡ true
    → contains (users_at (users_of classes left users) k) d ≡ true
unfolding users_of
users_of_keeps classes [] users k d h = h
users_of_keeps classes ((name, info) ∷ left) users k d h =
    users_of_keeps classes left (add_refs classes name info.refs users) k d
      (add_refs_keeps classes name info.refs users k d h)

users_of_adds :
    (classes left : Classes) (users : Users) (t m : Text) (info : ClassInfo)
    → lookup t left ≡ some info
    → contains info.refs m ≡ true
    → counts classes t m ≡ true
    → contains (users_at (users_of classes left users) m) t ≡ true
unfolding users_of lookup
users_of_adds classes [] users t m info found h does = absurd (ground (arith, found))
users_of_adds classes ((name, first) ∷ left) users t m info found h does =
    let users2 = add_refs classes name first.refs users in
    elim (Bool-cases (name == t)) [
      | inr other ↦ users_of_adds classes left users2 t m info (rw other at found) h does
      | inl same ↦
          let is_t : name ≡ t = eq_sound name t same in
          let its : first ≡ info = ground (arith, (rw same at found)) in
          let refs_too : contains first.refs m ≡ true =
            subst (λ i. contains i.refs m ≡ true) (sym its) h in
          let does_too : counts classes name m ≡ true =
            subst (λ n. counts classes n m ≡ true) (sym is_t) does in
          users_of_keeps classes left users2 m t (
            subst (λ n. contains (users_at (add_refs classes name first.refs users) m) n ≡ true)
              is_t (add_refs_adds classes name first.refs users m refs_too does_too))
    ]

pub contains-retain :
    (p : Text → Bool) (xs : List Text) (a : Text)
    → contains (retain p xs) a ≡ (p a && contains xs a)
contains-retain p [] a = ground arith
contains-retain p (x ∷ xs) a = elim (Bool-cases (x == a)) [
  | inl same ↦
      let e : p x ≡ p a = ap p (eq_sound x a same) in
      ground (arith, e, same, contains-retain p xs a)
  | inr other ↦ ground (arith, other, contains-retain p xs a)
]

-- A class that refers to another one of the project is among its users.
users_of_complete :
    (classes : Classes) (t m : Text)
    → contains (refs_at classes t) m ≡ true
    → (t ≡ m) ⊎ (contains (users_at (users_of classes classes []) m) t ≡ true)
unfolding refs_at counts
users_of_complete classes t m h = elim (Option-cases (lookup t classes)) [
  | inl no_class ↦ absurd (ground (arith, (rw (refs_at, no_class) at h)))
  | inr (info, found) ↦
      let both : (contains_key m classes && contains info.refs m) ≡ true =
        sym (contains-retain (λ r. contains_key r classes) info.refs m)
        ∙ (rw (refs_at, found) at h) in
      elim (Bool-cases (m == t)) [
        | inl same ↦ inl (sym (eq_sound m t same))
        | inr other ↦ inr (
            users_of_adds classes classes [] t m info found (ground (arith, both))
              (ground (arith, both, other)))
      ]
]

-- A class uses another, directly or through other classes of the project.
pub data Uses (classes : Classes) (c : Text) : Text → Type 0 where
  itself : Uses classes c c
  through :
      (t m : Text) → contains (refs_at classes t) m ≡ true → Uses classes c m → Uses classes c t

Uses-Reaches :
    (classes : Classes) (c t : Text)
    → Uses classes c t
    → Reaches (users_at (users_of classes classes [])) c t
Uses-Reaches classes c t itself = here
Uses-Reaches classes c t (through _ m h u) = elim (users_of_complete classes t m h) [
  | inl same ↦
      subst (Reaches (users_at (users_of classes classes [])) c) (sym same)
        (Uses-Reaches classes c m u)
  | inr user ↦ there m t (Uses-Reaches classes c m u) user
]

-- `walk` along the users finds every class that uses the one it starts from.
pub reach_users_complete :
    (classes : Classes) (c t : Text)
    → Uses classes c t
    → contains (reach_users classes (users_of classes classes []) c) t ≡ true
unfolding reach_users AreNamed users_at
reach_users_complete classes c t u =
    let users = users_of classes classes [] in
    let named : AreNamed (names_of classes) users =
      AreNamed-users_of (names_of classes) classes classes [] (λ n m. m)
        (λ k d m. absurd (ground (arith, m))) in
    (walk-eq (rounds classes) (names_of classes) c (users_at users) named
        (omega (arith, length-names_of classes)) t).1
      (Uses-Reaches classes c t u)
