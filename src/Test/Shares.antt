-- ===== src/Test/Shares.antt =====
-- Dealing classes out loses none and runs none twice.
use jrs.Prelude.{
  ℕ, zero, suc, Text, Bool, not, ◌==◌, nat_eq, list_eq, List, ◌∷◌, [], ◌++◌, map, if◌then◌else◌,
  length, get_or, set, replicate, retain, ◌+◌, ◌<◌, ◌≡◌, refl, ap, ◌∙◌, arith, length-set,
  length-replicate, Bool-cases, inl, inr,
}
use jrs.Test.{
  Times, Share, insert_by, sort_by, least_from, least, empty_share, give, deal, forks_of,
  is_measured, shares_of, at_most, slower, time_of, lighter, smaller,
}

-- How often a class is in a list, and in all the lists of one.
unfoldable pub occurrences : Text → List Text → ℕ
occurrences c [] = 0
occurrences c (x ∷ xs) = (if x == c then 1 else 0) + occurrences c xs

unfoldable pub in_all : Text → List (List Text) → ℕ
unfolding occurrences
in_all c [] = 0
in_all c (xs ∷ xss) = occurrences c xs + in_all c xss

in_shares : Text → List Share → ℕ
in_shares c [] = 0
in_shares c (s ∷ ss) = occurrences c s.0 + in_shares c ss

occurrences-insert_by :
    (before : Text → Text → Bool) (c x : Text) (xs : List Text)
    → occurrences c (insert_by before x xs) ≡ occurrences c (x ∷ xs)
unfolding occurrences insert_by
occurrences-insert_by before c x [] = refl
occurrences-insert_by before c x (y ∷ ys) = ground (arith, occurrences-insert_by before c x ys)

pub occurrences-sort_by :
    (before : Text → Text → Bool) (c : Text) (xs : List Text)
    → occurrences c (sort_by before xs) ≡ occurrences c xs
unfolding occurrences sort_by
occurrences-sort_by before c [] = refl
occurrences-sort_by before c (x ∷ xs) =
    occurrences-insert_by before c x (sort_by before xs)
    ∙ ap (λ n. (if x == c then 1 else 0) + n) (occurrences-sort_by before c xs)

occurrences-append :
    (c : Text) (xs ys : List Text) → occurrences c (xs ++ ys) ≡ occurrences c xs + occurrences c ys
unfolding occurrences
occurrences-append c [] ys = omega arith
occurrences-append c (x ∷ xs) ys = omega (arith, occurrences-append c xs ys)

occurrences-retain :
    (p : Text → Bool) (c : Text) (xs : List Text)
    → occurrences c (retain p xs) + occurrences c (retain (λ x. not (p x)) xs) ≡ occurrences c xs
unfolding occurrences
occurrences-retain p c [] = refl
occurrences-retain p c (x ∷ xs) = elim (Bool-cases (p x)) [
  | inl holds ↦ rw holds (omega (arith, occurrences-retain p c xs))
  | inr other ↦ rw other (omega (arith, occurrences-retain p c xs))
]

in_shares-set :
    (c d : Text) (millis : ℕ) (shares : List Share) (i : ℕ)
    → i < length shares
    → in_shares c (set shares i (give d millis (get_or shares i empty_share)))
      ≡ in_shares c shares + occurrences c (d ∷ [])
unfolding in_shares occurrences
in_shares-set c d millis [] i h = absurd (omega (arith, h))
in_shares-set c d millis (s ∷ ss) zero h = omega (arith, occurrences-append c s.0 (d ∷ []))
in_shares-set c d millis (s ∷ ss) (suc i) h =
    omega (arith, in_shares-set c d millis ss i (omega (arith, h)))

least_from_bound :
    (less : Share → Share → Bool) (i best : ℕ) (b : Share) (ss : List Share)
    → best < i
    → least_from less i best b ss < i + length ss
unfolding least_from
least_from_bound less i best b [] h = omega (arith, h)
least_from_bound less i best b (s ∷ ss) h = elim (Bool-cases (less s b)) [
  | inl holds ↦ rw holds (omega (arith, least_from_bound less (i + 1) i s ss (omega arith)))
  | inr other ↦ rw other (omega (arith, least_from_bound less (i + 1) best b ss (omega (arith, h))))
]

least_bound :
    (less : Share → Share → Bool) (shares : List Share)
    → 0 < length shares
    → least less shares < length shares
unfolding least
least_bound less [] h = absurd (omega (arith, h))
least_bound less (s ∷ ss) h = omega (arith, least_from_bound less 1 0 s ss (omega arith))

pub length-deal :
    (less : Share → Share → Bool) (time : Text → ℕ) (shares : List Share) (cs : List Text)
    → length (deal less time shares cs) ≡ length shares
unfolding deal
length-deal less time shares [] = refl
length-deal less time shares (c ∷ cs) =
    let i = least less shares in
    length-deal less time (set shares i (give c (time c) (get_or shares i empty_share))) cs
    ∙ length-set shares i _

in_shares-deal :
    (less : Share → Share → Bool) (time : Text → ℕ) (c : Text) (shares : List Share)
    (cs : List Text)
    → 0 < length shares
    → in_shares c (deal less time shares cs) ≡ in_shares c shares + occurrences c cs
unfolding deal occurrences
in_shares-deal less time c shares [] h = omega arith
in_shares-deal less time c shares (d ∷ cs) h =
    let i = least less shares in
    let dealt = set shares i (give d (time d) (get_or shares i empty_share)) in
    omega (
      arith,
      in_shares-deal less time c dealt cs
          (omega (arith, h, length-set shares i (give d (time d) (get_or shares i empty_share)))),
      in_shares-set c d (time d) shares i (least_bound less shares h),
    )

in_shares_empty : (c : Text) (n : ℕ) → in_shares c (replicate n empty_share) ≡ 0
unfolding in_shares occurrences
in_shares_empty c zero = refl
in_shares_empty c (suc n) = omega (arith, in_shares_empty c n)

in_all_sorted :
    (before : Text → Text → Bool) (c : Text) (shares : List Share)
    → in_all c (map (λ (s : Share). sort_by before s.0) shares) ≡ in_shares c shares
unfolding in_all in_shares
in_all_sorted before c [] = refl
in_all_sorted before c (s ∷ ss) =
    omega (arith, occurrences-sort_by before c s.0, in_all_sorted before c ss)

-- However many JVMs there are, and whatever times are known, the shares together hold each class
-- exactly as often as the classes do.
pub shares_of_partition :
    (classes : List Text) (forks : ℕ) (times : Times) (c : Text)
    → in_all c (shares_of classes forks times) ≡ occurrences c classes
unfolding shares_of
shares_of_partition classes forks times c =
    let measured = retain (is_measured times) classes in
    let unmeasured = retain (λ x. not (is_measured times x)) classes in
    let fresh = replicate (forks_of forks classes) empty_share in
    let first = deal lighter (time_of times) fresh (sort_by (slower times) measured) in
    let some_share : 0 < length fresh =
      omega (arith, length-replicate (forks_of forks classes) empty_share) in
    let still : 0 < length first = omega (
      arith,
      some_share,
      length-deal lighter (time_of times) fresh (sort_by (slower times) measured),
    ) in
    in_all_sorted at_most c (deal smaller (λ _. 0) first unmeasured)
    ∙ omega (
      arith,
      in_shares-deal smaller (λ _. 0) c first unmeasured still,
      in_shares-deal lighter (time_of times) c fresh (sort_by (slower times) measured) some_share,
      in_shares_empty c (forks_of forks classes),
      occurrences-sort_by (slower times) c measured,
      occurrences-retain (is_measured times) c classes,
    )
