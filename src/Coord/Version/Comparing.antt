-- ===== src/Coord/Version/Comparing.antt =====
-- What `compare_versions` promises, and the cycles of the relation that it is.
use jrs.Prelude.{
  is_empty, true, ◌↔◌, Bool, ◌⊎◌, all, ◌≡◌, refl, ◌∙◌, arith, List, [], ◌∷◌, ◌++◌, some, none,
  length, Ordering, then_with, ap, sym, reversed, Text, compare_list, compare_list-IsOrd,
  Bool-cases, inl, inr, ◌==◌, list_eq, nat_eq, list_beq_iff,
}
use jrs.Coord.Version.{
  Item, num, qualifier, compare_items, compare_versions, tokenize, compare_qualifiers,
}
use jrs.Coord.Version.Padded.{padded, compare_tokens-padded}
use jrs.Coord.Version.Order.{compare_item, compare_item-IsOrd, compare_qualifiers-IsOrd}

missing_antisymmetric :
    (x : Item) → compare_items none (some x) ≡ reversed (compare_items (some x) none)
unfolding compare_items
missing_antisymmetric (num n) = ground arith
missing_antisymmetric (qualifier q) = compare_qualifiers-IsOrd.antisymmetric q []

padded_antisymmetric : (x y : List Item) → padded y x ≡ reversed (padded x y)
padded_antisymmetric [] [] = refl
padded_antisymmetric (x ∷ xs) [] =
    ground (arith, missing_antisymmetric x, padded_antisymmetric xs [])
padded_antisymmetric [] (y ∷ ys) =
    ground (arith, missing_antisymmetric y, padded_antisymmetric [] ys)
padded_antisymmetric (x ∷ xs) (y ∷ ys) =
    ground (arith, compare_item-IsOrd.antisymmetric x y, padded_antisymmetric xs ys)

padded_reflexive : (x : List Item) → padded x x ≡ Ordering.eq
padded_reflexive [] = refl
padded_reflexive (x ∷ xs) = ground (arith, compare_item-IsOrd.reflexive x, padded_reflexive xs)

-- Both branches of `compare_versions` are the comparison of the items.
pub compare_versions-padded : (a b : Text) → compare_versions a b ≡ padded (tokenize a) (tokenize b)
unfolding compare_versions
compare_versions-padded a b = elim (Bool-cases (a == b)) [
  | inl same ↦ rw (same, (list_beq_iff a b).0 same) (sym (padded_reflexive (tokenize b)))
  | inr other ↦ rw other (compare_tokens-padded (tokenize a) (tokenize b))
]

-- Comparing two versions the other way round gives the reversed answer.
pub compare_versions_antisymmetric :
    (a b : Text) → compare_versions b a ≡ reversed (compare_versions a b)
compare_versions_antisymmetric a b =
    rw (compare_versions-padded a b, compare_versions-padded b a)
      (padded_antisymmetric (tokenize a) (tokenize b))

padded-compare_list :
    (x y : List Item) → length x ≡ length y → padded x y ≡ compare_list compare_item x y
padded-compare_list [] [] h = refl
padded-compare_list [] (y ∷ ys) h = absurd (omega arith)
padded-compare_list (x ∷ xs) [] h = absurd (omega arith)
padded-compare_list (x ∷ xs) (y ∷ ys) h =
    ap (then_with (compare_item x y)) (padded-compare_list xs ys (omega arith))

-- Among versions that are cut into equally many items, the order is transitive.
pub compare_versions_transitive :
    (a b c : Text)
    → length (tokenize a) ≡ length (tokenize b)
    → length (tokenize b) ≡ length (tokenize c)
    → compare_versions a b ≡ Ordering.lt
    → compare_versions b c ≡ Ordering.lt
    → compare_versions a c ≡ Ordering.lt
compare_versions_transitive a b c h k p q =
    let first =
      sym (padded-compare_list (tokenize a) (tokenize b) h)
      ∙ sym (compare_versions-padded a b)
      ∙ p in
    let second =
      sym (padded-compare_list (tokenize b) (tokenize c) k)
      ∙ sym (compare_versions-padded b c)
      ∙ q in
    compare_versions-padded a c
    ∙ padded-compare_list (tokenize a) (tokenize c) (h ∙ k)
    ∙ (compare_list-IsOrd compare_item-IsOrd).transitive (tokenize a) (tokenize b) (tokenize c)
        first second

-- A trailing item that changes nothing: a zero, or the qualifier of a release.
abbrev pub is_null : Item → Bool
is_null (num n) = n == 0
is_null (qualifier q) = is_empty q

-- `long` is `short` with nulls behind it.
abbrev pub Extends : List Item → List Item → Type 0
Extends short long = (nulls : List Item) × (long ≡ short ++ nulls) × (all is_null nulls ≡ true)

missing_null : (x : Item) → (compare_items (some x) none ≡ Ordering.eq) ↔ (is_null x ≡ true)
unfolding compare_items
missing_null (num n) = ground arith
missing_null (qualifier []) = (λ _. refl, λ _. compare_qualifiers-IsOrd.reflexive [])
missing_null (qualifier (c ∷ q)) =
    (λ h. absurd (cc (compare_qualifiers-IsOrd.sound (c ∷ q) [] h)), λ h. absurd (cc h))

padded_nulls : (x : List Item) → (padded x [] ≡ Ordering.eq) ↔ (all is_null x ≡ true)
padded_nulls [] = ground arith
padded_nulls (x ∷ xs) = ground (arith, missing_null x, padded_nulls xs)

padded_eq : (x y : List Item) → padded x y ≡ Ordering.eq → Extends x y ⊎ Extends y x
padded_eq [] y h = inl (y, refl, (padded_nulls y).0 (ground (arith, padded_antisymmetric [] y)))
padded_eq (x ∷ xs) [] h = inr (x ∷ xs, refl, (padded_nulls (x ∷ xs)).0 h)
padded_eq (x ∷ xs) (y ∷ ys) h =
    let same : x ≡ y = compare_item-IsOrd.sound x y (ground arith) in
    elim (padded_eq xs ys (ground arith)) [
      | inl (zs, e, n) ↦ inl (zs, cc, n)
      | inr (zs, e, n) ↦ inr (zs, cc, n)
    ]

padded-Extends : (x zs : List Item) → all is_null zs ≡ true → padded (x ++ zs) x ≡ Ordering.eq
padded-Extends [] zs h = (padded_nulls zs).1 h
padded-Extends (x ∷ xs) zs h =
    ground (arith, compare_item-IsOrd.reflexive x, padded-Extends xs zs h)

-- Two versions compare equal exactly when the items of one are those of the other, followed by
-- zeros and release qualifiers only.
pub compare_versions-eq :
    (a b : Text)
    → (compare_versions a b ≡ Ordering.eq)
      ↔ (Extends (tokenize a) (tokenize b) ⊎ Extends (tokenize b) (tokenize a))
compare_versions-eq a b = (λ h. padded_eq _ _ (sym (compare_versions-padded a b) ∙ h), back)
  where
    back :
        Extends (tokenize a) (tokenize b) ⊎ Extends (tokenize b) (tokenize a)
        → compare_versions a b ≡ Ordering.eq
    back (inl (zs, e, n)) =
        let longer : padded (tokenize b) (tokenize a) ≡ Ordering.eq =
          rw e (padded-Extends (tokenize a) zs n) in
        compare_versions_antisymmetric b a ∙ ap reversed (compare_versions-padded b a ∙ longer)
    back (inr (zs, e, n)) = compare_versions-padded a b ∙ rw e (padded-Extends (tokenize b) zs n)

padded_longer : (xs zs : List Item) → padded xs (xs ++ zs) ≡ padded [] zs
padded_longer [] zs = refl
padded_longer (x ∷ xs) zs = ground (arith, compare_item-IsOrd.reflexive x, padded_longer xs zs)

padded_common : (xs ys zs : List Item) → padded (xs ++ ys) (xs ++ zs) ≡ padded ys zs
padded_common [] ys zs = refl
padded_common (x ∷ xs) ys zs =
    ground (arith, compare_item-IsOrd.reflexive x, padded_common xs ys zs)

-- For every version `a`: where `b` is `a` with one more qualifier that is newer than a release, and
-- `c` is `a` with one more zero, `a` is older than `b`, `b` is older than `c`, and yet `c` and `a`
-- compare equal. So the relation is no total order.
pub compare_versions_cycle :
    (a b c q : Text)
    → tokenize b ≡ tokenize a ++ qualifier q ∷ []
    → tokenize c ≡ tokenize a ++ num 0 ∷ []
    → compare_qualifiers [] q ≡ Ordering.lt
    → (compare_versions a b ≡ Ordering.lt)
      × (compare_versions b c ≡ Ordering.lt)
      × (compare_versions c a ≡ Ordering.eq)
unfolding compare_items
compare_versions_cycle a b c q at_b at_c newer =
    let items = tokenize a in
    (
      compare_versions-padded a b
          ∙ ap (padded items) at_b
          ∙ padded_longer items (qualifier q ∷ [])
          ∙ ap (λ o. then_with o Ordering.eq) newer,
      compare_versions-padded b c
          ∙ rw (at_b, at_c) (padded_common items (qualifier q ∷ []) (num 0 ∷ [])),
      (compare_versions-eq c a).1 (inr (num 0 ∷ [], at_c, refl)),
    )

pub compare_versions_reflexive : (a : Text) → compare_versions a a ≡ Ordering.eq
compare_versions_reflexive a = compare_versions-padded a a ∙ padded_reflexive (tokenize a)
