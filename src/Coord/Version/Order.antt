-- ===== src/Coord/Version/Order.antt =====
-- What the order of versions is, and where it is no order.
use jrs.Prelude.{
  ℕ, suc, ◌+◌, ◌≡◌, refl, ◌∙◌, arith, List, [], ◌∷◌, some, none, Option, get_elem?, Ordering, ap,
  sym, reversed, Text, IsOrd, compare_list, compare, compare_list-IsOrd, compare-IsOrd,
  list_beq_iff, ◌==◌, list_eq, nat_eq, Bool-cases, inl, inr,
}
use mathlib.Core.Option.{some-injective}
use jrs.Coord.Version.{
  Item, num, qualifier, compare_items, compare_ranks, compare_qualifiers, qualifier_rank, position,
  qualifiers,
}

position_sound :
    (i : ℕ) (s : Text) (qs : List Text) (j : ℕ)
    → position i s qs ≡ some j
    → (k : ℕ) × (j ≡ i + k) × (get_elem? qs k ≡ some s)
position_sound i s [] j h = absurd (ground arith)
position_sound i s (q ∷ qs) j h = elim (Bool-cases (q == s)) [
  | inl e ↦ (0, ground arith, ap some ((list_beq_iff q s).0 e))
  | inr e ↦
      let (k, at, found) = position_sound (suc i) s qs j (ground arith) in
      (suc k, omega arith, found)
]

qualifier_rank_injective :
    (a b : Text) (j : ℕ) → qualifier_rank a ≡ some j → qualifier_rank b ≡ some j → a ≡ b
unfolding qualifier_rank
qualifier_rank_injective a b j h k =
    let (m, at_m, found_a) = position_sound 0 a qualifiers j h in
    let (n, at_n, found_b) = position_sound 0 b qualifiers j k in
    let same : m ≡ n = omega arith in
    some-injective a b (sym found_a ∙ ap (get_elem? qualifiers) same ∙ found_b)

texts : IsOrd (compare_list compare)
texts = compare_list-IsOrd compare-IsOrd

ranks_transitive :
    (a b c : Text) (x y z : Option ℕ)
    → compare_ranks a b x y ≡ Ordering.lt
    → compare_ranks b c y z ≡ Ordering.lt
    → compare_ranks a c x z ≡ Ordering.lt
unfolding compare_ranks
ranks_transitive a b c none none none h k = texts.transitive a b c h k
ranks_transitive a b c _ _ _ h k = ground arith

ranks_sound :
    (a b : Text) (x y : Option ℕ)
    → qualifier_rank a ≡ x
    → qualifier_rank b ≡ y
    → compare_ranks a b x y ≡ Ordering.eq
    → a ≡ b
unfolding compare_ranks
ranks_sound a b none none p q h = texts.sound a b h
ranks_sound a b none (some y) p q h = absurd (ground arith)
ranks_sound a b (some x) none p q h = absurd (ground arith)
ranks_sound a b (some x) (some y) p q h =
    let same : y ≡ x = ground arith in qualifier_rank_injective a b x p (q ∙ ap some same)

ranks_antisymmetric :
    (a b : Text) (x y : Option ℕ) → compare_ranks b a y x ≡ reversed (compare_ranks a b x y)
unfolding compare_ranks
ranks_antisymmetric a b none none = texts.antisymmetric a b
ranks_antisymmetric a b none (some y) = refl
ranks_antisymmetric a b (some x) none = refl
ranks_antisymmetric a b (some x) (some y) = ground arith

ranks_reflexive : (a : Text) (x : Option ℕ) → compare_ranks a a x x ≡ Ordering.eq
unfolding compare_ranks
ranks_reflexive a none = texts.reflexive a
ranks_reflexive a (some x) = ground arith

-- Qualifiers are totally ordered.
pub compare_qualifiers-IsOrd : IsOrd compare_qualifiers
unfolding compare_qualifiers
compare_qualifiers-IsOrd = record {
  reflexive = λ a. ranks_reflexive a (qualifier_rank a);
  sound = λ a b h. ranks_sound a b (qualifier_rank a) (qualifier_rank b) refl refl h;
  antisymmetric = λ a b. ranks_antisymmetric a b (qualifier_rank a) (qualifier_rank b);
  transitive = λ a b c h k.
      ranks_transitive a b c (qualifier_rank a) (qualifier_rank b) (qualifier_rank c) h k;
}

abbrev pub compare_item : Item → Item → Ordering
compare_item a b = compare_items (some a) (some b)

item_transitive :
    (a b c : Item)
    → compare_item a b ≡ Ordering.lt
    → compare_item b c ≡ Ordering.lt
    → compare_item a c ≡ Ordering.lt
unfolding compare_items
item_transitive (qualifier a) (qualifier b) (qualifier c) h k =
    compare_qualifiers-IsOrd.transitive a b c h k
item_transitive _ _ _ h k = ground arith

item_sound : (a b : Item) → compare_item a b ≡ Ordering.eq → a ≡ b
unfolding compare_items
item_sound (num a) (num b) h = ground arith
item_sound (num a) (qualifier b) h = absurd (ground arith)
item_sound (qualifier a) (num b) h = absurd (ground arith)
item_sound (qualifier a) (qualifier b) h = ap qualifier (compare_qualifiers-IsOrd.sound a b h)

item_antisymmetric : (a b : Item) → compare_item b a ≡ reversed (compare_item a b)
unfolding compare_items
item_antisymmetric (num a) (num b) = ground arith
item_antisymmetric (num a) (qualifier b) = refl
item_antisymmetric (qualifier a) (num b) = refl
item_antisymmetric (qualifier a) (qualifier b) = compare_qualifiers-IsOrd.antisymmetric a b

item_reflexive : (a : Item) → compare_item a a ≡ Ordering.eq
unfolding compare_items
item_reflexive (num a) = ground arith
item_reflexive (qualifier a) = compare_qualifiers-IsOrd.reflexive a

pub compare_item-IsOrd : IsOrd compare_item
compare_item-IsOrd = record {
  reflexive = item_reflexive;
  sound = item_sound;
  antisymmetric = item_antisymmetric;
  transitive = item_transitive;
}
