-- ===== src/Prelude/Orders.antt =====
-- `Ord`: comparison functions, their laws as an interface, and the lexicographic order.
use Prim.Native.Nat.{compare, Ordering}
use mathlib.Core.Path.{◌≡◌, refl, ap}
use mathlib.Core.List.{List, [], ◌∷◌}
use mathlib.Core.Option.{Option, none, some}
use native.Mathlib.Omega.{arith}

-- `Ordering::then_with`, and `Ordering::reverse`.
abbrev pub then_with : Ordering → Ordering → Ordering
then_with Ordering.eq o = o
then_with Ordering.lt o = Ordering.lt
then_with Ordering.gt o = Ordering.gt

abbrev pub reversed : Ordering → Ordering
reversed Ordering.lt = Ordering.gt
reversed Ordering.eq = Ordering.eq
reversed Ordering.gt = Ordering.lt

-- What `Ord` and `Eq` ask of a comparison.
pub record IsOrd {ℓ} {A : Type ℓ} (cmp : A → A → Ordering) : Type ℓ where
  pub reflexive : (a : A) → cmp a a ≡ Ordering.eq
  pub sound : (a b : A) → cmp a b ≡ Ordering.eq → a ≡ b
  pub antisymmetric : (a b : A) → cmp b a ≡ reversed (cmp a b)
  pub transitive :
      (a b c : A) → cmp a b ≡ Ordering.lt → cmp b c ≡ Ordering.lt → cmp a c ≡ Ordering.lt

pub compare-IsOrd : IsOrd compare
compare-IsOrd = record {
  reflexive = λ a. ground arith;
  sound = λ a b h. ground arith;
  antisymmetric = λ a b. ground arith;
  transitive = λ a b c h k. ground arith;
}

module _ {ℓ} {A : Type ℓ} (cmp : A → A → Ordering) where
  -- The order of slices and strings.
  abbrev pub compare_list : List A → List A → Ordering
  compare_list [] [] = Ordering.eq
  compare_list [] (y ∷ ys) = Ordering.lt
  compare_list (x ∷ xs) [] = Ordering.gt
  compare_list (x ∷ xs) (y ∷ ys) = then_with (cmp x y) (compare_list xs ys)

  -- The derived order of `Option`.
  abbrev pub compare_option : Option A → Option A → Ordering
  compare_option none none = Ordering.eq
  compare_option none (some y) = Ordering.lt
  compare_option (some x) none = Ordering.gt
  compare_option (some x) (some y) = cmp x y

module _ {ℓ} {A : Type ℓ} {cmp : A → A → Ordering} (ord : IsOrd cmp) where
  open ord use {reflexive, sound, antisymmetric, transitive}

  list_reflexive : (xs : List A) → compare_list cmp xs xs ≡ Ordering.eq
  list_reflexive [] = refl
  list_reflexive (x ∷ xs) = ground (arith, reflexive x, list_reflexive xs)

  list_sound : (xs ys : List A) → compare_list cmp xs ys ≡ Ordering.eq → xs ≡ ys
  list_sound [] [] h = refl
  list_sound [] (y ∷ ys) h = ground arith
  list_sound (x ∷ xs) [] h = ground arith
  list_sound (x ∷ xs) (y ∷ ys) h = ground (arith, sound x y, list_sound xs ys)

  list_antisymmetric : (xs ys : List A) → compare_list cmp ys xs ≡ reversed (compare_list cmp xs ys)
  list_antisymmetric [] [] = refl
  list_antisymmetric [] (y ∷ ys) = refl
  list_antisymmetric (x ∷ xs) [] = refl
  list_antisymmetric (x ∷ xs) (y ∷ ys) = ground (arith, antisymmetric x y, list_antisymmetric xs ys)

  list_transitive :
      (xs ys zs : List A)
      → compare_list cmp xs ys ≡ Ordering.lt
      → compare_list cmp ys zs ≡ Ordering.lt
      → compare_list cmp xs zs ≡ Ordering.lt
  list_transitive [] [] zs h k = ground arith
  list_transitive [] (y ∷ ys) [] h k = ground arith
  list_transitive [] (y ∷ ys) (z ∷ zs) h k = refl
  list_transitive (x ∷ xs) [] zs h k = ground arith
  list_transitive (x ∷ xs) (y ∷ ys) [] h k = ground arith
  list_transitive (x ∷ xs) (y ∷ ys) (z ∷ zs) h k =
      ground (arith, sound x y, sound y z, transitive x y z, reflexive x, list_transitive xs ys zs)

  pub compare_list-IsOrd : IsOrd (compare_list cmp)
  compare_list-IsOrd = record {
    reflexive = list_reflexive;
    sound = list_sound;
    antisymmetric = list_antisymmetric;
    transitive = list_transitive;
  }

  option_transitive :
      (x y z : Option A)
      → compare_option cmp x y ≡ Ordering.lt
      → compare_option cmp y z ≡ Ordering.lt
      → compare_option cmp x z ≡ Ordering.lt
  option_transitive none none z h k = ground arith
  option_transitive none (some y) none h k = ground arith
  option_transitive none (some y) (some z) h k = refl
  option_transitive (some x) none z h k = ground arith
  option_transitive (some x) (some y) none h k = ground arith
  option_transitive (some x) (some y) (some z) h k = transitive x y z h k

  option_sound : (x y : Option A) → compare_option cmp x y ≡ Ordering.eq → x ≡ y
  option_sound none none h = refl
  option_sound none (some y) h = ground arith
  option_sound (some x) none h = ground arith
  option_sound (some x) (some y) h = ap some (sound x y h)

  option_reflexive : (x : Option A) → compare_option cmp x x ≡ Ordering.eq
  option_reflexive none = refl
  option_reflexive (some x) = reflexive x

  option_antisymmetric :
      (x y : Option A) → compare_option cmp y x ≡ reversed (compare_option cmp x y)
  option_antisymmetric none none = refl
  option_antisymmetric none (some y) = refl
  option_antisymmetric (some x) none = refl
  option_antisymmetric (some x) (some y) = antisymmetric x y

  pub compare_option-IsOrd : IsOrd (compare_option cmp)
  compare_option-IsOrd = record {
    reflexive = option_reflexive;
    sound = option_sound;
    antisymmetric = option_antisymmetric;
    transitive = option_transitive;
  }

pub reversed-then_with :
    (a b : Ordering) → reversed (then_with a b) ≡ then_with (reversed a) (reversed b)
reversed-then_with Ordering.lt b = refl
reversed-then_with Ordering.eq b = refl
reversed-then_with Ordering.gt b = refl
