-- ===== src/Prelude/Sets.antt =====
-- `BTreeSet` of texts: a list in the order of the texts, each once.
use Prim.Native.Nat.{compare, Ordering}
use mathlib.Core.Path.{◌≡◌, refl}
use mathlib.Core.Bool.{◌||◌}
use mathlib.Core.List.{List, [], ◌∷◌}
use native.Mathlib.Omega.{arith}
use jrs.Prelude.Equality.{◌==◌, nat_eq, list_eq, contains}
use jrs.Prelude.Texts.{Text}
use jrs.Prelude.Orders.{compare-IsOrd, compare_list-IsOrd, IsOrd, compare_list, compare-IsOrd}

abbrev pub compare_text : Text → Text → Ordering
compare_text = compare_list compare

unfoldable pub set_insert : Text → List Text → List Text
set_insert x [] = x ∷ []
set_insert x (y ∷ ys) = elim (compare_text x y) [
  | Ordering.lt ↦ x ∷ y ∷ ys
  | Ordering.eq ↦ y ∷ ys
  | Ordering.gt ↦ y ∷ set_insert x ys
]

-- `extend`.
unfoldable pub set_extend : List Text → List Text → List Text
set_extend set [] = set
set_extend set (x ∷ xs) = set_extend (set_insert x set) xs

text_order : IsOrd compare_text
text_order = compare_list-IsOrd compare-IsOrd

pub contains-set_insert :
    (x y : Text) (set : List Text) → contains (set_insert x set) y ≡ (x == y || contains set y)
unfolding set_insert
contains-set_insert x y [] = refl
contains-set_insert x y (z ∷ zs) = ground (arith, contains-set_insert x y zs, text_order.sound x z)

pub contains-set_extend :
    (set xs : List Text) (y : Text)
    → contains (set_extend set xs) y ≡ (contains set y || contains xs y)
unfolding set_extend
contains-set_extend set [] y = ground arith
contains-set_extend set (x ∷ xs) y =
    ground (arith, contains-set_extend (set_insert x set) xs y, contains-set_insert x y set)
