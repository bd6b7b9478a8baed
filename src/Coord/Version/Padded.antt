-- ===== src/Coord/Version/Padded.antt =====
-- The loop of `compare_versions` as a recursion on the two lists of items, the shorter one padded.
use jrs.Prelude.{
  ℕ, zero, suc, ◌≤◌, ◌≡◌, refl, ◌∙◌, arith, List, [], ◌∷◌, some, none, length, get_elem?, max,
  Ordering, then_with, ap,
}
use mathlib.Core.List.{tail}
use jrs.Coord.Version.{Item, compare_items, compare_from, compare_tokens}

abbrev pub padded : List Item → List Item → Ordering
padded [] [] = Ordering.eq
padded (x ∷ xs) [] = then_with (compare_items (some x) none) (padded xs [])
padded [] (y ∷ ys) = then_with (compare_items none (some y)) (padded [] ys)
padded (x ∷ xs) (y ∷ ys) = then_with (compare_items (some x) (some y)) (padded xs ys)

get_elem?-suc : (x : List Item) (i : ℕ) → get_elem? x (suc i) ≡ get_elem? (tail x) i
get_elem?-suc [] i = refl
get_elem?-suc (x ∷ xs) i = refl

compare_from-suc :
    (n i : ℕ) (x y : List Item) → compare_from n (suc i) x y ≡ compare_from n i (tail x) (tail y)
unfolding compare_from
compare_from-suc zero i x y = refl
compare_from-suc (suc n) i x y =
    cc (get_elem?-suc x i, get_elem?-suc y i, compare_from-suc n (suc i) x y)

compare_from-padded :
    (n : ℕ) (x y : List Item) → length x ≤ n → length y ≤ n → compare_from n 0 x y ≡ padded x y
unfolding compare_from compare_items
compare_from-padded zero [] [] h k = refl
compare_from-padded zero [] (y ∷ ys) h k = absurd (omega arith)
compare_from-padded zero (x ∷ xs) y h k = absurd (omega arith)
compare_from-padded (suc n) [] [] h k =
    compare_from-suc n 0 [] [] ∙ compare_from-padded n [] [] (omega arith) (omega arith)
compare_from-padded (suc n) (x ∷ xs) [] h k =
    ap (then_with (compare_items (some x) none))
      (compare_from-suc n 0 (x ∷ xs) [] ∙ compare_from-padded n xs [] (omega arith) (omega arith))
compare_from-padded (suc n) [] (y ∷ ys) h k =
    ap (then_with (compare_items none (some y)))
      (compare_from-suc n 0 [] (y ∷ ys) ∙ compare_from-padded n [] ys (omega arith) (omega arith))
compare_from-padded (suc n) (x ∷ xs) (y ∷ ys) h k =
    ap (then_with (compare_items (some x) (some y))) (
      compare_from-suc n 0 (x ∷ xs) (y ∷ ys)
      ∙ compare_from-padded n xs ys (omega arith) (omega arith))

pub compare_tokens-padded : (x y : List Item) → compare_tokens x y ≡ padded x y
compare_tokens-padded x y =
    compare_from-padded (max (length x) (length y)) x y (omega arith) (omega arith)
