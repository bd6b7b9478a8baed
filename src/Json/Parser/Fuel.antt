-- ===== src/Json/Parser/Fuel.antt =====
-- src/json.rs: the fuel that reading a written value takes, bounded by its text.
use jrs.Prelude.{
  starts_with, ℕ, zero, suc, Text, codes, Bool, true, false, not, ◌||◌, ◌&&◌, ◌==◌, nat_eq, List,
  ◌∷◌, [], ◌++◌, if◌then◌else◌, ◌+◌, ◌-◌, ◌*◌, ◌≤◌, ◌<◌, ◌≡◌, refl, ap, sym, ◌∙◌, arith,
  append_assoc, is_ascii_digit, length, length-append, subst, all, ltb,
}
use jrs.Json.{
  Json, null, bool, int, str, array, object, Items, no_items, item, Pairs, no_pairs, pair, indent,
  escape, write, write_items, write_pairs,
}
use jrs.Json.Parser.Scalars.{display_int-cons}

pub length-texts : (s t : Text) → length (s ++ t) ≡ length s + length t
length-texts s t = length-append s t

pub ruleset lengths = (arith, length-texts)

-- The fuel that reading a value takes.
unfoldable mutual
  pub cost : Json → ℕ
  cost (array xs) = 2 + cost_items xs
  cost (object ps) = 2 + cost_pairs ps
  cost _ = 1

  pub cost_items : Items → ℕ
  cost_items no_items = 0
  cost_items (item x xs) = 1 + cost x + cost_items xs

  pub cost_pairs : Pairs → ℕ
  cost_pairs no_pairs = 0
  cost_pairs (pair k v ps) = 2 + cost v + cost_pairs ps

-- Texts of the form of an array, of its other items, of an object and of its other members.
length-array :
    (a x xs e : Text)
    → length x + length xs + 4
      ≤ length (codes "[\n" ++ (a ++ (x ++ (xs ++ b'\n' ∷ (e ++ b']' ∷ [])))))
length-array a x xs e = omega lengths

length-item : (a x xs : Text) → length x + length xs + 2 ≤ length (codes ",\n" ++ (a ++ (x ++ xs)))
length-item a x xs = omega lengths

length-object :
    (a k v ps e : Text)
    → length v + length ps + 6
      ≤ length
          (codes "{\n" ++ (a ++ (k ++ (codes ": " ++ (v ++ (ps ++ b'\n' ∷ (e ++ b'}' ∷ [])))))))
length-object a k v ps e = omega lengths

length-pair :
    (a k v ps : Text)
    → length v + length ps + 4 ≤ length (codes ",\n" ++ (a ++ (k ++ (codes ": " ++ (v ++ ps)))))
length-pair a k v ps = omega lengths

write-pos : (j : Json) (n : ℕ) → 2 ≤ length (write j n) + 1
unfolding write escape
write-pos null n = omega arith
write-pos (bool true) n = omega arith
write-pos (bool false) n = omega arith
write-pos (int k) n =
    let (c, s, e, h) = display_int-cons k in
    subst (λ (t : Text). 2 ≤ length t + 1) (sym e) (omega arith)
write-pos (str s) n = omega arith
write-pos (array no_items) n = omega arith
write-pos (array (item x xs)) n = omega arith
write-pos (object no_pairs) n = omega arith
write-pos (object (pair k v ps)) n = omega arith

length-no_items : (n : ℕ) → 2 ≤ length (write (array no_items) n)
unfolding write
length-no_items n = omega arith

length-no_pairs : (n : ℕ) → 2 ≤ length (write (object no_pairs) n)
unfolding write
length-no_pairs n = omega arith

length-write_array :
    (x : Json) (xs : Items) (n : ℕ)
    → length (write x (suc n)) + length (write_items xs (suc n)) + 4
      ≤ length (write (array (item x xs)) n)
unfolding write
length-write_array x xs n =
    length-array (indent (suc n)) (write x (suc n)) (write_items xs (suc n)) (indent n)

length-write_item :
    (x : Json) (xs : Items) (n : ℕ)
    → length (write x n) + length (write_items xs n) + 2 ≤ length (write_items (item x xs) n)
unfolding write
length-write_item x xs n = length-item (indent n) (write x n) (write_items xs n)

length-write_object :
    (k : Text) (v : Json) (ps : Pairs) (n : ℕ)
    → length (write v (suc n)) + length (write_pairs ps (suc n)) + 6
      ≤ length (write (object (pair k v ps)) n)
unfolding write
length-write_object k v ps n =
    length-object (indent (suc n)) (escape k) (write v (suc n)) (write_pairs ps (suc n)) (indent n)

length-write_pair :
    (k : Text) (v : Json) (ps : Pairs) (n : ℕ)
    → length (write v n) + length (write_pairs ps n) + 4 ≤ length (write_pairs (pair k v ps) n)
unfolding write
length-write_pair k v ps n = length-pair (indent n) (escape k) (write v n) (write_pairs ps n)

-- The fuel that a value takes is bounded by its text.
mutual
  unfolding cost

  pub cost-write : (j : Json) (n : ℕ) → cost j ≤ length (write j n)
  cost-write null n = omega (arith, write-pos null n)
  cost-write (bool b) n = omega (arith, write-pos (bool b) n)
  cost-write (int k) n = omega (arith, write-pos (int k) n)
  cost-write (str s) n = omega (arith, write-pos (str s) n)
  cost-write (array xs) n = cost_array-write xs n
  cost-write (object ps) n = cost_object-write ps n

  cost_array-write : (xs : Items) (n : ℕ) → 2 + cost_items xs ≤ length (write (array xs) n)
  cost_array-write no_items n = length-no_items n
  cost_array-write (item x xs) n =
      omega (arith, length-write_array x xs n, cost-write x (suc n), cost_items-write xs (suc n))

  cost_object-write : (ps : Pairs) (n : ℕ) → 2 + cost_pairs ps ≤ length (write (object ps) n)
  cost_object-write no_pairs n = length-no_pairs n
  cost_object-write (pair k v ps) n =
      omega (arith, length-write_object k v ps n, cost-write v (suc n), cost_pairs-write ps (suc n))

  cost_items-write : (xs : Items) (n : ℕ) → cost_items xs ≤ length (write_items xs n)
  cost_items-write no_items n = omega arith
  cost_items-write (item x xs) n =
      omega (arith, length-write_item x xs n, cost-write x n, cost_items-write xs n)

  cost_pairs-write : (ps : Pairs) (n : ℕ) → cost_pairs ps ≤ length (write_pairs ps n)
  cost_pairs-write no_pairs n = omega arith
  cost_pairs-write (pair k v ps) n =
      omega (arith, length-write_pair k v ps n, cost-write v n, cost_pairs-write ps n)

pub cost-pos : (j : Json) → 1 ≤ cost j
unfolding cost
cost-pos null = omega arith
cost-pos (bool b) = omega arith
cost-pos (int n) = omega arith
cost-pos (str s) = omega arith
cost-pos (array xs) = omega arith
cost-pos (object ps) = omega arith
