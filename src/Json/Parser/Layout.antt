-- ===== src/Json/Parser/Layout.antt =====
-- src/json.rs: what stands between the values of a written document.
use jrs.Prelude.{
  ℕ, zero, suc, Text, true, false, ◌||◌, ◌==◌, nat_eq, ◌∷◌, ◌++◌, ◌≡◌, refl, sym, arith,
  append_assoc, is_ascii_digit, subst,
}
use jrs.Json.{
  Json, null, bool, int, str, array, object, Items, no_items, item, Pairs, no_pairs, pair, indent,
  escape, escape_chars, write, write_items, write_pairs,
}
use jrs.Json.Reader.{space, is_space}
use jrs.Json.Parser.{value, elements_first, elements}
use jrs.Json.Parser.Scalars.{display_int-cons}

pub space-indent : (n : ℕ) (s : Text) → space (indent n ++ s) ≡ space s
unfolding space indent
space-indent zero s = refl
space-indent (suc n) s = space-indent n s

-- Space in front of a value says nothing, nor in front of the items.
pub value-space : (f depth : ℕ) (s t : Text) → space s ≡ space t → value f depth s ≡ value f depth t
unfolding value
value-space zero depth s t e = refl
value-space (suc f) depth s t e = rw (value, e) refl

pub elements-space :
    (f depth : ℕ) (s t : Text) → space s ≡ space t → elements f depth s ≡ elements f depth t
unfolding value
elements-space zero depth s t e = refl
elements-space (suc f) depth s t e = rw (elements, value-space f depth s t e) refl

pub space-digit :
    (c : ℕ) (s : Text) → (c == b'-' || is_ascii_digit c) ≡ true → space (c ∷ s) ≡ c ∷ s
unfolding space
space-digit c s h = let over : is_space c ≡ false = ground (arith, h) in rw over refl

-- No written value starts with a space.
pub space-write : (j : Json) (n : ℕ) (rest : Text) → space (write j n ++ rest) ≡ write j n ++ rest
unfolding space write escape
space-write null n rest = refl
space-write (bool true) n rest = refl
space-write (bool false) n rest = refl
space-write (int k) n rest =
    let (c, s, e, h) = display_int-cons k in
    subst (λ t. space (t ++ rest) ≡ t ++ rest) (sym e) (space-digit c (s ++ rest) h)
space-write (str s) n rest = refl
space-write (array no_items) n rest = refl
space-write (array (item x xs)) n rest = refl
space-write (object no_pairs) n rest = refl
space-write (object (pair k v ps)) n rest = refl

elements_first-digit :
    (f depth c : ℕ) (s : Text)
    → (c == b'-' || is_ascii_digit c) ≡ true
    → elements_first (suc f) depth (c ∷ s) ≡ elements f depth (c ∷ s)
unfolding value
elements_first-digit f depth c s h =
    let over : (c == b']') ≡ false = ground (arith, h) in rw (elements_first, over) refl

-- Nor with the end of an array.
pub elements_first-write :
    (j : Json) (f depth n : ℕ) (rest : Text)
    → elements_first (suc f) depth (write j n ++ rest) ≡ elements f depth (write j n ++ rest)
unfolding value write escape
elements_first-write null f depth n rest = refl
elements_first-write (bool true) f depth n rest = refl
elements_first-write (bool false) f depth n rest = refl
elements_first-write (int k) f depth n rest =
    let (c, s, e, h) = display_int-cons k in
    subst (λ t. elements_first (suc f) depth (t ++ rest) ≡ elements f depth (t ++ rest)) (sym e)
      (elements_first-digit f depth c (s ++ rest) h)
elements_first-write (str s) f depth n rest = refl
elements_first-write (array no_items) f depth n rest = refl
elements_first-write (array (item x xs)) f depth n rest = refl
elements_first-write (object no_pairs) f depth n rest = refl
elements_first-write (object (pair k v ps)) f depth n rest = refl

-- The texts of arrays and objects with what follows them.
unfoldable pub array_text : ℕ → Json → Items → Text → Text
array_text n x xs rest =
    write x (suc n) ++ (write_items xs (suc n) ++ b'\n' ∷ (indent n ++ b']' ∷ rest))

pub write-array :
    (x : Json) (xs : Items) (n : ℕ) (rest : Text)
    → write (array (item x xs)) n ++ rest
      ≡ b'[' ∷ b'\n' ∷ (indent (suc n) ++ array_text n x xs rest)
unfolding write array_text
write-array x xs n rest = simp (append_assoc)

-- Behind the brace, an object's text is the first key, and so on.
unfoldable pub members_text : ℕ → Text → Json → Pairs → Text → Text
members_text n k v ps rest =
    escape_chars k
    ++ b'"'
      ∷ b':'
      ∷ b' '
      ∷ (write v (suc n) ++ (write_pairs ps (suc n) ++ b'\n' ∷ (indent n ++ b'}' ∷ rest)))

pub write-object :
    (k : Text) (v : Json) (ps : Pairs) (n : ℕ) (rest : Text)
    → write (object (pair k v ps)) n ++ rest
      ≡ b'{' ∷ b'\n' ∷ (indent (suc n) ++ b'"' ∷ members_text n k v ps rest)
unfolding write members_text escape
write-object k v ps n rest = simp (append_assoc)
