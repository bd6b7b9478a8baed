-- ===== src/Json/Parser/RoundTrip.antt =====
-- src/json.rs: a document that is written is read back.
use jrs.Prelude.{
  is_scalar, ℕ, zero, suc, Text, true, nat_eq, ◌∷◌, [], ◌++◌, ◌+◌, ◌≤◌, ◌<◌, ◌≡◌, refl, ap, ◌∙◌,
  arith, all,
}
use jrs.Json.{
  Json, null, bool, int, str, array, object, Items, no_items, item, Pairs, no_pairs, pair, write,
  render,
}
use jrs.Json.Reader.{got, space}
use jrs.Json.Parser.{
  parse, document, value, elements_first, elements, members_first, members, member, read_document,
  enough, max_depth,
}
use jrs.Json.Parser.Scalars.{Fits, ends_number}
use jrs.Json.Parser.Layout.{
  elements-space, space-write, elements_first-write, array_text, write-array, members_text,
  write-object,
}
use jrs.Json.Parser.Fuel.{cost, cost_items, cost_pairs, cost-pos, cost-write, lengths}
use jrs.Json.Parser.Pieces.{
  value-str, value-int, value-null, value-bool, value-no_items, value-no_pairs, value-array,
  value-object, value-blank, members_first-key, members-key, member-last, member-more,
  members-space, space-line, space-comma, elements-last, elements-more, items_end, items_end-ends,
  items_end-none, items_end-item, pairs_end, pairs_end-ends, pairs_end-none, pairs_end-pair,
}

-- The values of the program: an integer is an i64, a text has characters only. No more arrays and
-- objects are open than the reader takes, `depth` around the value included.
unfoldable mutual
  pub IsWritable : Json → ℕ → Type 0
  IsWritable (int n) depth = Fits n
  IsWritable (str s) depth = all is_scalar s ≡ true
  IsWritable (array xs) depth = (depth < max_depth) × AreItems xs (suc depth)
  IsWritable (object ps) depth = (depth < max_depth) × ArePairs ps (suc depth)
  IsWritable _ depth = Unit

  AreItems : Items → ℕ → Type 0
  AreItems no_items depth = Unit
  AreItems (item x xs) depth = IsWritable x depth × AreItems xs depth

  ArePairs : Pairs → ℕ → Type 0
  ArePairs no_pairs depth = Unit
  ArePairs (pair k v ps) depth = (all is_scalar k ≡ true) × (IsWritable v depth × ArePairs ps depth)

ReadsValue : Json → Type 0
ReadsValue j =
    (f depth n : ℕ) (rest : Text)
    → cost j ≤ f
    → IsWritable j depth
    → ends_number rest ≡ true
    → value f depth (write j n ++ rest) ≡ got j rest

ReadsItems : Json → Items → Type 0
ReadsItems x xs =
    (f depth n : ℕ) (rest : Text)
    → cost_items (item x xs) ≤ f
    → AreItems (item x xs) depth
    → elements f depth (array_text n x xs rest) ≡ got (item x xs) rest

ReadsPairs : Text → Json → Pairs → Type 0
ReadsPairs k v ps =
    (f depth n : ℕ) (rest : Text)
    → cost_pairs (pair k v ps) ≤ f
    → ArePairs (pair k v ps) depth
    → members f depth (b'"' ∷ members_text n k v ps rest) ≡ got (pair k v ps) rest

-- What is written is read back in front of any text, whatever the depth it is indented to.
mutual
  unfolding cost IsWritable ReadsValue ReadsItems ReadsPairs array_text members_text items_end
      pairs_end

  read-value : (j : Json) → ReadsValue j
  read-value j zero depth n rest h w e = absurd (omega (arith, cost-pos j, h))
  read-value null (suc f) depth n rest h w e = value-null f depth n rest
  read-value (bool b) (suc f) depth n rest h w e = value-bool b f depth n rest
  read-value (int k) (suc f) depth n rest h w e = value-int k f depth n rest w e
  read-value (str s) (suc f) depth n rest h w e = value-str s f depth n rest w
  read-value (array xs) (suc f) depth n rest h w e = read-array xs f depth n rest h w
  read-value (object ps) (suc f) depth n rest h w e = read-object ps f depth n rest h w

  read-array :
      (xs : Items) (f depth n : ℕ) (rest : Text)
      → 2 + cost_items xs ≤ suc f
      → IsWritable (array xs) depth
      → value (suc f) depth (write (array xs) n ++ rest) ≡ got (array xs) rest
  read-array xs zero depth n rest h w = absurd (omega (arith, h))
  read-array no_items (suc f) depth n rest h w = value-no_items f depth n rest w.0
  read-array (item x xs) (suc f) depth n rest h w =
      ap (value (suc (suc f)) depth) (write-array x xs n rest)
      ∙ value-array (item x xs) (suc f) depth _ rest w.0 (
          ap (elements_first (suc f) (suc depth))
            (space-line (suc n) (array_text n x xs rest) ∙ space-write x (suc n) _)
          ∙ (elements_first-write x f (suc depth) (suc n) _
              ∙ read-items x xs f (suc depth) n rest (omega (arith, h)) w.1))

  read-items : (x : Json) (xs : Items) → ReadsItems x xs
  read-items x xs zero depth n rest h w = absurd (omega (arith, h))
  read-items x no_items (suc f) depth n rest h w =
      elements-last x f depth _ (items_end n no_items rest) rest
        (read-value x f depth (suc n) _ (omega (arith, h)) w.0 (items_end-ends n no_items rest))
        (items_end-none n rest)
  read-items x (item y ys) (suc f) depth n rest h w =
      elements-more x (item y ys) f depth _ (items_end n (item y ys) rest) _ rest
        (read-value x f depth (suc n) _ (omega (arith, h)) w.0 (items_end-ends n (item y ys) rest))
        (ap space (items_end-item n y ys rest) ∙ space-comma _)
        (elements-space f depth _ _ (space-line (suc n) (array_text n y ys rest))
          ∙ read-items y ys f depth n rest (omega (arith, h)) w.1)

  read-object :
      (ps : Pairs) (f depth n : ℕ) (rest : Text)
      → 2 + cost_pairs ps ≤ suc f
      → IsWritable (object ps) depth
      → value (suc f) depth (write (object ps) n ++ rest) ≡ got (object ps) rest
  read-object ps zero depth n rest h w = absurd (omega (arith, h))
  read-object no_pairs (suc f) depth n rest h w = value-no_pairs f depth n rest w.0
  read-object (pair k v ps) (suc f) depth n rest h w =
      ap (value (suc (suc f)) depth) (write-object k v ps n rest)
      ∙ value-object (pair k v ps) (suc f) depth _ rest w.0 (
          ap (members_first (suc f) (suc depth)) (space-line (suc n) _)
          ∙ (members_first-key f (suc depth) _
              ∙ read-pairs k v ps f (suc depth) n rest (omega (arith, h)) w.1))

  read-pairs : (k : Text) (v : Json) (ps : Pairs) → ReadsPairs k v ps
  read-pairs k v ps zero depth n rest h w = absurd (omega (arith, h))
  read-pairs k v ps (suc f) depth n rest h w =
      members-key k f depth _ w.0 ∙ read-member k v ps f depth n rest (omega (arith, h)) w.1

  read-member :
      (k : Text) (v : Json) (ps : Pairs) (f depth n : ℕ) (rest : Text)
      → 1 + cost v + cost_pairs ps ≤ f
      → IsWritable v depth × ArePairs ps depth
      → member f depth k (b' ' ∷ (write v (suc n) ++ pairs_end n ps rest)) ≡ got (pair k v ps) rest
  read-member k v ps zero depth n rest h w = absurd (omega (arith, h))
  read-member k v no_pairs (suc f) depth n rest h w =
      member-last k v f depth _ (pairs_end n no_pairs rest) rest
        (value-blank f depth _
          ∙ read-value v f depth (suc n) _ (omega (arith, h)) w.0 (pairs_end-ends n no_pairs rest))
        (pairs_end-none n rest)
  read-member k v (pair l u ps) (suc f) depth n rest h w =
      member-more k v (pair l u ps) f depth _ (pairs_end n (pair l u ps) rest) _ rest
        (value-blank f depth _
          ∙ read-value v f depth (suc n) _ (omega (arith, h)) w.0
              (pairs_end-ends n (pair l u ps) rest))
        (ap space (pairs_end-pair n l u ps rest) ∙ space-comma _)
        (members-space f depth _ _ (space-line (suc n) _)
          ∙ read-pairs l u ps f depth n rest (omega (arith, h)) w.1)

-- A value whose integers are i64s, whose texts hold characters only and that nests no deeper than
-- the reader takes is read back from its rendering.
pub parse-render : (j : Json) → IsWritable j 0 → parse (render j) ≡ document j
unfolding parse read_document render space ReadsValue
parse-render j w =
    let fuel : cost j ≤ enough (render j) = omega (lengths, cost-write j 0) in
    rw (read-value j (enough (render j)) 0 0 (b'\n' ∷ []) fuel w refl) refl
