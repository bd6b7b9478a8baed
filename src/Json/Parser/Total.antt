-- ===== src/Json/Parser/Total.antt =====
-- src/json.rs: the fuel of the reader is enough for every text.
use jrs.Prelude.{
  ◌≢◌, ◌⊎◌, ℕ, zero, suc, Text, codes, true, false, ◌||◌, ◌==◌, nat_eq, ◌∷◌, [], if◌then◌else◌, ◌+◌,
  ◌-◌, ◌*◌, ◌≤◌, ◌≡◌, refl, sym, arith, length, subst, Bool-cases, inl, inr, ltb, starts_with, drop,
  is_ascii_digit,
}
use jrs.Json.{null, bool, Json}
use jrs.Json.Reader.{got, failed, out_of_fuel, ◌>>=◌, eat_colon, space, string_from}
use jrs.Json.Parser.{
  finished, is_number_char, value, elements_first, elements, members_first, members, member, scalar,
  number, after_number, word, string_value, read_document, enough, max_depth,
}
use jrs.Json.Parser.Leaves.{
  Leaves, Leaves-bind, Leaves-le, Leaves-if, Leaves-eat_colon, Leaves-string_from, length-drop_le,
  length-after_number, length-space,
}

Text-cases : (s : Text) → (s ≡ []) ⊎ ((c : ℕ) × (t : Text) × (s ≡ c ∷ t))
Text-cases [] = inl refl
Text-cases (c ∷ s) = inr (c, s, refl)

-- Behind space and a character less is left.
length-cons : (s : Text) (c : ℕ) (t : Text) → space s ≡ c ∷ t → length t + 1 ≤ length s
length-cons s c t e =
    subst (λ (u : Text). length u ≤ length s → length t + 1 ≤ length s) (sym e)
      (λ h. omega (arith, h)) (length-space s)

Leaves-word :
    (k : ℕ) (expected : Text) (j : Json) (c : ℕ) (s : Text)
    → length expected ≡ suc k
    → Leaves (length s) (word expected j (c ∷ s))
unfolding Leaves
Leaves-word k expected j c s e =
    Leaves-if (starts_with (c ∷ s) expected) (length s) (got j (drop (length expected) (c ∷ s)))
      (failed (codes "unexpected character") (c ∷ s) 0) (rw e (length-drop_le k s)) tt

Leaves-number :
    (c : ℕ) (s : Text)
    → Leaves (length s) (
        if c == b'-' || is_ascii_digit c
        then number (c ∷ s)
        else failed (codes "unexpected character") (c ∷ s) 0)
unfolding Leaves after_number
Leaves-number c s = elim (Bool-cases (c == b'-' || is_ascii_digit c)) [
  | inl e ↦
      let more : is_number_char c ≡ true = ground (arith, e) in rw (e, more) (length-after_number s)
  | inr e ↦ rw e tt
]

Leaves-scalar : (c : ℕ) (s : Text) → Leaves (length s) (scalar c s)
unfolding scalar Leaves
Leaves-scalar c s =
    let n = length s in
    Leaves-if (c == b'"') n (string_value s) _
      (Leaves-bind n n (string_from 0 s) _ (Leaves-string_from 0 s) (λ k rest h. h))
      (Leaves-if (c == b't') n (word (codes "true") (bool true) (c ∷ s)) _
        (Leaves-word 3 _ _ c s refl)
        (Leaves-if (c == b'f') n (word (codes "false") (bool false) (c ∷ s)) _
          (Leaves-word 4 _ _ c s refl)
          (Leaves-if (c == b'n') n (word (codes "null") null (c ∷ s)) _ (Leaves-word 3 _ _ c s refl)
            (Leaves-number c s))))

mutual
  unfolding value Leaves

  Leaves-value :
      (f depth n : ℕ) (s : Text) → length s ≤ n → 3 * n + 1 ≤ f → Leaves (n - 1) (value f depth s)
  Leaves-value zero depth n s h k = absurd (omega (arith, k))
  Leaves-value (suc f) depth n s h k = elim (Text-cases (space s)) [
    | inl e ↦ rw (value, e) tt
    | inr (c, t, e) ↦
        let less : length t ≤ n - 1 = omega (arith, length-cons s c t e, h) in
        let some_left : 1 ≤ n = omega (arith, length-cons s c t e, h) in
        let inner : length (space t) ≤ n - 1 = omega (arith, less, length-space t) in
        let fuel : 3 * (n - 1) + 3 ≤ f = omega (arith, k, some_left) in
        let items : Leaves (n - 1) (elements_first f (suc depth) (space t)) =
          Leaves-elements_first f (suc depth) (n - 1) (space t) inner fuel in
        let fields : Leaves (n - 1) (members_first f (suc depth) (space t)) =
          Leaves-members_first f (suc depth) (n - 1) (space t) inner fuel in
        rw (value, e)
          (Leaves-if (c == b'{') (n - 1) _ _
            (Leaves-if (ltb max_depth (suc depth)) (n - 1) _ _ tt
              (Leaves-bind (n - 1) (n - 1) _ _ fields (λ x rest l. l)))
            (Leaves-if (c == b'[') (n - 1) _ _
              (Leaves-if (ltb max_depth (suc depth)) (n - 1) _ _ tt
                (Leaves-bind (n - 1) (n - 1) _ _ items (λ x rest l. l)))
              (Leaves-le (length t) (n - 1) (scalar c t) less (Leaves-scalar c t))))
  ]

  Leaves-elements_first :
      (f depth n : ℕ) (s : Text)
      → length s ≤ n
      → 3 * n + 3 ≤ f
      → Leaves n (elements_first f depth s)
  Leaves-elements_first zero depth n s h k = absurd (omega (arith, k))
  Leaves-elements_first (suc f) depth n [] h k = Leaves-elements f depth n [] h (omega (arith, k))
  Leaves-elements_first (suc f) depth n (c ∷ t) h k =
      Leaves-if (c == b']') n _ _ (omega (arith, h))
        (Leaves-elements f depth n (c ∷ t) h (omega (arith, k)))

  Leaves-elements :
      (f depth n : ℕ) (s : Text) → length s ≤ n → 3 * n + 2 ≤ f → Leaves n (elements f depth s)
  Leaves-elements zero depth n s h k = absurd (omega (arith, k))
  Leaves-elements (suc f) depth n s h k =
      Leaves-bind (n - 1) n (value f depth s) _ (Leaves-value f depth n s h (omega (arith, k)))
        (λ x rest l. elim (Text-cases (space rest)) [
          | inl e ↦ rw e tt
          | inr (c, t, e) ↦
              let more : length t ≤ n - 1 = omega (arith, length-cons rest c t e, l) in
              let some_left : 1 ≤ n = omega (arith, length-cons rest c t e, l) in
              let less : length t ≤ n = omega (arith, more) in
              let next : Leaves (n - 1) (elements f depth t) =
                Leaves-elements f depth (n - 1) t more (omega (arith, k, some_left)) in
              rw e (
                Leaves-if (c == b',') n _ _
                  (Leaves-bind (n - 1) n (elements f depth t) _ next (λ xs at m. omega (arith, m)))
                  (Leaves-if (c == b']') n _ _ less tt))
        ])

  Leaves-members_first :
      (f depth n : ℕ) (s : Text) → length s ≤ n → 3 * n + 3 ≤ f → Leaves n (members_first f depth s)
  Leaves-members_first zero depth n s h k = absurd (omega (arith, k))
  Leaves-members_first (suc f) depth n [] h k = Leaves-members f depth n [] h (omega (arith, k))
  Leaves-members_first (suc f) depth n (c ∷ t) h k =
      Leaves-if (c == b'}') n _ _ (omega (arith, h))
        (Leaves-members f depth n (c ∷ t) h (omega (arith, k)))

  Leaves-members :
      (f depth n : ℕ) (s : Text) → length s ≤ n → 3 * n + 2 ≤ f → Leaves n (members f depth s)
  Leaves-members zero depth n s h k = absurd (omega (arith, k))
  Leaves-members (suc f) depth n s h k = elim (Text-cases (space s)) [
    | inl e ↦ rw (members, e) tt
    | inr (c, t, e) ↦
        let less : length t ≤ n - 1 = omega (arith, length-cons s c t e, h) in
        let some_left : 1 ≤ n = omega (arith, length-cons s c t e, h) in
        let found : (key : Text) (after : Text)
            → length after ≤ n - 1
            → Leaves n (eat_colon after >>= λ _ at. member f depth key at) =
          λ key after l.
            Leaves-bind (length after) n (eat_colon after) _ (Leaves-eat_colon after) (λ _ at m.
              Leaves-le (n - 1) n (member f depth key at) (omega arith) (
                Leaves-member f depth key (n - 1) at (omega (arith, l, m))
                  (omega (arith, k, some_left)))) in
        rw (members, e)
          (Leaves-if (c == b'"') n _ _
            (Leaves-bind (n - 1) n (string_from 0 t) _
              (Leaves-le (length t) (n - 1) (string_from 0 t) less (Leaves-string_from 0 t)) found)
            tt)
  ]

  Leaves-member :
      (f depth : ℕ) (key : Text) (n : ℕ) (s : Text)
      → length s ≤ n
      → 3 * n + 2 ≤ f
      → Leaves n (member f depth key s)
  Leaves-member zero depth key n s h k = absurd (omega (arith, k))
  Leaves-member (suc f) depth key n s h k =
      Leaves-bind (n - 1) n (value f depth s) _ (Leaves-value f depth n s h (omega (arith, k)))
        (λ v rest l. elim (Text-cases (space rest)) [
          | inl e ↦ rw e tt
          | inr (c, t, e) ↦
              let more : length t ≤ n - 1 = omega (arith, length-cons rest c t e, l) in
              let some_left : 1 ≤ n = omega (arith, length-cons rest c t e, l) in
              let less : length t ≤ n = omega (arith, more) in
              let next : Leaves (n - 1) (members f depth t) =
                Leaves-members f depth (n - 1) t more (omega (arith, k, some_left)) in
              rw e (
                Leaves-if (c == b',') n _ _
                  (Leaves-bind (n - 1) n (members f depth t) _ next (λ ps at m. omega (arith, m)))
                  (Leaves-if (c == b'}') n _ _ less tt))
        ])

Leaves-finished : (j : Json) (s : Text) → Leaves (length s) (finished j s)
unfolding finished Leaves
Leaves-finished j [] = omega arith
Leaves-finished j (c ∷ s) = tt

out_of_fuel-no : (n : ℕ) → ¬ (Leaves {Value = Json} n out_of_fuel)
unfolding Leaves
out_of_fuel-no n h = h

-- Every text is read in full or refused: the fuel of the model is enough for each of them.
pub read_document_returns : (s : Text) → read_document s ≢ out_of_fuel
unfolding read_document
read_document_returns s e =
    let n = length s in
    let read : Leaves n (read_document s) =
      Leaves-bind (n - 1) n (value (enough s) 0 s) _
        (Leaves-value (enough s) 0 n s (omega arith) (omega arith))
        (λ j rest l.
          Leaves-le (length (space rest)) n (finished j (space rest))
            (omega (arith, l, length-space rest)) (Leaves-finished j (space rest))) in
    out_of_fuel-no n (subst (Leaves n) e read)
