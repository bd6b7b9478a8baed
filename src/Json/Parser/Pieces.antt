-- ===== src/Json/Parser/Pieces.antt =====
-- src/json.rs: reading the pieces that written values are made of.
use jrs.Prelude.{
  is_scalar, starts_with, ℕ, zero, suc, Text, Bool, true, false, ◌||◌, ◌==◌, nat_eq, ◌∷◌, [], ◌++◌,
  ◌<◌, ◌≡◌, refl, sym, ◌∙◌, arith, append_assoc, is_ascii_digit, subst, all, ltb,
}
use jrs.Json.{
  ℤ, Json, null, bool, int, str, array, object, Items, no_items, item, Pairs, no_pairs, pair,
  indent, escape, escape_chars, write, write_items, write_pairs,
}
use jrs.Json.Reader.{got, ◌>>=◌, eat_colon, space}
use jrs.Json.Reader.Strings.{read-escape_chars}
use jrs.Json.Parser.{
  eat_colon, value, elements_first, elements, members_first, members, member, scalar, number,
  max_depth,
}
use jrs.Json.Parser.Scalars.{Fits, ends_number, display_int-cons, number-display_int, scalar-number}
use jrs.Json.Parser.Layout.{space-digit, space-indent, value-space, array_text, members_text}

pub value-str :
    (s : Text) (f depth n : ℕ) (rest : Text)
    → all is_scalar s ≡ true
    → value (suc f) depth (write (str s) n ++ rest) ≡ got (str s) rest
unfolding value write escape scalar space
value-str s f depth n rest h =
    rw (append_assoc (escape_chars s) (b'"' ∷ []) rest, read-escape_chars s rest h) refl

pub value-scalar :
    (f depth c : ℕ) (s : Text)
    → (c == b'-' || is_ascii_digit c) ≡ true
    → value (suc f) depth (c ∷ s) ≡ scalar c s
unfolding value space
value-scalar f depth c s h =
    let brace : (c == b'{') ≡ false = ground (arith, h) in
    let bracket : (c == b'[') ≡ false = ground (arith, h) in
    rw (value, space-digit c s h, brace, bracket) refl

pub value-int :
    (k : ℤ) (f depth n : ℕ) (rest : Text)
    → Fits k
    → ends_number rest ≡ true
    → value (suc f) depth (write (int k) n ++ rest) ≡ got (int k) rest
unfolding write
value-int k f depth n rest h e =
    let (c, s, shown, first) = display_int-cons k in
    let reads : value (suc f) depth (c ∷ (s ++ rest)) ≡ number (c ∷ (s ++ rest)) =
      value-scalar f depth c (s ++ rest) first ∙ scalar-number c (s ++ rest) first in
    subst (λ t. value (suc f) depth (t ++ rest) ≡ number (t ++ rest)) (sym shown) reads
    ∙ number-display_int k rest h e

-- What stands behind an item.
unfoldable pub items_end : ℕ → Items → Text → Text
items_end n xs rest = write_items xs (suc n) ++ b'\n' ∷ (indent n ++ b']' ∷ rest)

pub items_end-ends : (n : ℕ) (xs : Items) (rest : Text) → ends_number (items_end n xs rest) ≡ true
unfolding items_end write
items_end-ends n no_items rest = refl
items_end-ends n (item x xs) rest = refl

pub items_end-none : (n : ℕ) (rest : Text) → space (items_end n no_items rest) ≡ b']' ∷ rest
unfolding items_end write space
items_end-none n rest = space-indent n (b']' ∷ rest)

pub items_end-item :
    (n : ℕ) (x : Json) (xs : Items) (rest : Text)
    → items_end n (item x xs) rest ≡ b',' ∷ b'\n' ∷ (indent (suc n) ++ array_text n x xs rest)
unfolding items_end write array_text
items_end-item n x xs rest = simp (append_assoc)

pub space-comma : (s : Text) → space (b',' ∷ s) ≡ b',' ∷ s
unfolding space
space-comma s = refl

pub space-line : (n : ℕ) (s : Text) → space (b'\n' ∷ (indent n ++ s)) ≡ space s
unfolding space
space-line n s = space-indent n s

pub elements-last :
    (x : Json) (f depth : ℕ) (s after rest : Text)
    → value f depth s ≡ got x after
    → space after ≡ b']' ∷ rest
    → elements (suc f) depth s ≡ got (item x no_items) rest
unfolding value
elements-last x f depth s after rest read ends = rw (elements, read, ◌>>=◌, ends) refl

pub elements-more :
    (x : Json) (xs : Items) (f depth : ℕ) (s after next rest : Text)
    → value f depth s ≡ got x after
    → space after ≡ b',' ∷ next
    → elements f depth next ≡ got xs rest
    → elements (suc f) depth s ≡ got (item x xs) rest
unfolding value
elements-more x xs f depth s after next rest read comma more =
    rw (elements, read, ◌>>=◌, comma, more) refl

unfoldable pub pairs_end : ℕ → Pairs → Text → Text
pairs_end n ps rest = write_pairs ps (suc n) ++ b'\n' ∷ (indent n ++ b'}' ∷ rest)

pub pairs_end-ends : (n : ℕ) (ps : Pairs) (rest : Text) → ends_number (pairs_end n ps rest) ≡ true
unfolding pairs_end write
pairs_end-ends n no_pairs rest = refl
pairs_end-ends n (pair k v ps) rest = refl

pub pairs_end-none : (n : ℕ) (rest : Text) → space (pairs_end n no_pairs rest) ≡ b'}' ∷ rest
unfolding pairs_end write space
pairs_end-none n rest = space-indent n (b'}' ∷ rest)

pub pairs_end-pair :
    (n : ℕ) (k : Text) (v : Json) (ps : Pairs) (rest : Text)
    → pairs_end n (pair k v ps) rest
      ≡ b',' ∷ b'\n' ∷ (indent (suc n) ++ b'"' ∷ members_text n k v ps rest)
unfolding pairs_end write escape members_text
pairs_end-pair n k v ps rest = simp (append_assoc)

pub members-space :
    (f depth : ℕ) (s t : Text) → space s ≡ space t → members f depth s ≡ members f depth t
unfolding value
members-space zero depth s t e = refl
members-space (suc f) depth s t e = rw (members, e) refl

-- The key is read, then the colon and the space behind it.
pub members-key :
    (k : Text) (f depth : ℕ) (s : Text)
    → all is_scalar k ≡ true
    → members (suc f) depth (b'"' ∷ (escape_chars k ++ b'"' ∷ b':' ∷ b' ' ∷ s))
      ≡ member f depth k (b' ' ∷ s)
unfolding value eat_colon space
members-key k f depth s h = rw (members, read-escape_chars k (b':' ∷ b' ' ∷ s) h, ◌>>=◌) refl

pub member-last :
    (k : Text) (v : Json) (f depth : ℕ) (s after rest : Text)
    → value f depth s ≡ got v after
    → space after ≡ b'}' ∷ rest
    → member (suc f) depth k s ≡ got (pair k v no_pairs) rest
unfolding value
member-last k v f depth s after rest read ends = rw (member, read, ◌>>=◌, ends) refl

pub member-more :
    (k : Text) (v : Json) (ps : Pairs) (f depth : ℕ) (s after next rest : Text)
    → value f depth s ≡ got v after
    → space after ≡ b',' ∷ next
    → members f depth next ≡ got ps rest
    → member (suc f) depth k s ≡ got (pair k v ps) rest
unfolding value
member-more k v ps f depth s after next rest read comma more =
    rw (member, read, ◌>>=◌, comma, more) refl

pub shallow : (depth : ℕ) → depth < max_depth → ltb max_depth (suc depth) ≡ false
shallow depth h = ground (arith, h)

pub value-array :
    (xs : Items) (f depth : ℕ) (s rest : Text)
    → depth < max_depth
    → elements_first f (suc depth) (space s) ≡ got xs rest
    → value (suc f) depth (b'[' ∷ s) ≡ got (array xs) rest
unfolding value space
value-array xs f depth s rest h read = rw (shallow depth h, read) refl

pub value-object :
    (ps : Pairs) (f depth : ℕ) (s rest : Text)
    → depth < max_depth
    → members_first f (suc depth) (space s) ≡ got ps rest
    → value (suc f) depth (b'{' ∷ s) ≡ got (object ps) rest
unfolding value space
value-object ps f depth s rest h read = rw (shallow depth h, read) refl

pub value-null :
    (f depth n : ℕ) (rest : Text) → value (suc f) depth (write null n ++ rest) ≡ got null rest
unfolding value write scalar space starts_with
value-null f depth n rest = refl

pub value-bool :
    (b : Bool) (f depth n : ℕ) (rest : Text)
    → value (suc f) depth (write (bool b) n ++ rest) ≡ got (bool b) rest
unfolding value write scalar space starts_with
value-bool true f depth n rest = refl
value-bool false f depth n rest = refl

pub value-blank : (f depth : ℕ) (s : Text) → value f depth (b' ' ∷ s) ≡ value f depth s
unfolding space
value-blank f depth s = value-space f depth (b' ' ∷ s) s refl

pub value-no_items :
    (f depth n : ℕ) (rest : Text)
    → depth < max_depth
    → value (suc (suc f)) depth (write (array no_items) n ++ rest) ≡ got (array no_items) rest
unfolding value write space
value-no_items f depth n rest h = value-array no_items (suc f) depth (b']' ∷ rest) rest h refl

pub value-no_pairs :
    (f depth n : ℕ) (rest : Text)
    → depth < max_depth
    → value (suc (suc f)) depth (write (object no_pairs) n ++ rest) ≡ got (object no_pairs) rest
unfolding value write space
value-no_pairs f depth n rest h = value-object no_pairs (suc f) depth (b'}' ∷ rest) rest h refl

pub members_first-key :
    (f depth : ℕ) (s : Text)
    → members_first (suc f) depth (space (b'"' ∷ s)) ≡ members f depth (b'"' ∷ s)
unfolding value space
members_first-key f depth s = refl
