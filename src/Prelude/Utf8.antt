-- ===== src/Prelude/Utf8.antt =====
-- UTF-8, in which the program keeps its texts and prints the paths of files.
use Prim.Native.Nat.{ℕ, zero, suc, ◌+◌, ◌-◌, ◌*◌, ◌/◌, ◌%◌, ◌<◌, ◌≤◌}
use mathlib.Core.Path.{◌≡◌, refl, ap, ◌∙◌}
use mathlib.Core.Logic.{inl, inr}
use mathlib.Core.Bool.{Bool, true, ◌&&◌, ◌||◌}
use mathlib.Core.List.{List, [], ◌∷◌, ◌++◌}
use native.Mathlib.Omega.{arith}
use jrs.Prelude.Lists.{all}
use jrs.Prelude.Texts.{Text}
use jrs.Prelude.Tests.{le→leb, ltb, leb, if◌then◌else◌, Bool-cases}

-- `char::from_u32`: whether a number is that of a character.
abbrev pub is_scalar : ℕ → Bool
is_scalar c = ltb c 0xD800 || (leb 0xE000 c && leb c 0x10FFFF)

-- The bytes of one character (`char::encode_utf8`), and of a text (`str::as_bytes`).
unfoldable pub encode_utf8 : ℕ → List ℕ
encode_utf8 c =
    if ltb c 0x80
    then c ∷ []
    else if ltb c 0x800
    then (0xC0 + c / 64) ∷ (0x80 + c % 64) ∷ []
    else if ltb c 0x10000
    then (0xE0 + c / 4096) ∷ (0x80 + c / 64 % 64) ∷ (0x80 + c % 64) ∷ []
    else (0xF0 + c / 262144) ∷ (0x80 + c / 4096 % 64) ∷ (0x80 + c / 64 % 64) ∷ (0x80 + c % 64) ∷ []

unfoldable pub as_bytes : Text → List ℕ
unfolding encode_utf8
as_bytes [] = []
as_bytes (c ∷ s) = encode_utf8 c ++ as_bytes s

-- Between two characters, or inside one: `value` is that of the bytes read, `left` more than one
-- are to come, and the next must be from `low` to `high`.
pub data Decoder : Type 0 where
  between : Decoder
  inside : (value left low high : ℕ) → Decoder

abbrev replacement : ℕ
replacement = 0xFFFD

-- The second bytes that may follow a first one, of three bytes and of four.
abbrev low_of_three : ℕ → ℕ
low_of_three b = if ltb b 0xE1 then 0xA0 else 0x80

abbrev high_of_three : ℕ → ℕ
high_of_three b = if leb 0xED b && ltb b 0xEE then 0x9F else 0xBF

abbrev low_of_four : ℕ → ℕ
low_of_four b = if ltb b 0xF1 then 0x90 else 0x80

abbrev high_of_four : ℕ → ℕ
high_of_four b = if leb 0xF4 b then 0x8F else 0xBF

-- A byte that starts a character: what it writes, and what follows.
abbrev begin : ℕ → Text × Decoder
begin b =
    if ltb b 0x80
    then (b ∷ [], between)
    else if ltb b 0xC2
    then (replacement ∷ [], between)
    else if ltb b 0xE0
    then ([], inside (b - 0xC0) 0 0x80 0xBF)
    else if ltb b 0xF0
    then ([], inside (b - 0xE0) 1 (low_of_three b) (high_of_three b))
    else if ltb b 0xF5
    then ([], inside (b - 0xF0) 2 (low_of_four b) (high_of_four b))
    else (replacement ∷ [], between)

-- A byte that a character needs; where it is missing, what was read of the character is one
-- replacement character.
abbrev continue : ℕ → ℕ → ℕ → Text × Decoder
continue value zero b = ((value * 64 + (b - 0x80)) ∷ [], between)
continue value (suc left) b = ([], inside (value * 64 + (b - 0x80)) left 0x80 0xBF)

abbrev feed : Decoder → ℕ → Text × Decoder
feed between b = begin b
feed (inside value left low high) b =
    if leb low b && leb b high
    then continue value left b
    else (replacement ∷ (begin b).0, (begin b).1)

pub decode : Decoder → List ℕ → Text
decode between [] = []
decode (inside value left low high) [] = replacement ∷ []
decode d (b ∷ bytes) = (feed d b).0 ++ decode (feed d b).1 bytes

-- `String::from_utf8_lossy`, which `Path::display` writes.
unfoldable pub lossy : List ℕ → Text
unfolding decode
lossy bytes = decode between bytes

step :
    (d next : Decoder) (written : Text) (b : ℕ) (bytes : List ℕ)
    → feed d b ≡ (written, next)
    → decode d (b ∷ bytes) ≡ written ++ decode next bytes
unfolding decode
step between next written b bytes e = ap (λ r. r.0 ++ decode r.1 bytes) e
step (inside _ _ _ _) next written b bytes e = ap (λ r. r.0 ++ decode r.1 bytes) e

two_bytes : (x : ℕ) → 2 ≤ x → x < 32 → begin (0xC0 + x) ≡ ([], inside x 0 0x80 0xBF)
two_bytes x lo hi = ground arith

three_bytes :
    (x : ℕ)
    → x < 16
    → begin (0xE0 + x) ≡ ([], inside x 1 (low_of_three (0xE0 + x)) (high_of_three (0xE0 + x)))
three_bytes x hi = ground arith

four_bytes :
    (x : ℕ)
    → x < 5
    → begin (0xF0 + x) ≡ ([], inside x 2 (low_of_four (0xF0 + x)) (high_of_four (0xF0 + x)))
four_bytes x hi = ground arith

last_byte :
    (value low high d : ℕ)
    → low ≤ 0x80 + d
    → 0x80 + d ≤ high
    → feed (inside value 0 low high) (0x80 + d) ≡ ((value * 64 + d) ∷ [], between)
last_byte value low high d lo hi =
    rw (le→leb low (0x80 + d) lo, le→leb (0x80 + d) high hi)
      (ap (λ n. ((value * 64 + n) ∷ [], between)) (omega arith))

inner_byte :
    (value left low high d : ℕ)
    → low ≤ 0x80 + d
    → 0x80 + d ≤ high
    → feed (inside value (suc left) low high) (0x80 + d)
      ≡ ([], inside (value * 64 + d) left 0x80 0xBF)
inner_byte value left low high d lo hi =
    rw (le→leb low (0x80 + d) lo, le→leb (0x80 + d) high hi)
      (ap (λ n. ([], inside (value * 64 + n) left 0x80 0xBF)) (omega arith))

decode_two :
    (c : ℕ) (bytes : List ℕ)
    → 0x80 ≤ c
    → c < 0x800
    → decode between ((0xC0 + c / 64) ∷ (0x80 + c % 64) ∷ bytes) ≡ c ∷ decode between bytes
decode_two c bytes lo hi =
    step between _ _ _ _ (two_bytes (c / 64) (omega arith) (omega arith))
    ∙ step _ _ _ _ bytes (last_byte (c / 64) 0x80 0xBF (c % 64) (omega arith) (omega arith))
    ∙ ap (λ n. n ∷ decode between bytes) (omega arith)

decode_three :
    (c : ℕ) (bytes : List ℕ)
    → 0x800 ≤ c
    → c < 0x10000
    → is_scalar c ≡ true
    → decode between ((0xE0 + c / 4096) ∷ (0x80 + c / 64 % 64) ∷ (0x80 + c % 64) ∷ bytes)
      ≡ c ∷ decode between bytes
decode_three c bytes lo hi h =
    let x = c / 4096 in
    let y = c / 64 % 64 in
    step between _ _ _ _ (three_bytes x (omega arith))
    ∙ step _ _ _ _ _ (
        inner_byte x 0 (low_of_three (0xE0 + x)) (high_of_three (0xE0 + x)) y (ground arith)
          (ground (arith, h)))
    ∙ step _ _ _ _ bytes (last_byte (x * 64 + y) 0x80 0xBF (c % 64) (omega arith) (omega arith))
    ∙ ap (λ n. n ∷ decode between bytes) (omega arith)

decode_four :
    (c : ℕ) (bytes : List ℕ)
    → 0x10000 ≤ c
    → is_scalar c ≡ true
    → decode between (
        (0xF0 + c / 262144)
        ∷ (0x80 + c / 4096 % 64)
        ∷ (0x80 + c / 64 % 64)
        ∷ (0x80 + c % 64)
        ∷ bytes)
      ≡ c ∷ decode between bytes
decode_four c bytes lo h =
    let x = c / 262144 in
    let y = c / 4096 % 64 in
    let z = c / 64 % 64 in
    let top : c ≤ 0x10FFFF = ground (arith, h) in
    step between _ _ _ _ (four_bytes x (omega (arith, top)))
    ∙ step _ _ _ _ _ (
        inner_byte x 1 (low_of_four (0xF0 + x)) (high_of_four (0xF0 + x)) y (ground arith)
          (ground (arith, top)))
    ∙ step _ _ _ _ _ (inner_byte (x * 64 + y) 0 0x80 0xBF z (omega arith) (omega arith))
    ∙ step _ _ _ _ bytes
        (last_byte ((x * 64 + y) * 64 + z) 0x80 0xBF (c % 64) (omega arith) (omega arith))
    ∙ ap (λ n. n ∷ decode between bytes) (omega arith)

decode_one :
    (c : ℕ) (bytes : List ℕ)
    → is_scalar c ≡ true
    → decode between (encode_utf8 c ++ bytes) ≡ c ∷ decode between bytes
unfolding encode_utf8
decode_one c bytes h = elim (Bool-cases (ltb c 0x80)) [
  | inl one ↦ rw one (step between between (c ∷ []) c bytes (rw one))
  | inr e1 ↦ elim (Bool-cases (ltb c 0x800)) [
    | inl two ↦ rw (e1, two) (decode_two c bytes (ground (arith, e1)) (ground (arith, two)))
    | inr e2 ↦ elim (Bool-cases (ltb c 0x10000)) [
      | inl three ↦
          rw (e1, e2, three) (decode_three c bytes (ground (arith, e2)) (ground (arith, three)) h)
      | inr e3 ↦ rw (e1, e2, e3) (decode_four c bytes (ground (arith, e3)) h)
    ]
  ]
]

-- The bytes of a text are read back as the text.
pub lossy-as_bytes : (s : Text) → all is_scalar s ≡ true → lossy (as_bytes s) ≡ s
unfolding lossy as_bytes
lossy-as_bytes [] h = refl
lossy-as_bytes (c ∷ s) h =
    decode_one c (as_bytes s) (ground (arith, h))
    ∙ ap (λ t. c ∷ t) (lossy-as_bytes s (ground (arith, h)))
