-- ===== src/Json/Parser/Leaves.antt =====
-- src/json.rs: what the readers of pieces leave of the text.
use jrs.Prelude.{
  is_scalar, ℕ, zero, suc, Text, codes, Bool, true, false, ◌&&◌, ◌==◌, nat_eq, ◌∷◌, [], Option,
  none, some, if◌then◌else◌, ◌+◌, ◌-◌, ◌*◌, ◌≤◌, arith, length, leb, Bool-cases, inl, inr, ltb,
  starts_with, drop,
}
use jrs.Json.Reader.{
  read_hex4, Read, got, failed, out_of_fuel, ◌>>=◌, eat_colon, eat_now, space, is_space,
  string_from, prepend, simple_escape, unicode, unicode_then, escaped, checked, low_half, high_half,
  read_hex4,
}
use jrs.Json.Parser.{after_number}

-- Reading is answered, and no more than `n` characters are left when something is read.
unfoldable pub Leaves {κ} : {Value : Type κ} → ℕ → Read Value → Type 0
Leaves n (got x rest) = length rest ≤ n
Leaves n (failed what left past) = Unit
Leaves n out_of_fuel = ⊥

pub Leaves-bind {κ ℓ} :
    {Value : Type κ} {Next : Type ℓ} (n m : ℕ) (r : Read Value) (next : Value → Text → Read Next)
    → Leaves n r
    → ((x : Value) (rest : Text) → length rest ≤ n → Leaves m (next x rest))
    → Leaves m (r >>= next)
unfolding Leaves
Leaves-bind n m (got x rest) next h k = k x rest h
Leaves-bind n m (failed what left past) next h k = tt
Leaves-bind n m out_of_fuel next h k = absurd h

pub Leaves-le {κ} : {Value : Type κ} (n m : ℕ) (r : Read Value) → n ≤ m → Leaves n r → Leaves m r
unfolding Leaves
Leaves-le n m (got x rest) h l = omega (arith, h, l)
Leaves-le n m (failed what left past) h l = tt
Leaves-le n m out_of_fuel h l = absurd l

pub Leaves-if {κ} :
    {Value : Type κ} (b : Bool) (n : ℕ) (r s : Read Value)
    → Leaves n r
    → Leaves n s
    → Leaves n (if b then r else s)
Leaves-if true n r s h k = h
Leaves-if false n r s h k = k

Leaves-prepend : (c n : ℕ) (r : Read Text) → Leaves n r → Leaves n (prepend c r)
unfolding Leaves prepend
Leaves-prepend c n (got x rest) h = h
Leaves-prepend c n (failed what left past) h = tt
Leaves-prepend c n out_of_fuel h = absurd h

pub length-space : (s : Text) → length (space s) ≤ length s
unfolding space
length-space [] = omega arith
length-space (c ∷ s) = elim (Bool-cases (is_space c)) [
  | inl e ↦ rw e (omega (arith, length-space s))
  | inr e ↦ rw e (omega arith)
]

pub length-after_number : (s : Text) → length (after_number s) ≤ length s
unfolding after_number
length-after_number [] = omega arith
length-after_number (c ∷ s) = ground (arith, length-after_number s)

pub length-drop_le : (k : ℕ) (s : Text) → length (drop k s) ≤ length s
length-drop_le zero s = omega arith
length-drop_le (suc k) [] = omega arith
length-drop_le (suc k) (c ∷ s) = omega (arith, length-drop_le k s)

Leaves-eat_now : (c : ℕ) (what s : Text) → Leaves (length s) (eat_now c what s)
unfolding eat_now Leaves
Leaves-eat_now c what [] = tt
Leaves-eat_now c what (d ∷ s) =
    Leaves-if (d == c) (suc (length s)) (got tt s) (failed what (d ∷ s) 0) (omega arith) tt

pub Leaves-eat_colon : (s : Text) → Leaves (length s) (eat_colon s)
unfolding eat_colon
Leaves-eat_colon s =
    Leaves-le (length (space s)) (length s) (eat_colon s) (length-space s)
      (Leaves-eat_now b':' (codes "expected `:`") (space s))

-- A bound of some kind.
Answers {κ} : {Value : Type κ} → Read Value → Type 0
Answers r = (n : ℕ) × Leaves n r

Answers-checked : (code taken : ℕ) (s : Text) → Answers (checked code taken s)
unfolding Answers checked Leaves
Answers-checked code taken s = (
  length s,
  Leaves-if (is_scalar code) (length s) (got (code, taken) s)
      (failed (codes "a lone surrogate") s 0) (omega arith) tt,
)

Answers-low_half : (high : ℕ) (s : Text) (low : Option ℕ) → Answers (low_half high s low)
unfolding Answers low_half Leaves
Answers-low_half high s none = (0, tt)
Answers-low_half high s (some low) = elim (Bool-cases (leb 0xDC00 low && ltb low 0xE000)) [
  | inl e ↦
      rw e (Answers-checked (0x10000 + (high - 0xD800) * 1024 + (low - 0xDC00)) 10 (drop 10 s))
  | inr e ↦ rw e (0, tt)
]

Answers-high_half : (s : Text) (high : Option ℕ) → Answers (high_half s high)
unfolding Answers high_half Leaves
Answers-high_half s none = (0, tt)
Answers-high_half s (some high) =
    elim (Bool-cases (leb 0xD800 high && ltb high 0xDC00 && starts_with (drop 4 s) (codes "\\u"))) [
      | inl e ↦ rw e (Answers-low_half high s (read_hex4 (drop 6 s)))
      | inr e ↦ rw e (Answers-checked high 4 (drop 4 s))
    ]

Answers-unicode : (s : Text) → Answers (unicode s)
unfolding unicode
Answers-unicode s = Answers-high_half s (read_hex4 s)

Leaves-unicode_then :
    (n : ℕ) (r : Read (ℕ × ℕ)) (go : ℕ → Read Text)
    → Answers r
    → ((skip : ℕ) → Leaves n (go skip))
    → Leaves n (unicode_then r go)
unfolding Answers Leaves unicode_then
Leaves-unicode_then n (got (c, taken) rest) go h k =
    Leaves-prepend c n (go (1 + taken)) (k (1 + taken))
Leaves-unicode_then n (failed what left past) go h k = tt
Leaves-unicode_then n out_of_fuel go h k = absurd h.1

Leaves-escaped :
    (n : ℕ) (s : Text) (go : ℕ → Read Text)
    → ((skip : ℕ) → Leaves n (go skip))
    → Leaves n (escaped s go)
unfolding Leaves escaped
Leaves-escaped n [] go k = tt
Leaves-escaped n (e ∷ t) go k =
    elim (simple_escape e)
      as (λ o. Leaves n (elim o [
        | some ch ↦ prepend ch (go 1)
        | none ↦
            if e == b'u'
            then unicode_then (unicode t) go
            else failed (codes "unknown escape") (e ∷ t) 1
      ])) [
        | some ch ↦ Leaves-prepend ch n (go 1) (k 1)
        | none ↦
            Leaves-if (e == b'u') n (unicode_then (unicode t) go)
              (failed (codes "unknown escape") (e ∷ t) 1)
              (Leaves-unicode_then n (unicode t) go (Answers-unicode t) k) tt
      ]

pub Leaves-string_from : (skip : ℕ) (s : Text) → Leaves (length s) (string_from skip s)
unfolding string_from Leaves
Leaves-string_from skip [] = tt
Leaves-string_from (suc skip) (c ∷ s) =
    Leaves-le (length s) (suc (length s)) (string_from skip s) (omega arith)
      (Leaves-string_from skip s)
Leaves-string_from zero (c ∷ s) =
    let n = length s in
    let go = λ (skip : ℕ). string_from skip s in
    Leaves-le n (suc n) (string_from zero (c ∷ s)) (omega arith) (
      Leaves-if (c == b'"') n (got [] s) _ (omega arith) (
        Leaves-if (c == b'\\') n (escaped s go) (prepend c (go 0))
          (Leaves-escaped n s go (λ skip. Leaves-string_from skip s))
          (Leaves-prepend c n (go 0) (Leaves-string_from 0 s))))
