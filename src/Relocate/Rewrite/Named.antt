-- ===== src/Relocate/Rewrite/Named.antt =====
-- A match passes a byte at least.
use jrs.Prelude.{
  ◌⊎◌, ℕ, Option, none, some, List, ◌∷◌, [], length, drop, ◌<◌, ◌≡◌, arith, All, inl, inr,
}
use jrs.Relocate.{Bytes, Rule, Context}
use jrs.Relocate.Rewrite.{or_else, match_here, match_at, match_form}

-- A rule for a package that has a name.
abbrev pub HasName : Rule → Type 0
HasName r = (0 < length r.from.0) × (0 < length r.from.1)

match_form-positive :
    (r : Rule) (rest : Bytes) (i separator : ℕ) (from to : Bytes) (n : ℕ) (replacement : Bytes)
    → match_form r rest i separator from to ≡ some (n, replacement)
    → 0 < length from
    → 0 < n
unfolding match_form
match_form-positive r rest i separator from to n replacement h p = ground (arith, h, p)

or_else-some :
    (o o' : Option (ℕ × Bytes)) (a : ℕ × Bytes)
    → or_else o o' ≡ some a
    → (o ≡ some a) ⊎ (o' ≡ some a)
or_else-some none o' a h = inr h
or_else-some (some x) o' a h = inl h

match_at-positive :
    (rules : List Rule) (rest : Bytes) (i n : ℕ) (replacement : Bytes)
    → All HasName rules
    → match_at rules rest i ≡ some (n, replacement)
    → 0 < n
unfolding match_at
match_at-positive [] rest i n replacement named h = absurd (ground (arith, h))
match_at-positive (r ∷ rs) rest i n replacement ((a, b), named) h =
    let slashed = match_form r rest i b'/' r.from.0 r.to.0 in
    let dotted = match_form r rest i b'.' r.from.1 r.to.1 in
    elim (or_else-some slashed (or_else dotted (match_at rs rest i)) (n, replacement) h) [
      | inl e ↦ match_form-positive r rest i b'/' r.from.0 r.to.0 n replacement e a
      | inr e ↦ elim (or_else-some dotted (match_at rs rest i) (n, replacement) e) [
        | inl e' ↦ match_form-positive r rest i b'.' r.from.1 r.to.1 n replacement e' b
        | inr e' ↦ match_at-positive rs rest i n replacement named e'
      ]
    ]

pub match_here-positive :
    (rules : List Rule) (context : Context) (bytes : Bytes) (i n : ℕ) (replacement : Bytes)
    → All HasName rules
    → match_here rules context bytes i ≡ some (n, replacement)
    → 0 < n
unfolding match_here
match_here-positive rules context bytes i n replacement named h =
    ground (arith, h, match_at-positive rules (drop i bytes) i n replacement named)
