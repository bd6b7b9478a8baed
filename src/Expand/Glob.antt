-- ===== src/Expand/Glob.antt =====
-- src/expand.rs: paths matched against patterns.
pub mod Meaning
pub mod Ends
pub mod Matching
use jrs.Prelude.{
  ℕ, zero, suc, Text, codes, Bool, true, false, not, ◌&&◌, ◌||◌, ◌==◌, nat_eq, list_eq, Option,
  none, some, List, ◌∷◌, [], ◌++◌, any, all, if◌then◌else◌, length, drop, ◌+◌, split,
}

-- The backtracking point: the pattern behind the last `*`, and the segment where it resumes.
abbrev pub Star : Type 0
Star = Option (Text × Text)

abbrev pub only_stars : Text → Bool
only_stars = all (λ c. c == b'*')

-- The loop of `segment_matches`, with `pattern[p..]` and `segment[s..]` for the two indices; `none`
-- means that the fuel ran out.
unfoldable pub advance : ℕ → Star → Text → Text → Option Bool
advance f star p [] = some (only_stars p)
advance zero star p (d ∷ s) = none
advance (suc f) star [] (d ∷ s) = elim star [
  | none ↦ some false
  | some (q, t) ↦ advance f (some (q, drop 1 t)) q (drop 1 t)
]
advance (suc f) star (c ∷ p) (d ∷ s) =
    let matched = advance f star p s in
    let starred = advance f (some (p, d ∷ s)) p (d ∷ s) in
    let failed : Option Bool = elim star [
      | none ↦ some false
      | some (q, t) ↦ advance f (some (q, drop 1 t)) q (drop 1 t)
    ] in
    if c == b'?' || c == d then matched else if c == b'*' then starred else failed

-- `n` for each character.
abbrev pub weight : ℕ → Text → ℕ
weight n [] = 0
weight n (c ∷ s) = n + weight n s

-- A step passes a character, or resumes one character on, or goes on behind a later `*`.
abbrev pub per_resume : Text → ℕ
per_resume segment = suc (length segment)

abbrev pub per_star : Text → ℕ
per_star segment = suc (weight (per_resume segment) segment + length segment)

abbrev pub enough : Text → Text → ℕ
enough pattern segment =
    suc (weight (per_star segment) pattern + (weight (per_resume segment) segment + length segment))

abbrev pub or_false : Option Bool → Bool
or_false none = false
or_false (some b) = b

-- That the fuel is enough is shown in `Ends`.
unfoldable pub segment_matches : Text → Text → Bool
unfolding advance
segment_matches pattern segment = or_false (advance (enough pattern segment) none pattern segment)

-- `(0..=xs.len()).any(|skip| test(&xs[skip..]))`.
abbrev pub any_suffix {ℓ} : {A : Type ℓ} → (List A → Bool) → List A → Bool
any_suffix test [] = test []
any_suffix test (x ∷ xs) = test (x ∷ xs) || any_suffix test xs

unfoldable pub segments_match : List Text → List Text → Bool
unfolding segment_matches
segments_match [] [] = true
segments_match [] (seg ∷ tail) = false
segments_match (first ∷ rest) path =
    let later = segments_match rest in
    if first == codes "**"
    then any_suffix later path
    else elim path [ [] ↦ false | seg ∷ tail ↦ segment_matches first seg && later tail ]

unfoldable pub glob_matches : Text → Text → Bool
unfolding segments_match
glob_matches pattern path = segments_match (split b'/' pattern) (split b'/' path)
