-- ===== src/Expand/Glob/Ends.antt =====
-- The loop of `segment_matches` ends within its fuel.
use jrs.Prelude.{
  ℕ, zero, suc, Text, Bool, false, ◌||◌, ◌==◌, nat_eq, Option, none, some, ◌∷◌, [], length, drop,
  ◌+◌, ◌≤◌, ◌<◌, ◌≡◌, refl, arith, Bool-cases, inl, inr,
}
use jrs.Expand.Glob.{Star, advance, weight, per_resume, per_star, enough}

module _ (per : ℕ) (stars : ℕ) where
  -- How much the loop can still do.
  abbrev cost : Star → Text → Text → ℕ
  cost none p s = weight stars p + (weight per s + length s)
  cost (some (q, t)) p s = weight stars q + (weight per t + length s)

  -- What a resumption can do is less than what a `*` counts for.
  abbrev IsShort : Text → Type 0
  IsShort s = (weight per s + length s < stars) × (length s < per)

  abbrev IsBounded : Star → Text → Text → Type 0
  IsBounded none p s = IsShort s
  IsBounded (some (q, t)) p s =
      IsShort s × IsShort t × (weight stars p ≤ weight stars q) × (length s ≤ length t)

  resume_ends :
      (f : ℕ) (star : Star) (p : Text) (d : ℕ) (s : Text)
      → ((star' : Star) (p' s' : Text)
          → IsBounded star' p' s'
          → cost star' p' s' < f
          → (b : Bool) × (advance f star' p' s' ≡ some b))
      → IsBounded star p (d ∷ s)
      → cost star p (d ∷ s) < suc f
      → (b : Bool) × ((elim star as (λ _. Option Bool) [
        | none ↦ some false
        | some (q, t) ↦ advance f (some (q, drop 1 t)) q (drop 1 t)
      ])
          ≡ some b)
  resume_ends f none p d s ih small h = (false, refl)
  resume_ends f (some (q, [])) p d s ih (a, b, c, e) h = absurd (omega (arith, e))
  resume_ends f (some (q, x ∷ t)) p d s ih ((a1, a2), (b1, b2), c, e) h =
      let short : IsShort t = (omega (arith, b1), omega (arith, b2)) in
      ih (some (q, t)) q t (short, short, omega arith, omega arith) (omega (arith, h, b2, e))

  matched-IsBounded :
      (star : Star) (c d : ℕ) (p s : Text)
      → IsBounded star (c ∷ p) (d ∷ s)
      → IsBounded star p s × (cost star p s < cost star (c ∷ p) (d ∷ s))
  matched-IsBounded none c d p s (a, b) = ((omega (arith, a), omega (arith, b)), omega arith)
  matched-IsBounded (some (q, t)) c d p s ((a1, a2), b, e, l) =
      (((omega (arith, a1), omega (arith, a2)), b, omega (arith, e), omega (arith, l)), omega arith)

  starred-IsBounded :
      (star : Star) (c : ℕ) (p s : Text)
      → IsBounded star (c ∷ p) s
      → IsBounded (some (p, s)) p s × (cost (some (p, s)) p s < cost star (c ∷ p) s)
  starred-IsBounded none c p s (a, b) =
      (((a, b), (a, b), omega arith, omega arith), omega (arith, a))
  starred-IsBounded (some (q, t)) c p s (a, b, e, l) =
      ((a, a, omega arith, omega arith), omega (arith, a.0, e))

  advance_ends :
      (f : ℕ) (star : Star) (p s : Text)
      → IsBounded star p s
      → cost star p s < f
      → (b : Bool) × (advance f star p s ≡ some b)
  unfolding advance
  advance_ends f star p [] small h = (_, refl)
  advance_ends zero star p (d ∷ s) small h = absurd (omega (arith, h))
  advance_ends (suc f) star [] (d ∷ s) small h = resume_ends f star [] d s (advance_ends f) small h
  advance_ends (suc f) star (c ∷ p) (d ∷ s) small h = elim (Bool-cases (c == b'?' || c == d)) [
    | inl equal ↦
        let (bounded, less) = matched-IsBounded star c d p s small in
        let (b, found) = advance_ends f star p s bounded (omega (arith, less, h)) in
        (b, rw equal found)
    | inr differs ↦ elim (Bool-cases (c == b'*')) [
      | inl starred ↦
          let (bounded, less) = starred-IsBounded star c p (d ∷ s) small in
          let (b, found) =
            advance_ends f (some (p, d ∷ s)) p (d ∷ s) bounded (omega (arith, less, h)) in
          (b, rw (differs, starred) found)
      | inr plain ↦
          let (b, found) = resume_ends f star (c ∷ p) d s (advance_ends f) small h in
          (b, rw (differs, plain) found)
    ]
  ]

pub segment_ends :
    (pattern segment : Text)
    → (b : Bool) × (advance (enough pattern segment) none pattern segment ≡ some b)
segment_ends pattern segment =
    advance_ends (per_resume segment) (per_star segment) (enough pattern segment) none pattern
      segment (omega arith, omega arith) (omega arith)
