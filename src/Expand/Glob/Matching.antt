-- ===== src/Expand/Glob/Matching.antt =====
-- `segment_matches` against what a pattern means.
use jrs.Prelude.{
  subst, ℕ, zero, suc, Text, codes, Bool, true, false, not, ◌||◌, ◌==◌, nat_eq, list_eq, Option,
  none, some, ◌∷◌, [], all, drop, ◌<◌, ◌≡◌, refl, sym, ap, ◌∙◌, arith, Bool-cases, inl, inr,
}
use jrs.Expand.Glob.{or_false, Star, only_stars, advance, enough, segment_matches, any_suffix}
use jrs.Expand.Glob.Meaning.{
  matches, Reaches, here, step, matches_left, later-Reaches, any_suffix_now, same_truth, at_star,
}
use jrs.Expand.Glob.Ends.{segment_ends}

only_stars_match : (p : Text) → matches p [] ≡ only_stars p
unfolding matches
only_stars_match [] = refl
only_stars_match (c ∷ p) = ground (arith, only_stars_match p)

abbrev no_stars : Text → Bool
no_stars = all (λ c. not (c == b'*'))

no_stars-drop : (s : Text) → no_stars s ≡ true → no_stars (drop 1 s) ≡ true
no_stars-drop [] h = refl
no_stars-drop (d ∷ s) h = ground (arith, h)

-- What the loop is to answer.
abbrev answer : Star → Text → Text → Bool
answer none p s = matches p s
answer (some (q, t)) p s = any_suffix (matches q) t

abbrev IsReached : Star → Text → Text → Type 0
IsReached none p s = Unit
IsReached (some (q, t)) p s = Reaches q t p s × (no_stars t ≡ true)

answer_at_end : (star : Star) (p : Text) → IsReached star p [] → only_stars p ≡ answer star p []
answer_at_end none p h = sym (only_stars_match p)
answer_at_end (some (q, t)) p (r, h) =
    same_truth (only_stars p) (any_suffix (matches q) t)
      (λ e. any_suffix_now (matches q) t (matches_left q t p [] r ∙ only_stars_match p ∙ e))
      (λ e. sym (only_stars_match p) ∙ later-Reaches q t p [] r e)

any_suffix_later :
    (f : Text → Bool) (t : Text) → f t ≡ false → any_suffix f (drop 1 t) ≡ any_suffix f t
any_suffix_later f [] h = refl
any_suffix_later f (e ∷ t) h = rw h refl

-- A failed attempt: the answer is the next one's.
answer_failed :
    (f : ℕ) (star : Star) (p s : Text) (b : Bool)
    → ((star' : Star) (p' s' : Text)
        → IsReached star' p' s'
        → no_stars s' ≡ true
        → advance f star' p' s' ≡ some b
        → b ≡ answer star' p' s')
    → IsReached star p s
    → matches p s ≡ false
    → (elim star as (λ _. Option Bool) [
      | none ↦ some false
      | some (q, t) ↦ advance f (some (q, drop 1 t)) q (drop 1 t)
    ])
      ≡ some b
    → b ≡ answer star p s
answer_failed f none p s b ih r miss h = ground (arith, miss, h)
answer_failed f (some (q, t)) p s b ih (r, clean) miss h =
    ih (some (q, drop 1 t)) q (drop 1 t) (here, no_stars-drop t clean) (no_stars-drop t clean) h
    ∙ any_suffix_later (matches q) t (matches_left q t p s r ∙ miss)

IsReached-step :
    (star : Star) (c d : ℕ) (p s : Text)
    → (c == b'*') ≡ false
    → (c == b'?' || c == d) ≡ true
    → IsReached star (c ∷ p) (d ∷ s)
    → IsReached star p s
IsReached-step none c d p s plain equal r = tt
IsReached-step (some (q, t)) c d p s plain equal (r, clean) = (step plain equal r, clean)

answer_step :
    (star : Star) (c d : ℕ) (p s : Text)
    → (c == b'*') ≡ false
    → (c == b'?' || c == d) ≡ true
    → answer star p s ≡ answer star (c ∷ p) (d ∷ s)
unfolding matches
answer_step none c d p s plain equal = ground (arith, plain, equal)
answer_step (some (q, t)) c d p s plain equal = refl

answer_star :
    (star : Star) (c : ℕ) (p s : Text)
    → c ≡ b'*'
    → IsReached star (c ∷ p) s
    → any_suffix (matches p) s ≡ answer star (c ∷ p) s
unfolding matches
answer_star none c p s e r = rw e refl
answer_star (some (q, t)) c p s e (r, clean) =
    sym (at_star q t p s (subst (λ x. Reaches q t (x ∷ p) s) e r))

advance_end : (f : ℕ) (star : Star) (p : Text) → advance f star p [] ≡ some (only_stars p)
unfolding advance
advance_end f star p = refl

advance_sound :
    (f : ℕ) (star : Star) (p s : Text) (b : Bool)
    → IsReached star p s
    → no_stars s ≡ true
    → advance f star p s ≡ some b
    → b ≡ answer star p s
unfolding advance matches
advance_sound f star p [] b r clean h =
    let found : only_stars p ≡ b = ground (arith, h, advance_end f star p) in
    sym found ∙ answer_at_end star p r
advance_sound zero star p (d ∷ s) b r clean h = absurd (ground (arith, h))
advance_sound (suc f) star [] (d ∷ s) b r clean h =
    answer_failed f star [] (d ∷ s) b (λ star' p' s'. advance_sound f star' p' s' b) r refl h
advance_sound (suc f) star (c ∷ p) (d ∷ s) b r clean h = elim (Bool-cases (c == b'?' || c == d)) [
  | inl equal ↦
      let plain : (c == b'*') ≡ false = ground (arith, clean, equal) in
      advance_sound f star p s b (IsReached-step star c d p s plain equal r) (ground (arith, clean))
        (rw equal at h)
      ∙ answer_step star c d p s plain equal
  | inr differs ↦ elim (Bool-cases (c == b'*')) [
    | inl starred ↦
        let is_star : c ≡ b'*' = ground (arith, starred) in
        let tried : advance f (some (p, d ∷ s)) p (d ∷ s) ≡ some b = rw (differs, starred) at h in
        advance_sound f (some (p, d ∷ s)) p (d ∷ s) b (here, clean) clean tried
        ∙ answer_star star c p (d ∷ s) is_star r
    | inr plain ↦
        answer_failed f star (c ∷ p) (d ∷ s) b (λ star' p' s'. advance_sound f star' p' s' b) r
          (ground (arith, differs, plain)) (rw (differs, plain) at h)
  ]
]

-- The two-pointer loop of `segment_matches` answers what the pattern means, for every pattern and
-- every segment that holds no `*` itself.
pub segment_matches-eq :
    (pattern segment : Text)
    → no_stars segment ≡ true
    → segment_matches pattern segment ≡ matches pattern segment
unfolding segment_matches
segment_matches-eq pattern segment clean =
    let (b, found) = segment_ends pattern segment in
    let right = advance_sound (enough pattern segment) none pattern segment b tt clean found in
    ap or_false found ∙ right

spent_on_star :
    (f c : ℕ) (s : Text) → 1 < f → advance f none (codes "*") (b'*' ∷ c ∷ s) ≡ some false
unfolding advance
spent_on_star zero c s h = absurd (omega (arith, h))
spent_on_star (suc zero) c s h = absurd (omega (arith, h))
spent_on_star (suc (suc f)) c s h = refl

empty_at_end : (s : Text) → any_suffix (matches []) s ≡ true
unfolding matches
empty_at_end [] = refl
empty_at_end (d ∷ s) = empty_at_end s

-- A lone `*` does not match a segment of two characters or more that starts with a `*`, although
-- it stands for any number of characters.
pub segment_matches-literal_star :
    (c : ℕ) (s : Text)
    → (segment_matches (codes "*") (b'*' ∷ c ∷ s) ≡ false)
      × (matches (codes "*") (b'*' ∷ c ∷ s) ≡ true)
unfolding segment_matches matches
segment_matches-literal_star c s =
    let spent = spent_on_star (enough (codes "*") (b'*' ∷ c ∷ s)) c s (omega arith) in
    (ap or_false spent, empty_at_end s)
