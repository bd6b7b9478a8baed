-- ===== src/Expand/Glob/Meaning.antt =====
-- What a pattern means, and that the last `*` is the only one to go back to.
use jrs.Prelude.{
  ℕ, Text, Bool, true, false, ◌&&◌, ◌||◌, ◌==◌, nat_eq, list_eq, ◌∷◌, [], if◌then◌else◌, drop, ◌≡◌,
  refl, sym, ◌∙◌, arith,
}
use jrs.Expand.Glob.{any_suffix}

-- Whether a pattern matches a segment: `?` stands for one character, `*` for any number of them.
unfoldable pub matches : Text → Text → Bool
matches [] [] = true
matches [] (d ∷ s) = false
matches (c ∷ p) s =
    let rest = matches p in
    if c == b'*'
    then any_suffix rest s
    else elim s [ [] ↦ false | d ∷ s' ↦ (c == b'?' || c == d) && rest s' ]

-- What has been matched since a `*`: `q` at `t` has got to `p` at `s`, past no other `*`.
pub data Reaches (q t : Text) : Text → Text → Type 0 where
  here : Reaches q t q t
  step :
      {c d : ℕ} {p s : Text}
      → (c == b'*') ≡ false
      → (c == b'?' || c == d) ≡ true
      → Reaches q t (c ∷ p) (d ∷ s)
      → Reaches q t p s

-- An attempt is decided by what is left of it.
pub matches_left : (q t p s : Text) → Reaches q t p s → matches q t ≡ matches p s
unfolding matches
matches_left q t p s here = refl
matches_left q t p s (step {c} {d} plain equal r) =
    matches_left q t (c ∷ p) (d ∷ s) r ∙ ground (arith, plain, equal)

any_suffix-drop :
    (f : Text → Bool) (s : Text) → any_suffix f (drop 1 s) ≡ true → any_suffix f s ≡ true
any_suffix-drop f [] h = h
any_suffix-drop f (d ∷ s) h = ground (arith, h)

any_suffix_twice :
    (f : Text → Bool) (s : Text) → any_suffix (any_suffix f) s ≡ true → any_suffix f s ≡ true
any_suffix_twice f [] h = h
any_suffix_twice f (d ∷ s) h = ground (arith, h, any_suffix_twice f s)

any_suffix_plain :
    (c : ℕ) (p u : Text)
    → (c == b'*') ≡ false
    → any_suffix (matches (c ∷ p)) u ≡ true
    → any_suffix (matches p) (drop 1 u) ≡ true
unfolding matches
any_suffix_plain c p [] plain h = absurd (ground (arith, h, plain))
any_suffix_plain c p (d ∷ []) plain h = ground (arith, h, plain)
any_suffix_plain c p (d ∷ e ∷ u) plain h =
    ground (arith, h, plain, any_suffix_plain c p (e ∷ u) plain)

-- If some later attempt from the `*` succeeds, then so does one from here.
pub later-Reaches :
    (q t p s : Text)
    → Reaches q t p s
    → any_suffix (matches q) t ≡ true
    → any_suffix (matches p) s ≡ true
later-Reaches q t p s here h = h
later-Reaches q t p s (step {c} {d} plain equal r) h =
    any_suffix_plain c p (d ∷ s) plain (later-Reaches q t (c ∷ p) (d ∷ s) r h)

pub any_suffix_now : (f : Text → Bool) (s : Text) → f s ≡ true → any_suffix f s ≡ true
any_suffix_now f [] h = h
any_suffix_now f (d ∷ s) h = ground (arith, h)

pub same_truth : (a b : Bool) → (a ≡ true → b ≡ true) → (b ≡ true → a ≡ true) → a ≡ b
same_truth true b h k = sym (h refl)
same_truth false true h k = k refl
same_truth false false h k = refl

-- Behind a second `*`, the first one need not be tried again.
pub at_star :
    (q t p s : Text)
    → Reaches q t (b'*' ∷ p) s
    → any_suffix (matches q) t ≡ any_suffix (matches p) s
unfolding matches
at_star q t p s r =
    same_truth (any_suffix (matches q) t) (any_suffix (matches p) s)
      (λ h. any_suffix_twice (matches p) s (later-Reaches q t (b'*' ∷ p) s r h))
      (λ h. any_suffix_now (matches q) t (matches_left q t (b'*' ∷ p) s r ∙ h))
