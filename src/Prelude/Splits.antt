-- ===== src/Prelude/Splits.antt =====
-- Splitting at a separator and joining with it undo one another.
use Prim.Native.Nat.{ℕ, zero, suc}
use mathlib.Core.Path.{◌≡◌, refl}
use mathlib.Core.Bool.{Bool, true, not}
use mathlib.Core.List.{List, [], ◌∷◌, ◌++◌, append-nil, append_assoc}
use mathlib.Core.Logic.{inl, inr}
use native.Mathlib.Omega.{arith}
use jrs.Prelude.Tests.{nat_beq, nat_beq_iff, if◌then◌else◌, Bool-cases}
use jrs.Prelude.Lists.{all}
use jrs.Prelude.Texts.{Text, split, join, splitn_from}

join-cons :
    (sep : Text) (c : ℕ) (p : Text) (ps : List Text)
    → join sep ((c ∷ p) ∷ ps) ≡ c ∷ join sep (p ∷ ps)
unfolding join
join-cons sep c p [] = refl
join-cons sep c p (q ∷ ps) = refl

module _ (sep : ℕ) where
  -- The separator does not occur in the text.
  abbrev pub lacks : Text → Bool
  lacks = all (λ c. not (nat_beq c sep))

  -- A split has a first part.
  pub split_parts : (s : Text) → (p : Text) × (ps : List Text) × (split sep s ≡ p ∷ ps)
  unfolding split
  split_parts [] = ([], [], refl)
  split_parts (c ∷ s) =
      let (p, ps, e) = split_parts s in
      elim (Bool-cases (nat_beq c sep)) [
        | inl h ↦ ([], p ∷ ps, rw (e, h))
        | inr h ↦ (c ∷ p, ps, rw (e, h))
      ]

  pub split-append_sep :
      (p rest : Text) → lacks p ≡ true → split sep (p ++ sep ∷ rest) ≡ p ∷ split sep rest
  unfolding split
  split-append_sep [] rest h =
      let (p, ps, e) = split_parts rest in rw (e, (nat_beq_iff sep sep).1 refl)
  split-append_sep (c ∷ p) rest h = ground (arith, split-append_sep p rest)

  pub split_of_lacks : (p : Text) → lacks p ≡ true → split sep p ≡ p ∷ []
  unfolding split
  split_of_lacks [] h = refl
  split_of_lacks (c ∷ p) h = ground (arith, split_of_lacks p)

  pub split_parts_lack : (s : Text) → all lacks (split sep s) ≡ true
  unfolding split
  split_parts_lack [] = refl
  split_parts_lack (c ∷ s) =
      let (p, ps, e) = split_parts s in
      let ih : all lacks (p ∷ ps) ≡ true = rw e at (split_parts_lack s) in rw e (ground arith)

  pub join-split : (s : Text) → join (sep ∷ []) (split sep s) ≡ s
  unfolding split join
  join-split [] = refl
  join-split (c ∷ s) =
      let (p, ps, e) = split_parts s in
      let ih : join (sep ∷ []) (p ∷ ps) ≡ s = rw e at (join-split s) in
      elim (Bool-cases (nat_beq c sep)) [
        | inl h ↦ rw (e, h) (cc ((nat_beq_iff c sep).0 h))
        | inr h ↦ rw (e, h) (cc (join-cons (sep ∷ []) c p ps))
      ]

  -- `splitn` cuts a part off as `split` does, while it may open more parts.
  pub splitn_from-append_sep :
      (n : ℕ) (part p rest : Text)
      → lacks p ≡ true
      → splitn_from (suc n) sep part (p ++ sep ∷ rest) ≡ (part ++ p) ∷ splitn_from n sep [] rest
  unfolding splitn_from
  splitn_from-append_sep n part [] rest h = rw (append-nil, (nat_beq_iff sep sep).1 refl)
  splitn_from-append_sep n part (c ∷ p) rest h =
      ground (arith, splitn_from-append_sep n (part ++ c ∷ []) p rest, append_assoc part (c ∷ []) p)

  pub splitn_from_of_lacks :
      (n : ℕ) (part p : Text) → lacks p ≡ true → splitn_from n sep part p ≡ (part ++ p) ∷ []
  unfolding splitn_from
  splitn_from_of_lacks n part [] h = rw append-nil
  splitn_from_of_lacks zero part (c ∷ p) h = refl
  splitn_from_of_lacks (suc n) part (c ∷ p) h =
      ground (arith, splitn_from_of_lacks (suc n) (part ++ c ∷ []) p, append_assoc part (c ∷ []) p)

  pub split-cons :
      (c : ℕ) (s p : Text) (ps : List Text)
      → split sep s ≡ p ∷ ps
      → split sep (c ∷ s) ≡ (if nat_beq c sep then [] ∷ p ∷ ps else (c ∷ p) ∷ ps)
  unfolding split
  split-cons c s p ps e = rw e
