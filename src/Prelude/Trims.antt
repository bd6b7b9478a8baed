-- ===== src/Prelude/Trims.antt =====
-- A text that `trim` keeps, in front of another.
use Prim.Native.Nat.{ℕ, suc, ◌≤◌}
use mathlib.Core.Path.{◌≡◌, refl, ap, sym, ◌∙◌}
use mathlib.Core.Logic.{inl, inr}
use mathlib.Core.Bool.{false}
use mathlib.Core.List.{
  [], ◌∷◌, ◌++◌, append_assoc, reverse, reverse-cons, reverse-reverse, reverse-append,
}
use native.Mathlib.Omega.{arith}
use jrs.Prelude.Lists.{length, length-append}
use jrs.Prelude.Texts.{Text, trim, trim_start, is_whitespace}
use jrs.Prelude.Tests.{Bool-cases}

trim_start-length : (s : Text) → length (trim_start s) ≤ length s
unfolding trim_start
trim_start-length [] = omega arith
trim_start-length (c ∷ s) = ground (arith, trim_start-length s)

-- A text that is not shorter without its leading white space has none.
trim_start-keeps : (s : Text) → length s ≤ length (trim_start s) → trim_start s ≡ s
unfolding trim_start
trim_start-keeps [] h = refl
trim_start-keeps (c ∷ s) h = elim (Bool-cases (is_whitespace c)) [
  | inl white ↦
      let longer : suc (length s) ≤ length (trim_start s) = rw white at h in
      absurd (omega (arith, trim_start-length s, longer))
  | inr black ↦ rw black
]

trim_start-append :
    (a s : Text) → trim_start a ≡ a → trim_start s ≡ s → trim_start (a ++ s) ≡ a ++ s
unfolding trim_start
trim_start-append [] s ha hs = hs
trim_start-append (c ∷ a) s ha hs = elim (Bool-cases (is_whitespace c)) [
  | inl white ↦
      let same : trim_start a ≡ c ∷ a = rw white at ha in
      absurd (omega (arith, trim_start-length a, ap length same))
  | inr black ↦ rw black
]

length-reverse : (s : Text) → length (reverse s) ≡ length s
length-reverse [] = refl
length-reverse (c ∷ s) =
    ap length (reverse-cons c s)
    ∙ omega (arith, length-append (reverse s) (c ∷ []), length-reverse s)

-- A text that `trim` keeps has no white space at its start nor at its end.
trim-start : (s : Text) → trim s ≡ s → trim_start s ≡ s
unfolding trim
trim-start s h =
    let cut = trim_start s in
    trim_start-keeps s (
      omega (
        arith,
        ap length h,
        length-reverse (trim_start (reverse cut)),
        trim_start-length (reverse cut),
        length-reverse cut,
      ))

trim-end : (s : Text) → trim s ≡ s → trim_start (reverse s) ≡ reverse s
unfolding trim
trim-end s h =
    sym (reverse-reverse (trim_start (reverse s)))
    ∙ ap reverse (ap (λ t. reverse (trim_start (reverse t))) (sym (trim-start s h)) ∙ h)

trim-both : (s : Text) → trim_start s ≡ s → trim_start (reverse s) ≡ reverse s → trim s ≡ s
unfolding trim
trim-both s first last =
    ap (λ t. reverse (trim_start (reverse t))) first ∙ (ap reverse last ∙ reverse-reverse s)

start_stays : (sep : ℕ) (s : Text) → is_whitespace sep ≡ false → trim_start (sep ∷ s) ≡ sep ∷ s
unfolding trim_start
start_stays sep s h = rw h

-- Two texts that `trim` keeps, with a character between them that is no white space.
pub trim-append :
    (a b : Text) (sep : ℕ)
    → is_whitespace sep ≡ false
    → trim a ≡ a
    → trim b ≡ b
    → trim (a ++ sep ∷ b) ≡ a ++ sep ∷ b
trim-append a b sep h ha hb =
    let turned : reverse (a ++ sep ∷ b) ≡ reverse b ++ sep ∷ reverse a =
      reverse-append a (sep ∷ b)
      ∙ ap (λ t. t ++ reverse a) (reverse-cons sep b)
      ∙ append_assoc (reverse b) (sep ∷ []) (reverse a) in
    trim-both (a ++ sep ∷ b) (trim_start-append a (sep ∷ b) (trim-start a ha) (start_stays sep b h))
      (ap trim_start turned
        ∙ trim_start-append (reverse b) (sep ∷ reverse a) (trim-end b hb)
            (start_stays sep (reverse a) h)
        ∙ sym turned)
