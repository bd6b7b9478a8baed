-- ===== src/Relocate/Rewrite/Slices.antt =====
-- Slices of a text, cut at a position.
use jrs.Prelude.{
  ℕ, zero, suc, ◌∷◌, [], ◌++◌, length, take, drop, ◌-◌, ◌+◌, ◌≤◌, ◌<◌, ◌≡◌, refl, sym, ap, ◌∙◌,
  arith,
}
use jrs.Relocate.{Bytes}
use jrs.Relocate.Rewrite.{between}

pub drop-suc : (xs : Bytes) (i : ℕ) → i < length xs → (b : ℕ) × (drop i xs ≡ b ∷ drop (i + 1) xs)
drop-suc [] i h = absurd (omega (arith, h))
drop-suc (x ∷ xs) zero h = (x, refl)
drop-suc (x ∷ xs) (suc i) h =
    let (b, e) = drop-suc xs i (omega (arith, h)) in
    let next : suc i + 1 ≡ suc (i + 1) = omega arith in (b, rw next e)

pub drop-all : (xs : Bytes) (i : ℕ) → length xs ≤ i → drop i xs ≡ []
drop-all [] zero h = refl
drop-all [] (suc i) h = refl
drop-all (x ∷ xs) zero h = absurd (omega (arith, h))
drop-all (x ∷ xs) (suc i) h = drop-all xs i (omega (arith, h))

pub drop_of_drop : (xs : Bytes) (m n : ℕ) → drop n (drop m xs) ≡ drop (m + n) xs
drop_of_drop xs zero n = ap (λ k. drop k xs) (omega arith)
drop_of_drop [] (suc m) n =
    drop-all [] n (omega arith) ∙ sym (drop-all [] (suc m + n) (omega arith))
drop_of_drop (x ∷ xs) (suc m) n =
    let next : suc m + n ≡ suc (m + n) = omega arith in rw next (drop_of_drop xs m n)

take-snoc : (xs ys : Bytes) (n b : ℕ) → drop n xs ≡ b ∷ ys → take (n + 1) xs ≡ take n xs ++ b ∷ []
take-snoc [] ys zero b h = absurd (ground (arith, h))
take-snoc [] ys (suc n) b h = absurd (ground (arith, h))
take-snoc (x ∷ xs) ys zero b h = ground (arith, h)
take-snoc (x ∷ xs) ys (suc n) b h =
    let next : suc n + 1 ≡ suc (n + 1) = omega arith in
    rw next (ap (λ l. x ∷ l) (take-snoc xs ys n b h))

pub between-snoc :
    (bytes ys : Bytes) (from i b : ℕ)
    → from ≤ i
    → drop i bytes ≡ b ∷ ys
    → between from (i + 1) bytes ≡ between from i bytes ++ b ∷ []
between-snoc bytes ys from i b h e =
    let whole : from + (i - from) ≡ i = omega (arith, h) in
    let length_of : i + 1 - from ≡ i - from + 1 = omega (arith, h) in
    let rest : drop (i - from) (drop from bytes) ≡ b ∷ ys =
      drop_of_drop bytes from (i - from) ∙ rw whole e in
    ap (λ k. take k (drop from bytes)) length_of ∙ take-snoc (drop from bytes) ys (i - from) b rest

pub take-all : (xs : Bytes) (n : ℕ) → length xs ≤ n → take n xs ≡ xs
take-all [] zero h = refl
take-all [] (suc n) h = refl
take-all (x ∷ xs) zero h = absurd (omega (arith, h))
take-all (x ∷ xs) (suc n) h = ap (λ l. x ∷ l) (take-all xs n (omega (arith, h)))

length-drop : (xs : Bytes) (n : ℕ) → length (drop n xs) ≤ length xs - n
length-drop xs zero = omega arith
length-drop [] (suc n) = omega arith
length-drop (x ∷ xs) (suc n) = omega (arith, length-drop xs n)

-- Up to the end or beyond it, a slice is all that is left.
pub between-end :
    (bytes : Bytes) (from to : ℕ) → length bytes ≤ to → between from to bytes ≡ drop from bytes
between-end bytes from to h =
    take-all (drop from bytes) (to - from) (omega (arith, h, length-drop bytes from))

pub between_same : (bytes : Bytes) (i : ℕ) → between i i bytes ≡ []
between_same bytes i =
    let none_left : i - i ≡ 0 = omega arith in ap (λ n. take n (drop i bytes)) none_left

pub append_last :
    (before now after : Bytes) (b : ℕ)
    → (before ++ (now ++ b ∷ [])) ++ after ≡ (before ++ now) ++ b ∷ after
append_last [] [] after b = refl
append_last [] (x ∷ now) after b = ap (λ l. x ∷ l) (append_last [] now after b)
append_last (x ∷ before) now after b = ap (λ l. x ∷ l) (append_last before now after b)

pub append_all :
    (before now new after : Bytes)
    → (before ++ (now ++ new)) ++ after ≡ (before ++ now) ++ (new ++ after)
append_all [] [] new after = refl
append_all [] (x ∷ now) new after = ap (λ l. x ∷ l) (append_all [] now new after)
append_all (x ∷ before) now new after = ap (λ l. x ∷ l) (append_all before now new after)
