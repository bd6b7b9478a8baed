-- ===== src/Relocate/Rewrite/Bytewise.antt =====
-- `rewrite` against the rewriting of a text byte by byte.
use jrs.Prelude.{
  ℕ, zero, suc, Option, none, some, List, ◌∷◌, [], ◌++◌, length, drop, ◌-◌, ◌+◌, ◌≤◌, ◌<◌, ◌≡◌,
  refl, sym, ap, ◌∙◌, arith, ltb, All, append-nil, Bool-cases, inl, inr,
}
use jrs.Relocate.Rewrite.Slices.{
  append_all, append_last, drop-suc, drop-all, drop_of_drop, between-snoc, between-end,
  between_same,
}
use jrs.Relocate.{Bytes, Rule, Context}
use jrs.Relocate.Rewrite.Named.{HasName, match_here-positive}
use jrs.Relocate.Rewrite.{
  ended, finish, Rewriting, or_nothing, between, match_here, advance, scan, start, rewrite,
  rewritten_or,
}

-- From byte `i` on, with `skip` bytes of the last name still to pass over: a name that is matched
-- gives its replacement, and any other byte stays.
unfoldable pub relocated : List Rule → Context → Bytes → ℕ → ℕ → Bytes → Bytes
relocated rules context bytes i skip [] = []
relocated rules context bytes i (suc skip) (b ∷ rest) =
    relocated rules context bytes (i + 1) skip rest
relocated rules context bytes i zero (b ∷ rest) = elim (match_here rules context bytes i) [
  | none ↦ b ∷ relocated rules context bytes (i + 1) zero rest
  | some (n, replacement) ↦ replacement ++ relocated rules context bytes (i + 1) (n - 1) rest
]

relocated_skip :
    (rules : List Rule) (context : Context) (bytes : Bytes) (i k : ℕ) (rest : Bytes)
    → relocated rules context bytes i k rest
      ≡ relocated rules context bytes (i + k) zero (drop k rest)
unfolding relocated
relocated_skip rules context bytes i zero rest =
    ap (λ j. relocated rules context bytes j zero rest) (omega arith)
relocated_skip rules context bytes i (suc k) [] = refl
relocated_skip rules context bytes i (suc k) (b ∷ rest) =
    relocated_skip rules context bytes (i + 1) k rest
    ∙ ap (λ j. relocated rules context bytes j zero (drop k rest)) (omega arith)

module _ (rules : List Rule) (context : Context) (bytes : Bytes) where
  relocated_kept :
      (i b : ℕ) (rest : Bytes)
      → match_here rules context bytes i ≡ none
      → relocated rules context bytes i zero (b ∷ rest)
        ≡ b ∷ relocated rules context bytes (i + 1) zero rest
  unfolding relocated
  relocated_kept i b rest e = rw (relocated, e) refl

  relocated_replaced :
      (i b n : ℕ) (rest replacement : Bytes)
      → match_here rules context bytes i ≡ some (n, replacement)
      → relocated rules context bytes i zero (b ∷ rest)
        ≡ replacement ++ relocated rules context bytes (i + 1) (n - 1) rest
  unfolding relocated
  relocated_replaced i b n rest replacement e = rw (relocated, e) refl

  abbrev so_far : Rewriting → Bytes
  so_far s = or_nothing s.out ++ between s.copied s.i bytes

  -- What the rest of the loop is to give.
  abbrev result_from : Rewriting → Bytes
  result_from s = so_far s ++ relocated rules context bytes s.i zero (drop s.i bytes)

  abbrev IsOrdered : Rewriting → Type 0
  IsOrdered s = (s.copied ≤ s.i) × ((s.out ≡ none) → s.copied ≡ 0)

  passed :
      (i n : ℕ)
      → 0 < n
      → relocated rules context bytes (i + 1) (n - 1) (drop (i + 1) bytes)
        ≡ relocated rules context bytes (i + n) zero (drop (i + n) bytes)
  passed i n h =
      let there : i + 1 + (n - 1) ≡ i + n = omega (arith, h) in
      relocated_skip rules context bytes (i + 1) (n - 1) (drop (i + 1) bytes)
      ∙ ap (relocated rules context bytes (i + 1 + (n - 1)) zero)
          (drop_of_drop bytes (i + 1) (n - 1))
      ∙ ap (λ k. relocated rules context bytes k zero (drop k bytes)) there

  advance_step :
      (s : Rewriting) (o : Option (ℕ × Bytes))
      → All HasName rules
      → s.i < length bytes
      → IsOrdered s
      → match_here rules context bytes s.i ≡ o
      → IsOrdered (advance bytes s o)
        × (result_from (advance bytes s o) ≡ result_from s)
        × (s.i < (advance bytes s o).i)
  unfolding advance
  advance_step s none named h (le, clean) e =
      let (b, at) = drop-suc bytes s.i h in
      (
        (omega (arith, le), clean),
        ap
              (λ m.
                (or_nothing s.out ++ m)
                ++ relocated rules context bytes (s.i + 1) zero (drop (s.i + 1) bytes))
              (between-snoc bytes (drop (s.i + 1) bytes) s.copied s.i b le at)
            ∙ append_last (or_nothing s.out) (between s.copied s.i bytes) _ b
            ∙ ap (λ l. so_far s ++ l)
                (sym (relocated_kept s.i b (drop (s.i + 1) bytes) e)
                  ∙ ap (relocated rules context bytes s.i zero) (sym at)),
        omega arith,
      )
  advance_step s (some (n, replacement)) named h (le, clean) e =
      let (b, at) = drop-suc bytes s.i h in
      let positive = match_here-positive rules context bytes s.i n replacement named e in
      (
        (omega arith, λ x. absurd (ground (arith, x))),
        ap
              (λ m.
                ((or_nothing s.out ++ (between s.copied s.i bytes ++ replacement)) ++ m)
                ++ relocated rules context bytes (s.i + n) zero (drop (s.i + n) bytes))
              (between_same bytes (s.i + n))
            ∙ ap (λ l. l ++ relocated rules context bytes (s.i + n) zero (drop (s.i + n) bytes))
                (append-nil (or_nothing s.out ++ (between s.copied s.i bytes ++ replacement)))
            ∙ append_all (or_nothing s.out) (between s.copied s.i bytes) replacement _
            ∙ ap (λ l. so_far s ++ l)
                (ap (λ l. replacement ++ l) (sym (passed s.i n positive))
                  ∙ sym (relocated_replaced s.i b n (drop (s.i + 1) bytes) replacement e)
                  ∙ ap (relocated rules context bytes s.i zero) (sym at)),
        omega (arith, positive),
      )

  at_end :
      (s : Rewriting) → length bytes ≤ s.i → or_nothing s.out ++ drop s.copied bytes ≡ result_from s
  unfolding relocated
  at_end s h = rw (drop-all bytes s.i h) (
      ap (λ l. or_nothing s.out ++ l) (sym (between-end bytes s.copied s.i h))
      ∙ sym (append-nil (so_far s)))

  scan_gives :
      (f : ℕ) (s : Rewriting)
      → All HasName rules
      → IsOrdered s
      → length bytes ≤ f + s.i
      → (s' : Rewriting) × (scan f rules context bytes s ≡ some s')
        × IsOrdered s'
        × (or_nothing s'.out ++ drop s'.copied bytes ≡ result_from s)
  unfolding scan
  scan_gives zero s named ordered h = (s, ground (arith, h), ordered, at_end s (omega (arith, h)))
  scan_gives (suc f) s named ordered h = elim (Bool-cases (ltb s.i (length bytes))) [
    | inr over ↦ (s, rw over refl, ordered, at_end s (ground (arith, over)))
    | inl more ↦
        let o = match_here rules context bytes s.i in
        let (ordered', same, on) = advance_step s o named (ground (arith, more)) ordered refl in
        let (s', ends, kept, gives) =
          scan_gives f (advance bytes s o) named ordered' (omega (arith, h, on)) in
        (s', rw more ends, kept, gives ∙ same)
  ]

ended_at :
    (bytes : Bytes) (o : Option Bytes) (c : ℕ)
    → ((o ≡ none) → c ≡ 0)
    → rewritten_or (elim o [ none ↦ none | some out ↦ some (out ++ drop c bytes) ]) bytes
      ≡ or_nothing o ++ drop c bytes
ended_at bytes none c h = rw (h refl) refl
ended_at bytes (some out) c h = refl

finish-eq :
    (bytes : Bytes) (s : Rewriting)
    → ((s.out ≡ none) → s.copied ≡ 0)
    → rewritten_or (finish bytes s) bytes ≡ or_nothing s.out ++ drop s.copied bytes
finish-eq bytes s h = ended_at bytes s.out s.copied h

-- For rules with a package to look for, the rewriting ends and gives the text in which every name
-- that can start where it stands, and that a rule matches, is replaced, the replacement not being
-- looked at again, and every other byte is as it was; where there is no result, that is the text
-- itself.
pub rewrite-eq :
    (rules : List Rule) (bytes : Bytes) (context : Context)
    → All HasName rules
    → rewritten_or (rewrite rules bytes context) bytes ≡ relocated rules context bytes 0 zero bytes
unfolding rewrite
rewrite-eq rules bytes context named =
    let (s, ends, kept, gives) =
      scan_gives rules context bytes (length bytes) start named (omega arith, λ _. refl)
        (omega arith) in
    ap (λ o. rewritten_or (ended bytes o) bytes) ends ∙ finish-eq bytes s kept.1 ∙ gives
