-- ===== src/Coord/Version/Tokens.antt =====
-- How `tokenize` cuts a version at its separators.
use jrs.Prelude.{
  to_lowercase, trim-append, trim, is_whitespace, contains, codes, nat_eq, to_ascii_lowercase,
  is_empty, ℕ, ◌≡◌, refl, ◌∙◌, arith, List, [], ◌∷◌, ◌++◌, ap, sym, Text, Bool, true, false,
  Bool-cases, inl, inr, append-nil, append_assoc, if◌then◌else◌,
}
use jrs.Coord.Version.{tokenize, Item, Scan, flush, push, scan, start, is_separator, items_of}

abbrev behind : List Item → Scan → Scan
behind front s = record s { items = front ++ s.items }

flush-behind : (front : List Item) (s : Scan) → flush (behind front s) ≡ behind front (flush s)
unfolding flush
flush-behind front s = elim (Bool-cases (is_empty s.buf)) [
  | inl e ↦ rw e
  | inr e ↦ rw (e, append_assoc front s.items)
]

push-behind :
    (front : List Item) (s : Scan) (ch : ℕ) → push (behind front s) ch ≡ behind front (push s ch)
unfolding push
push-behind front s ch = ground (arith, flush-behind front s)

scan-behind :
    (front : List Item) (s : Scan) (t : Text) → scan (behind front s) t ≡ behind front (scan s t)
unfolding scan
scan-behind front s [] = refl
scan-behind front s (ch ∷ t) = ground (
  arith,
  flush-behind front s,
  push-behind front s ch,
  scan-behind front (flush s) t,
  scan-behind front (push s ch) t,
)

scan-append : (s : Scan) (a b : Text) → scan s (a ++ b) ≡ scan (scan s a) b
unfolding scan
scan-append s [] b = refl
scan-append s (ch ∷ a) b = scan-append (if is_separator ch then flush s else push s ch) a b

-- With an empty buffer its kind does not matter.
abbrev idle : List Item → Bool → Scan
idle items d = record { items = items; buf = []; buf_is_digit = d }

flush-idle : (items : List Item) (d : Bool) → flush (idle items d) ≡ idle items d
unfolding flush
flush-idle items d = refl

push-idle :
    (items : List Item) (d : Bool) (ch : ℕ) → push (idle items d) ch ≡ push (idle items false) ch
unfolding push
push-idle items d ch = refl

scan-idle :
    (items : List Item) (d : Bool) (t : Text)
    → (flush (scan (idle items d) t)).items ≡ (flush (scan (idle items false) t)).items
unfolding scan
scan-idle items d [] = cc (flush-idle items d, flush-idle items false)
scan-idle items d (ch ∷ t) =
    ground
      (arith, flush-idle items d, flush-idle items false, push-idle items d ch, scan-idle items d t)

empty_sound : (t : Text) → is_empty t ≡ true → t ≡ []
empty_sound [] h = refl
empty_sound (c ∷ t) h = absurd (cc h)

flush_buf : (s : Scan) → flush s ≡ idle (flush s).items s.buf_is_digit
unfolding flush
flush_buf s = elim (Bool-cases (is_empty s.buf)) [
  | inl e ↦ rw e (λ i. record s { buf = empty_sound s.buf e i })
  | inr e ↦ rw e
]

scan_sep :
    (s : Scan) (sep : ℕ) (b : Text) → is_separator sep ≡ true → scan s (sep ∷ b) ≡ scan (flush s) b
unfolding scan
scan_sep s sep b h = rw h

scan_after :
    (items : List Item) (b : Text) → (flush (scan (idle items false) b)).items ≡ items ++ items_of b
unfolding items_of
scan_after items b =
    ap (λ (is : List Item). (flush (scan (idle is false) b)).items) (sym (append-nil items))
    ∙ ap (λ (t : Scan). (flush t).items) (scan-behind items start b)
    ∙ ap (λ (t : Scan). t.items) (flush-behind items (scan start b))

-- Two texts on either side of a separator are scanned apart.
items_of-append :
    (a b : Text) (sep : ℕ)
    → is_separator sep ≡ true
    → items_of (a ++ sep ∷ b) ≡ items_of a ++ items_of b
unfolding items_of
items_of-append a b sep h =
    let s = scan start a in
    let cut : scan start (a ++ sep ∷ b) ≡ scan (idle (flush s).items s.buf_is_digit) b =
      scan-append start a (sep ∷ b) ∙ scan_sep s sep b h ∙ ap (λ t. scan t b) (flush_buf s) in
    ap (λ (t : Scan). (flush t).items) cut
    ∙ scan-idle (flush s).items s.buf_is_digit b
    ∙ scan_after (flush s).items b

separators : (sep : ℕ) → contains (codes ".-_+") sep ≡ true → is_separator sep ≡ true
separators sep h = ground (arith, h)

lowercase-separated :
    (a b : Text) (sep : ℕ)
    → contains (codes ".-_+") sep ≡ true
    → to_ascii_lowercase (a ++ sep ∷ b) ≡ to_ascii_lowercase a ++ sep ∷ to_ascii_lowercase b
unfolding to_ascii_lowercase
lowercase-separated [] b sep h = ap (λ c. c ∷ to_ascii_lowercase b) (ground (arith, h))
lowercase-separated (c ∷ a) b sep h = ap (λ t. to_lowercase c ∷ t) (lowercase-separated a b sep h)

not_white : (sep : ℕ) → contains (codes ".-_+") sep ≡ true → is_whitespace sep ≡ false
unfolding is_whitespace
not_white sep h = ground (arith, h)

-- A dot, a dash, an underscore or a plus sign cuts a version in two: where neither text has white
-- space around it, the items are those of the text before the sign, and then those of the text
-- behind it, whichever of the four signs it is.
pub tokenize-append :
    (a b : Text) (sep : ℕ)
    → contains (codes ".-_+") sep ≡ true
    → trim a ≡ a
    → trim b ≡ b
    → tokenize (a ++ sep ∷ b) ≡ tokenize a ++ tokenize b
unfolding tokenize
tokenize-append a b sep h ha hb =
    ap (λ t. items_of (to_ascii_lowercase t)) (trim-append a b sep (not_white sep h) ha hb)
    ∙ ap items_of (lowercase-separated a b sep h)
    ∙ items_of-append (to_ascii_lowercase a) (to_ascii_lowercase b) sep (separators sep h)
    ∙ ap (λ t. items_of (to_ascii_lowercase t) ++ items_of (to_ascii_lowercase b)) (sym ha)
    ∙ ap (λ t. items_of (to_ascii_lowercase (trim a)) ++ items_of (to_ascii_lowercase t)) (sym hb)
