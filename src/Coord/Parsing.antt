-- ===== src/Coord/Parsing.antt =====
-- Parsing and printing of coordinates undo one another.
use jrs.Prelude.{
  splitn_from, ◌≡◌, refl, ◌∙◌, arith, List, [], ◌∷◌, ◌++◌, ap, Text, Bool, true, append-nil,
  is_empty, not, ◌&&◌, Option, none, some, all, split, join, lacks, split-append_sep,
  split_of_lacks, split_parts_lack, join-split, splitn_from-append_sep, splitn_from_of_lacks,
}
use jrs.Error.{ok}
use jrs.Coord.{
  with_suffix, Ga, Coord, parse_ga, parse_coord, display_ga, display_coord, ga_of_parts,
  coord_of_parts,
}

-- A part of a coordinate: not empty, and without the separator.
abbrev pub is_part : Text → Bool
is_part p = not (is_empty p) && lacks b':' p

abbrev pub is_part_or_none : Option Text → Bool
is_part_or_none none = true
is_part_or_none (some p) = is_part p

pub record IsWellFormed (c : Coord) : Type 0 where
  pub group : is_part c.group ≡ true
  pub artifact : is_part c.artifact ≡ true
  pub version : is_part c.version ≡ true
  pub classifier : is_part_or_none c.classifier ≡ true

pub record IsWellFormedGa (g : Ga) : Type 0 where
  pub group : is_part g.group ≡ true
  pub artifact : is_part g.artifact ≡ true
  pub classifier : is_part_or_none g.classifier ≡ true

abbrev optional : Option Text → List Text
optional none = []
optional (some c) = c ∷ []

abbrev parts_of : Coord → List Text
parts_of c = c.group ∷ c.artifact ∷ c.version ∷ optional c.classifier

split_last :
    (p : Text) (c : Option Text)
    → is_part p ≡ true
    → is_part_or_none c ≡ true
    → split b':' (p ++ with_suffix c) ≡ p ∷ optional c
split_last p none hp hc = rw append-nil (split_of_lacks b':' p (ground arith))
split_last p (some c) hp hc =
    rw (split-append_sep b':' p c (ground arith), split_of_lacks b':' c (ground arith))

split-display_coord : (c : Coord) → IsWellFormed c → split b':' (display_coord c) ≡ parts_of c
unfolding display_coord
split-display_coord c w =
    let cut = split-append_sep b':' in
    rw (
      cut c.group (c.artifact ++ b':' ∷ (c.version ++ with_suffix c.classifier)) (ground arith),
      cut c.artifact (c.version ++ with_suffix c.classifier) (ground arith),
      split_last c.version c.classifier w.version w.classifier,
    )

coord_of_parts-parts_of :
    (s : Text) (c : Coord) → IsWellFormed c → coord_of_parts s (parts_of c) ≡ ok c
unfolding coord_of_parts
coord_of_parts-parts_of s c w = of_classifier c.classifier refl w.classifier
  where
    of_classifier :
        (o : Option Text)
        → c.classifier ≡ o
        → is_part_or_none o ≡ true
        → coord_of_parts s (c.group ∷ c.artifact ∷ c.version ∷ optional o)
          ≡ ok (record c { classifier = o })
    of_classifier none e h = ground (arith, w.group, w.artifact, w.version)
    of_classifier (some k) e h = ground (arith, w.group, w.artifact, w.version)

-- Every coordinate whose parts are not empty and hold no colon is read back from its display.
pub parse_coord-display_coord : (c : Coord) → IsWellFormed c → parse_coord (display_coord c) ≡ ok c
unfolding parse_coord
parse_coord-display_coord c w =
    ap (coord_of_parts (display_coord c)) (split-display_coord c w)
    ∙ coord_of_parts-parts_of (display_coord c) c w

coord_of_parts_inv :
    (s : Text) (parts : List Text) (c : Coord)
    → all (lacks b':') parts ≡ true
    → coord_of_parts s parts ≡ ok c
    → IsWellFormed c × (display_coord c ≡ join (b':' ∷ []) parts)
unfolding coord_of_parts display_coord join
coord_of_parts_inv s [] c l h = absurd (ground arith)
coord_of_parts_inv s (g ∷ []) c l h = absurd (ground arith)
coord_of_parts_inv s (g ∷ a ∷ []) c l h = absurd (ground arith)
coord_of_parts_inv s (g ∷ a ∷ v ∷ []) c l h =
    let made : Coord = record { group = g; artifact = a; version = v; classifier = none } in
    let e : made ≡ c = ground arith in rw (← e) (ground arith, rw append-nil refl)
coord_of_parts_inv s (g ∷ a ∷ v ∷ k ∷ []) c l h =
    let made : Coord = record { group = g; artifact = a; version = v; classifier = some k } in
    let e : made ≡ c = ground arith in rw (← e) (ground arith, refl)
coord_of_parts_inv s (g ∷ a ∷ v ∷ k ∷ x ∷ xs) c l h = absurd (ground arith)

-- A text that parses as a coordinate is the display of that coordinate, whose parts are not empty
-- and hold no colon: no other text is accepted.
pub parse_coord_sound :
    (s : Text) (c : Coord) → parse_coord s ≡ ok c → IsWellFormed c × (display_coord c ≡ s)
unfolding parse_coord
parse_coord_sound s c h =
    let (w, e) = coord_of_parts_inv s (split b':' s) c (split_parts_lack b':' s) h in
    (w, e ∙ join-split b':' s)

ga_of_parts_lem :
    (g a : Text) (c : Option Text)
    → is_part g ≡ true
    → is_part a ≡ true
    → is_part_or_none c ≡ true
    → ga_of_parts (g ∷ a ∷ optional c) ≡ some (record { group = g; artifact = a; classifier = c })
unfolding ga_of_parts
ga_of_parts_lem g a none hg ha hc = ground arith
ga_of_parts_lem g a (some c) hg ha hc = ground arith

splitn_from_last :
    (a : Text) (c : Option Text)
    → is_part a ≡ true
    → is_part_or_none c ≡ true
    → splitn_from 1 b':' [] (a ++ with_suffix c) ≡ a ∷ optional c
splitn_from_last a none ha hc = rw append-nil (splitn_from_of_lacks b':' 1 [] a (ground arith))
splitn_from_last a (some c) ha hc =
    splitn_from-append_sep b':' 0 [] a c (ground arith)
    ∙ ap (λ ps. a ∷ ps) (splitn_from_of_lacks b':' 0 [] c (ground arith))

-- Every `Ga` whose parts are not empty and hold no colon is read back from its display.
pub parse_ga-display_ga : (g : Ga) → IsWellFormedGa g → parse_ga (display_ga g) ≡ some g
unfolding parse_ga display_ga
parse_ga-display_ga g w =
    ap ga_of_parts (
      splitn_from-append_sep b':' 1 [] g.group (g.artifact ++ with_suffix g.classifier)
        (ground arith)
      ∙ ap (λ ps. g.group ∷ ps) (splitn_from_last g.artifact g.classifier w.artifact w.classifier))
    ∙ ga_of_parts_lem g.group g.artifact g.classifier w.group w.artifact w.classifier
