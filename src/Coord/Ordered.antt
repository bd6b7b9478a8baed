-- ===== src/Coord/Ordered.antt =====
-- `Ord for Coord`.
use jrs.Prelude.{
  ◌≡◌, ◌↔◌, ◌∙◌, arith, Text, Ordering, IsOrd, then_with, reversed, compare-IsOrd,
  compare_list-IsOrd, compare_option, compare_option-IsOrd, [], ◌∷◌, ◌++◌,
}
use jrs.Coord.{Coord, compare_coord, compare_text}
use jrs.Coord.Version.{num, qualifier, tokenize, compare_qualifiers, compare_versions}
use jrs.Coord.Version.Comparing.{
  compare_versions_antisymmetric, compare_versions_cycle, compare_versions_reflexive,
}

pub compare_text-IsOrd : IsOrd compare_text
compare_text-IsOrd = compare_list-IsOrd compare-IsOrd

classifiers : IsOrd (compare_option compare_text)
classifiers = compare_option-IsOrd compare_text-IsOrd

coord_reflexive : (a : Coord) → compare_coord a a ≡ Ordering.eq
unfolding compare_coord
coord_reflexive a = ground (
  arith,
  compare_text-IsOrd.reflexive a.group,
  compare_text-IsOrd.reflexive a.artifact,
  classifiers.reflexive a.classifier,
  compare_versions_reflexive a.version,
  compare_text-IsOrd.reflexive a.version,
)

coord_sound : (a b : Coord) → compare_coord a b ≡ Ordering.eq → a ≡ b
unfolding compare_coord
coord_sound a b h = ground (
  arith,
  compare_text-IsOrd.sound a.group b.group,
  compare_text-IsOrd.sound a.artifact b.artifact,
  classifiers.sound a.classifier b.classifier,
  compare_text-IsOrd.sound a.version b.version,
)

coord_antisymmetric : (a b : Coord) → compare_coord b a ≡ reversed (compare_coord a b)
unfolding compare_coord
coord_antisymmetric a b = ground (
  arith,
  compare_text-IsOrd.antisymmetric a.group b.group,
  compare_text-IsOrd.antisymmetric a.artifact b.artifact,
  classifiers.antisymmetric a.classifier b.classifier,
  compare_versions_antisymmetric a.version b.version,
  compare_text-IsOrd.antisymmetric a.version b.version,
)

-- Two coordinates compare equal exactly when they are the same coordinate, also where their
-- versions compare equal, and comparing the other way round gives the reversed answer.
pub compare_coord_laws :
    (a b : Coord)
    → ((compare_coord a b ≡ Ordering.eq) ↔ (a ≡ b))
      × (compare_coord b a ≡ reversed (compare_coord a b))
compare_coord_laws a b = ((coord_sound a b, λ e. rw e (coord_reflexive b)), coord_antisymmetric a b)

abbrev pub at_version : Coord → Text → Coord
at_version c v = record c { version = v }

version_first :
    (c : Coord) (v w : Text)
    → compare_coord (at_version c v) (at_version c w)
      ≡ then_with (compare_versions v w) (compare_text v w)
unfolding compare_coord
version_first c v w = ground (
  arith,
  compare_text-IsOrd.reflexive c.group,
  compare_text-IsOrd.reflexive c.artifact,
  classifiers.reflexive c.classifier,
)

-- For every artifact the order of its coordinates has cycles: `u` is below `v`, `v` below `w` and
-- `w` below `u`, where the items of `v` are those of `u` and one more qualifier newer than a
-- release, those of `w` are those of `u` and one more zero, and the text of `w` sorts before that
-- of `u`.
pub compare_coord_cycle :
    (c : Coord) (u v w q : Text)
    → tokenize v ≡ tokenize u ++ qualifier q ∷ []
    → tokenize w ≡ tokenize u ++ num 0 ∷ []
    → compare_qualifiers [] q ≡ Ordering.lt
    → compare_text w u ≡ Ordering.lt
    → (compare_coord (at_version c u) (at_version c v) ≡ Ordering.lt)
      × (compare_coord (at_version c v) (at_version c w) ≡ Ordering.lt)
      × (compare_coord (at_version c w) (at_version c u) ≡ Ordering.lt)
compare_coord_cycle c u v w q at_v at_w newer below =
    let (first, second, third) = compare_versions_cycle u v w q at_v at_w newer in
    (
      version_first c u v ∙ rw first,
      version_first c v w ∙ rw second,
      version_first c w u ∙ rw third below,
    )
