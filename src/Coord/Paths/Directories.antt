-- ===== src/Coord/Paths/Directories.antt =====
-- Every version of every artifact has a directory of its own.
use jrs.Prelude.{
  split-cons, ◌≡◌, ◌∙◌, sym, refl, ap, arith, Text, true, split, lacks, split-append_sep,
  split_of_lacks, split_parts, join-split, ◌++◌, ◌∷◌, [], List, nat_beq, append_assoc, join,
}
use jrs.Prelude.{if◌then◌else◌}
use jrs.Coord.{Coord}
use jrs.Coord.Paths.{slashed, version_dir}

split-slashed :
    (g rest : Text)
    → lacks b'/' g ≡ true
    → split b'/' (slashed g ++ b'/' ∷ rest) ≡ split b'.' g ++ split b'/' rest
split-slashed [] rest h =
    split-append_sep b'/' [] rest refl
    ∙ ap (λ l. l ++ split b'/' rest) (sym (split_of_lacks b'.' [] refl))
split-slashed (c ∷ g) rest h =
    let (p, ps, e) = split_parts b'.' g in
    let tail = split-slashed g rest (ground arith) ∙ ap (λ l. l ++ split b'/' rest) e in
    ground (
      arith,
      split-cons b'.' c g p ps e,
      split-cons b'/' (if nat_beq c b'.' then b'/' else c) (slashed g ++ b'/' ∷ rest) p
          (ps ++ split b'/' rest) tail,
    )

snoc_injective :
    (xs ys : List Text) (x y : Text) → xs ++ x ∷ [] ≡ ys ++ y ∷ [] → (xs ≡ ys) × (x ≡ y)
snoc_injective [] [] x y e = ground arith
snoc_injective [] (b ∷ []) x y e = absurd (ground arith)
snoc_injective [] (b ∷ c ∷ ys) x y e = absurd (ground arith)
snoc_injective (a ∷ []) [] x y e = absurd (ground arith)
snoc_injective (a ∷ d ∷ xs) [] x y e = absurd (ground arith)
snoc_injective (a ∷ xs) (b ∷ ys) x y e = ground (arith, snoc_injective xs ys x y)

split-version_dir :
    (c : Coord)
    → lacks b'/' c.group ≡ true
    → lacks b'/' c.artifact ≡ true
    → lacks b'/' c.version ≡ true
    → split b'/' (version_dir c) ≡ (split b'.' c.group ++ c.artifact ∷ []) ++ c.version ∷ []
unfolding version_dir
split-version_dir c h1 h2 h3 = rw (
  split-slashed c.group (c.artifact ++ b'/' ∷ c.version) h1,
  split-append_sep b'/' c.artifact c.version h2,
  split_of_lacks b'/' c.version h3,
  append_assoc,
)

-- Two coordinates whose groups, artifacts and versions hold no slash have the same directory only
-- if they agree on all three.
pub version_dir_injective :
    (c d : Coord)
    → lacks b'/' c.group ≡ true
    → lacks b'/' c.artifact ≡ true
    → lacks b'/' c.version ≡ true
    → lacks b'/' d.group ≡ true
    → lacks b'/' d.artifact ≡ true
    → lacks b'/' d.version ≡ true
    → version_dir c ≡ version_dir d
    → (c.group ≡ d.group) × (c.artifact ≡ d.artifact) × (c.version ≡ d.version)
version_dir_injective c d h1 h2 h3 k1 k2 k3 e =
    let same =
      sym (split-version_dir c h1 h2 h3) ∙ ap (split b'/') e ∙ split-version_dir d k1 k2 k3 in
    let (fronts, versions) = snoc_injective _ _ c.version d.version same in
    let (groups, artifacts) = snoc_injective _ _ c.artifact d.artifact fronts in
    (
      sym (join-split b'.' c.group) ∙ ap (join (b'.' ∷ [])) groups ∙ join-split b'.' d.group,
      artifacts,
      versions,
    )
