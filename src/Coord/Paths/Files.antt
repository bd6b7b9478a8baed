-- ===== src/Coord/Paths/Files.antt =====
-- Which files of a repository two coordinates share.
use jrs.Prelude.{
  codes, starts_with, subst, refl, inl, inr, ◌⊎◌, ◌↔◌, ||-true, eq_sound, ◌==◌, list_eq, nat_eq,
  drop, append_assoc, Bool-cases, [], ◌∙◌, sym, ◌≡◌, ◌≢◌, ap, arith, Text, length, length-append,
  some, true, false, ◌++◌, ◌∷◌,
}
use jrs.Coord.{Coord, pom_coord}
use jrs.Coord.Paths.{
  Host, is_pom, main_name, file_name_as, repo_path_as, expand_classifier, is_platform_classifier,
  version_dir,
}

file_name_as_pom :
    (h : Host) (c : Coord) (ext v : Text)
    → is_pom ext ≡ true
    → file_name_as h c ext v ≡ file_name_as h (pom_coord c) ext v
unfolding file_name_as pom_coord
file_name_as_pom h c ext v e = ground arith

-- The file is the POM, or is named after it: a checksum or a signature.
abbrev pub IsAboutPom : Text → Type 0
IsAboutPom ext = (ext ≡ codes "pom") ⊎ ((rest : Text) × (ext ≡ codes "pom." ++ rest))

starts_with-append : (p s : Text) → starts_with (p ++ s) p ≡ true
unfolding starts_with
starts_with-append [] [] = refl
starts_with-append [] (c ∷ s) = refl
starts_with-append (c ∷ p) s = ground (arith, starts_with-append p s)

starts_with-split : (s p : Text) → starts_with s p ≡ true → (rest : Text) × (s ≡ p ++ rest)
unfolding starts_with
starts_with-split s [] h = (s, refl)
starts_with-split [] (c ∷ p) h = absurd (ground (arith, h))
starts_with-split (d ∷ s) (c ∷ p) h =
    let (rest, e) = starts_with-split s p (ground (arith, h)) in
    let same : d ≡ c = ground (arith, h) in
    (rest, ap (λ t. d ∷ t) e ∙ ap (λ x. x ∷ (p ++ rest)) same)

is_pom-IsAboutPom : (ext : Text) → (is_pom ext ≡ true) ↔ IsAboutPom ext
is_pom-IsAboutPom ext = (
  λ h. elim (||-true (ext == codes "pom") (starts_with ext (codes "pom.")) h) [
    | inl is ↦ inl (eq_sound ext (codes "pom") is)
    | inr starts ↦ inr (starts_with-split ext (codes "pom.") starts)
  ],
  λ about. elim about [
    | inl is ↦ subst (λ e. is_pom e ≡ true) (sym is) refl
    | inr (rest, is) ↦
        let starts = starts_with-append (codes "pom.") rest in
        subst (λ e. is_pom e ≡ true) (sym is) (ground (arith, starts))
  ],
)

pub file_name_as-ne-main :
    (h : Host) (c : Coord) (k ext v : Text)
    → c.classifier ≡ some k
    → is_pom ext ≡ false
    → file_name_as h c ext v ≢ file_name_as h (pom_coord c) ext v
unfolding file_name_as pom_coord main_name
file_name_as-ne-main h c k ext v e n same =
    let name = expand_classifier h k in
    let long : file_name_as h c ext v ≡ c.artifact ++ b'-' ∷ (v ++ b'-' ∷ (name ++ b'.' ∷ ext)) =
      rw (e, n) in
    let lengths = ap length (sym long ∙ same) in
    omega
      (arith, lengths, length-append {0} c.artifact, length-append {0} v, length-append {0} name)

append_cancel : (p s t : Text) → p ++ s ≡ p ++ t → s ≡ t
append_cancel [] s t e = e
append_cancel (x ∷ p) s t e = append_cancel p s t (ap (drop 1) e)

-- A file of a classified artifact has the path of the main artifact's exactly where it is the POM or
-- its extension starts with that of the POM and a dot; so a classified artifact has the POM of the
-- artifact it stands beside, its checksums and signatures, and no other file of it.
pub repo_path_as-pom_coord :
    (h : Host) (c : Coord) (k ext v : Text)
    → c.classifier ≡ some k
    → (repo_path_as h c ext v ≡ repo_path_as h (pom_coord c) ext v) ↔ IsAboutPom ext
unfolding repo_path_as version_dir pom_coord
repo_path_as-pom_coord h c k ext v e = (
  λ same. elim (Bool-cases (is_pom ext)) [
    | inl pom ↦ (is_pom-IsAboutPom ext).0 pom
    | inr other ↦ absurd (
        file_name_as-ne-main h c k ext v e other (
          append_cancel (version_dir c ++ b'/' ∷ []) _ _ (
            append_assoc (version_dir c) (b'/' ∷ []) (file_name_as h c ext v)
            ∙ same
            ∙ sym (append_assoc (version_dir c) (b'/' ∷ []) (file_name_as h (pom_coord c) ext v)))))
  ],
  λ about. rw (file_name_as_pom h c ext v ((is_pom-IsAboutPom ext).1 about)),
)

-- Without a placeholder in the classifier a file has one name, whatever the host.
pub file_name_as-host :
    (h g : Host) (c : Coord) (k ext v : Text)
    → c.classifier ≡ some k
    → is_platform_classifier k ≡ false
    → file_name_as h c ext v ≡ file_name_as g c ext v
unfolding file_name_as expand_classifier
file_name_as-host h g c k ext v e n = rw (e, n)
