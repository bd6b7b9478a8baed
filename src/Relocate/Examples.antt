-- ===== src/Relocate/Examples.antt =====
-- Runs of package relocation (src/relocate.rs).
use jrs.Prelude.{zero, codes, some, List, ◌∷◌, [], ◌++◌, ◌≡◌, refl, arith, starts_with}
use jrs.Relocate.{Exclude, Bytes, Rule, constant, can_start, excludes, name_at}
use jrs.Relocate.Rewrite.{
  rewrite, rewritten_or, scan, match_at, match_here, match_form, advance, entry_name,
}
use jrs.Relocate.Rewrite.Bytewise.{relocated, rewrite-eq}
use jrs.Relocate.ClassFile.{
  class_file, done, pool, slot, entry_at, utf8, utf8_with, size_of, u16_at, finish,
}

abbrev guava : List Rule
guava =
    record {
      from = (codes "com/google", codes "com.google");
      to = (codes "com/google/shaded", codes "com.google.shaded");
      exclude = Exclude.class_named (codes "com.google.Kept") ∷ [];
    }
    ∷ []

descriptor :
    rewrite guava (codes "(ILcom/google/A;Lcom/google/Kept$B;)V") constant
    ≡ some (codes "(ILcom/google/shaded/A;Lcom/google/Kept$B;)V")
unfolding rewrite scan advance match_here match_at match_form can_start excludes name_at starts_with
descriptor = refl

rewrite-eq_example :
    rewritten_or (rewrite guava (codes "Lcom/google/A;") constant) (codes "Lcom/google/A;")
    ≡ relocated guava constant (codes "Lcom/google/A;") 0 zero (codes "Lcom/google/A;")
rewrite-eq_example =
    rewrite-eq guava (codes "Lcom/google/A;") constant ((omega arith, omega arith), tt)

moved_entry :
    entry_name guava (codes "META-INF/versions/9/com/google/A.class")
    ≡ codes "META-INF/versions/9/com/google/shaded/A.class"
unfolding entry_name rewrite scan advance match_here match_at match_form can_start excludes name_at
    starts_with
moved_entry = refl

-- A pool of a Long, whose second slot is passed over, and of a text.
abbrev small_class : Bytes
small_class =
    0xCA
    ∷ 0xFE
    ∷ 0xBA
    ∷ 0xBE
    ∷ 0
    ∷ 0
    ∷ 0
    ∷ 65
    ∷ 0
    ∷ 4
    ∷ 5
    ∷ 0
    ∷ 0
    ∷ 0
    ∷ 0
    ∷ 0
    ∷ 0
    ∷ 0
    ∷ 1
    ∷ 1
    ∷ 0
    ∷ 12
    ∷ (codes "com/google/A" ++ 7 ∷ 7 ∷ [])

relocated_class :
    class_file guava small_class
    ≡ done (
        0xCA
        ∷ 0xFE
        ∷ 0xBA
        ∷ 0xBE
        ∷ 0
        ∷ 0
        ∷ 0
        ∷ 65
        ∷ 0
        ∷ 4
        ∷ 5
        ∷ 0
        ∷ 0
        ∷ 0
        ∷ 0
        ∷ 0
        ∷ 0
        ∷ 0
        ∷ 1
        ∷ 1
        ∷ 0
        ∷ 19
        ∷ (codes "com/google/shaded/A" ++ 7 ∷ 7 ∷ []))
unfolding class_file pool slot entry_at utf8 utf8_with size_of u16_at finish rewrite scan advance
    match_here match_at match_form can_start excludes name_at starts_with
relocated_class = refl
