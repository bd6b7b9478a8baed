-- ===== src/Impact/Compare/Selects.antt =====
-- What `compare` says of each file when it selects some tests only.
use jrs.Prelude.{
  sym, ℕ, Text, true, ◌==◌, nat_eq, list_eq, Option, none, some, List, ◌∷◌, [], ◌≡◌, refl, ap, ◌∙◌,
  arith, find, contains, length, lookup, Bool-cases, Option-cases, inl, inr, ◌⊎◌, eq_sound, eq_refl,
  subst, contains-set_insert, All, get_elem?, zero, suc,
}
use jrs.Error.{Result, ok, >>=-eq-ok}
use jrs.Impact.{only, Entry, Snapshot, ClassInfo, is_class, top_level, added_or_removed}
use jrs.Impact.Classes.Users.{Uses}
use jrs.Impact.Compare.{
  Changes, added, files, changes, changed_and, hashes_of, Loaded, Loading, whole, loaded, nothing,
  load, names_at, select_reached, select_loaded, compare_changed, compare, is_resource,
}
use jrs.Impact.Compare.Safe.{select_reached_sound}

Changes-cases : (c : Changes) → ((p : Text) × (c ≡ added p)) ⊎ ((ps : List Text) × (c ≡ files ps))
Changes-cases (added p) = inl (p, refl)
Changes-cases (files ps) = inr (ps, refl)

All-imply {ℓ κ ι} :
    {A : Type ℓ} {P : A → Type κ} {Q : A → Type ι} (xs : List A)
    → ((a : A) → P a → Q a)
    → All P xs
    → All Q xs
All-imply [] f h = tt
All-imply (x ∷ xs) f (p, h) = (f x p, All-imply xs f h)

-- A file that was there, as it is now or among those that changed.
abbrev Known : List (Text × Text) → List Text → Entry → Type 0
Known before changed e =
    (hash : Text) × (lookup e.path before ≡ some hash)
    × ((hash ≡ e.hash) ⊎ (contains changed e.path ≡ true))

changes-Known :
    (before : List (Text × Text)) (es : List Entry) (changed : List Text)
    → changes before es ≡ files changed
    → All (Known before changed) es
unfolding changes changed_and
changes-Known before [] changed h = tt
changes-Known before (e ∷ es) changed h = elim (Option-cases (lookup e.path before)) [
  | inl new ↦ absurd (ground (arith, (rw (changes, new) at h)))
  | inr (hash, found) ↦ elim (Bool-cases (hash == e.hash)) [
    | inl same ↦ (
      (hash, found, inl (eq_sound hash e.hash same)),
      changes-Known before es changed (rw (changes, found, same) at h),
    )
    | inr differs ↦ elim (Changes-cases (changes before es)) [
      | inl (p, rest) ↦ absurd (ground (arith, (rw (changes, found, differs, rest) at h)))
      | inr (ps, rest) ↦
          let all_of : (e.path ∷ ps) ≡ changed =
            ground (arith, (rw (changes, found, differs, rest) at h)) in
          subst (λ l. Known before l e × All (Known before l) es) all_of
            (
              (hash, found, inr (ground (arith, eq_refl e.path))),
              All-imply es
                  (λ d (k : Known before ps d).
                    (k.0, k.1, elim k.2 [ inl same ↦ inl same | inr m ↦ inr (ground (arith, m)) ]))
                  (changes-Known before es ps rest),
            )
    ]
  ]
]

find-none :
    (ps : List Text) (p : Text)
    → find is_resource ps ≡ none
    → contains ps p ≡ true
    → is_class p ≡ true
unfolding is_resource
find-none [] p h m = absurd (ground (arith, m))
find-none (q ∷ ps) p h m = elim (Bool-cases (is_class q)) [
  | inr resource ↦ absurd (ground (arith, (rw resource at h)))
  | inl class ↦ elim (Bool-cases (q == p)) [
    | inl same ↦ subst (λ r. is_class r ≡ true) (eq_sound q p same) class
    | inr other ↦ find-none ps p (rw class at h) (ground (arith, m, other))
  ]
]

names_at_complete :
    (by_path : List (Text × Text)) (ps : List Text) (p c : Text)
    → contains ps p ≡ true
    → lookup p by_path ≡ some c
    → contains (names_at by_path ps) c ≡ true
unfolding names_at
names_at_complete by_path [] p c m found = absurd (ground (arith, m))
names_at_complete by_path (q ∷ ps) p c m found = elim (Bool-cases (q == p)) [
  | inl same ↦
      let its : lookup q by_path ≡ some c =
        ap (λ k. lookup k by_path) (eq_sound q p same) ∙ found in
      rw (names_at, its) (ground (arith, eq_refl c, contains-set_insert c c (names_at by_path ps)))
  | inr other ↦
      let later : contains (names_at by_path ps) c ≡ true =
        names_at_complete by_path ps p c (ground (arith, m, other)) found in
      elim (Option-cases (lookup q by_path)) [
        | inl no_class ↦ rw (names_at, no_class) later
        | inr (name, its) ↦
            rw (names_at, its)
              (ground (arith, later, contains-set_insert name c (names_at by_path ps)))
      ]
]

Loading-cases : (o : Loading) → ((why : Text) × (o ≡ whole why)) ⊎ ((l : Loaded) × (o ≡ loaded l))
Loading-cases (whole why) = inl (why, refl)
Loading-cases (loaded l) = inr (l, refl)

some_same {ℓ} : {A : Type ℓ} (x a : A) → some x ≡ some a → x ≡ a
some_same x a e = cc

All-get {ℓ κ} :
    {A : Type ℓ} (P : A → Type κ) (xs : List A) (i : ℕ) (a : A)
    → All P xs
    → get_elem? xs i ≡ some a
    → P a
All-get P [] i a h e = absurd (ground (arith, e))
All-get P (x ∷ xs) zero a (p, h) e = subst P (some_same x a e) p
All-get P (x ∷ xs) (suc i) a (p, h) e = All-get P xs i a h e

loaded_same : (k l : Loaded) → (ok (loaded k) ≡ ok (loaded l)) → k ≡ l
loaded_same k l e = ground (arith, e)

-- A file that was there, and is as it was or is a class whose users among the tests are selected.
abbrev IsExplained : List (Text × Text) → List Text → Loaded → Entry → Type 0
IsExplained before sel l e =
    (hash : Text) × (lookup e.path before ≡ some hash)
    × ((hash ≡ e.hash)
        ⊎ ((is_class e.path ≡ true)
            × ((c t : Text)
                → lookup e.path l.by_path ≡ some c
                → contains l.tests t ≡ true
                → Uses l.classes c t
                → contains sel (top_level t) ≡ true)))

module _ (read : Text → Result (List ℕ)) (class_info : List ℕ → Option ClassInfo) where
  -- What a result that selects some tests only rests on.
  compare_changed_only :
      (previous now : Snapshot) (scan_dir : Text) (c : Changes) (sel : List Text)
      → compare_changed read class_info previous now scan_dir c ≡ ok (only sel)
      → (changed : List Text) × (l : Loaded) × (c ≡ files changed)
        × (length (hashes_of previous.files) ≡ length now.files)
        × (find is_resource changed ≡ none)
        × (load read class_info scan_dir now.files nothing ≡ ok (loaded l))
        × (select_reached l changed previous.pending ≡ only sel)
  unfolding compare_changed added_or_removed select_loaded
  compare_changed_only previous now scan_dir (added p) sel h = elim (Bool-cases (is_class p)) [
    | inl class ↦ absurd (ground (arith, (rw class at h)))
    | inr resource ↦ absurd (ground (arith, (rw resource at h)))
  ]
  compare_changed_only previous now scan_dir (files changed) sel h =
      let before = hashes_of previous.files in
      elim (Bool-cases (length before == length now.files)) [
        | inr removed ↦ absurd (ground (arith, (rw removed at h)))
        | inl all_there ↦ elim (Option-cases (find is_resource changed)) [
          | inr (p, resource) ↦ absurd (ground (arith, (rw (all_there, resource) at h)))
          | inl classes ↦
              let (loading, read_all, then_ok) =
                >>=-eq-ok (load read class_info scan_dir now.files nothing)
                  (λ loading. ok (select_loaded changed previous.pending loading))
                  (rw (all_there, classes) at h) in
              elim (Loading-cases loading) [
                | inl (why, e) ↦ absurd (ground (arith, (rw e at then_ok)))
                | inr (l, e) ↦ (
                  changed,
                  l,
                  refl,
                  ground (arith, all_there),
                  classes,
                  read_all ∙ ap ok e,
                  ground (arith, (rw e at then_ok)),
                )
              ]
        ]
      ]

  -- What `compare` says of each file.
  compare_knows :
      (previous now : Snapshot) (scan_dir : Text) (sel : List Text)
      → compare read class_info previous now scan_dir ≡ ok (only sel)
      → (length (hashes_of previous.files) ≡ length now.files)
        × (l : Loaded) × (load read class_info scan_dir now.files nothing ≡ ok (loaded l))
        × All (IsExplained (hashes_of previous.files) sel l) now.files
  unfolding compare
  compare_knows previous now scan_dir sel h =
      let before = hashes_of previous.files in
      let (changed, l, are, as_many, classes, read_all, reached_sel) =
        compare_changed_only previous now scan_dir (changes before now.files) sel h in
      (
        as_many,
        l,
        read_all,
        All-imply now.files
            (λ e (k : Known before changed e). (
              k.0,
              k.1,
              elim k.2 [
                | inl same ↦ inl same
                | inr m ↦ inr (
                  find-none changed e.path classes m,
                  λ c t at test uses.
                      select_reached_sound l changed previous.pending sel c t reached_sel
                        (names_at_complete l.by_path changed e.path c m at) test uses,
                )
              ],
            ))
            (changes-Known before now.files changed are),
      )

  -- When only some test classes are selected, there are as many files as there were, and each file
  -- there is now was there too, with the same hash unless it is a class file.
  pub compare_files :
      (previous now : Snapshot) (scan_dir : Text) (sel : List Text) (i : ℕ) (e : Entry)
      → compare read class_info previous now scan_dir ≡ ok (only sel)
      → get_elem? now.files i ≡ some e
      → (length (hashes_of previous.files) ≡ length now.files)
        × (hash : Text) × (lookup e.path (hashes_of previous.files) ≡ some hash)
        × ((hash ≡ e.hash) ⊎ (is_class e.path ≡ true))
  compare_files previous now scan_dir sel i e h at =
      let (as_many, l, read_all, each) = compare_knows previous now scan_dir sel h in
      let (hash, there_before, how) =
        All-get (IsExplained (hashes_of previous.files) sel l) now.files i e each at in
      (
        as_many,
        hash,
        there_before,
        elim how [ inl same ↦ inl same | inr (class, uses) ↦ inr class ],
      )

  -- When only some test classes are selected, of all test classes that use the class of a file,
  -- directly or through other classes of the project, each has its top-level class selected, unless
  -- the file has the hash that it had.
  pub compare_selects :
      (previous now : Snapshot) (scan_dir : Text) (sel : List Text) (l : Loaded) (i : ℕ) (e : Entry)
      (c t : Text)
      → compare read class_info previous now scan_dir ≡ ok (only sel)
      → load read class_info scan_dir now.files nothing ≡ ok (loaded l)
      → get_elem? now.files i ≡ some e
      → lookup e.path l.by_path ≡ some c
      → contains l.tests t ≡ true
      → Uses l.classes c t
      → (lookup e.path (hashes_of previous.files) ≡ some e.hash)
        ⊎ (contains sel (top_level t) ≡ true)
  compare_selects previous now scan_dir sel l i e c t h read_all at its test uses =
      let (as_many, k, read_too, each) = compare_knows previous now scan_dir sel h in
      let same : k ≡ l = loaded_same k l (sym read_too ∙ read_all) in
      let (hash, there_before, how) =
        All-get (IsExplained (hashes_of previous.files) sel k) now.files i e each at in
      elim how [
        | inl unchanged ↦ inl (there_before ∙ ap some unchanged)
        | inr (class, users) ↦ inr (
            users c t (ap (λ x. lookup e.path x.by_path) same ∙ its)
              (ap (λ x. contains x.tests t) same ∙ test)
              (subst (λ x. Uses x.classes c t) (sym same) uses))
      ]
