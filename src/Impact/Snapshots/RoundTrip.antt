-- ===== src/Impact/Snapshots/RoundTrip.antt =====
-- A snapshot is read back as it was kept.
use jrs.Prelude.{
  as_bytes, lossy, lossy-as_bytes, is_scalar, ℕ, true, false, Text, codes, ◌==◌, nat_eq, list_eq,
  some, List, ◌∷◌, [], ◌++◌, ◌^◌, ◌-◌, ◌<◌, ◌≤◌, map, all, All, split, splitn_from, starts_with,
  parse_unsigned, decimal, decimal_from, digits_value, digits_value-decimal,
  digits_value-decimal_from, decimal_digits, decimal_from-digits, decimal-cons, decimal_from-cons,
  is_ascii_digit, set_insert, set_extend, ◌≡◌, refl, ap, sym, ◌∙◌, subst, arith, append-nil,
  append_assoc, lacks, split-append_sep, split_parts, splitn_from-append_sep,
}
use jrs.Impact.{Snapshot, Entry}
use jrs.Impact.Snapshots.{
  cut_return, ended, lines, decimal_wide, entry_of, entry_with, add_pending, add_file, add_line,
  add_lines, with_settings, parse_lines, parse_snapshot, pending_line, file_line, snapshot_lines,
  unlines, render_snapshot,
}

-- No end of a line, and no carriage return at the end.
unfoldable pub IsLine : Text → Type 0
IsLine line = (lacks b'\n' line ≡ true) × (cut_return line ≡ line)

ended-split :
    (line rest : Text)
    → ended (line ∷ split b'\n' rest) ≡ cut_return line ∷ ended (split b'\n' rest)
unfolding ended
ended-split line rest = let (p, ps, e) = split_parts b'\n' rest in rw e refl

lines-unlines : (ls : List Text) → All IsLine ls → lines (unlines ls) ≡ ls
unfolding lines unlines IsLine split ended
lines-unlines [] h = refl
lines-unlines (line ∷ ls) ((lack, ends), h) =
    ap ended (split-append_sep b'\n' line (unlines ls) lack)
    ∙ (ended-split line (unlines ls)
        ∙ (ap (λ l. l ∷ lines (unlines ls)) ends ∙ ap (λ r. line ∷ r) (lines-unlines ls h)))

parse_unsigned-digit :
    (limit c : ℕ) (s : Text)
    → is_ascii_digit c ≡ true
    → parse_unsigned limit (c ∷ s) ≡ digits_value limit 0 (c ∷ s)
unfolding parse_unsigned
parse_unsigned-digit limit c [] h = refl
parse_unsigned-digit limit c (d ∷ s) h =
    let no_plus : (c == b'+') ≡ false = ground (arith, h) in rw no_plus refl

parse_unsigned-decimal :
    (limit n : ℕ) → n ≤ limit → n < 10 ^ 21 → parse_unsigned limit (decimal n) ≡ some n
parse_unsigned-decimal limit n h small =
    let (c, s, e, d) = decimal-cons n in
    subst (λ t. parse_unsigned limit t ≡ some n) (sym e)
      (parse_unsigned-digit limit c s d
        ∙ (ap (digits_value limit 0) (sym e) ∙ digits_value-decimal limit n h small))

parse_unsigned-decimal_wide :
    (limit n : ℕ) → n ≤ limit → n < 10 ^ 39 → parse_unsigned limit (decimal_wide n) ≡ some n
unfolding decimal_wide digits_value
parse_unsigned-decimal_wide limit n h small =
    let (c, s, e, d) = decimal_from-cons 38 n in
    let read =
      ap (digits_value limit 0) (sym (append-nil (decimal_from 38 n)))
      ∙ digits_value-decimal_from limit 38 n [] h small
      ∙ ground (arith, h) in
    subst (λ t. parse_unsigned limit t ≡ some n) (sym e)
      (parse_unsigned-digit limit c s d ∙ (ap (digits_value limit 0) (sym e) ∙ read))

digits-lack : (s : Text) → all is_ascii_digit s ≡ true → lacks b' ' s ≡ true
digits-lack [] h = refl
digits-lack (c ∷ s) h = ground (arith, digits-lack s (ground (arith, h)))

splitn_from-last : (s : Text) → splitn_from 0 b' ' [] s ≡ s ∷ []
unfolding splitn_from
splitn_from-last [] = refl
splitn_from-last (c ∷ s) = refl

-- Valid UTF-8: the bytes of a text of characters.
abbrev pub IsUtf8 : List ℕ → Type 0
IsUtf8 bytes = (s : Text) × (bytes ≡ as_bytes s) × (all is_scalar s ≡ true)

lossy-IsUtf8 : (bytes : List ℕ) → IsUtf8 bytes → as_bytes (lossy bytes) ≡ bytes
lossy-IsUtf8 bytes (s, e, chars) = ap as_bytes (ap lossy e ∙ lossy-as_bytes s chars) ∙ sym e

-- The numbers of a file fit, its hash has no space, and its path is valid UTF-8.
abbrev pub IsEntry : Entry → Type 0
IsEntry e = (e.size < 2 ^ 64) × (e.modified < 2 ^ 128) × (lacks b' ' e.hash ≡ true) × IsUtf8 e.path

entry_of-fields :
    (e : Entry)
    → IsEntry e
    → entry_of (decimal e.size ∷ decimal_wide e.modified ∷ e.hash ∷ lossy e.path ∷ []) ≡ some e
unfolding entry_of entry_with
entry_of-fields e (size, modified, hash, path) =
    let n =
      parse_unsigned-decimal (2 ^ 64 - 1) e.size (omega (arith, size)) (omega (arith, size)) in
    let t =
      parse_unsigned-decimal_wide (2 ^ 128 - 1) e.modified (omega (arith, modified))
        (omega (arith, modified)) in
    ap
      (λ o.
        entry_with o (parse_unsigned (2 ^ 128 - 1) (decimal_wide e.modified)) e.hash (lossy e.path))
      n
    ∙ ap (λ o. entry_with (some e.size) o e.hash (lossy e.path)) t
    ∙ ap (λ p. some (record e { path = p })) (lossy-IsUtf8 e.path path)

decimal_wide-lack : (n : ℕ) → lacks b' ' (decimal_wide n) ≡ true
unfolding decimal_wide
decimal_wide-lack n = digits-lack (decimal_from 38 n) (decimal_from-digits 38 n)

-- The fields of a file's line.
fields_text : Entry → Text
fields_text e =
    decimal e.size ++ b' ' ∷ (decimal_wide e.modified ++ b' ' ∷ (e.hash ++ b' ' ∷ lossy e.path))

splitn_from-fields :
    (e : Entry)
    → IsEntry e
    → splitn_from 3 b' ' [] (fields_text e)
      ≡ decimal e.size ∷ decimal_wide e.modified ∷ e.hash ∷ lossy e.path ∷ []
unfolding fields_text
splitn_from-fields e (size, modified, hash, path) =
    let last = splitn_from-last (lossy e.path) in
    let third =
      splitn_from-append_sep b' ' 0 [] e.hash (lossy e.path) hash ∙ ap (λ l. e.hash ∷ l) last in
    let second =
      splitn_from-append_sep b' ' 1 [] (decimal_wide e.modified) (e.hash ++ b' ' ∷ lossy e.path)
        (decimal_wide-lack e.modified)
      ∙ ap (λ l. decimal_wide e.modified ∷ l) third in
    splitn_from-append_sep b' ' 2 [] (decimal e.size)
      (decimal_wide e.modified ++ b' ' ∷ (e.hash ++ b' ' ∷ lossy e.path))
      (digits-lack (decimal e.size) (decimal_digits e.size))
    ∙ ap (λ l. decimal e.size ∷ l) second

add_line-file :
    (e : Entry) (s : Snapshot)
    → IsEntry e
    → add_line (splitn_from 1 b' ' [] (file_line e)) s ≡ add_file (some e) s
unfolding add_line file_line fields_text
add_line-file e s h =
    let cut =
      splitn_from-append_sep b' ' 0 [] (codes "file") (fields_text e) refl
      ∙ ap (λ l. codes "file" ∷ l) (splitn_from-last (fields_text e)) in
    ap (λ parts. add_line parts s) cut
    ∙ ap (λ o. add_file o s) (ap entry_of (splitn_from-fields e h) ∙ entry_of-fields e h)

add_line-pending :
    (class : Text) (s : Snapshot)
    → add_line (splitn_from 1 b' ' [] (pending_line class)) s ≡ add_pending class s
unfolding add_line pending_line
add_line-pending class s =
    ap (λ parts. add_line parts s)
      (splitn_from-append_sep b' ' 0 [] (codes "pending") class refl
        ∙ ap (λ l. codes "pending" ∷ l) (splitn_from-last class))

abbrev snapshot : Text → List Entry → List Text → Snapshot
snapshot settings files pending = record { settings = settings; files = files; pending = pending }

add_lines-files :
    (settings : Text) (before es : List Entry) (pending : List Text)
    → All IsEntry es
    → add_lines (map file_line es) (snapshot settings before pending)
      ≡ some (snapshot settings (before ++ es) pending)
unfolding add_lines add_file
add_lines-files settings before [] pending h =
    ap (λ l. some (snapshot settings l pending)) (sym (append-nil before))
add_lines-files settings before (e ∷ es) pending (first, h) =
    rw (add_lines, add_line-file e (snapshot settings before pending) first)
      (add_lines-files settings (before ++ e ∷ []) es pending h
        ∙ ap (λ l. some (snapshot settings l pending)) (append_assoc before (e ∷ []) es))

add_lines-pending :
    (settings : Text) (before : List Text) (es : List Entry) (pending : List Text)
    → All IsEntry es
    → add_lines (map pending_line pending ++ map file_line es) (snapshot settings [] before)
      ≡ some (snapshot settings es (set_extend before pending))
unfolding add_lines add_pending set_extend
add_lines-pending settings before es [] h = add_lines-files settings [] es before h
add_lines-pending settings before es (class ∷ pending) h =
    rw (add_lines, add_line-pending class (snapshot settings [] before))
      (add_lines-pending settings (set_insert class before) es pending h)

-- What the text of a snapshot can hold: the pending classes are a sorted set; the files' sizes are a
-- u64 and the times of their changes a u128, their hashes have no space and their paths are valid
-- UTF-8; and no line of the text has a line feed in it or a carriage return at its end, which rules
-- these out in the settings, the classes, the hashes and the paths.
abbrev pub IsKept : Snapshot → Type 0
IsKept s =
    (set_extend [] s.pending ≡ s.pending) × All IsEntry s.files × All IsLine (snapshot_lines s)

-- A snapshot is read back as it was, provided that its pending classes are a sorted set, every size is
-- a u64 and every time of a change a u128, no hash has a space in it, every path is valid UTF-8, and no
-- line of its text has a line feed in it or a carriage return at its end. For the paths the program
-- does not see to that.
pub parse_snapshot-render_snapshot :
    (s : Snapshot) → IsKept s → parse_snapshot (render_snapshot s) ≡ some s
unfolding parse_snapshot render_snapshot parse_lines with_settings snapshot_lines starts_with
parse_snapshot-render_snapshot s (set, entries, clean) =
    ap parse_lines (lines-unlines (snapshot_lines s) clean)
    ∙ (add_lines-pending s.settings [] s.files s.pending entries
        ∙ ap (λ p. some (snapshot s.settings s.files p)) set)
