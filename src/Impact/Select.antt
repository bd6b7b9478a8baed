-- ===== src/Impact/Select.antt =====
-- src/compile/impact.rs, `select` and `Snapshot::record`, on what a run of the file system gives.
use jrs.Prelude.{
  as_bytes, ℕ, Text, codes, not, ◌&&◌, ◌==◌, nat_eq, list_eq, Option, none, some, List, ◌∷◌, [],
  if◌then◌else◌, lookup, insert, set_extend,
}
use jrs.Error.{Result, ok, ◌>>=◌}
use jrs.Impact.{Selection, every, Entry, Snapshot, ClassInfo}
use jrs.Impact.Snapshots.{parse_snapshot, render_snapshot}
use jrs.Impact.Compare.{compare}

-- A file as the directories are walked, with its size and the time of its last change.
pub record Stat : Type 0 where
  pub path : List ℕ
  pub size : ℕ
  pub modified : ℕ

abbrev pub Known : Type 0
Known = List (List ℕ × Entry)

known_from : Known → List Entry → Known
unfolding insert
known_from known [] = known
known_from known (e ∷ es) = known_from (insert e.path e known) es

-- The entries of an earlier run, if there was one.
known_of : Option Snapshot → Known
unfolding known_from
known_of none = []
known_of (some s) = known_from [] s.files

-- The text of the state file, where it could be read.
previous_of : Option Text → Option Snapshot
unfolding parse_snapshot
previous_of none = none
previous_of (some s) = parse_snapshot s

module _ (sha256_hex : List ℕ → Text) (read : List ℕ → Result (List ℕ))
    (class_info : List ℕ → Option ClassInfo) where
  hash_from : Stat → Option Entry → Result Text
  hash_from f none = read f.path >>= λ bytes. ok (sha256_hex bytes)
  hash_from f (some e) =
      let anew = read f.path >>= λ bytes. ok (sha256_hex bytes) in
      if e.size == f.size && e.modified == f.modified then ok e.hash else anew

  entries_of : Known → List Stat → Result (List Entry)
  unfolding hash_from lookup
  entries_of known [] = ok []
  entries_of known (f ∷ fs) = hash_from f (lookup f.path known) >>= λ hash.
      entries_of known fs >>= λ entries.
      ok ((record { path = f.path; size = f.size; modified = f.modified; hash = hash }) ∷ entries)

  selection_of : Option Snapshot → Snapshot → Text → Result Selection
  unfolding compare
  selection_of none now scan_dir = ok (every (codes "there is no earlier run to compare with"))
  selection_of (some previous) now scan_dir =
      let compared = compare read class_info previous now scan_dir in
      if not (previous.settings == now.settings)
      then ok (every (codes "the test classpath or JVM settings changed"))
      else compared

  -- `select`.
  unfoldable pub select : Option Text → Text → List Stat → Text → Result (Selection × Snapshot)
  unfolding as_bytes previous_of known_of entries_of selection_of
  select state settings found scan_dir =
      let previous = previous_of state in
      entries_of (known_of previous) found >>= λ files.
      let now : Snapshot = record {
        settings = sha256_hex (as_bytes settings);
        files = files;
        pending = [];
      } in
      selection_of previous now scan_dir >>= λ selection. ok (selection, now)

-- What `Snapshot::record` writes.
unfoldable pub record_text : Snapshot → List Text → Text
unfolding render_snapshot set_extend
record_text s failed =
    render_snapshot
      (record { settings = s.settings; files = s.files; pending = set_extend [] failed })
