-- ===== src/Impact/Snapshots.antt =====
-- src/compile/impact.rs: the text that a snapshot is kept as. A path is its bytes, as on Unix; in the
-- text it stands as `Path::display` writes it.
pub mod RoundTrip
use jrs.Prelude.{
  as_bytes, lossy, ℕ, zero, suc, Bool, true, false, Text, codes, ◌&&◌, ◌==◌, nat_eq, list_eq,
  Option, none, some, List, ◌∷◌, [], ◌++◌, ◌^◌, ◌-◌, map, if◌then◌else◌, split, splitn_from,
  starts_with, drop, length, is_empty, parse_unsigned, decimal, decimal_from, set_insert,
}
use jrs.Impact.{Snapshot, Entry}

abbrev pub header : Text
header = codes "jrs test impact 1"

-- A carriage return in front of the end of a line belongs to the end.
unfoldable pub cut_return : Text → Text
cut_return [] = []
cut_return (c ∷ []) = if c == b'\r' then [] else c ∷ []
cut_return (c ∷ d ∷ s) = c ∷ cut_return (d ∷ s)

ended : List Text → List Text
unfolding cut_return
ended [] = []
ended (last ∷ []) = if is_empty last then [] else last ∷ []
ended (line ∷ next ∷ rest) = cut_return line ∷ ended (next ∷ rest)

-- `text.lines()`.
unfoldable pub lines : Text → List Text
unfolding split ended
lines s = ended (split b'\n' s)

-- A u128 has at most thirty-nine digits.
unfoldable pub decimal_wide : ℕ → Text
unfolding decimal_from
decimal_wide n = decimal_from 38 n

-- `PathBuf::from` on a text keeps its bytes.
entry_with : Option ℕ → Option ℕ → Text → Text → Option Entry
unfolding as_bytes
entry_with (some size) (some modified) hash path =
    some (record { path = as_bytes path; size = size; modified = modified; hash = hash })
entry_with _ _ hash path = none

entry_of : List Text → Option Entry
unfolding entry_with parse_unsigned
entry_of (size ∷ modified ∷ hash ∷ path ∷ rest) =
    entry_with (parse_unsigned (2 ^ 64 - 1) size) (parse_unsigned (2 ^ 128 - 1) modified) hash path
entry_of _ = none

add_pending : Text → Snapshot → Option Snapshot
unfolding set_insert
add_pending class s =
    some (record { settings = s.settings; files = s.files; pending = set_insert class s.pending })

add_file : Option Entry → Snapshot → Option Snapshot
add_file none s = none
add_file (some e) s =
    some (record { settings = s.settings; files = s.files ++ e ∷ []; pending = s.pending })

-- A line, split at its first space.
add_line : List Text → Snapshot → Option Snapshot
unfolding add_pending add_file entry_of splitn_from
add_line (key ∷ rest ∷ more) s =
    if key == codes "pending"
    then add_pending rest s
    else if key == codes "file"
    then add_file (entry_of (splitn_from 3 b' ' [] rest)) s
    else none
add_line _ s = none

unfoldable pub add_lines : List Text → Snapshot → Option Snapshot
unfolding add_line splitn_from
add_lines [] s = some s
add_lines (line ∷ lines) s = elim (add_line (splitn_from 1 b' ' [] line) s) [
  | none ↦ none
  | some next ↦ add_lines lines next
]

with_settings : Text → List Text → Option Snapshot
unfolding add_lines starts_with
with_settings line rest =
    if starts_with line (codes "settings ")
    then add_lines rest
        (record { settings = drop (length (codes "settings ")) line; files = []; pending = [] })
    else none

parse_lines : List Text → Option Snapshot
unfolding with_settings
parse_lines (first ∷ settings ∷ rest) =
    if first == header then with_settings settings rest else none
parse_lines _ = none

-- `Snapshot::parse`.
unfoldable pub parse_snapshot : Text → Option Snapshot
unfolding parse_lines lines
parse_snapshot s = parse_lines (lines s)

unfoldable pub pending_line : Text → Text
pending_line class = codes "pending " ++ class

unfoldable pub file_line : Entry → Text
unfolding decimal decimal_wide lossy
file_line e =
    codes "file "
    ++ (decimal e.size
        ++ b' ' ∷ (decimal_wide e.modified ++ b' ' ∷ (e.hash ++ b' ' ∷ lossy e.path)))

unfoldable pub snapshot_lines : Snapshot → List Text
unfolding pending_line file_line
snapshot_lines s =
    header
    ∷ (codes "settings " ++ s.settings)
    ∷ (map pending_line s.pending ++ map file_line s.files)

unfoldable pub unlines : List Text → Text
unlines [] = []
unlines (line ∷ lines) = line ++ b'\n' ∷ unlines lines

-- `Snapshot::render`.
unfoldable pub render_snapshot : Snapshot → Text
unfolding snapshot_lines unlines
render_snapshot s = unlines (snapshot_lines s)
