-- ===== src/Test.antt =====
-- src/test.rs: how the test classes are dealt out to test JVMs and to machines, and coverage
-- minimums.
pub mod Shares
pub mod Shards
pub mod Coverage
mod Examples
use jrs.Prelude.{
  ℕ, zero, suc, Text, codes, Bool, true, false, not, ◌&&◌, ◌||◌, ◌==◌, nat_eq, list_eq, Option,
  none, some, List, ◌∷◌, [], ◌++◌, map, if◌then◌else◌, length, get_or, set, replicate, retain, ◌+◌,
  ◌*◌, ◌/◌, ◌%◌, ◌^◌, ◌-◌, min, max, ltb, leb, nat_beq, lookup, contains_key, split, trim,
  parse_unsigned, get_elem?, Ordering,
}
use jrs.Coord.{compare_text}

abbrev classes_per_fork : ℕ
classes_per_fork = 8

unfoldable pub default_forks : ℕ → ℕ → ℕ
default_forks classes cores = max (min (cores / 2) (classes / classes_per_fork)) 1

abbrev pub Times : Type 0
Times = List (Text × ℕ)

abbrev pub at_most : Text → Text → Bool
at_most a b = elim (compare_text a b) [ Ordering.gt ↦ false | _ ↦ true ]

abbrev pub time_of : Times → Text → ℕ
time_of times c = elim (lookup c times) [ none ↦ 0 | some n ↦ n ]

-- `times[b].cmp(&times[a]).then(a.cmp(b))`, as whether `a` may come before `b`.
abbrev pub slower : Times → Text → Text → Bool
slower times a b =
    if time_of times a == time_of times b
    then at_most a b
    else ltb (time_of times b) (time_of times a)

-- A stable sort by an order.
pub insert_by : (Text → Text → Bool) → Text → List Text → List Text
insert_by before x [] = x ∷ []
insert_by before x (y ∷ ys) =
    let rest = insert_by before x ys in if before x y then x ∷ y ∷ ys else y ∷ rest

pub sort_by : (Text → Text → Bool) → List Text → List Text
sort_by before [] = []
sort_by before (x ∷ xs) = insert_by before x (sort_by before xs)

-- A share, with the time of its classes.
abbrev pub Share : Type 0
Share = List Text × ℕ

-- `(load[i], shares[i].len(), i)`, without the index: the earlier of two equal keys is kept.
abbrev pub lighter : Share → Share → Bool
lighter a b = ltb a.1 b.1 || (a.1 == b.1 && ltb (length a.0) (length b.0))

abbrev pub smaller : Share → Share → Bool
smaller a b = ltb (length a.0) (length b.0)

pub least_from : (Share → Share → Bool) → ℕ → ℕ → Share → List Share → ℕ
least_from less i best b [] = best
least_from less i best b (s ∷ ss) =
    let here = least_from less (i + 1) i s ss in
    let before = least_from less (i + 1) best b ss in if less s b then here else before

-- `(0..forks).min_by_key(...).unwrap_or(0)`.
pub least : (Share → Share → Bool) → List Share → ℕ
least less [] = 0
least less (s ∷ ss) = least_from less 1 0 s ss

abbrev pub empty_share : Share
empty_share = ([], 0)

-- One class more in a share, and its time, as u64 adds it.
abbrev pub give : Text → ℕ → Share → Share
give c millis s = (s.0 ++ c ∷ [], (s.1 + millis) % 2 ^ 64)

pub deal : (Share → Share → Bool) → (Text → ℕ) → List Share → List Text → List Share
deal less time shares [] = shares
deal less time shares (c ∷ cs) =
    let i = least less shares in
    deal less time (set shares i (give c (time c) (get_or shares i empty_share))) cs

abbrev pub forks_of : ℕ → List Text → ℕ
forks_of forks classes = max (min forks (length classes)) 1

abbrev pub is_measured : Times → Text → Bool
is_measured times c = contains_key c times

-- `split`.
unfoldable pub shares_of : List Text → ℕ → Times → List (List Text)
unfolding deal least least_from sort_by insert_by
shares_of classes forks times =
    let measured = sort_by (slower times) (retain (is_measured times) classes) in
    let unmeasured = retain (λ c. not (is_measured times c)) classes in
    let dealt =
      deal lighter (time_of times) (replicate (forks_of forks classes) empty_share) measured in
    map (λ (s : Share). sort_by at_most s.0) (deal smaller (λ _. 0) dealt unmeasured)

pub record Shard : Type 0 where
  pub index : ℕ
  pub count : ℕ

pub data ShardError : Type 0 where
  does_not_exist : ℕ → ℕ → ShardError
  is_not_a_shard : Text → ShardError

pub data ParsedShard : Type 0 where
  parsed : Shard → ParsedShard
  invalid : ShardError → ParsedShard

-- `s.split_once('/')`.
pub split_once : Text → Option (Text × Text)
split_once [] = none
split_once (c ∷ s) =
    let rest = split_once s in
    if c == b'/' then some ([], s) else elim rest [ none ↦ none | some (a, b) ↦ some (c ∷ a, b) ]

-- `usize` has 64 bits.
abbrev usize_max : ℕ
usize_max = 2 ^ 64 - 1

pub both_numbers : Option (Text × Text) → Option (ℕ × ℕ)
both_numbers none = none
both_numbers (some (i, n)) = elim (parse_unsigned usize_max (trim i)) [
  | none ↦ none
  | some index ↦ elim (parse_unsigned usize_max (trim n)) [
    | none ↦ none
    | some count ↦ some (index, count)
  ]
]

pub shard_of : Text → Option (ℕ × ℕ) → ParsedShard
shard_of s none = invalid (is_not_a_shard s)
shard_of s (some (index, count)) =
    if leb 1 index && leb index count
    then parsed (record { index = index; count = count })
    else invalid (does_not_exist index count)

-- `Shard::parse`.
unfoldable pub parse_shard : Text → ParsedShard
unfolding both_numbers split_once shard_of
parse_shard s = shard_of s (both_numbers (split_once s))

-- `Shard::select`.
unfoldable pub select : Shard → List Text → List Text
unfolding shares_of sort_by insert_by
select shard classes =
    get_or (shares_of (sort_by at_most classes) shard.count []) (shard.index - 1) []

unfoldable pub top_level_class : Text → Text
top_level_class c = elim (split b'$' c) [ [] ↦ c | top ∷ _ ↦ top ]
