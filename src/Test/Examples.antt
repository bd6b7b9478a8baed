-- ===== src/Test/Examples.antt =====
-- Runs of sharing test classes out (src/test.rs).
use jrs.Prelude.{
  codes, List, ◌∷◌, [], ◌≡◌, refl, arith, lookup, trim, parse_unsigned, ◌≤◌, Text, split,
}
use jrs.Test.{Times, shares_of, parse_shard, parsed, Shard, select, default_forks, top_level_class}
use jrs.Test.Coverage.{percent}
use jrs.Test.Shares.{occurrences, in_all, shares_of_partition}
use jrs.Test.Shards.{on_machines, select_once, parse_shard_sound}

abbrev suite : List Text
suite = codes "A" ∷ codes "B" ∷ codes "C" ∷ codes "D" ∷ []

abbrev times : Times
times = (codes "A", 10) ∷ (codes "C", 30) ∷ (codes "B", 15) ∷ []

dealt : shares_of suite 2 times ≡ (codes "C" ∷ codes "D" ∷ []) ∷ (codes "A" ∷ codes "B" ∷ []) ∷ []
unfolding shares_of lookup
dealt = refl

second_half : select (record { index = 2; count = 2 }) suite ≡ codes "B" ∷ codes "D" ∷ []
unfolding select shares_of lookup
second_half = refl

forks : default_forks 40 16 ≡ 5
unfolding default_forks
forks = refl

outer_class : top_level_class (codes "a.B$C") ≡ codes "a.B"
unfolding top_level_class split
outer_class = refl

abbrev two_of_four : Shard
two_of_four = record { index = 2; count = 4 }

reads_shard : parse_shard (codes "2 / 4") ≡ parsed two_of_four
unfolding parse_shard trim parse_unsigned
reads_shard = refl

parse_shard_sound_example : (1 ≤ two_of_four.index) × (two_of_four.index ≤ two_of_four.count)
parse_shard_sound_example = parse_shard_sound (codes "2 / 4") two_of_four reads_shard

shares_of_partition_example :
    in_all (codes "B") (shares_of suite 2 times) ≡ occurrences (codes "B") suite
shares_of_partition_example = shares_of_partition suite 2 times (codes "B")

select_once_example : on_machines (codes "B") suite 3 3 ≡ occurrences (codes "B") suite
select_once_example = select_once suite 3 (codes "B") (omega arith)

percents : percent 8000 ≡ codes "80%"
unfolding percent
percents = refl

two_digits : percent 7203 ≡ codes "72.03%"
unfolding percent
two_digits = refl
