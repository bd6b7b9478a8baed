-- ===== src/Test/Shards.antt =====
-- The machines of a sharded run together run each class once.
use jrs.Prelude.{
  ℕ, zero, suc, Text, List, ◌∷◌, [], map, length, get_or, replicate, ◌+◌, ◌-◌, ◌≤◌, ◌<◌, ◌≡◌, refl,
  ap, ◌∙◌, arith, length-replicate, Option, none, some, retain, not,
}
use jrs.Test.{
  Times, Share, sort_by, at_most, select, Shard, shares_of, deal, empty_share, lighter, smaller,
  forks_of, time_of, slower, is_measured, parse_shard, parsed, shard_of, both_numbers, split_once,
}
use jrs.Test.Shares.{occurrences, in_all, occurrences-sort_by, shares_of_partition, length-deal}

-- How often the first `k` lists have a class, read by index.
in_first : Text → List (List Text) → ℕ → ℕ
in_first c xss zero = 0
in_first c xss (suc k) = in_first c xss k + occurrences c (get_or xss k [])

in_first-nil : (c : Text) (k : ℕ) → in_first c [] k ≡ 0
unfolding in_first occurrences
in_first-nil c zero = refl
in_first-nil c (suc k) = omega (arith, in_first-nil c k)

in_first-cons :
    (c : Text) (xs : List Text) (xss : List (List Text)) (k : ℕ)
    → in_first c (xs ∷ xss) (suc k) ≡ occurrences c xs + in_first c xss k
unfolding in_first
in_first-cons c xs xss zero = omega arith
in_first-cons c xs xss (suc k) = omega (arith, in_first-cons c xs xss k)

in_first_all :
    (c : Text) (xss : List (List Text)) (k : ℕ) → length xss ≤ k → in_first c xss k ≡ in_all c xss
unfolding in_all
in_first_all c [] k h = in_first-nil c k
in_first_all c (xs ∷ xss) zero h = absurd (omega (arith, h))
in_first_all c (xs ∷ xss) (suc k) h =
    in_first-cons c xs xss k
    ∙ ap (λ n. occurrences c xs + n) (in_first_all c xss k (omega (arith, h)))

length-map-sorted :
    (shares : List Share) → length (map (λ (s : Share). sort_by at_most s.0) shares) ≡ length shares
length-map-sorted [] = refl
length-map-sorted (s ∷ ss) = ap suc (length-map-sorted ss)

length-shares_of :
    (classes : List Text) (forks : ℕ) (times : Times)
    → length (shares_of classes forks times) ≡ forks_of forks classes
unfolding shares_of
length-shares_of classes forks times =
    let first =
      deal lighter (time_of times) (replicate (forks_of forks classes) empty_share)
        (sort_by (slower times) (retain (is_measured times) classes)) in
    length-map-sorted
      (deal smaller (λ _. 0) first (retain (λ x. not (is_measured times x)) classes))
    ∙ length-deal smaller (λ _. 0) first (retain (λ x. not (is_measured times x)) classes)
    ∙ length-deal lighter (time_of times) (replicate (forks_of forks classes) empty_share)
        (sort_by (slower times) (retain (is_measured times) classes))
    ∙ length-replicate (forks_of forks classes) empty_share

-- How often the machines `1` to `k` of `count` run a class.
unfoldable pub on_machines : Text → List Text → ℕ → ℕ → ℕ
unfolding occurrences
on_machines c classes count zero = 0
on_machines c classes count (suc k) =
    on_machines c classes count k
    + occurrences c (select (record { index = suc k; count = count }) classes)

on_machines-eq :
    (c : Text) (classes : List Text) (count k : ℕ)
    → on_machines c classes count k ≡ in_first c (shares_of (sort_by at_most classes) count []) k
unfolding on_machines in_first select
on_machines-eq c classes count zero = refl
on_machines-eq c classes count (suc k) =
    let place : suc k - 1 ≡ k = omega arith in rw (place, on_machines-eq c classes count k) refl

-- The machines of a run sharded over one or more of them run each class together exactly as often
-- as the suite has it.
pub select_once :
    (classes : List Text) (count : ℕ) (c : Text)
    → 0 < count
    → on_machines c classes count count ≡ occurrences c classes
select_once classes count c h =
    let sorted = sort_by at_most classes in
    on_machines-eq c classes count count
    ∙ in_first_all c (shares_of sorted count []) count
        (omega (arith, h, length-shares_of sorted count []))
    ∙ shares_of_partition sorted count [] c
    ∙ occurrences-sort_by at_most c classes

shard_of_sound :
    (s : Text) (o : Option (ℕ × ℕ)) (shard : Shard)
    → shard_of s o ≡ parsed shard
    → (1 ≤ shard.index) × (shard.index ≤ shard.count)
unfolding shard_of
shard_of_sound s none shard h = absurd (ground (arith, h))
shard_of_sound s (some (i, n)) shard h = ground (arith, h)

-- A shard that is parsed exists: its index is between 1 and its count.
pub parse_shard_sound :
    (s : Text) (shard : Shard)
    → parse_shard s ≡ parsed shard
    → (1 ≤ shard.index) × (shard.index ≤ shard.count)
unfolding parse_shard
parse_shard_sound s shard h = shard_of_sound s (both_numbers (split_once s)) shard h
