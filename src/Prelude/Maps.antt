-- ===== src/Prelude/Maps.antt =====
-- A map as a list of entries with distinct keys, in the order in which the keys came in.
use mathlib.Core.Path.{◌≡◌, refl}
use mathlib.Core.Bool.{Bool, true, false}
use mathlib.Core.List.{List, [], ◌∷◌}
use mathlib.Core.Option
use mathlib.Core.Option.{Option, none, some}
use native.Mathlib.Omega.{arith}
use jrs.Prelude.Tests.{if◌then◌else◌}
use jrs.Prelude.Lists.{length}
use jrs.Prelude.Equality.{Eq, ◌==◌}

module _ {ℓ κ} {K : Type ℓ} {V : Type κ} ⦃e : Eq K⦄ where
  unfoldable pub lookup : K → List (K × V) → Option V
  lookup key [] = none
  lookup key ((known, value) ∷ entries) = if known == key then some value else lookup key entries

  -- `insert`: the old value is replaced.
  unfoldable pub insert : K → V → List (K × V) → List (K × V)
  insert key new [] = (key, new) ∷ []
  insert key new ((known, value) ∷ entries) =
      if known == key then (known, new) ∷ entries else (known, value) ∷ insert key new entries

  -- `get_mut`: a change of the value, where there is one.
  unfoldable pub modify : K → (V → V) → List (K × V) → List (K × V)
  modify k f [] = []
  modify k f ((j, w) ∷ m) = if j == k then (j, f w) ∷ m else (j, w) ∷ modify k f m

  abbrev pub contains_key : K → List (K × V) → Bool
  contains_key k m = elim (lookup k m) [ none ↦ false | some _ ↦ true ]

  -- `entry(k).or_insert(v)`.
  abbrev pub insert_new : K → V → List (K × V) → List (K × V)
  insert_new k v m = if contains_key k m then m else insert k v m

  pub lookup-insert :
      (at key : K) (new : V) (entries : List (K × V))
      → lookup at (insert key new entries) ≡ (if key == at then some new else lookup at entries)
  unfolding insert lookup
  lookup-insert at key new [] = refl
  lookup-insert at key new ((known, value) ∷ entries) =
      let later = lookup-insert at key new entries in
      ground (arith, e.beq_iff known key, e.beq_iff known at, e.beq_iff key at, later)

  pub lookup-modify :
      (j k : K) (f : V → V) (m : List (K × V))
      → lookup j (modify k f m) ≡ (if k == j then Option.map f (lookup j m) else lookup j m)
  unfolding lookup modify
  lookup-modify j k f [] = ground arith
  lookup-modify j k f ((i, w) ∷ m) =
      ground (arith, e.beq_iff i k, e.beq_iff i j, e.beq_iff k j, lookup-modify j k f m)

  pub length-modify : (k : K) (f : V → V) (m : List (K × V)) → length (modify k f m) ≡ length m
  unfolding modify
  length-modify k f [] = refl
  length-modify k f ((i, w) ∷ m) = ground (arith, length-modify k f m)
