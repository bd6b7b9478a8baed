-- ===== src/Resolve/Classpath/Places.antt =====
-- A classpath as the set of places it stands for.
use jrs.Prelude.{inl, inr, ◌⊎◌, ◌≡◌, refl, true, false, ◌||◌, ◌&&◌, not, arith, none, some}
use jrs.Resolve.Classpath.{
  Classpath, compile, provided, runtime, test, join, compiles, runs, as_str, parse, carried,
}

-- A classpath is settled by whether it compiles and whether it runs.
pub places_injective : (a b : Classpath) → compiles a ≡ compiles b → runs a ≡ runs b → a ≡ b
unfolding compiles runs
places_injective compile b h k = ground arith
places_injective provided b h k = ground arith
places_injective runtime b h k = ground arith
places_injective test b h k = ground arith

-- The join of two classpaths has exactly the places of either.
pub join_places :
    (a b : Classpath)
    → (compiles (join a b) ≡ (compiles a || compiles b)) × (runs (join a b) ≡ (runs a || runs b))
unfolding compiles runs join
join_places compile b = (refl, refl)
join_places provided b = ground arith
join_places runtime b = ground arith
join_places test b = (refl, refl)

pub join_idem : (a : Classpath) → join a a ≡ a
unfolding join
join_idem compile = refl
join_idem _ = refl

pub join_assoc : (a b c : Classpath) → join (join a b) c ≡ join a (join b c)
join_assoc a b c =
    places_injective _ _
      (ground (
        arith,
        join_places (join a b) c,
        join_places a b,
        join_places a (join b c),
        join_places b c,
      ))
      (ground (
        arith,
        join_places (join a b) c,
        join_places a b,
        join_places a (join b c),
        join_places b c,
      ))

pub join_comm : (a b : Classpath) → join a b ≡ join b a
join_comm a b =
    places_injective _ _ (ground (arith, join_places a b, join_places b a))
      (ground (arith, join_places a b, join_places b a))

-- Every classpath is read back from the name that `jrs.lock` has for it.
pub parse-as_str : (c : Classpath) → parse (as_str c) ≡ c
unfolding parse as_str
parse-as_str compile = refl
parse-as_str _ = refl

-- A module's dependency reaches a dependent exactly where it is a compile or runtime dependency; then
-- it runs exactly where the module does, and it compiles exactly where the module does, save that a
-- runtime dependency does not compile where the module runs. Since a classpath is settled by whether
-- it compiles and whether it runs, that settles where each dependency goes.
pub carried_places :
    (via declared : Classpath)
    → ((carried via declared ≡ none) × (runs declared ≡ false))
      ⊎ ((c : Classpath) × (carried via declared ≡ some c)
          × (runs declared ≡ true)
          × (runs c ≡ runs via)
          × (compiles c ≡ (compiles via && (compiles declared || not (runs via)))))
unfolding carried runs compiles
carried_places compile compile = inr (compile, refl, refl, refl, refl)
carried_places compile runtime = inr (runtime, refl, refl, refl, refl)
carried_places provided compile = inr (provided, refl, refl, refl, refl)
carried_places provided runtime = inr (provided, refl, refl, refl, refl)
carried_places runtime compile = inr (runtime, refl, refl, refl, refl)
carried_places runtime runtime = inr (runtime, refl, refl, refl, refl)
carried_places test compile = inr (test, refl, refl, refl, refl)
carried_places test runtime = inr (test, refl, refl, refl, refl)
carried_places via provided = inl (refl, refl)
carried_places via test = inl (refl, refl)
