-- ===== src/Workspace/Order/Ready.antt =====
-- Where no member depends on itself through others, some member is always ready.
use jrs.Prelude.{
  ℕ, zero, suc, true, false, ◌==◌, nat_eq, some, List, ◌∷◌, [], all, length, get_or, ◌+◌, ◌≤◌, ◌<◌,
  ◌≡◌, refl, arith, All, Bool-cases, inl, inr, ◌⊎◌,
}
use jrs.Workspace.{Member, modules_of}
use jrs.Workspace.Order.{Done, ready, next_from}
use jrs.Resolve.Classpath.{Classpath}

-- Each member is ranked above what it depends on, and that is in the workspace.
abbrev pub IsRanked : List Member → (ℕ → ℕ) → Type 0
IsRanked members rank =
    (i : ℕ)
    → All (λ (e : ℕ × Classpath). (e.0 < length members) × (rank e.0 < rank i))
        (modules_of members i)

module _ (members : List Member) (rank : ℕ → ℕ) where
  waits_for :
      (finished : Done) (i : ℕ) (es : List (ℕ × Classpath))
      → All (λ (e : ℕ × Classpath). (e.0 < length members) × (rank e.0 < rank i)) es
      → (all (λ (e : ℕ × Classpath). get_or finished e.0 false) es ≡ true)
        ⊎ ((j : ℕ) × (j < length members) × (rank j < rank i) × (get_or finished j false ≡ false))
  waits_for finished i [] h = inl refl
  waits_for finished i (e ∷ es) ((bound, lower), h) =
      elim (Bool-cases (get_or finished e.0 false)) [
        | inr waiting ↦ inr (e.0, bound, lower, waiting)
        | inl finished_it ↦ elim (waits_for finished i es h) [
          | inl rest ↦ inl (rw finished_it rest)
          | inr found ↦ inr found
        ]
      ]

  pub some_ready :
      (finished : Done) (r i : ℕ)
      → IsRanked members rank
      → i < length members
      → rank i < r
      → get_or finished i false ≡ false
      → (j : ℕ) × (j < length members) × (ready members finished j ≡ true)
  some_ready finished zero i ranked bound h waiting = absurd (omega (arith, h))
  some_ready finished (suc r) i ranked bound h waiting =
      elim (waits_for finished i (modules_of members i) (ranked i)) [
        | inl met ↦ (i, bound, rw (waiting, met) refl)
        | inr (j, bound', lower, waiting') ↦
            some_ready finished r j ranked bound' (omega (arith, h, lower)) waiting'
      ]

pub next_from_finds :
    (members : List Member) (finished : Done) (from n j : ℕ)
    → from ≤ j
    → j < from + n
    → ready members finished j ≡ true
    → (k : ℕ) × (next_from members finished from n ≡ some k)
      × (k < from + n)
      × (ready members finished k ≡ true)
unfolding next_from
next_from_finds members finished from zero j a b h = absurd (omega (arith, a, b))
next_from_finds members finished from (suc n) j a b h =
    elim (Bool-cases (ready members finished from)) [
      | inl now ↦ (from, rw now refl, omega arith, now)
      | inr later ↦ elim (Bool-cases (from == j)) [
        | inl same ↦ absurd (ground (arith, later, h, same))
        | inr other ↦
            let (k, found, bound, is_ready) =
              next_from_finds members finished (from + 1) n j (ground (arith, a, other))
                (omega (arith, b)) h in
            (k, rw (later, found) refl, omega (arith, bound), is_ready)
      ]
    ]
