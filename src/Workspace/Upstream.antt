-- ===== src/Workspace/Upstream.antt =====
-- The search of `with_upstream` ends.
pub mod Closed
use jrs.Prelude.{
  ℕ, zero, suc, Bool, true, false, not, ◌&&◌, ◌||◌, ◌==◌, nat_eq, Option, none, some, List, ◌∷◌, [],
  ◌++◌, any, if◌then◌else◌, length, contains, ◌+◌, ◌≤◌, ◌<◌, ◌≡◌, refl, ap, sym, ◌∙◌, arith, All,
  Bool-cases, inl, inr, ◌⊎◌, any-append, length-append,
}
use jrs.Workspace.{Member, modules_of, want, reach}
use jrs.Resolve.Classpath.{Classpath}

-- How many of the first `n` members are not wanted.
unfoldable pub missing : ℕ → List ℕ → ℕ
missing zero wanted = 0
missing (suc n) wanted = (if contains wanted n then 0 else 1) + missing n wanted

missing_above : (n up : ℕ) (wanted : List ℕ) → n ≤ up → missing n (up ∷ wanted) ≡ missing n wanted
unfolding missing
missing_above zero up wanted h = refl
missing_above (suc n) up wanted h = ground (arith, h, missing_above n up wanted (omega (arith, h)))

missing-new :
    (n up : ℕ) (wanted : List ℕ)
    → up < n
    → contains wanted up ≡ false
    → suc (missing n (up ∷ wanted)) ≡ missing n wanted
unfolding missing
missing-new zero up wanted h new = absurd (omega (arith, h))
missing-new (suc n) up wanted h new = elim (Bool-cases (up == n)) [
  | inl last ↦
      let same : up ≡ n = ground (arith, last) in
      let fresh : contains wanted n ≡ false = ap (contains wanted) (sym same) ∙ new in
      rw (last, fresh) (omega (arith, missing_above n up wanted (omega (arith, same))))
  | inr earlier ↦
      let lower : up < n = ground (arith, h, earlier) in
      rw earlier (omega (arith, missing-new n up wanted lower new))
]

abbrev pub Modules : Type 0
Modules = List (ℕ × Classpath)

want_counts :
    (n : ℕ) (s : List ℕ × List ℕ) (es : Modules)
    → All (λ (e : ℕ × Classpath). e.0 < n) es
    → missing n (want s es).0 + length (want s es).1 ≡ missing n s.0 + length s.1
unfolding want
want_counts n s [] inside = refl
want_counts n (wanted, queue) ((up, c) ∷ es) (bound, inside) =
    elim (Bool-cases (contains wanted up)) [
      | inl old ↦ rw old (want_counts n (wanted, queue) es inside)
      | inr new ↦ rw new (
          want_counts n (up ∷ wanted, queue ++ up ∷ []) es inside
          ∙ omega (arith, missing-new n up wanted bound new, length-append queue (up ∷ [])))
    ]

-- Every module of every member is a member.
abbrev pub IsInside : List Member → Type 0
IsInside members =
    (i : ℕ) → All (λ (e : ℕ × Classpath). e.0 < length members) (modules_of members i)

pub reach_ends :
    (f : ℕ) (members : List Member) (wanted queue : List ℕ)
    → IsInside members
    → missing (length members) wanted + length queue ≤ f
    → (found : List ℕ) × (reach f members wanted queue ≡ some found)
unfolding reach
reach_ends f members wanted [] inside h = (wanted, refl)
reach_ends zero members wanted (i ∷ queue) inside h = absurd (omega (arith, h))
reach_ends (suc f) members wanted (i ∷ queue) inside h =
    let (w, q) = want (wanted, queue) (modules_of members i) in
    reach_ends f members w q inside (
      omega
        (arith, h, want_counts (length members) (wanted, queue) (modules_of members i) (inside i)))

pub missing_bound : (n : ℕ) (wanted : List ℕ) → missing n wanted ≤ n
unfolding missing
missing_bound zero wanted = omega arith
missing_bound (suc n) wanted = ground (arith, missing_bound n wanted)
