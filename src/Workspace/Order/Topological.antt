-- ===== src/Workspace/Order/Topological.antt =====
-- The order of Kahn's algorithm.
use jrs.Prelude.{
  subst, ℕ, zero, suc, true, false, nat_eq, List, ◌∷◌, [], all, if◌then◌else◌, length, get_or, set,
  replicate, ◌+◌, ◌<◌, ◌≡◌, refl, ap, sym, ◌∙◌, arith, length-set, length-replicate,
}
use jrs.Workspace.{Member, modules_of}
use jrs.Workspace.Order.{Done, next_from, or_first, kahn, order_of}
use jrs.Workspace.Order.Ready.{IsRanked, some_ready, next_from_finds}
use jrs.Resolve.Classpath.{Classpath}

-- How many members are not done.
left_of : Done → ℕ
left_of [] = 0
left_of (b ∷ bs) = (if b then 0 else 1) + left_of bs

left_of-set :
    (finished : Done) (i : ℕ)
    → i < length finished
    → get_or finished i false ≡ false
    → suc (left_of (set finished i true)) ≡ left_of finished
unfolding left_of
left_of-set [] i h e = absurd (omega (arith, h))
left_of-set (b ∷ bs) zero h e = ground (arith, e)
left_of-set (b ∷ bs) (suc i) h e = omega (arith, left_of-set bs i (omega (arith, h)) e)

some_left :
    (finished : Done)
    → 0 < left_of finished
    → (i : ℕ) × (i < length finished) × (get_or finished i false ≡ false)
unfolding left_of
some_left [] h = absurd (omega (arith, h))
some_left (false ∷ bs) h = (0, omega arith, refl)
some_left (true ∷ bs) h =
    let (i, bound, e) = some_left bs (omega (arith, h)) in (suc i, omega (arith, bound), e)

left_of-replicate : (n : ℕ) → left_of (replicate n false) ≡ n
unfolding left_of
left_of-replicate zero = refl
left_of-replicate (suc n) = omega (arith, left_of-replicate n)

-- An order in which each member is there once, behind all that it depends on; `finished` says what
-- comes before.
abbrev pub IsBuildOrder : List Member → Done → List ℕ → Type 0
IsBuildOrder members finished [] = Unit
IsBuildOrder members finished (i ∷ rest) =
    (i < length members)
    × (get_or finished i false ≡ false)
    × (all (λ (e : ℕ × Classpath). get_or finished e.0 false) (modules_of members i) ≡ true)
    × IsBuildOrder members (set finished i true) rest

kahn-IsBuildOrder :
    (members : List Member) (rank : ℕ → ℕ) (left : ℕ) (finished : Done)
    → IsRanked members rank
    → length finished ≡ length members
    → left_of finished ≡ left
    → IsBuildOrder members finished (kahn left members finished)
unfolding kahn
kahn-IsBuildOrder members rank zero finished ranked size e = tt
kahn-IsBuildOrder members rank (suc left) finished ranked size e =
    let (i, bound, waiting) = some_left finished (omega (arith, e)) in
    let (j, bound', now) =
      some_ready members rank finished (suc (rank i)) i ranked (omega (arith, bound, size))
        (omega arith) waiting in
    let (k, found, less, is_ready) =
      next_from_finds members finished 0 (length members) j (omega arith) (omega (arith, bound'))
        now in
    let inside : k < length members = omega (arith, less) in
    let new : get_or finished k false ≡ false = ground (arith, is_ready) in
    let next = or_first (next_from members finished 0 (length members)) in
    let is_next : k ≡ next = sym (ap or_first found) in
    subst (λ n. IsBuildOrder members finished (n ∷ kahn left members (set finished n true))) is_next
      (
        inside,
        new,
        ground (arith, is_ready),
        kahn-IsBuildOrder members rank left (set finished k true) ranked
            (length-set finished k true ∙ size)
            (omega (arith, e, left_of-set finished k (omega (arith, inside, size)) new)),
      )

length-kahn :
    (members : List Member) (left : ℕ) (finished : Done)
    → length (kahn left members finished) ≡ left
unfolding kahn
length-kahn members zero finished = refl
length-kahn members (suc left) finished = ap suc (length-kahn members left _)

-- Where the members can be ranked above what they depend on, so that there is no cycle, the order
-- has as many entries as there are members, and each is a member that no earlier entry is and all
-- of whose modules are earlier entries.
pub order_of-IsBuildOrder :
    (members : List Member) (rank : ℕ → ℕ)
    → IsRanked members rank
    → IsBuildOrder members (replicate (length members) false) (order_of members)
      × (length (order_of members) ≡ length members)
unfolding order_of
order_of-IsBuildOrder members rank ranked = (
  kahn-IsBuildOrder members rank (length members) (replicate (length members) false) ranked
      (length-replicate (length members) false) (left_of-replicate (length members)),
  length-kahn members (length members) (replicate (length members) false),
)
