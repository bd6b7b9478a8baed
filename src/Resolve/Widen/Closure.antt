-- ===== src/Resolve/Widen/Closure.antt =====
-- The loop ends, and then every dependency is as wide as what depends on it.
use jrs.Prelude.{
  subst, ℕ, zero, suc, ◌+◌, ◌*◌, ◌≤◌, ◌<◌, ◌≡◌, ◌≢◌, refl, ap, sym, ◌∙◌, arith, true, false, ◌==◌,
  Option, none, some, List, ◌∷◌, [], lookup, modify, length, All, Bool-cases, inl, inr, ◌⊎◌,
}
use jrs.Coord.{Ga, ga_eq}
use jrs.Resolve.Classpath.{
  Classpath, join, classpath_eq, classpath_beq_iff, compile, provided, runtime, test,
}
use jrs.Resolve.Model.{Selected}
use jrs.Resolve.Widen.{
  Selection, Edges, Pass, widened, widen_on, widen_child, widen_children, widen_parent, pass, widen,
  enough,
}

-- How often a classpath can still be widened.
abbrev rank : Classpath → ℕ
rank compile = 0
rank provided = 1
rank runtime = 1
rank test = 2

abbrev room : Selection → ℕ
room [] = 0
room ((g, s) ∷ m) = rank s.classpath + room m

rank-join : (a b : Classpath) → (join a b ≡ a) ⊎ (rank (join a b) < rank a)
unfolding join
rank-join compile b = inl refl
rank-join provided b = ground arith
rank-join runtime b = ground arith
rank-join test b = ground arith

room-modify :
    (g : Ga) (c : Classpath) (m : Selection) (s : Selected)
    → lookup g m ≡ some s
    → join s.classpath c ≢ s.classpath
    → room (modify g (widened c) m) < room m
unfolding lookup modify
room-modify g c [] s e n = absurd (ground arith)
room-modify g c ((h, t) ∷ m) s e n = ground (arith, rank-join t.classpath c, room-modify g c m s)

-- A pass only narrows the ranks, and strictly so where it changed anything.
abbrev Shrinks : Pass → Pass → Type 0
Shrinks p q = ((q ≡ p) ⊎ ((q.1 ≡ true) × (room q.0 < room p.0)))

Shrinks-trans : (p q r : Pass) → Shrinks p q → Shrinks q r → Shrinks p r
Shrinks-trans p q r (inl e) k = subst (λ x. Shrinks x r) e k
Shrinks-trans p q r (inr h) (inl e) = subst (λ x. Shrinks p x) (sym e) (inr h)
Shrinks-trans p q r (inr (b, h)) (inr (c, k)) = inr (c, omega (arith, h, k))

widen_on-Shrinks :
    (c : Classpath) (p : Pass) (g : Ga) (o : Option Selected)
    → lookup g p.0 ≡ o
    → Shrinks p (widen_on c p g o)
unfolding widen_on
widen_on-Shrinks c (m, b) g none e = inl refl
widen_on-Shrinks c (m, b) g (some s) e = elim (Bool-cases (join s.classpath c == s.classpath)) [
  | inl same ↦ inl (rw same)
  | inr other ↦ inr (
      rw other (
        refl,
        room-modify g c m s e (ground (arith, classpath_beq_iff (join s.classpath c) s.classpath)),
      ))
]

widen_children-Shrinks :
    (c : Classpath) (p : Pass) (gs : List Ga) → Shrinks p (widen_children c p gs)
unfolding widen_children widen_child
widen_children-Shrinks c p [] = inl refl
widen_children-Shrinks c p (g ∷ gs) =
    Shrinks-trans p (widen_child c p g) _ (widen_on-Shrinks c p g (lookup g p.0) refl)
      (widen_children-Shrinks c (widen_child c p g) gs)

widen_parent-Shrinks :
    (p : Pass) (o : Option Selected) (gs : List Ga) → Shrinks p (widen_parent p o gs)
unfolding widen_parent
widen_parent-Shrinks p none gs = inl refl
widen_parent-Shrinks p (some s) gs = widen_children-Shrinks s.classpath p gs

pass-Shrinks : (p : Pass) (es : Edges) → Shrinks p (pass p es)
unfolding pass
pass-Shrinks p [] = inl refl
pass-Shrinks p ((g, gs) ∷ es) =
    Shrinks-trans p (widen_parent p (lookup g p.0) gs) _ (widen_parent-Shrinks p (lookup g p.0) gs)
      (pass-Shrinks (widen_parent p (lookup g p.0) gs) es)

ends_on :
    (p q : Pass) (f : ℕ) → p.1 ≡ false → q.1 ≡ true → room p.0 < suc f → Shrinks p q → room q.0 < f
ends_on p q f a b h (inl e) = absurd (ground (arith, a, b, ap (λ x. x.1) e))
ends_on p q f a b h (inr (c, k)) = omega (arith, h, k)

widen_ends :
    (f : ℕ) (es : Edges) (m : Selection) → room m < f → (m' : Selection) × (widen f es m ≡ some m')
unfolding widen
widen_ends zero es m h = absurd (omega arith)
widen_ends (suc f) es m h = elim (Bool-cases (pass (m, false) es).1) [
  | inr done ↦ ((pass (m, false) es).0, rw done)
  | inl more ↦
      let q = pass (m, false) es in
      let r =
        widen_ends f es q.0 (ends_on (m, false) q f refl more h (pass-Shrinks (m, false) es)) in
      (r.0, rw more r.1)
]

room-le : (m : Selection) → room m ≤ 2 * length m
room-le [] = omega arith
room-le ((g, s) ∷ m) = ground (arith, room-le m)

-- The loop over the edges ends within two rounds for each selected package and one more.
pub widen_terminates :
    (es : Edges) (m : Selection) → (m' : Selection) × (widen (enough m) es m ≡ some m')
widen_terminates es m = widen_ends (enough m) es m (omega (arith, room-le m))

-- The child is as wide as `widest` asks, if it is selected.
abbrev pub IsWideEnough : Classpath → Selection → Ga → Type 0
IsWideEnough widest m child =
    (t : Selected) → lookup child m ≡ some t → join t.classpath widest ≡ t.classpath

-- What a selected package depends on is on the classpath wherever the package is.
abbrev pub IsClosed : Edges → Selection → Type 0
IsClosed [] m = Unit
IsClosed ((parent, children) ∷ es) m =
    ((s : Selected) → lookup parent m ≡ some s → All (IsWideEnough s.classpath m) children)
    × IsClosed es m

-- A pass that ends unchanged has done nothing at each of its steps.
unmoved : (p q r : Pass) → Shrinks p q → Shrinks q r → r.1 ≡ false → q ≡ p
unmoved p q r (inl e) k done = e
unmoved p q r (inr (b, h)) (inl e) done = absurd (ground (arith, b, done, ap (λ x. x.1) e))
unmoved p q r (inr (b, h)) (inr (c, k)) done = absurd (ground (arith, c, done))

still_unchanged : (q r : Pass) → Shrinks q r → r.1 ≡ false → q.1 ≡ false
still_unchanged q r (inl e) done = sym (ap (λ x. x.1) e) ∙ done
still_unchanged q r (inr (c, k)) done = absurd (ground (arith, c, done))

widen_on-wide :
    (c : Classpath) (p : Pass) (g : Ga) (o : Option Selected)
    → (widen_on c p g o).1 ≡ false
    → (t : Selected) → o ≡ some t
    → join t.classpath c ≡ t.classpath
unfolding widen_on
widen_on-wide c (m, b) g none done t e = absurd (ground arith)
widen_on-wide c (m, b) g (some s) done t e =
    ground (arith, classpath_beq_iff (join s.classpath c) s.classpath)

widen_children-wide :
    (c : Classpath) (p : Pass) (gs : List Ga)
    → (widen_children c p gs).1 ≡ false
    → All (IsWideEnough c p.0) gs
unfolding widen_children widen_child
widen_children-wide c p [] done = _
widen_children-wide c p (g ∷ gs) done =
    let q = widen_child c p g in
    let same =
      unmoved p q (widen_children c q gs) (widen_on-Shrinks c p g (lookup g p.0) refl)
        (widen_children-Shrinks c q gs) done in
    let rest = widen_children-wide c q gs done in
    (
      widen_on-wide c p g (lookup g p.0)
          (still_unchanged q (widen_children c q gs) (widen_children-Shrinks c q gs) done),
      subst (λ x. All (IsWideEnough c x.0) gs) same rest,
    )

widen_parent-wide :
    (p : Pass) (o : Option Selected) (gs : List Ga)
    → (widen_parent p o gs).1 ≡ false
    → (s : Selected) → o ≡ some s
    → All (IsWideEnough s.classpath p.0) gs
unfolding widen_parent
widen_parent-wide p none gs done s e = absurd (ground arith)
widen_parent-wide p (some t) gs done s e =
    let same : t ≡ s = ground arith in
    subst (λ (x : Selected). All (IsWideEnough x.classpath p.0) gs) same
      (widen_children-wide t.classpath p gs done)

pass-IsClosed : (p : Pass) (es : Edges) → (pass p es).1 ≡ false → IsClosed es p.0
unfolding pass
pass-IsClosed p [] done = _
pass-IsClosed p ((g, gs) ∷ es) done =
    let q = widen_parent p (lookup g p.0) gs in
    let first = widen_parent-Shrinks p (lookup g p.0) gs in
    let later = pass-Shrinks q es in
    (
      widen_parent-wide p (lookup g p.0) gs (still_unchanged q (pass q es) later done),
      subst (λ x. IsClosed es x.0) (unmoved p q (pass q es) first later done)
          (pass-IsClosed q es done),
    )

-- Where the loop ends, it ends with a selection closed under the edges: whatever a selected package
-- depends on, itself selected, is in every place of the classpath that the package is in.
pub widen-IsClosed :
    (f : ℕ) (es : Edges) (m m' : Selection) → widen f es m ≡ some m' → IsClosed es m'
unfolding widen
widen-IsClosed zero es m m' e = absurd (ground arith)
widen-IsClosed (suc f) es m m' e = elim (Bool-cases (pass (m, false) es).1) [
  | inr done ↦
      let q = pass (m, false) es in
      let same = unmoved (m, false) q q (pass-Shrinks (m, false) es) (inl refl) done in
      let found : q.0 ≡ m' = ground (arith, e, done) in
      subst (IsClosed es) (sym (ap (λ x. x.0) same) ∙ found) (pass-IsClosed (m, false) es done)
  | inl more ↦ widen-IsClosed f es (pass (m, false) es).0 m' (ground (arith, e, more))
]
