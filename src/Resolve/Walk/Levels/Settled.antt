-- ===== src/Resolve/Walk/Levels/Settled.antt =====
-- A version once picked stays, through all the levels of the walk.
use jrs.Prelude.{
  ℕ, zero, suc, ◌+◌, ◌≡◌, refl, ap, ◌∙◌, arith, Bool, some, List, ◌∷◌, [], lookup, Bool-cases, inl,
  inr, ltb,
}
use jrs.Error.{Result, ok, >>=-eq-ok}
use jrs.Coord.{Ga, ga_eq, Coord, pom_coord}
use jrs.Resolve.Model.{PomDependency, Effective, Pending, Selected, manage}
use jrs.Resolve.Managed.{ManagedVersions}
use jrs.Resolve.Admission.{admissible}
use jrs.Resolve.Walk.{Walk, warn_all}
use jrs.Resolve.Walk.Levels.{children, expand, level_step, levels}
use jrs.Resolve.Walk.Nearest.{settle, warn_all_selected, mediate_all_selects, settled, requests_for}

children_selected :
    (managed : ManagedVersions) (depth : ℕ) (parent : Pending) (eff : Effective) (w : Walk)
    (next : List Pending) (ds : List PomDependency) (w' : Walk) (next' : List Pending)
    → children managed depth parent eff w next ds ≡ ok (w', next')
    → w'.selected ≡ w.selected
unfolding children
children_selected managed depth parent eff w next [] w' next' h = ground arith
children_selected managed depth parent eff w next (d ∷ ds) w' next' h =
    let ((found, msgs), _, rest) = >>=-eq-ok (admissible (manage eff d) parent eff managed) _ h in
    children_selected managed depth parent eff (warn_all msgs w) _ ds w' next' rest
    ∙ warn_all_selected msgs w

module _ (effective : Coord → Result Effective) (managed : ManagedVersions)
    (every_path : Bool) where
  expand_selected :
      (depth : ℕ) (w : Walk) (next parents : List Pending) (w' : Walk) (next' : List Pending)
      → expand effective managed every_path depth w next parents ≡ ok (w', next')
      → w'.selected ≡ w.selected
  unfolding expand
  expand_selected depth w next [] w' next' h = ground arith
  expand_selected depth w next (parent ∷ parents) w' next' h =
      let (eff, _, found) = >>=-eq-ok (effective (pom_coord parent.coord)) _ h in
      let ((w₁, next₁), made, rest) =
        >>=-eq-ok (children managed depth parent eff _ next eff.dependencies) _ found in
      expand_selected depth w₁ next₁ parents w' next' rest
      ∙ children_selected managed depth parent eff _ next eff.dependencies w₁ next₁ made

  level_step_selects :
      (depth : ℕ) (w : Walk) (level : List Pending) (w' : Walk) (next : List Pending) (g : Ga)
      → level_step effective managed every_path depth w level ≡ ok (w', next)
      → lookup g w'.selected ≡ settled (lookup g w.selected) (requests_for g level)
  unfolding level_step
  level_step_selects depth w level w' next g h =
      ap (lookup g) (expand_selected depth _ [] _ w' next h)
      ∙ mediate_all_selects every_path _ level g

  -- However the walk goes on, a package that is selected keeps the coordinate and the depth it was
  -- selected with, so the version nearest to the manifest wins.
  pub levels_keep :
      (left depth : ℕ) (w : Walk) (level : List Pending) (w' : Walk) (g : Ga) (s : Selected)
      → levels effective managed every_path left depth w level ≡ ok w'
      → lookup g w.selected ≡ some s
      → (s' : Selected) × (lookup g w'.selected ≡ some s')
        × (s'.coord ≡ s.coord)
        × (s'.depth ≡ s.depth)
  unfolding levels
  levels_keep left depth w [] w' g s h e =
      let same : w ≡ w' = ground arith in (s, rw (← same) e, refl, refl)
  levels_keep zero depth w (item ∷ items) w' g s h e = absurd (ground arith)
  levels_keep (suc left) depth w (item ∷ items) w' g s h e =
      let ((w₁, next), stepped, rest) =
        >>=-eq-ok (level_step effective managed every_path depth w (item ∷ items)) _ h in
      let selected =
        level_step_selects depth w (item ∷ items) w₁ next g stepped
        ∙ ap (λ o. settled o (requests_for g (item ∷ items))) e in
      elim (Bool-cases (ltb 64 (depth + 1))) [
        | inl deep ↦ absurd (ground arith)
        | inr shallow ↦
            levels_keep left (depth + 1) w₁ next w' g (settle s (requests_for g (item ∷ items)))
              (rw shallow at rest) selected
      ]
