-- ===== src/Devices/Grid.antt =====
-- mimirheim/devices/grid.py: the grid connection's variables and constraints, and their meaning.
use mathlib.Core.Path.{subst}
use mimirheim.Prelude.{
  ℕ, zero, suc, ◌≡◌, refl, sym, ap, ◌∙◌, ◌⊎◌, inl, inr, true, false, List, [], ◌∷◌, In,
}
use mimirheim.Solver.{
  Linear, Variable, Constraint, at_most, Model, Feasible, add_var, add_constraint,
}
use mimirheim.Solver.Sos.{Extends}

pub record GridConfig (F : Type 0) : Type 0 where
  pub import_limit_kw : F
  pub export_limit_kw : F

-- the three variables of a step
pub record GridStep (E : Type 0) : Type 0 where
  pub import_ : E
  pub export_ : E
  pub grid_dir : E

module _ {F E S : Type 0} (l : Linear F E S) (config : GridConfig F) where
  unfoldable pub add_variables : ℕ → Model F E → List (GridStep E) × Model F E
  unfolding add_var
  add_variables zero m = ([], m)
  add_variables (suc n) m =
      let (i, m1) = add_var l l.zero config.import_limit_kw false m in
      let (e, m2) = add_var l l.zero config.export_limit_kw false m1 in
      let (d, m3) = add_var l l.zero l.one true m2 in
      let (steps, m4) = add_variables n m3 in
      (record { import_ = i; export_ = e; grid_dir = d } ∷ steps, m4)

  unfoldable pub add_constraints : List (GridStep E) → Model F E → Model F E
  unfolding add_constraint
  add_constraints [] m = m
  add_constraints (g ∷ steps) m = add_constraints steps (
      add_constraint (at_most g.export_ (l.times config.export_limit_kw g.grid_dir)) (
        add_constraint
          (at_most g.import_
            (l.times config.import_limit_kw (l.minus (l.constant l.one) g.grid_dir)))
          m))

  unfoldable pub net_power : GridStep E → E
  net_power g = l.minus g.import_ g.export_

  -- The variables of a step, as they are declared.
  abbrev Declared : GridStep E → Model F E → Type 0
  Declared g m =
      In (record { handle = g.import_; lb = l.zero; ub = config.import_limit_kw; integer = false })
        m.variables
      × In
          (record { handle = g.export_; lb = l.zero; ub = config.export_limit_kw; integer = false })
          m.variables
      × In (record { handle = g.grid_dir; lb = l.zero; ub = l.one; integer = true }) m.variables

  add_variables-keep :
      (n : ℕ) (m : Model F E) (v : Variable F E)
      → In v m.variables
      → In v (add_variables n m).1.variables
  unfolding add_variables add_var
  add_variables-keep zero m v i = i
  add_variables-keep (suc n) m v i = add_variables-keep n _ v (inr (inr (inr i)))

  add_variables-Declared :
      (n : ℕ) (m : Model F E) (g : GridStep E)
      → In g (add_variables n m).0
      → Declared g (add_variables n m).1
  unfolding add_variables add_var
  add_variables-Declared zero m g i = absurd i
  add_variables-Declared (suc n) m g (inl e) =
      subst (λ x. Declared x (add_variables (suc n) m).1) (sym e)
        (
          add_variables-keep n _ _ (inr (inr (inl refl))),
          add_variables-keep n _ _ (inr (inl refl)),
          add_variables-keep n _ _ (inl refl),
        )
  add_variables-Declared (suc n) m g (inr i) = add_variables-Declared n _ g i

  add_constraints-variables :
      (steps : List (GridStep E)) (m : Model F E)
      → (add_constraints steps m).variables ≡ m.variables
  unfolding add_constraints add_constraint
  add_constraints-variables [] m = refl
  add_constraints-variables (g ∷ steps) m = add_constraints-variables steps _

  add_constraints-keep :
      (steps : List (GridStep E)) (m : Model F E) (c : Constraint E)
      → In c m.constraints
      → In c (add_constraints steps m).constraints
  unfolding add_constraints add_constraint
  add_constraints-keep [] m c i = i
  add_constraints-keep (g ∷ steps) m c i = add_constraints-keep steps _ c (inr (inr i))

  -- The two couplings of a step's direction.
  abbrev Coupled : GridStep E → Model F E → Type 0
  Coupled g m =
      In (at_most g.export_ (l.times config.export_limit_kw g.grid_dir)) m.constraints
      × In
          (at_most g.import_
            (l.times config.import_limit_kw (l.minus (l.constant l.one) g.grid_dir)))
          m.constraints

  add_constraints-Coupled :
      (steps : List (GridStep E)) (m : Model F E) (g : GridStep E)
      → In g steps
      → Coupled g (add_constraints steps m)
  unfolding add_constraints add_constraint
  add_constraints-Coupled [] m g i = absurd i
  add_constraints-Coupled (h ∷ steps) m g (inl e) =
      subst (λ x. Coupled x (add_constraints (h ∷ steps) m)) (sym e)
        (add_constraints-keep steps _ _ (inl refl), add_constraints-keep steps _ _ (inr (inl refl)))
  add_constraints-Coupled (h ∷ steps) m g (inr i) = add_constraints-Coupled steps _ g i

  module _ (s : S) where
    -- What the variables and the couplings of a step say of a solution.
    one_way :
        (g : GridStep E) (final : Model F E)
        → Declared g final
        → Coupled g final
        → Feasible l s final
        → (l.value s g.import_ ≡ l.zero) ⊎ (l.value s g.export_ ≡ l.zero)
    one_way g final (i, e, d) (ce, ci) f =
        let (low, high, whole) = f.0 _ d in
        elim (l.binary _ (whole refl) low high) [
          | inl off ↦
              let closed : l.value s (l.times config.export_limit_kw g.grid_dir) ≡ l.zero =
                l.value_times s _ _ ∙ ap (l.mul config.export_limit_kw) off ∙ l.mul_zero _ in
              inr (
                l.le_antisym _ _
                  (subst (λ x. l.le (l.value s g.export_) x ≡ true) closed (f.1 _ ce)) (f.0 _ e).0)
          | inr on ↦
              let none_left : l.value s (l.minus (l.constant l.one) g.grid_dir) ≡ l.zero =
                l.value_minus s _ _
                ∙ ap (λ x. l.sub x (l.value s g.grid_dir)) (l.value_constant s l.one)
                ∙ ap (l.sub l.one) on
                ∙ l.sub_self l.one in
              let closed : l.value s
                    (l.times config.import_limit_kw (l.minus (l.constant l.one) g.grid_dir))
                  ≡ l.zero =
                l.value_times s _ _ ∙ ap (l.mul config.import_limit_kw) none_left ∙ l.mul_zero _ in
              inl (
                l.le_antisym _ _
                  (subst (λ x. l.le (l.value s g.import_) x ≡ true) closed (f.1 _ ci)) (f.0 _ i).0)
        ]

    -- In every solution of a model with the grid's variables and constraints, each step's import
    -- and export are between 0 and their limits, one of them is 0, and the net power is import less
    -- export.
    pub add_constraints_one_way :
        (n : ℕ) (m final : Model F E) (g : GridStep E)
        → Extends l (add_constraints (add_variables n m).0 (add_variables n m).1) final
        → Feasible l s final
        → In g (add_variables n m).0
        → (l.le l.zero (l.value s g.import_) ≡ true)
          × (l.le (l.value s g.import_) config.import_limit_kw ≡ true)
          × (l.le l.zero (l.value s g.export_) ≡ true)
          × (l.le (l.value s g.export_) config.export_limit_kw ≡ true)
          × ((l.value s g.import_ ≡ l.zero) ⊎ (l.value s g.export_ ≡ l.zero))
          × (l.value s (net_power g) ≡ l.sub (l.value s g.import_) (l.value s g.export_))
    unfolding net_power
    add_constraints_one_way n m final g x f i =
        let (di, de, dd) = add_variables-Declared n m g i in
        let (ce, ci) = add_constraints-Coupled (add_variables n m).0 (add_variables n m).1 g i in
        let same = add_constraints-variables (add_variables n m).0 (add_variables n m).1 in
        let there : Declared g final = (
          x.0 _ (subst (In _) (sym same) di),
          x.0 _ (subst (In _) (sym same) de),
          x.0 _ (subst (In _) (sym same) dd),
        ) in
        let (low, high, w) = f.0 _ there.0 in
        let (low2, high2, w2) = f.0 _ there.1 in
        (low, high, low2, high2, one_way g final there (x.1 _ ce, x.1 _ ci) f, l.value_minus s _ _)
