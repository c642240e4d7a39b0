-- ===== src/Solver/Tests.antt =====
-- The theorem on `add_sos2` at a concrete model.
use mimirheim.Prelude.{ℕ, zero, suc, ◌≡◌, refl, true, Option, none, some, List, [], ◌∷◌, In, All-In}
use mimirheim.Prelude.Fixed.{ℤ, pos}
use mimirheim.Solver.{add_var, Model, Feasible, Within, Meets}
use mimirheim.Solver.Sos.{add_sos2, Neighbours, add_sos2-Neighbours}
use mimirheim.Solver.Exact.{exact, Expr}

-- three weights, of which the first two are 1
abbrev weights : List Expr
weights = exact.constant (pos 1) ∷ exact.constant (pos 1) ∷ exact.constant (pos 0) ∷ []

abbrev empty_model : Model ℤ Expr
empty_model = record { variables = []; constraints = [] }

-- the first of the two segments is on
abbrev first_on : ℕ → ℤ
first_on zero = pos 1
first_on (suc n) = pos 0

or_empty : Option (Model ℤ Expr) → Model ℤ Expr
or_empty none = empty_model
or_empty (some m) = m

abbrev linked : Model ℤ Expr
unfolding or_empty add_sos2
linked = or_empty (add_sos2 exact weights empty_model)

linked_returns : add_sos2 exact weights empty_model ≡ some linked
unfolding add_sos2 linked or_empty
linked_returns = refl

linked-Feasible : Feasible exact first_on linked
unfolding linked or_empty add_sos2 add_var
linked-Feasible = (
  λ v i.
      All-In (Within exact first_on) v linked.variables
        ((refl, refl, λ h. refl), ((refl, refl, λ h. refl), tt)) i,
  λ c i. All-In (Meets exact first_on) c linked.constraints (refl, (refl, (refl, (refl, tt)))) i,
)

not_negative : (v : Expr) → In v weights → exact.le exact.zero (exact.value first_on v) ≡ true
not_negative v i =
    All-In (λ (w : Expr). exact.le exact.zero (exact.value first_on w) ≡ true) v weights
      (refl, (refl, (refl, tt))) i

add_sos2-Neighbours_example : Neighbours exact first_on weights
add_sos2-Neighbours_example =
    add_sos2-Neighbours exact first_on weights empty_model linked linked_returns linked-Feasible
      not_negative
