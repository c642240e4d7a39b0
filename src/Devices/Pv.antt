-- ===== src/Devices/Pv.antt =====
-- mimirheim/devices/pv.py: a PV array in one of four modes, and what a solution produces in each.
-- The readers of a solved array (`is_on`, `chosen_stage_kw`, `is_curtailed`) and the tie-breaking terms
-- of the objective are not modelled. `none` is an IndexError of a forecast that is too short.
pub mod Modes
use mathlib.Core.Path.{subst}
use mimirheim.Prelude.{
  ℕ, zero, suc, ◌≡◌, ◌≢◌, refl, sym, ap, ◌∙◌, ◌⊎◌, inl, inr, Bool, true, false, not, ◌&&◌, Option,
  none, some, some_inj, List, [], ◌∷◌, get_elem?, length, In, Bool-cases, Option-cases, arith,
  if◌then◌else◌, ◌>>=◌,
}
use mimirheim.Solver.{
  Linear, Variable, Constraint, equal, Model, Feasible, Meets, Within, sum_from, sum, add_var,
  add_constraint,
}
use mimirheim.Solver.Binary.{IsBinary, add_off, add_on, OneSet, sum-OneSet}
use mimirheim.Solver.Sos.{Extends, binary_of}

-- `production_stages` and the two capabilities
pub record PvSettings (F : Type 0) : Type 0 where
  pub max_power_kw : F
  pub production_stages : Option (List F)
  pub on_off : Bool
  pub power_limit : Bool

module _ {F E S : Type 0} (l : Linear F E S) where
  -- `min(a, b)` and `max(a, b)`, which return the first on a tie
  abbrev pub min : F → F → F
  min a b = if l.le b a && not (l.le a b) then b else a

  abbrev pub max : F → F → F
  max a b = if l.le a b && not (l.le b a) then b else a

  unfoldable pub clip_forecast : List F → F → List F
  clip_forecast [] max_power_kw = []
  clip_forecast (kw ∷ forecast) max_power_kw =
      min (max l.zero kw) max_power_kw ∷ clip_forecast forecast max_power_kw

  -- the stage variables of a step, with their effective powers
  unfoldable pub add_stages : F → List F → Model F E → List (E × F) × Model F E
  add_stages f [] m = ([], m)
  add_stages f (stage ∷ stages) m =
      let (active, m1) = add_var l l.zero l.one true m in
      let (rest, m2) = add_stages f stages m1 in ((active, min f stage) ∷ rest, m2)

  abbrev pub stage_vars : List (E × F) → List E
  stage_vars [] = []
  stage_vars ((active, kw) ∷ stages) = active ∷ stage_vars stages

  abbrev pub weighted : List (E × F) → List E
  weighted [] = []
  weighted ((active, kw) ∷ stages) = l.times kw active ∷ weighted stages

  -- the net power of a step in each mode, with what the step adds to the model
  unfoldable pub add_mode : Option (List F) → Bool → Bool → F → Model F E → E × Model F E
  unfolding add_constraint
  add_mode (some stages) on_off power_limit f m =
      let (vars, m1) = add_stages f stages m in
      (
        sum l (weighted vars),
        add_constraint (equal (sum l (stage_vars vars)) (l.constant l.one)) m1,
      )
  add_mode none true power_limit f m =
      let (pv_curtailed, m1) = add_var l l.zero l.one true m in
      (l.times f (l.minus (l.constant l.one) pv_curtailed), m1)
  add_mode none false true f m = add_var l l.zero f false m
  add_mode none false false f m = (l.constant f, m)

  unfoldable pub add_step : PvSettings F → F → Model F E → E × Model F E
  unfolding add_mode
  add_step config f m = add_mode config.production_stages config.on_off config.power_limit f m

  unfoldable pub add_steps : PvSettings F → ℕ → List F → Model F E → Option (List E × Model F E)
  add_steps config zero forecast m = some ([], m)
  add_steps config (suc n) [] m = none
  add_steps config (suc n) (f ∷ forecast) m =
      let (power, m1) = add_step config f m in
      add_steps config n forecast m1 >>= λ r. some (power ∷ r.0, r.1)

  -- the net powers of the horizon
  unfoldable pub add_constraints :
      PvSettings F → ℕ → List F → Model F E → Option (List E × Model F E)
  unfolding clip_forecast add_steps
  add_constraints config horizon forecast_kw m =
      add_steps config horizon (clip_forecast forecast_kw config.max_power_kw) m
