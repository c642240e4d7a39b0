-- ===== src/Devices/ThermalBoiler.antt =====
-- mimirheim/devices/thermal_boiler.py: the tank temperature and the minimum run of a boiler.
-- The terms of the objective and the terminal value are not modelled.
mod Hold
pub mod Run
use mimirheim.Prelude.{
  ℕ, zero, suc, ◌-◌, Bool, true, false, Option, none, some, List, [], ◌∷◌, ltb, if◌then◌else◌,
}
use mimirheim.Solver.{Linear, Variable, Constraint, equal, at_most, Model, add_var, add_constraint}

pub record BoilerSettings (F : Type 0) : Type 0 where
  pub volume_liters : F
  pub elec_power_kw : F
  pub cop : F
  pub setpoint_c : F
  pub min_temp_c : F
  pub cooling_rate_k_per_hour : F
  pub min_run_steps : ℕ

pub record BoilerStep (E : Type 0) : Type 0 where
  pub tank : E
  pub heater_on : E

abbrev pub heaters : {E : Type 0} → List (BoilerStep E) → List E
heaters [] = []
heaters (step ∷ steps) = step.heater_on ∷ heaters steps

-- `five` is 5.0, `dt` is `ctx.dt` and `water_cap` is `_WATER_THERMAL_CAP_KWH_PER_LITRE_K`
module _ {F E S : Type 0} (l : Linear F E S) (config : BoilerSettings F)
    (five dt water_cap : F) where
  unfoldable pub add_steps : ℕ → Model F E → List (BoilerStep E) × Model F E
  add_steps zero m = ([], m)
  add_steps (suc n) m =
      let (tank, m1) =
        add_var l (l.sub config.min_temp_c five) (l.add config.setpoint_c five) false m in
      let (heater_on, m2) = add_var l l.zero l.one true m1 in
      let (steps, m3) = add_steps n m2 in
      (record { tank = tank; heater_on = heater_on } ∷ steps, m3)

  unfoldable pub add_starts : ℕ → Model F E → List E × Model F E
  add_starts zero m = ([], m)
  add_starts (suc n) m =
      let (start, m1) = add_var l l.zero l.one true m in
      let (starts, m2) = add_starts n m1 in (start ∷ starts, m2)

  -- the steps, and a start for each step after the first where runs have a minimum
  unfoldable pub add_variables : ℕ → Model F E → List (BoilerStep E) × List E × Model F E
  unfolding add_steps add_starts
  add_variables horizon m =
      let (steps, m1) = add_steps horizon m in
      if ltb 1 config.min_run_steps
      then (let (starts, m2) = add_starts (horizon - 1) m1 in (steps, starts, m2))
      else (steps, [], m1)

  -- the constraints on the tank's temperature, from the one before the steps
  unfoldable pub add_temperatures : E → List (BoilerStep E) → Model F E → Model F E
  unfolding add_constraint
  add_temperatures prior [] m = m
  add_temperatures prior (step ∷ steps) m =
      let thermal_cap = l.mul config.volume_liters water_cap in
      let cool_per_step = l.mul config.cooling_rate_k_per_hour dt in
      let heat_rise = l.div (l.mul (l.mul config.elec_power_kw config.cop) dt) thermal_cap in
      add_temperatures step.tank steps (
        add_constraint (at_most step.tank (l.constant config.setpoint_c)) (
          add_constraint (at_most (l.constant config.min_temp_c) step.tank) (
            add_constraint
              (equal step.tank (
                l.plus (l.minus prior (l.constant cool_per_step))
                  (l.times heat_rise step.heater_on)))
              m)))

  -- at most `n` following steps are on where the start is set
  unfoldable pub add_holds : ℕ → E → List E → Model F E → Model F E
  unfolding add_constraint
  add_holds zero start ons m = m
  add_holds (suc n) start [] m = m
  add_holds (suc n) start (on ∷ ons) m = add_holds n start ons (add_constraint (at_most start on) m)

  -- the constraints of the starts, from the heater of the step before
  unfoldable pub add_runs : E → List E → List E → Model F E → Model F E
  unfolding add_holds add_constraint
  add_runs before (on ∷ ons) (start ∷ starts) m = add_runs on ons starts (
      add_holds (config.min_run_steps - 1) start ons
        (add_constraint (at_most start on) (add_constraint (at_most (l.minus on before) start) m)))
  add_runs before ons starts m = m

  unfoldable pub add_minimum : List E → List E → Model F E → Model F E
  unfolding add_runs
  add_minimum [] starts m = m
  add_minimum (on ∷ ons) starts m = add_runs on ons starts m

  unfoldable pub add_constraints : F → List (BoilerStep E) → List E → Model F E → Model F E
  unfolding add_temperatures add_minimum
  add_constraints current_temp_c steps starts m =
      add_minimum (heaters steps) starts (add_temperatures (l.constant current_temp_c) steps m)

  unfoldable pub net_power : BoilerStep E → E
  net_power step = l.times (l.neg config.elec_power_kw) step.heater_on
