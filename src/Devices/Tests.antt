-- ===== src/Devices/Tests.antt =====
-- The theorems on the devices at concrete models.
use mimirheim.Prelude.{
  smaller, length, get_elem?, ℕ, zero, suc, ◌+◌, ◌*◌, ◌≤◌, ◌≡◌, refl, true, none, some, List, [],
  ◌∷◌, All-In, inl, arith, ◌⊎◌,
}
use mimirheim.Prelude.Fixed.{ℤ, pos}
use mimirheim.Prelude.{false}
use mimirheim.Bundle.{DeferrableWindow}
use mimirheim.Forecast.{step_duration}
use mimirheim.Solver.{add_var, add_constraint, Model, Feasible, Within, Meets}
use mimirheim.Solver.Exact.{exact, Expr}
use mimirheim.Devices.Pv.{PvSettings, add_step, add_mode}
use mimirheim.Devices.Pv.Modes.{ProducesIn, clipped, add_constraints-ProducesIn}
use mimirheim.Devices.ThermalBoiler.{
  BoilerSettings, BoilerStep, add_temperatures, add_holds, add_runs, add_minimum,
}
use mimirheim.Devices.ThermalBoiler.Run.{KeepsOn, add_constraints-KeepsOn}
use mimirheim.Devices.Grid.{GridConfig, GridStep, add_constraints_one_way}
use mimirheim.Devices.DeferrableLoad.{
  Load, datetime_to_step, schedule, schedule_window, add_starts, start_at, terms, add_term,
  scheduled_power, draw, net_power,
}
use mimirheim.Devices.DeferrableLoad.Agree.{Draws, run_power, net_power_agrees}
use mimirheim.Devices.DeferrableLoad.Window.{RunsOnce, add_constraints-RunsOnce}

abbrev empty_model : Model ℤ Expr
empty_model = record { variables = []; constraints = [] }

-- two steps of 2 and 1
abbrev profile : List ℤ
profile = pos 2 ∷ pos 1 ∷ []

-- from the second step to the end of the fourth
abbrev window : DeferrableWindow
window = record { earliest = 900_000_000; latest = 3_600_000_000 }

-- the second of the two possible starts
abbrev later_start : ℕ → ℤ
later_start zero = pos 0
later_start (suc n) = pos 1

abbrev scheduled : Load Expr × Model ℤ Expr
unfolding mimirheim.Devices.DeferrableLoad.add_constraints
scheduled =
    mimirheim.Devices.DeferrableLoad.add_constraints exact profile 8 (some window) 0 none
      empty_model

scheduled_Feasible : Feasible exact later_start scheduled.1
unfolding mimirheim.Devices.DeferrableLoad.add_constraints schedule_window schedule add_starts
    add_var add_constraint datetime_to_step
scheduled_Feasible = (
  λ v i.
      All-In (Within exact later_start) v scheduled.1.variables
        ((refl, refl, λ h. refl), ((refl, refl, λ h. refl), tt)) i,
  λ c i. All-In (Meets exact later_start) c scheduled.1.constraints (refl, tt) i,
)

two_steps_fit :
    datetime_to_step window.earliest 0 + 2 ≤ smaller (datetime_to_step window.latest 0) 8
unfolding datetime_to_step
two_steps_fit = omega arith

add_constraints-RunsOnce_example : RunsOnce exact profile later_start scheduled.0 8 0 window
unfolding scheduled
add_constraints-RunsOnce_example =
    add_constraints-RunsOnce exact profile later_start 8 0 window empty_model scheduled.1
      (omega arith) two_steps_fit (λ v i. i, λ c i. i) scheduled_Feasible

-- the second step of a run that began a quarter of an hour ago
net_power_agrees_example :
    Draws exact profile later_start
      (net_power exact profile
        (mimirheim.Devices.DeferrableLoad.add_constraints exact profile 8 none 900_000_000
          (some 0)
          empty_model).0
        0)
      (run_power exact profile 0 (900_000_000 + 0 * step_duration))
net_power_agrees_example =
    net_power_agrees exact profile later_start 8 none 900_000_000 0 0 empty_model refl (omega arith)
      (omega arith)

abbrev grid_config : GridConfig ℤ
grid_config = record { import_limit_kw = pos 17; export_limit_kw = pos 5 }

-- one step that imports 3
abbrev importing : ℕ → ℤ
importing zero = pos 3
importing (suc n) = pos 0

abbrev grid_step : GridStep Expr
grid_step = record {
  import_ = exact.variable 0;
  export_ = exact.variable 1;
  grid_dir = exact.variable 2;
}

abbrev grid_model : Model ℤ Expr
unfolding mimirheim.Devices.Grid.add_variables mimirheim.Devices.Grid.add_constraints
grid_model =
    mimirheim.Devices.Grid.add_constraints exact grid_config
      (mimirheim.Devices.Grid.add_variables exact grid_config 1 empty_model).0
      (mimirheim.Devices.Grid.add_variables exact grid_config 1 empty_model).1

grid_Feasible : Feasible exact importing grid_model
unfolding grid_model mimirheim.Devices.Grid.add_variables mimirheim.Devices.Grid.add_constraints
    add_var add_constraint
grid_Feasible = (
  λ v i.
      All-In (Within exact importing) v grid_model.variables
        ((refl, refl, λ h. refl), ((refl, refl, λ h. refl), ((refl, refl, λ h. refl), tt))) i,
  λ c i. All-In (Meets exact importing) c grid_model.constraints (refl, (refl, tt)) i,
)

add_constraints_one_way_example :
    (exact.le exact.zero (pos 3) ≡ true)
    × (exact.le (pos 3) grid_config.import_limit_kw ≡ true)
    × (exact.le exact.zero (pos 0) ≡ true)
    × (exact.le (pos 0) grid_config.export_limit_kw ≡ true)
    × ((pos 3 ≡ exact.zero) ⊎ (pos 0 ≡ exact.zero))
    × (exact.value importing (mimirheim.Devices.Grid.net_power exact grid_config grid_step) ≡ pos 3)
unfolding grid_model mimirheim.Devices.Grid.add_variables add_var
add_constraints_one_way_example =
    add_constraints_one_way exact grid_config importing 1 empty_model grid_model grid_step
      (λ v i. i, λ c i. i) grid_Feasible (inl refl)

-- a roof of at most 5 that can only be switched off, with a forecast of 7
abbrev roof : PvSettings ℤ
roof = record { max_power_kw = pos 5; production_stages = none; on_off = true; power_limit = false }

abbrev roof_model : Model ℤ Expr
unfolding add_var
roof_model = (add_var exact (pos 0) (pos 1) true empty_model).1

abbrev roof_power : Expr
roof_power = exact.times (pos 5) (exact.minus (exact.constant (pos 1)) (exact.variable 0))

roof_added :
    mimirheim.Devices.Pv.add_constraints exact roof 1 (pos 7 ∷ []) empty_model
    ≡ some (roof_power ∷ [], roof_model)
unfolding mimirheim.Devices.Pv.add_constraints add_step add_mode roof_model add_var
roof_added = refl

roof_Feasible : Feasible exact later_start roof_model
unfolding roof_model add_var
roof_Feasible = (
  λ v i. All-In (Within exact later_start) v roof_model.variables ((refl, refl, λ h. refl), tt) i,
  λ c i. absurd i,
)

add_constraints-ProducesIn_example :
    (length (roof_power ∷ []) ≡ 1)
    × ((t : ℕ) (kw : ℤ) (power : Expr)
        → get_elem? (pos 7 ∷ []) t ≡ some kw
        → get_elem? (roof_power ∷ []) t ≡ some power
        → ProducesIn exact none true false (clipped exact roof kw) (exact.value later_start power))
add_constraints-ProducesIn_example =
    add_constraints-ProducesIn exact later_start roof 1 (pos 7 ∷ []) empty_model (roof_power ∷ [])
      roof_model roof_model roof_added (λ v i. i, λ c i. i) roof_Feasible

-- a boiler with a minimum run of two steps, heated by 1 degree a step
abbrev boiler : BoilerSettings ℤ
boiler = record {
  volume_liters = pos 1;
  elec_power_kw = pos 1;
  cop = pos 1;
  setpoint_c = pos 10;
  min_temp_c = pos 0;
  cooling_rate_k_per_hour = pos 0;
  min_run_steps = 2;
}

-- off, on, on: tank and heater for each step, then the two starts
abbrev nth : List ℤ → ℕ → ℤ
nth [] n = pos 0
nth (x ∷ xs) zero = x
nth (x ∷ xs) (suc n) = nth xs n

abbrev heated : ℕ → ℤ
heated n = nth (pos 5 ∷ pos 0 ∷ pos 6 ∷ pos 1 ∷ pos 7 ∷ pos 1 ∷ pos 1 ∷ pos 0 ∷ []) n

abbrev boiler_variables : List (BoilerStep Expr) × List Expr × Model ℤ Expr
unfolding mimirheim.Devices.ThermalBoiler.add_variables
boiler_variables =
    mimirheim.Devices.ThermalBoiler.add_variables exact boiler (pos 5) (pos 1) (pos 1) 3 empty_model

abbrev boiler_model : Model ℤ Expr
unfolding boiler_variables mimirheim.Devices.ThermalBoiler.add_constraints
boiler_model =
    mimirheim.Devices.ThermalBoiler.add_constraints exact boiler (pos 5) (pos 1) (pos 1) (pos 5)
      boiler_variables.0 boiler_variables.1 boiler_variables.2

boiler_Feasible : Feasible exact heated boiler_model
unfolding boiler_model boiler_variables add_var add_constraint
    mimirheim.Devices.ThermalBoiler.add_steps mimirheim.Devices.ThermalBoiler.add_starts
    add_temperatures add_holds add_runs add_minimum
boiler_Feasible = (
  λ v i.
      All-In (Within exact heated) v boiler_model.variables
        (
          (refl, refl, λ h. refl),
          (
            (refl, refl, λ h. refl),
            (
              (refl, refl, λ h. refl),
              (
                (refl, refl, λ h. refl),
                (
                  (refl, refl, λ h. refl),
                  (
                    (refl, refl, λ h. refl),
                    ((refl, refl, λ h. refl), ((refl, refl, λ h. refl), tt)),
                  ),
                ),
              ),
            ),
          ),
        )
        i,
  λ c i.
      All-In (Meets exact heated) c boiler_model.constraints
        (
          refl,
          (
            refl,
            (
              refl,
              (
                refl,
                (refl, (refl, (refl, (refl, (refl, (refl, (refl, (refl, (refl, (refl, tt)))))))))),
              ),
            ),
          ),
        )
        i,
)

add_constraints-KeepsOn_example :
    KeepsOn exact boiler (pos 5) (pos 1) (pos 1) heated boiler_variables.0
unfolding boiler_variables boiler_model
add_constraints-KeepsOn_example =
    add_constraints-KeepsOn exact boiler (pos 5) (pos 1) (pos 1) heated 3 (pos 5) empty_model
      boiler_model (λ v i. i, λ c i. i) boiler_Feasible
