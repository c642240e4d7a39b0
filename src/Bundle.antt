-- ===== src/Bundle.antt =====
-- mimirheim/core/bundle.py: the solve inputs and results. Instants are UTC microseconds.
use mimirheim.Prelude.{ℕ, String, Bool, Option, List}
use mimirheim.Prelude.Dict.{Dict}

pub record BatteryInputs (F : Type 0) : Type 0 where
  pub soc_kwh : F
  pub last_full_utc : Option ℕ
  pub care_since_utc : Option ℕ

pub record EvInputs (F : Type 0) : Type 0 where
  pub soc_kwh : F
  pub available : Bool
  pub target_soc_kwh : Option F
  pub window_earliest : Option ℕ
  pub window_latest : Option ℕ

pub record HybridInverterInputs (F : Type 0) : Type 0 where
  pub soc_kwh : F
  pub pv_forecast_kw : List F

pub record SpaceHeatingInputs (F : Type 0) : Type 0 where
  pub heat_needed_kwh : F
  pub current_indoor_temp_c : Option F
  pub outdoor_temp_forecast_c : Option (List F)

pub record CombiHeatPumpInputs (F : Type 0) : Type 0 where
  pub current_temp_c : F
  pub heat_needed_kwh : F
  pub current_indoor_temp_c : Option F
  pub outdoor_temp_forecast_c : Option (List F)

pub record ThermalBoilerInputs (F : Type 0) : Type 0 where
  pub current_temp_c : F

pub record DeferrableWindow : Type 0 where
  pub earliest : ℕ
  pub latest : ℕ

pub record SolveBundle (F : Type 0) : Type 0 where
  pub strategy : String
  pub solve_time_utc : ℕ
  pub triggered_at_utc : Option ℕ
  pub horizon_prices : List F
  pub horizon_export_prices : List F
  pub horizon_confidence : List F
  pub pv_forecast : List F
  pub pv_forecasts : Dict (List F)
  pub base_load_forecast : List F
  pub battery_inputs : Dict (BatteryInputs F)
  pub ev_inputs : Dict (EvInputs F)
  pub hybrid_inverter_inputs : Dict (HybridInverterInputs F)
  pub thermal_boiler_inputs : Dict (ThermalBoilerInputs F)
  pub space_heating_inputs : Dict (SpaceHeatingInputs F)
  pub combi_hp_inputs : Dict (CombiHeatPumpInputs F)
  pub deferrable_windows : Dict DeferrableWindow
  pub deferrable_start_times : Dict ℕ

-- `kind` is the field `type`.
pub record DeviceSetpoint (F : Type 0) : Type 0 where
  pub kw : F
  pub kind : String
  pub power_limit_kw : Option F
  pub zero_exchange_active : Option Bool
  pub on_off_active : Option Bool
  pub loadbalance_active : Option Bool
  pub pv_is_curtailed : Option Bool
  pub soc_kwh : Option F

pub record ScheduleStep (F : Type 0) : Type 0 where
  pub t : ℕ
  pub grid_import_kw : F
  pub grid_export_kw : F
  pub devices : Dict (DeviceSetpoint F)

-- `since_full_us` is `hours_since_full` in microseconds.
pub record BatteryCareStatus (F : Type 0) : Type 0 where
  pub last_full_utc : Option ℕ
  pub care_since_utc : Option ℕ
  pub floor_kwh : F
  pub since_full_us : Option ℕ
  pub full_target_kwh : Option F
  pub deadline_step : Option ℕ
  pub enforced_target_kwh : Option F
  pub enforced_step : Option ℕ
  pub hold_steps : ℕ
  pub enforced_hold_steps : Option ℕ

pub record SolveResult (F : Type 0) : Type 0 where
  pub strategy : String
  pub strategy_degraded : Bool
  pub solve_time_utc : Option ℕ
  pub objective_value : F
  pub solve_status : String
  pub dispatch_suppressed : Bool
  pub naive_cost_eur : F
  pub optimised_cost_eur : F
  pub soc_credit_eur : F
  pub schedule : List (ScheduleStep F)
  pub deferrable_recommended_starts : Dict ℕ
  pub battery_care : Dict (BatteryCareStatus F)
