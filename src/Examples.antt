-- ===== src/Examples.antt =====
-- A household for the tests: one battery and one EV charger that can both hold the grid exchange at
-- zero, a PV array, and a schedule of two steps.
pub mod Hour
use mimirheim.Prelude.{ℕ, String, true, false, none, some, [], ◌∷◌}
use mimirheim.Prelude.Fixed.{ℤ, pos, negsuc}
use mimirheim.BatteryCare.{SocRatchetConfig}
use mimirheim.Config.{EfficiencySegment, BatteryConfig, EvConfig, ControlConfig, MimirheimConfig}
use mimirheim.Bundle.{
  EvInputs, SolveBundle, DeviceSetpoint, ScheduleStep, BatteryCareStatus, SolveResult,
}

abbrev pub segment : ℕ → ℕ → EfficiencySegment ℤ
segment power efficiency = record { power_max_kw = pos power; efficiency = pos efficiency }

abbrev pub ratchet : SocRatchetConfig ℤ
ratchet = record {
  enabled = true;
  target_interval = 864_000_000_000;
  full_threshold_pct = pos 98_000;
  step_pct = pos 10_000;
  cap_pct = pos 50_000;
  target_pct = pos 100_000;
  hold = 0;
}

abbrev pub home_battery : BatteryConfig ℤ
home_battery = record {
  capacity_kwh = pos 10_000;
  charge_segments = some (segment 3_000 950, []);
  charge_efficiency_curve = none;
  wear_cost_eur_per_kwh = pos 50;
  zero_exchange = true;
  soc_ratchet = ratchet;
  soc_topic = some "home/soc";
  soc_ratchet_topic = some "home/care";
}

abbrev pub car_charger : EvConfig ℤ
car_charger = record {
  capacity_kwh = pos 60_000;
  charge_segments = (segment 11_000 900, []);
  zero_exchange = true;
  loadbalance = true;
  loadbalance_cmd = some "car/loadbalance";
  inputs = some (record { soc_topic = "car/soc"; plugged_in_topic = "car/plugged" });
}

abbrev pub control : ControlConfig ℤ
control = record {
  exchange_epsilon_kw = pos 50;
  headroom_margin_kw = pos 100;
  switch_delta = pos 10;
  min_enforcer_dwell_steps = 3;
}

abbrev pub household : MimirheimConfig ℤ
household = record {
  batteries = ("home", home_battery) ∷ [];
  ev_chargers = ("car", car_charger) ∷ [];
  pv_arrays = ("roof", record { topic_forecast = "roof/forecast"; zero_export = false }) ∷ [];
  hybrid_inverters = [];
  thermal_boilers = [];
  space_heating_hps = [];
  combi_heat_pumps = [];
  static_loads = [];
  deferrable_loads = [];
  control = control;
  topic_prefix = "mimir";
  prices = [];
  min_horizon_hours = pos 1_000;
  min_dispatch_gain_eur = pos 100;
  max_horizon_steps = 96;
}

abbrev pub car_ready : EvInputs ℤ
car_ready = record {
  soc_kwh = pos 20_000;
  available = true;
  target_soc_kwh = none;
  window_earliest = none;
  window_latest = none;
}

abbrev pub bundle : SolveBundle ℤ
bundle = record {
  strategy = "minimize_cost";
  solve_time_utc = 0;
  triggered_at_utc = none;
  horizon_prices = pos 250 ∷ pos 250 ∷ [];
  horizon_export_prices = pos 100 ∷ pos 100 ∷ [];
  horizon_confidence = pos 1_000 ∷ pos 1_000 ∷ [];
  pv_forecast = pos 1_000 ∷ pos 0 ∷ [];
  pv_forecasts = ("roof", pos 1_000 ∷ pos 0 ∷ []) ∷ [];
  base_load_forecast = pos 0 ∷ pos 0 ∷ [];
  battery_inputs = [];
  ev_inputs = ("car", car_ready) ∷ [];
  hybrid_inverter_inputs = [];
  thermal_boiler_inputs = [];
  space_heating_inputs = [];
  combi_hp_inputs = [];
  deferrable_windows = [];
  deferrable_start_times = [];
}

abbrev pub setpoint : String → ℤ → DeviceSetpoint ℤ
setpoint kind kw = record {
  kw = kw;
  kind = kind;
  power_limit_kw = none;
  zero_exchange_active = none;
  on_off_active = none;
  loadbalance_active = none;
  pv_is_curtailed = none;
  soc_kwh = none;
}

-- the battery takes all that the roof gives
abbrev pub balanced_step : ScheduleStep ℤ
balanced_step = record {
  t = 0;
  grid_import_kw = pos 0;
  grid_export_kw = pos 0;
  devices =
      ("home", setpoint "battery" (negsuc 999))
      ∷ ("car", setpoint "ev_charger" (pos 0))
      ∷ ("roof", setpoint "pv" (pos 1_000))
      ∷ [];
}

abbrev pub importing_step : ScheduleStep ℤ
importing_step = record {
  t = 1;
  grid_import_kw = pos 2_000;
  grid_export_kw = pos 0;
  devices = ("home", setpoint "battery" (negsuc 1_999)) ∷ [];
}

abbrev pub dormant_status : BatteryCareStatus ℤ
dormant_status = record {
  last_full_utc = none;
  care_since_utc = some 0;
  floor_kwh = pos 0;
  since_full_us = none;
  full_target_kwh = none;
  deadline_step = none;
  enforced_target_kwh = none;
  enforced_step = none;
  hold_steps = 0;
  enforced_hold_steps = none;
}

abbrev pub solved : SolveResult ℤ
solved = record {
  strategy = "minimize_cost";
  strategy_degraded = false;
  solve_time_utc = some 0;
  objective_value = pos 0;
  solve_status = "optimal";
  dispatch_suppressed = false;
  naive_cost_eur = pos 1_050;
  optimised_cost_eur = pos 1_000;
  soc_credit_eur = pos 0;
  schedule = balanced_step ∷ importing_step ∷ [];
  deferrable_recommended_starts = [];
  battery_care = ("home", dormant_status) ∷ [];
}
