-- ===== src/Config.antt =====
-- mimirheim/config/schema.py: the fields that the modelled components read, after validation.
-- A list that the schema requires to be non-empty is a first element and a list of others.
use mimirheim.Prelude.{ℕ, String, Bool, Option, List}
use mimirheim.Prelude.Dict.{Dict}
use mimirheim.BatteryCare.{SocRatchetConfig}

abbrev pub NonEmpty : Type 0 → Type 0
NonEmpty A = A × List A

pub record EfficiencySegment (F : Type 0) : Type 0 where
  pub power_max_kw : F
  pub efficiency : F

pub record EfficiencyBreakpoint (F : Type 0) : Type 0 where
  pub power_kw : F
  pub efficiency : F

-- `soc_topic` is `inputs.soc.topic` where `inputs` is configured; `soc_ratchet_topic` is
-- `outputs.soc_ratchet`; `zero_exchange` is the capability.
pub record BatteryConfig (F : Type 0) : Type 0 where
  pub capacity_kwh : F
  pub charge_segments : Option (NonEmpty (EfficiencySegment F))
  pub charge_efficiency_curve : Option (NonEmpty (EfficiencyBreakpoint F))
  pub wear_cost_eur_per_kwh : F
  pub zero_exchange : Bool
  pub soc_ratchet : SocRatchetConfig F
  pub soc_topic : Option String
  pub soc_ratchet_topic : Option String

pub record EvInputsConfig : Type 0 where
  pub soc_topic : String
  pub plugged_in_topic : String

pub record EvConfig (F : Type 0) : Type 0 where
  pub capacity_kwh : F
  pub charge_segments : NonEmpty (EfficiencySegment F)
  pub zero_exchange : Bool
  pub loadbalance : Bool
  pub loadbalance_cmd : Option String
  pub inputs : Option EvInputsConfig

-- `soc_topic` is `inputs.soc.topic` where `inputs` is configured.
pub record HybridInverterConfig (F : Type 0) : Type 0 where
  pub max_charge_kw : F
  pub inverter_efficiency : F
  pub wear_cost_eur_per_kwh : F
  pub zero_exchange : Bool
  pub soc_topic : Option String
  pub topic_pv_forecast : String

pub record PvConfig : Type 0 where
  pub topic_forecast : String
  pub zero_export : Bool

-- `topic_current_temp` is that of `inputs`.
pub record ThermalBoilerConfig : Type 0 where
  pub topic_current_temp : Option String

pub record BuildingThermalInputsConfig : Type 0 where
  pub topic_current_indoor_temp_c : String
  pub topic_outdoor_temp_forecast_c : String

-- `building` is `building_thermal.inputs` where both are configured.
pub record SpaceHeatingConfig : Type 0 where
  pub topic_heat_needed_kwh : Option String
  pub building : Option BuildingThermalInputsConfig

pub record CombiHeatPumpInputsConfig : Type 0 where
  pub topic_current_temp : String
  pub topic_heat_needed_kwh : String

pub record CombiHeatPumpConfig : Type 0 where
  pub inputs : Option CombiHeatPumpInputsConfig
  pub building : Option BuildingThermalInputsConfig

pub record StaticLoadConfig : Type 0 where
  pub topic_forecast : String

pub record DeferrableLoadConfig : Type 0 where
  pub topic_window_earliest : Option String
  pub topic_window_latest : Option String
  pub topic_committed_start_time : Option String

pub record ControlConfig (F : Type 0) : Type 0 where
  pub exchange_epsilon_kw : F
  pub headroom_margin_kw : F
  pub switch_delta : F
  pub min_enforcer_dwell_steps : ℕ

pub record MimirheimConfig (F : Type 0) : Type 0 where
  pub batteries : Dict (BatteryConfig F)
  pub ev_chargers : Dict (EvConfig F)
  pub pv_arrays : Dict PvConfig
  pub hybrid_inverters : Dict (HybridInverterConfig F)
  pub thermal_boilers : Dict ThermalBoilerConfig
  pub space_heating_hps : Dict SpaceHeatingConfig
  pub combi_heat_pumps : Dict CombiHeatPumpConfig
  pub static_loads : Dict StaticLoadConfig
  pub deferrable_loads : Dict DeferrableLoadConfig
  pub control : ControlConfig F
  pub topic_prefix : String
  pub prices : List String
  pub min_horizon_hours : F
  pub min_dispatch_gain_eur : F
  pub max_horizon_steps : ℕ
