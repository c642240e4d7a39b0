-- ===== src/Readiness.antt =====
-- mimirheim/core/readiness.py: the state that incoming messages fill, the full-charge record that
-- is kept in it, and the test that decides whether a solve may start.
-- A set of topics is a list. A call of `datetime.now(UTC)` is an argument. Where a value is not of the
-- kind that the parser of its topic gives, or a battery is not configured, the result is `none`: there
-- the code raises a TypeError or a KeyError. `snapshot` is in Readiness.Snapshot and Readiness.Inputs. The
-- lock, the logging and the messages of `not_ready_reason` and `_check_gaps` are not modelled, nor are
-- the fields that only those read.
pub mod Coverage
pub mod Inputs
pub mod Snapshot
pub mod Lengths
pub mod Clamp
pub mod Care
pub mod Observed
pub mod Run
pub mod Series
pub mod Ready
mod Tests
use text.Mathlib.Text.{◌==◌}
use mimirheim.Prelude.{
  ℕ, ◌*◌, String, Bool, true, false, ◌&&◌, Option, none, some, List, [], ◌∷◌, ◌++◌, map, ltb, leb,
  is_some, if◌then◌else◌,
}
use Prim.Native.String
use mimirheim.Prelude.Float.{Float}
use mimirheim.Prelude.Dict.{Dict, get, put, pop, map_values}
use mimirheim.Config.{
  BatteryConfig, EvConfig, EvInputsConfig, PvConfig, HybridInverterConfig, ThermalBoilerConfig,
  BuildingThermalInputsConfig, SpaceHeatingConfig, CombiHeatPumpInputsConfig, CombiHeatPumpConfig,
  StaticLoadConfig, DeferrableLoadConfig, MimirheimConfig,
}
use mimirheim.BatteryCare.{is_newer, is_older, track_full_charge}
use mimirheim.Forecast.{
  PriceStep, PowerForecastStep, floor_to_15min, compute_price_horizon_steps, compute_horizon_steps,
}

-- The validated input of a topic: a number (SOC, temperature, heat), a plug state, a strategy, a
-- series, the pair of timestamps of a battery's retained status, an instant, a temperature series or a
-- parsed EV state.
pub data Input (F : Type 0) : Type 0 where
  number : F → Input F
  flag : Bool → Input F
  label : String → Input F
  prices : List (PriceStep F) → Input F
  powers : List (PowerForecastStep F) → Input F
  care : Option ℕ → Option ℕ → Input F
  instant : ℕ → Input F
  numbers : List F → Input F
  ev_state : (soc : F) → (target : Option F) → (earliest latest : Option ℕ) → Input F
  nothing : Input F

pub record ReadinessState (F : Type 0) : Type 0 where
  pub entries : Dict (Input F × ℕ)
  pub current_strategy : Input F
  pub config : MimirheimConfig F
  pub strategy_topic : String
  pub prices_topics : List String
  pub min_horizon_steps : ℕ
  pub sensor_topics : List String
  pub battery_soc_owner : Dict String
  pub battery_care_owner : Dict String
  pub last_full_utc : Dict ℕ
  pub care_since_utc : Dict ℕ
  pub observed_full_utc : Dict ℕ
  pub above_since_utc : Dict ℕ
  pub forecast_topics : List String
  pub pv_topics : Dict String
  pub load_topics : List String
  pub start_time_topics : Dict String

-- the topic of a committed start time, with the load that it belongs to
unfoldable pub start_topics : Dict String → Dict DeferrableLoadConfig → Dict String
start_topics topics [] = topics
start_topics topics ((name, load) ∷ d) =
    start_topics
      (elim load.topic_committed_start_time [ none ↦ topics | some topic ↦ put topics topic name ])
      d

-- `if topic is not None: topics.add(topic)`
abbrev pub add_topic : Option String → List String → List String
add_topic none topics = topics
add_topic (some topic) topics = topic ∷ topics

abbrev pub add_building : Option BuildingThermalInputsConfig → List String → List String
add_building none topics = topics
add_building (some inputs) topics =
    inputs.topic_current_indoor_temp_c ∷ inputs.topic_outdoor_temp_forecast_c ∷ topics

-- `for cfg in d.values(): …`, of the topics that each device adds
unfoldable pub topics_of : {V : Type 0} → (V → List String) → Dict V → List String
topics_of each [] = []
topics_of each ((name, cfg) ∷ d) = each cfg ++ topics_of each d

module _ {F : Type 0} where
  -- the topics that a solve waits for
  unfoldable pub sensor_topics_of : MimirheimConfig F → List String
  unfolding topics_of
  sensor_topics_of config =
      topics_of (λ bat. add_topic bat.soc_topic []) config.batteries
      ++ topics_of
          (λ ev. elim ev.inputs [
            | none ↦ []
            | some inputs ↦ inputs.soc_topic ∷ inputs.plugged_in_topic ∷ []
          ])
          config.ev_chargers
      ++ topics_of (λ hi. add_topic hi.soc_topic (hi.topic_pv_forecast ∷ []))
          config.hybrid_inverters
      ++ topics_of (λ tb. add_topic tb.topic_current_temp []) config.thermal_boilers
      ++ topics_of (λ sh. add_topic sh.topic_heat_needed_kwh (add_building sh.building []))
          config.space_heating_hps
      ++ topics_of
          (λ chp. elim chp.inputs [
            | none ↦ add_building chp.building []
            | some inputs ↦
                inputs.topic_current_temp
                ∷ inputs.topic_heat_needed_kwh
                ∷ add_building chp.building []
          ])
          config.combi_heat_pumps

  -- `owner[topic] = name` for each battery that enables the policy and has the topic; the loop
  -- overwrites an earlier battery of the same topic
  unfoldable pub owners :
      (BatteryConfig F → Option String) → Dict String → Dict (BatteryConfig F) → Dict String
  owners topic_of owner [] = owner
  owners topic_of owner ((name, bat) ∷ d) =
      owners topic_of
        (if bat.soc_ratchet.enabled
          then elim (topic_of bat) [ none ↦ owner | some topic ↦ put owner topic name ]
          else owner)
        d

-- `d.setdefault(k, v)`
abbrev pub set_default : Dict ℕ → String → ℕ → Dict ℕ
set_default d k v = elim (get d k) [ none ↦ put d k v | some _ ↦ d ]

-- a timestamp that the clock has not reached counts as none
abbrev pub drop_future : ℕ → Option ℕ → Option ℕ
drop_future now none = none
drop_future now (some t) = if ltb now t then none else some t

-- `if newer(candidate, d.get(k)): d[k] = candidate`
abbrev pub put_if : Bool → Dict ℕ → String → Option ℕ → Dict ℕ
put_if b d k none = d
put_if b d k (some t) = if b then put d k t else d

module _ {F : Type 0} ⦃f : Float F⦄ where
  -- `ReadinessState(config)`
  unfoldable pub initial : MimirheimConfig F → ReadinessState F
  unfolding sensor_topics_of owners
  initial config = record {
    entries = [];
    current_strategy = label "minimize_cost";
    config = config;
    strategy_topic = String.◌++◌ config.topic_prefix "/input/strategy";
    prices_topics = elim config.prices [
      | [] ↦ String.◌++◌ config.topic_prefix "/input/prices" ∷ []
      | topic ∷ topics ↦ topic ∷ topics
    ];
    min_horizon_steps =
        (let steps = f.truncate (f.mul config.min_horizon_hours (f.of_nat 4)) in
          if ltb 1 steps then steps else 1);
    sensor_topics = sensor_topics_of config;
    battery_soc_owner = owners (λ bat. bat.soc_topic) [] config.batteries;
    battery_care_owner = owners (λ bat. bat.soc_ratchet_topic) [] config.batteries;
    last_full_utc = [];
    care_since_utc = [];
    observed_full_utc = [];
    above_since_utc = [];
    forecast_topics =
        topics_of (λ pv. pv.topic_forecast ∷ []) config.pv_arrays
        ++ topics_of (λ load. load.topic_forecast ∷ []) config.static_loads;
    pv_topics = map_values (λ pv. pv.topic_forecast) config.pv_arrays;
    load_topics = topics_of (λ load. load.topic_forecast ∷ []) config.static_loads;
    start_time_topics = start_topics [] config.deferrable_loads;
  }

  -- a reading of the battery `name`: `seen` and `now` are the two clock readings
  unfoldable pub observe_reading :
      ReadinessState F → String → BatteryConfig F → F → ℕ → ℕ → ReadinessState F
  observe_reading s name bat soc_kwh seen now =
      let (above_since, observed) =
        track_full_charge bat.soc_ratchet bat.capacity_kwh soc_kwh now
          (get s.above_since_utc name) in
      record s {
        care_since_utc = set_default s.care_since_utc name seen;
        above_since_utc = elim above_since [
          | none ↦ pop s.above_since_utc name
          | some t ↦ put s.above_since_utc name t
        ];
        last_full_utc = elim observed [
          | none ↦ s.last_full_utc
          | some t ↦ put s.last_full_utc name t
        ];
        observed_full_utc = elim observed [
          | none ↦ s.observed_full_utc
          | some t ↦ put s.observed_full_utc name t
        ];
      }

  -- the retained status of the battery `name`
  unfoldable pub merge_retained :
      ReadinessState F → String → Option ℕ → Option ℕ → ℕ → ReadinessState F
  merge_retained s name last_full care_since now =
      let last_full = drop_future now last_full in
      let care_since = drop_future now care_since in
      record s {
        last_full_utc =
            put_if (is_newer last_full (get s.last_full_utc name)) s.last_full_utc name last_full;
        care_since_utc =
            put_if (is_older care_since (get s.care_since_utc name)) s.care_since_utc name
              care_since;
      }

  -- the branch of a topic that is no battery's SOC topic
  unfoldable pub observe_retained :
      ReadinessState F → Option String → Input F → ℕ → Option (ReadinessState F)
  unfolding merge_retained
  observe_retained s none input now = some s
  observe_retained s (some name) nothing now = some s
  observe_retained s (some name) (care last_full care_since) now =
      some (merge_retained s name last_full care_since now)
  observe_retained s (some name) input now = none

  -- the branch of the SOC topic of the battery `name`
  unfoldable pub observe_soc :
      ReadinessState F
      → String
      → Option (BatteryConfig F)
      → Input F
      → ℕ
      → ℕ
      → Option (ReadinessState F)
  unfolding observe_reading
  observe_soc s name (some bat) (number soc_kwh) seen now =
      some (observe_reading s name bat soc_kwh seen now)
  observe_soc s name bat input seen now = none

  unfoldable pub observe_battery_care :
      ReadinessState F → String → Input F → ℕ → ℕ → Option (ReadinessState F)
  unfolding observe_retained observe_soc
  observe_battery_care s topic input seen now = elim (get s.battery_soc_owner topic) [
    | some name ↦ observe_soc s name (get s.config.batteries name) input seen now
    | none ↦ observe_retained s (get s.battery_care_owner topic) input now
  ]

  -- the clock is read for the entry, for the baseline and for the observation
  unfoldable pub update :
      ReadinessState F → String → Input F → ℕ → ℕ → ℕ → Option (ReadinessState F)
  unfolding observe_battery_care
  update s topic input received seen now =
      if topic == s.strategy_topic
      then some (record s { current_strategy = input })
      else observe_battery_care (record s { entries = put s.entries topic (input, received) }) topic
          input seen now
