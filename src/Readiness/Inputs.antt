-- ===== src/Readiness/Inputs.antt =====
-- mimirheim/core/readiness.py: the device inputs that `snapshot` reads from the entries.
-- Where an entry is not of the kind that the parser of its topic gives, the result is `none`; a topic
-- without an entry is `some none`. The warning of the clamp is not modelled.
use mimirheim.Prelude.{
  ℕ, ◌-◌, String, Bool, Option, none, some, List, [], ◌∷◌, map, if◌then◌else◌, ◌>>=◌,
}
use mimirheim.Prelude.Float.{Float, lt, min}
use mimirheim.Prelude.Dict.{Dict, get}
use mimirheim.BatteryCare.{steps_within, ceil_steps}
use mimirheim.Forecast.{PowerForecastStep, resample_power, step_duration}
use mimirheim.Config.{
  EfficiencySegment, BatteryConfig, EvConfig, HybridInverterConfig, BuildingThermalInputsConfig,
  ThermalBoilerConfig, SpaceHeatingConfig, CombiHeatPumpConfig, DeferrableLoadConfig,
}
use mimirheim.Bundle.{
  BatteryInputs, EvInputs, HybridInverterInputs, SpaceHeatingInputs, CombiHeatPumpInputs,
  ThermalBoilerInputs, DeferrableWindow,
}
use mimirheim.Readiness.{Input, number, flag, powers, instant, numbers, ev_state, ReadinessState}

-- What a parsed EV state holds.
pub record EvState (F : Type 0) : Type 0 where
  pub soc : F
  pub target_soc_kwh : Option F
  pub window_earliest : Option ℕ
  pub window_latest : Option ℕ

module _ {F : Type 0} where
  abbrev pub as_number : Input F → Option F
  as_number (number x) = some x
  as_number input = none

  abbrev pub as_flag : Input F → Option Bool
  as_flag (flag b) = some b
  as_flag input = none

  abbrev pub as_powers : Input F → Option (List (PowerForecastStep F))
  as_powers (powers steps) = some steps
  as_powers input = none

  abbrev pub as_instant : Input F → Option ℕ
  as_instant (instant t) = some t
  as_instant input = none

  abbrev pub as_numbers : Input F → Option (List F)
  as_numbers (numbers xs) = some xs
  as_numbers input = none

  abbrev pub as_ev_state : Input F → Option (EvState F)
  as_ev_state (ev_state soc target earliest latest) = some (record {
    soc = soc;
    target_soc_kwh = target;
    window_earliest = earliest;
    window_latest = latest;
  })
  as_ev_state input = none

  -- `entries.get(topic)`, with its value read as one kind
  unfoldable pub read_entry :
      {A : Type 0} → (Input F → Option A) → Dict (Input F × ℕ) → String → Option (Option A)
  read_entry as_kind entries topic = elim (get entries topic) [
    | none ↦ some none
    | some entry ↦ elim (as_kind entry.0) [ none ↦ none | some a ↦ some (some a) ]
  ]

  -- the same for a topic that may not be configured
  unfoldable pub read_optional :
      {A : Type 0} → (Input F → Option A) → Dict (Input F × ℕ) → Option String → Option (Option A)
  unfolding read_entry
  read_optional as_kind entries none = some none
  read_optional as_kind entries (some topic) = read_entry as_kind entries topic

-- A loop over devices of which each gives an input, none, or an exception.
unfoldable pub collect :
    {V W : Type 0} → (String → V → Option (Option W)) → Dict V → Option (Dict W)
collect each [] = some []
collect each ((name, v) ∷ d) =
    let rest = collect each d in
    elim (each name v) [
      | none ↦ none
      | some none ↦ rest
      | some (some w) ↦ elim rest [ none ↦ none | some ws ↦ some ((name, w) ∷ ws) ]
    ]

-- the steps that both window ends permit: one more than the last step less the first, and none
-- where that is negative
unfoldable pub chargeable_steps : ℕ → Option ℕ → ℕ → ℕ
chargeable_steps solve_start earliest latest =
    let first : ℕ = elim earliest [
      | none ↦ 0
      | some e ↦ ceil_steps (e - solve_start) step_duration
    ] in
    steps_within (latest - solve_start) step_duration - first

module _ {F : Type 0} ⦃f : Float F⦄ where
  -- `sum(seg.power_max_kw * seg.efficiency for seg in …)`
  unfoldable pub charge_sum : List (EfficiencySegment F) → F
  charge_sum segments = f.sum (map (λ seg. f.mul seg.power_max_kw seg.efficiency) segments)

  unfoldable pub per_step_kwh : EvConfig F → F
  unfolding charge_sum
  per_step_kwh cfg =
      let (first, segments) = cfg.charge_segments in
      f.mul (f.div (f.of_nat 1) (f.of_nat 4)) (charge_sum (first ∷ segments))

  unfoldable pub deliverable_kwh : EvConfig F → EvState F → ℕ → ℕ → F
  unfolding per_step_kwh chargeable_steps
  deliverable_kwh cfg ev solve_start latest = min cfg.capacity_kwh (
      f.add ev.soc (
        f.mul (f.of_nat (chargeable_steps solve_start ev.window_earliest latest))
          (per_step_kwh cfg)))

  -- the target after the deliverability clamp
  unfoldable pub clamp_target : EvConfig F → EvState F → ℕ → Option F → Option ℕ → Option F
  clamp_target cfg ev solve_start none latest = none
  clamp_target cfg ev solve_start (some target) none = some target
  clamp_target cfg ev solve_start (some target) (some latest) =
      let deliverable = deliverable_kwh cfg ev solve_start latest in
      some (if lt deliverable target then deliverable else target)

  unfoldable pub ev_inputs_of : EvConfig F → EvState F → Bool → ℕ → EvInputs F
  unfolding clamp_target
  ev_inputs_of cfg ev available solve_start = record {
    soc_kwh = ev.soc;
    available = available;
    target_soc_kwh = clamp_target cfg ev solve_start ev.target_soc_kwh ev.window_latest;
    window_earliest = ev.window_earliest;
    window_latest = ev.window_latest;
  }

  module _ (s : ReadinessState F) (solve_start n_steps : ℕ) where
    unfoldable pub battery_input : String → BatteryConfig F → Option (Option (BatteryInputs F))
    unfolding read_optional
    battery_input name cfg = do
      soc ← read_optional as_number s.entries cfg.soc_topic
      elim soc [
        | none ↦ some none
        | some soc_kwh ↦ some (
            some (record {
              soc_kwh = soc_kwh;
              last_full_utc = get s.last_full_utc name;
              care_since_utc = get s.care_since_utc name;
            }))
      ]

    -- both entries, or none where one is missing
    unfoldable pub ev_input_from :
        EvConfig F → Option (EvState F) → Option Bool → Option (EvInputs F)
    unfolding ev_inputs_of
    ev_input_from cfg (some ev) (some available) = some (ev_inputs_of cfg ev available solve_start)
    ev_input_from cfg soc plug = none

    unfoldable pub ev_input : String → EvConfig F → Option (Option (EvInputs F))
    unfolding read_entry ev_input_from
    ev_input name cfg = elim cfg.inputs [
      | none ↦ some none
      | some inputs ↦ do
        soc ← read_entry as_ev_state s.entries inputs.soc_topic
        plug ← read_entry as_flag s.entries inputs.plugged_in_topic
        some (ev_input_from cfg soc plug)
    ]

    unfoldable pub window_from : Option ℕ → Option ℕ → Option DeferrableWindow
    window_from (some earliest) (some latest) =
        some (record { earliest = earliest; latest = latest })
    window_from earliest latest = none

    unfoldable pub deferrable_window :
        String → DeferrableLoadConfig → Option (Option DeferrableWindow)
    unfolding read_optional window_from
    deferrable_window name cfg = do
      earliest ← read_optional as_instant s.entries cfg.topic_window_earliest
      latest ← read_optional as_instant s.entries cfg.topic_window_latest
      some (window_from earliest latest)

    unfoldable pub hybrid_input :
        String → HybridInverterConfig F → Option (Option (HybridInverterInputs F))
    unfolding read_entry read_optional
    hybrid_input name cfg = do
      pv ← read_entry as_powers s.entries cfg.topic_pv_forecast
      elim pv [
        | none ↦ some none
        | some steps ↦ do
          soc ← read_optional as_number s.entries cfg.soc_topic
          some (
              some (record {
                soc_kwh = elim soc [ none ↦ f.nil | some x ↦ x ];
                pv_forecast_kw = resample_power steps solve_start n_steps;
              }))
      ]

    unfoldable pub thermal_boiler_input :
        String → ThermalBoilerConfig → Option (Option (ThermalBoilerInputs F))
    unfolding read_optional
    thermal_boiler_input name cfg = do
      temp ← read_optional as_number s.entries cfg.topic_current_temp
      elim temp [ none ↦ some none | some x ↦ some (some (record { current_temp_c = x })) ]

    -- the indoor temperature and the outdoor forecast of a building model, where it is configured
    unfoldable pub building_inputs :
        Option BuildingThermalInputsConfig → Option (Option F × Option (List F))
    unfolding read_entry
    building_inputs none = some (none, none)
    building_inputs (some inputs) = do
      indoor ← read_entry as_number s.entries inputs.topic_current_indoor_temp_c
      outdoor ← read_entry as_numbers s.entries inputs.topic_outdoor_temp_forecast_c
      some (indoor, outdoor)

    unfoldable pub space_heating_input :
        String → SpaceHeatingConfig → Option (Option (SpaceHeatingInputs F))
    unfolding read_optional building_inputs
    space_heating_input name cfg = do
      demand ← read_optional as_number s.entries cfg.topic_heat_needed_kwh
      elim demand [
        | none ↦ some none
        | some heat ↦ do
          btm ← building_inputs cfg.building
          some (
              some (record {
                heat_needed_kwh = heat;
                current_indoor_temp_c = btm.0;
                outdoor_temp_forecast_c = btm.1;
              }))
      ]

    unfoldable pub combi_from :
        Option F → Option F → Option F × Option (List F) → Option (CombiHeatPumpInputs F)
    combi_from (some temp) (some heat) btm = some (record {
      current_temp_c = temp;
      heat_needed_kwh = heat;
      current_indoor_temp_c = btm.0;
      outdoor_temp_forecast_c = btm.1;
    })
    combi_from temp heat btm = none

    unfoldable pub combi_hp_input :
        String → CombiHeatPumpConfig → Option (Option (CombiHeatPumpInputs F))
    unfolding read_entry building_inputs combi_from
    combi_hp_input name cfg = elim cfg.inputs [
      | none ↦ some none
      | some inputs ↦ do
        temp ← read_entry as_number s.entries inputs.topic_current_temp
        heat ← read_entry as_number s.entries inputs.topic_heat_needed_kwh
        btm ← building_inputs cfg.building
        some (combi_from temp heat btm)
    ]
