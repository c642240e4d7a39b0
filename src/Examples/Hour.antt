-- ===== src/Examples/Hour.antt =====
-- For the tests: an hour of prices and sunshine, and the snapshot that readiness takes of it.
use mimirheim.Readiness.{topics_of}
use mimirheim.Readiness.{start_topics}
use mimirheim.Readiness.{sensor_topics_of}
use mimirheim.Readiness.{owners}
use mimirheim.Readiness.Snapshot.{values}
use mimirheim.Readiness.Snapshot.{validated}
use mimirheim.Readiness.Snapshot.{sum_series}
use mimirheim.Readiness.Snapshot.{start_times}
use mimirheim.Readiness.Snapshot.{series_agree}
use mimirheim.Readiness.Snapshot.{self_named}
use mimirheim.Readiness.Snapshot.{resampled}
use mimirheim.Readiness.Snapshot.{pv_forecasts_consistent}
use mimirheim.Readiness.Snapshot.{non_empty}
use mimirheim.Readiness.Snapshot.{is_valid_bundle}
use mimirheim.Readiness.Snapshot.{differ}
use mimirheim.Readiness.Snapshot.{all_values}
use mimirheim.Readiness.Snapshot.{add_series}
use mimirheim.Readiness.Inputs.{window_from}
use mimirheim.Readiness.Inputs.{thermal_boiler_input}
use mimirheim.Readiness.Inputs.{space_heating_input}
use mimirheim.Readiness.Inputs.{read_optional}
use mimirheim.Readiness.Inputs.{read_entry}
use mimirheim.Readiness.Inputs.{per_step_kwh}
use mimirheim.Readiness.Inputs.{hybrid_input}
use mimirheim.Readiness.Inputs.{ev_inputs_of}
use mimirheim.Readiness.Inputs.{ev_input_from}
use mimirheim.Readiness.Inputs.{ev_input}
use mimirheim.Readiness.Inputs.{deliverable_kwh}
use mimirheim.Readiness.Inputs.{deferrable_window}
use mimirheim.Readiness.Inputs.{combi_hp_input}
use mimirheim.Readiness.Inputs.{combi_from}
use mimirheim.Readiness.Inputs.{collect}
use mimirheim.Readiness.Inputs.{clamp_target}
use mimirheim.Readiness.Inputs.{chargeable_steps}
use mimirheim.Readiness.Inputs.{charge_sum}
use mimirheim.Readiness.Inputs.{building_inputs}
use mimirheim.Readiness.Inputs.{battery_input}
use mimirheim.Readiness.Coverage.{forecast_series}
use mimirheim.Prelude.Sort.{sorted}
use mimirheim.Prelude.Sort.{insert}
use mimirheim.Prelude.Dict.{map_values}
use mimirheim.Forecast.{whole_steps}
use mimirheim.Forecast.{resample_power}
use mimirheim.Forecast.{min_of}
use mimirheim.Forecast.{max_of}
use mimirheim.Forecast.{known_ends}
use mimirheim.Forecast.{held_kw}
use mimirheim.Forecast.{bracket}
use mimirheim.Forecast.{all_ends}
use mimirheim.Forecast.{active_at}
use mimirheim.Forecast.Merge.{pick}
use mimirheim.Forecast.Merge.{or_else}
use mimirheim.Forecast.Merge.{min_candidate}
use mimirheim.Forecast.Merge.{key_lt}
use mimirheim.Forecast.Merge.{first_of}
use mimirheim.Forecast.Merge.{columns}
use mimirheim.BatteryCare.{steps_within}
use mimirheim.BatteryCare.{ceil_steps}
use mimirheim.Forecast.Merge.{source_step}
use mimirheim.Forecast.Merge.{contributions}
use mimirheim.Forecast.Merge.{winner_at}
use mimirheim.Forecast.{range_from}
use mimirheim.Forecast.Merge.{winners}
use mimirheim.Forecast.Merge.{merge_price_sources}
use mimirheim.Readiness.Snapshot.{from_parts}
use mimirheim.Readiness.Snapshot.{assemble}
use mimirheim.Forecast.{compute_horizon_steps}
use mimirheim.Readiness.Coverage.{joint_horizon}
use mimirheim.Forecast.{floor_to_15min}
use mimirheim.Forecast.{last_ts_at_or_after}
use mimirheim.Forecast.{compute_price_horizon_steps}
use mimirheim.Readiness.Coverage.{price_sources}
use mimirheim.Readiness.Coverage.{horizon_steps}
use mimirheim.Readiness.Coverage.{all_received}
use mimirheim.Readiness.Coverage.{is_ready}
use mimirheim.Prelude.{ℕ, ◌≡◌, refl, true, none, some, [], ◌∷◌}
use mimirheim.Prelude.Fixed.{ℤ, pos, milli}
use mimirheim.Bundle.{SolveBundle}
use mimirheim.Examples.{household, bundle, car_ready}
use mimirheim.Forecast.{PriceStep, PowerForecastStep}
use mimirheim.Readiness.{number, flag, prices, powers, ev_state, ReadinessState, initial}
use mimirheim.Readiness.Snapshot.{snapshot}

abbrev price_at : ℕ → PriceStep ℤ
price_at ts = record {
  ts = ts;
  import_eur_per_kwh = pos 250;
  export_eur_per_kwh = pos 100;
  confidence = pos 1_000;
}

abbrev sun_at : ℕ → PowerForecastStep ℤ
sun_at ts = record { ts = ts; kw = pos 1_000; confidence = pos 1_000 }

abbrev pub hour_state : ReadinessState ℤ
unfolding initial
hour_state = record (initial household) {
  entries =
      ("home/soc", (number (pos 5_000), 0))
      ∷ ("car/soc", (ev_state (pos 5_000) none none none, 0))
      ∷ ("car/plugged", (flag true, 0))
      ∷ ("mimir/input/prices", (prices (price_at 0 ∷ price_at 3_600_000_000 ∷ []), 0))
      ∷ ("roof/forecast", (powers (sun_at 0 ∷ sun_at 3_600_000_000 ∷ []), 0))
      ∷ [];
}

abbrev pub hour_bundle : SolveBundle ℤ
hour_bundle = record bundle {
  triggered_at_utc = some 7;
  horizon_prices = pos 250 ∷ pos 250 ∷ pos 250 ∷ pos 250 ∷ [];
  horizon_export_prices = pos 100 ∷ pos 100 ∷ pos 100 ∷ pos 100 ∷ [];
  horizon_confidence = pos 1_000 ∷ pos 1_000 ∷ pos 1_000 ∷ pos 1_000 ∷ [];
  pv_forecast = pos 1_000 ∷ pos 1_000 ∷ pos 1_000 ∷ pos 1_000 ∷ [];
  pv_forecasts = ("roof", pos 1_000 ∷ pos 1_000 ∷ pos 1_000 ∷ pos 1_000 ∷ []) ∷ [];
  base_load_forecast = pos 0 ∷ pos 0 ∷ pos 0 ∷ pos 0 ∷ [];
  battery_inputs =
      ("home", record { soc_kwh = pos 5_000; last_full_utc = none; care_since_utc = none }) ∷ [];
  ev_inputs = ("car", record car_ready { soc_kwh = pos 5_000 }) ∷ [];
}

-- the readings of the clock are 7 microseconds after the epoch
pub hour_taken : snapshot hour_state 7 7 ≡ some hour_bundle
unfolding hour_state snapshot is_ready all_received horizon_steps price_sources
    compute_price_horizon_steps last_ts_at_or_after floor_to_15min joint_horizon
    compute_horizon_steps assemble from_parts merge_price_sources winners range_from winner_at
    contributions source_step ceil_steps steps_within columns first_of key_lt min_candidate or_else
    pick active_at all_ends bracket held_kw known_ends max_of min_of resample_power whole_steps
    map_values insert sorted forecast_series battery_input building_inputs charge_sum
    chargeable_steps clamp_target collect combi_from combi_hp_input deferrable_window
    deliverable_kwh ev_input ev_input_from ev_inputs_of hybrid_input per_step_kwh read_entry
    read_optional space_heating_input thermal_boiler_input window_from add_series all_values differ
    is_valid_bundle non_empty pv_forecasts_consistent resampled self_named series_agree start_times
    sum_series validated values initial owners sensor_topics_of start_topics topics_of
hour_taken = refl
