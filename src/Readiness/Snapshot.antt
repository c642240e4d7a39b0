-- ===== src/Readiness/Snapshot.antt =====
-- mimirheim/core/readiness.py: `snapshot`, with the validation of the bundle that it constructs
-- (mimirheim/core/bundle.py). The result is `none` where the code raises.
use mimirheim.Prelude.{
  zero, suc, ℕ, String, Bool, true, false, not, ◌&&◌, Option, none, some, List, [], ◌∷◌, replicate,
  length, if◌then◌else◌, ◌==◌, ◌>>=◌,
}
use mimirheim.Prelude.Float.{Float, lt}
use mimirheim.Prelude.Dict.{Dict, put}
use mimirheim.Forecast.{floor_to_15min, resample_power}
use mimirheim.Forecast.Merge.{merge_price_sources}
use mimirheim.Bundle.{
  BatteryInputs, EvInputs, HybridInverterInputs, SpaceHeatingInputs, CombiHeatPumpInputs,
  ThermalBoilerInputs, DeferrableWindow, SolveBundle,
}
use mimirheim.Readiness.{Input, label, ReadinessState}
use mimirheim.Readiness.Coverage.{is_ready, horizon_steps, price_sources}
use mimirheim.Readiness.Inputs.{
  as_powers, as_instant, read_entry, collect, battery_input, ev_input, deferrable_window,
  hybrid_input, thermal_boiler_input, space_heating_input, combi_hp_input,
}

-- the loops that read one entry for each of a dict's topics
unfoldable pub start_times :
    {F : Type 0} → Dict (Input F × ℕ) → Dict String → Dict ℕ → Option (Dict ℕ)
start_times entries [] times = some times
start_times entries ((topic, name) ∷ topics) times = elim (read_entry as_instant entries topic) [
  | none ↦ none
  | some none ↦ start_times entries topics times
  | some (some t) ↦ start_times entries topics (put times name t)
]

-- a load's topic stands under itself, since only the sum of the loads is kept
unfoldable pub self_named : List String → Dict String
self_named [] = []
self_named (topic ∷ topics) = (topic, topic) ∷ self_named topics

unfoldable pub all_values : {V : Type 0} → (V → Bool) → Dict V → Bool
all_values p [] = true
all_values p ((name, v) ∷ d) = p v && all_values p d

module _ {F : Type 0} ⦃f : Float F⦄ where
  -- `for t, v in enumerate(series): total[t] += v`, of a series that is not longer
  unfoldable pub add_series : List F → List F → List F
  add_series [] series = []
  add_series (a ∷ total) [] = a ∷ total
  add_series (a ∷ total) (v ∷ series) = f.add a v ∷ add_series total series

  unfoldable pub sum_series : List F → List (List F) → List F
  unfolding add_series
  sum_series total [] = total
  sum_series total (series ∷ more) = sum_series (add_series total series) more

  -- the resampled series of the topics that have published, with their names
  unfoldable pub resampled : Dict (Input F × ℕ) → ℕ → ℕ → Dict String → Option (Dict (List F))
  resampled entries solve_start n_steps = collect λ name topic. do
    steps ← read_entry as_powers entries topic
    some (elim steps [ none ↦ none | some s ↦ some (resample_power s solve_start n_steps) ])

  unfoldable pub values : Dict (List F) → List (List F)
  values [] = []
  values ((name, v) ∷ d) = v ∷ values d

  -- `ge=0`
  abbrev pub nonneg : F → Bool
  nonneg x = f.le f.nil x

  abbrev pub nonneg_if_given : Option F → Bool
  nonneg_if_given none = true
  nonneg_if_given (some x) = nonneg x

  -- `min_length=1`
  unfoldable pub non_empty : List F → Bool
  non_empty [] = false
  non_empty (x ∷ xs) = true

  -- `abs(a - b) > 0.005`
  unfoldable pub differ : F → F → Bool
  differ a b =
      let tolerance = f.div (f.of_nat 5) (f.of_nat 1000) in
      let d = f.sub a b in lt tolerance (if lt d f.nil then f.neg d else d)

  -- the totals agree step by step
  unfoldable pub series_agree : List F → List F → Bool
  unfolding differ
  series_agree [] ys = true
  series_agree (x ∷ xs) [] = true
  series_agree (x ∷ xs) (y ∷ ys) = not (differ x y) && series_agree xs ys

  -- `series[0]` and `series[1:]` of every series that has a value
  unfoldable pub heads : List (List F) → List F
  heads [] = []
  heads ([] ∷ more) = heads more
  heads ((x ∷ xs) ∷ more) = x ∷ heads more

  unfoldable pub tails : List (List F) → List (List F)
  tails [] = []
  tails ([] ∷ more) = [] ∷ tails more
  tails ((x ∷ xs) ∷ more) = xs ∷ tails more

  -- `sum(series[t] for series in …)` of each step
  unfoldable pub step_sums : ℕ → List (List F) → List F
  unfolding heads tails
  step_sums zero series = []
  step_sums (suc n) series = f.sum (heads series) ∷ step_sums n (tails series)

  -- `_pv_forecasts_consistent`
  unfoldable pub pv_forecasts_consistent : List F → Dict (List F) → Bool
  unfolding series_agree values step_sums
  pv_forecasts_consistent total [] = true
  pv_forecasts_consistent total (first ∷ more) =
      all_values (λ series. length series == length total) (first ∷ more)
      && series_agree (step_sums (length total) (values (first ∷ more))) total

  -- `SolveBundle(…)` and the constructors of the inputs accept these values
  unfoldable pub is_valid_bundle : SolveBundle F → Bool
  unfolding non_empty all_values pv_forecasts_consistent
  is_valid_bundle b =
      non_empty b.horizon_prices
      && non_empty b.horizon_export_prices
      && non_empty b.horizon_confidence
      && non_empty b.pv_forecast
      && non_empty b.base_load_forecast
      && all_values (λ i. nonneg i.soc_kwh) b.battery_inputs
      && all_values (λ i. nonneg i.soc_kwh && nonneg_if_given i.target_soc_kwh) b.ev_inputs
      && all_values (λ i. nonneg i.soc_kwh && non_empty i.pv_forecast_kw) b.hybrid_inverter_inputs
      && all_values (λ i. nonneg i.heat_needed_kwh) b.space_heating_inputs
      && all_values (λ i. nonneg i.heat_needed_kwh) b.combi_hp_inputs
      && pv_forecasts_consistent b.pv_forecast b.pv_forecasts

  unfoldable pub validated : SolveBundle F → Option (SolveBundle F)
  validated b = if is_valid_bundle b then some b else none

  -- a strategy that is a text
  abbrev pub as_label : Input F → Option String
  as_label (label s) = some s
  as_label input = none

  -- the bundle of the parts that were read, where none of them raised
  unfoldable pub from_parts :
      (now solve_start n_steps : ℕ)
      → Option (List F × List F × List F)
      → Option (Dict (List F))
      → Option (Dict (List F))
      → Option (Dict (HybridInverterInputs F))
      → Option (Dict (BatteryInputs F))
      → Option (Dict (EvInputs F))
      → Option (Dict DeferrableWindow)
      → Option (Dict ℕ)
      → Option (Dict (ThermalBoilerInputs F))
      → Option (Dict (SpaceHeatingInputs F))
      → Option (Dict (CombiHeatPumpInputs F))
      → Option String
      → Option (SolveBundle F)
  from_parts now solve_start n_steps (some (imports, exports, confidences)) (some pv) (some loads)
        (some hybrids) (some batteries) (some evs) (some windows) (some starts) (some boilers)
        (some heaters) (some combis) (some strategy) =
      validated (record {
        strategy = strategy;
        solve_time_utc = solve_start;
        triggered_at_utc = some now;
        horizon_prices = imports;
        horizon_export_prices = exports;
        horizon_confidence = confidences;
        pv_forecast = sum_series (replicate n_steps f.nil) (values pv);
        pv_forecasts = pv;
        base_load_forecast = sum_series (replicate n_steps f.nil) (values loads);
        battery_inputs = batteries;
        ev_inputs = evs;
        hybrid_inverter_inputs = hybrids;
        thermal_boiler_inputs = boilers;
        space_heating_inputs = heaters;
        combi_hp_inputs = combis;
        deferrable_windows = windows;
        deferrable_start_times = starts;
      })
  from_parts now solve_start n_steps merged pv loads hybrids batteries evs windows starts boilers
        heaters combis strategy =
      none

  -- the bundle of `n_steps` steps from `solve_start`
  unfoldable pub assemble : ReadinessState F → ℕ → ℕ → ℕ → Option (SolveBundle F)
  assemble s now solve_start n_steps =
      from_parts now solve_start n_steps
        (price_sources s.entries s.prices_topics >>= λ sources.
          merge_price_sources sources solve_start n_steps)
        (resampled s.entries solve_start n_steps s.pv_topics)
        (resampled s.entries solve_start n_steps (self_named s.load_topics))
        (collect (hybrid_input s solve_start n_steps) s.config.hybrid_inverters)
        (collect (battery_input s solve_start n_steps) s.config.batteries)
        (collect (ev_input s solve_start n_steps) s.config.ev_chargers)
        (collect (deferrable_window s solve_start n_steps) s.config.deferrable_loads)
        (start_times s.entries s.start_time_topics [])
        (collect (thermal_boiler_input s solve_start n_steps) s.config.thermal_boilers)
        (collect (space_heating_input s solve_start n_steps) s.config.space_heating_hps)
        (collect (combi_hp_input s solve_start n_steps) s.config.combi_heat_pumps)
        (as_label s.current_strategy)

  -- the clock is read for the test and again for the bundle
  unfoldable pub snapshot : ReadinessState F → ℕ → ℕ → Option (SolveBundle F)
  snapshot s checked now = do
    ready ← is_ready s checked
    n_steps ← if ready then horizon_steps s now else none
    assemble s now (floor_to_15min now) n_steps
