-- ===== src/SolveLoop.antt =====
-- mimirheim/__main__.py: `_clip_bundle` and one iteration of the solve loop.
-- `build_and_solve` is a parameter: a solve that raises is `none`. What raises after it is a `Fault`,
-- the exception an iteration meets if it gets that far. Of the publisher its calls are modelled, and
-- the status that `publish_last_solve_status` of mimirheim/io/mqtt_publisher.py reports. Dumps,
-- reports, the queue and logging are not modelled.
pub mod Outdoor
pub mod Clip
pub mod Calls
pub mod Publish
pub mod Suppressed
mod Tests
use text.Mathlib.Text.{◌==◌}
use mimirheim.Prelude.{
  ℕ, zero, suc, String, Bool, true, false, not, ◌&&◌, Option, none, some, List, [], ◌∷◌, ◌++◌,
  length, leb, if◌then◌else◌, ◌>>=◌,
}
use mimirheim.Prelude.Float.{Float}
use mimirheim.Prelude.Dict.{Dict, map_values}
use mimirheim.Config.{MimirheimConfig}
use mimirheim.Bundle.{
  HybridInverterInputs, SpaceHeatingInputs, CombiHeatPumpInputs, SolveBundle, SolveResult,
}
use mimirheim.Readiness.Snapshot.{validated}
use mimirheim.PostProcess.{apply_gain_threshold}
use mimirheim.Arbitration.Assign.{assign_control_authority}

-- `xs[:n]`
unfoldable pub take {ℓ} : {A : Type ℓ} → ℕ → List A → List A
take zero xs = []
take (suc n) [] = []
take (suc n) (x ∷ xs) = x ∷ take n xs

unfoldable pub take_given : {F : Type 0} → ℕ → Option (List F) → Option (List F)
unfolding take
take_given n none = none
take_given n (some xs) = some (take n xs)

unfoldable pub cut_hybrid : {F : Type 0} → ℕ → HybridInverterInputs F → HybridInverterInputs F
cut_hybrid n i = record i { pv_forecast_kw = take n i.pv_forecast_kw }

unfoldable pub cut_space_heating : {F : Type 0} → ℕ → SpaceHeatingInputs F → SpaceHeatingInputs F
unfolding take_given
cut_space_heating n i = record i {
  outdoor_temp_forecast_c = take_given n i.outdoor_temp_forecast_c;
}

unfoldable pub cut_combi_hp : {F : Type 0} → ℕ → CombiHeatPumpInputs F → CombiHeatPumpInputs F
unfolding take_given
cut_combi_hp n i = record i { outdoor_temp_forecast_c = take_given n i.outdoor_temp_forecast_c }

-- the bundle with every per-step series cut
unfoldable pub cut_bundle : {F : Type 0} → SolveBundle F → ℕ → SolveBundle F
unfolding map_values
cut_bundle b n = record b {
  horizon_prices = take n b.horizon_prices;
  horizon_export_prices = take n b.horizon_export_prices;
  horizon_confidence = take n b.horizon_confidence;
  pv_forecast = take n b.pv_forecast;
  base_load_forecast = take n b.base_load_forecast;
  pv_forecasts = map_values (take n) b.pv_forecasts;
  hybrid_inverter_inputs = map_values (cut_hybrid n) b.hybrid_inverter_inputs;
  space_heating_inputs = map_values (cut_space_heating n) b.space_heating_inputs;
  combi_hp_inputs = map_values (cut_combi_hp n) b.combi_hp_inputs;
}

-- The calls of the publisher that an iteration makes, raising or not.
pub data Action (F : Type 0) : Type 0 where
  set_care_overrides : Action F
  publish_result : SolveResult F → Action F
  publish_battery_care : Option (SolveResult F) → Action F
  publish_status : Option (SolveResult F) → (failed : Bool) → Action F

-- The statement of the `try` body after the solve that raises, if one does.
pub data Fault : Type 0 where
  no_fault : Fault
  threshold_raises : Fault
  authority_raises : Fault
  overrides_raise : Fault
  publisher_raises : Fault

module _ {F : Type 0} ⦃f : Float F⦄ where
  unfoldable pub clip_bundle : SolveBundle F → ℕ → Option (SolveBundle F)
  unfolding cut_bundle
  clip_bundle b max_steps =
      if leb (length b.horizon_prices) max_steps then some b else validated (cut_bundle b max_steps)

  -- the two functions that follow the solve
  unfoldable pub post_process : SolveResult F → SolveBundle F → MimirheimConfig F → SolveResult F
  post_process result bundle config =
      assign_control_authority (apply_gain_threshold result bundle config) bundle config

  -- the variable `result` after the two functions, and whether one of them raised
  unfoldable pub processed :
      Fault → SolveResult F → SolveBundle F → MimirheimConfig F → SolveResult F × Bool
  processed threshold_raises result bundle config = (result, true)
  processed authority_raises result bundle config =
      (apply_gain_threshold result bundle config, true)
  processed no_fault result bundle config = (post_process result bundle config, false)
  processed overrides_raise result bundle config = (post_process result bundle config, false)
  processed publisher_raises result bundle config = (post_process result bundle config, false)

  -- `publish_last_solve_status`: whether the status is "ok"
  unfoldable pub reports_ok : Option (SolveResult F) → (failed : Bool) → Bool
  reports_ok none failed = false
  reports_ok (some result) failed = not failed && not (result.solve_status == "infeasible")

  -- the `except` branch and the status; `again` tells whether its hand-over raises too
  unfoldable pub recover : (again : Bool) → Option (SolveResult F) → List (Action F)
  recover again result =
      set_care_overrides
      ∷ ((if again then [] else publish_battery_care result ∷ [])
          ++ (publish_status result true ∷ []))

  -- the publication of a result
  unfoldable pub announce : SolveResult F → Action F
  announce result =
      if result.solve_status == "infeasible"
      then publish_battery_care (some result)
      else publish_result result

  -- the `try` statement from the hand-over on, and the status
  unfoldable pub publish : Fault → (again : Bool) → SolveResult F → List (Action F)
  unfolding recover announce
  publish overrides_raise again result = set_care_overrides ∷ recover again (some result)
  publish publisher_raises again result =
      set_care_overrides ∷ announce result ∷ recover again (some result)
  publish no_fault again result =
      set_care_overrides ∷ announce result ∷ publish_status (some result) false ∷ []
  publish threshold_raises again result = recover again (some result)
  publish authority_raises again result = recover again (some result)

  -- the whole `try` statement after the solve, and the status
  unfoldable pub conclude : Fault → (again : Bool) → Option (SolveResult F × Bool) → List (Action F)
  unfolding recover publish
  conclude fault again none = recover again none
  conclude fault again (some (result, true)) = recover again (some result)
  conclude fault again (some (result, false)) = publish fault again result

  module _ (build_and_solve : SolveBundle F → MimirheimConfig F → Option (SolveResult F))
      (config : MimirheimConfig F) where
    -- the variable `result` after post-processing, where neither the clipping nor the solve raises
    unfoldable pub solved : Fault → SolveBundle F → Option (SolveResult F × Bool)
    unfolding processed
    solved fault bundle = do
      clipped ← clip_bundle bundle config.max_horizon_steps
      result ← build_and_solve clipped config
      some (processed fault result clipped config)

    -- One iteration with a bundle from the queue.
    unfoldable pub iterate : Fault → (again : Bool) → SolveBundle F → List (Action F)
    unfolding solved conclude
    iterate fault again bundle = conclude fault again (solved fault bundle)
