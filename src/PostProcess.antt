-- ===== src/PostProcess.antt =====
-- mimirheim/core/post_process.py: the minimum-gain threshold and the idle schedule.
-- The log call of the suppression is not modelled. Instants are UTC microseconds.
pub mod Threshold
pub mod Idle
mod Tests
use text.Mathlib.Text.{◌==◌}
use mimirheim.Prelude.{
  ℕ, String, Bool, true, false, not, ◌&&◌, ◌||◌, Option, none, some, List, [], ◌∷◌, map, ltb, any,
  is_some, if◌then◌else◌,
}
use mimirheim.Prelude.Float.{Float, lt, max}
use mimirheim.Prelude.Dict.{Dict}
use mimirheim.Config.{MimirheimConfig}
use mimirheim.Bundle.{
  EvInputs, DeferrableWindow, SolveBundle, DeviceSetpoint, ScheduleStep, BatteryCareStatus,
  SolveResult,
}

-- `_CONTROLLABLE_TYPES`
unfoldable pub is_controllable : String → Bool
is_controllable kind =
    kind == "battery"
    || kind == "ev_charger"
    || kind == "deferrable_load"
    || kind == "hybrid_inverter"

-- `_THRESHOLD_STRATEGIES`
unfoldable pub has_threshold : String → Bool
has_threshold strategy = strategy == "minimize_cost" || strategy == "balanced"

unfoldable pub is_future : ℕ → ℕ → Bool
is_future dt reference = ltb reference dt

module _ {F : Type 0} where
  -- a plugged-in vehicle with a target and a deadline that has not passed
  unfoldable pub has_ev_deadline : ℕ → EvInputs F → Bool
  unfolding is_future
  has_ev_deadline solve_time ev =
      ev.available
      && is_some ev.target_soc_kwh
      && elim ev.window_latest [ none ↦ false | some latest ↦ is_future latest solve_time ]

  unfoldable pub has_active_deadline : SolveBundle F → Bool
  unfolding has_ev_deadline
  has_active_deadline bundle =
      if any (λ (e : String × EvInputs F). has_ev_deadline bundle.solve_time_utc e.1)
        bundle.ev_inputs
      then true
      else elim bundle.deferrable_windows [ [] ↦ false | _ ∷ _ ↦ true ]

  unfoldable pub has_enforced_target : Dict (BatteryCareStatus F) → Bool
  has_enforced_target battery_care =
      any (λ (s : String × BatteryCareStatus F). is_some s.1.enforced_target_kwh) battery_care

module _ {F : Type 0} ⦃f : Float F⦄ where
  -- a controllable device is rebuilt with 0 kW and three of its optional fields
  unfoldable pub idle_setpoint : DeviceSetpoint F → DeviceSetpoint F
  idle_setpoint sp =
      if is_controllable sp.kind
      then (record {
        kw = f.nil;
        kind = sp.kind;
        power_limit_kw = sp.power_limit_kw;
        zero_exchange_active = sp.zero_exchange_active;
        on_off_active = none;
        loadbalance_active = sp.loadbalance_active;
        pv_is_curtailed = none;
        soc_kwh = none;
      })
      else sp

  -- `net_non_controllable`, from the value that it has before the remaining devices
  unfoldable pub net_power : F → Dict (DeviceSetpoint F) → F
  net_power net [] = net
  net_power net ((name, sp) ∷ devices) =
      net_power (if is_controllable sp.kind then net else f.add net sp.kw) devices

  unfoldable pub idle_devices : Dict (DeviceSetpoint F) → Dict (DeviceSetpoint F)
  idle_devices [] = []
  idle_devices ((name, sp) ∷ devices) = (name, idle_setpoint sp) ∷ idle_devices devices

  unfoldable pub idle_step : ScheduleStep F → ScheduleStep F
  unfolding net_power idle_devices
  idle_step step =
      let net = net_power f.nil step.devices in
      record {
        t = step.t;
        grid_import_kw = max f.nil (f.neg net);
        grid_export_kw = max f.nil net;
        devices = idle_devices step.devices;
      }

  unfoldable pub build_idle_result : SolveResult F → SolveResult F
  unfolding idle_step
  build_idle_result result = record result {
    dispatch_suppressed = true;
    schedule = map idle_step result.schedule;
  }

  unfoldable pub apply_gain_threshold :
      SolveResult F → SolveBundle F → MimirheimConfig F → SolveResult F
  apply_gain_threshold result bundle config =
      let threshold = config.min_dispatch_gain_eur in
      let gain = f.sub result.naive_cost_eur result.optimised_cost_eur in
      if f.le threshold f.nil
      then result
      else if result.solve_status == "infeasible"
      then result
      else if not (has_threshold bundle.strategy)
      then result
      else if has_active_deadline bundle
      then result
      else if has_enforced_target result.battery_care
      then result
      else if lt gain f.nil || f.le threshold gain
      then result
      else build_idle_result result
