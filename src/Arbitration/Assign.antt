-- ===== src/Arbitration/Assign.antt =====
-- `assign_control_authority`: the flags of every step of a schedule.
use text.Mathlib.Text.{◌==◌}
use mimirheim.Prelude.{
  String, Bool, false, not, ◌&&◌, Option, none, some, List, [], ◌∷◌, is_some, if◌then◌else◌,
}
use mimirheim.Prelude.Float.{Float, max}
use mimirheim.Prelude.Dict.{Dict, get, map_values}
use mimirheim.Config.{MimirheimConfig}
use mimirheim.Bundle.{SolveBundle, DeviceSetpoint, ScheduleStep, SolveResult}
use mimirheim.Arbitration.Score.{member, available, is_near_zero_exchange, build_candidates}
use mimirheim.Arbitration.Choose.{Authority, no_authority, choose}

-- the names of the entries that pass a test
unfoldable pub names_where : {V : Type 0} → (V → Bool) → Dict V → List String
names_where p [] = []
names_where p ((name, v) ∷ d) = let rest = names_where p d in if p v then name ∷ rest else rest

unfoldable pub append : List String → List String → List String
append [] names = names
append (n ∷ more) names = n ∷ append more names

-- `name == enforcer_name`
unfoldable pub is_enforcer : String → Option String → Bool
is_enforcer name none = false
is_enforcer name (some enforcer) = name == enforcer

module _ {F : Type 0} where
  unfoldable pub collect_zex_capable : MimirheimConfig F → List String
  unfolding names_where append
  collect_zex_capable config = append (names_where (λ c. c.zero_exchange) config.batteries) (
      append (names_where (λ c. c.zero_exchange) config.ev_chargers) (
        append (names_where (λ c. c.zero_export) config.pv_arrays)
          (names_where (λ c. c.zero_exchange) config.hybrid_inverters)))

  unfoldable pub collect_loadbalance_capable : MimirheimConfig F → List String
  unfolding names_where
  collect_loadbalance_capable config =
      names_where (λ ev. ev.loadbalance && is_some ev.loadbalance_cmd) config.ev_chargers

  -- the two updates of one setpoint: each is made where the device has the capability
  unfoldable pub set_flags : Bool → Bool → Bool → Bool → DeviceSetpoint F → DeviceSetpoint F
  set_flags in_zex zex_active in_lb lb_active sp =
      let flagged = if in_zex then record sp { zero_exchange_active = some zex_active } else sp in
      if in_lb then record flagged { loadbalance_active = some lb_active } else flagged

  unfoldable pub enforcer_is_battery : MimirheimConfig F → Option String → Bool
  enforcer_is_battery config none = false
  enforcer_is_battery config (some enforcer) = is_some (get config.batteries enforcer)

  -- a device of a step with no enforcer needed
  unfoldable pub cleared_setpoint :
      List String → List String → Dict Bool → String → DeviceSetpoint F → DeviceSetpoint F
  unfolding set_flags
  cleared_setpoint zex lb ev_available name sp =
      set_flags (member name zex) false (member name lb) (available ev_available name) sp

  -- a device of a near-zero-exchange step
  unfoldable pub enforced_setpoint :
      MimirheimConfig F
      → List String
      → List String
      → Dict Bool
      → Option String
      → String
      → DeviceSetpoint F
      → DeviceSetpoint F
  unfolding set_flags is_enforcer enforcer_is_battery
  enforced_setpoint config zex lb ev_available enforcer name sp =
      set_flags (member name zex) (is_enforcer name enforcer) (member name lb)
        (available ev_available name
          && not (is_enforcer name enforcer)
          && not (enforcer_is_battery config enforcer))
        sp

  -- `{name: g(name, sp) for name, sp in devices.items()}`
  unfoldable pub map_devices :
      (String → DeviceSetpoint F → DeviceSetpoint F)
      → Dict (DeviceSetpoint F)
      → Dict (DeviceSetpoint F)
  map_devices g [] = []
  map_devices g ((name, sp) ∷ devices) = (name, g name sp) ∷ map_devices g devices

module _ {F : Type 0} ⦃f : Float F⦄ (config : MimirheimConfig F) (ev_available : Dict Bool) where
  abbrev pub zex : List String
  zex = collect_zex_capable config

  abbrev pub lb : List String
  lb = collect_loadbalance_capable config

  -- the enforcer of a near-zero-exchange step, and the next state
  unfoldable pub choose_for : ScheduleStep F → Authority F → Option String × Authority F
  unfolding choose build_candidates
  choose_for step authority =
      choose config.control
        (build_candidates step (max step.grid_import_kw step.grid_export_kw) zex ev_available config
          config.control.headroom_margin_kw)
        authority

  abbrev pub near_zero : ScheduleStep F → Bool
  near_zero step = is_near_zero_exchange step config.control.exchange_epsilon_kw

  unfoldable pub assign_step : ScheduleStep F → Authority F → ScheduleStep F × Authority F
  unfolding map_devices cleared_setpoint enforced_setpoint
  assign_step step authority =
      if near_zero step
      then (let (enforcer, next) = choose_for step authority in
          (
            record step {
              devices =
                  map_devices (enforced_setpoint config zex lb ev_available enforcer) step.devices;
            },
            next,
          ))
      else (
        record step { devices = map_devices (cleared_setpoint zex lb ev_available) step.devices },
        no_authority,
      )

  unfoldable pub assign_steps : Authority F → List (ScheduleStep F) → List (ScheduleStep F)
  assign_steps authority [] = []
  assign_steps authority (step ∷ schedule) =
      let (updated, next) = assign_step step authority in updated ∷ assign_steps next schedule

module _ {F : Type 0} ⦃f : Float F⦄ where
  -- `{name: inp.available for name, inp in bundle.ev_inputs.items()}`
  abbrev pub availability : SolveBundle F → Dict Bool
  availability bundle = map_values (λ inp. inp.available) bundle.ev_inputs

  unfoldable pub assign_control_authority :
      SolveResult F → SolveBundle F → MimirheimConfig F → SolveResult F
  unfolding assign_steps map_values
  assign_control_authority result bundle config = elim result.schedule [
    | [] ↦ result
    | _ ∷ _ ↦ record result {
      schedule = assign_steps config (availability bundle) no_authority result.schedule;
    }
  ]
