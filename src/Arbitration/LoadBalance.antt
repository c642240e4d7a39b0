-- ===== src/Arbitration/LoadBalance.antt =====
-- Load balancing beside an active enforcer.
use text.Mathlib.TextEquality.{eq_iff}
use mimirheim.Prelude.{
  String, ◌≡◌, ◌≢◌, sym, ◌∙◌, Bool, true, false, not, ◌&&◌, Option, some, some_inj, arith, In,
  is_some,
}
use mimirheim.Prelude.Float.{Float}
use mimirheim.Prelude.Dict.{Dict, get}
use mimirheim.Config.{MimirheimConfig}
use mimirheim.Bundle.{DeviceSetpoint, ScheduleStep, SolveBundle, SolveResult}
use mimirheim.Arbitration.Score.{member, available}
use mimirheim.Arbitration.Choose.{no_authority}
use mimirheim.Arbitration.Assign.{
  collect_zex_capable, collect_loadbalance_capable, is_enforcer, enforcer_is_battery,
  enforced_setpoint, zex, lb, choose_for, assign_step, availability, assign_control_authority,
}
use mimirheim.Arbitration.Flags.{IsActive, In-map_devices, set_flags-lb, active_is_enforcer}
use mimirheim.Arbitration.Enforcer.{In_of-assign_steps, assigned_schedule}

module _ {F : Type 0} ⦃f : Float F⦄ (config : MimirheimConfig F) (ev_available : Dict Bool) where
  -- the flag that the enforced setpoint has
  enforced-balancing :
      (enforcer : Option String) (name : String) (old sp : DeviceSetpoint F)
      → member name (lb config ev_available) ≡ true
      → sp
        ≡ enforced_setpoint config
            (zex config ev_available)
            (lb config ev_available)
            ev_available
            enforcer
            name
            old
      → sp.loadbalance_active
        ≡ some (
            available ev_available name
            && not (is_enforcer name enforcer)
            && not (enforcer_is_battery config enforcer))
  unfolding enforced_setpoint
  enforced-balancing enforcer name old sp capable e =
      rw (e, capable)
        (set_flags-lb (member name (zex config ev_available)) (is_enforcer name enforcer)
          (available ev_available name
            && not (is_enforcer name enforcer)
            && not (enforcer_is_battery config enforcer))
          old)

  -- the three conjuncts of the flag, where `other` is the enforcer
  balancing_parts :
      (name other : String)
      → (available ev_available name
          && not (is_enforcer name (some other))
          && not (enforcer_is_battery config (some other)))
        ≡ true
      → (available ev_available name ≡ true)
        × (name ≢ other)
        × (is_some (get config.batteries other) ≡ false)
  unfolding is_enforcer enforcer_is_battery
  balancing_parts name other h =
      (ground arith, λ same. let eq = (eq_iff name other).1 same in ground arith, ground arith)

module _ {F : Type 0} ⦃f : Float F⦄ where
  -- A capable charger that balances load in an assigned step in which a capable device is the
  -- active enforcer has its vehicle connected, is not the enforcer itself, and the enforcer is no
  -- battery.
  pub assign_control_authority-balancing :
      (result : SolveResult F) (bundle : SolveBundle F) (config : MimirheimConfig F)
      (step : ScheduleStep F) (name other : String) (sp other_sp : DeviceSetpoint F)
      → In step (assign_control_authority result bundle config).schedule
      → In {A = String × DeviceSetpoint F} (name, sp) step.devices
      → member name (collect_loadbalance_capable config) ≡ true
      → sp.loadbalance_active ≡ some true
      → In {A = String × DeviceSetpoint F} (other, other_sp) step.devices
      → IsActive (collect_zex_capable config) other other_sp
      → (available (availability bundle) name ≡ true)
        × (name ≢ other)
        × (is_some (get config.batteries other) ≡ false)
  unfolding assign_step
  assign_control_authority-balancing result bundle config step name other sp other_sp m k capable on
        k' a =
      let ev = availability bundle in
      let (old, from, i, e) =
        In_of-assign_steps config ev result.schedule no_authority step
          (rw (assigned_schedule result bundle config) at m) in
      let (z, c) = active_is_enforcer config ev old from other other_sp (rw e at k') a in
      let (old_sp, _, g) =
        In-map_devices
          (enforced_setpoint config (zex config ev) (lb config ev) ev
            (choose_for config ev old from).0)
          old.devices name sp (rw z at (rw e at k)) in
      balancing_parts config ev name other (
        some_inj (
          sym (
            rw c at (
              enforced-balancing config ev (choose_for config ev old from).0 name old_sp sp capable
                g))
          ∙ on))
