-- ===== src/Arbitration/Flags.antt =====
-- The flags of the assigned schedule.
use text.Mathlib.TextEquality.{eq_iff}
use text.Mathlib.TextPositions.{eq_refl}
use mimirheim.Prelude.{
  String, ◌≡◌, refl, sym, ap, ◌∙◌, inl, inr, Bool, true, false, not, ◌&&◌, Option, none, some,
  some_inj, List, [], ◌∷◌, arith, Bool-cases, In,
}
use mimirheim.Prelude.Float.{Float}
use mimirheim.Prelude.Dict.{Dict}
use mimirheim.Config.{MimirheimConfig}
use mimirheim.Bundle.{DeviceSetpoint, ScheduleStep}
use mimirheim.Arbitration.Score.{member, available}
use mimirheim.Arbitration.Choose.{Authority}
use mimirheim.Arbitration.Assign.{
  set_flags, is_enforcer, enforcer_is_battery, cleared_setpoint, enforced_setpoint, map_devices,
  zex, lb, choose_for, near_zero, assign_step,
}

is_enforcer-eq :
    (name : String) (enforcer : Option String)
    → is_enforcer name enforcer ≡ true
    → enforcer ≡ some name
unfolding is_enforcer
is_enforcer-eq name none h = cc
is_enforcer-eq name (some e) h = ap (λ (x : String). some x) (sym ((eq_iff name e).0 h))

module _ {F : Type 0} where
  -- an entry of the mapped devices comes from an entry of the original ones
  pub In-map_devices :
      (g : String → DeviceSetpoint F → DeviceSetpoint F) (devices : Dict (DeviceSetpoint F))
      (name : String) (sp : DeviceSetpoint F)
      → In {A = String × DeviceSetpoint F} (name, sp) (map_devices g devices)
      → (old : DeviceSetpoint F) × In {A = String × DeviceSetpoint F} (name, old) devices
        × (sp ≡ g name old)
  unfolding map_devices
  In-map_devices g [] name sp m = absurd m
  In-map_devices g ((n, s) ∷ devices) name sp (inl e) =
      let en : name ≡ n = ap (λ (p : String × DeviceSetpoint F). p.0) e in
      let es : sp ≡ g n s = ap (λ (p : String × DeviceSetpoint F). p.1) e in
      (s, inl (λ i. (en i, s)), es ∙ ap (λ x. g x s) (sym en))
  In-map_devices g ((n, s) ∷ devices) name sp (inr k) =
      let (old, m, e) = In-map_devices g devices name sp k in (old, inr m, e)

  -- an entry of the original devices is mapped
  In-map_devices_of :
      (g : String → DeviceSetpoint F → DeviceSetpoint F) (devices : Dict (DeviceSetpoint F))
      (name : String) (old : DeviceSetpoint F)
      → In {A = String × DeviceSetpoint F} (name, old) devices
      → In {A = String × DeviceSetpoint F} (name, g name old) (map_devices g devices)
  unfolding map_devices
  In-map_devices_of g [] name old m = m
  In-map_devices_of g ((n, s) ∷ devices) name old (inl e) =
      inl (ap (λ (p : String × DeviceSetpoint F). (p.0, g p.0 p.1)) e)
  In-map_devices_of g ((n, s) ∷ devices) name old (inr k) =
      inr (In-map_devices_of g devices name old k)

  -- the flag that `set_flags` writes for a capable device
  set_flags-zex :
      (zex_active in_lb lb_active : Bool) (sp : DeviceSetpoint F)
      → (set_flags true zex_active in_lb lb_active sp).zero_exchange_active ≡ some zex_active
  unfolding set_flags
  set_flags-zex zex_active in_lb lb_active sp = ground arith

  pub set_flags-lb :
      (in_zex zex_active lb_active : Bool) (sp : DeviceSetpoint F)
      → (set_flags in_zex zex_active true lb_active sp).loadbalance_active ≡ some lb_active
  unfolding set_flags
  set_flags-lb in_zex zex_active lb_active sp = ground arith

module _ {F : Type 0} ⦃f : Float F⦄ (config : MimirheimConfig F) (ev_available : Dict Bool) where
  -- a capable device that is active in a near-zero-exchange step is the enforcer
  enforced-active :
      (enforcer : Option String) (name : String) (old sp : DeviceSetpoint F)
      → member name (zex config ev_available) ≡ true
      → sp
        ≡ enforced_setpoint config
            (zex config ev_available)
            (lb config ev_available)
            ev_available
            enforcer
            name
            old
      → sp.zero_exchange_active ≡ some (is_enforcer name enforcer)
  unfolding enforced_setpoint
  enforced-active enforcer name old sp capable e =
      rw (e, capable)
        (set_flags-zex (is_enforcer name enforcer) (member name (lb config ev_available))
          (available ev_available name
            && not (is_enforcer name enforcer)
            && not (enforcer_is_battery config enforcer))
          old)

  -- no capable device is active in a step that needs no enforcer
  cleared-active :
      (name : String) (old sp : DeviceSetpoint F)
      → member name (zex config ev_available) ≡ true
      → sp
        ≡ cleared_setpoint (zex config ev_available) (lb config ev_available) ev_available name old
      → sp.zero_exchange_active ≡ some false
  unfolding cleared_setpoint
  cleared-active name old sp capable e =
      rw (e, capable)
        (set_flags-zex false (member name (lb config ev_available)) (available ev_available name)
          old)

-- The device has the capability and its flag is on.
abbrev pub IsActive : {F : Type 0} → List String → String → DeviceSetpoint F → Type 0
IsActive capable name sp = (member name capable ≡ true) × (sp.zero_exchange_active ≡ some true)

module _ {F : Type 0} ⦃f : Float F⦄ (config : MimirheimConfig F) (ev_available : Dict Bool) where
  -- An active device of an assigned step is the enforcer that was chosen for it.
  pub active_is_enforcer :
      (step : ScheduleStep F) (authority : Authority F) (name : String) (sp : DeviceSetpoint F)
      → In {A = String × DeviceSetpoint F}
          (name, sp)
          (assign_step config ev_available step authority).0.devices
      → IsActive (zex config ev_available) name sp
      → (near_zero config ev_available step ≡ true)
        × ((choose_for config ev_available step authority).0 ≡ some name)
  unfolding assign_step
  active_is_enforcer step authority name sp m (capable, on) =
      elim (Bool-cases (near_zero config ev_available step)) [
        | inl z ↦
            let enforcer = (choose_for config ev_available step authority).0 in
            let (old, k, e) =
              In-map_devices
                (enforced_setpoint config (zex config ev_available) (lb config ev_available)
                  ev_available enforcer)
                step.devices name sp (rw z at m) in
            (
              z,
              is_enforcer-eq name enforcer (
                  some_inj (
                    sym (enforced-active config ev_available enforcer name old sp capable e) ∙ on)),
            )
        | inr z ↦
            let (old, k, e) =
              In-map_devices
                (cleared_setpoint (zex config ev_available) (lb config ev_available) ev_available)
                step.devices name sp (rw z at m) in
            let off = cleared-active config ev_available name old sp capable e in cc
      ]

  -- The chosen enforcer of a near-zero-exchange step is active.
  pub enforcer_is_active :
      (step : ScheduleStep F) (authority : Authority F) (name : String) (old : DeviceSetpoint F)
      → near_zero config ev_available step ≡ true
      → (choose_for config ev_available step authority).0 ≡ some name
      → In {A = String × DeviceSetpoint F} (name, old) step.devices
      → member name (zex config ev_available) ≡ true
      → (sp : DeviceSetpoint F) × In {A = String × DeviceSetpoint F}
          (name, sp)
          (assign_step config ev_available step authority).0.devices
        × (sp.zero_exchange_active ≡ some true)
  unfolding assign_step
  enforcer_is_active step authority name old z chosen m capable = rw z (
    enforced_setpoint config (zex config ev_available) (lb config ev_available) ev_available
        (choose_for config ev_available step authority).0 name old,
    In-map_devices_of
        (enforced_setpoint config (zex config ev_available) (lb config ev_available) ev_available
          (choose_for config ev_available step authority).0)
        step.devices name old m,
    enforced-active config ev_available (choose_for config ev_available step authority).0 name old _
          capable refl
        ∙ ap (λ (x : Bool). some x) (rw chosen (unfold is_enforcer in eq_refl name)),
  )
