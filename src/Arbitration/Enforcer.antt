-- ===== src/Arbitration/Enforcer.antt =====
-- The enforcer of an assigned schedule: who is active, and when somebody is.
use mimirheim.Prelude.{
  String, ◌≡◌, refl, sym, ap, ◌∙◌, inl, inr, Bool, true, some, some_inj, List, [], ◌∷◌, arith,
  List-cases, In,
}
use mimirheim.Prelude.Float.{Float, max}
use mimirheim.Prelude.Dict.{Dict}
use mimirheim.Config.{MimirheimConfig}
use mimirheim.Bundle.{DeviceSetpoint, ScheduleStep, SolveBundle, SolveResult}
use mimirheim.Arbitration.Score.{member, is_eligible, is_near_zero_exchange}
use mimirheim.Arbitration.Choose.{Authority, no_authority}
use mimirheim.Arbitration.Sound.{choose-Named, choose_total}
use mimirheim.Arbitration.Best.{IsEligible, Named-IsEligible, build_candidates-nonempty}
use mimirheim.Arbitration.Assign.{
  collect_zex_capable, near_zero, choose_for, assign_step, assign_steps, availability,
  assign_control_authority,
}
use mimirheim.Arbitration.Flags.{IsActive, active_is_enforcer, enforcer_is_active}

module _ {F : Type 0} ⦃f : Float F⦄ (config : MimirheimConfig F) (ev_available : Dict Bool) where
  -- an assigned step is made from an original one
  pub In_of-assign_steps :
      (schedule : List (ScheduleStep F)) (authority : Authority F) (step : ScheduleStep F)
      → In step (assign_steps config ev_available authority schedule)
      → (old : ScheduleStep F) × (from : Authority F) × In old schedule
        × (step ≡ (assign_step config ev_available old from).0)
  unfolding assign_steps
  In_of-assign_steps [] authority step m = absurd m
  In_of-assign_steps (s ∷ schedule) authority step (inl e) = (s, authority, inl refl, e)
  In_of-assign_steps (s ∷ schedule) authority step (inr k) =
      let (old, from, m, e) =
        In_of-assign_steps schedule (assign_step config ev_available s authority).1 step k in
      (old, from, inr m, e)

  -- every original step is assigned
  In-assign_steps :
      (schedule : List (ScheduleStep F)) (authority : Authority F) (old : ScheduleStep F)
      → In old schedule
      → (from : Authority F) × In
          (assign_step config ev_available old from).0
          (assign_steps config ev_available authority schedule)
  unfolding assign_steps
  In-assign_steps [] authority old m = absurd m
  In-assign_steps (s ∷ schedule) authority old (inl e) = (
    authority,
    inl (ap (λ (x : ScheduleStep F). (assign_step config ev_available x authority).0) e),
  )
  In-assign_steps (s ∷ schedule) authority old (inr k) =
      let (from, m) =
        In-assign_steps schedule (assign_step config ev_available s authority).1 old k in
      (from, inr m)

  assign_step-t :
      (old : ScheduleStep F) (from : Authority F)
      → (assign_step config ev_available old from).0.t ≡ old.t
  unfolding assign_step
  assign_step-t old from = ground arith

  assign_step-near_zero :
      (old : ScheduleStep F) (from : Authority F)
      → near_zero config ev_available (assign_step config ev_available old from).0
        ≡ near_zero config ev_available old
  unfolding assign_step is_near_zero_exchange
  assign_step-near_zero old from = ground arith

  is_eligible-capable :
      (name : String) (sp : DeviceSetpoint F)
      → is_eligible
          (collect_zex_capable config)
          ev_available
          config
          config.control.headroom_margin_kw
          name
          sp
        ≡ true
      → member name (collect_zex_capable config) ≡ true
  unfolding is_eligible
  is_eligible-capable name sp h = ground arith

  abbrev expected : ScheduleStep F → F
  expected step = max step.grid_import_kw step.grid_export_kw

  -- the chosen enforcer is eligible
  chosen-IsEligible :
      (old : ScheduleStep F) (from : Authority F) (name : String)
      → (choose_for config ev_available old from).0 ≡ some name
      → (sp : DeviceSetpoint F) × IsEligible
          (expected old)
          (collect_zex_capable config)
          ev_available
          config
          config.control.headroom_margin_kw
          old.devices
          name
          sp
  unfolding choose_for
  chosen-IsEligible old from name c =
      Named-IsEligible (expected old) (collect_zex_capable config) ev_available config
        config.control.headroom_margin_kw old name (choose-Named config.control _ from name c)

  -- with an eligible device an enforcer is chosen
  chooses_eligible :
      (old : ScheduleStep F) (from : Authority F) (name : String) (sp : DeviceSetpoint F)
      → In {A = String × DeviceSetpoint F} (name, sp) old.devices
      → is_eligible
          (collect_zex_capable config)
          ev_available
          config
          config.control.headroom_margin_kw
          name
          sp
        ≡ true
      → (enforcer : String) × ((choose_for config ev_available old from).0 ≡ some enforcer)
  unfolding choose_for
  chooses_eligible old from name sp m h =
      let (best, rest, e) =
        build_candidates-nonempty (expected old) (collect_zex_capable config) ev_available config
          config.control.headroom_margin_kw old name sp (m, h) in
      rw e (choose_total config.control best rest from)

module _ {F : Type 0} ⦃f : Float F⦄ where
  -- the assigned schedule, also where it is empty
  pub assigned_schedule :
      (result : SolveResult F) (bundle : SolveBundle F) (config : MimirheimConfig F)
      → (assign_control_authority result bundle config).schedule
        ≡ assign_steps config (availability bundle) no_authority result.schedule
  unfolding assign_control_authority
  assigned_schedule result bundle config = elim (List-cases result.schedule) [
    | inl e ↦ rw e refl
    | inr (x, rest, e) ↦ rw e refl
  ]

  -- Of an assigned schedule, at most one device of a step is active, and only in a step whose
  -- planned import and export are both within the exchange epsilon.
  pub assign_control_authority_unique :
      (result : SolveResult F) (bundle : SolveBundle F) (config : MimirheimConfig F)
      (step : ScheduleStep F) (name other : String) (sp other_sp : DeviceSetpoint F)
      → In step (assign_control_authority result bundle config).schedule
      → In {A = String × DeviceSetpoint F} (name, sp) step.devices
      → IsActive (collect_zex_capable config) name sp
      → In {A = String × DeviceSetpoint F} (other, other_sp) step.devices
      → IsActive (collect_zex_capable config) other other_sp
      → (name ≡ other) × (is_near_zero_exchange step config.control.exchange_epsilon_kw ≡ true)
  assign_control_authority_unique result bundle config step name other sp other_sp m k a k' a' =
      let ev = availability bundle in
      let (old, from, i, e) =
        In_of-assign_steps config ev result.schedule no_authority step
          (rw (assigned_schedule result bundle config) at m) in
      let (z, c) = active_is_enforcer config ev old from name sp (rw e at k) a in
      let (_, c') = active_is_enforcer config ev old from other other_sp (rw e at k') a' in
      (some_inj (sym c ∙ c'), rw e (assign_step-near_zero config ev old from ∙ z))

  -- A capable device that is active in an assigned step passed every eligibility gate in a step of
  -- the solved schedule with the same number.
  pub assign_control_authority-eligible :
      (result : SolveResult F) (bundle : SolveBundle F) (config : MimirheimConfig F)
      (step : ScheduleStep F) (name : String) (sp : DeviceSetpoint F)
      → In step (assign_control_authority result bundle config).schedule
      → In {A = String × DeviceSetpoint F} (name, sp) step.devices
      → IsActive (collect_zex_capable config) name sp
      → (old : ScheduleStep F) × (old_sp : DeviceSetpoint F) × In old result.schedule
        × (old.t ≡ step.t)
        × In {A = String × DeviceSetpoint F} (name, old_sp) old.devices
        × (is_eligible
              (collect_zex_capable config)
              (availability bundle)
              config
              config.control.headroom_margin_kw
              name
              old_sp
            ≡ true)
  assign_control_authority-eligible result bundle config step name sp m k a =
      let ev = availability bundle in
      let (old, from, i, e) =
        In_of-assign_steps config ev result.schedule no_authority step
          (rw (assigned_schedule result bundle config) at m) in
      let (z, c) = active_is_enforcer config ev old from name sp (rw e at k) a in
      let (old_sp, (q, h)) = chosen-IsEligible config ev old from name c in
      (old, old_sp, i, rw e (sym (assign_step-t config ev old from)), q, h)

  -- A near-zero-exchange step in which some device is eligible has an active device once it is
  -- assigned.
  pub assign_control_authority-covers :
      (result : SolveResult F) (bundle : SolveBundle F) (config : MimirheimConfig F)
      (old : ScheduleStep F) (name : String) (old_sp : DeviceSetpoint F)
      → In old result.schedule
      → is_near_zero_exchange old config.control.exchange_epsilon_kw ≡ true
      → In {A = String × DeviceSetpoint F} (name, old_sp) old.devices
      → is_eligible
          (collect_zex_capable config)
          (availability bundle)
          config
          config.control.headroom_margin_kw
          name
          old_sp
        ≡ true
      → (step : ScheduleStep F) × (enforcer : String) × (sp : DeviceSetpoint F) × In step
          (assign_control_authority result bundle config).schedule
        × (step.t ≡ old.t)
        × In {A = String × DeviceSetpoint F} (enforcer, sp) step.devices
        × IsActive (collect_zex_capable config) enforcer sp
  assign_control_authority-covers result bundle config old name old_sp i z m h =
      let ev = availability bundle in
      let (from, k) = In-assign_steps config ev result.schedule no_authority old i in
      let (enforcer, c) = chooses_eligible config ev old from name old_sp m h in
      let (e_sp, (q, g)) = chosen-IsEligible config ev old from enforcer c in
      let capable = is_eligible-capable config ev enforcer e_sp g in
      let (sp, p, on) = enforcer_is_active config ev old from enforcer e_sp z c q capable in
      (
        (assign_step config ev old from).0,
        enforcer,
        sp,
        rw (assigned_schedule result bundle config) k,
        assign_step-t config ev old from,
        p,
        (capable, on),
      )
