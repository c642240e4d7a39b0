-- ===== src/SolveLoop/Suppressed.antt =====
-- A suppressed dispatch from the gain threshold to the publisher.
use mathlib.Core.Path.{subst}
use text.Mathlib.Text.{◌==◌}
use mimirheim.Prelude.{
  String, ◌≡◌, refl, sym, ap, ◌∙◌, inl, inr, Bool, true, false, Option, some, List, [], ◌∷◌,
  Bool-cases, In, List-cases, if◌then◌else◌,
}
use mimirheim.Prelude.Float.{Float}
use mimirheim.Prelude.Dict.{Dict}
use mimirheim.Config.{MimirheimConfig}
use mimirheim.Bundle.{SolveBundle, DeviceSetpoint, ScheduleStep, SolveResult}
use mimirheim.PostProcess.{is_controllable, apply_gain_threshold, build_idle_result}
use mimirheim.PostProcess.Threshold.{Suppresses, apply_gain_threshold_cases}
use mimirheim.PostProcess.Idle.{build_idle_result-idle}
use mimirheim.Arbitration.Choose.{Authority, no_authority}
use mimirheim.Arbitration.Assign.{
  set_flags, cleared_setpoint, enforced_setpoint, map_devices, zex, lb, choose_for, near_zero,
  assign_step, assign_steps, assign_control_authority, availability,
}
use mimirheim.Arbitration.Flags.{In-map_devices}
use mimirheim.SolveLoop.{
  Fault, no_fault, threshold_raises, authority_raises, overrides_raise, publisher_raises,
  clip_bundle, post_process, processed, recover, announce, publish, conclude, iterate,
}
use mimirheim.SolveLoop.Calls.{schedules}
use mimirheim.SolveLoop.Publish.{solved_found}

-- whether the iteration gets as far as publishing the result
abbrev pub reaches_publisher : Fault → Bool
reaches_publisher no_fault = true
reaches_publisher threshold_raises = false
reaches_publisher authority_raises = false
reaches_publisher overrides_raise = false
reaches_publisher publisher_raises = true

module _ {F : Type 0} where
  set_flags-kw :
      (a b c d : Bool) (sp : DeviceSetpoint F)
      → ((set_flags a b c d sp).kw ≡ sp.kw) × ((set_flags a b c d sp).kind ≡ sp.kind)
  unfolding set_flags
  set_flags-kw true b true d sp = (refl, refl)
  set_flags-kw true b false d sp = (refl, refl)
  set_flags-kw false b true d sp = (refl, refl)
  set_flags-kw false b false d sp = (refl, refl)

  -- A step whose devices have the powers and kinds of the devices of another.
  abbrev SamePowers : ScheduleStep F → ScheduleStep F → Type 0
  SamePowers step old =
      (name : String) (sp : DeviceSetpoint F)
      → In {A = String × DeviceSetpoint F} (name, sp) step.devices
      → (old_sp : DeviceSetpoint F) × In {A = String × DeviceSetpoint F} (name, old_sp) old.devices
        × (sp.kw ≡ old_sp.kw)
        × (sp.kind ≡ old_sp.kind)

  map_devices-powers :
      (g : String → DeviceSetpoint F → DeviceSetpoint F) (devices : Dict (DeviceSetpoint F))
      → ((name : String) (sp : DeviceSetpoint F)
          → ((g name sp).kw ≡ sp.kw) × ((g name sp).kind ≡ sp.kind))
      → (name : String) (sp : DeviceSetpoint F)
      → In {A = String × DeviceSetpoint F} (name, sp) (map_devices g devices)
      → (old_sp : DeviceSetpoint F) × In {A = String × DeviceSetpoint F} (name, old_sp) devices
        × (sp.kw ≡ old_sp.kw)
        × (sp.kind ≡ old_sp.kind)
  map_devices-powers g devices same name sp m =
      let (old, i, e) = In-map_devices g devices name sp m in
      let (p, q) = same name old in
      (
        old,
        i,
        ap (λ (x : DeviceSetpoint F). x.kw) e ∙ p,
        ap (λ (x : DeviceSetpoint F). x.kind) e ∙ q,
      )

module _ {F : Type 0} ⦃f : Float F⦄ (config : MimirheimConfig F) (ev : Dict Bool) where
  enforced-powers :
      (enforcer : Option String) (name : String) (sp : DeviceSetpoint F)
      → ((enforced_setpoint config (zex config ev) (lb config ev) ev enforcer name sp).kw ≡ sp.kw)
        × ((enforced_setpoint config (zex config ev) (lb config ev) ev enforcer name sp).kind
            ≡ sp.kind)
  unfolding enforced_setpoint
  enforced-powers enforcer name sp = set_flags-kw _ _ _ _ sp

  cleared-powers :
      (name : String) (sp : DeviceSetpoint F)
      → ((cleared_setpoint (zex config ev) (lb config ev) ev name sp).kw ≡ sp.kw)
        × ((cleared_setpoint (zex config ev) (lb config ev) ev name sp).kind ≡ sp.kind)
  unfolding cleared_setpoint
  cleared-powers name sp = set_flags-kw _ _ _ _ sp

  assign_step-SamePowers :
      (step : ScheduleStep F) (authority : Authority F)
      → SamePowers (assign_step config ev step authority).0 step
  unfolding assign_step
  assign_step-SamePowers step authority = elim (Bool-cases (near_zero config ev step)) [
    | inl near ↦
        let enforcer = (choose_for config ev step authority).0 in
        rw near (
          map_devices-powers (enforced_setpoint config (zex config ev) (lb config ev) ev enforcer)
            step.devices (enforced-powers enforcer))
    | inr far ↦ rw far (
        map_devices-powers (cleared_setpoint (zex config ev) (lb config ev) ev) step.devices
          cleared-powers)
  ]

  assign_steps-SamePowers :
      (schedule : List (ScheduleStep F)) (authority : Authority F) (step : ScheduleStep F)
      → In step (assign_steps config ev authority schedule)
      → (old : ScheduleStep F) × In old schedule × SamePowers step old
  unfolding assign_steps
  assign_steps-SamePowers [] authority step m = absurd m
  assign_steps-SamePowers (s ∷ schedule) authority step (inl e) =
      (s, inl refl, subst (λ x. SamePowers x s) (sym e) (assign_step-SamePowers s authority))
  assign_steps-SamePowers (s ∷ schedule) authority step (inr m) =
      let (old, i, p) =
        assign_steps-SamePowers schedule (assign_step config ev s authority).1 step m in
      (old, inr i, p)

module _ {F : Type 0} ⦃f : Float F⦄ where
  assigned-SamePowers :
      (result : SolveResult F) (bundle : SolveBundle F) (config : MimirheimConfig F)
      (step : ScheduleStep F)
      → In step (assign_control_authority result bundle config).schedule
      → (old : ScheduleStep F) × In old result.schedule × SamePowers step old
  unfolding assign_control_authority
  assigned-SamePowers result bundle config step m = on result.schedule m
    where
      on :
          (xs : List (ScheduleStep F))
          → In step
              (elim xs as (λ ys. SolveResult F) [
                | [] ↦ result
                | _ ∷ _ ↦ record result {
                  schedule = assign_steps config (availability bundle) no_authority result.schedule;
                }
              ]).schedule
          → (old : ScheduleStep F) × In old result.schedule × SamePowers step old
      on [] k = (step, k, λ name sp i. (sp, i, refl, refl))
      on (s ∷ rest) k =
          assign_steps-SamePowers config (availability bundle) result.schedule no_authority step k

  -- the fields that the assignment keeps
  assigned_fields :
      (result : SolveResult F) (bundle : SolveBundle F) (config : MimirheimConfig F)
      → ((assign_control_authority result bundle config).dispatch_suppressed
          ≡ result.dispatch_suppressed)
        × ((assign_control_authority result bundle config).solve_status ≡ result.solve_status)
  unfolding assign_control_authority
  assigned_fields result bundle config = elim (List-cases result.schedule) [
    | inl e ↦ rw e (refl, refl)
    | inr (s, rest, e) ↦ rw e (refl, refl)
  ]

  suppressed :
      (result : SolveResult F) (bundle : SolveBundle F) (config : MimirheimConfig F)
      → Suppresses result bundle config
      → apply_gain_threshold result bundle config ≡ build_idle_result result
  suppressed result bundle config h = elim (apply_gain_threshold_cases result bundle config) [
    | inl (h', e) ↦ e
    | inr (kept, e) ↦ absurd (kept h)
  ]

  -- A controllable device of the schedule that a suppressed dispatch leaves.
  abbrev pub Standstill : SolveResult F → Type 0
  Standstill r =
      (step : ScheduleStep F) (name : String) (sp : DeviceSetpoint F)
      → In step r.schedule
      → In {A = String × DeviceSetpoint F} (name, sp) step.devices
      → is_controllable sp.kind ≡ true
      → sp.kw ≡ f.nil

  post_process-Standstill :
      (result : SolveResult F) (bundle : SolveBundle F) (config : MimirheimConfig F)
      → Suppresses result bundle config
      → Standstill (post_process result bundle config)
  unfolding post_process
  post_process-Standstill result bundle config h step name sp m k c =
      let (old, i, same) = assigned-SamePowers (build_idle_result result) bundle config step (
        subst (λ (x : SolveResult F). In step (assign_control_authority x bundle config).schedule)
          (suppressed result bundle config h) m) in
      let (old_sp, j, kw, kind) = same name sp k in
      let (p, q, r, still) = build_idle_result-idle result old name old_sp i j in
      elim still [
        | inl (c', z) ↦ kw ∙ z
        | inr (c', old2, i2, t2, m2) ↦ let c'' = sym (ap is_controllable kind) ∙ c in cc
      ]

  -- the fields that tell what is published of a suppressed dispatch
  post_process_fields :
      (result : SolveResult F) (bundle : SolveBundle F) (config : MimirheimConfig F)
      → Suppresses result bundle config
      → ((post_process result bundle config).dispatch_suppressed ≡ true)
        × (((post_process result bundle config).solve_status == "infeasible") ≡ false)
  unfolding post_process build_idle_result
  post_process_fields result bundle config h =
      let e = suppressed result bundle config h in
      let (p, q) = assigned_fields (build_idle_result result) bundle config in
      rw e (p, ap (λ s. s == "infeasible") q ∙ h.1)

  schedules-publish :
      (fault : Fault) (again : Bool) (found : SolveResult F) (bundle : SolveBundle F)
      (config : MimirheimConfig F)
      → ((post_process found bundle config).solve_status == "infeasible") ≡ false
      → schedules (conclude fault again (some (processed fault found bundle config)))
        ≡ (if reaches_publisher fault then post_process found bundle config ∷ [] else [])
  unfolding conclude publish processed recover announce
  schedules-publish no_fault again found bundle config h = rw h refl
  schedules-publish threshold_raises true found bundle config h = refl
  schedules-publish threshold_raises false found bundle config h = refl
  schedules-publish authority_raises true found bundle config h = refl
  schedules-publish authority_raises false found bundle config h = refl
  schedules-publish overrides_raise true found bundle config h = refl
  schedules-publish overrides_raise false found bundle config h = refl
  schedules-publish publisher_raises true found bundle config h = rw h refl
  schedules-publish publisher_raises false found bundle config h = rw h refl

  module _ (build_and_solve : SolveBundle F → MimirheimConfig F → Option (SolveResult F))
      (config : MimirheimConfig F) where
    -- Where the dispatch of the solved result is suppressed, the iteration publishes one schedule,
    -- marked as suppressed, in which every controllable device has 0 kW, also after the control
    -- arbitration, and no schedule where an exception keeps it from the publication.
    pub iterate-Standstill :
        (fault : Fault) (again : Bool) (bundle clipped : SolveBundle F) (result : SolveResult F)
        → clip_bundle bundle config.max_horizon_steps ≡ some clipped
        → build_and_solve clipped config ≡ some result
        → Suppresses result clipped config
        → (r : SolveResult F) × (schedules (iterate build_and_solve config fault again bundle)
            ≡ (if reaches_publisher fault then r ∷ [] else []))
          × (r.dispatch_suppressed ≡ true)
          × Standstill r
    unfolding iterate
    iterate-Standstill fault again bundle clipped result h k s =
        let r = post_process result clipped config in
        let (mark, status) = post_process_fields result clipped config s in
        (
          r,
          ap (λ o. schedules (conclude fault again o))
                (solved_found build_and_solve config fault bundle clipped result h k)
              ∙ schedules-publish fault again result clipped config status,
          mark,
          post_process-Standstill result clipped config s,
        )
