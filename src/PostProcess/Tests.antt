-- ===== src/PostProcess/Tests.antt =====
-- The theorems on the gain threshold at concrete inputs.
use mimirheim.Prelude.{String, ◌≡◌, refl, ◌⊎◌, inl, true, false, In}
use mimirheim.Prelude.Fixed.{ℤ, pos, milli}
use mimirheim.Bundle.{DeviceSetpoint, ScheduleStep}
use mimirheim.Examples.{household, bundle, setpoint, balanced_step, solved}
use mimirheim.PostProcess.{
  is_controllable, idle_setpoint, idle_step, build_idle_result, apply_gain_threshold, has_threshold,
  has_active_deadline, has_enforced_target,
}
use mimirheim.PostProcess.Threshold.{Suppresses, apply_gain_threshold_cases}
use mimirheim.PostProcess.Idle.{
  uncontrolled, total, Balances, build_idle_result-idle, build_idle_result-Balances,
}

apply_gain_threshold_example :
    (Suppresses solved bundle household
      × (apply_gain_threshold solved bundle household ≡ build_idle_result solved))
    ⊎ ((Suppresses solved bundle household → ⊥)
        × (apply_gain_threshold solved bundle household ≡ solved))
apply_gain_threshold_example = apply_gain_threshold_cases solved bundle household

-- the small gain is not worth it
suppressed : (apply_gain_threshold solved bundle household).dispatch_suppressed ≡ true
unfolding apply_gain_threshold has_threshold has_active_deadline has_enforced_target
    build_idle_result
suppressed = refl

abbrev idle_balanced : ScheduleStep ℤ
unfolding idle_step
idle_balanced = idle_step balanced_step

build_idle_result-idle_example :
    (milli.le (pos 0) idle_balanced.grid_import_kw ≡ true)
    × (milli.le (pos 0) idle_balanced.grid_export_kw ≡ true)
    × ((idle_balanced.grid_import_kw ≡ pos 0) ⊎ (idle_balanced.grid_export_kw ≡ pos 0))
    × (((is_controllable "battery" ≡ true) × ((setpoint "battery" (pos 0)).kw ≡ pos 0))
        ⊎ ((is_controllable "battery" ≡ false)
            × (old : ScheduleStep ℤ) × In old solved.schedule
            × (old.t ≡ 0)
            × In {A = String × DeviceSetpoint ℤ} ("home", setpoint "battery" (pos 0)) old.devices))
unfolding build_idle_result idle_step idle_setpoint is_controllable
build_idle_result-idle_example =
    build_idle_result-idle solved idle_balanced "home" (setpoint "battery" (pos 0)) (inl refl)
      (inl refl)

build_idle_result-Balances_example :
    Balances (total (pos 0) (uncontrolled idle_balanced.devices)) idle_balanced
unfolding build_idle_result
build_idle_result-Balances_example = build_idle_result-Balances solved idle_balanced (inl refl)
