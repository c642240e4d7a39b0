-- ===== src/BatteryCare/Tests.antt =====
-- The theorems on the full-charge policy at concrete inputs.
use mimirheim.Prelude.{ℕ, ◌+◌, ◌*◌, ◌≤◌, ◌<◌, ◌≡◌, refl, inr, true, none, some, [], ◌∷◌, arith}
use mimirheim.Prelude.Fixed.{ℤ, pos, milli}
use mimirheim.BatteryCare.{
  SocRatchetConfig, care_plan, full_threshold_kwh, plan_hold_steps, track_full_charge,
}
use mimirheim.BatteryCare.Deadline.{care_plan-IsDeadline, plan_hold_steps_ceil}
use mimirheim.BatteryCare.Hold.{Reading, run_after, track_full_charge_hold}

-- ten days, full at 98 %, a hold of one hour
abbrev policy : SocRatchetConfig ℤ
policy = record {
  enabled = true;
  target_interval = 864_000_000_000;
  full_threshold_pct = pos 98_000;
  step_pct = pos 10_000;
  cap_pct = pos 50_000;
  target_pct = pos 100_000;
  hold = 3_600_000_000;
}

-- last full at 0, solved half an hour before the ten days are over: two steps are left
care_plan-IsDeadline_example :
    (care_plan policy (pos 10_000) (some 0) none 862_200_000_000 96 900_000_000).deadline_step
    ≡ some 1
care_plan-IsDeadline_example =
    (care_plan-IsDeadline policy (pos 10_000) (some 0) none 0 862_200_000_000 96 900_000_000 1 refl
        refl (omega arith) (omega arith)).0.1
      (inr (omega arith, omega arith, omega arith, omega arith))

plan_hold_steps_example :
    (3_600_000_000 ≤ plan_hold_steps policy 900_000_000 * 900_000_000)
    × (plan_hold_steps policy 900_000_000 * 900_000_000 < 3_600_000_000 + 900_000_000)
plan_hold_steps_example = plan_hold_steps_ceil policy 900_000_000 refl (omega arith) (omega arith)

abbrev reading : ℕ → ℕ → Reading ℤ
reading soc at = record { soc_kwh = pos soc; at = at }

track_full_charge_example :
    (run_after policy
        (pos 10_000)
        none
        (reading 9_900 0 ∷ reading 9_000 60 ∷ reading 9_850 120 ∷ reading 9_900 180 ∷ [])
      ≡ some 120)
    × ((track_full_charge policy (pos 10_000) (pos 9_000) 3_600_000_120 (
          run_after policy
            (pos 10_000)
            none
            (reading 9_900 0 ∷ reading 9_000 60 ∷ reading 9_850 120 ∷ reading 9_900 180 ∷ []))).1
        ≡ some 3_600_000_120)
unfolding full_threshold_kwh
track_full_charge_example =
    track_full_charge_hold policy (pos 10_000) refl none (reading 9_900 0 ∷ []) (reading 9_000 60)
      (reading 9_850 120) (reading 9_900 180 ∷ []) (reading 9_000 3_600_000_120) refl refl
      (refl, tt)
