-- ===== src/BatteryCare.antt =====
-- mimirheim/core/battery_care.py: the periodic full-charge policy.
-- Instants and durations are UTC microseconds (`_as_utc` is the identity on them), so the step
-- duration `dt` is too; the `1e-9` of the code is the rational number that it stands for.
pub mod Hold
pub mod Deadline
mod Tests
use mimirheim.Prelude.{
  ℕ, zero, suc, ◌+◌, ◌-◌, ◌*◌, ◌/◌, Bool, true, false, not, ◌||◌, Option, none, some, List, [], ◌∷◌,
  leb, ltb, if◌then◌else◌,
}
use mimirheim.Prelude.Float.{Float, min}

pub record SocRatchetConfig (F : Type 0) : Type 0 where
  pub enabled : Bool
  pub target_interval : ℕ
  pub full_threshold_pct : F
  pub step_pct : F
  pub cap_pct : F
  pub target_pct : F
  pub hold : ℕ

pub record CarePlan (F : Type 0) : Type 0 where
  pub floor_kwh : F
  pub deadline_step : Option ℕ
  pub full_target_kwh : Option F
  pub since_full : Option ℕ
  pub hold_steps : ℕ

abbrev pub is_newer : Option ℕ → Option ℕ → Bool
is_newer none current = false
is_newer (some candidate) none = true
is_newer (some candidate) (some current) = ltb current candidate

abbrev pub is_older : Option ℕ → Option ℕ → Bool
is_older none current = false
is_older (some candidate) none = true
is_older (some candidate) (some current) = ltb candidate current

-- one over the epsilon of the code
abbrev pub billion : ℕ
billion = 1_000_000_000

-- `int(delta / dt + 1e-9)`
unfoldable pub steps_within : ℕ → ℕ → ℕ
steps_within delta dt = (delta * billion + dt) / (dt * billion)

-- `math.ceil(hold / dt - 1e-9)`, which is at most 0 where the difference is negative
unfoldable pub ceil_steps : ℕ → ℕ → ℕ
ceil_steps hold dt = (hold * billion - dt + (dt * billion - 1)) / (dt * billion)

-- the step of `_deadline`; its target is given beside it exactly when the step is
unfoldable pub deadline_at : ℕ → ℕ → ℕ → ℕ → Option ℕ
deadline_at due_at solve_time horizon dt =
    if leb due_at solve_time
    then (if ltb 0 horizon then some 0 else none)
    else if ltb (solve_time + horizon * dt) due_at
    then none
    else let n = steps_within (due_at - solve_time) dt in
      if leb n 0 then none else if leb horizon (n - 1) then none else some (n - 1)

abbrev pub reference_of : Option ℕ → Option ℕ → Option ℕ
reference_of (some last_full) care_since = some last_full
reference_of none care_since = care_since

module _ {F : Type 0} ⦃f : Float F⦄ where
  unfoldable pub full_threshold_kwh : SocRatchetConfig F → F → F
  full_threshold_kwh config capacity_kwh =
      f.div (f.mul capacity_kwh config.full_threshold_pct) (f.of_nat 100)

  unfoldable pub full_target_kwh : SocRatchetConfig F → F → F
  full_target_kwh config capacity_kwh = f.div (f.mul capacity_kwh config.target_pct) (f.of_nat 100)

  unfoldable pub observe_full_charge : SocRatchetConfig F → F → F → ℕ → Option ℕ
  observe_full_charge config capacity_kwh soc_kwh now =
      if not config.enabled
      then none
      else if f.le (full_threshold_kwh config capacity_kwh) soc_kwh
      then some now
      else none

  -- the end of a run: it completes the hold if it had lasted that long
  unfoldable pub end_run : SocRatchetConfig F → ℕ → Option ℕ → Option ℕ × Option ℕ
  end_run config now none = (none, none)
  end_run config now (some above_since) =
      if not config.enabled
      then (none, none)
      else if leb (above_since + config.hold) now
      then (none, some now)
      else (none, none)

  -- one more reading at the top
  unfoldable pub extend_run : SocRatchetConfig F → ℕ → Option ℕ → Option ℕ × Option ℕ
  extend_run config now above_since =
      let started : ℕ = elim above_since [ none ↦ now | some t ↦ t ] in
      if leb (started + config.hold) now then (some started, some now) else (some started, none)

  unfoldable pub track_full_charge : SocRatchetConfig F → F → F → ℕ → Option ℕ → Option ℕ × Option ℕ
  unfolding end_run extend_run
  track_full_charge config capacity_kwh soc_kwh now above_since =
      elim (observe_full_charge config capacity_kwh soc_kwh now) [
        | none ↦ end_run config now above_since
        | some _ ↦ extend_run config now above_since
      ]

  unfoldable pub plan_hold_steps : SocRatchetConfig F → ℕ → ℕ
  plan_hold_steps config dt =
      if not config.enabled || leb config.hold 0
      then 0
      else let n = ceil_steps config.hold dt in if ltb 1 n then n else 1

  unfoldable pub deadline : SocRatchetConfig F → F → ℕ → ℕ → ℕ → ℕ → Option ℕ × Option F
  deadline config capacity_kwh due_at solve_time horizon dt =
      elim (deadline_at due_at solve_time horizon dt) [
        | none ↦ (none, none)
        | some step ↦ (some step, some (full_target_kwh config capacity_kwh))
      ]

  unfoldable pub floor_pct : SocRatchetConfig F → ℕ → F
  floor_pct config elapsed =
      min (f.mul (f.of_nat (elapsed / config.target_interval)) config.step_pct) config.cap_pct

  abbrev pub dormant_plan : ℕ → CarePlan F
  dormant_plan steps = record {
    floor_kwh = f.nil;
    deadline_step = none;
    full_target_kwh = none;
    since_full = none;
    hold_steps = steps;
  }

  -- the plan that counts from `reference`
  unfoldable pub plan_from : SocRatchetConfig F → F → ℕ → Option ℕ → ℕ → ℕ → ℕ → CarePlan F
  plan_from config capacity_kwh reference last_full solve_time horizon dt =
      let (step, target) =
        deadline config capacity_kwh (reference + config.target_interval) solve_time horizon dt in
      record {
        floor_kwh =
            f.div (f.mul capacity_kwh (floor_pct config (solve_time - reference))) (f.of_nat 100);
        deadline_step = step;
        full_target_kwh = target;
        since_full = elim last_full [ none ↦ none | some t ↦ some (solve_time - t) ];
        hold_steps = plan_hold_steps config dt;
      }

  unfoldable pub plan_of_reference :
      SocRatchetConfig F → F → Option ℕ → Option ℕ → ℕ → ℕ → ℕ → CarePlan F
  plan_of_reference config capacity_kwh none last_full solve_time horizon dt =
      dormant_plan (plan_hold_steps config dt)
  plan_of_reference config capacity_kwh (some reference) last_full solve_time horizon dt =
      plan_from config capacity_kwh reference last_full solve_time horizon dt

  unfoldable pub care_plan : SocRatchetConfig F → F → Option ℕ → Option ℕ → ℕ → ℕ → ℕ → CarePlan F
  care_plan config capacity_kwh last_full care_since solve_time horizon dt =
      if not config.enabled
      then dormant_plan 0
      else plan_of_reference config capacity_kwh (reference_of last_full care_since) last_full
          solve_time horizon dt
