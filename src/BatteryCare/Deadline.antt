-- ===== src/BatteryCare/Deadline.antt =====
-- The deadline and the hold in whole steps.
use mimirheim.Prelude.{
  ℕ, zero, suc, ◌+◌, ◌-◌, ◌*◌, ◌/◌, ◌≤◌, ◌<◌, ◌≡◌, refl, sym, ap, ◌∙◌, ◌↔◌, ◌⊎◌, inl, inr, true,
  Option, none, some, leb, ltb, arith, Bool-cases, if◌then◌else◌,
}
use native.Mathlib.Nat.{div-eq_of_lt-le, lt-div-mul-add, div-mul-le_self}
use mimirheim.Prelude.Float.{Float}
use mimirheim.BatteryCare.{
  SocRatchetConfig, billion, steps_within, ceil_steps, plan_hold_steps, deadline_at, deadline,
  full_target_kwh, care_plan, reference_of, plan_from, plan_of_reference,
}

-- With steps below a thousand seconds the epsilon changes nothing.
steps_within-eq-div : (delta dt : ℕ) → 0 < dt → dt < billion → steps_within delta dt ≡ delta / dt
unfolding steps_within
steps_within-eq-div delta dt p q =
    let lo : delta / dt * dt ≤ delta = div-mul-le_self delta dt in
    let hi : delta < delta / dt * dt + dt = lt-div-mul-add p in
    div-eq_of_lt-le (dt * billion) (omega arith) (omega arith)

step_fits : (k horizon dt : ℕ) → 0 < dt → k * dt ≤ horizon * dt → k ≤ horizon
step_fits k horizon dt p h = grind arith

-- The quotient is `n` exactly if the whole steps up to `n` fit and no more.
div_iff : (delta dt n : ℕ) → 0 < dt → (delta / dt ≡ n) ↔ ((n * dt ≤ delta) × (delta < n * dt + dt))
div_iff delta dt n p = (
  λ e. rw (← e) (div-mul-le_self delta dt, lt-div-mul-add p),
  λ (lo, hi). div-eq_of_lt-le dt lo (omega arith),
)

-- When the deadline is `step`: overdue, and then at once; or due inside the horizon, and then the
-- last step that ends at or before the due time.
abbrev pub IsDeadline : ℕ → ℕ → ℕ → ℕ → ℕ → Type 0
IsDeadline due solve horizon dt step =
    ((due ≤ solve) × (step ≡ 0) × (0 < horizon))
    ⊎ ((solve < due)
        × (due ≤ solve + horizon * dt)
        × (solve + (step + 1) * dt ≤ due)
        × (due < solve + (step + 2) * dt))

deadline_at_iff :
    (due solve horizon dt step : ℕ)
    → 0 < dt
    → dt < billion
    → (deadline_at due solve horizon dt ≡ some step) ↔ IsDeadline due solve horizon dt step
unfolding deadline_at
deadline_at_iff due solve horizon dt step p q = (
  λ e.
      ground
        (arith, steps_within-eq-div (due - solve) dt p q, div_iff (due - solve) dt (step + 1) p),
  λ e. elim e [
    | inl (a, b, c) ↦ ground arith
    | inr (a, b, c, d) ↦
        let n : steps_within (due - solve) dt ≡ step + 1 =
          steps_within-eq-div (due - solve) dt p q
          ∙ (div_iff (due - solve) dt (step + 1) p).1 (omega arith, omega arith) in
        ground (arith, n, step_fits (step + 1) horizon dt p (omega arith))
  ],
)

ceil_steps_bounds :
    (hold dt : ℕ)
    → 0 < hold
    → 0 < dt
    → dt < billion
    → (hold ≤ ceil_steps hold dt * dt) × (ceil_steps hold dt * dt < hold + dt)
unfolding ceil_steps
ceil_steps_bounds hold dt h p q =
    let sum = hold * billion - dt + (dt * billion - 1) in
    let n = sum / (dt * billion) in
    let lo : n * (dt * billion) ≤ sum = div-mul-le_self sum (dt * billion) in
    let hi : sum < n * (dt * billion) + dt * billion =
      lt-div-mul-add {b = dt * billion} (omega arith) in
    (omega arith, omega arith)

max_one : (n : ℕ) → 0 < n → (if ltb 1 n then n else 1) ≡ n
max_one n h = ground arith

positive_factor : (n hold dt : ℕ) → 0 < hold → hold ≤ n * dt → 0 < n
positive_factor zero hold dt h e = absurd (omega arith)
positive_factor (suc n) hold dt h e = omega arith

module _ {F : Type 0} ⦃f : Float F⦄ (config : SocRatchetConfig F) where
  abbrev pub with_target : F → Option ℕ → Option F
  with_target target none = none
  with_target target (some _) = some target

  deadline_parts :
      (capacity_kwh : F) (due solve horizon dt : ℕ)
      → deadline config capacity_kwh due solve horizon dt ≡ (
        deadline_at due solve horizon dt,
        with_target (full_target_kwh config capacity_kwh) (deadline_at due solve horizon dt),
      )
  unfolding deadline
  deadline_parts capacity_kwh due solve horizon dt = parts (deadline_at due solve horizon dt)
    where
      parts :
          (o : Option ℕ)
          → ◌≡◌ {A = Option ℕ × Option F}
              (elim o [
                | none ↦ (none, none)
                | some step ↦ (some step, some (full_target_kwh config capacity_kwh))
              ])
              (o, with_target (full_target_kwh config capacity_kwh) o)
      parts none = refl
      parts (some step) = refl

  pub care_plan-eq_from :
      (capacity_kwh : F) (last_full care_since : Option ℕ) (reference solve horizon dt : ℕ)
      → config.enabled ≡ true
      → reference_of last_full care_since ≡ some reference
      → care_plan config capacity_kwh last_full care_since solve horizon dt
        ≡ plan_from config capacity_kwh reference last_full solve horizon dt
  unfolding care_plan plan_of_reference
  care_plan-eq_from capacity_kwh last_full care_since reference solve horizon dt on r = simp (on, r)

  plan_parts :
      (capacity_kwh : F) (last_full : Option ℕ) (reference solve horizon dt : ℕ)
      → let plan = plan_from config capacity_kwh reference last_full solve horizon dt in
        let step = deadline_at (reference + config.target_interval) solve horizon dt in
        (plan.deadline_step ≡ step)
        × (plan.full_target_kwh ≡ with_target (full_target_kwh config capacity_kwh) step)
  unfolding plan_from
  plan_parts capacity_kwh last_full reference solve horizon dt =
      let e = deadline_parts capacity_kwh (reference + config.target_interval) solve horizon dt in
      (ap (λ (p : Option ℕ × Option F). p.0) e, ap (λ (p : Option ℕ × Option F). p.1) e)

  -- An enabled policy with a reference instant plans a deadline step exactly where the due time,
  -- one target interval after the reference, puts it: step 0 if it has passed and there is a step
  -- at all, the last step that ends at or before it if it lies inside the horizon, none otherwise.
  -- The plan's target is given exactly together with a step.
  pub care_plan-IsDeadline :
      (capacity_kwh : F) (last_full care_since : Option ℕ) (reference solve horizon dt step : ℕ)
      → config.enabled ≡ true
      → reference_of last_full care_since ≡ some reference
      → 0 < dt
      → dt < billion
      → let plan = care_plan config capacity_kwh last_full care_since solve horizon dt in
        ((plan.deadline_step ≡ some step)
          ↔ IsDeadline (reference + config.target_interval) solve horizon dt step)
        × (plan.full_target_kwh
            ≡ with_target (full_target_kwh config capacity_kwh) plan.deadline_step)
  care_plan-IsDeadline capacity_kwh last_full care_since reference solve horizon dt step on r p q =
      let (es, et) = plan_parts capacity_kwh last_full reference solve horizon dt in
      let b = deadline_at_iff (reference + config.target_interval) solve horizon dt step p q in
      rw (care_plan-eq_from capacity_kwh last_full care_since reference solve horizon dt on r) (
        ((λ e. b.0 (sym es ∙ e)), (λ d. es ∙ b.1 d)),
        et ∙ ap (with_target (full_target_kwh config capacity_kwh)) (sym es),
      )

  -- The planned hold of an enabled policy is `hold_hours` rounded up to whole steps.
  pub plan_hold_steps_ceil :
      (dt : ℕ)
      → config.enabled ≡ true
      → 0 < dt
      → dt < billion
      → (config.hold ≤ plan_hold_steps config dt * dt)
        × (plan_hold_steps config dt * dt < config.hold + dt)
  unfolding plan_hold_steps
  plan_hold_steps_ceil dt on p q = elim (Bool-cases (leb config.hold 0)) [
    | inl z ↦ rw (on, z) (ground arith)
    | inr z ↦
        let (enough, tight) = ceil_steps_bounds config.hold dt (ground arith) p q in
        let n = ceil_steps config.hold dt in
        rw (on, z, max_one n (positive_factor n config.hold dt (ground arith) enough))
          (enough, tight)
  ]
