-- ===== src/Readiness/Clamp.antt =====
-- The deliverability clamp of an EV's departure target.
use mimirheim.Prelude.{
  ℕ, suc, ◌+◌, ◌-◌, ◌*◌, ◌≤◌, ◌<◌, ◌≡◌, refl, inl, inr, Bool, true, false, Option, none, some,
  arith, Bool-cases,
}
use mimirheim.Forecast.{step_duration}
use mimirheim.BatteryCare.{steps_within, ceil_steps}
use mimirheim.Prelude.Float.{Float, min}
use mimirheim.Config.{EvConfig}
use mimirheim.Readiness.Inputs.{
  EvState, per_step_kwh, chargeable_steps, deliverable_kwh, ev_inputs_of,
}

-- Charging may start by then.
abbrev pub IsOpen : Option ℕ → ℕ → Type 0
IsOpen none at = Unit {0}
IsOpen (some earliest) at = earliest ≤ at

-- The steps that start in the window and end by the deadline are `n` steps from the first.
abbrev pub Permits : ℕ → Option ℕ → ℕ → ℕ → ℕ → Type 0
Permits solve_start earliest latest first n =
    ((k : ℕ)
      → IsOpen earliest (solve_start + k * step_duration)
      → solve_start + suc k * step_duration ≤ latest
      → (first ≤ k) × (k < first + n))
    × ((k : ℕ)
        → first ≤ k
        → k < first + n
        → IsOpen earliest (solve_start + k * step_duration)
          × (solve_start + suc k * step_duration ≤ latest))

steps_within-le :
    (latest solve_start k : ℕ)
    → solve_start + suc k * step_duration ≤ latest
    → k < steps_within (latest - solve_start) step_duration
unfolding steps_within
steps_within-le latest solve_start k h = omega (arith, h)

le-steps_within :
    (latest solve_start k : ℕ)
    → k < steps_within (latest - solve_start) step_duration
    → solve_start + suc k * step_duration ≤ latest
unfolding steps_within
le-steps_within latest solve_start k h = omega (arith, h)

ceil_steps-le :
    (earliest solve_start k : ℕ)
    → earliest ≤ solve_start + k * step_duration
    → ceil_steps (earliest - solve_start) step_duration ≤ k
unfolding ceil_steps
ceil_steps-le earliest solve_start k h = omega (arith, h)

le-ceil_steps :
    (earliest solve_start k : ℕ)
    → ceil_steps (earliest - solve_start) step_duration ≤ k
    → earliest ≤ solve_start + k * step_duration
unfolding ceil_steps
le-ceil_steps earliest solve_start k h = omega (arith, h)

-- The number of the chargeable steps is the number of the permitted ones.
chargeable_steps-Permits :
    (solve_start : ℕ) (earliest : Option ℕ) (latest : ℕ)
    → (first : ℕ) × Permits solve_start earliest latest first
        (chargeable_steps solve_start earliest latest)
unfolding chargeable_steps
chargeable_steps-Permits solve_start none latest = (
  0,
  (
    λ k o e. (omega arith, omega (arith, steps_within-le latest solve_start k e)),
    λ k a b. (tt, le-steps_within latest solve_start k (omega (arith, b))),
  ),
)
chargeable_steps-Permits solve_start (some earliest) latest = (
  ceil_steps (earliest - solve_start) step_duration,
  (
    λ k o e.
        let a = ceil_steps-le earliest solve_start k o in
        let b = steps_within-le latest solve_start k e in (a, omega (arith, a, b)),
    λ k a b. (
      le-ceil_steps earliest solve_start k a,
      le-steps_within latest solve_start k (omega (arith, a, b)),
    ),
  ),
)

module _ {F : Type 0} ⦃f : Float F⦄ where
  min_bounds : (x y : F) → (f.le (min x y) x ≡ true) × (f.le (min x y) y ≡ true)
  min_bounds x y = elim (f.le_total x y) [
    | inl p ↦ rw p (f.le_refl x, p)
    | inr q ↦ elim (Bool-cases (f.le x y)) [
      | inl p ↦ rw p (f.le_refl x, p)
      | inr p ↦ rw p (q, f.le_refl y)
    ]
  ]

  min_greatest : (z x y : F) → f.le z x ≡ true → f.le z y ≡ true → f.le z (min x y) ≡ true
  min_greatest z x y p q = elim (Bool-cases (f.le x y)) [ inl e ↦ rw e p | inr e ↦ rw e q ]

  other_way : (x y : F) → f.le x y ≡ false → f.le y x ≡ true
  other_way x y h = elim (f.le_total x y) [ inl p ↦ cc | inr p ↦ p ]

  -- The energy after so many steps of charging.
  abbrev pub reachable : EvConfig F → EvState F → ℕ → F
  reachable cfg ev n = f.add ev.soc (f.mul (f.of_nat n) (per_step_kwh cfg))

  -- With a target and a deadline, the target handed to the solver is at most the one asked for, the
  -- capacity, and what the charger can deliver in `n` steps; it is the one asked for where that is
  -- at most the capacity and deliverable. Here `n` is the number of the permitted steps: those that
  -- start no earlier than the window, if it has a start, and end by the deadline.
  pub ev_inputs_of_clamped :
      (cfg : EvConfig F) (ev : EvState F) (available : Bool) (solve_start latest : ℕ) (target : F)
      → ev.target_soc_kwh ≡ some target
      → ev.window_latest ≡ some latest
      → (first : ℕ) × (n : ℕ) × (v : F) × Permits solve_start ev.window_earliest latest first n
        × ((ev_inputs_of cfg ev available solve_start).target_soc_kwh ≡ some v)
        × (f.le v target ≡ true)
        × (f.le v cfg.capacity_kwh ≡ true)
        × (f.le v (reachable cfg ev n) ≡ true)
        × (f.le target cfg.capacity_kwh ≡ true
            → f.le target (reachable cfg ev n) ≡ true
            → v ≡ target)
  unfolding ev_inputs_of deliverable_kwh
  ev_inputs_of_clamped cfg ev available solve_start latest target t l =
      let cap = cfg.capacity_kwh in
      let n = chargeable_steps solve_start ev.window_earliest latest in
      let far = reachable cfg ev n in
      let (a, b) = min_bounds cap far in
      let (first, permits) = chargeable_steps-Permits solve_start ev.window_earliest latest in
      rw (t, l)
        (elim (Bool-cases (f.le target (min cap far))) [
          | inl p ↦ rw p (
            first,
            n,
            target,
            permits,
            refl,
            f.le_refl target,
            f.le_trans target (min cap far) cap p a,
            f.le_trans target (min cap far) far p b,
            λ _ _. refl,
          )
          | inr p ↦ rw p (
            first,
            n,
            min cap far,
            permits,
            refl,
            other_way target (min cap far) p,
            a,
            b,
            λ c d. let below = min_greatest target cap far c d in cc,
          )
        ])
