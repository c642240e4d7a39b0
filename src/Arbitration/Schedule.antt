-- ===== src/Arbitration/Schedule.antt =====
-- Who enforces zero exchange on the steps of a schedule, as the loop over them goes on.
use mimirheim.Prelude.{
  suc, ◌+◌, ◌-◌, ◌≤◌, ◌<◌, String, ◌≡◌, refl, sym, ap, ◌∙◌, ◌≢◌, inl, inr, Bool, true, false,
  Option, some, List, [], ◌∷◌, ◌++◌, map, arith, Bool-cases, All, length,
}
use mathlib.Core.Path.{subst}
use mimirheim.Prelude.Dict.{Dict}
use mimirheim.Prelude.Float.{Float, lt, max}
use mimirheim.Config.{MimirheimConfig}
use mimirheim.Bundle.{ScheduleStep}
use mimirheim.Arbitration.Score.{Candidate, build_candidates}
use mimirheim.Arbitration.Sound.{Named}
use mimirheim.Arbitration.Choose.{Authority, no_authority, choose}
use mimirheim.Arbitration.Assign.{
  enforced_setpoint, map_devices, zex, lb, choose_for, near_zero, assign_step, assign_steps,
}
use mimirheim.Arbitration.Dwell.{
  choose-current, choose_appoints, choose_locked, choose-GoesOn, choose_switch,
}

module _ {F : Type 0} ⦃f : Float F⦄ (config : MimirheimConfig F) (ev : Dict Bool) where
  -- the candidates of a step, the best first
  abbrev pub candidates : ScheduleStep F → List (Candidate F)
  candidates step =
      build_candidates step (max step.grid_import_kw step.grid_export_kw) (zex config ev) ev config
        config.control.headroom_margin_kw

  -- the state of the loop after some steps
  abbrev pub after : Authority F → List (ScheduleStep F) → Authority F
  after authority [] = authority
  after authority (step ∷ steps) = after (assign_step config ev step authority).1 steps

  -- The device has the role after each of the steps.
  abbrev pub Keeps : String → Authority F → List (ScheduleStep F) → Type 0
  Keeps name authority [] = Unit {0}
  Keeps name authority (step ∷ steps) =
      ((assign_step config ev step authority).1.current ≡ some name)
      × Keeps name (assign_step config ev step authority).1 steps

  -- a step assigned to this enforcer
  abbrev pub enforced_by : Option String → ScheduleStep F → ScheduleStep F
  enforced_by enforcer step = record step {
    devices =
        map_devices (enforced_setpoint config (zex config ev) (lb config ev) ev enforcer)
          step.devices;
  }

  assign_near :
      (step : ScheduleStep F) (authority : Authority F)
      → near_zero config ev step ≡ true
      → assign_step config ev step authority ≡ (
        enforced_by (choose config.control (candidates step) authority).0 step,
        (choose config.control (candidates step) authority).1,
      )
  unfolding assign_step choose_for
  assign_near step authority h = rw h refl

  assign_far :
      (step : ScheduleStep F) (authority : Authority F)
      → near_zero config ev step ≡ false
      → (assign_step config ev step authority).1 ≡ no_authority
  unfolding assign_step
  assign_far step authority h = rw h refl

  -- Only a near-zero-exchange step leaves a device with the role.
  near_if_current :
      (step : ScheduleStep F) (authority : Authority F) (name : String)
      → (assign_step config ev step authority).1.current ≡ some name
      → (near_zero config ev step ≡ true)
        × ((assign_step config ev step authority).1
            ≡ (choose config.control (candidates step) authority).1)
        × ((choose config.control (candidates step) authority).0 ≡ some name)
  near_if_current step authority name h = elim (Bool-cases (near_zero config ev step)) [
    | inl near ↦
        let e = ap (λ (r : ScheduleStep F × Authority F). r.1) (assign_near step authority near) in
        (
          near,
          e,
          choose-current config.control (candidates step) authority
              ∙ ap (λ (a : Authority F). a.current) (sym e)
              ∙ h,
        )
    | inr far ↦ let c = ap (λ (a : Authority F). a.current) (assign_far step authority far) in cc
  ]

  -- A step at which the device is a candidate and no exchange is planned.
  abbrev pub Stays : String → ScheduleStep F → Type 0
  Stays name step = (near_zero config ev step ≡ true) × Named name (candidates step)

  abbrev assigned : ScheduleStep F → Authority F → ScheduleStep F × Authority F
  assigned step next = (step, next)

  locked :
      (authority : Authority F) (name : String) (steps : List (ScheduleStep F))
      → authority.current ≡ some name
      → All (Stays name) steps
      → length steps ≤ authority.dwell
      → assign_steps config ev authority steps ≡ map (enforced_by (some name)) steps
  unfolding assign_steps
  locked authority name [] c h l = refl
  locked authority name (step ∷ steps) c h l =
      let d = authority.dwell - 1 in
      let e =
        assign_near step authority h.0.0
        ∙ ap (λ (r : Option String × Authority F). assigned (enforced_by r.0 step) r.1)
            (choose_locked config.control (candidates step) authority name d c (omega arith)
              h.0.1) in
      let ih = locked (record authority { dwell = d }) name steps c h.1 (omega arith) in
      rw
        (
          ap (λ (p : ScheduleStep F × Authority F). p.0) e,
          ap (λ (p : ScheduleStep F × Authority F). p.1) e,
          ih,
        )
        refl

  -- A device that takes over the role in a step is the enforcer of the next steps, whatever the
  -- others score, as long as these steps are near-zero-exchange steps in which it is still a
  -- candidate and are fewer than `min_enforcer_dwell_steps`.
  pub dwell_holds :
      (step : ScheduleStep F) (authority : Authority F) (name : String)
      (steps : List (ScheduleStep F))
      → authority.current ≢ some name
      → (assign_step config ev step authority).1.current ≡ some name
      → All (Stays name) steps
      → length steps < config.control.min_enforcer_dwell_steps
      → assign_steps config ev (assign_step config ev step authority).1 steps
        ≡ map (enforced_by (some name)) steps
  dwell_holds step authority name steps ne h stays l =
      let (near, e, won) = near_if_current step authority name h in
      let (best, rest, cs, b, s, d) =
        choose_appoints config.control (candidates step) authority name ne won in
      let dwell = ap (λ (a : Authority F). a.dwell) e ∙ d in
      locked (assign_step config ev step authority).1 name steps h stays (omega (arith, dwell, l))

  -- What a device that keeps the role over some steps carries along.
  carried :
      (steps : List (ScheduleStep F)) (authority : Authority F) (name : String)
      → authority.current ≡ some name
      → Keeps name authority steps
      → ((after authority steps).current ≡ some name)
        × ((after authority steps).score ≡ authority.score)
        × (authority.dwell ≤ length steps + (after authority steps).dwell)
  carried [] authority name c k = (c, refl, omega arith)
  carried (step ∷ steps) authority name c (k, ks) =
      let (near, e, won) = near_if_current step authority name k in
      let (same, less) = choose-GoesOn config.control (candidates step) authority name c won in
      let next = (assign_step config ev step authority).1 in
      let (c2, s2, d2) = carried steps next name k ks in
      let d = ap (λ (a : Authority F). a.dwell) e in
      (c2, s2 ∙ ap (λ (a : Authority F). a.score) e ∙ same, omega (arith, less, d, d2))

  -- Suppose a device takes over the role in a step, keeps it over the next steps, and then loses it
  -- to another in a near-zero-exchange step in which it is still a candidate. Then the minimum dwell
  -- is over, and the new enforcer is the first candidate of its step and exceeds the score with
  -- which the old one, the first candidate of its own first step, was chosen by more than the delta.
  pub switch_needs_delta :
      (first : ScheduleStep F) (authority : Authority F) (steps : List (ScheduleStep F))
      (last : ScheduleStep F) (old name : String)
      → authority.current ≢ some old
      → Keeps old authority (first ∷ steps)
      → Stays old last
      → (after authority (first ∷ (steps ++ (last ∷ [])))).current ≡ some name
      → name ≢ old
      → (config.control.min_enforcer_dwell_steps ≤ suc (length steps))
        × (was : Candidate F) × (others : List (Candidate F)) × (candidates first ≡ was ∷ others)
        × (was.name ≡ old)
        × (best : Candidate F) × (rest : List (Candidate F)) × (candidates last ≡ best ∷ rest)
        × (best.name ≡ name)
        × (lt config.control.switch_delta (f.sub best.efficiency_score was.efficiency_score) ≡ true)
  switch_needs_delta first authority steps last old name ne (k, ks) (near, named) h differ =
      let (n, e, won) = near_if_current first authority old k in
      let (was, others, cs, b, s, d) =
        choose_appoints config.control (candidates first) authority old ne won in
      let start = (assign_step config ev first authority).1 in
      let (c, same, dwell) = carried steps start old k ks in
      let (near2, e2, won2) =
        near_if_current last (after start steps) name
          (ap (λ (a : Authority F). a.current) (sym (after-append start steps last)) ∙ h) in
      let (over, (best, rest, cs2, b2, more)) =
        choose_switch config.control (candidates last) (after start steps) old name c named won2
          differ in
      let d1 = ap (λ (a : Authority F). a.dwell) e ∙ d in
      let score : (after start steps).score ≡ was.efficiency_score =
        same ∙ ap (λ (a : Authority F). a.score) e ∙ s in
      (
        omega (arith, over, d1, dwell),
        was,
        others,
        cs,
        b,
        best,
        rest,
        cs2,
        b2,
        subst (λ x. lt config.control.switch_delta (f.sub best.efficiency_score x) ≡ true) score
            more,
      )
    where
      after-append :
          (a : Authority F) (xs : List (ScheduleStep F)) (x : ScheduleStep F)
          → after a (xs ++ (x ∷ [])) ≡ (assign_step config ev x (after a xs)).1
      after-append a [] x = refl
      after-append a (y ∷ xs) x = after-append (assign_step config ev y a).1 xs x
