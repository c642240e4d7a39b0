-- ===== src/SolveLoop/Calls.antt =====
-- The calls of the publisher that publishing and recovering make, and what they satisfy.
use mathlib.Core.Path.{subst}
use text.Mathlib.Text.{◌==◌}
use mimirheim.Prelude.{
  ◌≡◌, refl, sym, ap, inl, inr, Bool, true, false, Option, none, some, List, [], ◌∷◌, ◌++◌,
  Bool-cases, In, arith,
}
use mimirheim.Prelude.Float.{Float}
use mimirheim.Bundle.{SolveResult}
use mimirheim.SolveLoop.{
  Action, set_care_overrides, publish_result, publish_battery_care, publish_status, reports_ok,
  recover, announce,
}

-- the status messages of a list of calls, by their failure flag
abbrev pub statuses : {F : Type 0} → List (Action F) → List Bool
statuses [] = []
statuses (publish_status r failed ∷ calls) = failed ∷ statuses calls
statuses (set_care_overrides ∷ calls) = statuses calls
statuses (publish_result r ∷ calls) = statuses calls
statuses (publish_battery_care r ∷ calls) = statuses calls

-- the results whose schedule is published
abbrev pub schedules : {F : Type 0} → List (Action F) → List (SolveResult F)
schedules [] = []
schedules (publish_result r ∷ calls) = r ∷ schedules calls
schedules (set_care_overrides ∷ calls) = schedules calls
schedules (publish_status r failed ∷ calls) = schedules calls
schedules (publish_battery_care r ∷ calls) = schedules calls

-- a call that publishes the care policy
abbrev pub publishes_care : {F : Type 0} → Action F → Bool
publishes_care set_care_overrides = false
publishes_care (publish_result r) = true
publishes_care (publish_battery_care r) = true
publishes_care (publish_status r failed) = false

module _ {F : Type 0} ⦃f : Float F⦄ where
  -- The calls before the status message, which is about this result and this failure.
  abbrev pub Reported :
      (again : Bool)
      → (result : Option (SolveResult F)) → (failed : Bool) → List (Action F)
      → Type 0
  Reported again result failed calls =
      (statuses calls ≡ [])
      × (again ≡ false
          → (before : List (Action F)) × (last : Action F) × (calls
              ≡ before ++ (set_care_overrides ∷ last ∷ []))
            × (publishes_care last ≡ true))
      × ((r : SolveResult F)
          → In r (schedules calls)
          → (result ≡ some r) × ((r.solve_status == "infeasible") ≡ false))
      × (reports_ok result failed ≡ true
          → (r : SolveResult F) × (result ≡ some r) × (schedules calls ≡ r ∷ []))

  -- A list of calls that ends with its only status message.
  abbrev pub EndsReported : Bool → Option (SolveResult F) → Bool → List (Action F) → Type 0
  EndsReported again result failed all =
      (calls : List (Action F)) × (all ≡ calls ++ (publish_status result failed ∷ []))
      × Reported again result failed calls

  pub failure : (result : Option (SolveResult F)) → reports_ok result true ≡ false
  unfolding reports_ok
  failure none = refl
  failure (some r) = refl

  feasible :
      (r : SolveResult F)
      → reports_ok (some r) false ≡ true
      → (r.solve_status == "infeasible") ≡ false
  unfolding reports_ok
  feasible r h = ground arith

  pub recover-EndsReported :
      (again : Bool) (result : Option (SolveResult F))
      → EndsReported again result true (recover again result)
  unfolding recover
  recover-EndsReported true result = (
    set_care_overrides ∷ [],
    refl,
    (refl, λ h. cc, λ r m. absurd m, λ h. let e = failure result in cc),
  )
  recover-EndsReported false result = (
    set_care_overrides ∷ publish_battery_care result ∷ [],
    refl,
    (
      refl,
      λ h. ([], publish_battery_care result, refl, refl),
      λ r m. absurd m,
      λ h. let e = failure result in cc,
    ),
  )

  -- a call that is no status message and publishes no schedule, before others
  pub with_overrides :
      (again : Bool) (result : Option (SolveResult F)) (failed : Bool) (all : List (Action F))
      → EndsReported again result failed all
      → EndsReported again result failed (set_care_overrides ∷ all)
  with_overrides again result failed all (calls, e, (s, care, mine, ok)) = (
    set_care_overrides ∷ calls,
    ap (λ cs. set_care_overrides ∷ cs) e,
    (
      s,
      λ h.
          let (before, last, q, c) = care h in
          (set_care_overrides ∷ before, last, ap (λ cs. set_care_overrides ∷ cs) q, c),
      mine,
      ok,
    ),
  )

  announce-schedule :
      (r : SolveResult F) → (r.solve_status == "infeasible") ≡ false → announce r ≡ publish_result r
  unfolding announce
  announce-schedule r h = rw h refl

  announce-care :
      (r : SolveResult F)
      → (r.solve_status == "infeasible") ≡ true
      → announce r ≡ publish_battery_care (some r)
  unfolding announce
  announce-care r h = rw h refl

  the_only :
      (r x : SolveResult F)
      → (r.solve_status == "infeasible") ≡ false
      → In x (r ∷ [])
      → (some r ≡ some x) × ((x.solve_status == "infeasible") ≡ false)
  the_only r x h (inl e) = (
    ap (λ (y : SolveResult F). some y) (sym e),
    subst (λ (y : SolveResult F). (y.solve_status == "infeasible") ≡ false) (sym e) h,
  )
  the_only r x h (inr m) = absurd m

  pub no_fault-EndsReported :
      (again : Bool) (r : SolveResult F)
      → EndsReported again
          (some r)
          false
          (set_care_overrides ∷ announce r ∷ publish_status (some r) false ∷ [])
  no_fault-EndsReported again r = elim (Bool-cases (r.solve_status == "infeasible")) [
    | inl inf ↦ (
      set_care_overrides ∷ publish_battery_care (some r) ∷ [],
      rw (announce-care r inf) refl,
      (
        refl,
        λ h. ([], publish_battery_care (some r), refl, refl),
        λ x m. absurd m,
        λ h. let e = feasible r h in cc,
      ),
    )
    | inr fine ↦ (
      set_care_overrides ∷ publish_result r ∷ [],
      rw (announce-schedule r fine) refl,
      (
        refl,
        λ h. ([], publish_result r, refl, refl),
        λ x m. the_only r x fine m,
        λ h. (r, refl, refl),
      ),
    )
  ]

  -- a publication that raises, before the recovery
  pub with_announced :
      (again : Bool) (r : SolveResult F)
      → EndsReported again (some r) true (announce r ∷ recover again (some r))
  with_announced again r =
      let (calls, e, (s, care, mine, ok)) = recover-EndsReported again (some r) in
      elim (Bool-cases (r.solve_status == "infeasible")) [
        | inl inf ↦ (
          publish_battery_care (some r) ∷ calls,
          rw (announce-care r inf) (ap (λ cs. publish_battery_care (some r) ∷ cs) e),
          (
            s,
            λ h.
                let (before, last, q, c) = care h in
                (
                  publish_battery_care (some r) ∷ before,
                  last,
                  ap (λ cs. publish_battery_care (some r) ∷ cs) q,
                  c,
                ),
            mine,
            λ h. let no_ok = failure (some r) in cc,
          ),
        )
        | inr fine ↦ (
          publish_result r ∷ calls,
          rw (announce-schedule r fine) (ap (λ cs. publish_result r ∷ cs) e),
          (
            s,
            λ h.
                let (before, last, q, c) = care h in
                (publish_result r ∷ before, last, ap (λ cs. publish_result r ∷ cs) q, c),
            λ x m. elim m [ inl same ↦ the_only r x fine (inl same) | inr later ↦ mine x later ],
            λ h. let no_ok = failure (some r) in cc,
          ),
        )
      ]
