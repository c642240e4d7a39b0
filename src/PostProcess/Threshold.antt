-- ===== src/PostProcess/Threshold.antt =====
-- When dispatch is suppressed.
use text.Mathlib.Text.{◌==◌}
use mimirheim.Prelude.{
  ℕ, String, ◌≡◌, ◌≤◌, ◌⊎◌, inl, inr, refl, true, false, none, some, [], arith, Bool-cases,
  Option-cases, In, any-false, false-any, List-cases, any, is_some, ltb,
}
use mimirheim.Prelude.Float.{Float, lt}
use mimirheim.Prelude.Dict.{Dict}
use mimirheim.Config.{MimirheimConfig}
use mimirheim.Bundle.{EvInputs, BatteryCareStatus, SolveBundle, SolveResult}
use mimirheim.PostProcess.{
  has_threshold, has_ev_deadline, has_active_deadline, has_enforced_target, is_future,
  apply_gain_threshold, build_idle_result,
}

not_threshold :
    (strategy : String)
    → has_threshold strategy ≡ false
    → ((strategy == "minimize_cost") ≡ true) ⊎ ((strategy == "balanced") ≡ true)
    → ⊥
unfolding has_threshold
not_threshold strategy h k = ground arith

threshold_strategy :
    (strategy : String)
    → has_threshold strategy ≡ true
    → ((strategy == "minimize_cost") ≡ true) ⊎ ((strategy == "balanced") ≡ true)
unfolding has_threshold
threshold_strategy strategy h = ground arith

module _ {F : Type 0} where
  -- No plugged-in vehicle has a target with a deadline ahead, and no deferrable load has a window.
  abbrev pub NoDeadline : SolveBundle F → Type 0
  NoDeadline bundle =
      ((name : String) (ev : EvInputs F) (target : F) (latest : ℕ)
        → In {A = String × EvInputs F} (name, ev) bundle.ev_inputs
        → ev.available ≡ true
        → ev.target_soc_kwh ≡ some target
        → ev.window_latest ≡ some latest
        → latest ≤ bundle.solve_time_utc)
      × (bundle.deferrable_windows ≡ [])

  ev_deadline_past :
      (now : ℕ) (ev : EvInputs F) (target : F) (latest : ℕ)
      → has_ev_deadline now ev ≡ false
      → ev.available ≡ true
      → ev.target_soc_kwh ≡ some target
      → ev.window_latest ≡ some latest
      → latest ≤ now
  unfolding has_ev_deadline is_future
  ev_deadline_past now ev target latest h a t w =
      let past : ltb now latest ≡ false = rw (a, t, w) at h in ground arith

  past_no_deadline :
      (now : ℕ) (ev : EvInputs F)
      → ((target : F) (latest : ℕ)
          → ev.available ≡ true
          → ev.target_soc_kwh ≡ some target
          → ev.window_latest ≡ some latest
          → latest ≤ now)
      → has_ev_deadline now ev ≡ false
  unfolding has_ev_deadline is_future
  past_no_deadline now ev h = elim (Bool-cases ev.available) [
    | inr a ↦ rw a refl
    | inl a ↦ elim (Option-cases ev.target_soc_kwh) [
      | inl t ↦ rw (a, t) refl
      | inr (target, t) ↦ elim (Option-cases ev.window_latest) [
        | inl w ↦ rw (a, t, w) refl
        | inr (latest, w) ↦ let past = h target latest a t w in rw (a, t, w) (ground arith)
      ]
    ]
  ]

  no_deadline : (bundle : SolveBundle F) → has_active_deadline bundle ≡ false → NoDeadline bundle
  unfolding has_active_deadline
  no_deadline bundle h =
      let evs : any (λ (e : String × EvInputs F). has_ev_deadline bundle.solve_time_utc e.1)
            bundle.ev_inputs
          ≡ false =
        ground arith in
      (
        λ name ev target latest m. ev_deadline_past bundle.solve_time_utc ev target latest (
            any-false (λ (e : String × EvInputs F). has_ev_deadline bundle.solve_time_utc e.1)
              (name, ev) bundle.ev_inputs evs m),
        elim (List-cases bundle.deferrable_windows) [
          | inl e ↦ e
          | inr (x, rest, e) ↦ let h' = rw (evs, e) at h in cc
        ],
      )

  deadline_free : (bundle : SolveBundle F) → NoDeadline bundle → has_active_deadline bundle ≡ false
  unfolding has_active_deadline
  deadline_free bundle (evs, windows) =
      rw
        (
          false-any (λ (e : String × EvInputs F). has_ev_deadline bundle.solve_time_utc e.1)
              bundle.ev_inputs
              (λ e m.
                past_no_deadline bundle.solve_time_utc e.1
                  (λ target latest. evs e.0 e.1 target latest m)),
          windows,
        )
        refl

  -- No battery was required to reach a target.
  abbrev pub NoEnforced : SolveResult F → Type 0
  NoEnforced result =
      (name : String) (status : BatteryCareStatus F)
      → In {A = String × BatteryCareStatus F} (name, status) result.battery_care
      → status.enforced_target_kwh ≡ none

  enforced_free :
      (battery_care : Dict (BatteryCareStatus F))
      → has_enforced_target battery_care ≡ false
      → (name : String) (status : BatteryCareStatus F)
      → In {A = String × BatteryCareStatus F} (name, status) battery_care
      → status.enforced_target_kwh ≡ none
  unfolding has_enforced_target
  enforced_free battery_care h name status m =
      let off =
        any-false (λ (s : String × BatteryCareStatus F). is_some s.1.enforced_target_kwh)
          (name, status) battery_care h m in
      elim (Option-cases status.enforced_target_kwh) [
        | inl e ↦ e
        | inr (x, e) ↦ let off' = rw e at off in cc
      ]

  free_enforced :
      (battery_care : Dict (BatteryCareStatus F))
      → ((name : String) (status : BatteryCareStatus F)
          → In {A = String × BatteryCareStatus F} (name, status) battery_care
          → status.enforced_target_kwh ≡ none)
      → has_enforced_target battery_care ≡ false
  unfolding has_enforced_target
  free_enforced battery_care h =
      false-any (λ (s : String × BatteryCareStatus F). is_some s.1.enforced_target_kwh) battery_care
        (λ s m. rw (h s.0 s.1 m) refl)

module _ {F : Type 0} ⦃f : Float F⦄ where
  -- Every condition for suppression, in words of the inputs.
  abbrev pub Suppresses : SolveResult F → SolveBundle F → MimirheimConfig F → Type 0
  Suppresses result bundle config =
      (lt f.nil config.min_dispatch_gain_eur ≡ true)
      × ((result.solve_status == "infeasible") ≡ false)
      × (((bundle.strategy == "minimize_cost") ≡ true) ⊎ ((bundle.strategy == "balanced") ≡ true))
      × NoDeadline bundle
      × NoEnforced result
      × (f.le f.nil (f.sub result.naive_cost_eur result.optimised_cost_eur) ≡ true)
      × (lt (f.sub result.naive_cost_eur result.optimised_cost_eur) config.min_dispatch_gain_eur
          ≡ true)

  -- `apply_gain_threshold` is the identity except where every condition for suppression holds, and
  -- there its result is the idle one.
  pub apply_gain_threshold_cases :
      (result : SolveResult F) (bundle : SolveBundle F) (config : MimirheimConfig F)
      → (Suppresses result bundle config
          × (apply_gain_threshold result bundle config ≡ build_idle_result result))
        ⊎ ((Suppresses result bundle config → ⊥)
            × (apply_gain_threshold result bundle config ≡ result))
  unfolding apply_gain_threshold
  apply_gain_threshold_cases result bundle config =
      elim (Bool-cases (f.le config.min_dispatch_gain_eur f.nil)) [
        | inl p ↦ inr (λ h. let a = h.0 in ground arith, rw p refl)
        | inr p ↦ elim (Bool-cases (result.solve_status == "infeasible")) [
          | inl q ↦ inr (λ h. let b = h.1 in cc, rw (p, q) refl)
          | inr q ↦ elim (Bool-cases (has_threshold bundle.strategy)) [
            | inr r ↦ inr (λ h. not_threshold bundle.strategy r h.2, rw (p, q, r) refl)
            | inl r ↦ elim (Bool-cases (has_active_deadline bundle)) [
              | inl s ↦ inr (λ h. let free = deadline_free bundle h.3 in cc, rw (p, q, r, s) refl)
              | inr s ↦ elim (Bool-cases (has_enforced_target result.battery_care)) [
                | inl t ↦ inr (
                  λ h. let free = free_enforced result.battery_care h.4 in cc,
                  rw (p, q, r, s, t) refl,
                )
                | inr t ↦
                    elim (Bool-cases
                      (f.le f.nil (f.sub result.naive_cost_eur result.optimised_cost_eur))) [
                        | inr u ↦ inr (λ h. let u' = h.5 in cc, rw (p, q, r, s, t, u) refl)
                        | inl u ↦
                            elim (Bool-cases (
                              f.le config.min_dispatch_gain_eur
                                (f.sub result.naive_cost_eur result.optimised_cost_eur))) [
                                  | inl v ↦ inr (
                                    λ h. let v' = h.6 in ground arith,
                                    rw (p, q, r, s, t, u, v) refl,
                                  )
                                  | inr v ↦ inl (
                                    (
                                      rw p refl,
                                      q,
                                      threshold_strategy bundle.strategy r,
                                      no_deadline bundle s,
                                      enforced_free result.battery_care t,
                                      u,
                                      rw v refl,
                                    ),
                                    rw (p, q, r, s, t, u, v) refl,
                                  )
                                ]
                      ]
              ]
            ]
          ]
        ]
      ]
