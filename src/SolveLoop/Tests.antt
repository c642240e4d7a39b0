-- ===== src/SolveLoop/Tests.antt =====
-- The theorems on the solve loop at concrete inputs.
use mimirheim.Prelude.{
  smaller, ℕ, String, ◌≡◌, refl, Bool, true, false, Option, none, some, List, [], ◌∷◌, ◌++◌, arith,
  ap, inl, inr, In,
}
use mimirheim.Prelude.Fixed.{ℤ, milli}
use mimirheim.Bundle.{EvInputs, BatteryCareStatus, SolveBundle, SolveResult}
use mimirheim.Config.{MimirheimConfig}
use mimirheim.Examples.{household, solved}
use mimirheim.Examples.Hour.{hour_state, hour_bundle, hour_taken}
use mimirheim.Forecast.{floor_to_15min}
use mimirheim.Readiness.Coverage.{horizon_steps}
use mimirheim.Readiness.Snapshot.{is_valid_bundle}
use mimirheim.Readiness.Lengths.{HorizonSeries}
use mimirheim.PostProcess.Threshold.{Suppresses}
use mimirheim.SolveLoop.{
  Action, publish_status, no_fault, publisher_raises, reports_ok, clip_bundle, iterate,
}
use mimirheim.SolveLoop.Outdoor.{OutdoorLeft}
use mimirheim.SolveLoop.Clip.{clip_bundle-snapshot}
use mimirheim.SolveLoop.Suppressed.{Standstill, iterate-Standstill}
use mimirheim.SolveLoop.Calls.{schedules, Reported}
use mimirheim.SolveLoop.Publish.{GoesThrough, iterate-Reported}

-- three of the four steps
clip_bundle-snapshot_example :
    (n : ℕ) × (c : SolveBundle ℤ) × (horizon_steps hour_state 7 ≡ some n)
    × (clip_bundle hour_bundle 3 ≡ some c)
    × (is_valid_bundle c ≡ true)
    × (c.solve_time_utc ≡ floor_to_15min 7)
    × HorizonSeries (smaller 3 n) c
    × OutdoorLeft 3 n hour_bundle c
clip_bundle-snapshot_example =
    clip_bundle-snapshot hour_state 7 7 3 hour_bundle hour_taken (omega arith)

-- a solver that always finds the same
abbrev solve : SolveBundle ℤ → MimirheimConfig ℤ → Option (SolveResult ℤ)
solve bundle config = some solved

-- the publisher raises, the second hand-over does not
iterate-Reported_example :
    (result : Option (SolveResult ℤ)) × (failed : Bool) × (calls : List (Action ℤ)) × (iterate solve
        household publisher_raises false hour_bundle
      ≡ calls ++ (publish_status result failed ∷ []))
    × Reported false result failed calls
    × (reports_ok result failed ≡ true
        → (r : SolveResult ℤ) × (result ≡ some r)
          × GoesThrough solve household publisher_raises hour_bundle r)
iterate-Reported_example = iterate-Reported solve household publisher_raises false hour_bundle

-- the car has no target
no_target :
    (name : String) (ev : EvInputs ℤ)
    → In {A = String × EvInputs ℤ} (name, ev) hour_bundle.ev_inputs
    → ev.target_soc_kwh ≡ none
no_target name ev (inl e) = ap (λ (p : String × EvInputs ℤ). p.1.target_soc_kwh) e
no_target name ev (inr m) = absurd m

not_enforced :
    (name : String) (status : BatteryCareStatus ℤ)
    → In {A = String × BatteryCareStatus ℤ} (name, status) solved.battery_care
    → status.enforced_target_kwh ≡ none
not_enforced name status (inl e) =
    ap (λ (p : String × BatteryCareStatus ℤ). p.1.enforced_target_kwh) e
not_enforced name status (inr m) = absurd m

suppresses : Suppresses solved hour_bundle household
suppresses = (
  refl,
  refl,
  inl refl,
  (λ name ev target latest m a t l. let free = no_target name ev m in cc, refl),
  not_enforced,
  refl,
  refl,
)

clipped : clip_bundle hour_bundle household.max_horizon_steps ≡ some hour_bundle
unfolding clip_bundle
clipped = refl

iterate-Standstill_example :
    (r : SolveResult ℤ) × (schedules (iterate solve household no_fault false hour_bundle) ≡ r ∷ [])
    × (r.dispatch_suppressed ≡ true)
    × Standstill r
iterate-Standstill_example =
    iterate-Standstill solve household no_fault false hour_bundle hour_bundle solved clipped refl
      suppresses
