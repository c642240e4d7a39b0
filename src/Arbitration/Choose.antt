-- ===== src/Arbitration/Choose.antt =====
-- The selection of an enforcer for a near-zero-exchange step: hysteresis and dwell.
use text.Mathlib.Text.{◌==◌}
use mimirheim.Prelude.{
  ℕ, zero, suc, ◌-◌, String, Bool, false, not, ◌&&◌, Option, none, some, List, [], ◌∷◌, any,
  if◌then◌else◌,
}
use mimirheim.Prelude.Float.{Float, lt}
use mimirheim.Config.{ControlConfig}
use mimirheim.Arbitration.Score.{Candidate}

-- The variables `current_enforcer`, `dwell_remaining` and `current_score` of the loop.
pub record Authority (F : Type 0) : Type 0 where
  pub current : Option String
  pub dwell : ℕ
  pub score : F

module _ {F : Type 0} ⦃f : Float F⦄ where
  abbrev pub no_authority : Authority F
  no_authority = record { current = none; dwell = 0; score = f.neg (f.of_nat 1) }

  -- `any(c.name == current_enforcer for c in candidates)`, of an enforcer that is not None
  unfoldable pub still_eligible : Option String → List (Candidate F) → Bool
  still_eligible none candidates = false
  still_eligible (some name) candidates = any (λ c. c.name == name) candidates

  abbrev pub appoint : ControlConfig F → Candidate F → Authority F
  appoint ctrl best = record {
    current = some best.name;
    dwell = ctrl.min_enforcer_dwell_steps - 1;
    score = best.efficiency_score;
  }

  -- a challenger against the enforcer `name`
  unfoldable pub challenge :
      ControlConfig F → Candidate F → String → Authority F → Option String × Authority F
  challenge ctrl best name authority =
      if not (best.name == name)
        && lt ctrl.switch_delta (f.sub best.efficiency_score authority.score)
      then (some best.name, appoint ctrl best)
      else (some name, authority)

  -- the branch with no dwell lock
  unfoldable pub select :
      ControlConfig F
      → List (Candidate F)
      → Option String
      → Authority F
      → Option String × Authority F
  unfolding challenge
  select ctrl [] current authority = (none, no_authority)
  select ctrl (best ∷ _) none authority = (some best.name, appoint ctrl best)
  select ctrl (best ∷ _) (some name) authority = challenge ctrl best name authority

  -- dwell comes first; the arguments after the state are its fields
  unfoldable pub keep_or_select :
      ControlConfig F
      → List (Candidate F)
      → Authority F
      → Option String
      → ℕ
      → Option String × Authority F
  unfolding select
  keep_or_select ctrl candidates authority none dwell = select ctrl candidates none authority
  keep_or_select ctrl candidates authority (some name) zero =
      select ctrl candidates (some name) authority
  keep_or_select ctrl candidates authority (some name) (suc dwell) =
      (some name, record authority { dwell = dwell })

  -- the enforcer of the step, and the state that the next step starts from
  unfoldable pub choose :
      ControlConfig F → List (Candidate F) → Authority F → Option String × Authority F
  unfolding still_eligible keep_or_select
  choose ctrl candidates authority =
      let kept = if still_eligible authority.current candidates then authority else no_authority in
      keep_or_select ctrl candidates kept kept.current kept.dwell
