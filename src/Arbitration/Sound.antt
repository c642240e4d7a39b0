-- ===== src/Arbitration/Sound.antt =====
-- Soundness of the selection: the enforcer is a candidate, and with a candidate there is one.
use text.Mathlib.Text.{◌==◌}
use text.Mathlib.TextEquality.{eq_iff}
use mimirheim.Prelude.{
  ℕ, zero, suc, String, ◌≡◌, refl, inl, inr, true, false, not, ◌&&◌, Option, none, some, List, [],
  ◌∷◌, any, arith, some_inj, Bool-cases,
}
use mathlib.Core.Path.{subst}
use mimirheim.Prelude.Float.{Float, lt}
use mimirheim.Config.{ControlConfig}
use mimirheim.Arbitration.Score.{Candidate}
use mimirheim.Arbitration.Choose.{
  Authority, no_authority, still_eligible, select, keep_or_select, choose,
}

-- A candidate of that name is in the list.
abbrev pub Named : {F : Type 0} → String → List (Candidate F) → Type 0
Named name candidates = any (λ c. c.name == name) candidates ≡ true

module _ {F : Type 0} ⦃f : Float F⦄ (ctrl : ControlConfig F) where
  Named-head :
      (best : Candidate F) (rest : List (Candidate F)) (name : String)
      → best.name ≡ name
      → Named name (best ∷ rest)
  Named-head best rest name e = ground (arith, (eq_iff best.name name).1 e)

  pub choose_kept :
      (candidates : List (Candidate F)) (authority : Authority F)
      → still_eligible authority.current candidates ≡ true
      → choose ctrl candidates authority
        ≡ keep_or_select ctrl candidates authority authority.current authority.dwell
  unfolding choose
  choose_kept candidates authority h = rw h

  pub choose_reset :
      (candidates : List (Candidate F)) (authority : Authority F)
      → still_eligible authority.current candidates ≡ false
      → choose ctrl candidates authority ≡ select ctrl candidates none no_authority
  unfolding choose
  choose_reset candidates authority h = rw h

  keep-Named :
      (candidates : List (Candidate F)) (authority : Authority F) (current : Option String)
      (dwell : ℕ) (name : String)
      → still_eligible current candidates ≡ true
      → (keep_or_select ctrl candidates authority current dwell).0 ≡ some name
      → Named name candidates
  unfolding keep_or_select still_eligible
  keep-Named candidates authority none dwell name q h = cc
  keep-Named [] authority (some cur) zero name q h = cc
  keep-Named (best ∷ rest) authority (some cur) zero name q h =
      elim (Bool-cases (
        not (best.name == cur)
        && lt ctrl.switch_delta (f.sub best.efficiency_score authority.score))) [
          | inl p ↦ Named-head best rest name (some_inj (rw p at h))
          | inr p ↦ subst (λ n. Named n (best ∷ rest)) (some_inj (rw p at h)) q
        ]
  keep-Named candidates authority (some cur) (suc d) name q h =
      subst (λ n. Named n candidates) (some_inj h) q

  select-Named :
      (candidates : List (Candidate F)) (authority : Authority F) (name : String)
      → (select ctrl candidates none authority).0 ≡ some name
      → Named name candidates
  unfolding select
  select-Named [] authority name h = cc
  select-Named (best ∷ rest) authority name h = Named-head best rest name (some_inj h)

  -- the enforcer is one of the candidates
  pub choose-Named :
      (candidates : List (Candidate F)) (authority : Authority F) (name : String)
      → (choose ctrl candidates authority).0 ≡ some name
      → Named name candidates
  choose-Named candidates authority name h =
      elim (Bool-cases (still_eligible authority.current candidates)) [
        | inl q ↦
            keep-Named candidates authority authority.current authority.dwell name q
              (rw (choose_kept candidates authority q) at h)
        | inr q ↦
            select-Named candidates no_authority name
              (rw (choose_reset candidates authority q) at h)
      ]

  keep_total :
      (best : Candidate F) (rest : List (Candidate F)) (authority : Authority F)
      (current : Option String) (dwell : ℕ)
      → (name : String) × ((keep_or_select ctrl (best ∷ rest) authority current dwell).0
          ≡ some name)
  unfolding keep_or_select
  keep_total best rest authority none dwell = (best.name, refl)
  keep_total best rest authority (some cur) zero =
      elim (Bool-cases (
        not (best.name == cur)
        && lt ctrl.switch_delta (f.sub best.efficiency_score authority.score))) [
          | inl p ↦ (best.name, rw p refl)
          | inr p ↦ (cur, rw p refl)
        ]
  keep_total best rest authority (some cur) (suc d) = (cur, refl)

  -- with a candidate there is an enforcer
  pub choose_total :
      (best : Candidate F) (rest : List (Candidate F)) (authority : Authority F)
      → (name : String) × ((choose ctrl (best ∷ rest) authority).0 ≡ some name)
  choose_total best rest authority =
      elim (Bool-cases (still_eligible authority.current (best ∷ rest))) [
        | inl q ↦
            rw (choose_kept (best ∷ rest) authority q)
              (keep_total best rest authority authority.current authority.dwell)
        | inr q ↦ rw (choose_reset (best ∷ rest) authority q) (unfold select in (best.name, refl))
      ]
