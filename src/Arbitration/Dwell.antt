-- ===== src/Arbitration/Dwell.antt =====
-- Hysteresis and the minimum dwell of the selection, over the steps of a schedule.
use text.Mathlib.Text.{◌==◌}
use text.Mathlib.TextEquality.{eq_iff}
use mimirheim.Prelude.{
  ℕ, zero, suc, ◌-◌, ◌≤◌, String, ◌≡◌, refl, sym, ap, ◌∙◌, ◌≢◌, inl, inr, Bool, true, false, not,
  ◌&&◌, Option, none, some, List, [], ◌∷◌, arith, some_inj, Bool-cases,
}
use mathlib.Core.Path.{subst}
use mimirheim.Prelude.Float.{Float, lt}
use mimirheim.Config.{ControlConfig}
use mimirheim.Arbitration.Score.{Candidate}
use mimirheim.Arbitration.Sound.{Named, choose_kept, choose_reset}
use mimirheim.Arbitration.Choose.{
  Authority, no_authority, still_eligible, select, keep_or_select, choose,
}

module _ {F : Type 0} ⦃f : Float F⦄ (ctrl : ControlConfig F) where
  -- The test of a challenger.
  abbrev wins : Candidate F → String → Authority F → Bool
  wins best name authority =
      not (best.name == name) && lt ctrl.switch_delta (f.sub best.efficiency_score authority.score)

  not_named : (best : Candidate F) (name : String) → (best.name == name) ≡ false → best.name ≢ name
  not_named best name h e = let t = (eq_iff best.name name).1 e in cc

  keep-current :
      (candidates : List (Candidate F)) (authority : Authority F) (current : Option String)
      (dwell : ℕ)
      → authority.current ≡ current
      → (keep_or_select ctrl candidates authority current dwell).0
        ≡ (keep_or_select ctrl candidates authority current dwell).1.current
  unfolding keep_or_select
  keep-current [] authority none dwell e = refl
  keep-current (best ∷ rest) authority none dwell e = refl
  keep-current [] authority (some cur) zero e = refl
  keep-current (best ∷ rest) authority (some cur) zero e =
      elim (Bool-cases (wins best cur authority)) [ inl p ↦ rw p refl | inr p ↦ rw p (sym e) ]
  keep-current candidates authority (some cur) (suc d) e = sym e

  select-current :
      (candidates : List (Candidate F))
      → (select ctrl candidates none no_authority).0
        ≡ (select ctrl candidates none no_authority).1.current
  unfolding select
  select-current [] = refl
  select-current (best ∷ rest) = refl

  -- the enforcer of a step is the current one of the state after it
  pub choose-current :
      (candidates : List (Candidate F)) (authority : Authority F)
      → (choose ctrl candidates authority).0 ≡ (choose ctrl candidates authority).1.current
  choose-current candidates authority =
      elim (Bool-cases (still_eligible authority.current candidates)) [
        | inl q ↦
            rw (choose_kept ctrl candidates authority q)
              (keep-current candidates authority authority.current authority.dwell refl)
        | inr q ↦ rw (choose_reset ctrl candidates authority q) (select-current candidates)
      ]

  -- A device that has just been given the role: the first candidate, with its score.
  abbrev pub Appointed : String → List (Candidate F) → Authority F → Type 0
  Appointed name candidates next =
      (best : Candidate F) × (rest : List (Candidate F)) × (candidates ≡ best ∷ rest)
      × (best.name ≡ name)
      × (next.score ≡ best.efficiency_score)
      × (next.dwell ≡ ctrl.min_enforcer_dwell_steps - 1)

  keep_appoints :
      (candidates : List (Candidate F)) (authority : Authority F) (current : Option String)
      (dwell : ℕ) (name : String)
      → still_eligible current candidates ≡ true
      → current ≢ some name
      → (keep_or_select ctrl candidates authority current dwell).0 ≡ some name
      → Appointed name candidates (keep_or_select ctrl candidates authority current dwell).1
  unfolding keep_or_select still_eligible
  keep_appoints candidates authority none dwell name q ne h = cc
  keep_appoints [] authority (some cur) zero name q ne h = cc
  keep_appoints (best ∷ rest) authority (some cur) zero name q ne h =
      elim (Bool-cases (wins best cur authority)) [
        | inl p ↦ rw p (best, rest, refl, some_inj (rw p at h), refl, refl)
        | inr p ↦ absurd (ne (rw p at h))
      ]
  keep_appoints candidates authority (some cur) (suc d) name q ne h = absurd (ne h)

  reset_appoints :
      (candidates : List (Candidate F)) (name : String)
      → (select ctrl candidates none no_authority).0 ≡ some name
      → Appointed name candidates (select ctrl candidates none no_authority).1
  unfolding select
  reset_appoints [] name e = cc
  reset_appoints (best ∷ rest) name e = (best, rest, refl, some_inj e, refl, refl)

  pub choose_appoints :
      (candidates : List (Candidate F)) (authority : Authority F) (name : String)
      → authority.current ≢ some name
      → (choose ctrl candidates authority).0 ≡ some name
      → Appointed name candidates (choose ctrl candidates authority).1
  choose_appoints candidates authority name ne h =
      elim (Bool-cases (still_eligible authority.current candidates)) [
        | inl q ↦ rw (choose_kept ctrl candidates authority q) (
            keep_appoints candidates authority authority.current authority.dwell name q ne
              (rw (choose_kept ctrl candidates authority q) at h))
        | inr q ↦
            rw (choose_reset ctrl candidates authority q)
              (reset_appoints candidates name (rw (choose_reset ctrl candidates authority q) at h))
      ]

  pub choose_locked :
      (candidates : List (Candidate F)) (authority : Authority F) (name : String) (d : ℕ)
      → authority.current ≡ some name
      → authority.dwell ≡ suc d
      → Named name candidates
      → choose ctrl candidates authority ≡ (some name, record authority { dwell = d })
  choose_locked candidates authority name d c w h =
      choose_kept ctrl candidates authority (unfold still_eligible in rw c h)
      ∙ unfold keep_or_select in ground arith

  -- A state in which the same device goes on, with the same score and a dwell of at most one less.
  abbrev GoesOn : Authority F → Authority F → Type 0
  GoesOn authority next = (next.score ≡ authority.score) × (authority.dwell ≤ suc next.dwell)

  keep-GoesOn :
      (candidates : List (Candidate F)) (authority : Authority F) (name : String) (dwell : ℕ)
      → still_eligible (some name) candidates ≡ true
      → authority.dwell ≡ dwell
      → (keep_or_select ctrl candidates authority (some name) dwell).0 ≡ some name
      → GoesOn authority (keep_or_select ctrl candidates authority (some name) dwell).1
  unfolding keep_or_select still_eligible
  keep-GoesOn [] authority name zero q e h = cc
  keep-GoesOn (best ∷ rest) authority name zero q e h =
      elim (Bool-cases (wins best name authority)) [
        | inl p ↦ absurd (not_named best name (ground arith) (some_inj (rw p at h)))
        | inr p ↦ rw p (refl, omega arith)
      ]
  keep-GoesOn candidates authority name (suc d) q e h = (refl, omega (arith, e))

  pub choose-GoesOn :
      (candidates : List (Candidate F)) (authority : Authority F) (name : String)
      → authority.current ≡ some name
      → (choose ctrl candidates authority).0 ≡ some name
      → GoesOn authority (choose ctrl candidates authority).1
  choose-GoesOn candidates authority name c h =
      elim (Bool-cases (still_eligible (some name) candidates)) [
        | inl q ↦
            let k = kept q in
            subst (λ (r : Option String × Authority F). GoesOn authority r.1) (sym k)
              (keep-GoesOn candidates authority name authority.dwell q refl (rw k at h))
        | inr q ↦
            let k =
              choose_reset ctrl candidates authority
                (ap (λ o. still_eligible o candidates) c ∙ q) in
            absurd (gone candidates q (rw k at h))
      ]
    where
      kept :
          still_eligible (some name) candidates ≡ true
          → choose ctrl candidates authority
            ≡ keep_or_select ctrl candidates authority (some name) authority.dwell
      kept q =
          choose_kept ctrl candidates authority (ap (λ o. still_eligible o candidates) c ∙ q)
          ∙ ap (λ o. keep_or_select ctrl candidates authority o authority.dwell) c

      gone :
          (cs : List (Candidate F))
          → still_eligible (some name) cs ≡ false
          → (select ctrl cs none no_authority).0 ≡ some name
          → ⊥
      gone [] q e = unfold select in cc
      gone (best ∷ rest) q e =
          not_named best name (unfold still_eligible in ground arith)
            (some_inj (unfold select in e))

  -- What a change of the role shows of the state before it.
  abbrev pub Outscored : List (Candidate F) → F → String → Type 0
  Outscored candidates score name =
      (best : Candidate F) × (rest : List (Candidate F)) × (candidates ≡ best ∷ rest)
      × (best.name ≡ name)
      × (lt ctrl.switch_delta (f.sub best.efficiency_score score) ≡ true)

  keep_switch :
      (candidates : List (Candidate F)) (authority : Authority F) (cur : String) (dwell : ℕ)
      (name : String)
      → (keep_or_select ctrl candidates authority (some cur) dwell).0 ≡ some name
      → name ≢ cur
      → (dwell ≡ 0) × Outscored candidates authority.score name
  unfolding keep_or_select
  keep_switch [] authority cur zero name h ne = cc
  keep_switch (best ∷ rest) authority cur zero name h ne =
      elim (Bool-cases (wins best cur authority)) [
        | inl p ↦ (refl, (best, rest, refl, some_inj (rw p at h), ground arith))
        | inr p ↦ absurd (ne (sym (some_inj (rw p at h))))
      ]
  keep_switch candidates authority cur (suc d) name h ne = absurd (ne (sym (some_inj h)))

  pub choose_switch :
      (candidates : List (Candidate F)) (authority : Authority F) (old name : String)
      → authority.current ≡ some old
      → Named old candidates
      → (choose ctrl candidates authority).0 ≡ some name
      → name ≢ old
      → (authority.dwell ≡ 0) × Outscored candidates authority.score name
  choose_switch candidates authority old name c named h ne =
      let q : still_eligible authority.current candidates ≡ true =
        rw c (unfold still_eligible in named) in
      keep_switch candidates authority old authority.dwell name
        (subst (λ cur. (keep_or_select ctrl candidates authority cur authority.dwell).0 ≡ some name)
          c (rw (choose_kept ctrl candidates authority q) at h))
        ne
