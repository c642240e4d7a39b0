-- ===== src/Readiness/Observed.antt =====
-- What counts as a full charge that was seen live, and the record over a run of messages.
use text.Mathlib.Text.{◌==◌}
use text.Mathlib.TextEquality.{eq_iff}
use mathlib.Core.Path.{subst}
use mimirheim.Prelude.{
  ℕ, String, ◌≡◌, refl, sym, ap, ◌∙◌, ◌⊎◌, inl, inr, Option, none, some, some_inj, Bool-cases,
}
use mimirheim.Prelude.Float.{Float}
use mimirheim.Prelude.Dict.{Dict, get, put, get-put}
use mimirheim.Config.{BatteryConfig}
use mimirheim.BatteryCare.{track_full_charge}
use mimirheim.Readiness.{
  Input, number, care, nothing, ReadinessState, observe_reading, merge_retained, observe_retained,
  observe_soc, observe_battery_care, update,
}
use mimirheim.Readiness.Care.{recorded_now}

module _ {F : Type 0} ⦃f : Float F⦄ where
  -- A reading of the battery at `now` completed a hold.
  abbrev pub SeenFull : ReadinessState F → String → String → Input F → ℕ → Type 0
  SeenFull s topic name input now =
      (bat : BatteryConfig F) × (soc_kwh : F) × (get s.battery_soc_owner topic ≡ some name)
      × (get s.config.batteries name ≡ some bat)
      × (input ≡ number soc_kwh)
      × ((track_full_charge bat.soc_ratchet bat.capacity_kwh soc_kwh now
            (get s.above_since_utc name)).1
          ≡ some now)

  -- The entry of `name` after an update of the entry of `owner`.
  abbrev pub Explained :
      ReadinessState F → ReadinessState F → String → String → Input F → ℕ → Type 0
  Explained s s' topic name input now =
      (get s'.observed_full_utc name ≡ get s.observed_full_utc name)
      ⊎ ((get s'.observed_full_utc name ≡ some now) × SeenFull s topic name input now)

  soc-Explained :
      (s s' : ReadinessState F) (topic owner name : String) (o : Option (BatteryConfig F))
      (input : Input F) (seen now : ℕ)
      → get s.battery_soc_owner topic ≡ some owner
      → get s.config.batteries owner ≡ o
      → observe_soc s owner o input seen now ≡ some s'
      → Explained s s' topic name input now
  unfolding observe_soc observe_reading
  soc-Explained s s' topic owner name (some bat) (number soc_kwh) seen now a b e =
      subst (λ x. Explained s x topic name (number soc_kwh) now) (some_inj e)
        (seen_live
          (track_full_charge bat.soc_ratchet bat.capacity_kwh soc_kwh now
            (get s.above_since_utc owner)).1
          refl)
    where
      seen_live :
          (t : Option ℕ)
          → (track_full_charge bat.soc_ratchet bat.capacity_kwh soc_kwh now
              (get s.above_since_utc owner)).1
            ≡ t
          → (get
                (elim t [ none ↦ s.observed_full_utc | some u ↦ put s.observed_full_utc owner u ])
                name
              ≡ get s.observed_full_utc name)
            ⊎ ((get
                    (elim t [
                      | none ↦ s.observed_full_utc
                      | some u ↦ put s.observed_full_utc owner u
                    ])
                    name
                  ≡ some now)
                × SeenFull s topic name (number soc_kwh) now)
      seen_live none q = inl refl
      seen_live (some u) q =
          let at_now : u ≡ now = recorded_now bat soc_kwh now (get s.above_since_utc owner) u q in
          elim (Bool-cases (owner == name)) [
            | inr d ↦ inl (get-put s.observed_full_utc owner name u ∙ rw d refl)
            | inl d ↦
                let same : owner ≡ name = (eq_iff owner name).0 d in
                inr (
                  get-put s.observed_full_utc owner name u ∙ rw d (ap (λ (x : ℕ). some x) at_now),
                  subst (λ x. SeenFull s topic x (number soc_kwh) now) same
                      (bat, soc_kwh, a, b, refl, q ∙ ap (λ (x : ℕ). some x) at_now),
                )
          ]
  soc-Explained s s' topic owner name o input seen now a b e = cc

  retained-observed :
      (s s' : ReadinessState F) (owner : Option String) (input : Input F) (now : ℕ)
      → observe_retained s owner input now ≡ some s'
      → s'.observed_full_utc ≡ s.observed_full_utc
  unfolding observe_retained merge_retained
  retained-observed s s' none input now e =
      ap (λ (x : ReadinessState F). x.observed_full_utc) (sym (some_inj e))
  retained-observed s s' (some name) nothing now e =
      ap (λ (x : ReadinessState F). x.observed_full_utc) (sym (some_inj e))
  retained-observed s s' (some name) (care last_full care_since) now e =
      ap (λ (x : ReadinessState F). x.observed_full_utc) (sym (some_inj e))
  retained-observed s s' (some name) input now e = cc

  observe-Explained :
      (s s' : ReadinessState F) (topic name : String) (input : Input F) (seen now : ℕ)
      (owner : Option String)
      → get s.battery_soc_owner topic ≡ owner
      → elim owner [
        | some o ↦ observe_soc s o (get s.config.batteries o) input seen now
        | none ↦ observe_retained s (get s.battery_care_owner topic) input now
      ]
        ≡ some s'
      → Explained s s' topic name input now
  observe-Explained s s' topic name input seen now none q e = inl (
      ap (λ (d : Dict ℕ). get d name)
        (retained-observed s s' (get s.battery_care_owner topic) input now e))
  observe-Explained s s' topic name input seen now (some o) q e =
      soc-Explained s s' topic o name (get s.config.batteries o) input seen now q refl e

  -- A message changes the live observation of a battery only if it is a reading on the battery's
  -- own SOC topic, with which `track_full_charge` completes the hold; the observation is then the
  -- time of that reading. A retained status never counts as an observation.
  pub update-observed :
      (s s' : ReadinessState F) (topic name : String) (input : Input F) (received seen now : ℕ)
      → update s topic input received seen now ≡ some s'
      → (get s'.observed_full_utc name ≡ get s.observed_full_utc name)
        ⊎ ((get s'.observed_full_utc name ≡ some now) × SeenFull s topic name input now)
  unfolding update observe_battery_care
  update-observed s s' topic name input received seen now e =
      elim (Bool-cases (topic == s.strategy_topic)) [
        | inl q ↦ inl (
            ap (λ (x : ReadinessState F). get x.observed_full_utc name)
              (sym (some_inj (rw q at e))))
        | inr q ↦
            observe-Explained (record s { entries = put s.entries topic (input, received) }) s'
              topic name input seen now (get s.battery_soc_owner topic) refl (rw q at e)
      ]
