-- ===== src/Readiness/Care.antt =====
-- The full-charge record under every message: how it moves, and what may move it.
use text.Mathlib.Text.{◌==◌}
use text.Mathlib.TextEquality.{eq_iff}
use mathlib.Core.Path.{subst}
use mimirheim.Prelude.{
  ℕ, ◌≤◌, String, ◌≡◌, refl, sym, ◌∙◌, inl, inr, Bool, true, false, Option, none, some, some_inj,
  arith, Bool-cases, ltb,
}
use mimirheim.Prelude.Float.{Float}
use mimirheim.Prelude.Dict.{Dict, get, put, get-put}
use mimirheim.Config.{BatteryConfig}
use mimirheim.BatteryCare.{
  is_newer, is_older, track_full_charge, observe_full_charge, end_run, extend_run,
}
use mimirheim.Readiness.{
  Input, number, care, nothing, ReadinessState, set_default, drop_future, put_if, observe_reading,
  merge_retained, observe_retained, observe_soc, observe_battery_care, update,
}

-- Every timestamp of the map is at or before `now`.
abbrev pub AllBy : ℕ → Dict ℕ → Type 0
AllBy now d = (k : String) (t : ℕ) → get d k ≡ some t → t ≤ now

-- No timestamp is lost, and none gets earlier.
abbrev pub Advances : Dict ℕ → Dict ℕ → Type 0
Advances d d' = (k : String) (t : ℕ) → get d k ≡ some t → (t' : ℕ) × (get d' k ≡ some t') × (t ≤ t')

-- No timestamp is lost, and none gets later.
abbrev pub Recedes : Dict ℕ → Dict ℕ → Type 0
Recedes d d' = (k : String) (t : ℕ) → get d k ≡ some t → (t' : ℕ) × (get d' k ≡ some t') × (t' ≤ t)

-- An update of one key to `v`, where `v` is no earlier than what the key had.
put-Advances :
    (d : Dict ℕ) (j : String) (v : ℕ)
    → ((t : ℕ) → get d j ≡ some t → t ≤ v)
    → Advances d (put d j v)
put-Advances d j v h k t g = elim (Bool-cases (j == k)) [
  | inl e ↦ (
    v,
    get-put d j k v ∙ rw e refl,
    h t (subst (λ x. get d x ≡ some t) (sym ((eq_iff j k).0 e)) g),
  )
  | inr e ↦ (t, get-put d j k v ∙ rw e g, omega arith)
]

put-Recedes :
    (d : Dict ℕ) (j : String) (v : ℕ) → ((t : ℕ) → get d j ≡ some t → v ≤ t) → Recedes d (put d j v)
put-Recedes d j v h k t g = elim (Bool-cases (j == k)) [
  | inl e ↦ (
    v,
    get-put d j k v ∙ rw e refl,
    h t (subst (λ x. get d x ≡ some t) (sym ((eq_iff j k).0 e)) g),
  )
  | inr e ↦ (t, get-put d j k v ∙ rw e g, omega arith)
]

put-AllBy :
    (now : ℕ) (d : Dict ℕ) (j : String) (v : ℕ) → AllBy now d → v ≤ now → AllBy now (put d j v)
put-AllBy now d j v h le k t g = elim (Bool-cases (j == k)) [
  | inl e ↦ let s : v ≡ t = some_inj (sym (get-put d j k v ∙ rw e refl) ∙ g) in omega arith
  | inr e ↦ h k t (sym (get-put d j k v ∙ rw e refl) ∙ g)
]

-- The retained merge of a last full charge.
newer-Advances :
    (d : Dict ℕ) (name : String) (o : Option ℕ)
    → Advances d (put_if (is_newer o (get d name)) d name o)
newer-Advances d name none = λ k t g. (t, g, omega arith)
newer-Advances d name (some v) = elim (Bool-cases (is_newer (some v) (get d name))) [
  | inl b ↦ rw b (put-Advances d name v (λ t g. let b' = rw g at b in ground arith))
  | inr b ↦ rw b (λ k t g. (t, g, omega arith))
]

older-Recedes :
    (d : Dict ℕ) (name : String) (o : Option ℕ)
    → Recedes d (put_if (is_older o (get d name)) d name o)
older-Recedes d name none = λ k t g. (t, g, omega arith)
older-Recedes d name (some v) = elim (Bool-cases (is_older (some v) (get d name))) [
  | inl b ↦ rw b (put-Recedes d name v (λ t g. let b' = rw g at b in ground arith))
  | inr b ↦ rw b (λ k t g. (t, g, omega arith))
]

newer-AllBy :
    (now : ℕ) (d : Dict ℕ) (name : String) (b : Bool) (o : Option ℕ)
    → AllBy now d
    → AllBy now (put_if b d name (drop_future now o))
newer-AllBy now d name b none h = h
newer-AllBy now d name true (some v) h = elim (Bool-cases (ltb now v)) [
  | inl e ↦ rw e h
  | inr e ↦ rw e (put-AllBy now d name v h (ground arith))
]
newer-AllBy now d name false (some v) h = elim (Bool-cases (ltb now v)) [
  | inl e ↦ rw e h
  | inr e ↦ rw e h
]

set_default-Recedes : (d : Dict ℕ) (name : String) (v : ℕ) → Recedes d (set_default d name v)
set_default-Recedes d name v = given (get d name) refl
  where
    given :
        (o : Option ℕ) → get d name ≡ o → Recedes d (elim o [ none ↦ put d name v | some _ ↦ d ])
    given none e = put-Recedes d name v (λ t g. cc)
    given (some x) e = λ k t g. (t, g, omega arith)

module _ {F : Type 0} ⦃f : Float F⦄ where
  -- a full charge is recorded at the time of the reading
  pub recorded_now :
      (bat : BatteryConfig F) (soc_kwh : F) (now : ℕ) (above : Option ℕ) (t : ℕ)
      → (track_full_charge bat.soc_ratchet bat.capacity_kwh soc_kwh now above).1 ≡ some t
      → t ≡ now
  unfolding track_full_charge observe_full_charge end_run extend_run
  recorded_now bat soc_kwh now above t h = ground arith

  -- What one message does to the record that is kept of full charges.
  abbrev pub Moves : ℕ → ReadinessState F → ReadinessState F → Type 0
  Moves now s s' =
      Advances s.last_full_utc s'.last_full_utc
      × Recedes s.care_since_utc s'.care_since_utc
      × AllBy now s'.last_full_utc

  observe_reading-Moves :
      (s : ReadinessState F) (name : String) (bat : BatteryConfig F) (soc_kwh : F) (seen now : ℕ)
      → AllBy now s.last_full_utc
      → Moves now s (observe_reading s name bat soc_kwh seen now)
  unfolding observe_reading
  observe_reading-Moves s name bat soc_kwh seen now h =
      recorded
        (track_full_charge bat.soc_ratchet bat.capacity_kwh soc_kwh now
          (get s.above_since_utc name)).1
        (λ t e. recorded_now bat soc_kwh now (get s.above_since_utc name) t e)
    where
      recorded :
          (o : Option ℕ)
          → ((t : ℕ) → o ≡ some t → t ≡ now)
          → Advances s.last_full_utc
              (elim o [ none ↦ s.last_full_utc | some t ↦ put s.last_full_utc name t ])
            × Recedes s.care_since_utc (set_default s.care_since_utc name seen)
            × AllBy now (elim o [ none ↦ s.last_full_utc | some t ↦ put s.last_full_utc name t ])
      recorded none q =
          (λ k t g. (t, g, omega arith), set_default-Recedes s.care_since_utc name seen, h)
      recorded (some t) q =
          let e = q t refl in
          (
            put-Advances s.last_full_utc name t (λ u g. let le = h name u g in omega arith),
            set_default-Recedes s.care_since_utc name seen,
            put-AllBy now s.last_full_utc name t h (omega arith),
          )

  still-Moves : (s : ReadinessState F) (now : ℕ) → AllBy now s.last_full_utc → Moves now s s
  still-Moves s now h = (λ k t g. (t, g, omega arith), λ k t g. (t, g, omega arith), h)

  merge_retained-Moves :
      (s : ReadinessState F) (name : String) (last_full care_since : Option ℕ) (now : ℕ)
      → AllBy now s.last_full_utc
      → Moves now s (merge_retained s name last_full care_since now)
  unfolding merge_retained
  merge_retained-Moves s name last_full care_since now h = (
    newer-Advances s.last_full_utc name (drop_future now last_full),
    older-Recedes s.care_since_utc name (drop_future now care_since),
    newer-AllBy now s.last_full_utc name
        (is_newer (drop_future now last_full) (get s.last_full_utc name)) last_full h,
  )

  observe_retained-Moves :
      (s s' : ReadinessState F) (owner : Option String) (input : Input F) (now : ℕ)
      → AllBy now s.last_full_utc
      → observe_retained s owner input now ≡ some s'
      → Moves now s s'
  unfolding observe_retained
  observe_retained-Moves s s' none input now h e =
      subst (Moves now s) (some_inj e) (still-Moves s now h)
  observe_retained-Moves s s' (some name) nothing now h e =
      subst (Moves now s) (some_inj e) (still-Moves s now h)
  observe_retained-Moves s s' (some name) (care last_full care_since) now h e =
      subst (Moves now s) (some_inj e) (merge_retained-Moves s name last_full care_since now h)
  observe_retained-Moves s s' (some name) input now h e = cc

  observe_soc-Moves :
      (s s' : ReadinessState F) (name : String) (bat : Option (BatteryConfig F)) (input : Input F)
      (seen now : ℕ)
      → AllBy now s.last_full_utc
      → observe_soc s name bat input seen now ≡ some s'
      → Moves now s s'
  unfolding observe_soc
  observe_soc-Moves s s' name (some bat) (number soc_kwh) seen now h e =
      subst (Moves now s) (some_inj e) (observe_reading-Moves s name bat soc_kwh seen now h)
  observe_soc-Moves s s' name bat input seen now h e = cc

  observe-Moves :
      (s s' : ReadinessState F) (topic : String) (input : Input F) (seen now : ℕ)
      (owner : Option String)
      → AllBy now s.last_full_utc
      → elim owner [
        | some name ↦ observe_soc s name (get s.config.batteries name) input seen now
        | none ↦ observe_retained s (get s.battery_care_owner topic) input now
      ]
        ≡ some s'
      → Moves now s s'
  observe-Moves s s' topic input seen now none h e =
      observe_retained-Moves s s' (get s.battery_care_owner topic) input now h e
  observe-Moves s s' topic input seen now (some name) h e =
      observe_soc-Moves s s' name (get s.config.batteries name) input seen now h e

  -- Whatever message arrives: if no recorded full charge lies after `now`, then after the message
  -- no recorded full charge is lost or earlier than it was, no baseline is lost or later than it
  -- was, and still no recorded full charge lies after `now`.
  pub update-Moves :
      (s s' : ReadinessState F) (topic : String) (input : Input F) (received seen now : ℕ)
      → AllBy now s.last_full_utc
      → update s topic input received seen now ≡ some s'
      → Moves now s s'
  unfolding update observe_battery_care
  update-Moves s s' topic input received seen now h e =
      elim (Bool-cases (topic == s.strategy_topic)) [
        | inl q ↦ subst (Moves now s) (some_inj (rw q at e)) (still-Moves s now h)
        | inr q ↦
            observe-Moves (record s { entries = put s.entries topic (input, received) }) s' topic
              input seen now (get s.battery_soc_owner topic) h (rw q at e)
      ]
