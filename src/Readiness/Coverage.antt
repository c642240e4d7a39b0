-- ===== src/Readiness/Coverage.antt =====
-- mimirheim/core/readiness.py: `_price_sources_locked`, `_compute_horizon_steps` and
-- `_is_ready_locked`. Where a stored value is not of the kind that the parser of its topic gives, the
-- result is `none`.
use mimirheim.Prelude.{
  ℕ, String, Bool, true, false, Option, none, some, List, [], ◌∷◌, map, ltb, leb, is_some,
  if◌then◌else◌,
}
use mimirheim.Prelude.Dict.{Dict, get}
use mimirheim.Forecast.{
  PriceStep, floor_to_15min, compute_price_horizon_steps, compute_horizon_steps,
}
use mimirheim.Readiness.{Input, prices, powers, ReadinessState}

-- a series in front of the others, where both are there
abbrev pub cons? : {A : Type 0} → Option A → Option (List A) → Option (List A)
cons? none xs = none
cons? (some x) none = none
cons? (some x) (some xs) = some (x ∷ xs)

module _ {F : Type 0} where
  -- the value of an entry, read as a price series; `none` is a value of another kind
  abbrev pub as_prices : Input F → Option (List (PriceStep F))
  as_prices (prices steps) = some steps
  as_prices input = none

  abbrev pub as_timestamps : Input F → Option (List ℕ)
  as_timestamps (prices steps) = some (map (λ s. s.ts) steps)
  as_timestamps (powers steps) = some (map (λ s. s.ts) steps)
  as_timestamps input = none

  -- the series of the price topics that have published
  unfoldable pub price_sources :
      Dict (Input F × ℕ) → List String → Option (List (List (PriceStep F)))
  price_sources entries [] = some []
  price_sources entries (topic ∷ topics) =
      let rest = price_sources entries topics in
      elim (get entries topic) [ none ↦ rest | some entry ↦ cons? (as_prices entry.0) rest ]

  -- the loop over the forecast topics: `some none` is its `return 0`, `none` a value of another kind
  unfoldable pub forecast_series :
      Dict (Input F × ℕ) → List String → Option (Option (List (List ℕ)))
  forecast_series entries [] = some (some [])
  forecast_series entries (topic ∷ topics) =
      let rest = forecast_series entries topics in
      elim (get entries topic) [
        | none ↦ some none
        | some entry ↦ elim (as_timestamps entry.0) [
          | none ↦ none
          | some series ↦ elim rest [
            | none ↦ none
            | some none ↦ some none
            | some (some more) ↦ some (some (series ∷ more))
          ]
        ]
      ]

  -- `_compute_horizon_steps` after the price horizon
  unfoldable pub joint_horizon : Dict (Input F × ℕ) → List String → ℕ → ℕ → Option ℕ
  unfolding forecast_series
  joint_horizon entries [] solve_start price_steps = some price_steps
  joint_horizon entries (topic ∷ topics) solve_start price_steps =
      elim (forecast_series entries (topic ∷ topics)) [
        | none ↦ none
        | some none ↦ some 0
        | some (some series) ↦
            let other_steps = compute_horizon_steps solve_start series in
            some (if ltb other_steps price_steps then other_steps else price_steps)
      ]

  unfoldable pub horizon_steps : ReadinessState F → ℕ → Option ℕ
  horizon_steps s now =
      let solve_start = floor_to_15min now in
      elim (price_sources s.entries s.prices_topics) [
        | none ↦ none
        | some sources ↦
            let price_steps =
              compute_price_horizon_steps solve_start (map (map (λ p. p.ts)) sources) in
            if leb price_steps 0
            then some 0
            else joint_horizon s.entries s.forecast_topics solve_start price_steps
      ]

  -- `all(self._entries.get(topic) is not None for topic in …)`
  unfoldable pub all_received : Dict (Input F × ℕ) → List String → Bool
  all_received entries [] = true
  all_received entries (topic ∷ topics) =
      let rest = all_received entries topics in if is_some (get entries topic) then rest else false

  unfoldable pub is_ready : ReadinessState F → ℕ → Option Bool
  is_ready s now =
      if all_received s.entries s.sensor_topics
      then elim (horizon_steps s now) [ none ↦ none | some n ↦ some (leb s.min_horizon_steps n) ]
      else some false
