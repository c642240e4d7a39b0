-- ===== src/Forecast/Tests.antt =====
-- The theorems on forecasts at concrete inputs.
use mimirheim.Prelude.{
  ℕ, ◌+◌, ◌*◌, ◌/◌, ◌≤◌, ◌<◌, ◌≡◌, refl, ◌⊎◌, inl, inr, some, List, [], ◌∷◌, arith, In, length,
  get_elem?,
}
use mimirheim.Prelude.Fixed.{ℤ, pos, milli}
use mimirheim.Forecast.{
  PriceStep, PowerForecastStep, step_duration, grid_time, floor_to_15min, find_gaps, resample_power,
  compute_price_horizon_steps, compute_horizon_steps,
}
use mimirheim.Forecast.Grid.{floor_to_15min_grid}
use mimirheim.Forecast.Horizon.{compute_price_horizon_steps_iff, compute_horizon_steps_iff}
use mimirheim.Forecast.Gaps.{find_gaps_iff}
use mimirheim.Forecast.Held.{HoldsAt, resample_power_held}
use mimirheim.Forecast.Merge.{merge_price_sources}
use mimirheim.Forecast.Merge.Winner.{WinsCovered, WinsLeading}
use mimirheim.Forecast.Merge.Series.{merge_price_sources_best}

abbrev hour : ℕ
hour = 3_600_000_000

-- 12:37:30.000001
abbrev instant : ℕ
instant = 45_450_000_001

floor_to_15min_grid_example :
    (floor_to_15min instant ≡ instant / step_duration * step_duration)
    × (floor_to_15min instant ≤ instant)
    × (instant < floor_to_15min instant + step_duration)
floor_to_15min_grid_example = floor_to_15min_grid instant

-- two sources: one reaches 2 hours, the other 1
abbrev long_source : List ℕ
long_source = 0 ∷ hour ∷ 2 * hour ∷ []

abbrev short_source : List ℕ
short_source = hour ∷ 0 ∷ []

price_horizon_example : 8 ≤ compute_price_horizon_steps 0 (short_source ∷ long_source ∷ [])
price_horizon_example =
    (compute_price_horizon_steps_iff 0 8 (short_source ∷ long_source ∷ []) (omega arith)).1
      (long_source, inr (inl refl), (2 * hour, inr (inr (inl refl)), omega arith))

joint_horizon_example : 4 ≤ compute_horizon_steps 0 (short_source ∷ [])
joint_horizon_example =
    (compute_horizon_steps_iff 0 4 (short_source ∷ []) (omega arith) (λ e. cc)).1
      (λ s m. elim m [ inl e ↦ rw e (hour, inl refl, omega arith) | inr k ↦ absurd k ])

find_gaps_example :
    In {A = ℕ × ℕ} (hour, 2 * hour) (find_gaps long_source 0 (2 * hour) 1_800_000_000)
find_gaps_example = (find_gaps_iff long_source 0 (2 * hour) 1_800_000_000 hour (2 * hour)).1 (
  (inr (inl refl), omega arith, omega arith),
  (inr (inr (inl refl)), omega arith, omega arith),
  omega arith,
  λ c m. elim m [
    | inl e ↦ inl (omega arith)
    | inr (inl e) ↦ inl (omega arith)
    | inr (inr (inl e)) ↦ inr (omega arith)
    | inr (inr (inr k)) ↦ absurd k
  ],
)

abbrev powers : List (PowerForecastStep ℤ)
powers =
    record { ts = hour; kw = pos 1500; confidence = pos 1_000 }
    ∷ record { ts = 0; kw = pos 700; confidence = pos 1_000 }
    ∷ []

resample_power_example :
    (length (resample_power powers 0 8) ≡ 8)
    × ((v : ℤ) × (get_elem? (resample_power powers 0 8) 5 ≡ some v)
        × HoldsAt (grid_time 0 5) powers v)
resample_power_example = resample_power_held powers 0 8 5 (omega arith)

abbrev sure : PriceStep ℤ
sure = record {
  ts = 0;
  import_eur_per_kwh = pos 250;
  export_eur_per_kwh = pos 100;
  confidence = pos 1000;
}

abbrev guess : PriceStep ℤ
guess = record {
  ts = 0;
  import_eur_per_kwh = pos 300;
  export_eur_per_kwh = pos 90;
  confidence = pos 500;
}

abbrev later_guess : PriceStep ℤ
later_guess = record guess { ts = hour; import_eur_per_kwh = pos 310 }

-- the guess covers the first hour, the sure price only the first instant
abbrev sources : List (List (PriceStep ℤ))
sources = (guess ∷ later_guess ∷ []) ∷ (sure ∷ []) ∷ []

merge_price_sources_example :
    (imports : List ℤ) × (exports : List ℤ) × (confidences : List ℤ) × (w : PriceStep ℤ)
    × (merge_price_sources sources 0 4 ≡ some (imports, exports, confidences))
    × ((length imports ≡ 4) × (length exports ≡ 4) × (length confidences ≡ 4))
    × ((get_elem? imports 2 ≡ some w.import_eur_per_kwh)
        × (get_elem? exports 2 ≡ some w.export_eur_per_kwh)
        × (get_elem? confidences 2 ≡ some w.confidence))
    × (WinsCovered (grid_time 0 2) sources w ⊎ WinsLeading (grid_time 0 2) sources w)
merge_price_sources_example =
    merge_price_sources_best sources 0 4 2 (guess ∷ later_guess ∷ []) guess (omega arith) (inl refl)
      (inl refl)
