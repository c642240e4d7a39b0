-- ===== src/Readiness/Tests.antt =====
-- The theorems on readiness at concrete inputs.
use mimirheim.BatteryCare.{steps_within}
use mimirheim.Forecast.{
  compute_horizon_steps, last_ts_at_or_after, compute_price_horizon_steps, PriceStep,
  PowerForecastStep, floor_to_15min, grid_time,
}
use mimirheim.Prelude.{
  none, ℕ, ◌≤◌, ◌<◌, String, ◌≡◌, refl, ◌⊎◌, true, some, [], ◌∷◌, arith, In, is_some,
}
use mimirheim.Prelude.Dict.{Dict, get}
use mimirheim.Prelude.Fixed.{ℤ, pos, milli}
use mimirheim.Examples.{household, car_charger}
use mimirheim.Examples.Hour.{hour_state, hour_bundle, hour_taken}
use mimirheim.Readiness.Inputs.{EvState, ev_inputs_of, deliverable_kwh}
use mimirheim.Readiness.Clamp.{Permits, reachable, ev_inputs_of_clamped}
use mimirheim.Readiness.Lengths.{HorizonSeries, snapshot-HorizonSeries}
use mimirheim.BatteryCare.{track_full_charge, observe_full_charge, full_threshold_kwh}
use mimirheim.Readiness.{
  ev_state, number, flag, prices, powers, care, ReadinessState, initial, update,
  observe_battery_care, observe_reading, merge_retained,
}
use mimirheim.Readiness.Coverage.{
  is_ready, all_received, horizon_steps, price_sources, joint_horizon,
}
use mimirheim.Readiness.Care.{Advances, Recedes}
use mimirheim.Readiness.Observed.{SeenFull, update-observed}
use mimirheim.Readiness.Run.{Message, run, run_moves}
use mimirheim.Readiness.Series.{PricesCover, SeriesCovers}
use mimirheim.Readiness.Ready.{is_ready-covers}

-- nothing has arrived, except a full charge at 50
abbrev fresh : ReadinessState ℤ
unfolding initial
fresh = record (initial household) { last_full_utc = ("home", 50) ∷ [] }

-- the retained status first, then a reading at the top
abbrev replayed : Message ℤ
replayed = record {
  topic = "home/care";
  input = care (some 40) (some 10);
  received = 100;
  seen = 100;
  now = 100;
}

abbrev topped : Message ℤ
topped = record {
  topic = "home/soc";
  input = number (pos 9_900);
  received = 200;
  seen = 200;
  now = 200;
}

abbrev after : ReadinessState ℤ
after = record fresh {
  entries =
      ("home/care", (care (some 40) (some 10), 100)) ∷ ("home/soc", (number (pos 9_900), 200)) ∷ [];
  last_full_utc = ("home", 200) ∷ [];
  care_since_utc = ("home", 10) ∷ [];
  observed_full_utc = ("home", 200) ∷ [];
  above_since_utc = ("home", 200) ∷ [];
}

run_example : run fresh (replayed ∷ topped ∷ []) ≡ some after
unfolding run update observe_battery_care observe_reading merge_retained track_full_charge fresh
    observe_full_charge full_threshold_kwh
run_example = refl

abbrev full_at : Dict ℕ
full_at = ("home", 50) ∷ []

full_by : (k : String) (t : ℕ) → get full_at k ≡ some t → t ≤ 60
full_by k t h = ground arith

run_moves_example :
    Advances fresh.last_full_utc after.last_full_utc
    × Recedes fresh.care_since_utc after.care_since_utc
unfolding fresh
run_moves_example =
    run_moves fresh after (replayed ∷ topped ∷ []) 60 full_by (omega arith, (omega arith, tt))
      run_example

-- the reading alone
abbrev seen : ReadinessState ℤ
unfolding fresh
seen = record fresh {
  entries = ("home/soc", (number (pos 9_900), 200)) ∷ [];
  last_full_utc = ("home", 200) ∷ [];
  care_since_utc = ("home", 200) ∷ [];
  observed_full_utc = ("home", 200) ∷ [];
  above_since_utc = ("home", 200) ∷ [];
}

update-observed_example :
    (get seen.observed_full_utc "home" ≡ get fresh.observed_full_utc "home")
    ⊎ ((get seen.observed_full_utc "home" ≡ some 200)
        × SeenFull fresh "home/soc" "home" (number (pos 9_900)) 200)
unfolding fresh seen update observe_battery_care observe_reading track_full_charge
    observe_full_charge full_threshold_kwh
update-observed_example =
    update-observed fresh seen "home/soc" "home" (number (pos 9_900)) 200 200 200 refl

-- an hour of prices and of forecasts, and both sensors
abbrev hour : ℕ
hour = 3_600_000_000

abbrev price : PriceStep ℤ
price = record {
  ts = hour;
  import_eur_per_kwh = pos 250;
  export_eur_per_kwh = pos 100;
  confidence = pos 1_000;
}

abbrev sun : PowerForecastStep ℤ
sun = record { ts = hour; kw = pos 1_000; confidence = pos 1_000 }

abbrev ready_state : ReadinessState ℤ
unfolding initial
ready_state = record (initial household) {
  entries =
      ("home/soc", (number (pos 5_000), 0))
      ∷ ("car/soc", (ev_state (pos 5_000) none none none, 0))
      ∷ ("car/plugged", (flag true, 0))
      ∷ ("mimir/input/prices", (prices (price ∷ []), 0))
      ∷ ("roof/forecast", (powers (sun ∷ []), 0))
      ∷ [];
}

is_ready-covers_example :
    ((topic : String)
      → In topic ready_state.sensor_topics
      → is_some (get ready_state.entries topic) ≡ true)
    × PricesCover ready_state.entries ready_state.prices_topics (grid_time (floor_to_15min 7) 4)
    × ((topic : String)
        → In topic ready_state.forecast_topics
        → SeriesCovers ready_state.entries topic (grid_time (floor_to_15min 7) 4))
unfolding initial ready_state is_ready all_received horizon_steps price_sources joint_horizon
    floor_to_15min compute_price_horizon_steps last_ts_at_or_after compute_horizon_steps
is_ready-covers_example = is_ready-covers ready_state 7 (omega arith) refl

snapshot-HorizonSeries_example :
    (n : ℕ) × (horizon_steps hour_state 7 ≡ some n)
    × (0 < n)
    × (hour_bundle.solve_time_utc ≡ floor_to_15min 7)
    × HorizonSeries n hour_bundle
snapshot-HorizonSeries_example = snapshot-HorizonSeries hour_state 7 7 hour_bundle hour_taken

-- full by the end of the first hour, from ten minutes on
abbrev leaving : EvState ℤ
leaving = record {
  soc = pos 5_000;
  target_soc_kwh = some (pos 50_000);
  window_earliest = some 600_000_000;
  window_latest = some hour;
}

ev_inputs_of_clamped_example :
    (first : ℕ) × (n : ℕ) × (v : ℤ) × Permits 0 (some 600_000_000) hour first n
    × ((ev_inputs_of car_charger leaving true 0).target_soc_kwh ≡ some v)
    × (milli.le v (pos 50_000) ≡ true)
    × (milli.le v car_charger.capacity_kwh ≡ true)
    × (milli.le v (reachable car_charger leaving n) ≡ true)
    × (milli.le (pos 50_000) car_charger.capacity_kwh ≡ true
        → milli.le (pos 50_000) (reachable car_charger leaving n) ≡ true
        → v ≡ pos 50_000)
ev_inputs_of_clamped_example =
    ev_inputs_of_clamped car_charger leaving true 0 hour (pos 50_000) refl refl

-- 11 kW at 0.9 for three quarters of an hour give 7.425 kWh
clamped_to_12_425 : (ev_inputs_of car_charger leaving true 0).target_soc_kwh ≡ some (pos 12_425)
unfolding ev_inputs_of deliverable_kwh steps_within mimirheim.BatteryCare.ceil_steps
clamped_to_12_425 = refl
