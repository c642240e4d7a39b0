-- ===== src/Forecast.antt =====
-- mimirheim/core/forecast.py: the 15-minute grid, horizons, gaps and resampling.
-- A datetime is UTC, in microseconds since the start of the calendar; a timedelta that the code
-- only compares with differences of datetimes is a number of microseconds too.
pub mod Grid
pub mod Ends
pub mod Horizon
pub mod Gaps
pub mod Held
pub mod Merge
mod Tests
use mimirheim.Prelude.{
  ℕ, zero, suc, ◌+◌, ◌-◌, ◌*◌, ◌/◌, ◌%◌, Bool, ◌&&◌, Option, none, some, List, [], ◌∷◌, map, leb,
  ltb, if◌then◌else◌, filter,
}
use mimirheim.Prelude.Float.{Float}
use mimirheim.Prelude.Sort.{sorted}

pub record PriceStep (F : Type 0) : Type 0 where
  pub ts : ℕ
  pub import_eur_per_kwh : F
  pub export_eur_per_kwh : F
  pub confidence : F

pub record PowerForecastStep (F : Type 0) : Type 0 where
  pub ts : ℕ
  pub kw : F
  pub confidence : F

abbrev pub minute_us : ℕ
minute_us = 60_000_000

abbrev pub second_us : ℕ
second_us = 1_000_000

-- `_STEP_MINUTES` and `_STEP_DURATION`
abbrev pub step_minutes : ℕ
step_minutes = 15

abbrev pub step_duration : ℕ
step_duration = 900_000_000

-- the fields `minute`, `second` and `microsecond` of a datetime
abbrev minute_of : ℕ → ℕ
minute_of dt = dt / minute_us % 60

abbrev second_of : ℕ → ℕ
second_of dt = dt / second_us % 60

unfoldable pub floor_to_15min : ℕ → ℕ
floor_to_15min dt =
    let discard =
      minute_of dt % step_minutes * minute_us + second_of dt * second_us + dt % second_us in
    dt - discard

-- `max(xs)` and `min(xs)` of a list of datetimes, if it has one
abbrev pub larger : ℕ → Option ℕ → Option ℕ
larger x none = some x
larger x (some m) = if ltb x m then some m else some x

unfoldable pub max_of : List ℕ → Option ℕ
max_of [] = none
max_of (x ∷ xs) = larger x (max_of xs)

abbrev pub smaller : ℕ → Option ℕ → Option ℕ
smaller x none = some x
smaller x (some m) = if ltb m x then some m else some x

unfoldable pub min_of : List ℕ → Option ℕ
min_of [] = none
min_of (x ∷ xs) = smaller x (min_of xs)

-- A series is the list of its elements' `.ts`: nothing else of it is read here.
unfoldable pub last_ts_at_or_after : List ℕ → ℕ → Option ℕ
unfolding max_of
last_ts_at_or_after series threshold = max_of (filter (leb threshold) series)

-- the loop of `compute_horizon_steps`; `none` is its `return 0`
unfoldable pub all_ends : ℕ → List (List ℕ) → Option (List ℕ)
all_ends solve_start [] = some []
all_ends solve_start (s ∷ series) =
    let rest = all_ends solve_start series in
    elim (last_ts_at_or_after s solve_start) [
      | none ↦ none
      | some last ↦ elim rest [ none ↦ none | some ends ↦ some (last ∷ ends) ]
    ]

-- `int(seconds / 900)` of a difference that is never negative
unfoldable pub whole_steps : ℕ → Option ℕ → ℕ
whole_steps solve_start none = 0
whole_steps solve_start (some horizon_end) = (horizon_end - solve_start) / step_duration

unfoldable pub compute_horizon_steps : ℕ → List (List ℕ) → ℕ
unfolding whole_steps all_ends min_of
compute_horizon_steps solve_start series = elim (all_ends solve_start series) [
  | none ↦ 0
  | some ends ↦ whole_steps solve_start (min_of ends)
]

-- the loop of `compute_price_horizon_steps`, which skips a source with no such timestamp
unfoldable pub known_ends : ℕ → List (List ℕ) → List ℕ
known_ends solve_start [] = []
known_ends solve_start (s ∷ sources) =
    let rest = known_ends solve_start sources in
    elim (last_ts_at_or_after s solve_start) [ none ↦ rest | some last ↦ last ∷ rest ]

unfoldable pub compute_price_horizon_steps : ℕ → List (List ℕ) → ℕ
unfolding whole_steps known_ends max_of
compute_price_horizon_steps solve_start sources =
    whole_steps solve_start (max_of (known_ends solve_start sources))

-- the loop of `find_gaps` over neighbours in the sorted list
unfoldable pub gaps_between : ℕ → List ℕ → List (ℕ × ℕ)
gaps_between max_gap [] = []
gaps_between max_gap (a ∷ []) = []
gaps_between max_gap (a ∷ b ∷ rest) =
    let gaps = gaps_between max_gap (b ∷ rest) in
    if ltb max_gap (b - a) then (a, b) ∷ gaps else gaps

unfoldable pub find_gaps : List ℕ → ℕ → ℕ → ℕ → List (ℕ × ℕ)
unfolding gaps_between
find_gaps series solve_start horizon_end max_gap =
    gaps_between max_gap
      (sorted leb (filter (λ ts. leb solve_start ts && leb ts horizon_end) series))

-- `range(i, i + n)`
unfoldable pub range_from : ℕ → ℕ → List ℕ
range_from i zero = []
range_from i (suc n) = i ∷ range_from (i + 1) n

-- the start of step `i` of the grid
abbrev pub grid_time : ℕ → ℕ → ℕ
grid_time solve_start i = solve_start + i * step_duration

module _ {S : Type 0} (ts : S → ℕ) where
  -- the inner loop of `merge_price_sources`: the last step at or before `t`, up to the `break`
  unfoldable pub active_at : ℕ → List S → Option S → Option S
  active_at t [] active = active
  active_at t (step ∷ steps) active =
      if leb (ts step) t then active_at t steps (some step) else active

  -- the inner loop of `resample_power`: `before` and `after`
  unfoldable pub bracket : ℕ → List S → Option S → Option S × Option S
  bracket t [] before = (before, none)
  bracket t (step ∷ steps) before =
      if leb (ts step) t then bracket t steps (some step) else (before, some step)

  abbrev pub ts_le : S → S → Bool
  ts_le a b = leb (ts a) (ts b)

abbrev pub power_ts : {F : Type 0} → PowerForecastStep F → ℕ
power_ts s = s.ts

abbrev pub price_ts : {F : Type 0} → PriceStep F → ℕ
price_ts s = s.ts

module _ {F : Type 0} ⦃f : Float F⦄ where
  -- the branches on `before` and `after`
  unfoldable pub held_kw : Option (PowerForecastStep F) × Option (PowerForecastStep F) → F
  held_kw (none, none) = f.nil
  held_kw (some before, none) = before.kw
  held_kw (none, some after) = after.kw
  held_kw (some before, some after) = before.kw

  unfoldable pub resample_power : List (PowerForecastStep F) → ℕ → ℕ → List F
  unfolding range_from held_kw bracket
  resample_power steps solve_start n_steps =
      let sorted_steps = sorted (ts_le power_ts) steps in
      map (λ i. held_kw (bracket power_ts (grid_time solve_start i) sorted_steps none))
        (range_from 0 n_steps)
