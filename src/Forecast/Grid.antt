-- ===== src/Forecast/Grid.antt =====
-- `floor_to_15min`, and the list of the grid's indices.
use mimirheim.Prelude.{
  ℕ, zero, suc, ◌+◌, ◌*◌, ◌/◌, ◌≤◌, ◌<◌, ◌≡◌, refl, some, arith, length, get_elem?,
}
use mimirheim.Forecast.{floor_to_15min, step_duration, range_from}

-- The result is the largest whole number of 15-minute steps that is at most the datetime.
pub floor_to_15min_grid :
    (dt : ℕ)
    → (floor_to_15min dt ≡ dt / step_duration * step_duration)
      × (floor_to_15min dt ≤ dt)
      × (dt < floor_to_15min dt + step_duration)
unfolding floor_to_15min
floor_to_15min_grid dt = (omega arith, omega arith, omega arith)

pub length-range_from : (i n : ℕ) → length (range_from i n) ≡ n
unfolding range_from
length-range_from i zero = refl
length-range_from i (suc n) = omega (arith, length-range_from (i + 1) n)

pub get_elem?-range_from : (i n k : ℕ) → k < n → get_elem? (range_from i n) k ≡ some (i + k)
unfolding range_from
get_elem?-range_from i zero k h = elim h [ ]
get_elem?-range_from i (suc n) zero h = ground arith
get_elem?-range_from i (suc n) (suc k) h = ground (arith, get_elem?-range_from (i + 1) n k)
