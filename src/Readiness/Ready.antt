-- ===== src/Readiness/Ready.antt =====
-- What a state that is ready holds.
use mathlib.Core.Path.{subst}
use mimirheim.Prelude.{
  ℕ, ◌≤◌, ◌<◌, String, ◌≡◌, ◌≢◌, refl, inl, inr, true, false, Option, none, some, some_inj, List,
  [], ◌∷◌, arith, Bool-cases, In, map, ltb, leb, is_some, leb→le, if◌then◌else◌,
}
use mimirheim.Prelude.Dict.{Dict, get}
use mimirheim.Forecast.{
  PriceStep, floor_to_15min, grid_time, compute_price_horizon_steps, compute_horizon_steps,
}
use mimirheim.Forecast.Horizon.{compute_price_horizon_steps_iff, compute_horizon_steps_iff}
use mimirheim.Readiness.{Input, ReadinessState}
use mimirheim.Readiness.Coverage.{
  price_sources, forecast_series, joint_horizon, horizon_steps, all_received, is_ready,
}
use mimirheim.Readiness.Series.{
  PricesCover, SeriesCovers, all_received-In, price_sources-In, forecast_series-In,
}

module _ {F : Type 0} where
  -- the joint horizon is at most the price horizon, and every forecast topic covers its end
  joint_horizon-covers :
      (entries : Dict (Input F × ℕ)) (topics : List String) (start price_steps n : ℕ) (k : ℕ)
      → joint_horizon entries topics start price_steps ≡ some n
      → 0 < k
      → k ≤ n
      → (k ≤ price_steps)
        × ((topic : String) → In topic topics → SeriesCovers entries topic (grid_time start k))
  unfolding joint_horizon
  joint_horizon-covers entries [] start price_steps n k e pos le =
      let same = some_inj e in (omega arith, λ topic m. absurd m)
  joint_horizon-covers entries (x ∷ topics) start price_steps n k e pos le =
      covered (forecast_series entries (x ∷ topics)) refl e
    where
      covered :
          (o : Option (Option (List (List ℕ))))
          → forecast_series entries (x ∷ topics) ≡ o
          → elim o [
            | none ↦ none
            | some none ↦ some 0
            | some (some series) ↦
                let other_steps = compute_horizon_steps start series in
                some (if ltb other_steps price_steps then other_steps else price_steps)
          ]
            ≡ some n
          → (k ≤ price_steps)
            × ((topic : String)
                → In topic (x ∷ topics)
                → SeriesCovers entries topic (grid_time start k))
      covered none q g = cc
      covered (some none) q g = let same : 0 ≡ n = some_inj g in absurd (omega arith)
      covered (some (some series)) q g =
          let same : (if ltb (compute_horizon_steps start series) price_steps
                then compute_horizon_steps start series
                else price_steps)
              ≡ n =
            some_inj g in
          let both : (k ≤ price_steps) × (k ≤ compute_horizon_steps start series) = ground arith in
          (
            both.0,
            λ topic m.
                let (input, at, s, h, a, l) =
                  forecast_series-In entries (x ∷ topics) series topic q m in
                let some_series : series ≢ [] = λ z. subst (In s) z l in
                (
                  input,
                  at,
                  s,
                  h,
                  a,
                  (compute_horizon_steps_iff start k series pos some_series).0 both.1 s l,
                ),
          )

  horizon_steps-covers :
      (s : ReadinessState F) (now n k : ℕ)
      → horizon_steps s now ≡ some n
      → 0 < k
      → k ≤ n
      → PricesCover s.entries s.prices_topics (grid_time (floor_to_15min now) k)
        × ((topic : String)
            → In topic s.forecast_topics
            → SeriesCovers s.entries topic (grid_time (floor_to_15min now) k))
  unfolding horizon_steps
  horizon_steps-covers s now n k e pos le = priced (price_sources s.entries s.prices_topics) refl e
    where
      priced :
          (o : Option (List (List (PriceStep F))))
          → price_sources s.entries s.prices_topics ≡ o
          → elim o [
            | none ↦ none
            | some sources ↦
                let steps =
                  compute_price_horizon_steps
                    (floor_to_15min now)
                    (map (map (λ p. p.ts)) sources) in
                if leb steps 0
                then some 0
                else joint_horizon s.entries s.forecast_topics (floor_to_15min now) steps
          ]
            ≡ some n
          → PricesCover s.entries s.prices_topics (grid_time (floor_to_15min now) k)
            × ((topic : String)
                → In topic s.forecast_topics
                → SeriesCovers s.entries topic (grid_time (floor_to_15min now) k))
      priced none q g = cc
      priced (some sources) q g =
          elim (Bool-cases (
            leb (compute_price_horizon_steps (floor_to_15min now) (map (map (λ p. p.ts)) sources))
              0)) [
                | inl b ↦ let same : 0 ≡ n = some_inj (rw b at g) in absurd (omega arith)
                | inr b ↦
                    let (reach, others) =
                      joint_horizon-covers s.entries s.forecast_topics (floor_to_15min now) _ n k
                        (rw b at g) pos le in
                    let (series, m, c) =
                      (compute_price_horizon_steps_iff (floor_to_15min now) k
                          (map (map (λ p. p.ts)) sources) pos).0
                        reach in
                    (
                      price_sources-In s.entries s.prices_topics sources
                          (grid_time (floor_to_15min now) k) series q m c,
                      others,
                    )
              ]

  -- In a state that is ready, every sensor topic has published, the price series of some price
  -- topic reaches the end of the required horizon, and so does the series of every forecast topic.
  pub is_ready-covers :
      (s : ReadinessState F) (now : ℕ)
      → 0 < s.min_horizon_steps
      → is_ready s now ≡ some true
      → ((topic : String) → In topic s.sensor_topics → is_some (get s.entries topic) ≡ true)
        × PricesCover s.entries s.prices_topics (grid_time (floor_to_15min now) s.min_horizon_steps)
        × ((topic : String)
            → In topic s.forecast_topics
            → SeriesCovers s.entries topic (grid_time (floor_to_15min now) s.min_horizon_steps))
  unfolding is_ready
  is_ready-covers s now pos e = elim (Bool-cases (all_received s.entries s.sensor_topics)) [
    | inr b ↦ let e' : some false ≡ some true = rw b at e in cc
    | inl b ↦ reached b (horizon_steps s now) refl (rw b at e)
  ]
    where
      reached :
          all_received s.entries s.sensor_topics ≡ true
          → (o : Option ℕ) → horizon_steps s now ≡ o
          → elim o [ none ↦ none | some n ↦ some (leb s.min_horizon_steps n) ] ≡ some true
          → ((topic : String) → In topic s.sensor_topics → is_some (get s.entries topic) ≡ true)
            × PricesCover s.entries s.prices_topics
                (grid_time (floor_to_15min now) s.min_horizon_steps)
            × ((topic : String)
                → In topic s.forecast_topics
                → SeriesCovers s.entries topic (grid_time (floor_to_15min now) s.min_horizon_steps))
      reached b none q g = cc
      reached b (some n) q g =
          let far = leb→le s.min_horizon_steps n (some_inj g) in
          let (p, o) = horizon_steps-covers s now n s.min_horizon_steps q pos far in
          (λ topic m. all_received-In s.entries s.sensor_topics topic b m, p, o)
