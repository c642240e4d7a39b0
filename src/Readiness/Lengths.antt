-- ===== src/Readiness/Lengths.antt =====
-- The series of a snapshot have the length of its horizon.
use mathlib.Core.Path.{subst}
use mimirheim.Prelude.{
  ℕ, ◌<◌, String, ◌≡◌, refl, sym, ap, ◌∙◌, inl, inr, Bool, true, false, Option, none, some,
  some_inj, List, [], ◌∷◌, map, replicate, length, length-replicate, length-map, suc, arith,
  Bool-cases, In, if◌then◌else◌, ◌>>=◌,
}
use mimirheim.Prelude.Float.{Float}
use mimirheim.Prelude.Dict.{Dict}
use mimirheim.Forecast.{PriceStep, PowerForecastStep, floor_to_15min, resample_power}
use mimirheim.Forecast.Held.{length-resample_power}
use mimirheim.Forecast.Merge.{merge_price_sources}
use mimirheim.Forecast.Merge.{winners, winner_at, columns}
use mimirheim.Forecast.Grid.{length-range_from}
use mimirheim.Forecast.{range_from, grid_time, ts_le, price_ts}
use mimirheim.Prelude.Sort.{sorted}
use mimirheim.Bundle.{
  BatteryInputs, EvInputs, HybridInverterInputs, SpaceHeatingInputs, CombiHeatPumpInputs,
  ThermalBoilerInputs, DeferrableWindow, SolveBundle,
}
use mimirheim.Config.{HybridInverterConfig}
use mimirheim.Readiness.{Input, ReadinessState}
use mimirheim.Readiness.Coverage.{is_ready, horizon_steps, price_sources}
use mimirheim.Readiness.Inputs.{
  collect, read_entry, read_optional, as_powers, as_number, hybrid_input,
}
use mimirheim.Readiness.Snapshot.{
  add_series, sum_series, resampled, values, is_valid_bundle, validated, from_parts, non_empty,
  assemble, snapshot,
}

-- What every input of a loop over devices satisfies, the collected inputs do.
collect-In :
    {V W : Type 0} (each : String → V → Option (Option W)) (P : W → Type 0) (d : Dict V)
    (ws : Dict W)
    → ((name : String) (v : V) (w : W) → each name v ≡ some (some w) → P w)
    → collect each d ≡ some ws
    → (name : String) (w : W) → In {A = String × W} (name, w) ws
    → P w
unfolding collect
collect-In {W} each P [] ws h e name w m =
    let none_there : In {A = String × W} (name, w) [] = subst (In (name, w)) (sym (some_inj e)) m in
    absurd none_there
collect-In {W} each P ((k, v) ∷ d) ws h e name w m =
    collected (each k v) refl (collect each d) e (λ more q j. collect-In each P d more h q name w j)
  where
    collected :
        (o : Option (Option W))
        → each k v ≡ o
        → (rest : Option (Dict W))
        → elim o [
          | none ↦ none
          | some none ↦ rest
          | some (some x) ↦ elim rest [ none ↦ none | some xs ↦ some ((k, x) ∷ xs) ]
        ]
          ≡ some ws
        → ((more : Dict W) → rest ≡ some more → In {A = String × W} (name, w) more → P w)
        → P w
    collected none q rest g ih = cc
    collected (some none) q rest g ih = ih ws g m
    collected (some (some x)) q none g ih = cc
    collected (some (some x)) q (some xs) g ih =
        elim (subst (In {A = String × W} (name, w)) (sym (some_inj g)) m) [
          | inl same ↦ subst P (sym (ap (λ (p : String × W). p.1) same)) (h k v x q)
          | inr j ↦ ih xs refl j
        ]

module _ {F : Type 0} ⦃f : Float F⦄ where
  length-add_series : (total series : List F) → length (add_series total series) ≡ length total
  unfolding add_series
  length-add_series [] series = refl
  length-add_series (a ∷ total) [] = refl
  length-add_series (a ∷ total) (v ∷ series) = omega (arith, length-add_series total series)

  length-sum_series :
      (total : List F) (more : List (List F)) → length (sum_series total more) ≡ length total
  unfolding sum_series
  length-sum_series total [] = refl
  length-sum_series total (series ∷ more) =
      length-sum_series (add_series total series) more ∙ length-add_series total series

  length-winners :
      (start : ℕ) (sources : List (List (PriceStep F))) (steps : List ℕ) (ws : List (PriceStep F))
      → winners start sources steps ≡ some ws
      → length ws ≡ length steps
  unfolding winners
  length-winners start sources [] ws h = ap length (sym (some_inj h))
  length-winners start sources (i ∷ steps) ws h =
      won (winner_at (grid_time start i) sources) (winners start sources steps) h
        (λ more q. length-winners start sources steps more q)
    where
      won :
          (o : Option (PriceStep F)) (rest : Option (List (PriceStep F)))
          → elim o [ none ↦ none | some w ↦ elim rest [ none ↦ none | some ms ↦ some (w ∷ ms) ] ]
            ≡ some ws
          → ((more : List (PriceStep F)) → rest ≡ some more → length more ≡ length steps)
          → length ws ≡ suc (length steps)
      won none rest g ih = cc
      won (some w) none g ih = cc
      won (some w) (some ms) g ih = ap length (sym (some_inj g)) ∙ ap suc (ih ms refl)

  -- The three series of a merge that succeeds.
  abbrev AllLong : ℕ → List F × List F × List F → Type 0
  AllLong n (a, b, c) = (length a ≡ n) × (length b ≡ n) × (length c ≡ n)

  merge-AllLong :
      (sources : List (List (PriceStep F))) (start n : ℕ) (merged : List F × List F × List F)
      → merge_price_sources sources start n ≡ some merged
      → AllLong n merged
  unfolding merge_price_sources columns
  merge-AllLong sources start n merged h =
      of_winners (winners start (map (sorted (ts_le price_ts)) sources) (range_from 0 n)) refl h
    where
      of_winners :
          (o : Option (List (PriceStep F)))
          → winners start (map (sorted (ts_le price_ts)) sources) (range_from 0 n) ≡ o
          → elim o [ none ↦ none | some ws ↦ some (columns ws) ] ≡ some merged
          → AllLong n merged
      of_winners none q g = cc
      of_winners (some ws) q g =
          let size : length ws ≡ n =
            length-winners start (map (sorted (ts_le price_ts)) sources) (range_from 0 n) ws q
            ∙ length-range_from 0 n in
          subst (AllLong n) (some_inj g)
            (length-map _ ws ∙ size, length-map _ ws ∙ size, length-map _ ws ∙ size)

  resampled-long :
      (entries : Dict (Input F × ℕ)) (start n : ℕ) (topics : Dict String) (out : Dict (List F))
      → resampled entries start n topics ≡ some out
      → (name : String) (series : List F) → In {A = String × List F} (name, series) out
      → length series ≡ n
  unfolding resampled
  resampled-long entries start n topics out h name series m =
      collect-In _ (λ w. length w ≡ n) topics out long h name series m
    where
      long :
          (k topic : String) (w : List F)
          → (read_entry as_powers entries topic >>= λ steps.
              some (elim steps [ none ↦ none | some s ↦ some (resample_power s start n) ]))
            ≡ some (some w)
          → length w ≡ n
      long k topic w g = read (read_entry as_powers entries topic) g
        where
          read :
              (o : Option (Option (List (PowerForecastStep F))))
              → (o >>= λ steps.
                  some (elim steps [ none ↦ none | some s ↦ some (resample_power s start n) ]))
                ≡ some (some w)
              → length w ≡ n
          read none q = cc
          read (some none) q = cc
          read (some (some s)) q =
              ap length (sym (some_inj (some_inj q))) ∙ length-resample_power s start n

  hybrid-long :
      (s : ReadinessState F) (start n : ℕ) (name : String) (cfg : HybridInverterConfig F)
      (i : HybridInverterInputs F)
      → hybrid_input s start n name cfg ≡ some (some i)
      → length i.pv_forecast_kw ≡ n
  unfolding hybrid_input
  hybrid-long s start n name cfg i h =
      with_pv (read_entry as_powers s.entries cfg.topic_pv_forecast)
        (read_optional as_number s.entries cfg.soc_topic) h
    where
      with_pv :
          (pv : Option (Option (List (PowerForecastStep F)))) (soc : Option (Option F))
          → (pv >>= λ p. elim p [
            | none ↦ some none
            | some steps ↦ soc >>= λ x. some (
                some (record {
                  soc_kwh = elim x [ none ↦ f.nil | some y ↦ y ];
                  pv_forecast_kw = resample_power steps start n;
                }))
          ])
            ≡ some (some i)
          → length i.pv_forecast_kw ≡ n
      with_pv none soc q = cc
      with_pv (some none) soc q = cc
      with_pv (some (some steps)) none q = cc
      with_pv (some (some steps)) (some x) q =
          ap (λ (j : HybridInverterInputs F). length j.pv_forecast_kw) (sym (some_inj (some_inj q)))
          ∙ length-resample_power steps start n

  -- The price, PV, load and hybrid inverter series of a bundle have `n` values. The outdoor
  -- temperatures are not among them: they may be longer.
  abbrev pub HorizonSeries : ℕ → SolveBundle F → Type 0
  HorizonSeries n b =
      AllLong n (b.horizon_prices, b.horizon_export_prices, b.horizon_confidence)
      × (length b.pv_forecast ≡ n)
      × (length b.base_load_forecast ≡ n)
      × ((name : String) (series : List F)
          → In {A = String × List F} (name, series) b.pv_forecasts
          → length series ≡ n)
      × ((name : String) (i : HybridInverterInputs F)
          → In {A = String × HybridInverterInputs F} (name, i) b.hybrid_inverter_inputs
          → length i.pv_forecast_kw ≡ n)

  validated-eq : (b c : SolveBundle F) → validated b ≡ some c → (b ≡ c) × (is_valid_bundle b ≡ true)
  unfolding validated
  validated-eq b c h = elim (Bool-cases (is_valid_bundle b)) [
    | inl v ↦ (some_inj (rw v at h), v)
    | inr v ↦ let h' = rw v at h in cc
  ]

  -- What the construction guarantees, given what its parts satisfy.
  from_parts-HorizonSeries :
      (now start n : ℕ) (merged : Option (List F × List F × List F)) (pv : Option (Dict (List F)))
      (loads : Option (Dict (List F))) (hybrids : Option (Dict (HybridInverterInputs F)))
      (batteries : Option (Dict (BatteryInputs F))) (evs : Option (Dict (EvInputs F)))
      (windows : Option (Dict DeferrableWindow)) (starts : Option (Dict ℕ))
      (boilers : Option (Dict (ThermalBoilerInputs F)))
      (heaters : Option (Dict (SpaceHeatingInputs F)))
      (combis : Option (Dict (CombiHeatPumpInputs F))) (strategy : Option String)
      (b : SolveBundle F)
      → ((x : List F × List F × List F) → merged ≡ some x → AllLong n x)
      → ((d : Dict (List F))
          → pv ≡ some d
          → (name : String) (series : List F) → In {A = String × List F} (name, series) d
          → length series ≡ n)
      → ((d : Dict (HybridInverterInputs F))
          → hybrids ≡ some d
          → (name : String) (i : HybridInverterInputs F)
          → In {A = String × HybridInverterInputs F} (name, i) d
          → length i.pv_forecast_kw ≡ n)
      → from_parts now start n merged pv loads hybrids batteries evs windows starts boilers heaters
          combis strategy
        ≡ some b
      → HorizonSeries n b × (b.solve_time_utc ≡ start) × (is_valid_bundle b ≡ true)
  unfolding from_parts
  from_parts-HorizonSeries now start n (some (x, y, z)) (some pv) (some loads) (some hybrids)
        (some batteries) (some evs) (some windows) (some starts) (some boilers) (some heaters)
        (some combis) (some strategy) b p q r e =
      let (same, ok) = validated-eq _ b e in
      subst (λ c. HorizonSeries n c × (c.solve_time_utc ≡ start) × (is_valid_bundle c ≡ true)) same
        (
          (
            p (x, y, z) refl,
            length-sum_series (replicate n f.nil) (values pv) ∙ length-replicate n f.nil,
            length-sum_series (replicate n f.nil) (values loads) ∙ length-replicate n f.nil,
            q pv refl,
            r hybrids refl,
          ),
          refl,
          ok,
        )
  from_parts-HorizonSeries now start n merged pv loads hybrids batteries evs windows starts boilers
        heaters combis strategy b p q r e =
      cc

  merged-AllLong :
      (o : Option (List (List (PriceStep F)))) (start n : ℕ) (x : List F × List F × List F)
      → (o >>= λ sources. merge_price_sources sources start n) ≡ some x
      → AllLong n x
  merged-AllLong none start n x h = cc
  merged-AllLong (some sources) start n x h = merge-AllLong sources start n x h

  assemble-HorizonSeries :
      (s : ReadinessState F) (now start n : ℕ) (b : SolveBundle F)
      → assemble s now start n ≡ some b
      → HorizonSeries n b × (b.solve_time_utc ≡ start) × (is_valid_bundle b ≡ true)
  unfolding assemble
  assemble-HorizonSeries s now start n b =
      from_parts-HorizonSeries now start n _ _ _ _ _ _ _ _ _ _ _ _ b
        (merged-AllLong (price_sources s.entries s.prices_topics) start n)
        (resampled-long s.entries start n s.pv_topics)
        (λ d e name i.
          collect-In (hybrid_input s start n) (λ j. length j.pv_forecast_kw ≡ n)
            s.config.hybrid_inverters d (hybrid-long s start n) e name i)

  -- a list that is not empty
  non_empty-length : (xs : List F) → non_empty xs ≡ true → 0 < length xs
  unfolding non_empty
  non_empty-length [] h = cc
  non_empty-length (x ∷ xs) h = omega arith

  valid-prices : (b : SolveBundle F) → is_valid_bundle b ≡ true → non_empty b.horizon_prices ≡ true
  unfolding is_valid_bundle
  valid-prices b h = ground arith

  -- What the construction guarantees of a snapshot.
  pub built_snapshot :
      (s : ReadinessState F) (checked now : ℕ) (b : SolveBundle F)
      → snapshot s checked now ≡ some b
      → (n : ℕ) × (horizon_steps s now ≡ some n)
        × (HorizonSeries n b × (b.solve_time_utc ≡ floor_to_15min now) × (is_valid_bundle b ≡ true))
  unfolding snapshot
  built_snapshot s checked now b h = checked_then (is_ready s checked) (horizon_steps s now) refl h
    where
      checked_then :
          (ready : Option Bool) (o : Option ℕ)
          → horizon_steps s now ≡ o
          → (ready >>= λ r. (if r then o else none) >>= λ n. assemble s now (floor_to_15min now) n)
            ≡ some b
          → (n : ℕ) × (horizon_steps s now ≡ some n)
            × (HorizonSeries n b
                × (b.solve_time_utc ≡ floor_to_15min now)
                × (is_valid_bundle b ≡ true))
      checked_then none o q g = cc
      checked_then (some false) o q g = cc
      checked_then (some true) none q g = cc
      checked_then (some true) (some n) q g =
          (n, q, assemble-HorizonSeries s now (floor_to_15min now) n b g)

  -- A snapshot that succeeds starts at the quarter hour of its clock reading, has as many steps as
  -- the forecasts cover from there, at least one, and its price, confidence, PV, load and hybrid
  -- inverter series all have that length.
  pub snapshot-HorizonSeries :
      (s : ReadinessState F) (checked now : ℕ) (b : SolveBundle F)
      → snapshot s checked now ≡ some b
      → (n : ℕ) × (horizon_steps s now ≡ some n)
        × (0 < n)
        × (b.solve_time_utc ≡ floor_to_15min now)
        × HorizonSeries n b
  snapshot-HorizonSeries s checked now b h =
      let (n, q, (all, start, ok)) = built_snapshot s checked now b h in
      let some_step = non_empty-length b.horizon_prices (valid-prices b ok) in
      (n, q, omega (arith, all.0.0), start, all)
