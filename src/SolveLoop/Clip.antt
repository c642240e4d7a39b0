-- ===== src/SolveLoop/Clip.antt =====
-- Clipping a valid bundle succeeds, and cuts its series to the limit.
use mathlib.Core.Path.{subst}
use mimirheim.Prelude.{
  smaller, ℕ, zero, suc, ◌<◌, ◌≤◌, String, ◌≡◌, refl, sym, ap, ◌∙◌, inl, inr, Bool, true, false,
  ◌&&◌, some, List, [], ◌∷◌, map, In, length, arith, Bool-cases, leb, ◌==◌,
}
use mimirheim.Prelude.Float.{Float}
use mimirheim.Prelude.Dict.{Dict, map_values}
use mimirheim.Bundle.{HybridInverterInputs, SpaceHeatingInputs, CombiHeatPumpInputs, SolveBundle}
use mimirheim.Readiness.Snapshot.{
  heads, tails, step_sums, values, non_empty, all_values, series_agree, pv_forecasts_consistent,
  is_valid_bundle, validated, nonneg,
}
use mimirheim.Forecast.{floor_to_15min}
use mimirheim.Readiness.{ReadinessState}
use mimirheim.Readiness.Coverage.{horizon_steps}
use mimirheim.Readiness.Snapshot.{snapshot}
use mimirheim.Readiness.Lengths.{HorizonSeries, built_snapshot}
use mimirheim.SolveLoop.Outdoor.{length-take, OutdoorLeft, same-OutdoorLeft, cut_bundle-OutdoorLeft}
use mimirheim.SolveLoop.{take, cut_hybrid, cut_space_heating, cut_combi_hp, cut_bundle, clip_bundle}

-- a test of all values, after a function that keeps what the test reads
all_values-map :
    {V W : Type 0} (p : V → Bool) (q : W → Bool) (g : V → W) (d : Dict V)
    → ((v : V) → p v ≡ true → q (g v) ≡ true)
    → all_values p d ≡ true
    → all_values q (map_values g d) ≡ true
unfolding all_values map_values
all_values-map p q g [] keep h = refl
all_values-map p q g ((name, v) ∷ d) keep h = ground (arith, keep v, all_values-map p q g d keep)

and_left : (a b : Bool) → (a && b) ≡ true → a ≡ true
and_left a b h = ground arith

and_right : (a b : Bool) → (a && b) ≡ true → b ≡ true
and_right a b h = ground arith

and_both : (a b : Bool) → a ≡ true → b ≡ true → (a && b) ≡ true
and_both a b h g = ground arith

In_of-map_values :
    {V W : Type 0} (g : V → W) (name : String) (w : W) (d : Dict V)
    → In {A = String × W} (name, w) (map_values g d)
    → (v : V) × In {A = String × V} (name, v) d × (w ≡ g v)
unfolding map_values
In_of-map_values {V} {W} g name w [] m = absurd m
In_of-map_values {V} {W} g name w ((k, v) ∷ d) (inl e) =
    (v, inl (ap (λ (x : String × W). (x.0, v)) e), ap (λ (x : String × W). x.1) e)
In_of-map_values {V} {W} g name w ((k, v) ∷ d) (inr m) =
    let (u, i, e) = In_of-map_values g name w d m in (u, inr i, e)

within : (l n limit : ℕ) → l ≡ n → leb l limit ≡ true → n ≤ limit
within l n limit e h = ground arith

beyond : (l n limit : ℕ) → l ≡ n → leb l limit ≡ false → limit < n
beyond l n limit e h = ground arith

fits : (n limit l : ℕ) → l ≡ n → leb l limit ≡ true → n ≡ smaller limit n
fits n limit l e h = ground arith

module _ {F : Type 0} ⦃f : Float F⦄ where
  values-map_values :
      (n : ℕ) (d : Dict (List F)) → values (map_values (take n) d) ≡ map (take n) (values d)
  unfolding values map_values
  values-map_values n [] = refl
  values-map_values n ((name, series) ∷ d) = ap (λ ss. take n series ∷ ss) (values-map_values n d)

  heads-take : (n : ℕ) (ss : List (List F)) → heads (map (take (suc n)) ss) ≡ heads ss
  unfolding heads take
  heads-take n [] = refl
  heads-take n ([] ∷ ss) = heads-take n ss
  heads-take n ((x ∷ xs) ∷ ss) = ap (λ ys. x ∷ ys) (heads-take n ss)

  tails-take :
      (n : ℕ) (ss : List (List F)) → tails (map (take (suc n)) ss) ≡ map (take n) (tails ss)
  unfolding tails take
  tails-take zero [] = refl
  tails-take zero ([] ∷ ss) = ap (λ ys. [] ∷ ys) (tails-take zero ss)
  tails-take zero ((x ∷ xs) ∷ ss) = ap (λ ys. [] ∷ ys) (tails-take zero ss)
  tails-take (suc n) [] = refl
  tails-take (suc n) ([] ∷ ss) = ap (λ ys. [] ∷ ys) (tails-take (suc n) ss)
  tails-take (suc n) ((x ∷ xs) ∷ ss) = ap (λ ys. take (suc n) xs ∷ ys) (tails-take (suc n) ss)

  -- sums that agree with a total agree with it after the cut
  step_sums-take :
      (n : ℕ) (total : List F) (ss : List (List F))
      → series_agree (step_sums (length total) ss) total ≡ true
      → series_agree (step_sums (length (take n total)) (map (take n) ss)) (take n total) ≡ true
  unfolding take series_agree step_sums
  step_sums-take zero total ss h = refl
  step_sums-take (suc n) [] ss h = refl
  step_sums-take (suc n) (x ∷ total) ss h =
      let ih = step_sums-take n total (tails ss) in
      rw (heads-take n ss, tails-take n ss) (ground (arith, ih))

  non_empty-take :
      (n : ℕ) (xs : List F) → 0 < n → non_empty xs ≡ true → non_empty (take n xs) ≡ true
  unfolding take non_empty
  non_empty-take zero xs p h = absurd (omega arith)
  non_empty-take (suc n) [] p h = h
  non_empty-take (suc n) (x ∷ xs) p h = refl

  hybrid-take :
      (n : ℕ) (i : HybridInverterInputs F)
      → 0 < n
      → (nonneg i.soc_kwh && non_empty i.pv_forecast_kw) ≡ true
      → (nonneg i.soc_kwh && non_empty (take n i.pv_forecast_kw)) ≡ true
  hybrid-take n i p h =
      and_both _ _ (and_left _ _ h) (non_empty-take n i.pv_forecast_kw p (and_right _ _ h))

  same_length :
      (n : ℕ) (total series : List F)
      → (length series == length total) ≡ true
      → (length (take n series) == length (take n total)) ≡ true
  same_length n total series h = ground (arith, length-take n series, length-take n total)

  take_agree :
      (n : ℕ) (total : List F) (d : Dict (List F))
      → series_agree (step_sums (length total) (values d)) total ≡ true
      → series_agree
          (step_sums (length (take n total)) (values (map_values (take n) d)))
          (take n total)
        ≡ true
  take_agree n total d h =
      subst (λ ss. series_agree (step_sums (length (take n total)) ss) (take n total) ≡ true)
        (sym (values-map_values n d)) (step_sums-take n total (values d) h)

  pv_forecasts_consistent-take :
      (n : ℕ) (total : List F) (d : Dict (List F))
      → pv_forecasts_consistent total d ≡ true
      → pv_forecasts_consistent (take n total) (map_values (take n) d) ≡ true
  unfolding pv_forecasts_consistent map_values
  pv_forecasts_consistent-take n total [] h = refl
  pv_forecasts_consistent-take n total ((name, series) ∷ d) h =
      let dd : Dict (List F) = (name, series) ∷ d in
      let long : all_values (λ s. length s == length (take n total)) (map_values (take n) dd)
          ≡ true =
        all_values-map _ (λ s. length s == length (take n total)) (take n) dd (same_length n total)
          (and_left _ _ h) in
      and_both _ _ long (take_agree n total dd (and_right _ _ h))

  -- The values that the constructors accept are accepted after the cut.
  is_valid_bundle-cut :
      (n : ℕ) (b : SolveBundle F)
      → 0 < n
      → is_valid_bundle b ≡ true
      → is_valid_bundle (cut_bundle b n) ≡ true
  unfolding is_valid_bundle cut_bundle cut_hybrid cut_space_heating cut_combi_hp
  is_valid_bundle-cut n b p h = ground (
    arith,
    non_empty-take n b.horizon_prices p,
    non_empty-take n b.horizon_export_prices p,
    non_empty-take n b.horizon_confidence p,
    non_empty-take n b.pv_forecast p,
    non_empty-take n b.base_load_forecast p,
    all_values-map (λ (i : HybridInverterInputs F). nonneg i.soc_kwh && non_empty i.pv_forecast_kw)
        (λ (i : HybridInverterInputs F). nonneg i.soc_kwh && non_empty i.pv_forecast_kw)
        (cut_hybrid n) b.hybrid_inverter_inputs (λ i. hybrid-take n i p),
    all_values-map (λ (i : SpaceHeatingInputs F). nonneg i.heat_needed_kwh)
        (λ (i : SpaceHeatingInputs F). nonneg i.heat_needed_kwh) (cut_space_heating n)
        b.space_heating_inputs (λ i q. q),
    all_values-map (λ (i : CombiHeatPumpInputs F). nonneg i.heat_needed_kwh)
        (λ (i : CombiHeatPumpInputs F). nonneg i.heat_needed_kwh) (cut_combi_hp n) b.combi_hp_inputs
        (λ i q. q),
    pv_forecasts_consistent-take n b.pv_forecast b.pv_forecasts,
  )

  cut_series :
      (n limit : ℕ) (b : SolveBundle F)
      → HorizonSeries n b
      → HorizonSeries (smaller limit n) (cut_bundle b limit)
  unfolding cut_bundle cut_hybrid
  cut_series n limit b (prices, pv, load, pvs, hybrids) = (
    (
      cut b.horizon_prices prices.0,
      cut b.horizon_export_prices prices.1,
      cut b.horizon_confidence prices.2,
    ),
    cut b.pv_forecast pv,
    cut b.base_load_forecast load,
    λ name series m.
        let (v, i, e) = In_of-map_values (take limit) name series b.pv_forecasts m in
        ap length e ∙ cut v (pvs name v i),
    λ name i m.
        let (v, j, e) = In_of-map_values (cut_hybrid limit) name i b.hybrid_inverter_inputs m in
        ap (λ (x : HybridInverterInputs F). length x.pv_forecast_kw) e
        ∙ cut v.pv_forecast_kw (hybrids name v j),
  )
    where
      cut : (xs : List F) → length xs ≡ n → length (take limit xs) ≡ smaller limit n
      cut xs e = length-take limit xs ∙ ap (smaller limit) e

  -- A bundle from a snapshot is clipped without an error, to a bundle that is valid again, starts at
  -- the same quarter hour, and whose price, confidence, PV, load and hybrid inverter series all have
  -- the length of the horizon or, where the horizon is longer, of the configured limit. The outdoor
  -- temperatures of the heat pumps, which may be longer than the horizon, are cut to the limit too
  -- where the horizon is longer than it, and left as they are elsewhere.
  pub clip_bundle-snapshot :
      (s : ReadinessState F) (checked now limit : ℕ) (b : SolveBundle F)
      → snapshot s checked now ≡ some b
      → 0 < limit
      → (n : ℕ) × (c : SolveBundle F) × (horizon_steps s now ≡ some n)
        × (clip_bundle b limit ≡ some c)
        × (is_valid_bundle c ≡ true)
        × (c.solve_time_utc ≡ floor_to_15min now)
        × HorizonSeries (smaller limit n) c
        × OutdoorLeft limit n b c
  unfolding clip_bundle validated
  clip_bundle-snapshot s checked now limit b h p =
      let (n, q, (all, start, ok)) = built_snapshot s checked now b h in
      elim (Bool-cases (leb (length b.horizon_prices) limit)) [
        | inl short ↦ (
          n,
          b,
          q,
          rw short refl,
          ok,
          start,
          subst (λ k. HorizonSeries k b) (fits n limit (length b.horizon_prices) all.0.0 short) all,
          same-OutdoorLeft limit n b (within (length b.horizon_prices) n limit all.0.0 short),
        )
        | inr long ↦
            let valid = is_valid_bundle-cut limit b p ok in
            (
              n,
              cut_bundle b limit,
              q,
              rw long (rw valid refl),
              valid,
              start,
              cut_series n limit b all,
              cut_bundle-OutdoorLeft limit n b
                  (beyond (length b.horizon_prices) n limit all.0.0 long),
            )
      ]
