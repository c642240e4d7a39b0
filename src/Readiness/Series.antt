-- ===== src/Readiness/Series.antt =====
-- Which entries the series of the readiness test come from.
use mathlib.Core.Path.{subst}
use mimirheim.Prelude.{
  ℕ, String, ◌≡◌, refl, sym, inl, inr, true, Option, none, some, some_inj, List, [], ◌∷◌, arith,
  Bool-cases, In, map, is_some,
}
use mimirheim.Prelude.Dict.{Dict, get}
use mimirheim.Forecast.{PriceStep}
use mimirheim.Forecast.Ends.{Covers}
use mimirheim.Readiness.{Input, prices}
use mimirheim.Readiness.Coverage.{
  as_prices, as_timestamps, cons?, price_sources, forecast_series, all_received,
}

module _ {F : Type 0} where
  -- Some entry of a topic of the list holds a price series that covers `t`.
  abbrev pub PricesCover : Dict (Input F × ℕ) → List String → ℕ → Type 0
  PricesCover entries topics t =
      (topic : String) × (steps : List (PriceStep F)) × (at : ℕ) × In topic topics
      × (get entries topic ≡ some (prices steps, at))
      × Covers t (map (λ p. p.ts) steps)

  -- The entry of the topic holds a series that covers `t`.
  abbrev pub SeriesCovers : Dict (Input F × ℕ) → String → ℕ → Type 0
  SeriesCovers entries topic t =
      (input : Input F) × (at : ℕ) × (series : List ℕ) × (get entries topic ≡ some (input, at))
      × (as_timestamps input ≡ some series)
      × Covers t series

  pub all_received-In :
      (entries : Dict (Input F × ℕ)) (topics : List String) (topic : String)
      → all_received entries topics ≡ true
      → In topic topics
      → is_some (get entries topic) ≡ true
  unfolding all_received
  all_received-In entries [] topic h m = absurd m
  all_received-In entries (x ∷ topics) topic h (inl e) =
      subst (λ y. is_some (get entries y) ≡ true) (sym e) (ground arith)
  all_received-In entries (x ∷ topics) topic h (inr m) =
      elim (Bool-cases (is_some (get entries x))) [
        | inl b ↦ all_received-In entries topics topic (rw b at h) m
        | inr b ↦ let h' = rw b at h in cc
      ]

  PricesCover-later :
      (entries : Dict (Input F × ℕ)) (x : String) (topics : List String) (t : ℕ)
      → PricesCover entries topics t
      → PricesCover entries (x ∷ topics) t
  PricesCover-later entries x topics t (topic, steps, at, m, g, c) = (topic, steps, at, inr m, g, c)

  -- a covering source stands under one of the topics
  pub price_sources-In :
      (entries : Dict (Input F × ℕ)) (topics : List String) (sources : List (List (PriceStep F)))
      (t : ℕ) (s : List ℕ)
      → price_sources entries topics ≡ some sources
      → In s (map (map (λ p. p.ts)) sources)
      → Covers t s
      → PricesCover entries topics t
  unfolding price_sources
  price_sources-In entries [] sources t s e m c =
      let none_there : In s [] = subst (λ x. In s (map (map (λ p. p.ts)) x)) (sym (some_inj e)) m in
      absurd none_there
  price_sources-In entries (x ∷ topics) sources t s e m c =
      found (get entries x) refl e (λ more q k. price_sources-In entries topics more t s q k c)
    where
      split :
          (input : Input F) (at : ℕ) (rest : Option (List (List (PriceStep F))))
          → get entries x ≡ some (input, at)
          → cons? (as_prices input) rest ≡ some sources
          → ((more : List (List (PriceStep F)))
              → rest ≡ some more
              → In s (map (map (λ p. p.ts)) more)
              → PricesCover entries topics t)
          → PricesCover entries (x ∷ topics) t
      split (prices steps) at (some more) g q ih =
          elim (subst (λ y. In s (map (map (λ p. p.ts)) y)) (sym (some_inj q)) m) [
            | inl h ↦ (x, steps, at, inl refl, g, subst (Covers t) h c)
            | inr k ↦ PricesCover-later entries x topics t (ih more refl k)
          ]
      split (prices steps) at none g q ih = cc
      split input at rest g q ih = cc

      found :
          (o : Option (Input F × ℕ))
          → get entries x ≡ o
          → elim o [
            | none ↦ price_sources entries topics
            | some entry ↦ cons? (as_prices entry.0) (price_sources entries topics)
          ]
            ≡ some sources
          → ((more : List (List (PriceStep F)))
              → price_sources entries topics ≡ some more
              → In s (map (map (λ p. p.ts)) more)
              → PricesCover entries topics t)
          → PricesCover entries (x ∷ topics) t
      found none g q ih = PricesCover-later entries x topics t (ih sources q m)
      found (some (input, at)) g q ih = split input at (price_sources entries topics) g q ih

  -- The entry of the topic holds a series of the list.
  abbrev pub Stands : Dict (Input F × ℕ) → String → List (List ℕ) → Type 0
  Stands entries topic ss =
      (input : Input F) × (at : ℕ) × (s : List ℕ) × (get entries topic ≡ some (input, at))
      × (as_timestamps input ≡ some s)
      × In s ss

  -- a topic of the list has an entry, and its series is among those of the loop
  pub forecast_series-In :
      (entries : Dict (Input F × ℕ)) (topics : List String) (series : List (List ℕ))
      (topic : String)
      → forecast_series entries topics ≡ some (some series)
      → In topic topics
      → (input : Input F) × (at : ℕ) × (s : List ℕ) × (get entries topic ≡ some (input, at))
        × (as_timestamps input ≡ some s)
        × In s series
  unfolding forecast_series
  forecast_series-In entries [] series topic e m = absurd m
  forecast_series-In entries (x ∷ topics) series topic e m =
      found (get entries x) refl e (λ more q k. forecast_series-In entries topics more topic q k)
    where
      pair :
          (input : Input F) (at : ℕ) (o : Option (List ℕ)) (rest : Option (Option (List (List ℕ))))
          → get entries x ≡ some (input, at)
          → as_timestamps input ≡ o
          → elim o [
            | none ↦ none
            | some s ↦ elim rest [
              | none ↦ none
              | some none ↦ some none
              | some (some more) ↦ some (some (s ∷ more))
            ]
          ]
            ≡ some (some series)
          → ((more : List (List ℕ))
              → rest ≡ some (some more)
              → In topic topics
              → Stands entries topic more)
          → Stands entries topic series
      pair input at none rest g a q ih = cc
      pair input at (some s) none g a q ih = cc
      pair input at (some s) (some none) g a q ih = cc
      pair input at (some s) (some (some more)) g a q ih =
          let same : s ∷ more ≡ series = some_inj (some_inj q) in
          elim m [
            | inl h ↦ (
              input,
              at,
              s,
              subst (λ y. get entries y ≡ some (input, at)) (sym h) g,
              a,
              subst (In s) same (inl refl),
            )
            | inr k ↦
                let (i, at', s', g', a', m') = ih more refl k in
                (i, at', s', g', a', subst (In s') same (inr m'))
          ]

      found :
          (o : Option (Input F × ℕ))
          → get entries x ≡ o
          → elim o [
            | none ↦ some none
            | some entry ↦ elim (as_timestamps entry.0) [
              | none ↦ none
              | some s ↦ elim (forecast_series entries topics) [
                | none ↦ none
                | some none ↦ some none
                | some (some more) ↦ some (some (s ∷ more))
              ]
            ]
          ]
            ≡ some (some series)
          → ((more : List (List ℕ))
              → forecast_series entries topics ≡ some (some more)
              → In topic topics
              → Stands entries topic more)
          → Stands entries topic series
      found none g q ih = cc
      found (some (input, at)) g q ih =
          pair input at (as_timestamps input) (forecast_series entries topics) g refl q ih
