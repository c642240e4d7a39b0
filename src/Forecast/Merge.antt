-- ===== src/Forecast/Merge.antt =====
-- mimirheim/core/forecast.py: `merge_price_sources`.
pub mod Best
pub mod Tiers
pub mod Winner
pub mod Series
use mimirheim.Prelude.{
  ℕ, ◌+◌, Bool, Option, none, some, List, [], ◌∷◌, map, leb, ltb, if◌then◌else◌, last?,
}
use mimirheim.Prelude.Float.{Float, lt, eq}
use mimirheim.Prelude.Sort.{sorted}
use mimirheim.Forecast.{PriceStep, active_at, ts_le, price_ts, grid_time, range_from}

-- a source's index and one of its steps
abbrev pub Candidate : Type 0 → Type 0
Candidate F = ℕ × PriceStep F

module _ {F : Type 0} ⦃f : Float F⦄ where
  -- a source's active step, where `t` is inside its real timestamps
  unfoldable pub source_step : ℕ → List (PriceStep F) → Option (PriceStep F)
  source_step t source = elim (active_at price_ts t source none) [
    | none ↦ none
    | some active ↦ elim (last? source) [
      | none ↦ none
      | some last ↦ if leb t last.ts then some active else none
    ]
  ]

  -- one pass over `enumerate(sorted_sources)`: the steps that sources contribute, with the index
  unfoldable pub contributions :
      (List (PriceStep F) → Option (PriceStep F))
      → ℕ
      → List (List (PriceStep F))
      → List (Candidate F)
  contributions step idx [] = []
  contributions step idx (source ∷ sources) =
      let rest = contributions step (idx + 1) sources in
      elim (step source) [ none ↦ rest | some s ↦ (idx, s) ∷ rest ]

  -- the tier of real coverage
  abbrev pub tier1 : ℕ → List (List (PriceStep F)) → List (Candidate F)
  tier1 t = contributions (source_step t) 0

  -- `sorted_source[0]`, of a source that has a step
  unfoldable pub first_of : List (PriceStep F) → Option (PriceStep F)
  first_of [] = none
  first_of (first ∷ _) = some first

  -- the leading-edge fallback
  abbrev pub first_steps : List (List (PriceStep F)) → List (Candidate F)
  first_steps = contributions first_of 0

  -- `(-a.confidence, i) < (-b.confidence, j)` as Python compares tuples
  unfoldable pub key_lt : Candidate F → Candidate F → Bool
  key_lt (i, a) (j, b) =
      if eq (f.neg a.confidence) (f.neg b.confidence)
      then ltb i j
      else lt (f.neg a.confidence) (f.neg b.confidence)

  -- `min(candidates, key=…)`; on an empty list Python raises, which `none` stands for
  unfoldable pub min_candidate : Candidate F → List (Candidate F) → Candidate F
  min_candidate best [] = best
  min_candidate best (c ∷ cs) = min_candidate (if key_lt c best then c else best) cs

  unfoldable pub pick : List (Candidate F) → Option (PriceStep F)
  pick [] = none
  pick (c ∷ cs) = some (min_candidate c cs).1

  unfoldable pub or_else : List (Candidate F) → List (Candidate F) → List (Candidate F)
  or_else [] fallback = fallback
  or_else (c ∷ cs) fallback = c ∷ cs

  -- the winner of the step that starts at `t`
  unfoldable pub winner_at : ℕ → List (List (PriceStep F)) → Option (PriceStep F)
  unfolding pick or_else
  winner_at t sources = pick (or_else (tier1 t sources) (first_steps sources))

  -- all winners, or the exception of the first step that has none
  unfoldable pub winners : ℕ → List (List (PriceStep F)) → List ℕ → Option (List (PriceStep F))
  winners solve_start sources [] = some []
  winners solve_start sources (i ∷ rest) =
      let tail = winners solve_start sources rest in
      elim (winner_at (grid_time solve_start i) sources) [
        | none ↦ none
        | some w ↦ elim tail [ none ↦ none | some ws ↦ some (w ∷ ws) ]
      ]

  -- the import prices, the export prices and the confidences
  unfoldable pub columns : List (PriceStep F) → List F × List F × List F
  columns ws = (
    map (λ w. w.import_eur_per_kwh) ws,
    map (λ w. w.export_eur_per_kwh) ws,
    map (λ w. w.confidence) ws,
  )

  unfoldable pub merge_price_sources :
      List (List (PriceStep F)) → ℕ → ℕ → Option (List F × List F × List F)
  unfolding columns
  merge_price_sources sources solve_start n_steps =
      elim (winners solve_start (map (sorted (ts_le price_ts)) sources) (range_from 0 n_steps)) [
        | none ↦ none
        | some ws ↦ some (columns ws)
      ]
