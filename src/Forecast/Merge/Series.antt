-- ===== src/Forecast/Merge/Series.antt =====
-- The merged series: every step has a winner as soon as one source has a step.
use mimirheim.Prelude.{
  ℕ, zero, suc, ◌<◌, ◌≡◌, refl, ap, sym, ◌∙◌, ◌⊎◌, some, List, [], ◌∷◌, map, arith, some_inj, In,
  length, length-map, get_elem?, get_elem?-map,
}
use mathlib.Core.Path.{subst}
use mimirheim.Prelude.Float.{Float}
use mimirheim.Forecast.{PriceStep, grid_time, range_from}
use mimirheim.Forecast.Grid.{length-range_from, get_elem?-range_from}
use mimirheim.Forecast.Merge.{winner_at, winners, merge_price_sources}
use mimirheim.Forecast.Merge.Tiers.{prepare}
use mimirheim.Forecast.Merge.Winner.{WinsCovered, WinsLeading, winner_at_top}

module _ {F : Type 0} ⦃f : Float F⦄ where
  module _ (start : ℕ) (sources : List (List (PriceStep F)))
      (total : (t : ℕ) → (w : PriceStep F) × (winner_at t sources ≡ some w)) where
    -- the winners of the listed steps, in order
    abbrev Picks : List ℕ → List (PriceStep F) → Type 0
    Picks steps ws =
        (length ws ≡ length steps)
        × ((k i : ℕ)
            → get_elem? steps k ≡ some i
            → (w : PriceStep F) × (get_elem? ws k ≡ some w)
              × (winner_at (grid_time start i) sources ≡ some w))

    winners-cons :
        (i : ℕ) (rest : List ℕ) (w : PriceStep F) (ws : List (PriceStep F))
        → winner_at (grid_time start i) sources ≡ some w
        → winners start sources rest ≡ some ws
        → winners start sources (i ∷ rest) ≡ some (w ∷ ws)
    unfolding winners
    winners-cons i rest w ws p q = ground arith

    winners-Picks :
        (steps : List ℕ)
        → (ws : List (PriceStep F)) × (winners start sources steps ≡ some ws) × Picks steps ws
    unfolding winners
    winners-Picks [] = ([], refl, (refl, λ k i h. cc))
    winners-Picks (i ∷ rest) =
        let (w, e) = total (grid_time start i) in
        let (ws, es, (len, at)) = winners-Picks rest in
        (
          w ∷ ws,
          winners-cons i rest w ws e es,
          (omega (arith, len), λ k j h. pick_at k j h w ws e at),
        )
      where
        pick_at :
            (k j : ℕ)
            → get_elem? (i ∷ rest) k ≡ some j
            → (w : PriceStep F) (ws : List (PriceStep F))
            → winner_at (grid_time start i) sources ≡ some w
            → ((k i : ℕ)
                → get_elem? rest k ≡ some i
                → (v : PriceStep F) × (get_elem? ws k ≡ some v)
                  × (winner_at (grid_time start i) sources ≡ some v))
            → (v : PriceStep F) × (get_elem? (w ∷ ws) k ≡ some v)
              × (winner_at (grid_time start j) sources ≡ some v)
        pick_at zero j h w ws e at = (w, refl, cc)
        pick_at (suc k) j h w ws e at = at k j h

  some_winner :
      (sources : List (List (PriceStep F))) (source : List (PriceStep F)) (r : PriceStep F)
      → In source sources
      → In r source
      → (t : ℕ) → (w : PriceStep F) × (winner_at t (map prepare sources) ≡ some w)
  some_winner sources source r m mr t =
      let (w, e, wins) = winner_at_top t sources source r m mr in (w, e)

  -- If some source has a step, the merge succeeds with three series of the requested length. The
  -- values of step `i` are those of one price step `w`. If a source covers the start of step `i`,
  -- then `w` is the step in force of a covering source, and every covering source has a step in
  -- force that is no more confident. If no source does, be it that the start lies before the
  -- sources' steps, after them or between them, then `w` is an earliest step of a source, and every
  -- source with a step has an earliest one that is no more confident.
  pub merge_price_sources_best :
      (sources : List (List (PriceStep F))) (start n i : ℕ) (source : List (PriceStep F))
      (r : PriceStep F)
      → i < n
      → In source sources
      → In r source
      → (imports : List F) × (exports : List F) × (confidences : List F) × (w : PriceStep F)
        × (merge_price_sources sources start n ≡ some (imports, exports, confidences))
        × ((length imports ≡ n) × (length exports ≡ n) × (length confidences ≡ n))
        × ((get_elem? imports i ≡ some w.import_eur_per_kwh)
            × (get_elem? exports i ≡ some w.export_eur_per_kwh)
            × (get_elem? confidences i ≡ some w.confidence))
        × (WinsCovered (grid_time start i) sources w ⊎ WinsLeading (grid_time start i) sources w)
  unfolding merge_price_sources
  merge_price_sources_best sources start n i source r h m mr =
      let prepared = map prepare sources in
      let (ws, e, (len, at)) =
        winners-Picks start prepared (some_winner sources source r m mr) (range_from 0 n) in
      let (w, got, won) =
        at i i (get_elem?-range_from 0 n i h ∙ ap (λ (k : ℕ). some k) (omega arith)) in
      let size : length ws ≡ n = len ∙ length-range_from 0 n in
      let (v, p, wins) = winner_at_top (grid_time start i) sources source r m mr in
      let same : v ≡ w = some_inj (sym p ∙ won) in
      (
        map (λ x. x.import_eur_per_kwh) ws,
        map (λ x. x.export_eur_per_kwh) ws,
        map (λ x. x.confidence) ws,
        w,
        rw (e, merge_price_sources) refl,
        (length-map _ ws ∙ size, length-map _ ws ∙ size, length-map _ ws ∙ size),
        (get_elem?-map _ ws i got, get_elem?-map _ ws i got, get_elem?-map _ ws i got),
        subst
            (λ x.
              WinsCovered (grid_time start i) sources x ⊎ WinsLeading (grid_time start i) sources x)
            same wins,
      )
