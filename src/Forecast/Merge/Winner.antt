-- ===== src/Forecast/Merge/Winner.antt =====
-- The winner of one grid step in `merge_price_sources`, and the merged series.
use mimirheim.Prelude.{
  ℕ, ◌≤◌, ◌≡◌, refl, ap, ◌⊎◌, inl, inr, Option, none, some, List, [], ◌∷◌, map, arith, In,
}
use mathlib.Core.Path.{subst}
use mimirheim.Prelude.Float.{Float}
use mimirheim.Prelude.Sort.{Ordered, In_of-sorted, In-sorted}
use mimirheim.Forecast.{PriceStep, ts_le, price_ts}
use mimirheim.Forecast.Held.{first_le}
use mimirheim.Forecast.Merge.Best.{NoMore, IsTop, pick-IsTop}
use mimirheim.Forecast.Merge.Tiers.{
  IsCovering, Contributes, prepare, prepare-Ordered, source_step-Contributes, contributions_sound,
  contributions-complete,
}
use mimirheim.Forecast.Merge.{
  Candidate, source_step, first_of, tier1, first_steps, pick, or_else, winner_at,
}

module _ {F : Type 0} ⦃f : Float F⦄ where
  -- A step of the source that no step of it precedes.
  abbrev pub IsEarliest : List (PriceStep F) → PriceStep F → Type 0
  IsEarliest source w = In w source × ((r : PriceStep F) → In r source → w.ts ≤ r.ts)

  first_of-IsEarliest :
      (source : List (PriceStep F)) (c : PriceStep F)
      → first_of (prepare source) ≡ some c
      → IsEarliest source c
  unfolding first_of
  first_of-IsEarliest source c e =
      by_list (prepare source) (prepare-Ordered source) e
        (λ r k. In_of-sorted (ts_le price_ts) r source k)
        (λ r k. In-sorted (ts_le price_ts) r source k)
    where
      by_list :
          (xs : List (PriceStep F))
          → Ordered (ts_le price_ts) xs
          → first_of xs ≡ some c
          → ((r : PriceStep F) → In r xs → In r source)
          → ((r : PriceStep F) → In r source → In r xs)
          → IsEarliest source c
      by_list [] h e out back = cc
      by_list (x ∷ xs) h e out back =
          let p : c ≡ x = cc in
          (
            out c (inl p),
            λ r k. omega (arith, ap price_ts p, first_le price_ts x r xs h (back r k)),
          )

  first_of-some :
      (source : List (PriceStep F)) (r : PriceStep F)
      → In r source
      → (c : PriceStep F) × (first_of (prepare source) ≡ some c)
  unfolding first_of
  first_of-some source r m = by_list (prepare source) (In-sorted (ts_le price_ts) r source m)
    where
      by_list : (xs : List (PriceStep F)) → In r xs → (c : PriceStep F) × (first_of xs ≡ some c)
      by_list [] k = absurd k
      by_list (x ∷ xs) k = (x, refl)

  -- What the winner `w` of the step at `t` is, where some source covers `t` and where none does.
  abbrev pub WinsCovered : ℕ → List (List (PriceStep F)) → PriceStep F → Type 0
  WinsCovered t sources w =
      ((source : List (PriceStep F)) × In source sources × IsCovering t source w)
      × ((source : List (PriceStep F)) (c : PriceStep F)
          → In source sources
          → IsCovering t source c
          → (d : PriceStep F) × IsCovering t source d × NoMore d w)

  abbrev pub WinsLeading : ℕ → List (List (PriceStep F)) → PriceStep F → Type 0
  WinsLeading t sources w =
      ((source : List (PriceStep F)) (c : PriceStep F)
        → In source sources
        → IsCovering t source c
        → ⊥)
      × ((source : List (PriceStep F)) × In source sources × IsEarliest source w)
      × ((source : List (PriceStep F)) (r : PriceStep F)
          → In source sources
          → In r source
          → (d : PriceStep F) × IsEarliest source d × NoMore d w)

  IsCovering-step :
      (t : ℕ) (source : List (PriceStep F)) (c : PriceStep F)
      → IsCovering t source c
      → (d : PriceStep F) × (source_step t (prepare source) ≡ some d) × IsCovering t source d
  IsCovering-step t source c h =
      by_step (source_step t (prepare source)) refl (source_step-Contributes t source)
    where
      by_step :
          (o : Option (PriceStep F))
          → source_step t (prepare source) ≡ o
          → Contributes t source o
          → (d : PriceStep F) × (source_step t (prepare source) ≡ some d) × IsCovering t source d
      by_step none e q = absurd (q c h)
      by_step (some d) e q = (d, e, q)

  step_covers :
      (t : ℕ) (source : List (PriceStep F)) (c : PriceStep F)
      → source_step t (prepare source) ≡ some c
      → IsCovering t source c
  step_covers t source c e = subst (Contributes t source) e (source_step-Contributes t source)

  module _ (t : ℕ) (sources : List (List (PriceStep F))) where
    covered :
        (c : Candidate F) (cs : List (Candidate F)) (w : PriceStep F)
        → tier1 t (map prepare sources) ≡ c ∷ cs
        → IsTop (c ∷ cs) w
        → WinsCovered t sources w
    covered c cs w e ((i, m), top) =
        let (s, ms, h) = contributions_sound (source_step t) 0 i w sources (rw e m) in
        (
          (s, ms, step_covers t s w h),
          λ source a k q.
              let (d, hd, qd) = IsCovering-step t source a q in
              let (j, md) = contributions-complete (source_step t) 0 d source sources k hd in
              (d, qd, top (j, d) (rw e at md)),
        )

    leading :
        (c : Candidate F) (cs : List (Candidate F)) (w : PriceStep F)
        → tier1 t (map prepare sources) ≡ []
        → first_steps (map prepare sources) ≡ c ∷ cs
        → IsTop (c ∷ cs) w
        → WinsLeading t sources w
    leading c cs w e ef ((i, m), top) =
        let (s, ms, h) = contributions_sound first_of 0 i w sources (rw ef m) in
        (
          λ source a k q.
              let (d, hd, qd) = IsCovering-step t source a q in
              let (j, md) = contributions-complete (source_step t) 0 d source sources k hd in
              rw e at md,
          (s, ms, first_of-IsEarliest s w h),
          λ source r k mr.
              let (d, hd) = first_of-some source r mr in
              let (j, md) = contributions-complete first_of 0 d source sources k hd in
              (d, first_of-IsEarliest source d hd, top (j, d) (rw ef at md)),
        )

    pub winner_at_top :
        (source : List (PriceStep F)) (r : PriceStep F)
        → In source sources
        → In r source
        → (w : PriceStep F) × (winner_at t (map prepare sources) ≡ some w)
          × (WinsCovered t sources w ⊎ WinsLeading t sources w)
    unfolding winner_at
    winner_at_top source r m mr =
        by_tier (tier1 t (map prepare sources)) refl (first_steps (map prepare sources)) refl
      where
        by_tier :
            (pool : List (Candidate F))
            → tier1 t (map prepare sources) ≡ pool
            → (fallback : List (Candidate F)) → first_steps (map prepare sources) ≡ fallback
            → (w : PriceStep F) × (pick (or_else pool fallback) ≡ some w)
              × (WinsCovered t sources w ⊎ WinsLeading t sources w)
        by_tier [] e [] ef =
            let (d, hd) = first_of-some source r mr in
            let (j, md) = contributions-complete first_of 0 d source sources m hd in
            absurd (rw ef at md)
        by_tier [] e (c ∷ cs) ef =
            let (w, p, top) = pick-IsTop c cs in (w, p, inr (leading c cs w e ef top))
        by_tier (c ∷ cs) e fallback ef =
            let (w, p, top) = pick-IsTop c cs in (w, p, inl (covered c cs w e top))
