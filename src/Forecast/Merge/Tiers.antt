-- ===== src/Forecast/Merge/Tiers.antt =====
-- The tier of real coverage: which sources contribute which step.
use mimirheim.Prelude.{
  ℕ, ◌+◌, ◌≤◌, ◌≡◌, refl, ◌∙◌, ap, sym, inl, inr, Option, none, some, List, [], ◌∷◌, map, leb,
  leb→le, leb-false→lt, arith, Bool-cases, In, last?, if◌then◌else◌,
}
use mimirheim.Prelude.Float.{Float}
use mimirheim.Prelude.Sort.{sorted, Ordered, In_of-sorted, In-sorted, sorted-Ordered}
use mimirheim.Forecast.{PriceStep, active_at, ts_le, price_ts}
use mimirheim.Forecast.Held.{IsLatest, Found, first_le, active_at-Found}
use mimirheim.Forecast.Merge.{Candidate, source_step, contributions}

module _ {F : Type 0} ⦃f : Float F⦄ where
  -- The source has a step at or before `t` and one at or after it.
  abbrev pub IsCovering : ℕ → List (PriceStep F) → PriceStep F → Type 0
  IsCovering t source c =
      IsLatest price_ts t source c × ((r : PriceStep F) × In r source × (t ≤ r.ts))

  -- the last step of a sorted source is its latest
  last_is_latest :
      (source : List (PriceStep F)) {last : PriceStep F}
      → Ordered (ts_le price_ts) source
      → last? source ≡ some last
      → In last source × ((r : PriceStep F) → In r source → r.ts ≤ last.ts)
  last_is_latest [] h e = cc
  last_is_latest (x ∷ []) {last} h e =
      let p : last ≡ x = cc in
      (
        inl p,
        λ r m. elim m [ inl q ↦ ground (arith, ap price_ts p, ap price_ts q) | inr k ↦ absurd k ],
      )
  last_is_latest (x ∷ y ∷ r) {last} h e =
      let (m, q) = last_is_latest (y ∷ r) h.1 e in
      (
        inr m,
        λ s k. elim k [
          | inl p ↦ ground (arith, ap price_ts p, first_le price_ts x last (y ∷ r) h (inr m))
          | inr k' ↦ q s k'
        ],
      )

  some_last : (a : PriceStep F) (xs : List (PriceStep F)) → last? xs ≡ none → In a xs → ⊥
  some_last a [] e m = m
  some_last a (x ∷ []) e m = cc
  some_last a (x ∷ y ∷ r) e m = some_last y (y ∷ r) e (inl refl)

  abbrev pub prepare : List (PriceStep F) → List (PriceStep F)
  prepare = sorted (ts_le price_ts)

  pub prepare-Ordered : (source : List (PriceStep F)) → Ordered (ts_le price_ts) (prepare source)
  prepare-Ordered source =
      sorted-Ordered (ts_le price_ts) (λ x y. ground arith) (λ x y z p q. ground arith) source

  -- A source contributes a step exactly if it covers `t`.
  abbrev pub Contributes : ℕ → List (PriceStep F) → Option (PriceStep F) → Type 0
  Contributes t source none = (c : PriceStep F) → IsCovering t source c → ⊥
  Contributes t source (some c) = IsCovering t source c

  pub source_step-Contributes :
      (t : ℕ) (source : List (PriceStep F)) → Contributes t source (source_step t (prepare source))
  unfolding source_step
  source_step-Contributes t source =
      by_active (active_at price_ts t (prepare source) none)
        (active_at-Found price_ts t (prepare source) (prepare-Ordered source))
    where
      by_last :
          (a : PriceStep F) (l : Option (PriceStep F))
          → IsLatest price_ts t (prepare source) a
          → last? (prepare source) ≡ l
          → Contributes t source
              (elim l [ none ↦ none | some last ↦ if leb t last.ts then some a else none ])
      by_last a none (m, p, later) e = λ c h. absurd (some_last a (prepare source) e m)
      by_last a (some last) (m, p, later) e =
          let (ml, top) = last_is_latest (prepare source) (prepare-Ordered source) e in
          elim (Bool-cases (leb t last.ts)) [
            | inl h ↦ rw h (
              (
                In_of-sorted (ts_le price_ts) a source m,
                p,
                λ r k q. later r (In-sorted (ts_le price_ts) r source k) q,
              ),
              (last, In_of-sorted (ts_le price_ts) last source ml, leb→le t last.ts h),
            )
            | inr h ↦ rw h (λ c (k, (r, mr, q)). absurd (
                omega (
                  arith,
                  top r (In-sorted (ts_le price_ts) r source mr),
                  leb-false→lt t last.ts h,
                )))
          ]

      by_active :
          (o : Option (PriceStep F))
          → Found price_ts t (prepare source) o
          → Contributes t source (elim o [
            | none ↦ none
            | some active ↦ elim (last? (prepare source)) [
              | none ↦ none
              | some last ↦ if leb t last.ts then some active else none
            ]
          ])
      by_active none q = λ c ((m, p, later), r).
          absurd (omega (arith, q c (In-sorted (ts_le price_ts) c source m)))
      by_active (some a) q = by_last a (last? (prepare source)) q refl

  -- Every contribution comes from a source, and every source's contribution is there.
  module _ (step : List (PriceStep F) → Option (PriceStep F)) where
    abbrev pub From : List (List (PriceStep F)) → PriceStep F → Type 0
    From sources c =
        (source : List (PriceStep F)) × In source sources × (step (prepare source) ≡ some c)

    pub contributions_sound :
        (idx i : ℕ) (c : PriceStep F) (sources : List (List (PriceStep F)))
        → In (i, c) (contributions step idx (map prepare sources))
        → From sources c
    unfolding contributions
    contributions_sound idx i c [] m = absurd m
    contributions_sound idx i c (source ∷ sources) m =
        by_step (step (prepare source)) refl m (contributions_sound (idx + 1) i c sources)
      where
        by_step :
            (o : Option (PriceStep F))
            → step (prepare source) ≡ o
            → In
                (i, c)
                (elim o [
                  | none ↦ contributions step (idx + 1) (map prepare sources)
                  | some s ↦ (idx, s) ∷ contributions step (idx + 1) (map prepare sources)
                ])
            → (In (i, c) (contributions step (idx + 1) (map prepare sources)) → From sources c)
            → From (source ∷ sources) c
        by_step none q k ih = let (s, ms, h) = ih k in (s, inr ms, h)
        by_step (some a) q (inl e) ih =
            (source, inl refl, q ∙ ap (λ (p : Candidate F). some p.1) (sym e))
        by_step (some a) q (inr k) ih = let (s, ms, h) = ih k in (s, inr ms, h)

    pub contributions-complete :
        (idx : ℕ) (c : PriceStep F) (source : List (PriceStep F))
        (sources : List (List (PriceStep F)))
        → In source sources
        → step (prepare source) ≡ some c
        → (i : ℕ) × In (i, c) (contributions step idx (map prepare sources))
    unfolding contributions
    contributions-complete idx c source [] m h = absurd m
    contributions-complete idx c source (s ∷ sources) (inl e) h =
        let h' : step (prepare s) ≡ some c = rw (← e) h in (idx, rw h' (inl refl))
    contributions-complete idx c source (s ∷ sources) (inr k) h =
        let (i, m) = contributions-complete (idx + 1) c source sources k h in
        (i, past (step (prepare s)) i m)
      where
        past :
            (o : Option (PriceStep F)) (i : ℕ)
            → In (i, c) (contributions step (idx + 1) (map prepare sources))
            → In
                (i, c)
                (elim o [
                  | none ↦ contributions step (idx + 1) (map prepare sources)
                  | some a ↦ (idx, a) ∷ contributions step (idx + 1) (map prepare sources)
                ])
        past none i m = m
        past (some a) i m = inr m
