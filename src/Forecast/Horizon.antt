-- ===== src/Forecast/Horizon.antt =====
-- The horizons: `compute_horizon_steps` and `compute_price_horizon_steps`.
use mimirheim.Prelude.{
  ℕ, ◌≤◌, ◌<◌, ◌≡◌, refl, ◌≢◌, ◌↔◌, inl, inr, Option, none, some, List, [], ◌∷◌, arith, In,
}
use mimirheim.Forecast.Ends.{
  Covers, IsMax, IsMin, Ends, From, max_of-IsMax, min_of-IsMin, Covers-Ends, steps_iff, last-From,
}
use mimirheim.Forecast.{
  max_of, min_of, last_ts_at_or_after, all_ends, known_ends, whole_steps, grid_time,
  compute_horizon_steps, compute_price_horizon_steps,
}

-- Some source covers `t`; some of the ends lies at or after `t`.
abbrev pub Covered : ℕ → List (List ℕ) → Type 0
Covered t sources = (s : List ℕ) × In s sources × Covers t s

abbrev Ending : ℕ → ℕ → List ℕ → Type 0
Ending start t ends = (e : ℕ) × In e ends × Ends start t (some e)

-- `known_ends` holds the last timestamps of the sources that have one.
known_ends_iff :
    (start t : ℕ) (sources : List (List ℕ))
    → start ≤ t
    → Covered t sources ↔ Ending start t (known_ends start sources)
unfolding known_ends
known_ends_iff start t [] h = (λ q. absurd q.1, λ q. absurd q.1)
known_ends_iff start t (s ∷ sources) h =
    known (last_ts_at_or_after s start) (Covers-Ends start t s h) (known_ends_iff start t sources h)
  where
    known :
        (o : Option ℕ)
        → Covers t s ↔ Ends start t o
        → Covered t sources ↔ Ending start t (known_ends start sources)
        → Covered t (s ∷ sources)
          ↔ Ending start t (elim o [
            | none ↦ known_ends start sources
            | some last ↦ last ∷ known_ends start sources
          ])
    known none q ih = (
      λ (s', m, c). elim m [ inl e ↦ absurd (q.0 (rw (← e) c)) | inr k ↦ ih.0 (s', k, c) ],
      λ p. let (s', m, c) = ih.1 p in (s', inr m, c),
    )
    known (some last) q ih = (
      λ (s', m, c). elim m [
        | inl e ↦ (last, inl refl, q.0 (rw (← e) c))
        | inr k ↦ let (e', m', c') = ih.0 (s', k, c) in (e', inr m', c')
      ],
      λ (e', m, c). elim m [
        | inl p ↦ (s, inl refl, q.1 (rw (← p) c))
        | inr k ↦ let (s', m', c') = ih.1 (e', k, c) in (s', inr m', c')
      ],
    )

known_ends_from :
    (start e : ℕ) (sources : List (List ℕ)) → In e (known_ends start sources) → start ≤ e
unfolding known_ends
known_ends_from start e [] m = absurd m
known_ends_from start e (s ∷ sources) m =
    from (last_ts_at_or_after s start) (last-From start s) m (known_ends_from start e sources)
  where
    from :
        (o : Option ℕ)
        → From start o
        → In e (elim o [
          | none ↦ known_ends start sources
          | some last ↦ last ∷ known_ends start sources
        ])
        → (In e (known_ends start sources) → start ≤ e)
        → start ≤ e
    from none q m ih = ih m
    from (some last) q (inl p) ih = rw p q
    from (some last) q (inr k) ih = ih k

price_horizon :
    (start n : ℕ) (ends : List ℕ) (o : Option ℕ)
    → 0 < n
    → IsMax ends o
    → ((e : ℕ) → In e ends → start ≤ e)
    → (n ≤ whole_steps start o) ↔ Ending start (grid_time start n) ends
unfolding whole_steps
price_horizon start n ends none h q from = (λ p. absurd (omega arith), λ (e, m, c). absurd (q e m))
price_horizon start n ends (some last) h q from =
    let b = steps_iff start last n (from last q.0) in
    (λ p. (last, q.0, (from last q.0, b.0 p)), λ (e, m, c). b.1 (omega (arith, q.1 e m, c.1)))

-- The price horizon reaches `n` steps, for a positive `n`, exactly if some source has a timestamp
-- at or after the end of the `n`-th step.
pub compute_price_horizon_steps_iff :
    (start n : ℕ) (sources : List (List ℕ))
    → 0 < n
    → (n ≤ compute_price_horizon_steps start sources) ↔ Covered (grid_time start n) sources
unfolding compute_price_horizon_steps
compute_price_horizon_steps_iff start n sources h =
    let ends = known_ends start sources in
    let a = known_ends_iff start (grid_time start n) sources (omega arith) in
    let b =
      price_horizon start n ends (max_of ends) h (max_of-IsMax ends)
        (λ e m. known_ends_from start e sources m) in
    (λ p. a.1 (b.0 p), λ c. b.1 (a.0 c))

-- What `all_ends` tells of the series.
abbrev EndsOf : ℕ → List (List ℕ) → Option (List ℕ) → Type 0
EndsOf start series none = (t : ℕ) → start ≤ t → ((s : List ℕ) → In s series → Covers t s) → ⊥
EndsOf start series (some ends) =
    (((e : ℕ) → In e ends → start ≤ e) × (ends ≡ [] → series ≡ []))
    × ((t : ℕ)
        → start ≤ t
        → ((s : List ℕ) → In s series → Covers t s) ↔ ((e : ℕ) → In e ends → t ≤ e))

all_ends-EndsOf : (start : ℕ) (series : List (List ℕ)) → EndsOf start series (all_ends start series)
unfolding all_ends
all_ends-EndsOf start [] =
    (((λ e m. absurd m), (λ p. refl)), λ t h. ((λ c e m. absurd m), (λ c s m. absurd m)))
all_ends-EndsOf start (s ∷ series) =
    add (last_ts_at_or_after s start) (all_ends start series) (λ t. Covers-Ends start t s)
      (last-From start s) (all_ends-EndsOf start series)
  where
    covers_all :
        (t last : ℕ) (ends : List ℕ)
        → start ≤ last
        → Covers t s ↔ Ends start t (some last)
        → ((s' : List ℕ) → In s' series → Covers t s') ↔ ((e : ℕ) → In e ends → t ≤ e)
        → ((s' : List ℕ) → In s' (s ∷ series) → Covers t s')
          ↔ ((e : ℕ) → In e (last ∷ ends) → t ≤ e)
    covers_all t last ends from q ih = (
      λ c e m. elim m [
        | inl p ↦ rw p ((q.0 (c s (inl refl))).1)
        | inr k ↦ ih.0 (λ s' m'. c s' (inr m')) e k
      ],
      λ c s' m. elim m [
        | inl p ↦ rw p (q.1 (from, c last (inl refl)))
        | inr k ↦ ih.1 (λ e m'. c e (inr m')) s' k
      ],
    )

    add :
        (o : Option ℕ) (rest : Option (List ℕ))
        → ((t : ℕ) → start ≤ t → Covers t s ↔ Ends start t o)
        → From start o
        → EndsOf start series rest
        → EndsOf start (s ∷ series) (elim o [
          | none ↦ none
          | some last ↦ elim rest [ none ↦ none | some ends ↦ some (last ∷ ends) ]
        ])
    add none rest q from ih = λ t h c. (q t h).0 (c s (inl refl))
    add (some last) none q from ih = λ t h c. ih t h (λ s' m. c s' (inr m))
    add (some last) (some ends) q from (ih, iff) = (
      ((λ e m. elim m [ inl p ↦ rw p from | inr k ↦ ih.0 e k ]), (λ p. cc)),
      λ t h. covers_all t last ends from (q t h) (iff t h),
    )

no_elements : (xs : List ℕ) → ((a : ℕ) → In a xs → ⊥) → xs ≡ []
no_elements [] h = refl
no_elements (x ∷ xs) h = absurd (h x (inl refl))

horizon :
    (start n : ℕ) (series : List (List ℕ)) (o : Option (List ℕ))
    → 0 < n
    → series ≢ []
    → EndsOf start series o
    → (n ≤ elim o [ none ↦ 0 | some ends ↦ whole_steps start (min_of ends) ])
      ↔ ((s : List ℕ) → In s series → Covers (grid_time start n) s)
unfolding whole_steps
horizon start n series none h ne q =
    (λ p. absurd (omega arith), λ c. absurd (q (grid_time start n) (omega arith) c))
horizon start n series (some ends) h ne ((from, empty), iff) =
    by_min (min_of ends) (min_of-IsMin ends) (iff (grid_time start n) (omega arith))
  where
    by_min :
        (o : Option ℕ)
        → IsMin ends o
        → ((s : List ℕ) → In s series → Covers (grid_time start n) s)
          ↔ ((e : ℕ) → In e ends → grid_time start n ≤ e)
        → (n ≤ whole_steps start o) ↔ ((s : List ℕ) → In s series → Covers (grid_time start n) s)
    by_min none q b = absurd (ne (empty (no_elements ends q)))
    by_min (some first) q b =
        let c = steps_iff start first n (from first q.0) in
        (λ p. b.1 (λ e m. omega (arith, q.1 e m, c.0 p)), λ covers. c.1 (b.0 covers first q.0))

-- The joint horizon of one or more series reaches `n` steps, for a positive `n`, exactly if every
-- series has a timestamp at or after the end of the `n`-th step.
pub compute_horizon_steps_iff :
    (start n : ℕ) (series : List (List ℕ))
    → 0 < n
    → series ≢ []
    → (n ≤ compute_horizon_steps start series)
      ↔ ((s : List ℕ) → In s series → Covers (grid_time start n) s)
unfolding compute_horizon_steps
compute_horizon_steps_iff start n series h ne =
    horizon start n series (all_ends start series) h ne (all_ends-EndsOf start series)
