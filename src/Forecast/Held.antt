-- ===== src/Forecast/Held.antt =====
-- Hold-previous lookup in a sorted series, and `resample_power`.
use mimirheim.Prelude.{
  ℕ, ◌≤◌, ◌<◌, ◌≡◌, refl, ap, ◌∙◌, ◌⊎◌, inl, inr, true, Option, none, some, List, [], ◌∷◌, leb,
  leb→le, leb-false→lt, arith, Bool-cases, In, All-In, length, length-map, get_elem?, get_elem?-map,
}
use mimirheim.Prelude.Float.{Float}
use mimirheim.Prelude.Sort.{sorted, Ordered, In_of-sorted, In-sorted, sorted-Ordered}
use mimirheim.Forecast.{
  PowerForecastStep, active_at, bracket, ts_le, power_ts, held_kw, grid_time, range_from,
  resample_power,
}
use mimirheim.Forecast.Grid.{length-range_from, get_elem?-range_from}

module _ {S : Type 0} (ts : S → ℕ) where
  -- `s` is a latest element at or before `t`.
  abbrev pub IsLatest : ℕ → List S → S → Type 0
  IsLatest t xs s = In s xs × (ts s ≤ t) × ((r : S) → In r xs → ts r ≤ t → ts r ≤ ts s)

  abbrev pub AllAfter : ℕ → List S → Type 0
  AllAfter t xs = (r : S) → In r xs → t < ts r

  -- What the search returns on every series.
  abbrev pub Found : ℕ → List S → Option S → Type 0
  Found t xs none = AllAfter t xs
  Found t xs (some s) = IsLatest t xs s

  pub first_le : (x r : S) (xs : List S) → Ordered (ts_le ts) (x ∷ xs) → In r (x ∷ xs) → ts x ≤ ts r
  first_le x r xs h (inl e) = rw e (omega arith)
  first_le x r xs h (inr m) = leb→le (ts x) (ts r) (All-In (λ y. ts_le ts x y ≡ true) r xs h.0 m)

  active_at_from :
      (t : ℕ) (a : S) (xs : List S)
      → Ordered (ts_le ts) (a ∷ xs)
      → ts a ≤ t
      → Found t (a ∷ xs) (active_at ts t xs (some a))
  unfolding active_at
  active_at_from t a [] h le =
      (inl refl, le, λ r m p. elim m [ inl e ↦ rw e (omega arith) | inr k ↦ absurd k ])
  active_at_from t a (x ∷ xs) h le = elim (Bool-cases (leb (ts x) t)) [
    | inl p ↦ rw p (
        widen (leb→le (ts x) t p) (active_at ts t xs (some x))
          (active_at_from t x xs h.1 (leb→le (ts x) t p)))
    | inr p ↦ rw p (
      inl refl,
      le,
      λ r m q. elim m [
        | inl e ↦ rw e (omega arith)
        | inr k ↦ absurd (omega (arith, first_le x r xs h.1 k, leb-false→lt (ts x) t p))
      ],
    )
  ]
    where
      widen : ts x ≤ t → (o : Option S) → Found t (x ∷ xs) o → Found t (a ∷ x ∷ xs) o
      widen l none q = absurd (omega (arith, q x (inl refl)))
      widen l (some s) (m, p, later) = (
        inr m,
        p,
        λ r k q. elim k [
          | inl e ↦ rw e (omega (arith, first_le a s (x ∷ xs) h (inr m)))
          | inr k' ↦ later r k' q
        ],
      )

  pub active_at-Found :
      (t : ℕ) (xs : List S) → Ordered (ts_le ts) xs → Found t xs (active_at ts t xs none)
  unfolding active_at
  active_at-Found t [] h = λ r m. absurd m
  active_at-Found t (x ∷ xs) h = elim (Bool-cases (leb (ts x) t)) [
    | inl p ↦ rw p (active_at_from t x xs h (leb→le (ts x) t p))
    | inr p ↦ rw p (λ r m. omega (arith, first_le x r xs h m, leb-false→lt (ts x) t p))
  ]

  -- `bracket` finds the same element before `t`, and after it the first one where none is before.
  bracket-before :
      (t : ℕ) (xs : List S) (o : Option S) → (bracket ts t xs o).0 ≡ active_at ts t xs o
  unfolding bracket active_at
  bracket-before t [] o = refl
  bracket-before t (x ∷ xs) o = ground (arith, bracket-before t xs (some x))

  -- `bracket` with nothing before `t`: the element after it is the first one
  bracket-after :
      (t : ℕ) (x : S) (xs : List S)
      → AllAfter t (x ∷ xs)
      → bracket ts t (x ∷ xs) none ≡ (none, some x)
  unfolding bracket
  bracket-after t x xs h = ground (arith, h x (inl refl))

module _ {F : Type 0} ⦃f : Float F⦄ where
  -- The value of the latest step at or before `t`; before every step that of an earliest one; and
  -- zero where there is no step at all.
  abbrev pub IsEarliest : List (PowerForecastStep F) → F → Type 0
  IsEarliest steps v =
      (s : PowerForecastStep F) × In s steps
      × ((r : PowerForecastStep F) → In r steps → s.ts ≤ r.ts)
      × (v ≡ s.kw)

  abbrev pub HoldsAt : ℕ → List (PowerForecastStep F) → F → Type 0
  HoldsAt t steps v =
      ((s : PowerForecastStep F) × IsLatest power_ts t steps s × (v ≡ s.kw))
      ⊎ ((AllAfter power_ts t steps × IsEarliest steps v) ⊎ ((steps ≡ []) × (v ≡ f.nil)))

  held_before :
      (s : PowerForecastStep F) (o : Option (PowerForecastStep F)) → held_kw (some s, o) ≡ s.kw
  unfolding held_kw
  held_before s none = refl
  held_before s (some a) = refl

  HoldsAt-bracket :
      (t : ℕ) (xs : List (PowerForecastStep F))
      → Ordered (ts_le power_ts) xs
      → HoldsAt t xs (held_kw (bracket power_ts t xs none))
  unfolding held_kw bracket
  HoldsAt-bracket t [] h = inr (inr (refl, refl))
  HoldsAt-bracket t (x ∷ xs) h =
      by_found (active_at power_ts t (x ∷ xs) none) (active_at-Found power_ts t (x ∷ xs) h)
        (bracket power_ts t (x ∷ xs) none) (bracket-before power_ts t (x ∷ xs) none)
        (bracket-after power_ts t x xs)
    where
      by_found :
          (o : Option (PowerForecastStep F))
          → Found power_ts t (x ∷ xs) o
          → (p : Option (PowerForecastStep F) × Option (PowerForecastStep F)) → p.0 ≡ o
          → (AllAfter power_ts t (x ∷ xs) → p ≡ (none, some x))
          → HoldsAt t (x ∷ xs) (held_kw p)
      by_found none q p e g =
          inr (inl (q, (x, inl refl, (λ r m. first_le power_ts x r xs h m), ap held_kw (g q))))
      by_found (some s) q p e g = inl (s, q, ap (λ b. held_kw (b, p.1)) e ∙ held_before s p.1)

  no_step : (steps : List (PowerForecastStep F)) → sorted (ts_le power_ts) steps ≡ [] → steps ≡ []
  no_step [] e = refl
  no_step (x ∷ xs) e = absurd (rw e at (In-sorted (ts_le power_ts) x (x ∷ xs) (inl refl)))

  HoldsAt-of-sorted :
      (t : ℕ) (v : F) (steps : List (PowerForecastStep F))
      → HoldsAt t (sorted (ts_le power_ts) steps) v
      → HoldsAt t steps v
  HoldsAt-of-sorted t v steps (inl (s, (m, p, later), e)) = inl (
    s,
    (
      In_of-sorted (ts_le power_ts) s steps m,
      p,
      λ r k q. later r (In-sorted (ts_le power_ts) r steps k) q,
    ),
    e,
  )
  HoldsAt-of-sorted t v steps (inr (inl (after, (s, m, first, e)))) = inr (
      inl (
        (λ r k. after r (In-sorted (ts_le power_ts) r steps k)),
        (
          s,
          In_of-sorted (ts_le power_ts) s steps m,
          (λ r k. first r (In-sorted (ts_le power_ts) r steps k)),
          e,
        ),
      ))
  HoldsAt-of-sorted t v steps (inr (inr (empty, e))) = inr (inr (no_step steps empty, e))

  pub length-resample_power :
      (steps : List (PowerForecastStep F)) (start n : ℕ) → length (resample_power steps start n) ≡ n
  unfolding resample_power
  length-resample_power steps start n =
      length-map
        (λ i. held_kw (bracket power_ts (grid_time start i) (sorted (ts_le power_ts) steps) none))
        (range_from 0 n)
      ∙ length-range_from 0 n

  -- The result has one value for each step. The value of step `i` is that of the latest forecast
  -- step at or before its start; if all forecast steps are later it is that of an earliest one;
  -- without any forecast step it is zero.
  pub resample_power_held :
      (steps : List (PowerForecastStep F)) (start n i : ℕ)
      → i < n
      → (length (resample_power steps start n) ≡ n)
        × ((v : F) × (get_elem? (resample_power steps start n) i ≡ some v)
            × HoldsAt (grid_time start i) steps v)
  unfolding resample_power
  resample_power_held steps start n i h =
      let xs = sorted (ts_le power_ts) steps in
      let value = λ (k : ℕ). held_kw (bracket power_ts (grid_time start k) xs none) in
      (
        length-resample_power steps start n,
        (
          value i,
          get_elem?-map value (range_from 0 n) i
              (get_elem?-range_from 0 n i h ∙ ap (λ (k : ℕ). some k) (omega arith)),
          HoldsAt-of-sorted (grid_time start i) (value i) steps (
              HoldsAt-bracket (grid_time start i) xs (
                sorted-Ordered (ts_le power_ts) (λ x y. ground arith) (λ x y z p q. ground arith)
                  steps)),
        ),
      )
