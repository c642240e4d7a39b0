-- ===== src/Forecast/Ends.antt =====
-- The last timestamp of a series, as `max` and `min` over timestamps give it.
use mimirheim.Prelude.{
  ℕ, ◌-◌, ◌/◌, ◌≤◌, refl, ◌↔◌, inl, inr, Option, none, some, List, [], ◌∷◌, leb, ltb, le→leb,
  leb→le, arith, tests, Bool-cases, filter, In, In-filter, In_of-filter,
}
use mimirheim.Forecast.{
  larger, smaller, max_of, min_of, last_ts_at_or_after, step_duration, grid_time,
}

-- The series has an element at or after `t`.
abbrev pub Covers : ℕ → List ℕ → Type 0
Covers t series = (ts : ℕ) × In ts series × (t ≤ ts)

-- what `max(xs)` returns
abbrev pub IsMax : List ℕ → Option ℕ → Type 0
IsMax xs none = (a : ℕ) → In a xs → ⊥
IsMax xs (some m) = In m xs × ((a : ℕ) → In a xs → a ≤ m)

larger-IsMax : (x : ℕ) (xs : List ℕ) (o : Option ℕ) → IsMax xs o → IsMax (x ∷ xs) (larger x o)
larger-IsMax x xs none h =
    (inl refl, λ a k. elim k [ inl e ↦ omega arith | inr k' ↦ absurd (h a k') ])
larger-IsMax x xs (some m) (k, h) = elim (Bool-cases (ltb x m)) [
  | inl e ↦ rw e (inr k, λ a l. elim l [ inl p ↦ omega (tests, e) | inr l' ↦ h a l' ])
  | inr e ↦ rw e (inl refl, λ a l. elim l [ inl p ↦ omega arith | inr l' ↦ ground (arith, h a l') ])
]

pub max_of-IsMax : (xs : List ℕ) → IsMax xs (max_of xs)
unfolding max_of
max_of-IsMax [] = λ a m. m
max_of-IsMax (x ∷ xs) = larger-IsMax x xs (max_of xs) (max_of-IsMax xs)

-- what `min(xs)` returns
abbrev pub IsMin : List ℕ → Option ℕ → Type 0
IsMin xs none = (a : ℕ) → In a xs → ⊥
IsMin xs (some m) = In m xs × ((a : ℕ) → In a xs → m ≤ a)

smaller-IsMin : (x : ℕ) (xs : List ℕ) (o : Option ℕ) → IsMin xs o → IsMin (x ∷ xs) (smaller x o)
smaller-IsMin x xs none h =
    (inl refl, λ a k. elim k [ inl e ↦ omega arith | inr k' ↦ absurd (h a k') ])
smaller-IsMin x xs (some m) (k, h) = elim (Bool-cases (ltb m x)) [
  | inl e ↦ rw e (inr k, λ a l. elim l [ inl p ↦ omega (tests, e) | inr l' ↦ h a l' ])
  | inr e ↦ rw e (inl refl, λ a l. elim l [ inl p ↦ omega arith | inr l' ↦ ground (arith, h a l') ])
]

pub min_of-IsMin : (xs : List ℕ) → IsMin xs (min_of xs)
unfolding min_of
min_of-IsMin [] = λ a m. m
min_of-IsMin (x ∷ xs) = smaller-IsMin x xs (min_of xs) (min_of-IsMin xs)

-- A series covers a time from the threshold on exactly if its last timestamp does.
abbrev pub Ends : ℕ → ℕ → Option ℕ → Type 0
Ends start t none = ⊥
Ends start t (some last) = (start ≤ last) × (t ≤ last)

pub Covers-Ends :
    (start t : ℕ) (s : List ℕ) → start ≤ t → Covers t s ↔ Ends start t (last_ts_at_or_after s start)
unfolding last_ts_at_or_after
Covers-Ends start t s h =
    by_max (max_of (filter (leb start) s)) (max_of-IsMax (filter (leb start) s))
  where
    by_max : (o : Option ℕ) → IsMax (filter (leb start) s) o → Covers t s ↔ Ends start t o
    by_max none g =
        (λ (ts, m, le). g ts (In-filter (leb start) ts s m (le→leb start ts (omega arith))), absurd)
    by_max (some last) (k, g) =
        let (m, p) = In_of-filter (leb start) last s k in
        (
          λ (ts, n, le). (
            leb→le start last p,
            omega (arith, g ts (In-filter (leb start) ts s n (le→leb start ts (omega arith)))),
          ),
          λ q. (last, m, q.1),
        )

pub steps_iff :
    (start last n : ℕ)
    → start ≤ last
    → (n ≤ (last - start) / step_duration) ↔ (grid_time start n ≤ last)
steps_iff start last n h = (λ p. omega arith, λ p. omega arith)

abbrev pub From : ℕ → Option ℕ → Type 0
From start none = Unit
From start (some last) = start ≤ last

pub last-From : (start : ℕ) (s : List ℕ) → From start (last_ts_at_or_after s start)
unfolding last_ts_at_or_after
last-From start s = from (max_of (filter (leb start) s)) (max_of-IsMax (filter (leb start) s))
  where
    from : (o : Option ℕ) → IsMax (filter (leb start) s) o → From start o
    from none q = tt
    from (some last) q = leb→le start last (In_of-filter (leb start) last s q.0).1
