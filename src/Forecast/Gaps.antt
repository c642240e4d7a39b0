-- ===== src/Forecast/Gaps.antt =====
-- `find_gaps`: exactly the wide gaps between neighbouring timestamps.
use mimirheim.Prelude.{
  ℕ, ◌-◌, ◌≤◌, ◌<◌, ◌≡◌, refl, ap, ◌↔◌, ◌⊎◌, inl, inr, Bool, true, false, ◌&&◌, List, [], ◌∷◌, leb,
  ltb, leb→le, lt→ltb, tests, arith, Bool-cases, filter, In, All-In, In-filter, In_of-filter,
  if◌then◌else◌,
}
use mimirheim.Prelude.Sort.{sorted, Ordered, In_of-sorted, In-sorted, sorted-Ordered}
use mimirheim.Forecast.{gaps_between, find_gaps}

-- No timestamp of the series lies strictly between `a` and `b`.
abbrev pub Clear : ℕ → ℕ → List ℕ → Type 0
Clear a b series = (c : ℕ) → In c series → (c ≤ a) ⊎ (b ≤ c)

above_head : (x c : ℕ) (xs : List ℕ) → Ordered leb (x ∷ xs) → In c (x ∷ xs) → x ≤ c
above_head x c xs h (inl e) = omega arith
above_head x c xs h (inr m) = leb→le x c (All-In (λ y. leb x y ≡ true) c xs h.0 m)

gaps_between_sound :
    (max_gap a b : ℕ) (xs : List ℕ)
    → Ordered leb xs
    → In (a, b) (gaps_between max_gap xs)
    → In a xs × In b xs × (max_gap < b - a) × Clear a b xs
unfolding gaps_between
gaps_between_sound g a b [] h m = absurd m
gaps_between_sound g a b (x ∷ []) h m = absurd m
gaps_between_sound g a b (x ∷ y ∷ r) h m = elim (Bool-cases (ltb g (y - x))) [
  | inl wide ↦ head wide (rw wide at m) (gaps_between_sound g a b (y ∷ r) h.1)
  | inr narrow ↦ later (gaps_between_sound g a b (y ∷ r) h.1 (rw narrow at m))
]
  where
    later :
        In a (y ∷ r) × In b (y ∷ r) × (g < b - a) × Clear a b (y ∷ r)
        → In a (x ∷ y ∷ r) × In b (x ∷ y ∷ r) × (g < b - a) × Clear a b (x ∷ y ∷ r)
    later (ma, mb, w, clear) = (
      inr ma,
      inr mb,
      w,
      λ c k. elim k [
        | inl e ↦ inl (omega (arith, above_head x a (y ∷ r) h (inr ma)))
        | inr k' ↦ clear c k'
      ],
    )

    head :
        ltb g (y - x) ≡ true
        → ◌≡◌ {A = ℕ × ℕ} (a, b) (x, y) ⊎ In (a, b) (gaps_between g (y ∷ r))
        → (In (a, b) (gaps_between g (y ∷ r))
            → In a (y ∷ r) × In b (y ∷ r) × (g < b - a) × Clear a b (y ∷ r))
        → In a (x ∷ y ∷ r) × In b (x ∷ y ∷ r) × (g < b - a) × Clear a b (x ∷ y ∷ r)
    head wide (inr k) ih = later (ih k)
    head wide (inl e) ih =
        let ea : a ≡ x = ap (λ (p : ℕ × ℕ). p.0) e in
        let eb : b ≡ y = ap (λ (p : ℕ × ℕ). p.1) e in
        (
          inl ea,
          inr (inl eb),
          omega (tests, wide),
          λ c k. elim k [
            | inl p ↦ inl (omega arith)
            | inr k' ↦ inr (omega (arith, above_head y c r h.1 k'))
          ],
        )

In-cons_if :
    {A : Type 0} (a x : A) (xs : List A) (b : Bool) → In a xs → In a (if b then x ∷ xs else xs)
In-cons_if a x xs true m = inr m
In-cons_if a x xs false m = m

gaps_between_complete :
    (max_gap a b : ℕ) (xs : List ℕ)
    → Ordered leb xs
    → In a xs
    → In b xs
    → max_gap < b - a
    → Clear a b xs
    → In (a, b) (gaps_between max_gap xs)
unfolding gaps_between
gaps_between_complete g a b [] h ma mb w clear = absurd ma
gaps_between_complete g a b (x ∷ []) h (inl e) (inl e') w clear = absurd (omega arith)
gaps_between_complete g a b (x ∷ []) h (inl e) (inr m) w clear = absurd m
gaps_between_complete g a b (x ∷ []) h (inr m) mb w clear = absurd m
gaps_between_complete g a b (x ∷ y ∷ r) h ma (inl e) w clear =
    absurd (omega (arith, above_head x a (y ∷ r) h ma))
gaps_between_complete g a b (x ∷ y ∷ r) h (inl e) (inr mb) w clear =
    neighbour (clear y (inr (inl refl)))
      (λ p. gaps_between_complete g a b (y ∷ r) h.1 (inl p) mb w (λ c m. clear c (inr m)))
  where
    here :
        b ≡ y
        → In
            (a, b)
            (if ltb g (y - x) then (x, y) ∷ gaps_between g (y ∷ r) else gaps_between g (y ∷ r))
    here q =
        let wide : ltb g (y - x) ≡ true = lt→ltb g (y - x) (omega arith) in
        rw wide (inl (λ i. (e i, q i)))

    neighbour :
        (y ≤ a) ⊎ (b ≤ y)
        → (a ≡ y → In (a, b) (gaps_between g (y ∷ r)))
        → In
            (a, b)
            (if ltb g (y - x) then (x, y) ∷ gaps_between g (y ∷ r) else gaps_between g (y ∷ r))
    neighbour (inl p) ih =
        In-cons_if (a, b) (x, y) (gaps_between g (y ∷ r)) (ltb g (y - x))
          (ih (omega (arith, above_head x y (y ∷ r) h (inr (inl refl)))))
    neighbour (inr p) ih = here (omega (arith, above_head y b r h.1 mb))
gaps_between_complete g a b (x ∷ y ∷ r) h (inr ma) (inr mb) w clear =
    In-cons_if (a, b) (x, y) (gaps_between g (y ∷ r)) (ltb g (y - x))
      (gaps_between_complete g a b (y ∷ r) h.1 ma mb w (λ c m. clear c (inr m)))

-- the timestamps that `find_gaps` walks over
abbrev window : ℕ → ℕ → List ℕ → List ℕ
window start end series = sorted leb (filter (λ ts. leb start ts && leb ts end) series)

window-Ordered : (start end : ℕ) (series : List ℕ) → Ordered leb (window start end series)
window-Ordered start end series =
    sorted-Ordered leb (λ x y. ground arith) (λ x y z p q. ground arith)
      (filter (λ ts. leb start ts && leb ts end) series)

In-window :
    (start end c : ℕ) (series : List ℕ)
    → In c (window start end series) ↔ (In c series × (start ≤ c) × (c ≤ end))
In-window start end c series = (
  λ m. inside (
      In_of-filter (λ ts. leb start ts && leb ts end) c series
        (In_of-sorted leb c (filter (λ ts. leb start ts && leb ts end) series) m)),
  λ (m, p, q).
      In-sorted leb c (filter (λ ts. leb start ts && leb ts end) series)
        (In-filter (λ ts. leb start ts && leb ts end) c series m (ground arith)),
)
  where
    inside :
        In c series × ((leb start c && leb c end) ≡ true) → In c series × (start ≤ c) × (c ≤ end)
    inside (m, p) = (m, ground arith, ground arith)

-- A pair is reported exactly if both ends are timestamps of the series inside the window, the
-- second is later than the first by more than the limit, and no timestamp lies between them.
pub find_gaps_iff :
    (series : List ℕ) (start end max_gap a b : ℕ)
    → In (a, b) (find_gaps series start end max_gap) ↔ (
        (In a series × (start ≤ a) × (a ≤ end))
        × (In b series × (start ≤ b) × (b ≤ end))
        × (max_gap < b - a)
        × ((c : ℕ) → In c series → (c ≤ a) ⊎ (b ≤ c)))
unfolding find_gaps
find_gaps_iff series start end max_gap a b = (
  λ m.
      let (ma, mb, w, clear) =
        gaps_between_sound max_gap a b (window start end series) (window-Ordered start end series)
          m in
      let wa = (In-window start end a series).0 ma in
      let wb = (In-window start end b series).0 mb in
      (wa, wb, w, λ c k. outside c k wa.1 wb.2 clear),
  λ (wa, wb, w, clear).
      gaps_between_complete max_gap a b (window start end series) (window-Ordered start end series)
        ((In-window start end a series).1 wa) ((In-window start end b series).1 wb) w
        (λ c k. clear c ((In-window start end c series).0 k).0),
)
  where
    outside :
        (c : ℕ)
        → In c series
        → start ≤ a
        → b ≤ end
        → Clear a b (window start end series)
        → (c ≤ a) ⊎ (b ≤ c)
    outside c k la lb clear = elim (Bool-cases (leb start c && leb c end)) [
      | inl p ↦ clear c ((In-window start end c series).1 (k, ground arith, ground arith))
      | inr p ↦ ground arith
    ]
