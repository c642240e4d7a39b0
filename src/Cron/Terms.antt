-- ===== src/Cron/Terms.antt =====
-- Which days a weekday field denotes, term by term.
use mathlib.Core.Path.{subst}
use mimirheim.Prelude.{
  ℕ, zero, suc, ◌+◌, ◌-◌, ◌*◌, ◌≤◌, ◌≡◌, refl, sym, ap, ◌∙◌, inl, inr, ◌⊎◌, Bool, false, not, ◌||◌,
  Option, none, some, some_inj, List, [], ◌∷◌, ◌++◌, In, arith, Bool-cases, leb, ltb, le→leb, ◌>>=◌,
}
use mimirheim.Prelude.Text.{Text, strip, contains, isdigit, int, partition}
use mimirheim.Cron.{slash, parse_step, bounds, range_step, read_term, expand_term, expand_terms}

-- The days of a term as it is read: from its first to its last in its steps.
abbrev pub Covers : Text → ℕ → Type 0
Covers term k =
    (first : ℕ) × (last : ℕ) × (step : ℕ) × (j : ℕ) × (read_term term ≡ some (first, last, step))
    × (k ≡ first + j * step)
    × (k ≤ last)

In_of-range_step :
    (fuel first last step k : ℕ)
    → In k (range_step fuel first last step)
    → (j : ℕ) × (k ≡ first + j * step) × (k ≤ last)
unfolding range_step
In_of-range_step zero first last step k m = absurd m
In_of-range_step (suc fuel) first last step k m = elim (Bool-cases (leb first last)) [
  | inr out ↦ absurd (rw out at m)
  | inl within ↦ elim (rw within at m) [
    | inl e ↦ (0, omega (arith, e), ground arith)
    | inr n ↦
        let (j, e, l) = In_of-range_step fuel (first + step) last step k n in
        (suc j, omega (arith, e), l)
  ]
]

In-range_step :
    (fuel first last step k j : ℕ)
    → 1 ≤ step
    → k ≡ first + j * step
    → k ≤ last
    → suc last - first ≤ fuel
    → In k (range_step fuel first last step)
unfolding range_step
In-range_step zero first last step k j p e l enough = absurd (omega (arith, e))
In-range_step (suc fuel) first last step k zero p e l enough =
    rw (le→leb first last (omega (arith, e))) (inl (omega (arith, e)))
In-range_step (suc fuel) first last step k (suc j) p e l enough =
    rw (le→leb first last (omega (arith, e))) (
      inr (
        In-range_step fuel (first + step) last step k j p (omega (arith, e)) l
          (omega (arith, enough, p))))

-- a step is positive
parse_step-positive : (term base : Text) (step : ℕ) → parse_step term ≡ some (base, step) → 1 ≤ step
unfolding parse_step
parse_step-positive term base step h = elim (Bool-cases (contains slash term)) [
  | inr c ↦ let e = rw c at h in one (some_inj e)
  | inl c ↦ elim (Bool-cases (contains slash (partition slash term).1)) [
    | inl d ↦ let e = rw (c, d) at h in cc
    | inr d ↦
        elim (Bool-cases
          (not (isdigit (partition slash term).1) || ltb (int (partition slash term).1) 1)) [
            | inl g ↦ let e = rw (c, d, g) at h in cc
            | inr g ↦
                let e = rw (c, d, g) at h in
                given (not (isdigit (partition slash term).1)) (int (partition slash term).1) g
                  (some_inj e)
          ]
  ]
]
  where
    one : {t : Text} → ◌≡◌ {A = Text × ℕ} (t, 1) (base, step) → 1 ≤ step
    one e = subst (λ n. 1 ≤ n) (ap (λ (p : Text × ℕ). p.1) e) (omega arith)

    given :
        {t : Text} (b : Bool) (n : ℕ)
        → (b || ltb n 1) ≡ false
        → ◌≡◌ {A = Text × ℕ} (t, n) (base, step)
        → 1 ≤ step
    given b n g e = subst (λ n. 1 ≤ n) (ap (λ (p : Text × ℕ). p.1) e) (ground arith)

-- What a term that is read consists of.
pub read_term-parts :
    (term : Text) (first last step : ℕ)
    → read_term term ≡ some (first, last, step)
    → (base : Text) × (parse_step term ≡ some (base, step))
      × (bounds (strip base) ≡ some (first, last))
unfolding read_term
read_term-parts term first last step h = with_parts (parse_step term) h
  where
    with_bounds :
        (base : Text) (n : ℕ) (o : Option (ℕ × ℕ))
        → ◌>>=◌ {B = ℕ × ℕ × ℕ} o (λ q. some (q.0, q.1, n)) ≡ some (first, last, step)
        → ◌≡◌ {A = Option (Text × ℕ)} (some (base, n)) (some (base, step))
          × (o ≡ some (first, last))
    with_bounds base n none g = cc
    with_bounds base n (some (a, b)) g = (
      ap (λ (p : ℕ × ℕ × ℕ). some (base, p.2)) (some_inj g),
      ap (λ (p : ℕ × ℕ × ℕ). some (p.0, p.1)) (some_inj g),
    )

    with_parts :
        (o : Option (Text × ℕ))
        → ◌>>=◌ {B = ℕ × ℕ × ℕ} o
            (λ p. ◌>>=◌ {B = ℕ × ℕ × ℕ} (bounds (strip p.0)) (λ q. some (q.0, q.1, p.1)))
          ≡ some (first, last, step)
        → (base : Text) × (o ≡ some (base, step)) × (bounds (strip base) ≡ some (first, last))
    with_parts none g = cc
    with_parts (some (base, n)) g =
        let (e, q) = with_bounds base n (bounds (strip base)) g in (base, e, q)

read_term-positive :
    (term : Text) (first last step : ℕ) → read_term term ≡ some (first, last, step) → 1 ≤ step
read_term-positive term first last step h =
    let (base, e, q) = read_term-parts term first last step h in
    parse_step-positive term base step e

-- The expansion of a term is what it covers.
pub expand_term-Covers :
    (term : Text) (days : List ℕ) (k : ℕ)
    → expand_term term ≡ some days
    → (In k days → Covers term k) × (Covers term k → In k days)
unfolding expand_term
expand_term-Covers term days k h = with_range (read_term term) refl h
  where
    with_range :
        (o : Option (ℕ × ℕ × ℕ))
        → read_term term ≡ o
        → (o >>= λ r. some (range_step (suc r.1 - r.0) r.0 r.1 r.2)) ≡ some days
        → (In k days → Covers term k) × (Covers term k → In k days)
    with_range none e g = cc
    with_range (some (first, last, step)) e g = (
      λ m.
          let (j, q, l) =
            In_of-range_step (suc last - first) first last step k
              (subst (In k) (sym (some_inj g)) m) in
          (first, last, step, j, e, q, l),
      λ (first2, last2, step2, j, e2, q, l).
          let same : (first, last, step) ≡ (first2, last2, step2) = some_inj (sym e ∙ e2) in
          let q2 : k ≡ first + j * step =
            subst (λ (r : ℕ × ℕ × ℕ). k ≡ r.0 + j * r.2) (sym same) q in
          let l2 : k ≤ last = subst (λ (r : ℕ × ℕ × ℕ). k ≤ r.1) (sym same) l in
          subst (In k) (some_inj g) (
            In-range_step (suc last - first) first last step k j
              (read_term-positive term first last step e) q2 l2 (omega arith)),
    )

In-append : (k : ℕ) (xs ys : List ℕ) → In k (xs ++ ys) → In k xs ⊎ In k ys
In-append k [] ys m = inr m
In-append k (x ∷ xs) ys (inl e) = inl (inl e)
In-append k (x ∷ xs) ys (inr m) = elim (In-append k xs ys m) [ inl i ↦ inl (inr i) | inr i ↦ inr i ]

In_left-append : (k : ℕ) (xs ys : List ℕ) → In k xs → In k (xs ++ ys)
In_left-append k [] ys m = absurd m
In_left-append k (x ∷ xs) ys (inl e) = inl e
In_left-append k (x ∷ xs) ys (inr m) = inr (In_left-append k xs ys m)

In_right-append : (k : ℕ) (xs ys : List ℕ) → In k ys → In k (xs ++ ys)
In_right-append k [] ys m = m
In_right-append k (x ∷ xs) ys m = inr (In_right-append k xs ys m)

-- A term of the list that covers the day.
abbrev pub Covered : List Text → ℕ → Type 0
Covered terms k = (term : Text) × In term terms × Covers term k

pub expand_terms-Covered :
    (terms : List Text) (days : List ℕ) (k : ℕ)
    → expand_terms terms ≡ some days
    → (In k days → Covered terms k) × (Covered terms k → In k days)
unfolding expand_terms
expand_terms-Covered [] days k h =
    (λ m. absurd (subst (In k) (sym (some_inj h)) m), λ (t, m, c). absurd m)
expand_terms-Covered (term ∷ terms) days k h =
    union (expand_term term) refl (expand_terms terms) h
      (λ more e. expand_terms-Covered terms more k e)
  where
    union :
        (o : Option (List ℕ))
        → expand_term term ≡ o
        → (rest : Option (List ℕ)) → (o >>= λ ds. rest >>= λ more. some (ds ++ more)) ≡ some days
        → ((more : List ℕ)
            → rest ≡ some more
            → (In k more → Covered terms k) × (Covered terms k → In k more))
        → (In k days → Covered (term ∷ terms) k) × (Covered (term ∷ terms) k → In k days)
    union none e rest g ih = cc
    union (some ds) e none g ih = cc
    union (some ds) e (some more) g ih =
        let (to, from) = expand_term-Covers term ds k e in
        let (to_more, from_more) = ih more refl in
        (
          λ m. elim (In-append k ds more (subst (In k) (sym (some_inj g)) m)) [
            | inl i ↦ (term, inl refl, to i)
            | inr i ↦ let (t, n, c) = to_more i in (t, inr n, c)
          ],
          λ (t, n, c). subst (In k) (some_inj g) (elim n [
            | inl q ↦ In_left-append k ds more (from (subst (λ u. Covers u k) q c))
            | inr q ↦ In_right-append k ds more (from_more (t, q, c))
          ]),
        )
