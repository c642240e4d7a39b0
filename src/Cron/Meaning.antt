-- ===== src/Cron/Meaning.antt =====
-- Which terms of a weekday field are read, and what the field denotes by them.
use mathlib.Core.Path.{subst}
use mimirheim.Prelude.{
  ℕ, ◌+◌, ◌*◌, ◌%◌, ◌≤◌, ◌≡◌, refl, sym, ap, ◌∙◌, inl, inr, ◌⊎◌, Bool, true, false, ◌||◌, Option,
  some, some_inj, ◌∷◌, ◌++◌, In, arith, Bool-cases, ltb, ◌>>=◌,
}
use mimirheim.Prelude.Text.{Text, strip, split, contains, partition, isdigit, int}
use mimirheim.Cron.{comma, slash, parse_step, bounds, read_term}
use mimirheim.Cron.Standard.{
  IsRange, IsTerm, Denotes, IsRange-slash, contains-append, contains-strip, isdigit-mark,
}
use mimirheim.Cron.Read.{partition-append, partition-parts, bounds-IsRange, IsRange-bounds}
use mimirheim.Cron.Terms.{Covers, read_term-parts}

-- A base and its step, as they stand in the term.
abbrev Splits : Text → Text → ℕ → Type 0
Splits term base step =
    ((base ≡ term) × (step ≡ 1))
    ⊎ ((b : Text) × (term ≡ base ++ (slash ∷ b)) × (isdigit b ≡ true) × (int b ≡ step) × (1 ≤ step))

parse_step-Splits :
    (term base : Text) (step : ℕ) → parse_step term ≡ some (base, step) → Splits term base step
unfolding parse_step
parse_step-Splits term base step h = elim (Bool-cases (contains slash term)) [
  | inr c ↦
      let e = some_inj (rw c at h) in
      inl (sym (ap (λ (p : Text × ℕ). p.0) e), sym (ap (λ (p : Text × ℕ). p.1) e))
  | inl c ↦ elim (Bool-cases (contains slash (partition slash term).1)) [
    | inl d ↦ let e = rw (c, d) at h in cc
    | inr d ↦ elim (Bool-cases (isdigit (partition slash term).1)) [
      | inr g ↦ let e = rw (c, d, g) at h in cc
      | inl g ↦ elim (Bool-cases (ltb (int (partition slash term).1) 1)) [
        | inl low ↦ let e = rw (c, d, g, low) at h in cc
        | inr low ↦
            let e = some_inj (rw (c, d, g, low) at h) in
            let same : int (partition slash term).1 ≡ step = ap (λ (p : Text × ℕ). p.1) e in
            inr (
              (partition slash term).1,
              partition-parts slash term c
                  ∙ ap (λ t. t ++ (slash ∷ (partition slash term).1))
                      (ap (λ (p : Text × ℕ). p.0) e),
              g,
              same,
              positive (int (partition slash term).1) step low same,
            )
      ]
    ]
  ]
]
  where
    positive : (n m : ℕ) → ltb n 1 ≡ false → n ≡ m → 1 ≤ m
    positive n m l e = ground arith

whole_term : (term : Text) → contains slash term ≡ false → parse_step term ≡ some (term, 1)
unfolding parse_step
whole_term term h = rw h refl

stepped_term :
    (a b : Text) (step : ℕ)
    → contains slash a ≡ false
    → isdigit b ≡ true
    → int b ≡ step
    → 1 ≤ step
    → parse_step (a ++ (slash ∷ b)) ≡ some (a, step)
unfolding parse_step
stepped_term a b step free d e l =
    let parts = partition-append slash a b free in
    let there : contains slash (a ++ (slash ∷ b)) ≡ true =
      contains-append slash a (slash ∷ b) ∙ right (contains slash a) (contains slash b) in
    let once : contains slash b ≡ false = isdigit-mark slash b (omega arith) d in
    let low : ltb (int b) 1 ≡ false = ground arith in
    rw (there, parts, once, d, low) (ap (λ n. some (to_pair a n)) e)
  where
    to_pair : Text → ℕ → Text × ℕ
    to_pair x y = (x, y)

    right : (x y : Bool) → (x || (true || y)) ≡ true
    right x y = ground arith

-- A term is read as what it means.
pub read_term-IsTerm :
    (term : Text) (first last step : ℕ)
    → read_term term ≡ some (first, last, step)
    → IsTerm term first last step
read_term-IsTerm term first last step h =
    let (base, p, q) = read_term-parts term first last step h in
    let range = bounds-IsRange (strip base) first last q in
    elim (parse_step-Splits term base step p) [
      | inl (e, one) ↦ inl (subst (λ t. IsRange (strip t) first last) e range, one)
      | inr (b, e, d, n, l) ↦ inr (base, b, e, range, d, n, l)
    ]

-- Every term with a meaning is read.
pub IsTerm-read_term :
    (term : Text) (first last step : ℕ)
    → IsTerm term first last step
    → read_term term ≡ some (first, last, step)
unfolding read_term
IsTerm-read_term term first last step (inl (r, one)) =
    let free : contains slash term ≡ false =
      sym (contains-strip slash term (omega arith, omega arith))
      ∙ IsRange-slash (strip term) first last r in
    read_parts (parse_step term) term 1 (whole_term term free)
      (IsRange-bounds (strip term) first last r)
    ∙ ap (λ n. some (triple n)) (sym one)
  where
    triple : ℕ → ℕ × ℕ × ℕ
    triple n = (first, last, n)

    read_parts :
        (o : Option (Text × ℕ)) (base : Text) (n : ℕ)
        → o ≡ some (base, n)
        → bounds (strip base) ≡ some (first, last)
        → ◌>>=◌ {B = ℕ × ℕ × ℕ} o
            (λ p. ◌>>=◌ {B = ℕ × ℕ × ℕ} (bounds (strip p.0)) (λ q. some (q.0, q.1, p.1)))
          ≡ some (first, last, n)
    read_parts o base n e g = rw e (rw g refl)
IsTerm-read_term term first last step (inr (a, b, e, r, d, n, l)) =
    let free : contains slash a ≡ false =
      sym (contains-strip slash a (omega arith, omega arith))
      ∙ IsRange-slash (strip a) first last r in
    let p = ap parse_step e ∙ stepped_term a b step free d n l in
    rw p (rw (IsRange-bounds (strip a) first last r) refl)

-- What a term covers as it is read is what it covers as it is meant.
abbrev pub ReadDenotes : Text → ℕ → Type 0
ReadDenotes field d =
    (term : Text) × (k : ℕ) × In term (split comma field) × Covers term k × (k % 7 ≡ d)

pub ReadDenotes-Denotes : (field : Text) (d : ℕ) → ReadDenotes field d → Denotes field d
ReadDenotes-Denotes field d (term, k, m, (first, last, step, j, e, q, l), c) = (
  term,
  first,
  last,
  step,
  j,
  m,
  read_term-IsTerm term first last step e,
  omega (arith, q, l),
  ap (λ n. n % 7) (sym q) ∙ c,
)

pub Denotes-ReadDenotes : (field : Text) (d : ℕ) → Denotes field d → ReadDenotes field d
Denotes-ReadDenotes field d (term, first, last, step, j, m, t, l, c) = (
  term,
  first + j * step,
  m,
  (first, last, step, j, IsTerm-read_term term first last step t, refl, l),
  c,
)
