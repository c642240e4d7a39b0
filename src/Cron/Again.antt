-- ===== src/Cron/Again.antt =====
-- A translated expression is translated to itself, and which fields are refused.
use mathlib.Core.Path.{subst}
use mimirheim.Prelude.{
  ℕ, suc, ◌%◌, ◌≤◌, ◌<◌, ◌≡◌, refl, sym, ap, ◌∙◌, inl, inr, ◌⊎◌, Bool, true, false, Option, none,
  some, some_inj, Option-cases, List, [], ◌∷◌, map, length, In, arith, Bool-cases, any, any-false,
  ltb, ◌==◌, if◌then◌else◌, ◌>>=◌,
}
use mimirheim.Prelude.Text.{
  Text, same_text, member, is_blank, strip, lower, split_at, words, join, contains, isdigit, int,
  partition, lstrip,
}
use mimirheim.Cron.{
  comma, dash, star, max_cron_day, cron_day_names, output_order, index_of, parse_day, bounds,
  read_term, expand_term, expand_terms, translate_day_of_week, with_fields, to_apscheduler_crontab,
}
use mimirheim.Cron.Print.{printed-Fixed, Fixed}
use mimirheim.Cron.Words.{IsField, words-IsField, words-join}
use mimirheim.Cron.Terms.{Covers, read_term-parts, expand_terms-Covered}
use mimirheim.Cron.Standard.{weekday}
use mimirheim.Cron.Days.{names_of-OnDay, weekday-In, marks, translated}

-- Days of a week, with the second Sunday.
index_of-lt :
    (name : Text) (names : List Text) (i : ℕ) → index_of name names ≡ some i → i < length names
unfolding index_of
index_of-lt name [] i h = cc
index_of-lt name (n ∷ names) i h = elim (Bool-cases (same_text name n)) [
  | inl e ↦ omega (arith, some_inj {a = 0} (rw e at h))
  | inr e ↦ later (index_of name names) (rw e at h) (λ j q. index_of-lt name names j q)
]
  where
    later :
        (o : Option ℕ)
        → (o >>= λ j. some (suc j)) ≡ some i
        → ((j : ℕ) → o ≡ some j → j < length names)
        → i < suc (length names)
    later none g ih = cc
    later (some j) g ih = omega (arith, some_inj g, ih j refl)

parse_day-lt : (token : Text) (day : ℕ) → parse_day token ≡ some day → day < 8
unfolding parse_day
parse_day-lt token day h = elim (Bool-cases (isdigit (lower (strip token)))) [
  | inr e ↦ index_of-lt (lower (strip token)) cron_day_names day (rw e at h)
  | inl e ↦ elim (Bool-cases (ltb max_cron_day (int (lower (strip token))))) [
    | inl g ↦ let h' = rw (e, g) at h in cc
    | inr g ↦
        let small : int (lower (strip token)) < 8 = ground arith in
        subst (λ n. n < 8) (some_inj (rw (e, g) at h)) small
  ]
]

-- The bounds of a base are in order, and within the week.
bounds_range :
    (base : Text) (first last : ℕ) → bounds base ≡ some (first, last) → (first ≤ last) × (last < 8)
unfolding bounds
bounds_range base first last h = elim (Bool-cases (is_blank base)) [
  | inl e ↦ let h' = rw e at h in cc
  | inr e ↦ elim (Bool-cases (same_text base star)) [
    | inl s ↦ of_pair 0 6 (omega arith) (omega arith) (rw (e, s) at h)
    | inr s ↦ elim (Bool-cases (contains dash (lstrip (λ c. dash == c) base))) [
      | inl d ↦
          from_to (parse_day (partition dash base).0) (parse_day (partition dash base).1)
            (parse_day-lt (partition dash base).1) (rw (e, s, d) at h)
      | inr d ↦ from_one (parse_day base) (parse_day-lt base) (rw (e, s, d) at h)
    ]
  ]
]
  where
    of_pair :
        (a b : ℕ)
        → a ≤ b
        → b < 8
        → ◌≡◌ {A = Option (ℕ × ℕ)} (some (a, b)) (some (first, last))
        → (first ≤ last) × (last < 8)
    of_pair a b p q g = subst (λ (r : ℕ × ℕ). (r.0 ≤ r.1) × (r.1 < 8)) (some_inj g) (p, q)

    from_one :
        (o : Option ℕ)
        → ((day : ℕ) → o ≡ some day → day < 8)
        → ◌>>=◌ {B = ℕ × ℕ} o (λ day. some (day, day)) ≡ some (first, last)
        → (first ≤ last) × (last < 8)
    from_one none small g = cc
    from_one (some day) small g = of_pair day day (omega arith) (small day refl) g

    from_to :
        (o p : Option ℕ)
        → ((day : ℕ) → p ≡ some day → day < 8)
        → ◌>>=◌ {B = ℕ × ℕ} o (λ a. p >>= λ b. if ltb b a then none else some (a, b))
          ≡ some (first, last)
        → (first ≤ last) × (last < 8)
    from_to none p small g = cc
    from_to (some a) none small g = cc
    from_to (some a) (some b) small g = elim (Bool-cases (ltb b a)) [
      | inl w ↦ let g' = rw w at g in cc
      | inr w ↦ of_pair a b (ground arith) (small b refl) (rw w at g)
    ]

read_term_range :
    (term : Text) (first last step : ℕ)
    → read_term term ≡ some (first, last, step)
    → (first ≤ last) × (last < 8)
read_term_range term first last step h =
    let (base, e, q) = read_term-parts term first last step h in
    bounds_range (strip base) first last q

-- A term that is read covers some day, and only days of the week.
covers_some : (term : Text) (r : ℕ × ℕ × ℕ) → read_term term ≡ some r → Covers term r.0
covers_some term (first, last, step) h =
    (first, last, step, 0, h, omega arith, (read_term_range term first last step h).0)

pub covers-lt : (term : Text) (k : ℕ) → Covers term k → k < 8
covers-lt term k (first, last, step, j, h, e, l) =
    let (p, q) = read_term_range term first last step h in omega arith

pub expand_term-some :
    (term : Text) (days : List ℕ)
    → expand_term term ≡ some days
    → (r : ℕ × ℕ × ℕ) × (read_term term ≡ some r)
unfolding expand_term
expand_term-some term days h = elim (Option-cases (read_term term)) [
  | inl e ↦ let h' = rw e at h in cc
  | inr p ↦ p
]

-- The first term gives a day.
some_day :
    (term : Text) (terms : List Text) (days : List ℕ)
    → expand_terms (term ∷ terms) ≡ some days
    → (k : ℕ) × In k days
unfolding expand_terms
some_day term terms days h = elim (Option-cases (expand_term term)) [
  | inl e ↦ let h' = rw e at h in cc
  | inr (ds, e) ↦
      let (r, q) = expand_term-some term ds e in
      (
        r.0,
        (expand_terms-Covered (term ∷ terms) days r.0 h).1 (term, inl refl, covers_some term r q),
      )
]

-- A weekday that is named is marked.
marked :
    (names : List Text) (d : ℕ)
    → d < 7
    → member (weekday d) names ≡ true
    → any (λ b. b) (marks names) ≡ true
marked names d p h = elim (Bool-cases (any (λ b. b) (marks names))) [
  | inl e ↦ e
  | inr e ↦
      let off =
        any-false (λ b. b) (member (weekday d) names) (marks names) e
          (In-marks output_order (weekday-In d p)) in
      cc
]
  where
    In-marks :
        (xs : List Text)
        → In (weekday d) xs
        → In (member (weekday d) names) (map (λ n. member n names) xs)
    In-marks [] m = absurd m
    In-marks (x ∷ xs) (inl e) = inl (ap (λ n. member n names) e)
    In-marks (x ∷ xs) (inr m) = inr (In-marks xs m)

split-cons : (p : ℕ → Bool) (s : Text) → (t : Text) × (ts : List Text) × (split_at p s ≡ t ∷ ts)
split-cons p [] = ([], [], refl)
split-cons p (c ∷ s) = elim (Bool-cases (p c)) [
  | inl e ↦ ([], split_at p s, rw e refl)
  | inr e ↦ let (t, ts, q) = split-cons p s in (c ∷ t, ts, rw (e, q) refl)
]

-- What a translation prints is translated to itself, and has no space in it.
pub translated-Fixed :
    (field out : Text)
    → same_text (strip field) star ≡ false
    → translate_day_of_week field ≡ some out
    → Fixed out
translated-Fixed field out s h =
    let (days, names, e, q, o) = translated field out s h in
    let (term, terms, t) = split-cons (λ c. comma == c) field in
    let (k, m) = some_day term terms days (rw t at e) in
    let d : ℕ = k % 7 in
    let p : d < 7 = omega arith in
    let named = (names_of-OnDay days names d p q).1 (k, m, refl) in
    subst Fixed (sym o) (printed-Fixed (marks names) refl (marked names d p named))

pub again_of_fields :
    (expr out minute hour day month dow : Text)
    → words expr ≡ minute ∷ hour ∷ day ∷ month ∷ dow ∷ []
    → with_fields expr (minute ∷ hour ∷ day ∷ month ∷ dow ∷ []) ≡ some out
    → ((out ≡ expr) × (same_text (strip dow) star ≡ true))
      ⊎ ((names : Text) × (same_text (strip dow) star ≡ false)
          × (same_text (strip day) star ≡ true)
          × (translate_day_of_week dow ≡ some names)
          × (out ≡ join 32 (minute ∷ hour ∷ day ∷ month ∷ names ∷ [])))
unfolding with_fields
again_of_fields expr out minute hour day month dow e h =
    elim (Bool-cases (same_text (strip dow) star)) [
      | inl s ↦ inl (sym (some_inj (rw s at h)), s)
      | inr s ↦ elim (Bool-cases (same_text (strip day) star)) [
        | inr d ↦ let h' = rw (s, d) at h in cc
        | inl d ↦ elim (Option-cases (translate_day_of_week dow)) [
          | inl t ↦ let h' = rw (s, d, t) at h in cc
          | inr (names, t) ↦ inr (names, s, d, t, sym (some_inj (rw (s, d, t) at h)))
        ]
      ]
    ]

reprinted :
    (out a b c d names : Text)
    → same_text (strip names) star ≡ false
    → same_text (strip c) star ≡ true
    → translate_day_of_week names ≡ some names
    → out ≡ join 32 (a ∷ b ∷ c ∷ d ∷ names ∷ [])
    → with_fields out (a ∷ b ∷ c ∷ d ∷ names ∷ []) ≡ some out
unfolding with_fields
reprinted out a b c d names s k t q = rw (s, k, t) (ap some (sym q))

unchanged :
    (expr out : Text)
    → out ≡ expr
    → to_apscheduler_crontab expr ≡ some out
    → to_apscheduler_crontab out ≡ some out
unchanged expr out e h = ap to_apscheduler_crontab e ∙ h

-- An expression that the translation gives is translated to itself.
pub to_apscheduler_crontab_again :
    (expr out : Text)
    → to_apscheduler_crontab expr ≡ some out
    → to_apscheduler_crontab out ≡ some out
unfolding to_apscheduler_crontab with_fields
to_apscheduler_crontab_again expr out h = on_fields (words expr) refl h
  where
    same : some expr ≡ some out → to_apscheduler_crontab out ≡ some out
    same g = unchanged expr out (sym (some_inj g)) h

    on_fields :
        (fields : List Text)
        → words expr ≡ fields
        → with_fields expr fields ≡ some out
        → to_apscheduler_crontab out ≡ some out
    on_fields [] e g = same g
    on_fields (a ∷ b ∷ c ∷ d ∷ w ∷ []) e g = elim (again_of_fields expr out a b c d w e g) [
      | inl (q, s) ↦ unchanged expr out q h
      | inr (names, s, k, t, q) ↦
          let (again, free, filled, starred) = translated-Fixed w names s t in
          let field : (t : Text) → In t (a ∷ b ∷ c ∷ d ∷ w ∷ []) → IsField t =
            λ t m. words-IsField expr t (subst (In t) (sym e) m) in
          let read : words out ≡ a ∷ b ∷ c ∷ d ∷ names ∷ [] =
            ap words q
            ∙ words-join a b c d names (field a (inl refl)) (field b (inr (inl refl)))
                (field c (inr (inr (inl refl)))) (field d (inr (inr (inr (inl refl)))))
                (ground arith, filled) in
          ap (with_fields out) read ∙ reprinted out a b c d names starred k again q
    ]
    on_fields fields e g = same g
