-- ===== src/Cron/Whole.antt =====
-- The whole expression after the translation, and which weekday fields are refused.
use mathlib.Core.Path.{subst}
use mimirheim.Prelude.{
  ℕ, suc, ◌<◌, ◌≡◌, refl, sym, ap, ◌∙◌, inl, inr, Bool, true, false, some, Option-cases, List, [],
  ◌∷◌, ◌++◌, ◌-◌, filter, lt-get_elem?, In, arith,
}
use mimirheim.Prelude.Text.{Text, same_text, member, strip, split, words, join}
use mimirheim.Cron.{
  comma, star, cron_day_names, output_order, range_step, read_term, expand_term, expand_terms,
  names_of, translate_day_of_week, with_fields, to_apscheduler_crontab,
}
use mimirheim.Cron.Words.{IsField, words-IsField, words-join}
use mimirheim.Cron.Standard.{weekday, Denotes}
use mimirheim.Cron.Terms.{expand_terms-Covered}
use mimirheim.Cron.Days.{translated, translate_day_of_week-Denotes}
use mimirheim.Cron.Again.{translated-Fixed, again_of_fields, expand_term-some, covers-lt}

clash : {b : Bool} → b ≡ true → b ≡ false → ⊥
clash h g = cc

-- A translated expression of five fields has the first four as they were, and a fifth that names
-- exactly the weekdays that the original fifth denotes in cron, where days are names or numbers from
-- Sunday as 0 to Sunday as 7, and terms are days, ranges and the star, with or without a step, between
-- commas. It is not translated unless the day of the month is the star.
pub to_apscheduler_crontab-Denotes :
    (expr out minute hour day month dow : Text)
    → words expr ≡ minute ∷ hour ∷ day ∷ month ∷ dow ∷ []
    → same_text (strip dow) star ≡ false
    → to_apscheduler_crontab expr ≡ some out
    → (names : Text) × (words out ≡ minute ∷ hour ∷ day ∷ month ∷ names ∷ [])
      × (same_text (strip day) star ≡ true)
      × ((d : ℕ)
          → d < 7
          → (member (weekday d) (split comma names) ≡ true → Denotes dow d)
            × (Denotes dow d → member (weekday d) (split comma names) ≡ true))
unfolding to_apscheduler_crontab
to_apscheduler_crontab-Denotes expr out minute hour day month dow e s h =
    elim (again_of_fields expr out minute hour day month dow e
      (subst (λ ws. with_fields expr ws ≡ some out) e h)) [
        | inl (q, starred) ↦ absurd (clash starred s)
        | inr (names, s2, k, t, q) ↦
            let (again, free, filled, starred) = translated-Fixed dow names s t in
            let field : (t : Text) → In t (minute ∷ hour ∷ day ∷ month ∷ dow ∷ []) → IsField t =
              λ t m. words-IsField expr t (subst (In t) (sym e) m) in
            (
              names,
              ap words q
                  ∙ words-join minute hour day month names (field minute (inl refl))
                      (field hour (inr (inl refl))) (field day (inr (inr (inl refl))))
                      (field month (inr (inr (inr (inl refl))))) (ground arith, filled),
              k,
              λ d p. translate_day_of_week-Denotes dow names d p s t,
            )
      ]

-- Every term is read.
abbrev pub AllRead : List Text → Type 0
AllRead terms = (term : Text) → In term terms → (r : ℕ × ℕ × ℕ) × (read_term term ≡ some r)

expand_terms-AllRead :
    (terms : List Text) (days : List ℕ) → expand_terms terms ≡ some days → AllRead terms
unfolding expand_terms
expand_terms-AllRead [] days h term m = absurd m
expand_terms-AllRead (t ∷ terms) days h term m = elim (Option-cases (expand_term t)) [
  | inl e ↦ let h' = rw e at h in cc
  | inr (ds, e) ↦ elim (Option-cases (expand_terms terms)) [
    | inl q ↦ let h' = rw (e, q) at h in cc
    | inr (more, q) ↦ elim m [
      | inl same ↦ let (r, k) = expand_term-some t ds e in (r, ap read_term same ∙ k)
      | inr i ↦ expand_terms-AllRead terms more q term i
    ]
  ]
]

AllRead-expand_terms :
    (terms : List Text) → AllRead terms → (days : List ℕ) × (expand_terms terms ≡ some days)
unfolding expand_terms expand_term
AllRead-expand_terms [] read = ([], refl)
AllRead-expand_terms (t ∷ terms) read =
    let (r, e) = read t (inl refl) in
    let (more, q) = AllRead-expand_terms terms (λ u m. read u (inr m)) in
    (range_step (suc r.1 - r.0) r.0 r.1 r.2 ++ more, rw (e, q) refl)

-- Days of the week have names.
names_of-lt :
    (days : List ℕ)
    → ((k : ℕ) → In k days → k < 8)
    → (names : List Text) × (names_of days ≡ some names)
unfolding names_of
names_of-lt [] small = ([], refl)
names_of-lt (day ∷ days) small =
    let (name, e) = lt-get_elem? cron_day_names day (small day (inl refl)) in
    let (names, q) = names_of-lt days (λ k m. small k (inr m)) in (name ∷ names, rw (e, q) refl)

-- A weekday field that is not the star is translated exactly where every term between its commas is
-- read: then the translation returns, and never otherwise.
pub translate_day_of_week_total :
    (field : Text)
    → same_text (strip field) star ≡ false
    → (AllRead (split comma field) → (out : Text) × (translate_day_of_week field ≡ some out))
      × ((out : Text) → translate_day_of_week field ≡ some out → AllRead (split comma field))
unfolding translate_day_of_week
translate_day_of_week_total field s = (
  λ read.
      let (days, e) = AllRead-expand_terms (split comma field) read in
      let (names, q) = names_of-lt days (λ k m.
        let (term, i, c) = (expand_terms-Covered (split comma field) days k e).0 m in
        covers-lt term k c) in
      (join comma (filter (λ name. member name names) output_order), rw (s, e, q) refl),
  λ out h.
      let (days, names, e, q, o) = translated field out s h in
      expand_terms-AllRead (split comma field) days e,
)
