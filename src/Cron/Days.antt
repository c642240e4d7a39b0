-- ===== src/Cron/Days.antt =====
-- The names that a weekday field is translated to are those of the days that it denotes.
use mathlib.Core.Path.{subst}
use mimirheim.Prelude.{
  ℕ, zero, suc, ◌%◌, ◌<◌, ◌≡◌, refl, sym, ap, ◌∙◌, inl, inr, ◌⊎◌, Bool, true, false, not, ◌&&◌,
  ◌||◌, Option, none, some, some_inj, List, [], ◌∷◌, map, filter, get_elem?, get_elem?-lt, In,
  arith, Bool-cases, ◌==◌, if◌then◌else◌, ◌>>=◌,
}
use mimirheim.Prelude.Text.{Text, same_text, member, strip, split, join, member-In}
use mimirheim.Cron.{
  comma, star, cron_day_names, output_order, expand_terms, names_of, translate_day_of_week,
}
use mimirheim.Cron.Print.{printed, filter-pick_marked, printed-names}
use mimirheim.Cron.Standard.{weekday, Denotes}
use mimirheim.Cron.Read.{cron_day_names-weekday}
use mimirheim.Cron.Meaning.{ReadDenotes-Denotes, Denotes-ReadDenotes}
use mimirheim.Cron.Terms.{expand_terms-Covered}

-- a test for all numbers below a bound
all_below : ℕ → (ℕ → Bool) → Bool
all_below zero p = true
all_below (suc n) p = p n && all_below n p

all_below_sound : (n : ℕ) (p : ℕ → Bool) (k : ℕ) → all_below n p ≡ true → k < n → p k ≡ true
unfolding all_below
all_below_sound zero p k h l = absurd (omega arith)
all_below_sound (suc n) p k h l = elim (Nat_last k n l) [
  | inl e ↦ rw e (ground arith)
  | inr m ↦ all_below_sound n p k (ground arith) m
]
  where
    Nat_last : (k n : ℕ) → k < suc n → (k ≡ n) ⊎ (k < n)
    Nat_last k n l = omega arith

names_tell : ℕ → ℕ → Bool
names_tell d k = if same_text (weekday d) (weekday k) then k % 7 == d else not (k % 7 == d)

all_names_tell : all_below 7 (λ d. all_below 8 (names_tell d)) ≡ true
unfolding all_below names_tell
all_names_tell = refl

weekdays_named : all_below 7 (λ d. member (weekday d) output_order) ≡ true
unfolding all_below
weekdays_named = refl

told :
    (s : Bool) (m d : ℕ)
    → (if s then m == d else not (m == d)) ≡ true
    → (s ≡ true → m ≡ d) × (m ≡ d → s ≡ true)
told true m d h = (λ e. ground arith, λ e. refl)
told false m d h = (λ e. cc, λ e. ground arith)

-- Two days have the same name exactly where they are the same weekday.
weekday-eq :
    (d k : ℕ)
    → d < 7
    → k < 8
    → ((same_text (weekday d) (weekday k) ≡ true) → k % 7 ≡ d)
      × ((k % 7 ≡ d) → same_text (weekday d) (weekday k) ≡ true)
unfolding names_tell
weekday-eq d k p q =
    let tell =
      all_below_sound 8 (names_tell d) k
        (all_below_sound 7 (λ d. all_below 8 (names_tell d)) d all_names_tell p) q in
    told (same_text (weekday d) (weekday k)) (k % 7) d tell

-- A day of the list that is this weekday.
abbrev pub OnDay : List ℕ → ℕ → Type 0
OnDay days d = (k : ℕ) × In k days × (k % 7 ≡ d)

head_or : (a b : Bool) → a ≡ true → (a || b) ≡ true
head_or a b h = ground arith

tail_or : (a b : Bool) → b ≡ true → (a || b) ≡ true
tail_or a b h = ground arith

pub names_of-OnDay :
    (days : List ℕ) (names : List Text) (d : ℕ)
    → d < 7
    → names_of days ≡ some names
    → (member (weekday d) names ≡ true → OnDay days d)
      × (OnDay days d → member (weekday d) names ≡ true)
unfolding names_of
names_of-OnDay [] names d p h = (
  λ m.
      let m' : member (weekday d) [] ≡ true =
        subst (λ ns. member (weekday d) ns ≡ true) (sym (some_inj h)) m in
      cc,
  λ (k, m, e). absurd m,
)
names_of-OnDay (day ∷ days) names d p h =
    with_name (get_elem? cron_day_names day) refl (names_of days) h
      (λ more e. names_of-OnDay days more d p e)
  where
    with_name :
        (o : Option Text)
        → get_elem? cron_day_names day ≡ o
        → (rest : Option (List Text)) → (o >>= λ n. rest >>= λ ns. some (n ∷ ns)) ≡ some names
        → ((more : List Text)
            → rest ≡ some more
            → (member (weekday d) more ≡ true → OnDay days d)
              × (OnDay days d → member (weekday d) more ≡ true))
        → (member (weekday d) names ≡ true → OnDay (day ∷ days) d)
          × (OnDay (day ∷ days) d → member (weekday d) names ≡ true)
    with_name none e rest g ih = cc
    with_name (some n) e none g ih = cc
    with_name (some n) e (some more) g ih =
        let (to, from) = ih more refl in
        let (same, differs) = weekday-eq d day p (get_elem?-lt cron_day_names day n e) in
        let named : weekday day ≡ n = cron_day_names-weekday day n e in
        (
          λ m. elim (Bool-cases (same_text (weekday d) n)) [
            | inl q ↦
                (day, inl refl, same (subst (λ t. same_text (weekday d) t ≡ true) (sym named) q))
            | inr q ↦
                let m' : member (weekday d) (n ∷ more) ≡ true =
                  subst (λ ns. member (weekday d) ns ≡ true) (sym (some_inj g)) m in
                let (k, i, c) = to (rw q at m') in (k, inr i, c)
          ],
          λ (k, i, c).
              subst (λ ns. member (weekday d) ns ≡ true) (some_inj g)
                (elim i [
                  | inl q ↦ head_or (same_text (weekday d) n) _ (
                      subst (λ t. same_text (weekday d) t ≡ true) named
                        (differs (subst (λ j. j % 7 ≡ d) q c)))
                  | inr q ↦ tail_or (same_text (weekday d) n) _ (from (k, q, c))
                ]),
        )

map-eq-In :
    (p q : Text → Bool) (xs : List Text) (x : Text) → map p xs ≡ map q xs → In x xs → p x ≡ q x
map-eq-In p q [] x h m = absurd m
map-eq-In p q (y ∷ xs) x h (inl e) = ap p e ∙ heads (p y) (q y) _ _ h ∙ ap q (sym e)
  where
    heads : (a b : Bool) (s t : List Bool) → a ∷ s ≡ b ∷ t → a ≡ b
    heads a b s t h = cc
map-eq-In p q (y ∷ xs) x h (inr m) = map-eq-In p q xs x (tails (p y) (q y) _ _ h) m
  where
    tails : (a b : Bool) (s t : List Bool) → a ∷ s ≡ b ∷ t → s ≡ t
    tails a b s t h = cc

-- the weekdays that are named, in the order of the output
abbrev pub marks : List Text → List Bool
marks names = map (λ n. member n names) output_order

-- What a translation has read and printed.
pub translated :
    (field out : Text)
    → same_text (strip field) star ≡ false
    → translate_day_of_week field ≡ some out
    → (days : List ℕ) × (names : List Text) × (expand_terms (split comma field) ≡ some days)
      × (names_of days ≡ some names)
      × (out ≡ printed (marks names))
unfolding translate_day_of_week
translated field out s h = with_days (expand_terms (split comma field)) refl (rw s at h)
  where
    with_days :
        (o : Option (List ℕ))
        → expand_terms (split comma field) ≡ o
        → (o >>= λ days. names_of days >>= λ names.
            some (join comma (filter (λ name. member name names) output_order)))
          ≡ some out
        → (days : List ℕ) × (names : List Text) × (expand_terms (split comma field) ≡ some days)
          × (names_of days ≡ some names)
          × (out ≡ printed (marks names))
    with_days none e g = cc
    with_days (some days) e g = with_names (names_of days) refl g
      where
        with_names :
            (o : Option (List Text))
            → names_of days ≡ o
            → (o >>= λ names. some (join comma (filter (λ name. member name names) output_order)))
              ≡ some out
            → (days : List ℕ) × (names : List Text) × (expand_terms (split comma field) ≡ some days)
              × (names_of days ≡ some names)
              × (out ≡ printed (marks names))
        with_names none q g = cc
        with_names (some names) q g = (
          days,
          names,
          e,
          q,
          sym (some_inj g)
              ∙ ap (join comma) (filter-pick_marked (λ name. member name names) output_order),
        )

pub weekday-In : (d : ℕ) → d < 7 → In (weekday d) output_order
weekday-In d p =
    member-In (weekday d) output_order
      (all_below_sound 7 (λ d. member (weekday d) output_order) d weekdays_named p)

-- A weekday field is translated to the names of exactly the weekdays that it denotes in standard
-- cron, where day 0 and day 7 are both Sunday, if it is not the star.
pub translate_day_of_week-Denotes :
    (field out : Text) (d : ℕ)
    → d < 7
    → same_text (strip field) star ≡ false
    → translate_day_of_week field ≡ some out
    → (member (weekday d) (split comma out) ≡ true → Denotes field d)
      × (Denotes field d → member (weekday d) (split comma out) ≡ true)
translate_day_of_week-Denotes field out d p s h =
    let (days, names, e, q, o) = translated field out s h in
    let printed_same : member (weekday d) (split comma out) ≡ member (weekday d) names =
      ap (λ t. member (weekday d) (split comma t)) o
      ∙ map-eq-In (λ n. member n (split comma (printed (marks names)))) (λ n. member n names)
          output_order (weekday d) (printed-names (marks names) refl) (weekday-In d p) in
    let (to, from) = names_of-OnDay days names d p q in
    (
      λ m.
          let (k, i, c) = to (sym printed_same ∙ m) in
          let (term, j, v) = (expand_terms-Covered (split comma field) days k e).0 i in
          ReadDenotes-Denotes field d (term, k, j, v, c),
      λ meant.
          let (term, k, j, v, c) = Denotes-ReadDenotes field d meant in
          printed_same
          ∙ from (k, (expand_terms-Covered (split comma field) days k e).1 (term, j, v), c),
    )
