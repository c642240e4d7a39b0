-- ===== src/Cron.antt =====
-- mimirheim_helpers/scheduler/scheduler/cron.py: cron expressions for APScheduler, which numbers the
-- weekdays otherwise. Texts are ASCII code points; a `ValueError` is `none`. `build_trigger` only hands
-- the result to APScheduler, and is not modelled.
pub mod Standard
pub mod Read
pub mod Terms
pub mod Meaning
pub mod Days
pub mod Again
pub mod Whole
mod Print
mod Words
mod Tests
use mimirheim.Prelude.{
  ℕ, zero, suc, ◌+◌, ◌-◌, Bool, true, false, not, ◌&&◌, ◌||◌, Option, none, some, List, [], ◌∷◌,
  ◌++◌, ltb, leb, ◌==◌, map, filter, get_elem?, if◌then◌else◌, ◌>>=◌,
}
use mimirheim.Prelude.Text.{
  Text, codes, same_text, member, is_blank, lstrip, strip, lower, isdigit, int, contains, partition,
  split, words, join,
}

-- `_CRON_DAY_NAMES`
abbrev pub cron_day_names : List Text
cron_day_names =
    codes "sun"
    ∷ codes "mon"
    ∷ codes "tue"
    ∷ codes "wed"
    ∷ codes "thu"
    ∷ codes "fri"
    ∷ codes "sat"
    ∷ codes "sun"
    ∷ []

-- `_OUTPUT_ORDER`
abbrev pub output_order : List Text
output_order =
    codes "mon"
    ∷ codes "tue"
    ∷ codes "wed"
    ∷ codes "thu"
    ∷ codes "fri"
    ∷ codes "sat"
    ∷ codes "sun"
    ∷ []

-- `_MAX_CRON_DAY`
abbrev pub max_cron_day : ℕ
max_cron_day = 7

abbrev pub comma : ℕ
comma = 44

abbrev pub dash : ℕ
dash = 45

abbrev pub slash : ℕ
slash = 47

abbrev pub star : Text
star = 42 ∷ []

-- `names.index(name)`, if it is there
unfoldable pub index_of : Text → List Text → Option ℕ
index_of name [] = none
index_of name (n ∷ names) =
    if same_text name n then some 0 else (index_of name names >>= λ i. some (suc i))

unfoldable pub parse_day : Text → Option ℕ
unfolding index_of
parse_day token =
    let lowered = lower (strip token) in
    if isdigit lowered
    then (if ltb max_cron_day (int lowered) then none else some (int lowered))
    else index_of lowered cron_day_names

unfoldable pub parse_step : Text → Option (Text × ℕ)
parse_step term =
    if not (contains slash term)
    then some (term, 1)
    else (let (base, step_text) = partition slash term in
        if contains slash step_text
        then none
        else if not (isdigit step_text) || ltb (int step_text) 1
        then none
        else some (base, int step_text))

-- the first and the last day of a base
unfoldable pub bounds : Text → Option (ℕ × ℕ)
unfolding parse_day
bounds base =
    if is_blank base
    then none
    else if same_text base star
    then some (0, 6)
    else if contains dash (lstrip (λ c. dash == c) base)
    then (do
      first ← parse_day (partition dash base).0
      last ← parse_day (partition dash base).1
      if ltb last first then none else some (first, last))
    else (parse_day base >>= λ day. some (day, day))

-- `range(first, last + 1, step)`: at most `fuel` values
unfoldable pub range_step : (fuel first last step : ℕ) → List ℕ
range_step zero first last step = []
range_step (suc fuel) first last step =
    let rest = range_step fuel (first + step) last step in
    if leb first last then first ∷ rest else []

-- what a term says: its first day, its last and its step
unfoldable pub read_term : Text → Option (ℕ × ℕ × ℕ)
unfolding parse_step bounds
read_term term = do
  (base, step) ← parse_step term
  (first, last) ← bounds (strip base)
  some (first, last, step)

unfoldable pub expand_term : Text → Option (List ℕ)
unfolding read_term range_step
expand_term term = do
  (first, last, step) ← read_term term
  some (range_step (suc last - first) first last step)

-- the union over the terms
unfoldable pub expand_terms : List Text → Option (List ℕ)
unfolding expand_term
expand_terms [] = some []
expand_terms (term ∷ terms) = do
  days ← expand_term term
  more ← expand_terms terms
  some (days ++ more)

-- `{_CRON_DAY_NAMES[day] for day in days}`
unfoldable pub names_of : List ℕ → Option (List Text)
names_of [] = some []
names_of (day ∷ days) = do
  name ← get_elem? cron_day_names day
  names ← names_of days
  some (name ∷ names)

unfoldable pub translate_day_of_week : Text → Option Text
unfolding expand_terms names_of
translate_day_of_week field = if same_text (strip field) star then some star else (do
  days ← expand_terms (split comma field)
  names ← names_of days
  some (join comma (filter (λ name. member name names) output_order)))

-- the expression with its fifth field translated
unfoldable pub with_fields : Text → List Text → Option Text
with_fields expr (minute ∷ hour ∷ day ∷ month ∷ weekday ∷ []) =
    if same_text (strip weekday) star
    then some expr
    else if not (same_text (strip day) star)
    then none
    else (translate_day_of_week weekday >>= λ names.
        some (join 32 (minute ∷ hour ∷ day ∷ month ∷ names ∷ [])))
with_fields expr fields = some expr

unfoldable pub to_apscheduler_crontab : Text → Option Text
unfolding with_fields
to_apscheduler_crontab expr = with_fields expr (words expr)
