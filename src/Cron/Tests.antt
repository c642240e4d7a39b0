-- ===== src/Cron/Tests.antt =====
-- The theorems on cron expressions at concrete inputs.
use mimirheim.Prelude.{ℕ, ◌<◌, ◌≡◌, refl, true, none, some, [], ◌∷◌}
use mimirheim.Prelude.Text.{Text, codes, same_text, member, strip, split, words}
use mimirheim.Cron.{comma, star, translate_day_of_week, to_apscheduler_crontab}
use mimirheim.Cron.Standard.{weekday, Denotes}
use mimirheim.Cron.Again.{to_apscheduler_crontab_again}
use mimirheim.Cron.Whole.{AllRead, to_apscheduler_crontab-Denotes, translate_day_of_week_total}

abbrev weekend : Text
weekend = codes "0 14 * * 6-7"

abbrev weekend_out : Text
weekend_out = codes "0 14 * * sat,sun"

weekend_translated : to_apscheduler_crontab weekend ≡ some weekend_out
unfolding to_apscheduler_crontab translate_day_of_week
weekend_translated = refl

workdays : translate_day_of_week (codes "Mon-5/2, sun") ≡ some (codes "mon,wed,fri,sun")
unfolding translate_day_of_week
workdays = refl

backwards : translate_day_of_week (codes "5-mon") ≡ none
unfolding translate_day_of_week
backwards = refl

to_apscheduler_crontab_again_example : to_apscheduler_crontab weekend_out ≡ some weekend_out
to_apscheduler_crontab_again_example =
    to_apscheduler_crontab_again weekend weekend_out weekend_translated

to_apscheduler_crontab-Denotes_example :
    (names : Text) × (words weekend_out
      ≡ codes "0" ∷ codes "14" ∷ codes "*" ∷ codes "*" ∷ names ∷ [])
    × (same_text (strip (codes "*")) star ≡ true)
    × ((d : ℕ)
        → d < 7
        → (member (weekday d) (split comma names) ≡ true → Denotes (codes "6-7") d)
          × (Denotes (codes "6-7") d → member (weekday d) (split comma names) ≡ true))
to_apscheduler_crontab-Denotes_example =
    to_apscheduler_crontab-Denotes weekend weekend_out (codes "0") (codes "14") (codes "*")
      (codes "*") (codes "6-7") refl refl weekend_translated

translate_day_of_week_total_example :
    (AllRead (split comma (codes "1-5"))
      → (out : Text) × (translate_day_of_week (codes "1-5") ≡ some out))
    × ((out : Text)
        → translate_day_of_week (codes "1-5") ≡ some out
        → AllRead (split comma (codes "1-5")))
translate_day_of_week_total_example = translate_day_of_week_total (codes "1-5") refl
