-- ===== src/Cron/Standard.antt =====
-- What a weekday field means in cron: the days of a week that starts with Sunday, by number or name,
-- and the terms over them. Nothing here is the translation's: its tables and its parser are not used.
use mimirheim.Prelude.{
  ℕ, zero, suc, ◌+◌, ◌*◌, ◌%◌, ◌≤◌, ◌<◌, ◌≡◌, refl, sym, ap, ◌∙◌, inl, inr, ◌⊎◌, Bool, true, false,
  ◌&&◌, ◌||◌, [], ◌∷◌, ◌++◌, In, arith, Bool-cases, leb, ◌==◌, if◌then◌else◌,
}
use mimirheim.Prelude.Text.{
  Text, codes, is_blank, is_space, strip, lstrip, rstrip, lower, split, contains, all_digits,
  isdigit, int,
}

-- The three letters of a day, counted from Sunday.
abbrev pub weekday : ℕ → Text
weekday zero = codes "sun"
weekday (suc zero) = codes "mon"
weekday (suc (suc zero)) = codes "tue"
weekday (suc (suc (suc zero))) = codes "wed"
weekday (suc (suc (suc (suc zero)))) = codes "thu"
weekday (suc (suc (suc (suc (suc zero))))) = codes "fri"
weekday (suc (suc (suc (suc (suc (suc zero)))))) = codes "sat"
weekday (suc (suc (suc (suc (suc (suc (suc d))))))) = weekday d

-- A day is a number up to 7, which is Sunday again, or a name in any case.
abbrev pub IsDay : Text → ℕ → Type 0
IsDay token k =
    ((isdigit (lower (strip token)) ≡ true) × (int (lower (strip token)) ≡ k) × (k ≤ 7))
    ⊎ ((lower (strip token) ≡ weekday k) × (k < 7))

-- The star, one day, or two days with a dash between them.
abbrev pub IsRange : Text → ℕ → ℕ → Type 0
IsRange base first last =
    ((base ≡ 42 ∷ []) × (first ≡ 0) × (last ≡ 6))
    ⊎ (IsDay base first × (last ≡ first))
    ⊎ ((a : Text) × (b : Text) × (base ≡ a ++ (45 ∷ b))
        × IsDay a first
        × IsDay b last
        × (first ≤ last))

-- A range, or a range, a slash and a positive step.
abbrev pub IsTerm : Text → ℕ → ℕ → ℕ → Type 0
IsTerm term first last step =
    (IsRange (strip term) first last × (step ≡ 1))
    ⊎ ((a : Text) × (b : Text) × (term ≡ a ++ (47 ∷ b))
        × IsRange (strip a) first last
        × (isdigit b ≡ true)
        × (int b ≡ step)
        × (1 ≤ step))

-- Some term between the commas has the weekday among its days.
abbrev pub Denotes : Text → ℕ → Type 0
Denotes field d =
    (term : Text) × (first : ℕ) × (last : ℕ) × (step : ℕ) × (j : ℕ) × In term (split 44 field)
    × IsTerm term first last step
    × (first + j * step ≤ last)
    × ((first + j * step) % 7 ≡ d)

-- a character that is no space, no letter and no digit
abbrev pub IsMark : ℕ → Type 0
IsMark m = (33 ≤ m) × (m < 48)

same_code : (p : ℕ → Bool) (m c : ℕ) → (m == c) ≡ true → p c ≡ p m
same_code p m c h = ap p (ground arith)

contains-lstrip :
    (m : ℕ) (p : ℕ → Bool) (s : Text) → p m ≡ false → contains m (lstrip p s) ≡ contains m s
contains-lstrip m p [] h = refl
contains-lstrip m p (c ∷ s) h = elim (Bool-cases (p c)) [
  | inl q ↦ elim (Bool-cases (m == c)) [
    | inl e ↦ let same = same_code p m c e in cc
    | inr e ↦ rw (q, e) (contains-lstrip m p s h)
  ]
  | inr q ↦ rw q refl
]

contains-rstrip :
    (m : ℕ) (p : ℕ → Bool) (s : Text) → p m ≡ false → contains m (rstrip p s) ≡ contains m s
contains-rstrip m p [] h = refl
contains-rstrip m p (c ∷ s) h = at (rstrip p s) (p c) (m == c) refl refl (contains-rstrip m p s h)
  where
    at :
        (rest : Text) (b e : Bool)
        → p c ≡ b
        → (m == c) ≡ e
        → contains m rest ≡ contains m s
        → contains m (if b && is_blank rest then [] else c ∷ rest) ≡ (e || contains m s)
    at [] true true q k ih = let same = same_code p m c k in cc
    at [] true false q k ih = ih
    at [] false e q k ih = rw (k, ih) refl
    at (d ∷ rest) true e q k ih = rw (k, ih) refl
    at (d ∷ rest) false e q k ih = rw (k, ih) refl

no_space : (m : ℕ) → IsMark m → is_space m ≡ false
no_space m h = ground arith

pub contains-strip : (m : ℕ) (s : Text) → IsMark m → contains m (strip s) ≡ contains m s
contains-strip m s h =
    contains-rstrip m is_space (lstrip is_space s) (no_space m h)
    ∙ contains-lstrip m is_space s (no_space m h)

contains-lower : (m : ℕ) (s : Text) → IsMark m → contains m (lower s) ≡ contains m s
contains-lower m [] h = refl
contains-lower m (c ∷ s) h = rw (contains-lower m s h) (ap (λ b. b || contains m s) (one m c h))
  where
    one : (m c : ℕ) → IsMark m → (m == (if leb 65 c && leb c 90 then c + 32 else c)) ≡ (m == c)
    one m c h = ground arith

-- every character is a digit or stands after the digits
abbrev high : Text → Bool
high [] = true
high (c ∷ s) = leb 48 c && high s

contains-high : (m : ℕ) (s : Text) → m < 48 → high s ≡ true → contains m s ≡ false
contains-high m [] l h = refl
contains-high m (c ∷ s) l h = ground (arith, contains-high m s l)

all_digits-high : (s : Text) → all_digits s ≡ true → high s ≡ true
all_digits-high [] h = refl
all_digits-high (c ∷ s) h = ground (arith, all_digits-high s)

pub isdigit-mark : (m : ℕ) (s : Text) → m < 48 → isdigit s ≡ true → contains m s ≡ false
isdigit-mark m s l h = contains-high m s l (all_digits-high s (ground arith))

weekday-high : (k : ℕ) → high (weekday k) ≡ true
weekday-high zero = refl
weekday-high (suc zero) = refl
weekday-high (suc (suc zero)) = refl
weekday-high (suc (suc (suc zero))) = refl
weekday-high (suc (suc (suc (suc zero)))) = refl
weekday-high (suc (suc (suc (suc (suc zero))))) = refl
weekday-high (suc (suc (suc (suc (suc (suc zero)))))) = refl
weekday-high (suc (suc (suc (suc (suc (suc (suc d))))))) = weekday-high d

-- A day has no dash and no slash in it.
pub IsDay-mark :
    (m : ℕ) (token : Text) (k : ℕ) → IsMark m → IsDay token k → contains m token ≡ false
IsDay-mark m token k h d = sym marks ∙ lowered d
  where
    marks : contains m (lower (strip token)) ≡ contains m token
    marks = contains-lower m (strip token) h ∙ contains-strip m token h

    lowered : IsDay token k → contains m (lower (strip token)) ≡ false
    lowered (inl (d, e, l)) = isdigit-mark m (lower (strip token)) h.1 d
    lowered (inr (e, l)) = ap (contains m) e ∙ contains-high m (weekday k) h.1 (weekday-high k)

pub contains-append : (m : ℕ) (s t : Text) → contains m (s ++ t) ≡ (contains m s || contains m t)
contains-append m [] t = refl
contains-append m (c ∷ s) t = ground (arith, contains-append m s t)

-- A range has no slash in it.
pub IsRange-slash :
    (base : Text) (first last : ℕ) → IsRange base first last → contains 47 base ≡ false
IsRange-slash base first last (inl (e, f, l)) = ap (contains 47) e
IsRange-slash base first last (inr (inl (d, e))) =
    IsDay-mark 47 base first (omega arith, omega arith) d
IsRange-slash base first last (inr (inr (a, b, e, d, g, l))) =
    ap (contains 47) e
    ∙ contains-append 47 a (45 ∷ b)
    ∙ both (contains 47 a) (contains 47 b) (IsDay-mark 47 a first (omega arith, omega arith) d)
        (IsDay-mark 47 b last (omega arith, omega arith) g)
  where
    both : (x y : Bool) → x ≡ false → y ≡ false → (x || ((47 == 45) || y)) ≡ false
    both x y p q = ground arith
