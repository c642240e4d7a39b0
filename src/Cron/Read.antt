-- ===== src/Cron/Read.antt =====
-- The parser of a weekday term reads what the term means in cron, and reads nothing else.
use mathlib.Core.Path.{subst}
use mimirheim.Prelude.{
  ℕ, zero, suc, ◌≤◌, ◌<◌, ◌≡◌, refl, sym, ap, ◌∙◌, inl, inr, Bool, true, false, ◌||◌, Option, none,
  some, some_inj, List, [], ◌∷◌, ◌++◌, get_elem?, get_elem?-lt, arith, Bool-cases, ltb, ◌==◌,
  if◌then◌else◌, ◌>>=◌,
}
use mimirheim.Prelude.Text.{
  Text, same_text, same_text-eq, is_blank, strip, lstrip, lower, contains, partition, isdigit, int,
}
use mimirheim.Cron.{dash, star, cron_day_names, index_of, parse_day, bounds}
use mimirheim.Cron.Standard.{weekday, IsDay, IsRange, IsDay-mark, contains-append}

pub partition-append :
    (m : ℕ) (a b : Text) → contains m a ≡ false → partition m (a ++ (m ∷ b)) ≡ (a, b)
partition-append m [] b h = rw (same m) refl
  where
    same : (m : ℕ) → (m == m) ≡ true
    same m = ground arith
partition-append m (c ∷ a) b h = rw (other (m == c) (contains m a) h) (
    ap (λ (p : Text × Text). pair (c ∷ p.0) p.1)
      (partition-append m a b (none_left (m == c) (contains m a) h)))
  where
    pair : Text → Text → Text × Text
    pair x y = (x, y)

    other : (x y : Bool) → (x || y) ≡ false → x ≡ false
    other x y h = ground arith

    none_left : (x y : Bool) → (x || y) ≡ false → y ≡ false
    none_left x y h = ground arith

pub partition-parts :
    (m : ℕ) (s : Text) → contains m s ≡ true → s ≡ (partition m s).0 ++ (m ∷ (partition m s).1)
partition-parts m [] h = cc
partition-parts m (c ∷ s) h = elim (Bool-cases (m == c)) [
  | inl e ↦ rw e (ap (λ x. x ∷ s) (ground arith))
  | inr e ↦ rw e (ap (λ t. c ∷ t) (partition-parts m s (rw e at h)))
]

weekday_letters : (k : ℕ) → isdigit (weekday k) ≡ false
weekday_letters zero = refl
weekday_letters (suc zero) = refl
weekday_letters (suc (suc zero)) = refl
weekday_letters (suc (suc (suc zero))) = refl
weekday_letters (suc (suc (suc (suc zero)))) = refl
weekday_letters (suc (suc (suc (suc (suc zero))))) = refl
weekday_letters (suc (suc (suc (suc (suc (suc zero)))))) = refl
weekday_letters (suc (suc (suc (suc (suc (suc (suc d))))))) = weekday_letters d

-- The table's first place of a weekday's name is the weekday.
index_of-weekday : (k : ℕ) → k < 7 → index_of (weekday k) cron_day_names ≡ some k
unfolding index_of
index_of-weekday zero l = refl
index_of-weekday (suc zero) l = refl
index_of-weekday (suc (suc zero)) l = refl
index_of-weekday (suc (suc (suc zero))) l = refl
index_of-weekday (suc (suc (suc (suc zero)))) l = refl
index_of-weekday (suc (suc (suc (suc (suc zero))))) l = refl
index_of-weekday (suc (suc (suc (suc (suc (suc zero)))))) l = refl
index_of-weekday (suc (suc (suc (suc (suc (suc (suc d))))))) l = absurd (omega (arith, l))

pub cron_day_names-weekday :
    (k : ℕ) (n : Text) → get_elem? cron_day_names k ≡ some n → weekday k ≡ n
cron_day_names-weekday zero n h = some_inj h
cron_day_names-weekday (suc zero) n h = some_inj h
cron_day_names-weekday (suc (suc zero)) n h = some_inj h
cron_day_names-weekday (suc (suc (suc zero))) n h = some_inj h
cron_day_names-weekday (suc (suc (suc (suc zero)))) n h = some_inj h
cron_day_names-weekday (suc (suc (suc (suc (suc zero))))) n h = some_inj h
cron_day_names-weekday (suc (suc (suc (suc (suc (suc zero)))))) n h = some_inj h
cron_day_names-weekday (suc (suc (suc (suc (suc (suc (suc zero))))))) n h = some_inj h
cron_day_names-weekday (suc (suc (suc (suc (suc (suc (suc (suc d)))))))) n h = cc

index_of-get :
    (t : Text) (names : List Text) (k : ℕ)
    → index_of t names ≡ some k
    → (n : Text) × (get_elem? names k ≡ some n) × (t ≡ n)
unfolding index_of
index_of-get t [] k h = cc
index_of-get t (n ∷ names) k h = elim (Bool-cases (same_text t n)) [
  | inl e ↦
      let z : 0 ≡ k = some_inj (rw e at h) in
      (n, ap (get_elem? (n ∷ names)) (sym z), same_text-eq t n e)
  | inr e ↦ further (index_of t names) (rw e at h) (λ i q. index_of-get t names i q)
]
  where
    further :
        (o : Option ℕ)
        → (o >>= λ i. some (suc i)) ≡ some k
        → ((i : ℕ) → o ≡ some i → (m : Text) × (get_elem? names i ≡ some m) × (t ≡ m))
        → (m : Text) × (get_elem? (n ∷ names) k ≡ some m) × (t ≡ m)
    further none g ih = cc
    further (some i) g ih =
        let (m, e, same) = ih i refl in (m, ap (get_elem? (n ∷ names)) (sym (some_inj g)) ∙ e, same)

index_of-lt : (t : Text) (k : ℕ) → index_of t cron_day_names ≡ some k → (t ≡ weekday k) × (k < 7)
index_of-lt t k h =
    let (n, e, same) = index_of-get t cron_day_names k h in
    let name : t ≡ weekday k = same ∙ sym (cron_day_names-weekday k n e) in
    (
      name,
      early k (get_elem?-lt cron_day_names k n e)
          (ap (λ s. index_of s cron_day_names) (sym name) ∙ h),
    )
  where
    early : (k : ℕ) → k < 8 → index_of (weekday k) cron_day_names ≡ some k → k < 7
    early k l e = elim (Bool-cases (ltb k 7)) [
      | inl small ↦ ground arith
      | inr large ↦
          let seven : k ≡ 7 = ground arith in
          absurd (twice (subst (λ j. index_of (weekday j) cron_day_names ≡ some j) seven e))
    ]
      where
        twice : index_of (weekday 7) cron_day_names ≡ some 7 → ⊥
        twice g =
            let z : 0 ≡ 7 = some_inj (sym (index_of-weekday 0 (omega arith)) ∙ g) in
            omega (arith, z)

-- A day is read as the day that it is, and nothing else is read as one.
parse_day-IsDay : (token : Text) (k : ℕ) → parse_day token ≡ some k → IsDay token k
unfolding parse_day
parse_day-IsDay token k h = elim (Bool-cases (isdigit (lower (strip token)))) [
  | inl d ↦ elim (Bool-cases (ltb 7 (int (lower (strip token))))) [
    | inl big ↦ let h' = rw (d, big) at h in cc
    | inr small ↦ let e = some_inj (rw (d, small) at h) in inl (d, e, ground arith)
  ]
  | inr d ↦ inr (index_of-lt (lower (strip token)) k (rw d at h))
]

IsDay-parse_day : (token : Text) (k : ℕ) → IsDay token k → parse_day token ≡ some k
unfolding parse_day
IsDay-parse_day token k (inl (d, e, l)) =
    let small : ltb 7 (int (lower (strip token))) ≡ false = rw e (ground arith) in
    rw (d, small) (ap (λ (n : ℕ). some n) e)
IsDay-parse_day token k (inr (e, l)) =
    let d : isdigit (lower (strip token)) ≡ false = ap isdigit e ∙ weekday_letters k in
    rw d (ap (λ t. index_of t cron_day_names) e ∙ index_of-weekday k l)

lstrip-contains :
    (m : ℕ) (s : Text) → contains m (lstrip (λ c. m == c) s) ≡ true → contains m s ≡ true
lstrip-contains m [] h = h
lstrip-contains m (c ∷ s) h = elim (Bool-cases (m == c)) [ inl e ↦ rw e refl | inr e ↦ rw e at h ]

pub bounds-IsRange :
    (base : Text) (first last : ℕ) → bounds base ≡ some (first, last) → IsRange base first last
unfolding bounds
bounds-IsRange base first last h = elim (Bool-cases (is_blank base)) [
  | inl e ↦ let h' = rw e at h in cc
  | inr e ↦ elim (Bool-cases (same_text base star)) [
    | inl s ↦
        let p = some_inj (rw (e, s) at h) in
        inl (
          same_text-eq base star s,
          sym (ap (λ (q : ℕ × ℕ). q.0) p),
          sym (ap (λ (q : ℕ × ℕ). q.1) p),
        )
    | inr s ↦ elim (Bool-cases (contains dash (lstrip (λ c. dash == c) base))) [
      | inl d ↦
          two (parse_day (partition dash base).0) refl (parse_day (partition dash base).1) refl
            (lstrip-contains dash base d) (rw (e, s, d) at h)
      | inr d ↦ one (parse_day base) refl (rw (e, s, d) at h)
    ]
  ]
]
  where
    one :
        (o : Option ℕ)
        → parse_day base ≡ o
        → ◌>>=◌ {B = ℕ × ℕ} o (λ day. some (day, day)) ≡ some (first, last)
        → IsRange base first last
    one none q g = cc
    one (some day) q g =
        let p = some_inj g in
        let f : day ≡ first = ap (λ (r : ℕ × ℕ). r.0) p in
        inr (
          inl (
            parse_day-IsDay base first (q ∙ ap (λ (n : ℕ). some n) f),
            sym (ap (λ (r : ℕ × ℕ). r.1) p) ∙ f,
          ))

    two :
        (o : Option ℕ)
        → parse_day (partition dash base).0 ≡ o
        → (u : Option ℕ) → parse_day (partition dash base).1 ≡ u
        → contains dash base ≡ true
        → ◌>>=◌ {B = ℕ × ℕ} o
            (λ a. ◌>>=◌ {B = ℕ × ℕ} u (λ b. if ltb b a then none else some (a, b)))
          ≡ some (first, last)
        → IsRange base first last
    two none q u v c g = cc
    two (some a) q none v c g = cc
    two (some a) q (some b) v c g = elim (Bool-cases (ltb b a)) [
      | inl back ↦ let g' = rw back at g in cc
      | inr fine ↦
          let p = some_inj (rw fine at g) in
          let f : a ≡ first = ap (λ (r : ℕ × ℕ). r.0) p in
          let l : b ≡ last = ap (λ (r : ℕ × ℕ). r.1) p in
          inr (
            inr (
              (partition dash base).0,
              (partition dash base).1,
              partition-parts dash base c,
              parse_day-IsDay (partition dash base).0 first (q ∙ ap (λ (n : ℕ). some n) f),
              parse_day-IsDay (partition dash base).1 last (v ∙ ap (λ (n : ℕ). some n) l),
              ground arith,
            ))
    ]

one_day : (base : Text) (k : ℕ) → IsDay base k → bounds base ≡ some (k, k)
unfolding bounds
one_day base k d =
    let p = IsDay-parse_day base k d in
    let free : contains dash base ≡ false = IsDay-mark dash base k (omega arith, omega arith) d in
    rw (filled base p, unstarred base p, undashed base free) (rw p refl)
  where
    filled : (base : Text) → parse_day base ≡ some k → is_blank base ≡ false
    filled [] p = unfold parse_day index_of in cc
    filled (c ∷ s) p = refl

    unstarred : (base : Text) → parse_day base ≡ some k → same_text base star ≡ false
    unstarred base p = elim (Bool-cases (same_text base star)) [
      | inl e ↦
          let none_read : parse_day star ≡ some k =
            ap parse_day (sym (same_text-eq base star e)) ∙ p in
          unfold parse_day index_of in cc
      | inr e ↦ e
    ]

    undashed :
        (base : Text)
        → contains dash base ≡ false
        → contains dash (lstrip (λ c. dash == c) base) ≡ false
    undashed base free = elim (Bool-cases (contains dash (lstrip (λ c. dash == c) base))) [
      | inl e ↦ let e' = lstrip-contains dash base e in cc
      | inr e ↦ e
    ]

two_days :
    (a b : Text) (first last : ℕ)
    → IsDay a first
    → IsDay b last
    → first ≤ last
    → bounds (a ++ (dash ∷ b)) ≡ some (first, last)
unfolding bounds
two_days a b first last d g l =
    let free : contains dash a ≡ false = IsDay-mark dash a first (omega arith, omega arith) d in
    let p = IsDay-parse_day a first d in
    let q = IsDay-parse_day b last g in
    let parts = partition-append dash a b free in
    let left : parse_day (partition dash (a ++ (dash ∷ b))).0 ≡ some first =
      ap (λ (t : Text × Text). parse_day t.0) parts ∙ p in
    let right : parse_day (partition dash (a ++ (dash ∷ b))).1 ≡ some last =
      ap (λ (t : Text × Text). parse_day t.1) parts ∙ q in
    let order : ltb last first ≡ false = ground arith in
    rw (filled a, unstarred a b, inner a p free) (rw (left, right, order) refl)
  where
    filled : (a : Text) → is_blank (a ++ (dash ∷ b)) ≡ false
    filled [] = refl
    filled (c ∷ s) = refl

    unstarred : (a b : Text) → same_text (a ++ (dash ∷ b)) star ≡ false
    unstarred a b = elim (Bool-cases (same_text (a ++ (dash ∷ b)) star)) [
      | inl e ↦
          let e' : contains dash (a ++ (dash ∷ b)) ≡ false =
            ap (contains dash) (same_text-eq (a ++ (dash ∷ b)) star e) in
          let t = contains-append dash a (dash ∷ b) in ground arith
      | inr e ↦ e
    ]

    inner :
        (a : Text)
        → parse_day a ≡ some first
        → contains dash a ≡ false
        → contains dash (lstrip (λ c. dash == c) (a ++ (dash ∷ b))) ≡ true
    inner [] p free = unfold parse_day index_of in cc
    inner (c ∷ s) p free =
        rw (head_or (dash == c) (contains dash s) free)
          (contains-append dash (c ∷ s) (dash ∷ b) ∙ ground arith)
      where
        head_or : (x y : Bool) → (x || y) ≡ false → x ≡ false
        head_or x y h = ground arith

pub IsRange-bounds :
    (base : Text) (first last : ℕ) → IsRange base first last → bounds base ≡ some (first, last)
IsRange-bounds base first last (inl (e, f, l)) =
    ap bounds e ∙ unfold bounds in (λ i. some (sym f i, sym l i))
IsRange-bounds base first last (inr (inl (d, e))) =
    one_day base first d ∙ ap (λ n. some (to_pair first n)) (sym e)
  where
    to_pair : ℕ → ℕ → ℕ × ℕ
    to_pair x y = (x, y)
IsRange-bounds base first last (inr (inr (a, b, e, d, g, l))) =
    ap bounds e ∙ two_days a b first last d g l
