-- ===== src/Devices/DeferrableLoad/Once.antt =====
-- A load that is scheduled runs once, within its window and the horizon.
use mimirheim.Prelude.{
  ℕ, zero, suc, ◌+◌, ◌-◌, ◌≤◌, ◌<◌, ◌≡◌, ◌≢◌, refl, sym, ap, ◌∙◌, ◌⊎◌, inl, inr, true, false, none,
  some, List, [], ◌∷◌, length, get_elem?, lt-get_elem?, leb, le→leb, ◌==◌, arith, Option-cases,
  if◌then◌else◌, ◌>>=◌,
}
use mimirheim.Solver.{Linear, sum_from, sum}
use mimirheim.Solver.Binary.{add_off, add_on}
use mimirheim.Devices.DeferrableLoad.{start_at, handles, add_term, terms, scheduled_power}
use mimirheim.Devices.DeferrableLoad.Agree.{power_or_zero, power_at, beyond, Draws}

-- The steps of the starts count up from the first.
unfoldable pub CountsFrom : {E : Type 0} → ℕ → List (ℕ × E) → Type 0
CountsFrom t [] = Unit
CountsFrom t ((u, e) ∷ starts) = (u ≡ t) × CountsFrom (suc t) starts

no_start : {E : Type 0} (k : ℕ) (e : E) → start_at [] k ≡ some e → ⊥
unfolding start_at
no_start k e h = cc

module _ {E : Type 0} where
  pub start_at-before :
      (starts : List (ℕ × E)) (t k : ℕ) → CountsFrom t starts → k < t → start_at starts k ≡ none
  unfolding CountsFrom start_at
  start_at-before [] t k c h = refl
  start_at-before ((u, e) ∷ starts) t k (q, c) h =
      rw (differs u k (omega (arith, q, h))) (start_at-before starts (suc t) k c (omega (arith, h)))
    where
      differs : (u k : ℕ) → k < u → (u == k) ≡ false
      differs u k h = ground arith

  pub start_at-from :
      (starts : List (ℕ × E)) (t i : ℕ)
      → CountsFrom t starts
      → start_at starts (t + i) ≡ get_elem? (handles starts) i
  unfolding CountsFrom start_at
  start_at-from [] t i c = refl
  start_at-from ((u, e) ∷ starts) t zero (q, c) = rw (same u (t + 0) (omega (arith, q))) refl
    where
      same : (u k : ℕ) → u ≡ k → (u == k) ≡ true
      same u k h = ground arith
  start_at-from ((u, e) ∷ starts) t (suc i) (q, c) =
      rw (differs u (t + suc i) (omega (arith, q)))
        (ap (start_at starts) (omega arith) ∙ start_at-from starts (suc t) i c)
    where
      differs : (u k : ℕ) → u < k → (u == k) ≡ false
      differs u k h = ground arith

meet : (j k : ℕ) → j ≤ k → (j ≡ k) ⊎ (j < k)
meet j k h = omega arith

lt-ne : (j k : ℕ) → j < k → j ≢ k
lt-ne j k h = omega arith

place : (k first t : ℕ) → (k < first) ⊎ ((first ≤ k) × (k ≤ t)) ⊎ (t < k)
place k first t = omega arith

nearer : (k n j : ℕ) → (k < j) ⊎ (j + suc n ≤ k) → (k < suc j) ⊎ (suc j + n ≤ k)
nearer k n j (inl h) = inl (omega arith)
nearer k n j (inr h) = inr (omega arith)

apart : (k n j : ℕ) → (k < j) ⊎ (j + suc n ≤ k) → j ≢ k
apart k n j (inl h) = omega arith
apart k n j (inr h) = omega arith

module _ {F E S : Type 0} (l : Linear F E S) (power_profile : List F) (s : S) where
  -- One start is set, and the others are not.
  abbrev pub Chosen : List (ℕ × E) → ℕ → Type 0
  Chosen starts k =
      ((e : E) → start_at starts k ≡ some e → l.value s e ≡ l.one)
      × ((i : ℕ) (e : E) → i ≢ k → start_at starts i ≡ some e → l.value s e ≡ l.zero)

  terms_none : (starts : List (ℕ × E)) (j t : ℕ) → terms l power_profile starts zero j t ≡ some []
  unfolding terms
  terms_none starts j t = refl

  -- A step of the sum.
  terms-cons :
      (starts : List (ℕ × E)) (n j t : ℕ) (h : E) (p : F) (es : List E)
      → start_at starts j ≡ some h
      → get_elem? power_profile (t - j) ≡ some p
      → terms l power_profile starts n (suc j) t ≡ some es
      → terms l power_profile starts (suc n) j t ≡ some (l.times p h ∷ es)
  unfolding terms add_term
  terms-cons starts n j t h p es e g r = rw (e, g, r) refl

  terms-skip :
      (starts : List (ℕ × E)) (n j t : ℕ)
      → start_at starts j ≡ none
      → terms l power_profile starts (suc n) j t ≡ terms l power_profile starts n (suc j) t
  unfolding terms add_term
  terms-skip starts n j t e = rw e refl

  -- Where the sum is from a set of steps, its value is the sum's beginning and what the chosen start
  -- adds.
  abbrev Sums : List (ℕ × E) → ℕ → ℕ → ℕ → E → F → Type 0
  Sums starts n j t acc x =
      (es : List E) × (terms l power_profile starts n j t ≡ some es)
      × (l.value s (sum_from l acc es) ≡ x)

  terms-off :
      (starts : List (ℕ × E)) (k n j t : ℕ) (acc : E)
      → Chosen starts k
      → (k < j) ⊎ (j + n ≤ k)
      → j + n ≤ suc t
      → t < j + length power_profile
      → Sums starts n j t acc (l.value s acc)
  terms-off starts k zero j t acc c away p q = ([], terms_none starts j t, refl)
  terms-off starts k (suc n) j t acc c away p q = elim (Option-cases (start_at starts j)) [
    | inl e ↦
        let (es, r, v) =
          terms-off starts k n (suc j) t acc c (nearer k n j away) (omega (arith, p))
            (omega (arith, q)) in
        (es, terms-skip starts n j t e ∙ r, v)
    | inr (h, e) ↦
        let (x, g) = lt-get_elem? power_profile (t - j) (omega (arith, p, q)) in
        let (es, r, v) =
          terms-off starts k n (suc j) t (l.plus acc (l.times x h)) c (nearer k n j away)
            (omega (arith, p)) (omega (arith, q)) in
        let off = add_off l s acc h x (c.1 j h (apart k n j away) e) in
        (l.times x h ∷ es, terms-cons starts n j t h x es e g r, v ∙ off)
  ]

  terms-on :
      (starts : List (ℕ × E)) (k n j t : ℕ) (acc chosen : E)
      → Chosen starts k
      → start_at starts k ≡ some chosen
      → l.value s acc ≡ l.zero
      → j ≤ k
      → k < j + n
      → j + n ≤ suc t
      → t < j + length power_profile
      → Sums starts n j t acc (power_at l power_profile (t - k))
  terms-on starts k zero j t acc chosen c here z lo hi p q = absurd (omega (arith, lo, hi))
  terms-on starts k (suc n) j t acc chosen c here z lo hi p q =
      let (x, g) = lt-get_elem? power_profile (t - j) (omega (arith, p, q)) in
      elim (meet j k lo) [
        | inl now ↦
            let e : start_at starts j ≡ some chosen = ap (start_at starts) now ∙ here in
            let (es, r, v) =
              terms-off starts k n (suc j) t (l.plus acc (l.times x chosen)) c
                (inl (omega (arith, now))) (omega (arith, p)) (omega (arith, q)) in
            let power : power_at l power_profile (t - k) ≡ x =
              ap (λ i. power_at l power_profile (t - i)) (sym now)
              ∙ ap (power_or_zero l power_profile) g in
            (
              l.times x chosen ∷ es,
              terms-cons starts n j t chosen x es e g r,
              v ∙ add_on l s acc chosen x z (c.0 chosen here) ∙ sym power,
            )
        | inr later ↦ elim (Option-cases (start_at starts j)) [
          | inl e ↦
              let (es, r, v) =
                terms-on starts k n (suc j) t acc chosen c here z later (omega (arith, hi))
                  (omega (arith, p)) (omega (arith, q)) in
              (es, terms-skip starts n j t e ∙ r, v)
          | inr (h, e) ↦
              let off = add_off l s acc h x (c.1 j h (lt-ne j k later) e) in
              let (es, r, v) =
                terms-on starts k n (suc j) t (l.plus acc (l.times x h)) chosen c here (off ∙ z)
                  later (omega (arith, hi)) (omega (arith, p)) (omega (arith, q)) in
              (l.times x h ∷ es, terms-cons starts n j t h x es e g r, v)
        ]
      ]

  -- The power of a run that starts at step k, at step t.
  abbrev pub run_at : ℕ → ℕ → F
  run_at k t = if leb k t then power_at l power_profile (t - k) else l.zero

  run_at-later : (k t : ℕ) → t < k → run_at k t ≡ l.zero
  run_at-later k t h = rw (not_leb k t h) refl
    where
      not_leb : (a b : ℕ) → b < a → leb a b ≡ false
      not_leb a b h = ground arith

  run_at-begun : (k t : ℕ) → k ≤ t → run_at k t ≡ power_at l power_profile (t - k)
  run_at-begun k t h = rw (le→leb k t h) refl

  -- the sum over the steps whose runs are still on at step t
  Sums-run :
      (starts : List (ℕ × E)) (k t : ℕ) (chosen : E)
      → Chosen starts k
      → start_at starts k ≡ some chosen
      → 0 < length power_profile
      → Sums starts
          (suc t - (suc t - length power_profile))
          (suc t - length power_profile)
          t
          (l.constant l.zero)
          (run_at k t)
  Sums-run starts k t chosen c here d =
      let first = suc t - length power_profile in
      let z = l.value_constant s l.zero in
      elim (place k first t) [
        | inl early ↦
            let (es, r, v) =
              terms-off starts k (suc t - first) first t (l.constant l.zero) c (inl early)
                (omega arith) (omega (arith, d)) in
            (
              es,
              r,
              v
                  ∙ z
                  ∙ sym (
                      run_at-begun k t (omega (arith, early))
                      ∙ beyond l power_profile (t - k) (omega (arith, early))),
            )
        | inr (inl (lo, hi)) ↦
            let (es, r, v) =
              terms-on starts k (suc t - first) first t (l.constant l.zero) chosen c here z lo
                (omega (arith, lo, hi)) (omega arith) (omega (arith, d)) in
            (es, r, v ∙ sym (run_at-begun k t hi))
        | inr (inr late) ↦
            let (es, r, v) =
              terms-off starts k (suc t - first) first t (l.constant l.zero) c
                (inr (omega (arith, late))) (omega arith) (omega (arith, d)) in
            (es, r, v ∙ z ∙ sym (run_at-later k t late))
      ]

  pub scheduled-Draws :
      (starts : List (ℕ × E)) (k t : ℕ) (chosen : E)
      → Chosen starts k
      → start_at starts k ≡ some chosen
      → 0 < length power_profile
      → Draws l power_profile s (scheduled_power l power_profile starts t) (run_at k t)
  unfolding scheduled_power
  scheduled-Draws [] k t chosen c here d = absurd (no_start k chosen here)
  scheduled-Draws ((u, e) ∷ starts) k t chosen c here d =
      let (es, r, v) = Sums-run ((u, e) ∷ starts) k t chosen c here d in
      (
        l.negate (sum l es),
        ap (λ o. o >>= λ es. some (l.negate (sum l es))) r,
        l.value_negate s (sum l es) ∙ ap l.neg v,
      )
