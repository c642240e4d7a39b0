-- ===== src/Solver/Binary.antt =====
-- Binary variables of which exactly one is set.
use mathlib.Core.Path.{subst}
use mimirheim.Prelude.{
  ℕ, zero, suc, ◌+◌, ◌≡◌, ◌≢◌, refl, sym, ap, ◌∙◌, ◌⊎◌, inl, inr, some, some_inj, List, [], ◌∷◌,
  get_elem?, arith, In,
}
use mimirheim.Solver.{Linear, sum_from, sum}

module _ {F E S : Type 0} (l : Linear F E S) (s : S) where
  abbrev pub IsBinary : E → Type 0
  IsBinary b = (l.value s b ≡ l.zero) ⊎ (l.value s b ≡ l.one)

  -- `n` of the expressions are 1, and the others are 0.
  Ones : List E → ℕ → Type 0
  Ones [] n = n ≡ 0
  Ones (b ∷ bs) n =
      ((l.value s b ≡ l.zero) × Ones bs n)
      ⊎ ((m : ℕ) × (n ≡ suc m) × (l.value s b ≡ l.one) × Ones bs m)

  count-Ones : (bs : List E) → ((b : E) → In b bs → IsBinary b) → (n : ℕ) × Ones bs n
  unfolding Ones
  count-Ones [] h = (0, refl)
  count-Ones (b ∷ bs) h =
      let (n, o) = count-Ones bs (λ c m. h c (inr m)) in
      elim (h b (inl refl)) [ inl e ↦ (n, inl (e, o)) | inr e ↦ (suc n, inr (n, refl, e, o)) ]

  value-sum_from :
      (bs : List E) (acc : E) (a n : ℕ)
      → l.value s acc ≡ l.of_nat a
      → Ones bs n
      → l.value s (sum_from l acc bs) ≡ l.of_nat (a + n)
  unfolding Ones
  value-sum_from [] acc a n h o = h ∙ ap l.of_nat (omega (arith, o))
  value-sum_from (b ∷ bs) acc a n h (inl (e, o)) =
      value-sum_from bs (l.plus acc b) a n
        (l.value_plus s acc b ∙ ap (l.add (l.value s acc)) e ∙ l.add_zero _ ∙ h) o
  value-sum_from (b ∷ bs) acc a n h (inr (m, q, e, o)) =
      value-sum_from bs (l.plus acc b) (suc a) m
        (l.value_plus s acc b
          ∙ ap (l.add (l.value s acc)) e
          ∙ ap (λ x. l.add x l.one) h
          ∙ sym (l.of_nat_suc a))
        o
      ∙ ap l.of_nat (omega (arith, q))

  none_set :
      (bs : List E) (i : ℕ) (b : E) → Ones bs 0 → get_elem? bs i ≡ some b → l.value s b ≡ l.zero
  unfolding Ones
  none_set [] i b o h = cc
  none_set (c ∷ bs) zero b (inl (e, o)) h = ap (l.value s) (sym (some_inj h)) ∙ e
  none_set (c ∷ bs) (suc i) b (inl (e, o)) h = none_set bs i b o h
  none_set (c ∷ bs) i b (inr (m, q, e, o)) h = absurd (omega (arith, q))

  -- One place is set, and every other is not.
  abbrev pub OneSet : List E → Type 0
  OneSet bs =
      (k : ℕ) × (b : E) × (get_elem? bs k ≡ some b)
      × (l.value s b ≡ l.one)
      × ((i : ℕ) (c : E) → i ≢ k → get_elem? bs i ≡ some c → l.value s c ≡ l.zero)

  one_set : (bs : List E) → Ones bs 1 → OneSet bs
  unfolding Ones
  one_set [] o = absurd (omega (arith, o))
  one_set (b ∷ bs) (inl (e, o)) =
      let (k, c, h, v, others) = one_set bs o in (suc k, c, h, v, rest k others)
    where
      rest :
          (k : ℕ)
          → ((i : ℕ) (c : E) → i ≢ k → get_elem? bs i ≡ some c → l.value s c ≡ l.zero)
          → (i : ℕ) (c : E) → i ≢ suc k
          → get_elem? (b ∷ bs) i ≡ some c
          → l.value s c ≡ l.zero
      rest k others zero c d h = ap (l.value s) (sym (some_inj h)) ∙ e
      rest k others (suc i) c d h = others i c (λ q. d (ap suc q)) h
  one_set (b ∷ bs) (inr (m, q, e, o)) = (0, b, refl, e, rest)
    where
      rest : (i : ℕ) (c : E) → i ≢ 0 → get_elem? (b ∷ bs) i ≡ some c → l.value s c ≡ l.zero
      rest zero c d h = absurd (d refl)
      rest (suc i) c d h = none_set bs i c (subst (Ones bs) (omega (arith, q)) o) h

  of_total : (n : ℕ) (bs : List E) → Ones bs n → l.of_nat n ≡ l.one → OneSet bs
  of_total n bs o e = one_set bs (subst (Ones bs) (l.of_nat_inj n 1 (e ∙ sym l.of_nat_one)) o)

  -- Binaries that sum to 1, where the sum starts at 0.
  pub sum-OneSet :
      (bs : List E) → ((b : E) → In b bs → IsBinary b) → l.value s (sum l bs) ≡ l.one → OneSet bs
  sum-OneSet bs h e =
      let (n, o) = count-Ones bs h in
      let total : l.value s (sum l bs) ≡ l.of_nat (0 + n) =
        value-sum_from bs (l.constant l.zero) 0 n (l.value_constant s l.zero ∙ sym l.of_nat_zero)
          o in
      of_total n bs o (ap l.of_nat (omega arith) ∙ sym total ∙ e)

  value-sum_first :
      (b : E) (bs : List E) (n : ℕ) → Ones (b ∷ bs) n → l.value s (sum_from l b bs) ≡ l.of_nat n
  unfolding Ones
  value-sum_first b bs n (inl (e, o)) =
      value-sum_from bs b 0 n (e ∙ sym l.of_nat_zero) o ∙ ap l.of_nat (omega arith)
  value-sum_first b bs n (inr (m, q, e, o)) =
      value-sum_from bs b 1 m (e ∙ sym l.of_nat_one) o ∙ ap l.of_nat (omega (arith, q))

  -- Binaries that sum to 1, where the sum starts at the first.
  pub sum_first-OneSet :
      (b : E) (bs : List E)
      → ((c : E) → In c (b ∷ bs) → IsBinary c)
      → l.value s (sum_from l b bs) ≡ l.one
      → OneSet (b ∷ bs)
  sum_first-OneSet b bs h e =
      let (n, o) = count-Ones (b ∷ bs) h in
      of_total n (b ∷ bs) o (sym (value-sum_first b bs n o) ∙ e)

  -- a weighted sum after a term that is off
  pub add_off :
      (acc h : E) (x : F)
      → l.value s h ≡ l.zero
      → l.value s (l.plus acc (l.times x h)) ≡ l.value s acc
  add_off acc h x e =
      l.value_plus s acc (l.times x h)
      ∙ ap (l.add (l.value s acc)) (l.value_times s x h ∙ ap (l.mul x) e ∙ l.mul_zero x)
      ∙ l.add_zero (l.value s acc)

  -- a weighted sum after the term that is on
  pub add_on :
      (acc h : E) (x : F)
      → l.value s acc ≡ l.zero
      → l.value s h ≡ l.one
      → l.value s (l.plus acc (l.times x h)) ≡ x
  add_on acc h x z e =
      l.value_plus s acc (l.times x h)
      ∙ ap (λ y. l.add y (l.value s (l.times x h))) z
      ∙ l.zero_add (l.value s (l.times x h))
      ∙ l.value_times s x h
      ∙ ap (l.mul x) e
      ∙ l.mul_one x
