-- ===== src/Solver/Sos.antt =====
-- `add_sos2`: weights of which at most two neighbours are not zero.
use mathlib.Core.Path.{subst}
use mimirheim.Prelude.{
  ℕ, zero, suc, ◌≡◌, ◌≢◌, refl, sym, ap, ◌∙◌, inl, inr, true, Option, none, some, some_inj, List,
  [], ◌∷◌, get_elem?, In_of-get_elem?, length, arith, In,
}
use mimirheim.Solver.{
  Linear, Variable, Constraint, equal, at_most, Model, Feasible, sum_from, add_var, add_constraint,
}
use mimirheim.Solver.Binary.{IsBinary, sum_first-OneSet}

module _ {F E S : Type 0} (l : Linear F E S) where
  -- `[self.add_var(lb=0.0, ub=1.0, integer=True) for _ in range(n)]`
  unfoldable pub add_binaries : ℕ → Model F E → List E × Model F E
  add_binaries zero m = ([], m)
  add_binaries (suc n) m =
      let (b, m1) = add_var l l.zero l.one true m in
      let (bs, m2) = add_binaries n m1 in (b ∷ bs, m2)

  -- the bounds of the weights after the first by their two segments
  unfoldable pub add_bounds : List E → List E → Model F E → Model F E
  unfolding add_constraint
  add_bounds (w ∷ []) (b ∷ []) m = add_constraint (at_most w b) m
  add_bounds (w ∷ ws) (b ∷ c ∷ bs) m =
      add_bounds ws (c ∷ bs) (add_constraint (at_most w (l.plus b c)) m)
  add_bounds ws bs m = m

  unfoldable pub link : E → List E → List E → Model F E → Option (Model F E)
  unfolding add_bounds add_constraint
  link w ws [] m = none
  link w ws (b ∷ bs) m = some (
      add_bounds ws (b ∷ bs) (
        add_constraint (at_most w b)
          (add_constraint (equal (sum_from l b bs) (l.constant l.one)) m)))

  -- fewer than two weights raise
  unfoldable pub add_sos2 : List E → Model F E → Option (Model F E)
  unfolding add_binaries link
  add_sos2 [] m = none
  add_sos2 (w ∷ ws) m = let (bs, m1) = add_binaries (length ws) m in link w ws bs m1

  -- A model that has all that another has.
  abbrev pub Extends : Model F E → Model F E → Type 0
  Extends m n =
      ((v : Variable F E) → In v m.variables → In v n.variables)
      × ((c : Constraint E) → In c m.constraints → In c n.constraints)

  add_bounds-Extends : (ws bs : List E) (m : Model F E) → Extends m (add_bounds ws bs m)
  unfolding add_bounds add_constraint
  add_bounds-Extends [] bs m = (λ v i. i, λ c i. i)
  add_bounds-Extends (w ∷ []) [] m = (λ v i. i, λ c i. i)
  add_bounds-Extends (w ∷ []) (b ∷ []) m = (λ v i. i, λ c i. inr i)
  add_bounds-Extends (w ∷ []) (b ∷ c ∷ bs) m = (λ v i. i, λ c i. inr i)
  add_bounds-Extends (w ∷ v ∷ ws) [] m = (λ v i. i, λ c i. i)
  add_bounds-Extends (w ∷ v ∷ ws) (b ∷ []) m = (λ v i. i, λ c i. i)
  add_bounds-Extends (w ∷ v ∷ ws) (b ∷ c ∷ bs) m =
      let (vars, cons) =
        add_bounds-Extends (v ∷ ws) (c ∷ bs) (add_constraint (at_most w (l.plus b c)) m) in
      (vars, λ x i. cons x (inr i))

  module _ (s : S) where
    -- A weight whose two segments are off is zero.
    add_bounds-zero :
        (ws bs : List E) (m : Model F E) (i : ℕ) (w : E)
        → Feasible l s (add_bounds ws bs m)
        → length ws ≡ length bs
        → get_elem? ws i ≡ some w
        → l.le l.zero (l.value s w) ≡ true
        → ((b : E) → get_elem? bs i ≡ some b → l.value s b ≡ l.zero)
        → ((c : E) → get_elem? bs (suc i) ≡ some c → l.value s c ≡ l.zero)
        → l.value s w ≡ l.zero
    unfolding add_bounds add_constraint
    add_bounds-zero [] bs m i w f e g p z y = cc
    add_bounds-zero (v ∷ ws) [] m i w f e g p z y = absurd (omega (arith, e))
    add_bounds-zero (v ∷ []) (b ∷ []) m zero w f e g p z y =
        l.le_antisym _ _
          (subst (λ x. l.le (l.value s w) x ≡ true) (z b refl)
            (subst (λ x. l.le (l.value s x) (l.value s b) ≡ true) (some_inj g)
              (f.1 (at_most v b) (inl refl))))
          p
    add_bounds-zero (v ∷ []) (b ∷ []) m (suc i) w f e g p z y = cc
    add_bounds-zero (v ∷ []) (b ∷ c ∷ bs) m i w f e g p z y = absurd (omega (arith, e))
    add_bounds-zero (v ∷ u ∷ ws) (b ∷ []) m i w f e g p z y = absurd (omega (arith, e))
    add_bounds-zero (v ∷ u ∷ ws) (b ∷ c ∷ bs) m zero w f e g p z y =
        let (vars, cons) =
          add_bounds-Extends (u ∷ ws) (c ∷ bs) (add_constraint (at_most v (l.plus b c)) m) in
        let both : l.value s (l.plus b c) ≡ l.zero =
          l.value_plus s b c ∙ ap (l.add (l.value s b)) (y c refl) ∙ l.add_zero _ ∙ z b refl in
        l.le_antisym _ _
          (subst (λ x. l.le (l.value s w) x ≡ true) both
            (subst (λ x. l.le (l.value s x) (l.value s (l.plus b c)) ≡ true) (some_inj g)
              (f.1 (at_most v (l.plus b c)) (cons _ (inl refl)))))
          p
    add_bounds-zero (v ∷ u ∷ ws) (b ∷ c ∷ bs) m (suc i) w f e g p z y =
        add_bounds-zero (u ∷ ws) (c ∷ bs) (add_constraint (at_most v (l.plus b c)) m) i w f
          (omega (arith, e)) g p z y

  add_binaries-Extends : (n : ℕ) (m : Model F E) → Extends m (add_binaries n m).1
  unfolding add_binaries add_var
  add_binaries-Extends zero m = (λ v i. i, λ c i. i)
  add_binaries-Extends (suc n) m =
      let (vars, cons) = add_binaries-Extends n (add_var l l.zero l.one true m).1 in
      (λ v i. vars v (inr i), cons)

  length-add_binaries : (n : ℕ) (m : Model F E) → length (add_binaries n m).0 ≡ n
  unfolding add_binaries
  length-add_binaries zero m = refl
  length-add_binaries (suc n) m = ap suc (length-add_binaries n (add_var l l.zero l.one true m).1)

  -- The variable of an added binary.
  abbrev pub binary_of : E → Variable F E
  binary_of b = record { handle = b; lb = l.zero; ub = l.one; integer = true }

  In-add_binaries :
      (n : ℕ) (m : Model F E) (b : E)
      → In b (add_binaries n m).0
      → In (binary_of b) (add_binaries n m).1.variables
  unfolding add_binaries add_var
  In-add_binaries zero m b i = absurd i
  In-add_binaries (suc n) m b (inl e) =
      (add_binaries-Extends n (add_var l l.zero l.one true m).1).0 (binary_of b)
        (inl (ap binary_of e))
  In-add_binaries (suc n) m b (inr i) = In-add_binaries n (add_var l l.zero l.one true m).1 b i

  -- At most two weights are not zero, and they are neighbours.
  abbrev pub Neighbours : S → List E → Type 0
  Neighbours s ws =
      (k : ℕ) × ((i : ℕ) (w : E)
        → get_elem? ws i ≡ some w
        → i ≢ k
        → i ≢ suc k
        → l.value s w ≡ l.zero)

  binaries-IsBinary :
      (s : S) (n : ℕ) (m final : Model F E)
      → Extends (add_binaries n m).1 final
      → Feasible l s final
      → (b : E) → In b (add_binaries n m).0
      → IsBinary l s b
  binaries-IsBinary s n m final x f b i =
      let (low, high, whole) = f.0 (binary_of b) (x.0 _ (In-add_binaries n m b i)) in
      l.binary _ (whole refl) low high

  link-Extends :
      (w : E) (ws bs : List E) (m final : Model F E) → link w ws bs m ≡ some final → Extends m final
  unfolding link add_constraint
  link-Extends w ws [] m final h = cc
  link-Extends w ws (b ∷ bs) m final h =
      let start =
        add_constraint (at_most w b)
          (add_constraint (equal (sum_from l b bs) (l.constant l.one)) m) in
      let (vars, cons) = add_bounds-Extends ws (b ∷ bs) start in
      subst (Extends m) (some_inj h) (vars, λ c i. cons c (inr (inr i)))

  -- Where one segment is on, a weight that is not at its ends is zero.
  elsewhere :
      (s : S) (w : E) (ws : List E) (b : E) (bs : List E) (m : Model F E) (k : ℕ)
      → length ws ≡ length (b ∷ bs)
      → Feasible l s (add_bounds ws (b ∷ bs) (add_constraint (at_most w b) m))
      → ((v : E) → In v (w ∷ ws) → l.le l.zero (l.value s v) ≡ true)
      → ((i : ℕ) (c : E) → i ≢ k → get_elem? (b ∷ bs) i ≡ some c → l.value s c ≡ l.zero)
      → (i : ℕ) (v : E) → get_elem? (w ∷ ws) i ≡ some v
      → i ≢ k
      → i ≢ suc k
      → l.value s v ≡ l.zero
  unfolding add_constraint
  elsewhere s w ws b bs m k e f p off zero v g d d2 =
      let (vars, cons) = add_bounds-Extends ws (b ∷ bs) (add_constraint (at_most w b) m) in
      l.le_antisym _ _
        (subst (λ x. l.le (l.value s v) x ≡ true) (off 0 b d refl)
          (subst (λ x. l.le (l.value s x) (l.value s b) ≡ true) (some_inj g)
            (f.1 (at_most w b) (cons _ (inl refl)))))
        (p v (inl (sym (some_inj g))))
  elsewhere s w ws b bs m k e f p off (suc i) v g d d2 =
      add_bounds-zero s ws (b ∷ bs) (add_constraint (at_most w b) m) i v f e g
        (p v (inr (In_of-get_elem? ws i v g))) (λ c q. off i c (λ r. d2 (ap suc r)) q)
        (λ c q. off (suc i) c d q)

  link-Neighbours :
      (s : S) (w : E) (ws bs : List E) (m final : Model F E)
      → length ws ≡ length bs
      → link w ws bs m ≡ some final
      → Feasible l s final
      → ((b : E) → In b bs → IsBinary l s b)
      → ((v : E) → In v (w ∷ ws) → l.le l.zero (l.value s v) ≡ true)
      → Neighbours s (w ∷ ws)
  unfolding link add_constraint
  link-Neighbours s w ws [] m final e h f bin p = cc
  link-Neighbours s w ws (b ∷ bs) m final e h f0 bin p =
      let start =
        add_constraint (at_most w b)
          (add_constraint (equal (sum_from l b bs) (l.constant l.one)) m) in
      let f = subst (Feasible l s) (sym (some_inj h)) f0 in
      let (vars, cons) = add_bounds-Extends ws (b ∷ bs) start in
      let one = f.1 (equal (sum_from l b bs) (l.constant l.one)) (cons _ (inr (inl refl))) in
      let (k, c, at, set, others) =
        sum_first-OneSet l s b bs bin (one ∙ l.value_constant s l.one) in
      (
        k,
        elsewhere s w ws b bs (add_constraint (equal (sum_from l b bs) (l.constant l.one)) m) k e f
            p others,
      )

  -- Where the weights cannot be negative, every solution of the model after `add_sos2` has two
  -- neighbouring places such that all weights elsewhere are zero.
  pub add_sos2-Neighbours :
      (s : S) (ws : List E) (m final : Model F E)
      → add_sos2 ws m ≡ some final
      → Feasible l s final
      → ((v : E) → In v ws → l.le l.zero (l.value s v) ≡ true)
      → Neighbours s ws
  unfolding add_sos2
  add_sos2-Neighbours s [] m final h f p = cc
  add_sos2-Neighbours s (w ∷ ws) m final h f p =
      link-Neighbours s w ws (add_binaries (length ws) m).0 (add_binaries (length ws) m).1 final
        (sym (length-add_binaries (length ws) m)) h f
        (binaries-IsBinary s (length ws) m final
          (link-Extends w ws (add_binaries (length ws) m).0 (add_binaries (length ws) m).1 final h)
          f)
        p
