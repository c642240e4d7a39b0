-- ===== src/Devices/ThermalBoiler/Hold.antt =====
-- The constraints of the starts: a heater that is switched on stays on.
use mathlib.Core.Path.{subst}
use mimirheim.Prelude.{
  ℕ, zero, suc, ◌+◌, ◌-◌, ◌<◌, ◌≡◌, refl, sym, ap, ◌∙◌, inl, inr, true, some, some_inj, List, [],
  ◌∷◌, length, get_elem?, In, In_of-get_elem?, arith,
}
use mimirheim.Solver.{Linear, at_most, Model, Feasible, add_constraint}
use mimirheim.Solver.Binary.{IsBinary}
use mimirheim.Solver.Sos.{Extends}
use mimirheim.Devices.ThermalBoiler.{BoilerSettings, add_holds, add_runs}

none_more : (n : ℕ) → 0 + n ≡ n
none_more n = omega arith

pub one_more : (t n : ℕ) → suc t + n ≡ suc (t + n)
one_more t n = omega arith

module _ {F E S : Type 0} (l : Linear F E S) (config : BoilerSettings F)
    (five dt water_cap : F) where
  add_holds-Extends :
      (n : ℕ) (start : E) (ons : List E) (m : Model F E)
      → Extends l m (add_holds l config five dt water_cap n start ons m)
  unfolding add_holds add_constraint
  add_holds-Extends zero start ons m = (λ v i. i, λ c i. i)
  add_holds-Extends (suc n) start [] m = (λ v i. i, λ c i. i)
  add_holds-Extends (suc n) start (on ∷ ons) m =
      let (vars, cons) = add_holds-Extends n start ons (add_constraint (at_most start on) m) in
      (vars, λ c i. cons c (inr i))

  add_holds-In :
      (n : ℕ) (start : E) (ons : List E) (m : Model F E) (i : ℕ) (on : E)
      → i < n
      → get_elem? ons i ≡ some on
      → In (at_most start on) (add_holds l config five dt water_cap n start ons m).constraints
  unfolding add_holds add_constraint
  add_holds-In zero start ons m i on p h = absurd (omega (arith, p))
  add_holds-In (suc n) start [] m i on p h = cc
  add_holds-In (suc n) start (x ∷ ons) m zero on p h =
      (add_holds-Extends n start ons (add_constraint (at_most start x) m)).1 _
        (inl (ap (at_most start) (sym (some_inj h))))
  add_holds-In (suc n) start (x ∷ ons) m (suc i) on p h =
      add_holds-In n start ons (add_constraint (at_most start x) m) i on (omega (arith, p)) h

  pub add_runs-Extends :
      (before : E) (ons starts : List E) (m : Model F E)
      → Extends l m (add_runs l config five dt water_cap before ons starts m)
  unfolding add_runs add_constraint
  add_runs-Extends before [] starts m = (λ v i. i, λ c i. i)
  add_runs-Extends before (on ∷ ons) [] m = (λ v i. i, λ c i. i)
  add_runs-Extends before (on ∷ ons) (start ∷ starts) m =
      let begun =
        add_constraint (at_most start on) (add_constraint (at_most (l.minus on before) start) m) in
      let (vars, cons) = add_holds-Extends (config.min_run_steps - 1) start ons begun in
      let (vars2, cons2) =
        add_runs-Extends on ons starts
          (add_holds l config five dt water_cap (config.min_run_steps - 1) start ons begun) in
      (λ v i. vars2 v (vars v i), λ c i. cons2 c (cons c (inr (inr i))))

  module _ (s : S) where
    -- a value between 1 and 1
    at_one :
        (x y : E)
        → IsBinary l s y
        → l.value s x ≡ l.one
        → l.le (l.value s x) (l.value s y) ≡ true
        → l.le (l.value s y) l.one ≡ true
        → l.value s y ≡ l.one
    at_one x y b e low high = l.le_antisym _ _ high (subst (λ v. l.le v (l.value s y) ≡ true) e low)

    -- A value of a binary variable, and its bound.
    abbrev pub Switch : E → Type 0
    Switch b = IsBinary l s b × (l.le (l.value s b) l.one ≡ true)

    pub add_runs-on :
        (before : E) (ons starts : List E) (m final : Model F E)
        → Extends l (add_runs l config five dt water_cap before ons starts m) final
        → Feasible l s final
        → length starts ≡ length ons
        → ((b : E) → In b starts → Switch b)
        → ((b : E) → In b ons → Switch b)
        → (t tau : ℕ) (off on e : E) → get_elem? (before ∷ ons) t ≡ some off
        → get_elem? ons t ≡ some on
        → l.value s off ≡ l.zero
        → l.value s on ≡ l.one
        → tau < config.min_run_steps
        → get_elem? ons (t + tau) ≡ some e
        → l.value s e ≡ l.one
    unfolding add_runs add_constraint
    add_runs-on before [] starts m final x f q bs bo t tau off on e g h z o p r = cc
    add_runs-on before (u ∷ ons) [] m final x f q bs bo t tau off on e g h z o p r =
        absurd (omega (arith, q))
    add_runs-on before (u ∷ ons) (start ∷ starts) m final x f q bs bo zero zero off on e g h z o p
          r =
        let r' = subst (λ n. get_elem? (u ∷ ons) n ≡ some e) (none_more 0) r in
        ap (l.value s) (some_inj (sym r' ∙ h)) ∙ o
    add_runs-on before (u ∷ ons) (start ∷ starts) m final x f q bs bo zero (suc j) off on e g h z o
          p r =
        let r' = subst (λ n. get_elem? (u ∷ ons) n ≡ some e) (none_more (suc j)) r in
        let begun =
          add_constraint (at_most start u) (add_constraint (at_most (l.minus u before) start) m) in
        let held =
          add_holds l config five dt water_cap (config.min_run_steps - 1) start ons begun in
        let (vars, cons) = add_holds-Extends (config.min_run_steps - 1) start ons begun in
        let (vars2, cons2) = add_runs-Extends u ons starts held in
        let rise : l.value s (l.minus u before) ≡ l.one =
          l.value_minus s u before
          ∙ ap (λ y. l.sub y (l.value s before)) (ap (l.value s) (some_inj h) ∙ o)
          ∙ ap (l.sub l.one) (ap (l.value s) (some_inj g) ∙ z)
          ∙ l.sub_zero l.one in
        let (bin, top) = bs start (inl refl) in
        let started : l.value s start ≡ l.one =
          at_one (l.minus u before) start bin rise
            (f.1 (at_most (l.minus u before) start) (x.1 _ (cons2 _ (cons _ (inr (inl refl))))))
            top in
        let (bin_e, top_e) = bo e (inr (In_of-get_elem? ons j e r')) in
        at_one start e bin_e started
          (f.1 (at_most start e) (
            x.1 _ (
              cons2 _ (
                add_holds-In (config.min_run_steps - 1) start ons begun j e (omega (arith, p))
                  r'))))
          top_e
    add_runs-on before (u ∷ ons) (start ∷ starts) m final x f q bs bo (suc t) tau off on e g h z o p
          r =
        add_runs-on u ons starts _ final x f (omega (arith, q)) (λ b i. bs b (inr i))
          (λ b i. bo b (inr i)) t tau off on e g h z o p
          (subst (λ n. get_elem? (u ∷ ons) n ≡ some e) (one_more t tau) r)
