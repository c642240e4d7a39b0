-- ===== src/Devices/ThermalBoiler/Run.antt =====
-- A heater that is switched on stays on for its minimum run, and the tank keeps its limits.
use mathlib.Core.Path.{subst}
use mimirheim.Prelude.{
  ℕ, zero, suc, ◌+◌, ◌-◌, ◌≤◌, ◌<◌, ◌≡◌, refl, sym, ap, ◌∙◌, ◌⊎◌, inl, inr, true, false, some,
  some_inj, List, [], ◌∷◌, length, get_elem?, In, arith, Bool-cases, ltb, ltb→lt,
}
use mimirheim.Solver.{Linear, at_most, Model, Feasible, add_var, add_constraint}
use mimirheim.Solver.Sos.{Extends, binary_of}
use mimirheim.Devices.ThermalBoiler.{
  BoilerSettings, BoilerStep, heaters, add_steps, add_starts, add_variables, add_temperatures,
  add_minimum, add_constraints,
}
use mimirheim.Devices.ThermalBoiler.Hold.{one_more, add_runs-Extends, Switch, add_runs-on}

alone : (t tau : ℕ) → tau ≡ 0 → suc t + tau ≡ suc t
alone t tau h = omega (arith, h)

at_most_one : (n : ℕ) → ltb 1 n ≡ false → n ≤ 1
at_most_one n h = ground arith

module _ {F E S : Type 0} (l : Linear F E S) (config : BoilerSettings F)
    (five dt water_cap : F) where
  -- The variables of the boiler are declared, and there is a start for each step but the first.
  add_steps-Extends :
      (n : ℕ) (m : Model F E) → Extends l m (add_steps l config five dt water_cap n m).1
  unfolding add_steps add_var
  add_steps-Extends zero m = (λ v i. i, λ c i. i)
  add_steps-Extends (suc n) m =
      let (vars, cons) = add_steps-Extends n _ in (λ v i. vars v (inr (inr i)), cons)

  In-add_steps :
      (n : ℕ) (m : Model F E) (b : E)
      → In b (heaters (add_steps l config five dt water_cap n m).0)
      → In (binary_of l b) (add_steps l config five dt water_cap n m).1.variables
  unfolding add_steps add_var
  In-add_steps zero m b i = absurd i
  In-add_steps (suc n) m b (inl e) = (add_steps-Extends n _).0 _ (inl (ap (binary_of l) e))
  In-add_steps (suc n) m b (inr i) = In-add_steps n _ b i

  length-add_steps :
      (n : ℕ) (m : Model F E) → length (heaters (add_steps l config five dt water_cap n m).0) ≡ n
  unfolding add_steps
  length-add_steps zero m = refl
  length-add_steps (suc n) m = ap suc (length-add_steps n _)

  add_starts-Extends :
      (n : ℕ) (m : Model F E) → Extends l m (add_starts l config five dt water_cap n m).1
  unfolding add_starts add_var
  add_starts-Extends zero m = (λ v i. i, λ c i. i)
  add_starts-Extends (suc n) m =
      let (vars, cons) = add_starts-Extends n _ in (λ v i. vars v (inr i), cons)

  In-add_starts :
      (n : ℕ) (m : Model F E) (b : E)
      → In b (add_starts l config five dt water_cap n m).0
      → In (binary_of l b) (add_starts l config five dt water_cap n m).1.variables
  unfolding add_starts add_var
  In-add_starts zero m b i = absurd i
  In-add_starts (suc n) m b (inl e) = (add_starts-Extends n _).0 _ (inl (ap (binary_of l) e))
  In-add_starts (suc n) m b (inr i) = In-add_starts n _ b i

  length-add_starts :
      (n : ℕ) (m : Model F E) → length (add_starts l config five dt water_cap n m).0 ≡ n
  unfolding add_starts
  length-add_starts zero m = refl
  length-add_starts (suc n) m = ap suc (length-add_starts n _)

  add_temperatures-Extends :
      (prior : E) (steps : List (BoilerStep E)) (m : Model F E)
      → Extends l m (add_temperatures l config five dt water_cap prior steps m)
  unfolding add_temperatures add_constraint
  add_temperatures-Extends prior [] m = (λ v i. i, λ c i. i)
  add_temperatures-Extends prior (step ∷ steps) m =
      let (vars, cons) = add_temperatures-Extends step.tank steps _ in
      (vars, λ c i. cons c (inr (inr (inr i))))

  -- The limits of a step's tank.
  add_temperatures-In :
      (prior : E) (steps : List (BoilerStep E)) (m : Model F E) (step : BoilerStep E)
      → In step steps
      → In
          (at_most step.tank (l.constant config.setpoint_c))
          (add_temperatures l config five dt water_cap prior steps m).constraints
        × In
            (at_most (l.constant config.min_temp_c) step.tank)
            (add_temperatures l config five dt water_cap prior steps m).constraints
  unfolding add_temperatures add_constraint
  add_temperatures-In prior [] m step i = absurd i
  add_temperatures-In prior (x ∷ steps) m step (inl e) =
      let (vars, cons) = add_temperatures-Extends x.tank steps _ in
      (
        cons _ (inl (ap (λ (y : BoilerStep E). at_most y.tank (l.constant config.setpoint_c)) e)),
        cons _ (
            inr (inl (ap (λ (y : BoilerStep E). at_most (l.constant config.min_temp_c) y.tank) e))),
      )
  add_temperatures-In prior (x ∷ steps) m step (inr i) = add_temperatures-In x.tank steps _ step i

  module _ (s : S) where
    -- The tank keeps its limits, and a heater that is switched on stays on for the minimum run.
    abbrev pub KeepsOn : List (BoilerStep E) → Type 0
    KeepsOn steps =
        ((step : BoilerStep E)
          → In step steps
          → (l.le config.min_temp_c (l.value s step.tank) ≡ true)
            × (l.le (l.value s step.tank) config.setpoint_c ≡ true))
        × ((t tau : ℕ) (off on e : E)
            → get_elem? (heaters steps) t ≡ some off
            → get_elem? (heaters steps) (suc t) ≡ some on
            → l.value s off ≡ l.zero
            → l.value s on ≡ l.one
            → tau < config.min_run_steps
            → get_elem? (heaters steps) (suc t + tau) ≡ some e
            → l.value s e ≡ l.one)

    -- the heater of the next step, and those after it
    runs_on :
        (hs starts : List E) (m final : Model F E)
        → Extends l (add_minimum l config five dt water_cap hs starts m) final
        → Feasible l s final
        → length starts ≡ length hs - 1
        → ((b : E) → In b starts → Switch l config five dt water_cap s b)
        → ((b : E) → In b hs → Switch l config five dt water_cap s b)
        → (t tau : ℕ) (off on e : E) → get_elem? hs t ≡ some off
        → get_elem? hs (suc t) ≡ some on
        → l.value s off ≡ l.zero
        → l.value s on ≡ l.one
        → tau < config.min_run_steps
        → get_elem? hs (suc t + tau) ≡ some e
        → l.value s e ≡ l.one
    unfolding add_minimum
    runs_on [] starts m final x f q bs bo t tau off on e g h z o p r = cc
    runs_on (first ∷ hs) starts m final x f q bs bo t tau off on e g h z o p r =
        add_runs-on l config five dt water_cap s first hs starts m final x f (omega (arith, q)) bs
          (λ b i. bo b (inr i)) t tau off on e g h z o p
          (subst (λ n. get_elem? (first ∷ hs) n ≡ some e) (one_more t tau) r)

    Switch-of :
        (final : Model F E) (b : E)
        → In (binary_of l b) final.variables
        → Feasible l s final
        → Switch l config five dt water_cap s b
    Switch-of final b i f =
        let (low, high, whole) = f.0 _ i in (l.binary _ (whole refl) low high, high)

    limits :
        (prior : E) (steps : List (BoilerStep E)) (m final : Model F E) (step : BoilerStep E)
        → Extends l (add_temperatures l config five dt water_cap prior steps m) final
        → Feasible l s final
        → In step steps
        → (l.le config.min_temp_c (l.value s step.tank) ≡ true)
          × (l.le (l.value s step.tank) config.setpoint_c ≡ true)
    limits prior steps m final step x f i =
        let (top, bottom) = add_temperatures-In prior steps m step i in
        (
          subst (λ v. l.le v (l.value s step.tank) ≡ true) (l.value_constant s config.min_temp_c)
              (f.1 _ (x.1 _ bottom)),
          subst (λ v. l.le (l.value s step.tank) v ≡ true) (l.value_constant s config.setpoint_c)
              (f.1 _ (x.1 _ top)),
        )

    add_minimum-Extends :
        (hs starts : List E) (m : Model F E)
        → Extends l m (add_minimum l config five dt water_cap hs starts m)
    unfolding add_minimum
    add_minimum-Extends [] starts m = (λ v i. i, λ c i. i)
    add_minimum-Extends (first ∷ hs) starts m =
        add_runs-Extends l config five dt water_cap first hs starts m

    -- with or without a minimum run, from the variables of the steps
    keeps_on :
        (horizon : ℕ) (current_temp_c : F) (m m1 final : Model F E) (starts : List E)
        → Extends l (add_steps l config five dt water_cap horizon m).1 m1
        → Extends l
            (add_constraints l config five dt water_cap current_temp_c
              (add_steps l config five dt water_cap horizon m).0
              starts
              m1)
            final
        → Feasible l s final
        → ((1 < config.min_run_steps)
            × (length starts ≡ horizon - 1)
            × ((b : E) → In b starts → In (binary_of l b) m1.variables))
          ⊎ (config.min_run_steps ≤ 1)
        → KeepsOn (add_steps l config five dt water_cap horizon m).0
    unfolding add_constraints
    keeps_on horizon current_temp_c m m1 final starts grow x f mode =
        let steps = (add_steps l config five dt water_cap horizon m).0 in
        let warm =
          add_temperatures l config five dt water_cap (l.constant current_temp_c) steps m1 in
        let (v1, c1) = add_temperatures-Extends (l.constant current_temp_c) steps m1 in
        let (v2, c2) = add_minimum-Extends (heaters steps) starts warm in
        let there : (b : E)
            → In (binary_of l b) m1.variables
            → Switch l config five dt water_cap s b =
          λ b i. Switch-of final b (x.0 _ (v2 _ (v1 _ i))) f in
        (
          λ step i.
              limits (l.constant current_temp_c) steps m1 final step
                (λ v j. x.0 v (v2 v j), λ c j. x.1 c (c2 c j)) f i,
          λ t tau off on e g h z o p r. elim mode [
            | inl (more, size, declared) ↦
                runs_on (heaters steps) starts warm final x f
                  (size ∙ ap (λ n. n - 1) (sym (length-add_steps horizon m)))
                  (λ b i. there b (declared b i))
                  (λ b i. there b (grow.0 _ (In-add_steps horizon m b i))) t tau off on e g h z o p
                  r
            | inr none_needed ↦
                ap (l.value s) (
                  some_inj (
                    sym r
                    ∙ ap (get_elem? (heaters steps)) (alone t tau (omega (arith, p, none_needed)))
                    ∙ h))
                ∙ o
          ],
        )

    abbrev Variables : Type 0
    Variables = List (BoilerStep E) × List E × Model F E

    with_starts :
        (horizon : ℕ) (m : Model F E)
        → ltb 1 config.min_run_steps ≡ true
        → ◌≡◌ {A = Variables} (add_variables l config five dt water_cap horizon m) (
          (add_steps l config five dt water_cap horizon m).0,
          (add_starts l config five dt water_cap
              (horizon - 1)
              (add_steps l config five dt water_cap horizon m).1).0,
          (add_starts l config five dt water_cap
              (horizon - 1)
              (add_steps l config five dt water_cap horizon m).1).1,
        )
    unfolding add_variables
    with_starts horizon m more = rw more refl

    without_starts :
        (horizon : ℕ) (m : Model F E)
        → ltb 1 config.min_run_steps ≡ false
        → ◌≡◌ {A = Variables} (add_variables l config five dt water_cap horizon m) (
          (add_steps l config five dt water_cap horizon m).0,
          [],
          (add_steps l config five dt water_cap horizon m).1,
        )
    unfolding add_variables
    without_starts horizon m few = rw few refl

    -- In every solution of a model with the boiler's variables and constraints, the tank stays between
    -- its minimum and its setpoint, and a heater that is on after a step in which it was off stays on
    -- for the minimum run, or to the end of the horizon.
    pub add_constraints-KeepsOn :
        (horizon : ℕ) (current_temp_c : F) (m final : Model F E)
        → Extends l
            (add_constraints l config five dt water_cap current_temp_c
              (add_variables l config five dt water_cap horizon m).0
              (add_variables l config five dt water_cap horizon m).1
              (add_variables l config five dt water_cap horizon m).2)
            final
        → Feasible l s final
        → KeepsOn (add_variables l config five dt water_cap horizon m).0
    add_constraints-KeepsOn horizon current_temp_c m final x f =
        let m1 = (add_steps l config five dt water_cap horizon m).1 in
        elim (Bool-cases (ltb 1 config.min_run_steps)) [
          | inl more ↦
              let n = horizon - 1 in
              let e = with_starts horizon m more in
              subst (λ (v : Variables). KeepsOn v.0) (sym e)
                (keeps_on horizon current_temp_c m (add_starts l config five dt water_cap n m1).1
                  final (add_starts l config five dt water_cap n m1).0 (add_starts-Extends n m1)
                  (subst
                    (λ (v : Variables).
                      Extends l
                        (add_constraints l config five dt water_cap current_temp_c v.0 v.1 v.2)
                        final)
                    e x)
                  f
                  (inl (
                    ltb→lt 1 config.min_run_steps more,
                    length-add_starts n m1,
                    In-add_starts n m1,
                  )))
          | inr few ↦
              let e = without_starts horizon m few in
              subst (λ (v : Variables). KeepsOn v.0) (sym e)
                (keeps_on horizon current_temp_c m m1 final [] (λ v i. i, λ c i. i)
                  (subst
                    (λ (v : Variables).
                      Extends l
                        (add_constraints l config five dt water_cap current_temp_c v.0 v.1 v.2)
                        final)
                    e x)
                  f (inr (at_most_one config.min_run_steps few)))
        ]
