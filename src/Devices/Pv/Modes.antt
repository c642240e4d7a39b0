-- ===== src/Devices/Pv/Modes.antt =====
-- What a solution may produce in each mode of a PV array.
use mathlib.Core.Path.{subst}
use mimirheim.Prelude.{
  ℕ, zero, suc, ◌≡◌, ◌≢◌, refl, ap, ◌∙◌, ◌⊎◌, inl, inr, Bool, true, false, Option, none, some,
  some_inj, List, [], ◌∷◌, get_elem?, length, In, arith, ◌>>=◌,
}
use mimirheim.Solver.{Linear, equal, Model, Feasible, sum_from, sum, add_var, add_constraint}
use mimirheim.Solver.Binary.{IsBinary, add_off, add_on, sum-OneSet}
use mimirheim.Solver.Sos.{Extends, binary_of}
use mimirheim.Devices.Pv.{
  PvSettings, min, max, clip_forecast, add_stages, stage_vars, weighted, add_mode, add_step,
  add_steps, add_constraints,
}

module _ {F E S : Type 0} (l : Linear F E S) where
  -- What a mode may produce at a forecast: exactly one stage's share of it, all or nothing, any part of
  -- it, or all of it.
  abbrev pub ProducesIn : Option (List F) → Bool → Bool → F → F → Type 0
  ProducesIn (some stages) on_off power_limit f v =
      (k : ℕ) × (stage : F) × (get_elem? stages k ≡ some stage) × (v ≡ min l f stage)
  ProducesIn none true power_limit f v = (v ≡ l.zero) ⊎ (v ≡ f)
  ProducesIn none false true f v = (l.le l.zero v ≡ true) × (l.le v f ≡ true)
  ProducesIn none false false f v = v ≡ f

  add_stages-Extends :
      (f : F) (stages : List F) (m : Model F E) → Extends l m (add_stages l f stages m).1
  unfolding add_stages add_var
  add_stages-Extends f [] m = (λ v i. i, λ c i. i)
  add_stages-Extends f (stage ∷ stages) m =
      let (vars, cons) = add_stages-Extends f stages (add_var l l.zero l.one true m).1 in
      (λ v i. vars v (inr i), cons)

  In-add_stages :
      (f : F) (stages : List F) (m : Model F E) (b : E)
      → In b (stage_vars l (add_stages l f stages m).0)
      → In (binary_of l b) (add_stages l f stages m).1.variables
  unfolding add_stages add_var
  In-add_stages f [] m b i = absurd i
  In-add_stages f (stage ∷ stages) m b (inl e) =
      (add_stages-Extends f stages (add_var l l.zero l.one true m).1).0 (binary_of l b)
        (inl (ap (binary_of l) e))
  In-add_stages f (stage ∷ stages) m b (inr i) =
      In-add_stages f stages (add_var l l.zero l.one true m).1 b i

  add_mode-Extends :
      (stages : Option (List F)) (on_off power_limit : Bool) (f : F) (m : Model F E)
      → Extends l m (add_mode l stages on_off power_limit f m).1
  unfolding add_mode add_var add_constraint
  add_mode-Extends (some stages) on_off power_limit f m =
      let (vars, cons) = add_stages-Extends f stages m in (vars, λ c i. inr (cons c i))
  add_mode-Extends none true power_limit f m = (λ v i. inr i, λ c i. i)
  add_mode-Extends none false true f m = (λ v i. inr i, λ c i. i)
  add_mode-Extends none false false f m = (λ v i. i, λ c i. i)

  module _ (s : S) where
    weighted-off :
        (vars : List (E × F)) (acc : E)
        → ((i : ℕ) (c : E) → get_elem? (stage_vars l vars) i ≡ some c → l.value s c ≡ l.zero)
        → l.value s (sum_from l acc (weighted l vars)) ≡ l.value s acc
    weighted-off [] acc off = refl
    weighted-off ((b, kw) ∷ vars) acc off =
        weighted-off vars (l.plus acc (l.times kw b)) (λ i c h. off (suc i) c h)
        ∙ add_off l s acc b kw (off 0 b refl)

    -- the weight of the one that is set
    weighted-on :
        (f : F) (stages : List F) (m : Model F E) (acc b : E) (k : ℕ)
        → l.value s acc ≡ l.zero
        → get_elem? (stage_vars l (add_stages l f stages m).0) k ≡ some b
        → l.value s b ≡ l.one
        → ((i : ℕ) (c : E)
            → i ≢ k
            → get_elem? (stage_vars l (add_stages l f stages m).0) i ≡ some c
            → l.value s c ≡ l.zero)
        → (stage : F) × (get_elem? stages k ≡ some stage)
          × (l.value s (sum_from l acc (weighted l (add_stages l f stages m).0)) ≡ min l f stage)
    unfolding add_stages
    weighted-on f [] m acc b k z g set off = cc
    weighted-on f (stage ∷ stages) m acc b zero z g set off =
        let (active, m1) = add_var l l.zero l.one true m in
        (
          stage,
          refl,
          weighted-off (add_stages l f stages m1).0 (l.plus acc (l.times (min l f stage) active))
                (λ i c h. off (suc i) c (λ q. absurd (omega (arith, q))) h)
              ∙ add_on l s acc active (min l f stage) z (ap (l.value s) (some_inj g) ∙ set),
        )
    weighted-on f (stage ∷ stages) m acc b (suc k) z g set off =
        let (active, m1) = add_var l l.zero l.one true m in
        weighted-on f stages m1 (l.plus acc (l.times (min l f stage) active)) b k
          (add_off l s acc active (min l f stage)
              (off 0 active (λ q. absurd (omega (arith, q))) refl)
            ∙ z)
          g set (λ i c d h. off (suc i) c (λ q. d (omega (arith, q))) h)

    add_mode-ProducesIn :
        (stages : Option (List F)) (on_off power_limit : Bool) (f : F) (m final : Model F E)
        → Extends l (add_mode l stages on_off power_limit f m).1 final
        → Feasible l s final
        → ProducesIn stages on_off power_limit f
            (l.value s (add_mode l stages on_off power_limit f m).0)
    unfolding add_mode add_constraint add_var
    add_mode-ProducesIn (some stages) on_off power_limit f m final x fe =
        let vars = (add_stages l f stages m).0 in
        let one = fe.1 (equal (sum l (stage_vars l vars)) (l.constant l.one)) (x.1 _ (inl refl)) in
        let binary : (b : E) → In b (stage_vars l vars) → IsBinary l s b = λ b i.
          let (low, high, whole) = fe.0 (binary_of l b) (x.0 _ (In-add_stages f stages m b i)) in
          l.binary _ (whole refl) low high in
        let (k, b, g, v, others) =
          sum-OneSet l s (stage_vars l vars) binary (one ∙ l.value_constant s l.one) in
        let (stage, h, w) =
          weighted-on f stages m (l.constant l.zero) b k (l.value_constant s l.zero) g v others in
        (k, stage, h, w)
    add_mode-ProducesIn none true power_limit f m final x fe =
        let b = l.variable (length m.variables) in
        let (low, high, whole) = fe.0 (binary_of l b) (x.0 _ (inl refl)) in
        let power : l.value s (l.times f (l.minus (l.constant l.one) b))
            ≡ l.mul f (l.sub l.one (l.value s b)) =
          l.value_times s f _
          ∙ ap (l.mul f)
              (l.value_minus s _ _ ∙ ap (λ y. l.sub y (l.value s b)) (l.value_constant s l.one)) in
        elim (l.binary _ (whole refl) low high) [
          | inl on ↦ inr (
              power
              ∙ ap (λ y. l.mul f (l.sub l.one y)) on
              ∙ ap (l.mul f) (l.sub_zero l.one)
              ∙ l.mul_one f)
          | inr off ↦ inl (
              power
              ∙ ap (λ y. l.mul f (l.sub l.one y)) off
              ∙ ap (l.mul f) (l.sub_self l.one)
              ∙ l.mul_zero f)
        ]
    add_mode-ProducesIn none false true f m final x fe =
        let (low, high, whole) = fe.0 _ (x.0 _ (inl refl)) in (low, high)
    add_mode-ProducesIn none false false f m final x fe = l.value_constant s f

  -- a forecast value in the range that the array can produce
  abbrev pub clipped : PvSettings F → F → F
  clipped config kw = min l (max l l.zero kw) config.max_power_kw

  get_elem?-clip_forecast :
      (forecast : List F) (top : F) (t : ℕ) (kw : F)
      → get_elem? forecast t ≡ some kw
      → get_elem? (clip_forecast l forecast top) t ≡ some (min l (max l l.zero kw) top)
  unfolding clip_forecast
  get_elem?-clip_forecast [] top t kw h = cc
  get_elem?-clip_forecast (x ∷ forecast) top zero kw h =
      ap (λ y. some (min l (max l l.zero y) top)) (some_inj h)
  get_elem?-clip_forecast (x ∷ forecast) top (suc t) kw h =
      get_elem?-clip_forecast forecast top t kw h

  Extends-trans : (a b c : Model F E) → Extends l a b → Extends l b c → Extends l a c
  Extends-trans a b c x y = (λ v i. y.0 v (x.0 v i), λ k i. y.1 k (x.1 k i))

  step-Extends :
      (config : PvSettings F) (f : F) (m : Model F E) → Extends l m (add_step l config f m).1
  unfolding add_step
  step-Extends config f m =
      add_mode-Extends config.production_stages config.on_off config.power_limit f m

  step_produces :
      (s : S) (config : PvSettings F) (f : F) (m final : Model F E)
      → Extends l (add_step l config f m).1 final
      → Feasible l s final
      → ProducesIn config.production_stages config.on_off config.power_limit f
          (l.value s (add_step l config f m).0)
  unfolding add_step
  step_produces s config f m final x fe =
      add_mode-ProducesIn s config.production_stages config.on_off config.power_limit f m final x fe

  module _ (s : S) (config : PvSettings F) where
    abbrev StepsProduce : List F → List E → Type 0
    StepsProduce forecast powers =
        (t : ℕ) (f : F) (power : E)
        → get_elem? forecast t ≡ some f
        → get_elem? powers t ≡ some power
        → ProducesIn config.production_stages config.on_off config.power_limit f (l.value s power)

    -- What the loop over `n` steps guarantees of its result.
    abbrev AddsSteps : ℕ → List F → Model F E → List E × Model F E → Type 0
    AddsSteps n forecast m r =
        (length r.0 ≡ n)
        × Extends l m r.1
        × ((final : Model F E)
            → Extends l r.1 final
            → Feasible l s final
            → StepsProduce forecast r.0)

    add_steps-AddsSteps :
        (n : ℕ) (forecast : List F) (m : Model F E) (r : List E × Model F E)
        → add_steps l config n forecast m ≡ some r
        → AddsSteps n forecast m r
    unfolding add_steps
    add_steps-AddsSteps zero forecast m r h =
        subst (AddsSteps zero forecast m) (some_inj h)
          (refl, (λ v i. i, λ c i. i), λ final x fe t f power g k. absurd (no_power t power k))
      where
        no_power : (t : ℕ) (power : E) → get_elem? [] t ≡ some power → ⊥
        no_power t power k = cc
    add_steps-AddsSteps (suc n) [] m r h = cc
    add_steps-AddsSteps (suc n) (f ∷ forecast) m r h =
        with_rest (add_steps l config n forecast (add_step l config f m).1) h
          (add_steps-AddsSteps n forecast (add_step l config f m).1) (step-Extends config f m)
          (step_produces s config f m)
      where
        with_rest :
            (o : Option (List E × Model F E))
            → (o >>= λ q. some ((add_step l config f m).0 ∷ q.0, q.1)) ≡ some r
            → ((q : List E × Model F E)
                → o ≡ some q
                → AddsSteps n forecast (add_step l config f m).1 q)
            → Extends l m (add_step l config f m).1
            → ((final : Model F E)
                → Extends l (add_step l config f m).1 final
                → Feasible l s final
                → ProducesIn config.production_stages config.on_off config.power_limit f
                    (l.value s (add_step l config f m).0))
            → AddsSteps (suc n) (f ∷ forecast) m r
        with_rest none g ih ext pro = cc
        with_rest (some q) g ih ext pro =
            let (size, grows, rest) = ih q refl in
            subst (AddsSteps (suc n) (f ∷ forecast) m) (some_inj g) (
              ap suc size,
              Extends-trans m (add_step l config f m).1 q.1 ext grows,
              λ final x fe t kw power g k.
                  at final x fe t kw power g k (rest final x fe)
                    (pro final (Extends-trans (add_step l config f m).1 q.1 final grows x) fe),
            )
          where
            at :
                (final : Model F E)
                → Extends l q.1 final
                → Feasible l s final
                → (t : ℕ) (kw : F) (power : E) → get_elem? (f ∷ forecast) t ≡ some kw
                → get_elem? ((add_step l config f m).0 ∷ q.0) t ≡ some power
                → StepsProduce forecast q.0
                → ProducesIn config.production_stages config.on_off config.power_limit f
                    (l.value s (add_step l config f m).0)
                → ProducesIn config.production_stages config.on_off config.power_limit kw
                    (l.value s power)
            at final x fe zero kw power g k later now =
                subst
                  (λ (y : F × E).
                    ProducesIn config.production_stages config.on_off config.power_limit y.0
                      (l.value s y.1))
                  (λ i. (some_inj g i, some_inj k i)) now
            at final x fe (suc t) kw power g k later now = later t kw power g k

    -- The array's net powers, one for each step of the horizon: in every solution of a model with the
    -- array's constraints, each is what the configured mode may produce at the forecast clipped to
    -- the range from 0 to the array's peak.
    pub add_constraints-ProducesIn :
        (horizon : ℕ) (forecast_kw : List F) (m : Model F E) (powers : List E)
        (m1 final : Model F E)
        → add_constraints l config horizon forecast_kw m ≡ some (powers, m1)
        → Extends l m1 final
        → Feasible l s final
        → (length powers ≡ horizon)
          × ((t : ℕ) (kw : F) (power : E)
              → get_elem? forecast_kw t ≡ some kw
              → get_elem? powers t ≡ some power
              → ProducesIn config.production_stages config.on_off config.power_limit
                  (clipped config kw)
                  (l.value s power))
    unfolding add_constraints
    add_constraints-ProducesIn horizon forecast_kw m powers m1 final h x fe =
        let (size, grows, rest) =
          add_steps-AddsSteps horizon (clip_forecast l forecast_kw config.max_power_kw) m
            (powers, m1) h in
        (
          size,
          λ t kw power g k.
              rest final x fe t (clipped config kw) power
                (get_elem?-clip_forecast forecast_kw config.max_power_kw t kw g) k,
        )
