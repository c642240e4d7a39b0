-- ===== src/Devices/DeferrableLoad/Window.antt =====
-- What the solver's choice of a start means: one run, within the window and the horizon.
use mathlib.Core.Path.{subst}
use mimirheim.Prelude.{
  smaller, ℕ, zero, suc, ◌+◌, ◌-◌, ◌*◌, ◌/◌, ◌%◌, ◌≤◌, ◌<◌, ◌≡◌, ◌≢◌, refl, sym, ap, ◌∙◌, ◌⊎◌, inl,
  inr, false, none, some, some_inj, List, length, get_elem?, get_elem?-lt, ltb, ltb→lt, arith,
  Bool-cases, In,
}
use mimirheim.Bundle.{DeferrableWindow}
use mimirheim.Forecast.{step_duration}
use mimirheim.Solver.{Linear, equal, Model, Feasible, sum, add_var, add_constraint}
use mimirheim.Solver.Binary.{IsBinary, sum-OneSet}
use mimirheim.Solver.Sos.{Extends, binary_of}
use mimirheim.Devices.DeferrableLoad.{
  Load, fresh_load, datetime_to_step, start_at, handles, add_starts, schedule, schedule_window,
  add_constraints, scheduled_power, net_power,
}
use mimirheim.Devices.DeferrableLoad.Agree.{Draws}
use mimirheim.Devices.DeferrableLoad.Once.{
  CountsFrom, Chosen, run_at, start_at-before, start_at-from, scheduled-Draws,
}

below_left : (a b k : ℕ) → k ≤ smaller a b → k ≤ a
below_left a b k h = ground arith

below_right : (a b k : ℕ) → k ≤ smaller a b → k ≤ b
below_right a b k h = ground arith

from_earliest :
    (earliest solve_time k : ℕ)
    → (earliest - solve_time) / step_duration ≤ k
    → earliest ≤ (solve_time + k * step_duration) + (earliest - solve_time) % step_duration
from_earliest earliest solve_time k h = omega (arith, h)

to_latest :
    (latest solve_time n : ℕ)
    → 0 < n
    → n ≤ (latest - solve_time) / step_duration
    → solve_time + n * step_duration ≤ latest
to_latest latest solve_time n p h = omega (arith, p, h)

early_or : (i t : ℕ) → (i < t) ⊎ ((j : ℕ) × (i ≡ t + j))
early_or i t = elim (Bool-cases (ltb i t)) [
  | inl h ↦ inl (ltb→lt i t h)
  | inr h ↦ inr (i - t, difference i t h)
]
  where
    difference : (i t : ℕ) → ltb i t ≡ false → i ≡ t + (i - t)
    difference i t h = ground arith

module _ {F E S : Type 0} (l : Linear F E S) (power_profile : List F) where
  add_starts-CountsFrom : (n t : ℕ) (m : Model F E) → CountsFrom t (add_starts l n t m).0
  unfolding add_starts CountsFrom
  add_starts-CountsFrom zero t m = tt
  add_starts-CountsFrom (suc n) t m = (refl, add_starts-CountsFrom n (suc t) _)

  length-add_starts : (n t : ℕ) (m : Model F E) → length (handles (add_starts l n t m).0) ≡ n
  unfolding add_starts
  length-add_starts zero t m = refl
  length-add_starts (suc n) t m = ap suc (length-add_starts n (suc t) _)

  add_starts-Extends : (n t : ℕ) (m : Model F E) → Extends l m (add_starts l n t m).1
  unfolding add_starts add_var
  add_starts-Extends zero t m = (λ v i. i, λ c i. i)
  add_starts-Extends (suc n) t m =
      let (vars, cons) = add_starts-Extends n (suc t) _ in (λ v i. vars v (inr i), cons)

  In-add_starts :
      (n t : ℕ) (m : Model F E) (b : E)
      → In b (handles (add_starts l n t m).0)
      → In (binary_of l b) (add_starts l n t m).1.variables
  unfolding add_starts add_var
  In-add_starts zero t m b i = absurd i
  In-add_starts (suc n) t m b (inl e) =
      (add_starts-Extends n (suc t) _).0 (binary_of l b) (inl (ap (binary_of l) e))
  In-add_starts (suc n) t m b (inr i) = In-add_starts n (suc t) _ b i

  -- The start that is set, among starts that count up.
  set-Chosen :
      (s : S) (starts : List (ℕ × E)) (t k : ℕ) (b : E)
      → CountsFrom t starts
      → get_elem? (handles starts) k ≡ some b
      → l.value s b ≡ l.one
      → ((i : ℕ) (c : E) → i ≢ k → get_elem? (handles starts) i ≡ some c → l.value s c ≡ l.zero)
      → Chosen l power_profile s starts (t + k)
  set-Chosen s starts t k b c g v others = (
    λ e h. ap (l.value s) (some_inj (sym h ∙ start_at-from starts t k c ∙ g)) ∙ v,
    λ i e d h. at i e d h (early_or i t),
  )
    where
      at :
          (i : ℕ) (e : E)
          → i ≢ t + k
          → start_at starts i ≡ some e
          → (i < t) ⊎ ((j : ℕ) × (i ≡ t + j))
          → l.value s e ≡ l.zero
      at i e d h (inl early) = clash (sym (start_at-before starts t i c early) ∙ h)
        where
          clash : none ≡ some e → l.value s e ≡ l.zero
          clash q = cc
      at i e d h (inr (j, q)) =
          others j e (λ r. d (q ∙ ap (λ n. t + n) r))
            (sym (start_at-from starts t j c) ∙ ap (start_at starts) (sym q) ∙ h)

  -- The run's first step between two steps, and the power at each step.
  abbrev RunsBetween : S → Load E → ℕ → ℕ → ℕ → Type 0
  RunsBetween s load horizon earliest latest =
      (k : ℕ) × (earliest ≤ k)
      × (k + length power_profile ≤ latest)
      × (k + length power_profile ≤ horizon)
      × ((t : ℕ)
          → Draws l power_profile s (net_power l power_profile load t)
              (run_at l power_profile s k t))

  -- the load and the model where a run fits
  abbrev fitted : ℕ → ℕ → Model F E → Load E × Model F E
  fitted n earliest m = (
    record fresh_load { start = (add_starts l n earliest m).0 },
    add_constraint (equal (sum l (handles (add_starts l n earliest m).0)) (l.constant l.one))
        (add_starts l n earliest m).1,
  )

  schedule-fitted :
      (horizon earliest latest : ℕ) (m : Model F E)
      → earliest + length power_profile ≤ smaller latest horizon
      → schedule l power_profile horizon earliest latest m
        ≡ fitted (suc (smaller latest horizon - length power_profile) - earliest) earliest m
  unfolding schedule
  schedule-fitted horizon earliest latest m fits =
      rw (room (smaller latest horizon) (earliest + length power_profile) fits) refl
    where
      room : (a b : ℕ) → b ≤ a → ltb a b ≡ false
      room a b h = ground arith

  fitted_power :
      (s : S) (starts : List (ℕ × E)) (t : ℕ)
      → net_power l power_profile (record fresh_load { start = starts }) t
        ≡ scheduled_power l power_profile starts t
  unfolding net_power
  fitted_power s starts t = refl

  fitted-RunsBetween :
      (s : S) (n horizon earliest latest : ℕ) (m final : Model F E)
      → 0 < length power_profile
      → earliest + length power_profile ≤ smaller latest horizon
      → n ≡ suc (smaller latest horizon - length power_profile) - earliest
      → Extends l (fitted n earliest m).1 final
      → Feasible l s final
      → RunsBetween s (fitted n earliest m).0 horizon earliest latest
  unfolding add_constraint
  fitted-RunsBetween s n horizon earliest latest m final d fits size x f =
      let starts = (add_starts l n earliest m).0 in
      let one = f.1 (equal (sum l (handles starts)) (l.constant l.one)) (x.1 _ (inl refl)) in
      let binary : (b : E) → In b (handles starts) → IsBinary l s b = λ b i.
        let (low, high, whole) = f.0 (binary_of l b) (x.0 _ (In-add_starts n earliest m b i)) in
        l.binary _ (whole refl) low high in
      let (k, b, g, v, others) =
        sum-OneSet l s (handles starts) binary (one ∙ l.value_constant s l.one) in
      let counts = add_starts-CountsFrom n earliest m in
      let chosen = set-Chosen s starts earliest k b counts g v others in
      let within : k < n =
        omega (arith, get_elem?-lt (handles starts) k b g, length-add_starts n earliest m) in
      let ends : (earliest + k) + length power_profile ≤ smaller latest horizon =
        omega (arith, within, size, fits) in
      (
        earliest + k,
        omega arith,
        below_left latest horizon _ ends,
        below_right latest horizon _ ends,
        λ t.
            let (e, r, w) =
              scheduled-Draws l power_profile s starts (earliest + k) t b chosen
                (start_at-from starts earliest k counts ∙ g) d in
            (e, fitted_power s starts t ∙ r, w),
      )

  -- One run, in instants: it starts at a step of the solve time's grid that may lie before the
  -- window's earliest instant by what this lies behind the grid, and is over by its latest instant.
  abbrev pub RunsOnce : S → Load E → ℕ → ℕ → DeferrableWindow → Type 0
  RunsOnce s load horizon solve_time window =
      (k : ℕ) × (window.earliest
        ≤ (solve_time + k * step_duration) + (window.earliest - solve_time) % step_duration)
      × (solve_time + (k + length power_profile) * step_duration ≤ window.latest)
      × (k + length power_profile ≤ horizon)
      × ((t : ℕ)
          → Draws l power_profile s (net_power l power_profile load t)
              (run_at l power_profile s k t))

  RunsBetween-RunsOnce :
      (s : S) (load : Load E) (horizon solve_time : ℕ) (window : DeferrableWindow)
      → 0 < length power_profile
      → RunsBetween s load horizon
          (datetime_to_step window.earliest solve_time)
          (datetime_to_step window.latest solve_time)
      → RunsOnce s load horizon solve_time window
  unfolding datetime_to_step
  RunsBetween-RunsOnce s load horizon solve_time window d (k, a, b, c, draws) = (
    k,
    from_earliest window.earliest solve_time k a,
    to_latest window.latest solve_time (k + length power_profile) (omega (arith, d)) b,
    c,
    draws,
  )

  -- A load with no start time and a window into which a run fits: every solution of a model with the
  -- load's constraints has exactly one run, which starts on the grid of the solve time. The run is
  -- over by the window's end and by the horizon's, and draws the profile step by step, and nothing
  -- else. It starts no earlier than the window where the window starts on that grid; elsewhere it
  -- may start up to the remainder before, which is less than a step, since the code rounds down.
  pub add_constraints-RunsOnce :
      (s : S) (horizon solve_time : ℕ) (window : DeferrableWindow) (m final : Model F E)
      → 0 < length power_profile
      → datetime_to_step window.earliest solve_time + length power_profile
        ≤ smaller (datetime_to_step window.latest solve_time) horizon
      → Extends l (add_constraints l power_profile horizon (some window) solve_time none m).1 final
      → Feasible l s final
      → RunsOnce s
          (add_constraints l power_profile horizon (some window) solve_time none m).0
          horizon
          solve_time
          window
  unfolding add_constraints schedule_window
  add_constraints-RunsOnce s horizon solve_time window m final d fits x f =
      let earliest = datetime_to_step window.earliest solve_time in
      let latest = datetime_to_step window.latest solve_time in
      let e = schedule-fitted horizon earliest latest m fits in
      subst (λ (r : Load E × Model F E). RunsOnce s r.0 horizon solve_time window) (sym e)
        (RunsBetween-RunsOnce s _ horizon solve_time window d (
          fitted-RunsBetween s _ horizon earliest latest m final d fits refl
            (subst (λ (r : Load E × Model F E). Extends l r.1 final) e x) f))
