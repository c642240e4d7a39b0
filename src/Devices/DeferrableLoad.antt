-- ===== src/Devices/DeferrableLoad.antt =====
-- mimirheim/devices/deferrable_load.py: a load that runs once, with a power for each step of its run.
-- Instants are UTC microseconds; `ctx.dt` is a quarter hour. An index out of range is `none`.
pub mod Once
pub mod Window
pub mod Agree
use mimirheim.Prelude.{
  smaller, ℕ, zero, suc, ◌+◌, ◌-◌, ◌*◌, ◌/◌, Bool, true, not, ◌&&◌, Option, none, some, List, [],
  ◌∷◌, map, length, get_elem?, ltb, leb, ◌==◌, if◌then◌else◌, ◌>>=◌,
}
use mimirheim.Forecast.{step_duration}
use mimirheim.Bundle.{DeferrableWindow}
use mimirheim.Solver.{Linear, Constraint, equal, Model, sum, add_var, add_constraint}

-- `_datetime_to_step`
unfoldable pub datetime_to_step : ℕ → ℕ → ℕ
datetime_to_step value solve_time = (value - solve_time) / step_duration

-- the fields of a load after `add_constraints`
pub record Load (E : Type 0) : Type 0 where
  pub start : List (ℕ × E)
  pub fixed_steps : ℕ
  pub elapsed_steps : ℕ
  pub committed_start_step : Option ℕ

-- a load after `__init__`
abbrev pub fresh_load : {E : Type 0} → Load E
fresh_load = record { start = []; fixed_steps = 0; elapsed_steps = 0; committed_start_step = none }

-- `self.start.get(k)`
unfoldable pub start_at : {E : Type 0} → List (ℕ × E) → ℕ → Option E
start_at [] k = none
start_at ((t, e) ∷ starts) k = if t == k then some e else start_at starts k

abbrev pub handles : {E : Type 0} → List (ℕ × E) → List E
handles [] = []
handles ((t, e) ∷ starts) = e ∷ handles starts

module _ {F E S : Type 0} (l : Linear F E S) where
  -- a binary for each of `n` steps from `t`
  unfoldable pub add_starts : (n t : ℕ) → Model F E → List (ℕ × E) × Model F E
  add_starts zero t m = ([], m)
  add_starts (suc n) t m =
      let (handle, m1) = add_var l l.zero l.one true m in
      let (starts, m2) = add_starts n (suc t) m1 in ((t, handle) ∷ starts, m2)

module _ {F E S : Type 0} (l : Linear F E S) (power_profile : List F) where
  -- state 1: one start in the window, if a run fits into it. The last valid start is
  -- `finish - length power_profile`, where that is not negative.
  unfoldable pub schedule : (horizon earliest latest : ℕ) → Model F E → Load E × Model F E
  unfolding add_starts add_constraint
  schedule horizon earliest latest m =
      let finish = smaller latest horizon in
      if ltb finish (earliest + length power_profile)
      then (fresh_load, m)
      else (let (starts, m1) =
            add_starts l (suc (finish - length power_profile) - earliest) earliest m in
          (
            record fresh_load { start = starts },
            add_constraint (equal (sum l (handles starts)) (l.constant l.one)) m1,
          ))

  unfoldable pub schedule_window :
      (horizon : ℕ) → Option DeferrableWindow → ℕ → Model F E → Load E × Model F E
  unfolding schedule
  schedule_window horizon none solve_time m = (fresh_load, m)
  schedule_window horizon (some window) solve_time m =
      schedule horizon (datetime_to_step window.earliest solve_time)
        (datetime_to_step window.latest solve_time) m

  -- `int` rounds towards 0: the start is ahead where it is a whole step or more ahead
  unfoldable pub add_constraints :
      (horizon : ℕ)
      → Option DeferrableWindow
      → (solve_time : ℕ) → Option ℕ
      → Model F E
      → Load E × Model F E
  add_constraints horizon window solve_time none m = schedule_window horizon window solve_time m
  add_constraints horizon window solve_time (some start_time) m =
      let ahead = ltb 0 ((start_time - solve_time) / step_duration) in
      let elapsed = (solve_time - start_time) / step_duration in
      let rescheduled = schedule_window horizon window solve_time m in
      if not ahead && leb (length power_profile) elapsed
      then rescheduled
      else if ahead
      then (
        record fresh_load { committed_start_step = some (datetime_to_step start_time solve_time) },
        m,
      )
      else (
        record fresh_load {
          fixed_steps = smaller (length power_profile - elapsed) horizon;
          elapsed_steps = elapsed;
        },
        m,
      )

  -- a start's term, where there is a start
  unfoldable pub add_term : ℕ → Option E → Option (List E) → Option (List E)
  add_term i none rest = rest
  add_term i (some e) rest =
      get_elem? power_profile i >>= λ p. rest >>= λ es. some (l.times p e ∷ es)

  -- the weighted starts of `n` steps from `k`
  unfoldable pub terms : List (ℕ × E) → (n k t : ℕ) → Option (List E)
  terms starts zero k t = some []
  terms starts (suc n) k t = add_term (t - k) (start_at starts k) (terms starts n (suc k) t)

  -- a constant power of the profile
  unfoldable pub draw : ℕ → Option E
  draw i = get_elem? power_profile i >>= λ p. some (l.constant (l.neg p))

  unfoldable pub scheduled_power : List (ℕ × E) → ℕ → Option E
  unfolding terms
  scheduled_power [] t = some (l.constant l.zero)
  scheduled_power ((u, e) ∷ starts) t =
      let first = suc t - length power_profile in
      terms ((u, e) ∷ starts) (suc t - first) first t >>= λ es. some (l.negate (sum l es))

  unfoldable pub net_power : Load E → ℕ → Option E
  unfolding draw
  net_power load t =
      if ltb 0 load.fixed_steps
      then (if ltb t load.fixed_steps
          then draw (load.elapsed_steps + t)
          else some (l.constant l.zero))
      else elim load.committed_start_step [
        | some start ↦
            if leb start t && ltb (t - start) (length power_profile)
            then draw (t - start)
            else some (l.constant l.zero)
        | none ↦ scheduled_power load.start t
      ]
