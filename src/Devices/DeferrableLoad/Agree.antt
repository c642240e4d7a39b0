-- ===== src/Devices/DeferrableLoad/Agree.antt =====
-- A load that is committed or running draws the same power whichever cycle looks at it.
use mimirheim.Prelude.{
  smaller, ℕ, zero, suc, ◌+◌, ◌-◌, ◌*◌, ◌/◌, ◌%◌, ◌≤◌, ◌<◌, ◌≡◌, refl, sym, ap, ◌∙◌, inl, inr, true,
  false, Option, none, some, List, [], ◌∷◌, length, get_elem?, ltb, leb, leb→le, le→leb, ltb→lt,
  leb-false→lt, arith, Bool-cases, if◌then◌else◌, ◌>>=◌,
}
use mimirheim.Forecast.{step_duration}
use mimirheim.Bundle.{DeferrableWindow}
use mimirheim.Solver.{Linear, Model}
use mimirheim.Devices.DeferrableLoad.{
  datetime_to_step, Load, fresh_load, add_constraints, draw, net_power,
}

-- two instants on the same grid
aligned :
    (later earlier : ℕ)
    → later % step_duration ≡ earlier % step_duration
    → earlier ≤ later
    → later ≡ earlier + ((later - earlier) / step_duration) * step_duration
aligned later earlier g h = omega (arith, g, h)

begun_by :
    (start now : ℕ)
    → start % step_duration ≡ now % step_duration
    → ltb 0 ((start - now) / step_duration) ≡ false
    → start ≤ now
begun_by start now g h = less start now g (ground arith)
  where
    less :
        (start now : ℕ)
        → start % step_duration ≡ now % step_duration
        → (start - now) / step_duration ≡ 0
        → start ≤ now
    less start now g h = omega (arith, g, h)

not_over : (a b : ℕ) → b < a → leb a b ≡ false
not_over a b h = ground arith

module _ {F E S : Type 0} (l : Linear F E S) (power_profile : List F) where
  abbrev pub power_or_zero : Option F → F
  power_or_zero none = l.zero
  power_or_zero (some p) = p

  -- The power of a run at a step, of which the run has begun `i` steps before.
  abbrev pub power_at : ℕ → F
  power_at i = power_or_zero (get_elem? power_profile i)

  -- The power of a run from an instant, at another instant.
  abbrev pub run_power : (start now : ℕ) → F
  run_power start now = if leb start now then power_at ((now - start) / step_duration) else l.zero

  abbrev pub Draws : S → Option E → F → Type 0
  Draws s o x = (e : E) × (o ≡ some e) × (l.value s e ≡ l.neg x)

  pub beyond : (i : ℕ) → length power_profile ≤ i → power_at i ≡ l.zero
  beyond i h = past power_profile i h
    where
      past : (xs : List F) (i : ℕ) → length xs ≤ i → power_or_zero (get_elem? xs i) ≡ l.zero
      past [] i h = refl
      past (x ∷ xs) zero h = absurd (omega (arith, h))
      past (x ∷ xs) (suc i) h = past xs i (omega (arith, h))

  draw-Draws :
      (s : S) (i : ℕ) → i < length power_profile → Draws s (draw l power_profile i) (power_at i)
  unfolding draw
  draw-Draws s i h = drawn power_profile i h
    where
      drawn :
          (xs : List F) (i : ℕ)
          → i < length xs
          → Draws s
              (get_elem? xs i >>= λ p. some (l.constant (l.neg p)))
              (power_or_zero (get_elem? xs i))
      drawn [] i h = absurd (omega (arith, h))
      drawn (x ∷ xs) zero h = (l.constant (l.neg x), refl, l.value_constant s (l.neg x))
      drawn (x ∷ xs) (suc i) h = drawn xs i (omega (arith, h))

  zero-Draws : (s : S) (x : F) → x ≡ l.zero → Draws s (some (l.constant l.zero)) x
  zero-Draws s x h =
      (l.constant l.zero, refl, l.value_constant s l.zero ∙ sym l.neg_zero ∙ ap l.neg (sym h))

  run_power_later :
      (start now i : ℕ)
      → start ≤ now
      → (now - start) / step_duration ≡ i
      → run_power start now ≡ power_at i
  run_power_later start now i h e = rw (le→leb start now h) (ap power_at e)

  run_power_earlier : (start now : ℕ) → now < start → run_power start now ≡ l.zero
  run_power_earlier start now h = rw (not_le start now h) refl
    where
      not_le : (a b : ℕ) → b < a → leb a b ≡ false
      not_le a b h = ground arith

  -- the two states of a run that is not over
  committed : ℕ → Load E
  committed c = record fresh_load { committed_start_step = some c }

  running : (elapsed horizon : ℕ) → Load E
  running elapsed horizon = record fresh_load {
    fixed_steps = smaller (length power_profile - elapsed) horizon;
    elapsed_steps = elapsed;
  }

  committed_power :
      (s : S) (c start now t : ℕ)
      → start ≡ now + c * step_duration
      → Draws s
          (net_power l power_profile (committed c) t)
          (run_power start (now + t * step_duration))
  unfolding net_power committed
  committed_power s c start now t h = elim (Bool-cases (leb c t)) [
    | inr before ↦ rw before (
        zero-Draws s _ (
          run_power_earlier start (now + t * step_duration)
            (omega (arith, h, leb-false→lt c t before))))
    | inl on ↦
        let later =
          run_power_later start (now + t * step_duration) (t - c) (omega (arith, h, leb→le c t on))
            (omega (arith, h, leb→le c t on)) in
        elim (Bool-cases (ltb (t - c) (length power_profile))) [
          | inl within ↦ rw (on, within, later) (draw-Draws s (t - c) (ltb→lt _ _ within))
          | inr out ↦ rw (on, out) (zero-Draws s _ (later ∙ beyond (t - c) (ground arith)))
        ]
  ]

  running_power :
      (s : S) (elapsed horizon start now t : ℕ)
      → now ≡ start + elapsed * step_duration
      → elapsed < length power_profile
      → t < horizon
      → Draws s
          (net_power l power_profile (running elapsed horizon) t)
          (run_power start (now + t * step_duration))
  unfolding net_power running
  running_power s elapsed horizon start now t h e p =
      let later =
        run_power_later start (now + t * step_duration) (elapsed + t) (omega (arith, h))
          (omega (arith, h)) in
      let some_left : ltb 0 (smaller (length power_profile - elapsed) horizon) ≡ true =
        ground arith in
      elim (Bool-cases (ltb t (smaller (length power_profile - elapsed) horizon))) [
        | inl within ↦
            let inside : elapsed + t < length power_profile = ground arith in
            rw (some_left, within, later) (draw-Draws s (elapsed + t) inside)
        | inr out ↦
            let outside : length power_profile ≤ elapsed + t = ground arith in
            rw (some_left, out) (zero-Draws s _ (later ∙ beyond (elapsed + t) outside))
      ]

  -- For a start on the grid of the solve time whose run is not over, each step of the horizon draws
  -- the power that the run from that start has at the step's instant, and nothing before or after
  -- the run. This holds in whichever state the load is found, so the cycles agree.
  pub net_power_agrees :
      (s : S) (horizon : ℕ) (window : Option DeferrableWindow) (solve_time start_time t : ℕ)
      (m : Model F E)
      → start_time % step_duration ≡ solve_time % step_duration
      → solve_time < start_time + length power_profile * step_duration
      → t < horizon
      → Draws s
          (net_power l power_profile
            (add_constraints l power_profile horizon window solve_time (some start_time) m).0
            t)
          (run_power start_time (solve_time + t * step_duration))
  unfolding add_constraints datetime_to_step committed running
  net_power_agrees s horizon window solve_time start_time t m g over p =
      elim (Bool-cases (ltb 0 ((start_time - solve_time) / step_duration))) [
        | inl ahead ↦ rw ahead (
            committed_power s ((start_time - solve_time) / step_duration) start_time solve_time t
              (aligned start_time solve_time g (ground arith)))
        | inr begun ↦
            let past =
              aligned solve_time start_time (sym g) (begun_by start_time solve_time g begun) in
            let elapsed = (solve_time - start_time) / step_duration in
            let inside : elapsed < length power_profile = omega (arith, past, over) in
            rw (begun, not_over (length power_profile) elapsed inside)
              (running_power s elapsed horizon start_time solve_time t past inside p)
      ]
