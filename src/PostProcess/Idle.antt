-- ===== src/PostProcess/Idle.antt =====
-- The idle schedule: who stands still, and the grid powers that follow.
use mimirheim.Prelude.{
  String, ◌≡◌, refl, sym, ap, ◌∙◌, ◌⊎◌, inl, inr, Bool, true, false, not, List, [], ◌∷◌, map,
  filter, arith, Bool-cases, In,
}
use mathlib.Core.Path.{subst}
use mimirheim.Prelude.Float.{Float, lt, max}
use mimirheim.Prelude.Dict.{Dict}
use mimirheim.Bundle.{DeviceSetpoint, ScheduleStep, SolveResult}
use mimirheim.PostProcess.{
  is_controllable, idle_setpoint, idle_devices, net_power, idle_step, build_idle_result,
}

not-true : (b : Bool) → not b ≡ true → b ≡ false
not-true b h = ground arith

module _ {F : Type 0} ⦃f : Float F⦄ where
  idle_setpoint-kw :
      (sp : DeviceSetpoint F)
      → is_controllable (idle_setpoint sp).kind ≡ true
      → (idle_setpoint sp).kw ≡ f.nil
  unfolding idle_setpoint
  idle_setpoint-kw sp h = elim (Bool-cases (is_controllable sp.kind)) [
    | inl c ↦ rw c refl
    | inr c ↦ let h' = rw c at h in cc
  ]

  idle_setpoint-kind : (sp : DeviceSetpoint F) → (idle_setpoint sp).kind ≡ sp.kind
  unfolding idle_setpoint
  idle_setpoint-kind sp = ground arith

  idle_setpoint_other :
      (sp : DeviceSetpoint F) → is_controllable sp.kind ≡ false → idle_setpoint sp ≡ sp
  unfolding idle_setpoint
  idle_setpoint_other sp h = rw h refl

  In-idle_devices :
      (devices : Dict (DeviceSetpoint F)) (name : String) (sp : DeviceSetpoint F)
      → In {A = String × DeviceSetpoint F} (name, sp) (idle_devices devices)
      → (old : DeviceSetpoint F) × In {A = String × DeviceSetpoint F} (name, old) devices
        × (sp ≡ idle_setpoint old)
  unfolding idle_devices
  In-idle_devices [] name sp m = absurd m
  In-idle_devices ((n, s) ∷ devices) name sp (inl e) = (
    s,
    inl (ap (λ (p : String × DeviceSetpoint F). (p.0, s)) e),
    ap (λ (p : String × DeviceSetpoint F). p.1) e,
  )
  In-idle_devices ((n, s) ∷ devices) name sp (inr k) =
      let (old, m, e) = In-idle_devices devices name sp k in (old, inr m, e)

  In-idle_schedule :
      (schedule : List (ScheduleStep F)) (step : ScheduleStep F)
      → In step (map idle_step schedule)
      → (old : ScheduleStep F) × In old schedule × (step ≡ idle_step old)
  In-idle_schedule [] step m = absurd m
  In-idle_schedule (s ∷ schedule) step (inl e) = (s, inl refl, e)
  In-idle_schedule (s ∷ schedule) step (inr k) =
      let (old, m, e) = In-idle_schedule schedule step k in (old, inr m, e)

  max_nonneg : (x : F) → f.le f.nil (max f.nil x) ≡ true
  max_nonneg x = elim (f.le_total x f.nil) [
    | inl p ↦ rw p (f.le_refl f.nil)
    | inr p ↦ ground (arith, f.le_refl f.nil)
  ]

  neg_nonpos : (x : F) → f.le f.nil x ≡ true → f.le (f.neg x) f.nil ≡ true
  neg_nonpos x h = f.le_trans (f.neg x) (f.neg f.nil) f.nil (f.le_neg x f.nil ∙ h) f.neg_nil

  -- At most one direction carries power, and neither is negative.
  grid_one_way :
      (net : F)
      → (f.le f.nil (max f.nil (f.neg net)) ≡ true)
        × (f.le f.nil (max f.nil net) ≡ true)
        × ((max f.nil (f.neg net) ≡ f.nil) ⊎ (max f.nil net ≡ f.nil))
  grid_one_way net = (
    max_nonneg (f.neg net),
    max_nonneg net,
    elim (f.le_total net f.nil) [
      | inl p ↦ inr (rw p refl)
      | inr p ↦ inl (rw (neg_nonpos net p) refl)
    ],
  )

  -- In an idle schedule no controllable device has power, import and export are not negative, and
  -- one of them is 0. Every other device keeps the setpoint it has in a step of the solved schedule
  -- with the same number.
  pub build_idle_result-idle :
      (result : SolveResult F) (step : ScheduleStep F) (name : String) (sp : DeviceSetpoint F)
      → In step (build_idle_result result).schedule
      → In {A = String × DeviceSetpoint F} (name, sp) step.devices
      → (f.le f.nil step.grid_import_kw ≡ true)
        × (f.le f.nil step.grid_export_kw ≡ true)
        × ((step.grid_import_kw ≡ f.nil) ⊎ (step.grid_export_kw ≡ f.nil))
        × (((is_controllable sp.kind ≡ true) × (sp.kw ≡ f.nil))
            ⊎ ((is_controllable sp.kind ≡ false)
                × (old : ScheduleStep F) × In old result.schedule
                × (old.t ≡ step.t)
                × In {A = String × DeviceSetpoint F} (name, sp) old.devices))
  unfolding build_idle_result idle_step
  build_idle_result-idle result step name sp m k =
      let (old, i, e) = In-idle_schedule result.schedule step m in
      let (p, q, r) = grid_one_way (net_power f.nil old.devices) in
      let (old_sp, j, g) = In-idle_devices old.devices name sp (rw e at k) in
      (
        rw e p,
        rw e q,
        rw e r,
        elim (Bool-cases (is_controllable sp.kind)) [
          | inl c ↦ inl (
            c,
            subst (λ (x : DeviceSetpoint F). x.kw ≡ f.nil) (sym g)
                (idle_setpoint-kw old_sp (rw g at c)),
          )
          | inr c ↦
              let same : sp ≡ old_sp =
                g
                ∙ idle_setpoint_other old_sp
                    (sym (ap is_controllable (idle_setpoint-kind old_sp)) ∙ rw g at c) in
              inr (
                c,
                old,
                i,
                rw e refl,
                subst
                    (λ (x : DeviceSetpoint F).
                      In {A = String × DeviceSetpoint F} (name, x) old.devices)
                    (sym same) j,
              )
        ],
      )

  net_power-idle :
      (net : F) (devices : Dict (DeviceSetpoint F))
      → net_power net (idle_devices devices) ≡ net_power net devices
  unfolding net_power idle_devices
  net_power-idle net [] = refl
  net_power-idle net ((name, sp) ∷ devices) = elim (Bool-cases (is_controllable sp.kind)) [
    | inl c ↦ rw (idle_setpoint-kind sp, c) (net_power-idle net devices)
    | inr c ↦
        rw (idle_setpoint-kind sp, c, idle_setpoint_other sp c)
          (net_power-idle (f.add net sp.kw) devices)
  ]

  -- the powers of the devices that the schedule does not control
  abbrev pub uncontrolled : Dict (DeviceSetpoint F) → List F
  uncontrolled devices =
      map (λ (d : String × DeviceSetpoint F). d.1.kw)
        (filter (λ (d : String × DeviceSetpoint F). not (is_controllable d.1.kind)) devices)

  abbrev pub total : F → List F → F
  total acc [] = acc
  total acc (x ∷ xs) = total (f.add acc x) xs

  net_power-total :
      (net : F) (devices : Dict (DeviceSetpoint F))
      → net_power net devices ≡ total net (uncontrolled devices)
  unfolding net_power
  net_power-total net [] = refl
  net_power-total net ((name, sp) ∷ devices) = elim (Bool-cases (is_controllable sp.kind)) [
    | inl c ↦ rw c (net_power-total net devices)
    | inr c ↦ rw c (net_power-total (f.add net sp.kw) devices)
  ]

  -- A surplus is exported, a shortage is imported, and the other direction is idle.
  abbrev pub Balances : F → ScheduleStep F → Type 0
  Balances net step =
      (lt f.nil net ≡ true → (step.grid_export_kw ≡ net) × (step.grid_import_kw ≡ f.nil))
      × (lt net f.nil ≡ true → (step.grid_import_kw ≡ f.neg net) × (step.grid_export_kw ≡ f.nil))
      × (f.le net f.nil ≡ true
          → f.le f.nil net ≡ true
          → (step.grid_import_kw ≡ f.nil) × (step.grid_export_kw ≡ f.nil))

  left_of_total : (x y : F) → f.le x y ≡ false → f.le y x ≡ true
  left_of_total x y h = elim (f.le_total x y) [ inl p ↦ cc | inr p ↦ p ]

  neg_positive : (x : F) → f.le f.nil x ≡ false → f.le (f.neg x) f.nil ≡ false
  neg_positive x h = elim (Bool-cases (f.le (f.neg x) f.nil)) [
    | inl p ↦
        let up = f.le_trans (f.neg x) f.nil (f.neg f.nil) p f.nil_neg in
        let same = f.le_neg x f.nil in cc
    | inr p ↦ p
  ]

  idle_step-Balances :
      (old : ScheduleStep F) → Balances (net_power f.nil old.devices) (idle_step old)
  unfolding idle_step
  idle_step-Balances old =
      let net = net_power f.nil old.devices in
      (
        λ h.
            let out = not-true (f.le net f.nil) h in
            (rw out refl, rw (neg_nonpos net (left_of_total net f.nil out)) refl),
        λ h.
            let short = not-true (f.le f.nil net) h in
            (rw (neg_positive net short) refl, rw (left_of_total f.nil net short) refl),
        λ p q. (rw (neg_nonpos net q) refl, rw p refl),
      )

  -- In an idle schedule the grid takes what the devices leave that the schedule does not control: a
  -- positive sum of their powers in the step is exported, a negative one is imported, and there is
  -- no exchange at a sum of zero.
  pub build_idle_result-Balances :
      (result : SolveResult F) (step : ScheduleStep F)
      → In step (build_idle_result result).schedule
      → Balances (total f.nil (uncontrolled step.devices)) step
  unfolding build_idle_result idle_step
  build_idle_result-Balances result step m =
      let (old, i, e) = In-idle_schedule result.schedule step m in
      let net : net_power f.nil old.devices ≡ total f.nil (uncontrolled step.devices) =
        sym (net_power-idle f.nil old.devices)
        ∙ ap (net_power f.nil)
            (idle_step-devices old ∙ ap (λ (s : ScheduleStep F). s.devices) (sym e))
        ∙ net_power-total f.nil step.devices in
      subst (λ (s : ScheduleStep F). Balances (total f.nil (uncontrolled step.devices)) s) (sym e)
        (subst (λ n. Balances n (idle_step old)) net (idle_step-Balances old))
    where
      idle_step-devices :
          (old : ScheduleStep F) → idle_devices old.devices ≡ (idle_step old).devices
      idle_step-devices old = refl
