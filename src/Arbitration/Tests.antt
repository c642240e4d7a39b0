-- ===== src/Arbitration/Tests.antt =====
-- The theorems on the arbitration at concrete inputs.
use mimirheim.Arbitration.Score.{
  available, type_priority_of, wear_cost, efficiency_at_power, score_lt, max_charge_kw, gather,
  Candidate, is_eligible, is_near_zero_exchange, candidate_of, build_candidates,
  absorption_headroom,
}
use mimirheim.Arbitration.Assign.{
  choose_for, collect_loadbalance_capable, assign_step, assign_steps, collect_zex_capable,
  availability, assign_control_authority,
}
use mimirheim.Prelude.Sort.{sorted}
use text.Mathlib.TextEquality.{eq_iff}
use mimirheim.Config.{MimirheimConfig}
use mimirheim.Prelude.Dict.{Dict, get, map_values}
use mimirheim.Arbitration.LoadBalance.{assign_control_authority-balancing}
use mimirheim.Prelude.{
  ◌≢◌, ◌≤◌, is_some, String, ◌≡◌, refl, inl, inr, Bool, true, false, some, List, [], ◌∷◌, arith, In,
}
use mimirheim.Prelude.Float.{lt}
use mimirheim.Prelude.Fixed.{ℤ, pos, negsuc, milli}
use mimirheim.Bundle.{DeviceSetpoint, ScheduleStep, SolveResult}
use mimirheim.Examples.{household, bundle, setpoint, balanced_step, solved, car_charger}
use mimirheim.Arbitration.Choose.{Authority, no_authority, choose}
use mimirheim.Arbitration.Best.{IsEligible, NoBetter, build_candidates-best}
use mimirheim.Arbitration.Schedule.{
  candidates, after, Keeps, enforced_by, Stays, dwell_holds, switch_needs_delta,
}
use mimirheim.Arbitration.Flags.{IsActive}
use mimirheim.Arbitration.Enforcer.{
  assign_control_authority_unique, assign_control_authority-eligible,
  assign_control_authority-covers,
}

-- only the car is there
abbrev car_step : ScheduleStep ℤ
car_step = record balanced_step { devices = ("car", setpoint "ev_charger" (pos 0)) ∷ [] }

abbrev car_available : Dict Bool
car_available = ("car", true) ∷ []

abbrev car_chosen : Authority ℤ
car_chosen = (assign_step household car_available car_step no_authority).1

car_takes_over : car_chosen.current ≡ some "car"
unfolding assign_step is_near_zero_exchange collect_loadbalance_capable collect_zex_capable
    choose_for choose build_candidates sorted gather is_eligible absorption_headroom max_charge_kw
    score_lt candidate_of efficiency_at_power wear_cost type_priority_of
car_takes_over = refl

-- the battery is back, and charges with less loss
car-Stays : Stays household car_available "car" balanced_step
unfolding assign_step is_near_zero_exchange collect_loadbalance_capable collect_zex_capable
    choose_for choose build_candidates sorted gather is_eligible absorption_headroom max_charge_kw
    score_lt candidate_of efficiency_at_power wear_cost type_priority_of
car-Stays = (refl, refl)

dwell_holds_example :
    assign_steps household car_available car_chosen (balanced_step ∷ balanced_step ∷ [])
    ≡ enforced_by household car_available (some "car") balanced_step
      ∷ enforced_by household car_available (some "car") balanced_step
      ∷ []
dwell_holds_example =
    dwell_holds household car_available car_step no_authority "car"
      (balanced_step ∷ balanced_step ∷ []) (λ e. cc) car_takes_over (car-Stays, (car-Stays, tt))
      (omega arith)

car-Keeps :
    Keeps household car_available "car" no_authority (car_step ∷ balanced_step ∷ balanced_step ∷ [])
unfolding assign_step is_near_zero_exchange collect_loadbalance_capable collect_zex_capable
    choose_for choose build_candidates sorted gather is_eligible absorption_headroom max_charge_kw
    score_lt candidate_of efficiency_at_power wear_cost type_priority_of
car-Keeps = (refl, (refl, (refl, tt)))

home_takes_over :
    (after household car_available no_authority
      (car_step ∷ balanced_step ∷ balanced_step ∷ balanced_step ∷ [])).current
    ≡ some "home"
unfolding assign_step is_near_zero_exchange collect_loadbalance_capable collect_zex_capable
    choose_for choose build_candidates sorted gather is_eligible absorption_headroom max_charge_kw
    score_lt candidate_of efficiency_at_power wear_cost type_priority_of
home_takes_over = refl

switch_needs_delta_example :
    (3 ≤ 3)
    × (was : Candidate ℤ) × (others : List (Candidate ℤ)) × (candidates household car_available
          car_step
        ≡ was ∷ others)
    × (was.name ≡ "car")
    × (best : Candidate ℤ) × (rest : List (Candidate ℤ)) × (candidates household car_available
          balanced_step
        ≡ best ∷ rest)
    × (best.name ≡ "home")
    × (lt (pos 10) (milli.sub best.efficiency_score was.efficiency_score) ≡ true)
switch_needs_delta_example =
    switch_needs_delta household car_available car_step no_authority
      (balanced_step ∷ balanced_step ∷ []) balanced_step "car" "home" (λ e. cc) car-Keeps car-Stays
      home_takes_over (λ e. let h : false ≡ true = (eq_iff "home" "car").1 e in cc)

-- the devices of the balanced step once it is assigned
abbrev active_home : DeviceSetpoint ℤ
active_home = record (setpoint "battery" (negsuc 999)) { zero_exchange_active = some true }

abbrev assigned_step : ScheduleStep ℤ
assigned_step = record balanced_step {
  devices =
      ("home", active_home)
      ∷ (
        "car",
        record (setpoint "ev_charger" (pos 0)) {
          zero_exchange_active = some false;
          loadbalance_active = some false;
        },
      )
      ∷ ("roof", setpoint "pv" (pos 1_000))
      ∷ [];
}

assigned : In assigned_step (assign_control_authority solved bundle household).schedule
unfolding assign_control_authority assign_step is_near_zero_exchange collect_loadbalance_capable
    collect_zex_capable choose_for sorted gather is_eligible absorption_headroom max_charge_kw
    score_lt candidate_of efficiency_at_power
assigned = inl refl

assign_control_authority_unique_example :
    (◌≡◌ {A = String} "home" "home") × (is_near_zero_exchange assigned_step (pos 50) ≡ true)
unfolding collect_zex_capable
assign_control_authority_unique_example =
    assign_control_authority_unique solved bundle household assigned_step "home" "home" active_home
      active_home assigned (inl refl) (refl, refl) (inl refl) (refl, refl)

assign_control_authority-eligible_example :
    (old : ScheduleStep ℤ) × (old_sp : DeviceSetpoint ℤ) × In old solved.schedule
    × (old.t ≡ 0)
    × In {A = String × DeviceSetpoint ℤ} ("home", old_sp) old.devices
    × (is_eligible
          (collect_zex_capable household)
          (availability bundle)
          household
          (pos 100)
          "home"
          old_sp
        ≡ true)
unfolding collect_zex_capable
assign_control_authority-eligible_example =
    assign_control_authority-eligible solved bundle household assigned_step "home" active_home
      assigned (inl refl) (refl, refl)

assign_control_authority-covers_example :
    (step : ScheduleStep ℤ) × (enforcer : String) × (sp : DeviceSetpoint ℤ) × In step
      (assign_control_authority solved bundle household).schedule
    × (step.t ≡ 0)
    × In {A = String × DeviceSetpoint ℤ} (enforcer, sp) step.devices
    × IsActive (collect_zex_capable household) enforcer sp
unfolding collect_zex_capable is_eligible absorption_headroom is_near_zero_exchange map_values
    max_charge_kw
assign_control_authority-covers_example =
    assign_control_authority-covers solved bundle household balanced_step "car"
      (setpoint "ev_charger" (pos 0)) (inl refl) refl (inr (inl refl)) refl

-- the candidates of the balanced step, at no compensation power
abbrev charging_home : Candidate ℤ
charging_home = record {
  name = "home";
  sp_type = "battery";
  efficiency_score = pos 950;
  headroom_margin = pos 2_000;
  wear_penalty = negsuc 49;
  type_priority = 3;
  name_key = "home";
}

abbrev waiting_car : Candidate ℤ
waiting_car = record {
  name = "car";
  sp_type = "ev_charger";
  efficiency_score = pos 900;
  headroom_margin = pos 11_000;
  wear_penalty = pos 0;
  type_priority = 2;
  name_key = "car";
}

ranked :
    build_candidates balanced_step
      (pos 0)
      ("home" ∷ "car" ∷ [])
      (("car", true) ∷ [])
      household
      (pos 100)
    ≡ charging_home ∷ waiting_car ∷ []
unfolding build_candidates sorted gather is_eligible absorption_headroom max_charge_kw score_lt
    candidate_of efficiency_at_power wear_cost type_priority_of
ranked = refl

build_candidates-best_example :
    (sp : DeviceSetpoint ℤ) × (IsEligible
        (pos 0)
        ("home" ∷ "car" ∷ [])
        (("car", true) ∷ [])
        household
        (pos 100)
        balanced_step.devices
        "home"
        sp
      × ((name : String) (other : DeviceSetpoint ℤ)
          → IsEligible
              (pos 0)
              ("home" ∷ "car" ∷ [])
              (("car", true) ∷ [])
              household
              (pos 100)
              balanced_step.devices
              name
              other
          → NoBetter
              (candidate_of (pos 0) household name other)
              (candidate_of (pos 0) household "home" sp)))
build_candidates-best_example =
    build_candidates-best (pos 0) ("home" ∷ "car" ∷ []) (("car", true) ∷ []) household (pos 100)
      balanced_step charging_home (waiting_car ∷ []) ranked

-- the roof is curtailed to hold the exchange at zero while the car balances load
abbrev roof_only : MimirheimConfig ℤ
roof_only = record household {
  batteries = [];
  ev_chargers = ("car", record car_charger { zero_exchange = false }) ∷ [];
  pv_arrays = ("roof", record { topic_forecast = "roof/forecast"; zero_export = true }) ∷ [];
}

abbrev roof_step : ScheduleStep ℤ
roof_step = record balanced_step {
  devices = ("car", setpoint "ev_charger" (negsuc 999)) ∷ ("roof", setpoint "pv" (pos 1_000)) ∷ [];
}

abbrev balancing_car : DeviceSetpoint ℤ
balancing_car = record (setpoint "ev_charger" (negsuc 999)) { loadbalance_active = some true }

abbrev curtailed_roof : DeviceSetpoint ℤ
curtailed_roof = record (setpoint "pv" (pos 1_000)) { zero_exchange_active = some true }

abbrev assigned_roof_step : ScheduleStep ℤ
assigned_roof_step = record balanced_step {
  devices = ("car", balancing_car) ∷ ("roof", curtailed_roof) ∷ [];
}

abbrev roof_result : SolveResult ℤ
roof_result = record solved { schedule = roof_step ∷ [] }

roof_assigned :
    In assigned_roof_step (assign_control_authority roof_result bundle roof_only).schedule
unfolding assign_control_authority assign_step is_near_zero_exchange collect_loadbalance_capable
    collect_zex_capable choose_for sorted gather is_eligible absorption_headroom max_charge_kw
    score_lt candidate_of efficiency_at_power
roof_assigned = inl refl

assign_control_authority-balancing_example :
    (available (availability bundle) "car" ≡ true)
    × (◌≢◌ {A = String} "car" "roof")
    × (is_some (get roof_only.batteries "roof") ≡ false)
unfolding collect_zex_capable collect_loadbalance_capable
assign_control_authority-balancing_example =
    assign_control_authority-balancing roof_result bundle roof_only assigned_roof_step "car" "roof"
      balancing_car curtailed_roof roof_assigned (inl refl) refl refl (inr (inl refl)) (refl, refl)
