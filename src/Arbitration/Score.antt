-- ===== src/Arbitration/Score.antt =====
-- Scoring: headroom, efficiency and the sorted list of eligible candidates of one step.
use Prim.Native.Nat.{Ordering}
use Prim.Native.String.{compare}
use text.Mathlib.Text.{◌==◌}
use mimirheim.Prelude.{
  ℕ, String, Bool, true, false, not, ◌&&◌, none, some, List, [], ◌∷◌, map, ltb, any, if◌then◌else◌,
}
use mimirheim.Prelude.Float.{Float, lt, eq, max}
use mimirheim.Prelude.Sort.{sorted}
use mimirheim.Prelude.Dict.{Dict, get}
use mimirheim.Config.{
  NonEmpty, EfficiencySegment, EfficiencyBreakpoint, BatteryConfig, MimirheimConfig,
}
use mimirheim.Bundle.{DeviceSetpoint, ScheduleStep}

-- `_Candidate`
pub record Candidate (F : Type 0) : Type 0 where
  pub name : String
  pub sp_type : String
  pub efficiency_score : F
  pub headroom_margin : F
  pub wear_penalty : F
  pub type_priority : ℕ
  pub name_key : String

-- `_TYPE_PRIORITY.get(sp_type, 0)`
unfoldable pub type_priority_of : String → ℕ
type_priority_of kind =
    if kind == "battery"
    then 3
    else if kind == "hybrid_inverter"
    then 2
    else if kind == "ev_charger"
    then 2
    else if kind == "pv"
    then 1
    else 0

-- Python's `<` on texts
unfoldable pub text_lt : String → String → Bool
text_lt s t = elim (compare s t) [ Ordering.lt ↦ true | _ ↦ false ]

-- `xs[-1]`
abbrev pub last : {A : Type 0} → NonEmpty A → A
last (x, []) = x
last (x, y ∷ ys) = last (y, ys)

-- `name in capable`
abbrev pub member : String → List String → Bool
member name names = any (λ n. n == name) names

-- `ev_available.get(name, False)`
abbrev pub available : Dict Bool → String → Bool
available ev_available name = elim (get ev_available name) [ none ↦ false | some b ↦ b ]

module _ {F : Type 0} ⦃f : Float F⦄ where
  unfoldable pub sum_power : List (EfficiencySegment F) → F
  sum_power segments = f.sum (map (λ s. s.power_max_kw) segments)

  abbrev pub total_power : NonEmpty (EfficiencySegment F) → F
  total_power (s, segments) = sum_power (s ∷ segments)

  unfoldable pub battery_max_charge : BatteryConfig F → F
  unfolding sum_power
  battery_max_charge bat = elim bat.charge_efficiency_curve [
    | some curve ↦ (last curve).power_kw
    | none ↦ elim bat.charge_segments [ some segments ↦ total_power segments | none ↦ f.nil ]
  ]

  unfoldable pub max_charge_kw : String → String → MimirheimConfig F → F
  unfolding battery_max_charge
  max_charge_kw name sp_type config =
      if sp_type == "battery"
      then elim (get config.batteries name) [ none ↦ f.nil | some bat ↦ battery_max_charge bat ]
      else if sp_type == "ev_charger"
      then elim (get config.ev_chargers name) [
        | none ↦ f.nil
        | some ev ↦ total_power ev.charge_segments
      ]
      else if sp_type == "hybrid_inverter"
      then elim (get config.hybrid_inverters name) [
        | none ↦ f.nil
        | some hi ↦ f.div hi.max_charge_kw hi.inverter_efficiency
      ]
      else f.nil

  unfoldable pub absorption_headroom : String → DeviceSetpoint F → MimirheimConfig F → F
  absorption_headroom name sp config =
      if sp.kind == "pv"
      then max f.nil sp.kw
      else let charge_kw = if lt sp.kw f.nil then f.neg sp.kw else f.nil in
        let discharge_kw = if lt f.nil sp.kw then sp.kw else f.nil in
        max f.nil (f.add (f.sub (max_charge_kw name sp.kind config) charge_kw) discharge_kw)

  -- the loop over neighbouring breakpoints
  unfoldable pub interpolate : F → EfficiencyBreakpoint F → List (EfficiencyBreakpoint F) → F
  interpolate power_kw p [] = p.efficiency
  interpolate power_kw p (q ∷ rest) =
      let next = interpolate power_kw q rest in
      if f.le p.power_kw power_kw && f.le power_kw q.power_kw
      then f.add p.efficiency (
          f.mul (f.div (f.sub power_kw p.power_kw) (f.sub q.power_kw p.power_kw))
            (f.sub q.efficiency p.efficiency))
      else next

  unfoldable pub curve_efficiency : F → NonEmpty (EfficiencyBreakpoint F) → F
  unfolding interpolate
  curve_efficiency power_kw (p, rest) =
      if f.le power_kw p.power_kw
      then p.efficiency
      else if f.le (last (p, rest)).power_kw power_kw
      then (last (p, rest)).efficiency
      else interpolate power_kw p rest

  -- the loop over stacked segments; the last one serves any power above the total
  unfoldable pub segment_efficiency : F → F → EfficiencySegment F → List (EfficiencySegment F) → F
  segment_efficiency power_kw cumulative s [] = s.efficiency
  segment_efficiency power_kw cumulative s (r ∷ rest) =
      let reached = f.add cumulative s.power_max_kw in
      let next = segment_efficiency power_kw reached r rest in
      if f.le power_kw reached then s.efficiency else next

  abbrev pub segments_efficiency : F → NonEmpty (EfficiencySegment F) → F
  segments_efficiency power_kw (s, rest) = segment_efficiency power_kw f.nil s rest

  unfoldable pub battery_efficiency : F → BatteryConfig F → F
  unfolding curve_efficiency segment_efficiency
  battery_efficiency power_kw bat = elim bat.charge_efficiency_curve [
    | some curve ↦ curve_efficiency power_kw curve
    | none ↦ elim bat.charge_segments [
      | some segments ↦ segments_efficiency power_kw segments
      | none ↦ f.nil
    ]
  ]

  unfoldable pub efficiency_at_power : String → String → F → MimirheimConfig F → F
  unfolding battery_efficiency
  efficiency_at_power name sp_type power_kw config =
      if sp_type == "pv"
      then f.nil
      else if sp_type == "battery"
      then elim (get config.batteries name) [
        | none ↦ f.nil
        | some bat ↦ battery_efficiency power_kw bat
      ]
      else if sp_type == "ev_charger"
      then elim (get config.ev_chargers name) [
        | none ↦ f.nil
        | some ev ↦ segments_efficiency power_kw ev.charge_segments
      ]
      else if sp_type == "hybrid_inverter"
      then elim (get config.hybrid_inverters name) [
        | none ↦ f.nil
        | some hi ↦ hi.inverter_efficiency
      ]
      else f.nil

  unfoldable pub is_near_zero_exchange : ScheduleStep F → F → Bool
  is_near_zero_exchange step epsilon =
      f.le step.grid_import_kw epsilon && f.le step.grid_export_kw epsilon

  -- `a.score_tuple() < b.score_tuple()`
  unfoldable pub score_lt : Candidate F → Candidate F → Bool
  score_lt a b =
      if not (eq a.efficiency_score b.efficiency_score)
      then lt a.efficiency_score b.efficiency_score
      else if not (eq a.headroom_margin b.headroom_margin)
      then lt a.headroom_margin b.headroom_margin
      else if not (eq a.wear_penalty b.wear_penalty)
      then lt a.wear_penalty b.wear_penalty
      else if ltb a.type_priority b.type_priority
      then true
      else if ltb b.type_priority a.type_priority
      then false
      else text_lt a.name_key b.name_key

  -- the order of `sorted(…, reverse=True)`: an element stays before those that it does not score below
  abbrev pub before : Candidate F → Candidate F → Bool
  before a b = not (score_lt a b)

  unfoldable pub wear_cost : String → String → MimirheimConfig F → F
  wear_cost name sp_type config =
      if sp_type == "battery"
      then elim (get config.batteries name) [ none ↦ f.nil | some bat ↦ bat.wear_cost_eur_per_kwh ]
      else if sp_type == "hybrid_inverter"
      then elim (get config.hybrid_inverters name) [
        | none ↦ f.nil
        | some hi ↦ hi.wear_cost_eur_per_kwh
      ]
      else f.nil

  -- the gates of `_build_candidates`
  unfoldable pub is_eligible :
      List String → Dict Bool → MimirheimConfig F → F → String → DeviceSetpoint F → Bool
  is_eligible zex_capable ev_available config margin name sp =
      if not (member name zex_capable)
      then false
      else if sp.kind == "ev_charger" && not (available ev_available name)
      then false
      else not (lt (absorption_headroom name sp config) margin)

  unfoldable pub candidate_of : F → MimirheimConfig F → String → DeviceSetpoint F → Candidate F
  candidate_of expected_kw config name sp = record {
    name = name;
    sp_type = sp.kind;
    efficiency_score = efficiency_at_power name sp.kind expected_kw config;
    headroom_margin = f.sub (absorption_headroom name sp config) expected_kw;
    wear_penalty = f.neg (wear_cost name sp.kind config);
    type_priority = type_priority_of sp.kind;
    name_key = name;
  }

  -- the loop over `step.devices.items()`
  unfoldable pub gather :
      F
      → List String
      → Dict Bool
      → MimirheimConfig F
      → F
      → Dict (DeviceSetpoint F)
      → List (Candidate F)
  gather expected_kw zex_capable ev_available config margin [] = []
  gather expected_kw zex_capable ev_available config margin ((name, sp) ∷ devices) =
      let rest = gather expected_kw zex_capable ev_available config margin devices in
      if is_eligible zex_capable ev_available config margin name sp
      then candidate_of expected_kw config name sp ∷ rest
      else rest

  unfoldable pub build_candidates :
      ScheduleStep F → F → List String → Dict Bool → MimirheimConfig F → F → List (Candidate F)
  build_candidates step expected_kw zex_capable ev_available config margin =
      sorted before (gather expected_kw zex_capable ev_available config margin step.devices)
