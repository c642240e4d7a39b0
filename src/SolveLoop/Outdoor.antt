-- ===== src/SolveLoop/Outdoor.antt =====
-- What clipping leaves of the outdoor temperatures of the heat pumps.
use mimirheim.Prelude.{
  smaller, ℕ, zero, suc, ◌<◌, ◌≤◌, String, ◌≡◌, refl, sym, ap, inl, inr, Option, none, some, List,
  [], ◌∷◌, ◌++◌, In, length, arith,
}
use mimirheim.Prelude.Dict.{Dict, map_values}
use mimirheim.Bundle.{SpaceHeatingInputs, CombiHeatPumpInputs, SolveBundle}
use mimirheim.SolveLoop.{take, take_given, cut_space_heating, cut_combi_hp, cut_bundle}

pub length-take {ℓ} :
    {A : Type ℓ} (n : ℕ) (xs : List A) → length (take n xs) ≡ smaller n (length xs)
unfolding take
length-take zero xs = ground arith
length-take (suc n) [] = ground arith
length-take (suc n) (x ∷ xs) = ground (arith, length-take n xs)

In-map_values :
    {V W : Type 0} (g : V → W) (name : String) (v : V) (d : Dict V)
    → In {A = String × V} (name, v) d
    → In {A = String × W} (name, g v) (map_values g d)
unfolding map_values
In-map_values {V} {W} g name v [] m = absurd m
In-map_values {V} {W} g name v ((k, u) ∷ d) (inl e) = inl (ap (λ (x : String × V). (x.0, g x.1)) e)
In-map_values {V} {W} g name v ((k, u) ∷ d) (inr m) = inr (In-map_values g name v d m)

take-append : {F : Type 0} (n : ℕ) (xs : List F) → (rest : List F) × (xs ≡ take n xs ++ rest)
unfolding take
take-append zero xs = (xs, refl)
take-append (suc n) [] = ([], refl)
take-append (suc n) (x ∷ xs) = let (rest, e) = take-append n xs in (rest, ap (λ ys. x ∷ ys) e)

-- What is left of a series that may be missing: all of it where the horizon is within the limit, and
-- its first values up to the limit elsewhere.
abbrev pub LeftOf : {F : Type 0} → ℕ → ℕ → Option (List F) → Option (List F) → Type 0
LeftOf limit n none cut = cut ≡ none
LeftOf {F} limit n (some xs) cut =
    (left : List F) × (rest : List F) × (cut ≡ some left)
    × (xs ≡ left ++ rest)
    × (n ≤ limit → left ≡ xs)
    × (limit < n → length left ≡ smaller limit (length xs))

take_given-LeftOf :
    {F : Type 0} (limit n : ℕ) (o : Option (List F))
    → limit < n
    → LeftOf limit n o (take_given limit o)
unfolding take_given
take_given-LeftOf limit n none l = refl
take_given-LeftOf limit n (some xs) l =
    let (rest, e) = take-append limit xs in
    (take limit xs, rest, refl, e, λ m. absurd (omega (arith, l, m)), λ m. length-take limit xs)

same-LeftOf : {F : Type 0} (limit n : ℕ) (o : Option (List F)) → n ≤ limit → LeftOf limit n o o
same-LeftOf limit n none l = refl
same-LeftOf limit n (some xs) l =
    (xs, [], refl, sym (append-nil xs), λ m. refl, λ m. absurd (omega (arith, l, m)))
  where
    append-nil : {F : Type 0} → (ys : List F) → ys ++ [] ≡ ys
    append-nil [] = refl
    append-nil (y ∷ ys) = ap (λ zs. y ∷ zs) (append-nil ys)

-- Every device keeps its place, and what is left of its outdoor temperatures.
abbrev pub OutdoorLeft : {F : Type 0} → ℕ → ℕ → SolveBundle F → SolveBundle F → Type 0
OutdoorLeft {F} limit n b c =
    ((name : String) (i : SpaceHeatingInputs F)
      → In {A = String × SpaceHeatingInputs F} (name, i) b.space_heating_inputs
      → (j : SpaceHeatingInputs F) × In {A = String × SpaceHeatingInputs F} (name, j)
          c.space_heating_inputs
        × LeftOf limit n i.outdoor_temp_forecast_c j.outdoor_temp_forecast_c)
    × ((name : String) (i : CombiHeatPumpInputs F)
        → In {A = String × CombiHeatPumpInputs F} (name, i) b.combi_hp_inputs
        → (j : CombiHeatPumpInputs F) × In {A = String × CombiHeatPumpInputs F} (name, j)
            c.combi_hp_inputs
          × LeftOf limit n i.outdoor_temp_forecast_c j.outdoor_temp_forecast_c)

pub same-OutdoorLeft :
    {F : Type 0} (limit n : ℕ) (b : SolveBundle F) → n ≤ limit → OutdoorLeft limit n b b
same-OutdoorLeft limit n b l = (
  λ name i m. (i, m, same-LeftOf limit n i.outdoor_temp_forecast_c l),
  λ name i m. (i, m, same-LeftOf limit n i.outdoor_temp_forecast_c l),
)

pub cut_bundle-OutdoorLeft :
    {F : Type 0} (limit n : ℕ) (b : SolveBundle F)
    → limit < n
    → OutdoorLeft limit n b (cut_bundle b limit)
unfolding cut_bundle cut_space_heating cut_combi_hp
cut_bundle-OutdoorLeft limit n b l = (
  λ name i m. (
    cut_space_heating limit i,
    In-map_values (cut_space_heating limit) name i b.space_heating_inputs m,
    take_given-LeftOf limit n i.outdoor_temp_forecast_c l,
  ),
  λ name i m. (
    cut_combi_hp limit i,
    In-map_values (cut_combi_hp limit) name i b.combi_hp_inputs m,
    take_given-LeftOf limit n i.outdoor_temp_forecast_c l,
  ),
)
