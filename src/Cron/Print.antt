-- ===== src/Cron/Print.antt =====
-- The texts that the translation prints: one for each choice of weekdays, 128 in all. What is
-- decidable about a printed text is tested for each of them.
use mimirheim.Prelude.{
  ℕ, zero, suc, ◌≡◌, refl, ap, Bool, true, false, not, ◌&&◌, ◌||◌, Option, none, some, List, [],
  ◌∷◌, map, filter, length, arith, any, if◌then◌else◌,
}
use mimirheim.Prelude.Text.{
  Text, same_text, same_text-eq, member, is_blank, is_space, strip, split, join,
}
use mimirheim.Cron.{comma, star, output_order, translate_day_of_week}

-- the elements whose place is marked
abbrev pub pick_marked : List Bool → List Text → List Text
pick_marked [] xs = []
pick_marked (b ∷ bs) [] = []
pick_marked (b ∷ bs) (x ∷ xs) = let rest = pick_marked bs xs in if b then x ∷ rest else rest

-- the field that names the marked weekdays
abbrev pub printed : List Bool → Text
printed bs = join comma (pick_marked bs output_order)

pub filter-pick_marked :
    (p : Text → Bool) (xs : List Text) → filter p xs ≡ pick_marked (map p xs) xs
filter-pick_marked p [] = refl
filter-pick_marked p (x ∷ xs) = ground (arith, filter-pick_marked p xs)

abbrev some_marked : List Bool → Bool
some_marked bs = any (λ b. b) bs

abbrev same_bools : List Bool → List Bool → Bool
same_bools [] bs = elim bs [ [] ↦ true | _ ∷ _ ↦ false ]
same_bools (true ∷ cs) bs = elim bs [ [] ↦ false | b ∷ ds ↦ b && same_bools cs ds ]
same_bools (false ∷ cs) bs = elim bs [ [] ↦ false | b ∷ ds ↦ not b && same_bools cs ds ]

abbrev no_space : Text → Bool
no_space t = not (any is_space t)

abbrev gives : Option Text → Text → Bool
gives none t = false
gives (some s) t = same_text s t

-- the texts of `as_named` are the marked names
named_as : List Bool → Bool
named_as bs = same_bools (map (λ n. member n (split comma (printed bs))) output_order) bs

again : List Bool → Bool
unfolding translate_day_of_week
again bs =
    not (some_marked bs)
    || (gives (translate_day_of_week (printed bs)) (printed bs)
        && no_space (printed bs)
        && not (is_blank (printed bs))
        && not (same_text (strip (printed bs)) star))

all_lists : ℕ → (List Bool → Bool) → Bool
all_lists zero p = p []
all_lists (suc n) p = all_lists n (λ bs. p (true ∷ bs)) && all_lists n (λ bs. p (false ∷ bs))

all_lists_sound :
    (n : ℕ) (p : List Bool → Bool) (bs : List Bool)
    → all_lists n p ≡ true
    → length bs ≡ n
    → p bs ≡ true
unfolding all_lists
all_lists_sound zero p [] h e = h
all_lists_sound zero p (b ∷ bs) h e = absurd (omega (arith, e))
all_lists_sound (suc n) p [] h e = absurd (omega (arith, e))
all_lists_sound (suc n) p (true ∷ bs) h e =
    all_lists_sound n (λ cs. p (true ∷ cs)) bs (ground arith) (omega (arith, e))
all_lists_sound (suc n) p (false ∷ bs) h e =
    all_lists_sound n (λ cs. p (false ∷ cs)) bs (ground arith) (omega (arith, e))

all_named : all_lists 7 named_as ≡ true
unfolding all_lists named_as
all_named = refl

all_again : all_lists 7 again ≡ true
unfolding all_lists again
all_again = refl

same_bools-eq : (bs cs : List Bool) → same_bools bs cs ≡ true → bs ≡ cs
same_bools-eq [] [] h = refl
same_bools-eq [] (c ∷ cs) h = cc
same_bools-eq (true ∷ bs) [] h = cc
same_bools-eq (true ∷ bs) (true ∷ cs) h = ap (λ ds. true ∷ ds) (same_bools-eq bs cs h)
same_bools-eq (true ∷ bs) (false ∷ cs) h = cc
same_bools-eq (false ∷ bs) [] h = cc
same_bools-eq (false ∷ bs) (true ∷ cs) h = cc
same_bools-eq (false ∷ bs) (false ∷ cs) h = ap (λ ds. false ∷ ds) (same_bools-eq bs cs h)

gives-eq : (o : Option Text) (t : Text) → gives o t ≡ true → o ≡ some t
gives-eq none t h = cc
gives-eq (some s) t h = ap some (same_text-eq s t h)

-- The printed names are exactly the marked ones.
pub printed-names :
    (bs : List Bool)
    → length bs ≡ 7
    → map (λ n. member n (split comma (printed bs))) output_order ≡ bs
unfolding named_as
printed-names bs e = same_bools-eq _ bs (all_lists_sound 7 named_as bs all_named e)

-- What a printed field with a name in it satisfies.
abbrev pub Fixed : Text → Type 0
Fixed t =
    (translate_day_of_week t ≡ some t)
    × (no_space t ≡ true)
    × (is_blank t ≡ false)
    × (same_text (strip t) star ≡ false)

again-Fixed :
    (o : Option Text) (marked free blank starred : Bool) (t : Text)
    → (not marked || (gives o t && free && not blank && not starred)) ≡ true
    → marked ≡ true
    → (o ≡ some t) × (free ≡ true) × (blank ≡ false) × (starred ≡ false)
again-Fixed o marked free blank starred t h m =
    (gives-eq o t (ground arith), ground arith, ground arith, ground arith)

pub printed-Fixed : (bs : List Bool) → length bs ≡ 7 → some_marked bs ≡ true → Fixed (printed bs)
unfolding again
printed-Fixed bs e m =
    again-Fixed (translate_day_of_week (printed bs)) (some_marked bs) (no_space (printed bs))
      (is_blank (printed bs)) (same_text (strip (printed bs)) star) (printed bs)
      (all_lists_sound 7 again bs all_again e) m
