-- ===== src/Forecast/Merge/Best.antt =====
-- The choice among the candidates of one grid step: a most confident one.
use mimirheim.Prelude.{
  ℕ, ◌≡◌, refl, ◌∙◌, ◌⊎◌, inl, inr, true, false, some, List, [], ◌∷◌, arith, Bool-cases, In,
  if◌then◌else◌,
}
use mimirheim.Prelude.Float.{Float}
use mimirheim.Forecast.{PriceStep}
use mimirheim.Forecast.Merge.{Candidate, key_lt, min_candidate, pick}

module _ {F : Type 0} ⦃f : Float F⦄ where
  -- `a` is no more confident than `b`.
  abbrev pub NoMore : PriceStep F → PriceStep F → Type 0
  NoMore a b = f.le a.confidence b.confidence ≡ true

  flip_le : (x y : F) → f.le x y ≡ false → f.le y x ≡ true
  flip_le x y h = elim (f.le_total x y) [ inl p ↦ cc | inr p ↦ p ]

  key_lt-true : (a b : Candidate F) → key_lt a b ≡ true → NoMore b.1 a.1
  unfolding key_lt
  key_lt-true (i, a) (j, b) h = ground (
    arith,
    flip_le a.confidence b.confidence,
    f.le_neg a.confidence b.confidence,
    f.le_neg b.confidence a.confidence,
  )

  key_lt-false : (a b : Candidate F) → key_lt a b ≡ false → NoMore a.1 b.1
  unfolding key_lt
  key_lt-false (i, a) (j, b) h =
      ground (arith, f.le_neg a.confidence b.confidence, f.le_neg b.confidence a.confidence)

  abbrev IsBest : Candidate F → List (Candidate F) → Candidate F → Type 0
  IsBest best cs w =
      ((w ≡ best) ⊎ In w cs) × NoMore best.1 w.1 × ((c : Candidate F) → In c cs → NoMore c.1 w.1)

  abbrev better : Candidate F → Candidate F → Candidate F
  better best c = if key_lt c best then c else best

  better-IsBest :
      (best c : Candidate F)
      → ((better best c ≡ c) ⊎ (better best c ≡ best))
        × NoMore best.1 (better best c).1
        × NoMore c.1 (better best c).1
  better-IsBest best c = elim (Bool-cases (key_lt c best)) [
    | inl h ↦ rw h (inl refl, key_lt-true c best h, f.le_refl c.1.confidence)
    | inr h ↦ rw h (inr refl, f.le_refl best.1.confidence, key_lt-false c best h)
  ]

  extend :
      (best c d w : Candidate F) (cs : List (Candidate F))
      → ((d ≡ c) ⊎ (d ≡ best)) × NoMore best.1 d.1 × NoMore c.1 d.1
      → IsBest d cs w
      → IsBest best (c ∷ cs) w
  extend best c d w cs (which, nb, nc) (m, p, q) = (
    elim m [
      | inl e ↦ elim which [ inl ec ↦ inr (inl (e ∙ ec)) | inr eb ↦ inl (e ∙ eb) ]
      | inr k ↦ inr (inr k)
    ],
    f.le_trans best.1.confidence d.1.confidence w.1.confidence nb p,
    λ x k. elim k [
      | inl e ↦ rw e (f.le_trans c.1.confidence d.1.confidence w.1.confidence nc p)
      | inr k' ↦ q x k'
    ],
  )

  min_candidate-IsBest :
      (best : Candidate F) (cs : List (Candidate F)) → IsBest best cs (min_candidate best cs)
  unfolding min_candidate
  min_candidate-IsBest best [] = (inl refl, f.le_refl best.1.confidence, λ c m. absurd m)
  min_candidate-IsBest best (c ∷ cs) =
      extend best c (better best c) (min_candidate (better best c) cs) cs (better-IsBest best c)
        (min_candidate-IsBest (better best c) cs)

  -- A step of a pool that no step of the pool exceeds in confidence.
  abbrev pub IsTop : List (Candidate F) → PriceStep F → Type 0
  IsTop pool w = ((i : ℕ) × In (i, w) pool) × ((c : Candidate F) → In c pool → NoMore c.1 w)

  pub pick-IsTop :
      (c : Candidate F) (cs : List (Candidate F))
      → (w : PriceStep F) × (pick (c ∷ cs) ≡ some w) × IsTop (c ∷ cs) w
  unfolding pick
  pick-IsTop c cs =
      let w = min_candidate c cs in
      let (m, p, q) = min_candidate-IsBest c cs in
      (w.1, refl, ((w.0, m), (λ d k. elim k [ inl e ↦ rw e p | inr k' ↦ q d k' ])))
