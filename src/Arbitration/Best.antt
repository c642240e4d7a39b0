-- ===== src/Arbitration/Best.antt =====
-- The first candidate has the highest efficiency, and the candidates are the eligible devices.
use text.Mathlib.Text.{◌==◌}
use text.Mathlib.TextEquality.{eq_iff}
use mimirheim.Prelude.{
  String, ◌≡◌, refl, sym, ap, ◌∙◌, inl, inr, Bool, true, false, List, [], ◌∷◌, arith, Bool-cases,
  List-cases, In,
}
use mathlib.Core.Path.{subst}
use mimirheim.Prelude.Float.{Float}
use mimirheim.Prelude.Sort.{sorted, insert, In_of-sorted, In-sorted}
use mimirheim.Prelude.Dict.{Dict}
use mimirheim.Config.{MimirheimConfig}
use mimirheim.Bundle.{DeviceSetpoint, ScheduleStep}
use mimirheim.Arbitration.Score.{
  Candidate, score_lt, before, is_eligible, candidate_of, gather, build_candidates,
}
use mimirheim.Arbitration.Sound.{Named}

module _ {F : Type 0} ⦃f : Float F⦄ where
  -- `a` is no more efficient than `b` at the expected compensation power.
  abbrev pub NoBetter : Candidate F → Candidate F → Type 0
  NoBetter a b = f.le a.efficiency_score b.efficiency_score ≡ true

  flip_le : (x y : F) → f.le x y ≡ false → f.le y x ≡ true
  flip_le x y h = elim (f.le_total x y) [ inl p ↦ cc | inr p ↦ p ]

  before-NoBetter : (a b : Candidate F) → before a b ≡ true → NoBetter b a
  unfolding score_lt
  before-NoBetter a b h = ground (
    arith,
    flip_le a.efficiency_score b.efficiency_score,
    flip_le b.efficiency_score a.efficiency_score,
  )

  not_before-NoBetter : (a b : Candidate F) → before a b ≡ false → NoBetter a b
  unfolding score_lt
  not_before-NoBetter a b h = ground (
    arith,
    flip_le a.efficiency_score b.efficiency_score,
    flip_le b.efficiency_score a.efficiency_score,
  )

  -- The head of `sorted` tops every element; there is no head only where there is no element.
  abbrev HeadTops : List (Candidate F) → List (Candidate F) → Type 0
  HeadTops xs [] = (c : Candidate F) → In c xs → ⊥
  HeadTops xs (h ∷ t) = (c : Candidate F) → In c xs → NoBetter c h

  insert-HeadTops :
      (a : Candidate F) (xs ys : List (Candidate F))
      → HeadTops xs ys
      → HeadTops (a ∷ xs) (insert before a ys)
  unfolding insert
  insert-HeadTops a xs [] q =
      λ c m. elim m [ inl e ↦ rw e (f.le_refl a.efficiency_score) | inr k ↦ absurd (q c k) ]
  insert-HeadTops a xs (h ∷ t) q = elim (Bool-cases (before a h)) [
    | inl b ↦ rw b (λ c m. elim m [
      | inl e ↦ rw e (f.le_refl a.efficiency_score)
      | inr k ↦
          f.le_trans c.efficiency_score h.efficiency_score a.efficiency_score (q c k)
            (before-NoBetter a h b)
    ])
    | inr b ↦ rw b (λ c m. elim m [ inl e ↦ rw e (not_before-NoBetter a h b) | inr k ↦ q c k ])
  ]

  sorted-HeadTops : (xs : List (Candidate F)) → HeadTops xs (sorted before xs)
  unfolding sorted
  sorted-HeadTops [] = λ c m. m
  sorted-HeadTops (x ∷ xs) = insert-HeadTops x xs (sorted before xs) (sorted-HeadTops xs)

  pub Named-In :
      (cs : List (Candidate F)) (name : String)
      → Named name cs
      → (c : Candidate F) × In c cs × (c.name ≡ name)
  Named-In [] name h = cc
  Named-In (c ∷ cs) name h = elim (Bool-cases (c.name == name)) [
    | inl e ↦ (c, inl refl, (eq_iff c.name name).0 e)
    | inr e ↦ let (d, m, p) = Named-In cs name (rw e at h) in (d, inr m, p)
  ]

  module _ (expected_kw : F) (zex_capable : List String) (ev_available : Dict Bool)
      (config : MimirheimConfig F) (margin : F) where
    -- The candidate is made from an eligible device of the list.
    abbrev pub MadeFrom : Dict (DeviceSetpoint F) → Candidate F → Type 0
    MadeFrom devices c =
        (name : String) × (sp : DeviceSetpoint F) × In (name, sp) devices
        × (is_eligible zex_capable ev_available config margin name sp ≡ true)
        × (c ≡ candidate_of expected_kw config name sp)

    gather_sound :
        (devices : Dict (DeviceSetpoint F)) (c : Candidate F)
        → In c (gather expected_kw zex_capable ev_available config margin devices)
        → MadeFrom devices c
    unfolding gather
    gather_sound [] c m = absurd m
    gather_sound ((name, sp) ∷ devices) c m =
        elim (Bool-cases (is_eligible zex_capable ev_available config margin name sp)) [
          | inl e ↦ elim (rw e at m) [
            | inl p ↦ (name, sp, inl refl, e, p)
            | inr k ↦ later (gather_sound devices c k)
          ]
          | inr e ↦ later (gather_sound devices c (rw e at m))
        ]
      where
        later : MadeFrom devices c → MadeFrom ((name, sp) ∷ devices) c
        later (n, s, k, q, p) = (n, s, inr k, q, p)

    gather-complete :
        (devices : Dict (DeviceSetpoint F)) (name : String) (sp : DeviceSetpoint F)
        → In (name, sp) devices
        → is_eligible zex_capable ev_available config margin name sp ≡ true
        → In
            (candidate_of expected_kw config name sp)
            (gather expected_kw zex_capable ev_available config margin devices)
    unfolding gather
    gather-complete [] name sp m q = absurd m
    gather-complete ((n, s) ∷ devices) name sp (inl e) q =
        let q' : is_eligible zex_capable ev_available config margin n s ≡ true =
          subst
            (λ (p : String × DeviceSetpoint F).
              is_eligible zex_capable ev_available config margin p.0 p.1 ≡ true)
            e q in
        rw q'
          (inl (ap (λ (p : String × DeviceSetpoint F). candidate_of expected_kw config p.0 p.1) e))
    gather-complete ((n, s) ∷ devices) name sp (inr k) q =
        elim (Bool-cases (is_eligible zex_capable ev_available config margin n s)) [
          | inl e ↦ rw e (inr (gather-complete devices name sp k q))
          | inr e ↦ rw e (gather-complete devices name sp k q)
        ]

    -- The eligible device, with its setpoint in the step.
    abbrev pub IsEligible : Dict (DeviceSetpoint F) → String → DeviceSetpoint F → Type 0
    IsEligible devices name sp =
        In (name, sp) devices × (is_eligible zex_capable ev_available config margin name sp ≡ true)

    pub Named-IsEligible :
        (step : ScheduleStep F) (name : String)
        → Named name (build_candidates step expected_kw zex_capable ev_available config margin)
        → (sp : DeviceSetpoint F) × IsEligible step.devices name sp
    unfolding build_candidates
    Named-IsEligible step name h =
        let (c, m, e) =
          Named-In
            (sorted before (gather expected_kw zex_capable ev_available config margin step.devices))
            name h in
        let (n, sp, k, q, p) = gather_sound step.devices c (
          In_of-sorted before c
            (gather expected_kw zex_capable ev_available config margin step.devices) m) in
        let same : n ≡ name = unfold candidate_of in sym (ap (λ (x : Candidate F). x.name) p) ∙ e in
        (sp, subst (λ x. IsEligible step.devices x sp) same (k, q))

    -- with an eligible device there is a candidate
    pub build_candidates-nonempty :
        (step : ScheduleStep F) (name : String) (sp : DeviceSetpoint F)
        → IsEligible step.devices name sp
        → (best : Candidate F) × (rest : List (Candidate F)) × (build_candidates step expected_kw
              zex_capable ev_available config margin
            ≡ best ∷ rest)
    build_candidates-nonempty step name sp (m, q) =
        elim (List-cases
          (build_candidates step expected_kw zex_capable ev_available config margin)) [
            | inl e ↦ absurd (
                subst (In (candidate_of expected_kw config name sp)) e (
                  unfold build_candidates in
                  In-sorted before (candidate_of expected_kw config name sp)
                    (gather expected_kw zex_capable ev_available config margin step.devices)
                    (gather-complete step.devices name sp m q)))
            | inr cons ↦ cons
          ]

    -- the head of the candidates is an eligible device that no eligible device beats in efficiency
    pub build_candidates-best :
        (step : ScheduleStep F) (best : Candidate F) (rest : List (Candidate F))
        → build_candidates step expected_kw zex_capable ev_available config margin ≡ best ∷ rest
        → (sp : DeviceSetpoint F) × (IsEligible step.devices best.name sp
            × ((name : String) (other : DeviceSetpoint F)
                → IsEligible step.devices name other
                → NoBetter
                    (candidate_of expected_kw config name other)
                    (candidate_of expected_kw config best.name sp)))
    unfolding build_candidates
    build_candidates-best step best rest e =
        let pool = gather expected_kw zex_capable ev_available config margin step.devices in
        let tops = subst (HeadTops pool) e (sorted-HeadTops pool) in
        let (n, sp, k, q, p) =
          gather_sound step.devices best (In_of-sorted before best pool (rw e (inl refl))) in
        let same : n ≡ best.name =
          unfold candidate_of in sym (ap (λ (x : Candidate F). x.name) p) in
        (
          sp,
          subst
              (λ x.
                IsEligible step.devices x sp
                × ((name : String) (other : DeviceSetpoint F)
                    → IsEligible step.devices name other
                    → NoBetter (candidate_of expected_kw config name other)
                        (candidate_of expected_kw config x sp)))
              same
              (
                (k, q),
                λ name other (m, h).
                    subst (NoBetter (candidate_of expected_kw config name other)) p (
                      tops (candidate_of expected_kw config name other)
                        (gather-complete step.devices name other m h)),
              ),
        )
