-- ===== src/SolveLoop/Publish.antt =====
-- What one iteration of the solve loop publishes.
use mimirheim.Prelude.{
  ◌≡◌, refl, ap, ◌∙◌, inl, inr, ◌⊎◌, Bool, true, false, Option, none, some, Option-cases, List, [],
  ◌∷◌, ◌++◌, ◌>>=◌,
}
use mimirheim.Prelude.Float.{Float}
use mimirheim.Config.{MimirheimConfig}
use mimirheim.Bundle.{SolveBundle, SolveResult}
use mimirheim.SolveLoop.{
  Action, publish_status, Fault, no_fault, threshold_raises, authority_raises, overrides_raise,
  publisher_raises, clip_bundle, post_process, processed, reports_ok, publish, conclude, solved,
  iterate,
}
use mimirheim.SolveLoop.Calls.{
  Reported, EndsReported, failure, recover-EndsReported, with_overrides, no_fault-EndsReported,
  with_announced,
}

module _ {F : Type 0} ⦃f : Float F⦄ where
  module _ (build_and_solve : SolveBundle F → MimirheimConfig F → Option (SolveResult F))
      (config : MimirheimConfig F) where
    -- The clipping, the solve and everything after it went through, with this result.
    abbrev pub GoesThrough : Fault → SolveBundle F → SolveResult F → Type 0
    GoesThrough fault bundle r =
        (fault ≡ no_fault)
        × (clipped : SolveBundle F) × (found : SolveResult F) × (clip_bundle bundle
              config.max_horizon_steps
            ≡ some clipped)
        × (build_and_solve clipped config ≡ some found)
        × (r ≡ post_process found clipped config)

    publish-EndsReported :
        (fault : Fault) (again : Bool) (bundle clipped : SolveBundle F) (found : SolveResult F)
        → clip_bundle bundle config.max_horizon_steps ≡ some clipped
        → build_and_solve clipped config ≡ some found
        → (result : Option (SolveResult F)) × (failed : Bool) × EndsReported again result failed
            (conclude fault again (some (processed fault found clipped config)))
          × (reports_ok result failed ≡ true
              → (r : SolveResult F) × (result ≡ some r) × GoesThrough fault bundle r)
    unfolding conclude publish processed
    publish-EndsReported no_fault again bundle clipped found c b =
        let r = post_process found clipped config in
        (
          some r,
          false,
          no_fault-EndsReported again r,
          λ h. (r, refl, (refl, clipped, found, c, b, refl)),
        )
    publish-EndsReported threshold_raises again bundle clipped found c b = (
      some found,
      true,
      recover-EndsReported again (some found),
      λ h. let e = failure (some found) in cc,
    )
    publish-EndsReported authority_raises again bundle clipped found c b =
        let r = (processed authority_raises found clipped config).0 in
        (some r, true, recover-EndsReported again (some r), λ h. let e = failure (some r) in cc)
    publish-EndsReported overrides_raise again bundle clipped found c b =
        let r = post_process found clipped config in
        (
          some r,
          true,
          with_overrides again (some r) true _ (recover-EndsReported again (some r)),
          λ h. let e = failure (some r) in cc,
        )
    publish-EndsReported publisher_raises again bundle clipped found c b =
        let r = post_process found clipped config in
        (
          some r,
          true,
          with_overrides again (some r) true _ (with_announced again r),
          λ h. let e = failure (some r) in cc,
        )

    unsolved :
        (again : Bool) (fault : Fault)
        → EndsReported {F = F} again none true (conclude fault again none)
    unfolding conclude
    unsolved again fault = recover-EndsReported again none

    -- The clipping and the solve returned.
    abbrev Found : Fault → SolveBundle F → Type 0
    Found fault bundle =
        (clipped : SolveBundle F) × (found : SolveResult F) × (clip_bundle bundle
            config.max_horizon_steps
          ≡ some clipped)
        × (build_and_solve clipped config ≡ some found)
        × (solved build_and_solve config fault bundle ≡ some (processed fault found clipped config))

    pub solved_found :
        (fault : Fault) (bundle clipped : SolveBundle F) (result : SolveResult F)
        → clip_bundle bundle config.max_horizon_steps ≡ some clipped
        → build_and_solve clipped config ≡ some result
        → solved build_and_solve config fault bundle ≡ some (processed fault result clipped config)
    unfolding solved
    solved_found fault bundle clipped result h k =
        ap (λ o. o >>= λ c. build_and_solve c config >>= λ r. some (processed fault r c config)) h
        ∙ ap (λ o. o >>= λ r. some (processed fault r clipped config)) k

    solved_cases :
        (fault : Fault) (bundle : SolveBundle F)
        → (solved build_and_solve config fault bundle ≡ none) ⊎ Found fault bundle
    unfolding solved
    solved_cases fault bundle = elim (Option-cases (clip_bundle bundle config.max_horizon_steps)) [
      | inl c ↦ inl (
          ap (λ o. o >>= λ x. build_and_solve x config >>= λ r. some (processed fault r x config))
            c)
      | inr (clipped, c) ↦ elim (Option-cases (build_and_solve clipped config)) [
        | inl b ↦ inl (
            ap (λ o. o >>= λ x. build_and_solve x config >>= λ r. some (processed fault r x config))
              c
            ∙ ap (λ o. o >>= λ r. some (processed fault r clipped config)) b)
        | inr (found, b) ↦ inr (clipped, found, c, b, solved_found fault bundle clipped found c b)
      ]
    ]

    -- An iteration sends one status message, as its last call. The status is "ok" only where the
    -- clipping, the solve, the post-processing, the hand-over and the publication went through, and
    -- then the one published schedule is the post-processed one. Whatever raised, no other schedule
    -- is published than that of the reported result, nor an infeasible one, and unless the second
    -- hand-over raises too, the calls before the status hand over the care overrides and publish
    -- the care policy.
    pub iterate-Reported :
        (fault : Fault) (again : Bool) (bundle : SolveBundle F)
        → (result : Option (SolveResult F)) × (failed : Bool) × (calls : List (Action F)) × (iterate
              build_and_solve config fault again bundle
            ≡ calls ++ (publish_status result failed ∷ []))
          × Reported again result failed calls
          × (reports_ok result failed ≡ true
              → (r : SolveResult F) × (result ≡ some r) × GoesThrough fault bundle r)
    unfolding iterate
    iterate-Reported fault again bundle = with_solved (solved_cases fault bundle)
      where
        with_solved :
            (solved build_and_solve config fault bundle ≡ none) ⊎ Found fault bundle
            → (result : Option (SolveResult F)) × (failed : Bool) × (calls : List (Action F))
              × (conclude fault again (solved build_and_solve config fault bundle)
                  ≡ calls ++ (publish_status result failed ∷ []))
              × Reported again result failed calls
              × (reports_ok result failed ≡ true
                  → (r : SolveResult F) × (result ≡ some r) × GoesThrough fault bundle r)
        with_solved (inl e) =
            let (calls, q, told) = unsolved again fault in
            (
              none,
              true,
              calls,
              ap (conclude fault again) e ∙ q,
              told,
              λ h. let no_ok = failure {F = F} none in cc,
            )
        with_solved (inr (clipped, found, c, b, e)) =
            let (result, failed, (calls, q, told), ok) =
              publish-EndsReported fault again bundle clipped found c b in
            (result, failed, calls, ap (conclude fault again) e ∙ q, told, ok)
