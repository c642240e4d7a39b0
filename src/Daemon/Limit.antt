-- ===== src/Daemon/Limit.antt =====
-- Rate limits: what a cycle's result does to the triggers after it.
use text.Mathlib.Text.{◌==◌}
use mimirheim.Prelude.{
  ℕ, ◌+◌, ◌≤◌, ◌<◌, ◌≡◌, refl, ◌∙◌, inl, inr, true, false, none, some, List, [], ◌∷◌, All, arith,
  lt→ltb,
}
use mimirheim.Daemon.{
  raised, DaemonState, Delivery, is_limited, is_debounced, debounce, ha_status_topic, accept,
  on_message, deliver,
}
use mimirheim.Daemon.Spacing.{
  cycles, cycles-append, Triggers, on_message_cases, on_message-cycles, accept-last,
}

-- While a rate limit lasts, no delivery runs a cycle or changes the state: triggers do not count
-- for the debounce either.
pub deliver-limited :
    (s : DaemonState) (ds : List Delivery) (until : ℕ)
    → s.ratelimit_until ≡ some until
    → All (λ d. d.now < until) ds
    → ((deliver s ds).0 ≡ s) × (cycles (deliver s ds).1 ≡ [])
unfolding deliver
deliver-limited s [] until l h = (refl, unfold cycles in refl)
deliver-limited s (d ∷ ds) until l (before, h) =
    let (same, quiet) = deliver-limited s ds until l h in
    elim (on_message_cases s d) [
      | inl ((p, q, r, t), e) ↦
          let open_ : is_limited (some until) d.now ≡ false = rw (← l) r in
          let shut : is_limited (some until) d.now ≡ true =
            unfold is_limited in lt→ltb d.now until before in
          cc
      | inr (refused, still, none_run) ↦ (
        rw still same,
        cycles-append (on_message s d).1 (deliver (on_message s d).0 ds).1
            ∙ rw (none_run, still) quiet,
      )
    ]

accept-recovers :
    (s : DaemonState) (d : Delivery) → d.outcome ≡ raised → (accept s d).0.ratelimit_until ≡ none
unfolding accept
accept-recovers s d e = rw e refl

not_debounced :
    (last now_mono : ℕ) → last + debounce ≤ now_mono → is_debounced (some last) now_mono ≡ false
unfolding is_debounced
not_debounced last now_mono h = ground arith

-- A cycle that raises does not stop the daemon: the next trigger that comes after the debounce runs a
-- cycle again, whatever rate limit there was before.
pub on_message-recovers :
    (s : DaemonState) (d next : Delivery)
    → Triggers s d
    → d.outcome ≡ raised
    → (next.message.topic == ha_status_topic) ≡ false
    → next.message.retain ≡ false
    → d.now_mono + debounce ≤ next.now_mono
    → cycles (on_message (on_message s d).0 next).1 ≡ next.now_mono ∷ []
on_message-recovers s d next t e topic retain later = elim (on_message_cases s d) [
  | inr (refused, _, _) ↦ absurd (refused t)
  | inl (_, accepted) ↦ (on_message-cycles (on_message s d).0 next).1 (
    topic,
    retain,
    rw (accepted, accept-recovers s d e) (unfold is_limited in refl),
    rw (accepted, accept-last s d) (not_debounced d.now_mono next.now_mono later),
  )
]
