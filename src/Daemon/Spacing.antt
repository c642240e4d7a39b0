-- ===== src/Daemon/Spacing.antt =====
-- When a cycle runs, and how far cycles lie apart.
use text.Mathlib.Text.{◌==◌}
use mathlib.Core.Path.{subst}
use mimirheim.Prelude.{
  ℕ, ◌+◌, ◌≤◌, ◌≡◌, refl, sym, ap, ◌∙◌, ◌↔◌, ◌⊎◌, inl, inr, Bool, true, false, Option, none, some,
  List, [], ◌∷◌, ◌++◌, arith, Bool-cases, Option-cases, if◌then◌else◌,
}
use mimirheim.Daemon.{
  Action, run_cycle, schedule_discovery, publish_stats, Delivery, DaemonState, ha_status_topic,
  debounce, is_limited, is_debounced, accept, on_message, deliver,
}

-- the times at which the actions run a cycle, in order
unfoldable pub cycles : List Action → List ℕ
cycles [] = []
cycles (run_cycle t ∷ actions) = t ∷ cycles actions
cycles (a ∷ actions) = cycles actions

-- Each time lies at least the debounce after the one before it, and the first after `last`.
abbrev pub Apart : Option ℕ → List ℕ → Type 0
Apart last [] = Unit
Apart none (t ∷ ts) = Apart (some t) ts
Apart (some last) (t ∷ ts) = (last + debounce ≤ t) × Apart (some t) ts

-- The conditions for a message to run a cycle.
abbrev pub Triggers : DaemonState → Delivery → Type 0
Triggers s d =
    ((d.message.topic == ha_status_topic) ≡ false)
    × (d.message.retain ≡ false)
    × (is_limited s.ratelimit_until d.now ≡ false)
    × (is_debounced s.last_trigger_at d.now_mono ≡ false)

-- a message is accepted, or it leaves the state alone and runs no cycle
pub on_message_cases :
    (s : DaemonState) (d : Delivery)
    → (Triggers s d × (on_message s d ≡ accept s d))
      ⊎ ((Triggers s d → ⊥) × ((on_message s d).0 ≡ s) × (cycles (on_message s d).1 ≡ []))
unfolding on_message cycles
on_message_cases s d = elim (Bool-cases (d.message.topic == ha_status_topic)) [
  | inl p ↦ inr (λ h. let c = h.0 in cc, rw p refl, rw p (no_cycle (d.message.payload == "online")))
  | inr p ↦ elim (Bool-cases d.message.retain) [
    | inl q ↦ inr (λ h. let c = h.1 in cc, rw (p, q) refl, rw (p, q) refl)
    | inr q ↦ elim (Bool-cases (is_limited s.ratelimit_until d.now)) [
      | inl r ↦ inr (λ h. let c = h.2 in cc, rw (p, q, r) refl, rw (p, q, r) refl)
      | inr r ↦ elim (Bool-cases (is_debounced s.last_trigger_at d.now_mono)) [
        | inl t ↦ inr (λ h. let c = h.3 in cc, rw (p, q, r, t) refl, rw (p, q, r, t) refl)
        | inr t ↦ inl ((p, q, r, t), rw (p, q, r, t) refl)
      ]
    ]
  ]
]
  where
    no_cycle : (b : Bool) → cycles (if b then schedule_discovery ∷ [] else []) ≡ []
    no_cycle true = refl
    no_cycle false = refl

accept-cycles : (s : DaemonState) (d : Delivery) → cycles (accept s d).1 ≡ d.now_mono ∷ []
unfolding accept cycles
accept-cycles s d = elim (Option-cases s.stats_topic) [ inl e ↦ rw e refl | inr (t, e) ↦ rw e refl ]

pub accept-last :
    (s : DaemonState) (d : Delivery) → (accept s d).0.last_trigger_at ≡ some d.now_mono
unfolding accept
accept-last s d = refl

pub cycles-append : (a b : List Action) → cycles (a ++ b) ≡ cycles a ++ cycles b
unfolding cycles
cycles-append [] b = refl
cycles-append (run_cycle t ∷ a) b = ap (λ ts. t ∷ ts) (cycles-append a b)
cycles-append (schedule_discovery ∷ a) b = cycles-append a b
cycles-append (publish_stats x y z ∷ a) b = cycles-append a b

-- an accepted message comes at least the debounce after the last one
accepted-Apart :
    (last : Option ℕ) (now_mono : ℕ) (ts : List ℕ)
    → is_debounced last now_mono ≡ false
    → Apart (some now_mono) ts
    → Apart last (now_mono ∷ ts)
unfolding is_debounced
accepted-Apart none now_mono ts h a = a
accepted-Apart (some last) now_mono ts h a = (ground arith, a)

-- Over any messages, and whatever the clocks show, the cycles lie at least five seconds apart, and
-- at least five seconds after the last trigger before them.
pub deliver-Apart :
    (s : DaemonState) (ds : List Delivery) → Apart s.last_trigger_at (cycles (deliver s ds).1)
unfolding deliver
deliver-Apart s [] = unfold cycles in tt
deliver-Apart s (d ∷ ds) = elim (on_message_cases s d) [
  | inl ((p, q, r, t), e) ↦
      rw (e, cycles-append (accept s d).1 (deliver (accept s d).0 ds).1, accept-cycles s d)
        (accepted-Apart s.last_trigger_at d.now_mono (cycles (deliver (accept s d).0 ds).1) t (
          subst (λ l. Apart l (cycles (deliver (accept s d).0 ds).1)) (accept-last s d)
            (deliver-Apart (accept s d).0 ds)))
  | inr (refused, same, none_run) ↦
      rw (cycles-append (on_message s d).1 (deliver (on_message s d).0 ds).1, none_run, same)
        (deliver-Apart s ds)
]

-- A message runs exactly one cycle, at once, if and only if it is not on the status topic of Home
-- Assistant, it is not retained, no rate limit is active and the debounce has passed.
pub on_message-cycles :
    (s : DaemonState) (d : Delivery) → (cycles (on_message s d).1 ≡ d.now_mono ∷ []) ↔ Triggers s d
on_message-cycles s d = elim (on_message_cases s d) [
  | inl (t, e) ↦ (λ _. t, λ _. rw e (accept-cycles s d))
  | inr (refused, same, none_run) ↦
      (λ h. let none_there : [] ≡ d.now_mono ∷ [] = sym none_run ∙ h in cc, λ t. absurd (refused t))
]
