-- ===== src/Daemon/Tests.antt =====
-- The theorems on helper daemons at concrete inputs.
use mimirheim.Prelude.{ℕ, ◌+◌, ◌≡◌, refl, ◌↔◌, false, none, some, [], ◌∷◌, arith}
use mimirheim.Daemon.{
  Outcome, raised, returned, Delivery, DaemonState, is_limited, is_debounced, on_message, deliver,
}
use mimirheim.Daemon.Spacing.{cycles, Apart, Triggers, deliver-Apart, on_message-cycles}
use mimirheim.Daemon.Limit.{deliver-limited, on_message-recovers}

abbrev idle : DaemonState
idle = record { stats_topic = some "stats"; last_trigger_at = none; ratelimit_until = none }

-- a trigger `s` seconds after the start of both clocks
abbrev trigger : ℕ → Outcome → Delivery
trigger s outcome = record {
  message = record { topic = "nordpool/trigger"; payload = ""; retain = false };
  now = s;
  now_mono = s;
  start_ts = s;
  end_mono = s + 1;
  outcome = outcome;
}

abbrev ok : Outcome
ok = returned none

deliver-Apart_example :
    Apart none
      (cycles (deliver idle (trigger 0 ok ∷ trigger 2_000_000 ok ∷ trigger 6_000_000 ok ∷ [])).1)
deliver-Apart_example =
    deliver-Apart idle (trigger 0 ok ∷ trigger 2_000_000 ok ∷ trigger 6_000_000 ok ∷ [])

on_message-cycles_example :
    (cycles (on_message idle (trigger 7 ok)).1 ≡ 7 ∷ []) ↔ Triggers idle (trigger 7 ok)
on_message-cycles_example = on_message-cycles idle (trigger 7 ok)

abbrev limited : DaemonState
limited = record { stats_topic = none; last_trigger_at = some 0; ratelimit_until = some 60_000_000 }

deliver-limited_example :
    ((deliver limited (trigger 10_000_000 ok ∷ trigger 59_999_999 ok ∷ [])).0 ≡ limited)
    × (cycles (deliver limited (trigger 10_000_000 ok ∷ trigger 59_999_999 ok ∷ [])).1 ≡ [])
deliver-limited_example =
    deliver-limited limited (trigger 10_000_000 ok ∷ trigger 59_999_999 ok ∷ []) 60_000_000 refl
      (omega arith, (omega arith, tt))

on_message-recovers_example :
    cycles (on_message (on_message idle (trigger 7 raised)).0 (trigger 5_000_007 ok)).1
    ≡ 5_000_007 ∷ []
unfolding is_limited is_debounced
on_message-recovers_example =
    on_message-recovers idle (trigger 7 raised) (trigger 5_000_007 ok) (refl, refl, refl, refl) refl
      refl refl (omega arith)
