-- ===== src/Daemon.antt =====
-- mimirheim_helpers/common/helper_common/daemon.py and cycle.py: the message handler of a helper
-- daemon. Clocks count microseconds: `now` and `start_ts` are UTC, `now_mono` and `end_mono` are readings of
-- `time.monotonic()`. What a subclass's `_run_cycle` does is part of the delivery. The connection,
-- the discovery payload and the form of the stats are not modelled.
pub mod Spacing
pub mod Limit
mod Tests
use text.Mathlib.Text.{◌==◌}
use mimirheim.Prelude.{
  ℕ, ◌-◌, String, Bool, true, false, Option, none, some, List, [], ◌∷◌, ◌++◌, ltb, if◌then◌else◌,
}

-- `horizon_hours` is in thousandths.
pub record CycleResult : Type 0 where
  pub success : Bool
  pub suppress_until : Option ℕ
  pub horizon_hours : Option ℕ
  pub exit_code : Option ℕ
  pub exit_message : Option String

-- `CycleResult()`
abbrev pub default_result : CycleResult
default_result = record {
  success = true;
  suppress_until = none;
  horizon_hours = none;
  exit_code = none;
  exit_message = none;
}

-- `CycleResult(success=False)`
abbrev pub failed_result : CycleResult
failed_result = record default_result { success = false }

-- How `_run_cycle` ends.
pub data Outcome : Type 0 where
  raised : Outcome
  returned : Option CycleResult → Outcome

pub record Message : Type 0 where
  pub topic : String
  pub payload : String
  pub retain : Bool

-- One call of `_on_message`, with what the clocks show in it and how the cycle ends if one runs.
pub record Delivery : Type 0 where
  pub message : Message
  pub now : ℕ
  pub now_mono : ℕ
  pub start_ts : ℕ
  pub end_mono : ℕ
  pub outcome : Outcome

-- What the handler does to the outside: a delayed discovery, a cycle, and its stats.
pub data Action : Type 0 where
  schedule_discovery : Action
  run_cycle : (at_mono : ℕ) → Action
  publish_stats : (start : ℕ) → (duration : ℕ) → (result : CycleResult) → Action

pub record DaemonState : Type 0 where
  pub stats_topic : Option String
  pub last_trigger_at : Option ℕ
  pub ratelimit_until : Option ℕ

abbrev pub ha_status_topic : String
ha_status_topic = "homeassistant/status"

-- five seconds
abbrev pub debounce : ℕ
debounce = 5_000_000

-- `self._ratelimit_until is not None and now < self._ratelimit_until`
unfoldable pub is_limited : Option ℕ → ℕ → Bool
is_limited none now = false
is_limited (some until) now = ltb now until

-- `self._last_trigger_at is not None and now_mono - self._last_trigger_at < 5.0`: a clock that shows
-- less than before counts as no time at all
unfoldable pub is_debounced : Option ℕ → ℕ → Bool
is_debounced none now_mono = false
is_debounced (some last) now_mono = ltb (now_mono - last) debounce

-- the variable `result` after the `try` statement
abbrev pub result_of : Outcome → Option CycleResult
result_of raised = some failed_result
result_of (returned result) = result

-- `result or CycleResult()`
abbrev pub result_or_default : Option CycleResult → CycleResult
result_or_default none = default_result
result_or_default (some result) = result

-- the part of `_on_message` from the trigger that is accepted
unfoldable pub accept : DaemonState → Delivery → DaemonState × List Action
accept s d =
    let result = result_of d.outcome in
    (
      record s {
        last_trigger_at = some d.now_mono;
        ratelimit_until = elim result [ none ↦ none | some r ↦ r.suppress_until ];
      },
      run_cycle d.now_mono ∷ elim s.stats_topic [
        | none ↦ []
        | some _ ↦
            publish_stats d.start_ts (d.end_mono - d.now_mono) (result_or_default result) ∷ []
      ],
    )

unfoldable pub on_message : DaemonState → Delivery → DaemonState × List Action
on_message s d =
    if d.message.topic == ha_status_topic
    then (s, if d.message.payload == "online" then schedule_discovery ∷ [] else [])
    else if d.message.retain
    then (s, [])
    else if is_limited s.ratelimit_until d.now
    then (s, [])
    else if is_debounced s.last_trigger_at d.now_mono
    then (s, [])
    else accept s d

-- the messages of a connection, one after another
unfoldable pub deliver : DaemonState → List Delivery → DaemonState × List Action
deliver s [] = (s, [])
deliver s (d ∷ ds) =
    let (s', actions) = on_message s d in let (s'', more) = deliver s' ds in (s'', actions ++ more)
