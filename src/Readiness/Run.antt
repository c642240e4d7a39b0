-- ===== src/Readiness/Run.antt =====
-- The record of full charges over a whole run of messages.
use mathlib.Core.Path.{subst}
use mimirheim.Prelude.{
  ℕ, ◌≤◌, String, ◌≡◌, refl, Option, none, some, some_inj, List, [], ◌∷◌, arith,
}
use mimirheim.Prelude.Float.{Float}
use mimirheim.Prelude.Dict.{Dict}
use mimirheim.Readiness.{Input, ReadinessState, update}
use mimirheim.Readiness.Care.{AllBy, Advances, Recedes, update-Moves}

-- A message with the three readings of the clock while it is handled.
pub record Message (F : Type 0) : Type 0 where
  pub topic : String
  pub input : Input F
  pub received : ℕ
  pub seen : ℕ
  pub now : ℕ

-- No message is handled before `start` or before an earlier message.
abbrev pub InOrder : {F : Type 0} → ℕ → List (Message F) → Type 0
InOrder start [] = Unit
InOrder start (m ∷ ms) = (start ≤ m.now) × InOrder m.now ms

Advances-trans : (a b c : Dict ℕ) → Advances a b → Advances b c → Advances a c
Advances-trans a b c p q k t g =
    let (u, e, l) = p k t g in let (v, e', l') = q k u e in (v, e', omega arith)

Recedes-trans : (a b c : Dict ℕ) → Recedes a b → Recedes b c → Recedes a c
Recedes-trans a b c p q k t g =
    let (u, e, l) = p k t g in let (v, e', l') = q k u e in (v, e', omega arith)

module _ {F : Type 0} ⦃f : Float F⦄ where
  unfoldable pub run : ReadinessState F → List (Message F) → Option (ReadinessState F)
  run s [] = some s
  run s (m ∷ ms) = elim (update s m.topic m.input m.received m.seen m.now) [
    | none ↦ none
    | some s' ↦ run s' ms
  ]

  -- Over any run of messages under a clock that does not go back, from a state whose recorded full
  -- charges are not after the start: a recorded full charge is never lost and never gets earlier,
  -- and a baseline is never lost and never gets later.
  pub run_moves :
      (s s' : ReadinessState F) (ms : List (Message F)) (start : ℕ)
      → AllBy start s.last_full_utc
      → InOrder start ms
      → run s ms ≡ some s'
      → Advances s.last_full_utc s'.last_full_utc × Recedes s.care_since_utc s'.care_since_utc
  unfolding run
  run_moves s s' [] start h o e =
      subst
        (λ x. Advances s.last_full_utc x.last_full_utc × Recedes s.care_since_utc x.care_since_utc)
        (some_inj e) (λ k t g. (t, g, omega arith), λ k t g. (t, g, omega arith))
  run_moves s s' (m ∷ ms) start h (le, o) e =
      stepped (update s m.topic m.input m.received m.seen m.now) refl e
        (λ x c g. run_moves x s' ms m.now c o g)
    where
      stepped :
          (r : Option (ReadinessState F))
          → update s m.topic m.input m.received m.seen m.now ≡ r
          → elim r [ none ↦ none | some x ↦ run x ms ] ≡ some s'
          → ((x : ReadinessState F)
              → AllBy m.now x.last_full_utc
              → run x ms ≡ some s'
              → Advances x.last_full_utc s'.last_full_utc
                × Recedes x.care_since_utc s'.care_since_utc)
          → Advances s.last_full_utc s'.last_full_utc × Recedes s.care_since_utc s'.care_since_utc
      stepped none q g ih = cc
      stepped (some x) q g ih =
          let later : AllBy m.now s.last_full_utc = λ k t j. let b = h k t j in omega arith in
          let (a, b, c) = update-Moves s x m.topic m.input m.received m.seen m.now later q in
          let (a', b') = ih x c g in
          (
            Advances-trans s.last_full_utc x.last_full_utc s'.last_full_utc a a',
            Recedes-trans s.care_since_utc x.care_since_utc s'.care_since_utc b b',
          )
