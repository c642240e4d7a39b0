-- ===== src/Prelude/Float.antt =====
-- Python's float, as an interface: the operations that the program calls and the documented
-- behaviour of IEEE comparison and negation that the proofs rely on. The values stand for floats
-- that are no NaN; no law of rounding is assumed.
use mathlib.Core.Path.{◌≡◌}
use mathlib.Core.Logic.{◌⊎◌}
use mathlib.Core.Bool.{Bool, true, not, ◌&&◌}
use mathlib.Core.List.{List}
use Prim.Native.Nat.{ℕ}
use mimirheim.Prelude.Tests.{if◌then◌else◌}

pub record Float (F : Type 0) : Type 0 where
  pub nil : F
  pub add : F → F → F
  pub sub : F → F → F
  pub mul : F → F → F
  pub div : F → F → F
  pub neg : F → F
  -- `sum(xs)`, which Python rounds otherwise than the repeated addition
  pub sum : List F → F
  pub of_nat : ℕ → F
  -- `int(x)` of an `x` that is not negative
  pub truncate : F → ℕ
  pub le : F → F → Bool
  pub le_refl : (x : F) → le x x ≡ true
  pub le_trans : (x y z : F) → le x y ≡ true → le y z ≡ true → le x z ≡ true
  pub le_total : (x y : F) → (le x y ≡ true) ⊎ (le y x ≡ true)
  pub le_neg : (x y : F) → le (neg x) (neg y) ≡ le y x
  pub neg_nil : le (neg nil) nil ≡ true
  pub nil_neg : le nil (neg nil) ≡ true

module _ {F : Type 0} ⦃f : Float F⦄ where
  -- `x < y`
  abbrev pub lt : F → F → Bool
  lt x y = not (f.le y x)

  -- `x == y`
  abbrev pub eq : F → F → Bool
  eq x y = f.le x y && f.le y x

  -- `max(x, y)` and `min(x, y)` return the first argument on a tie.
  abbrev pub max : F → F → F
  max x y = if lt x y then y else x

  abbrev pub min : F → F → F
  min x y = if lt y x then y else x
