-- ===== src/Prelude/Fixed.antt =====
-- A concrete stand-in for floats in the tests: integers that count thousandths.
use Prim.Native.Nat.{ℕ, suc, ◌+◌, ◌-◌, ◌*◌, ◌/◌}
use mathlib.Core.Path.{◌≡◌, refl}
use mathlib.Core.Logic.{◌⊎◌}
use mathlib.Core.Bool.{Bool, true}
use mathlib.Core.List.{List, [], ◌∷◌}
use native.Mathlib.Omega.{arith}
use mimirheim.Prelude.Tests.{leb, if◌then◌else◌}
use mimirheim.Prelude.Float.{Float}

-- `negsuc n` is -(n + 1).
pub data ℤ : Type 0 where
  pos : ℕ → ℤ
  negsuc : ℕ → ℤ

abbrev pub pos_part : ℤ → ℕ
pos_part (pos n) = n
pos_part (negsuc n) = 0

abbrev pub neg_part : ℤ → ℕ
neg_part (pos n) = 0
neg_part (negsuc n) = suc n

-- a - b, as an integer.
abbrev pub sub_ℕ : ℕ → ℕ → ℤ
sub_ℕ a b = if leb b a then pos (a - b) else negsuc (b - a - 1)

abbrev pub leb_ℤ : ℤ → ℤ → Bool
leb_ℤ a b = leb (pos_part a + neg_part b) (pos_part b + neg_part a)

-- products and quotients of thousandths, rounded towards zero
abbrev pub times : ℤ → ℤ → ℤ
times a b =
    sub_ℕ ((pos_part a * pos_part b + neg_part a * neg_part b) / 1000)
      ((pos_part a * neg_part b + neg_part a * pos_part b) / 1000)

abbrev pub over : ℤ → ℤ → ℤ
over a b =
    sub_ℕ (pos_part a * 1000 / pos_part b + neg_part a * 1000 / neg_part b)
      (pos_part a * 1000 / neg_part b + neg_part a * 1000 / pos_part b)

abbrev pub negate : ℤ → ℤ
negate a = sub_ℕ (neg_part a) (pos_part a)

pub leb_ℤ_refl : (x : ℤ) → leb_ℤ x x ≡ true
leb_ℤ_refl x = ground arith

pub leb_ℤ_trans : (x y z : ℤ) → leb_ℤ x y ≡ true → leb_ℤ y z ≡ true → leb_ℤ x z ≡ true
leb_ℤ_trans x y z p q = ground arith

pub leb_ℤ_total : (x y : ℤ) → (leb_ℤ x y ≡ true) ⊎ (leb_ℤ y x ≡ true)
leb_ℤ_total x y = ground arith

pub leb_ℤ_neg : (x y : ℤ) → leb_ℤ (negate x) (negate y) ≡ leb_ℤ y x
leb_ℤ_neg x y = ground arith

abbrev pub plus : ℤ → ℤ → ℤ
plus a b = sub_ℕ (pos_part a + pos_part b) (neg_part a + neg_part b)

abbrev pub sum_ℤ : List ℤ → ℤ
sum_ℤ [] = pos 0
sum_ℤ (x ∷ xs) = plus x (sum_ℤ xs)

instance abbrev pub milli : Float ℤ
milli = record {
  nil = pos 0;
  add = plus;
  sub = λ a b. sub_ℕ (pos_part a + neg_part b) (neg_part a + pos_part b);
  mul = times;
  div = over;
  neg = negate;
  sum = sum_ℤ;
  of_nat = λ n. pos (n * 1000);
  truncate = λ a. pos_part a / 1000;
  le = leb_ℤ;
  le_refl = leb_ℤ_refl;
  le_trans = leb_ℤ_trans;
  le_total = leb_ℤ_total;
  le_neg = leb_ℤ_neg;
  neg_nil = refl;
  nil_neg = refl;
}
