-- ===== src/Solver/Exact.antt =====
-- A concrete stand-in for the solver's arithmetic in the tests: integers, where an expression is a
-- function of the values of the variables.
use mimirheim.Prelude.{ℕ, zero, suc, ◌+◌, ◌*◌, ◌/◌, ◌≡◌, refl, ap, true, ◌⊎◌, inl, inr, arith}
use mimirheim.Prelude.Fixed.{ℤ, pos, negsuc, pos_part, neg_part, sub_ℕ, leb_ℤ, negate}
use mimirheim.Solver.{Linear}

abbrev pub plus_ℤ : ℤ → ℤ → ℤ
plus_ℤ a b = sub_ℕ (pos_part a + pos_part b) (neg_part a + neg_part b)

abbrev pub minus_ℤ : ℤ → ℤ → ℤ
minus_ℤ a b = sub_ℕ (pos_part a + neg_part b) (neg_part a + pos_part b)

abbrev pub times_ℤ : ℤ → ℤ → ℤ
times_ℤ a b =
    sub_ℕ (pos_part a * pos_part b + neg_part a * neg_part b)
      (pos_part a * neg_part b + neg_part a * pos_part b)

pub plus_zero : (x : ℤ) → plus_ℤ x (pos 0) ≡ x
plus_zero (pos n) = ground arith
plus_zero (negsuc n) = ground arith

pub zero_plus : (x : ℤ) → plus_ℤ (pos 0) x ≡ x
zero_plus (pos n) = ground arith
zero_plus (negsuc n) = ground arith

pub minus_zero : (x : ℤ) → minus_ℤ x (pos 0) ≡ x
minus_zero (pos n) = ground arith
minus_zero (negsuc n) = ground arith

pub minus_self : (x : ℤ) → minus_ℤ x x ≡ pos 0
minus_self (pos n) = ground arith
minus_self (negsuc n) = ground arith

pub times_zero : (x : ℤ) → times_ℤ x (pos 0) ≡ pos 0
times_zero (pos n) = ground arith
times_zero (negsuc n) = ground arith

pub times_one : (x : ℤ) → times_ℤ x (pos 1) ≡ x
times_one (pos n) = ground arith
times_one (negsuc n) = ground arith

pub pos_suc : (n : ℕ) → pos (suc n) ≡ plus_ℤ (pos n) (pos 1)
pos_suc n = ground arith

pub pos_inj : (m n : ℕ) → pos m ≡ pos n → m ≡ n
pos_inj m n h = ap pos_part h

pub antisym : (x y : ℤ) → leb_ℤ x y ≡ true → leb_ℤ y x ≡ true → x ≡ y
antisym (pos m) (pos n) p q = ground arith
antisym (pos m) (negsuc n) p q = ground arith
antisym (negsuc m) (pos n) p q = ground arith
antisym (negsuc m) (negsuc n) p q = ground arith

pub binary_ℤ : (x : ℤ) → leb_ℤ (pos 0) x ≡ true → leb_ℤ x (pos 1) ≡ true → (x ≡ pos 0) ⊎ (x ≡ pos 1)
binary_ℤ (pos zero) p q = inl refl
binary_ℤ (pos (suc zero)) p q = inr refl
binary_ℤ (pos (suc (suc n))) p q = ground arith
binary_ℤ (negsuc n) p q = ground arith

abbrev pub Expr : Type 0
Expr = (ℕ → ℤ) → ℤ

abbrev pub exact : Linear ℤ Expr (ℕ → ℤ)
exact = record {
  zero = pos 0;
  one = pos 1;
  of_nat = pos;
  add = plus_ℤ;
  sub = minus_ℤ;
  mul = times_ℤ;
  div = λ a b. sub_ℕ (pos_part a / pos_part b) 0;
  neg = negate;
  le = leb_ℤ;
  integral = λ x. true;
  constant = λ x s. x;
  plus = λ a b s. plus_ℤ (a s) (b s);
  minus = λ a b s. minus_ℤ (a s) (b s);
  times = λ x a s. times_ℤ x (a s);
  negate = λ a s. negate (a s);
  variable = λ n s. s n;
  value = λ s e. e s;
  value_constant = λ s x. refl;
  value_plus = λ s a b. refl;
  value_minus = λ s a b. refl;
  value_times = λ s x a. refl;
  value_negate = λ s a. refl;
  add_zero = plus_zero;
  zero_add = zero_plus;
  sub_zero = minus_zero;
  sub_self = minus_self;
  mul_zero = times_zero;
  mul_one = times_one;
  neg_zero = refl;
  of_nat_zero = refl;
  of_nat_one = refl;
  of_nat_suc = pos_suc;
  of_nat_inj = pos_inj;
  le_antisym = antisym;
  binary = λ x i. binary_ℤ x;
}
