-- ===== src/Solver.antt =====
-- mimirheim/core/solver_backend.py: what the devices hand to the solver.
-- python-mip is a parameter: its linear expressions, its solutions and the value of an expression in a
-- solution, with the laws of exact linear arithmetic, and integrality of the integer variables.
pub mod Sos
pub mod Binary
pub mod Exact
mod Tests
use mimirheim.Prelude.{
  ℕ, suc, Bool, true, Option, none, some, List, [], ◌∷◌, length, In, ◌≡◌, ◌⊎◌, get_elem?,
}

pub record Linear (F E S : Type 0) : Type 0 where
  pub zero : F
  pub one : F
  pub of_nat : ℕ → F
  pub add : F → F → F
  pub sub : F → F → F
  pub mul : F → F → F
  pub div : F → F → F
  pub neg : F → F
  pub le : F → F → Bool
  pub integral : F → Bool
  -- the operators of `mip.Var` and `mip.LinExpr`
  pub constant : F → E
  pub plus : E → E → E
  pub minus : E → E → E
  pub times : F → E → E
  pub negate : E → E
  -- the handle of the variable that was added as number n
  pub variable : ℕ → E
  pub value : S → E → F
  pub value_constant : (s : S) (x : F) → value s (constant x) ≡ x
  pub value_plus : (s : S) (a b : E) → value s (plus a b) ≡ add (value s a) (value s b)
  pub value_minus : (s : S) (a b : E) → value s (minus a b) ≡ sub (value s a) (value s b)
  pub value_times : (s : S) (x : F) (a : E) → value s (times x a) ≡ mul x (value s a)
  pub value_negate : (s : S) (a : E) → value s (negate a) ≡ neg (value s a)
  pub add_zero : (x : F) → add x zero ≡ x
  pub zero_add : (x : F) → add zero x ≡ x
  pub sub_zero : (x : F) → sub x zero ≡ x
  pub sub_self : (x : F) → sub x x ≡ zero
  pub mul_zero : (x : F) → mul x zero ≡ zero
  pub mul_one : (x : F) → mul x one ≡ x
  pub neg_zero : neg zero ≡ zero
  pub of_nat_zero : of_nat 0 ≡ zero
  pub of_nat_one : of_nat 1 ≡ one
  pub of_nat_suc : (n : ℕ) → of_nat (suc n) ≡ add (of_nat n) one
  pub of_nat_inj : (m n : ℕ) → of_nat m ≡ of_nat n → m ≡ n
  pub le_antisym : (x y : F) → le x y ≡ true → le y x ≡ true → x ≡ y
  pub binary :
      (x : F) → integral x ≡ true → le zero x ≡ true → le x one ≡ true → (x ≡ zero) ⊎ (x ≡ one)

pub record Variable (F E : Type 0) : Type 0 where
  pub handle : E
  pub lb : F
  pub ub : F
  pub integer : Bool

-- `a == b` and `a <= b`
pub data Constraint (E : Type 0) : Type 0 where
  equal : E → E → Constraint E
  at_most : E → E → Constraint E

-- what has been added to a `mip.Model`
pub record Model (F E : Type 0) : Type 0 where
  pub variables : List (Variable F E)
  pub constraints : List (Constraint E)

module _ {F E S : Type 0} (l : Linear F E S) where
  abbrev pub Meets : S → Constraint E → Type 0
  Meets s (equal a b) = l.value s a ≡ l.value s b
  Meets s (at_most a b) = l.le (l.value s a) (l.value s b) ≡ true

  abbrev pub Within : S → Variable F E → Type 0
  Within s v =
      (l.le v.lb (l.value s v.handle) ≡ true)
      × (l.le (l.value s v.handle) v.ub ≡ true)
      × (v.integer ≡ true → l.integral (l.value s v.handle) ≡ true)

  -- A solution of the model.
  abbrev pub Feasible : S → Model F E → Type 0
  Feasible s m =
      ((v : Variable F E) → In v m.variables → Within s v)
      × ((c : Constraint E) → In c m.constraints → Meets s c)

  -- `sum(…)` of expressions, which starts at 0
  abbrev pub sum_from : E → List E → E
  sum_from acc [] = acc
  sum_from acc (e ∷ es) = sum_from (l.plus acc e) es

  abbrev pub sum : List E → E
  sum es = sum_from (l.constant l.zero) es

  unfoldable pub add_var : (lb ub : F) → Bool → Model F E → E × Model F E
  add_var lb ub integer m =
      let handle = l.variable (length m.variables) in
      (
        handle,
        record m {
          variables = record { handle = handle; lb = lb; ub = ub; integer = integer } ∷ m.variables;
        },
      )

module _ {F E : Type 0} where
  unfoldable pub add_constraint : Constraint E → Model F E → Model F E
  add_constraint c m = record m { constraints = c ∷ m.constraints }
