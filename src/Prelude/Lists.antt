-- ===== src/Prelude/Lists.antt =====
-- Lists measured and indexed by native numbers, predicates over lists, and searches in lists.
use Prim.Native.Nat.{ℕ, zero, suc, ◌+◌, ◌<◌}
use mathlib.Core.Path.{◌≡◌, refl, sym, ap}
use mathlib.Core.Logic.{◌⊎◌, inl, inr}
use mathlib.Core.Bool.{Bool, true, false}
use mathlib.Core.List.{List, [], ◌∷◌, ◌++◌, map}
use mathlib.Core.Option.{Option, none, some}
use native.Mathlib.Omega.{arith}
use mimirheim.Prelude.Tests.{some_inj, if◌then◌else◌, Bool-cases}

module _ {ℓ} {A : Type ℓ} where
  abbrev pub length : List A → ℕ
  length [] = 0
  length (x ∷ xs) = suc (length xs)

  abbrev pub get_elem? : List A → ℕ → Option A
  get_elem? [] i = none
  get_elem? (x ∷ xs) zero = some x
  get_elem? (x ∷ xs) (suc i) = get_elem? xs i

  pub List-cases : (xs : List A) → (xs ≡ []) ⊎ (x : A) × (rest : List A) × (xs ≡ x ∷ rest)
  List-cases [] = inl refl
  List-cases (x ∷ rest) = inr (x, rest, refl)

  abbrev pub replicate : ℕ → A → List A
  replicate zero a = []
  replicate (suc n) a = a ∷ replicate n a

  -- `[x for x in xs if p(x)]`
  abbrev pub filter : (A → Bool) → List A → List A
  filter p [] = []
  filter p (x ∷ xs) = let rest = filter p xs in if p x then x ∷ rest else rest

  -- `xs[-1]`, if there is one
  abbrev pub last? : List A → Option A
  last? [] = none
  last? (x ∷ []) = some x
  last? (x ∷ y ∷ xs) = last? (y ∷ xs)

  -- `any(p(x) for x in xs)`
  abbrev pub any : (A → Bool) → List A → Bool
  any p [] = false
  any p (x ∷ xs) = if p x then true else any p xs

  pub length-append : (xs ys : List A) → length (xs ++ ys) ≡ length xs + length ys
  length-append [] ys = omega arith
  length-append (x ∷ xs) ys = omega (arith, length-append xs ys)

  pub length-replicate : (n : ℕ) (a : A) → length (replicate n a) ≡ n
  length-replicate zero a = refl
  length-replicate (suc n) a = ap suc (length-replicate n a)

module _ {ℓ} {A : Type ℓ} where
  pub length-map {κ} : {B : Type κ} (f : A → B) (xs : List A) → length (map f xs) ≡ length xs
  length-map f [] = refl
  length-map f (x ∷ xs) = ap suc (length-map f xs)

-- Predicates by recursion, which compute to tuples and sums.
module _ {ℓ κ} {A : Type ℓ} where
  abbrev pub All : (A → Type κ) → List A → Type κ
  All P [] = Unit
  All P (x ∷ xs) = P x × All P xs

module _ {ℓ κ} {A : Type ℓ} {B : Type κ} where
  pub get_elem?-map :
      (f : A → B) (xs : List A) (i : ℕ) {a : A}
      → get_elem? xs i ≡ some a
      → get_elem? (map f xs) i ≡ some (f a)
  get_elem?-map f [] i h = cc
  get_elem?-map f (x ∷ xs) zero h = cc
  get_elem?-map f (x ∷ xs) (suc i) h = get_elem?-map f xs i h

module _ {A : Type 0} where
  -- membership with its place
  abbrev pub In : A → List A → Type 0
  In a [] = ⊥
  In a (x ∷ xs) = (a ≡ x) ⊎ In a xs

  -- `filter` keeps exactly the elements that pass.
  pub In-filter : (p : A → Bool) (a : A) (xs : List A) → In a xs → p a ≡ true → In a (filter p xs)
  In-filter p a [] m h = m
  In-filter p a (x ∷ xs) (inl e) h = ground (arith, ap p e)
  In-filter p a (x ∷ xs) (inr m) h = ground (arith, In-filter p a xs m h)

  pub In_of-filter :
      (p : A → Bool) (a : A) (xs : List A) → In a (filter p xs) → In a xs × (p a ≡ true)
  In_of-filter p a [] m = absurd m
  In_of-filter p a (x ∷ xs) m = elim (Bool-cases (p x)) [
    | inl h ↦ kept x xs h (rw h at m) (In_of-filter p a xs)
    | inr h ↦ let (m', q) = In_of-filter p a xs (rw h at m) in (inr m', q)
  ]
    where
      kept :
          (x : A) (xs : List A)
          → p x ≡ true
          → (a ≡ x) ⊎ In a (filter p xs)
          → (In a (filter p xs) → In a xs × (p a ≡ true))
          → ((a ≡ x) ⊎ In a xs) × (p a ≡ true)
      kept x xs h (inl e) ih = (inl e, rw e h)
      kept x xs h (inr m) ih = let (m', q) = ih m in (inr m', q)

  pub any-false : (p : A → Bool) (a : A) (xs : List A) → any p xs ≡ false → In a xs → p a ≡ false
  any-false p a [] h m = absurd m
  any-false p a (x ∷ xs) h (inl e) = ground (arith, ap p e)
  any-false p a (x ∷ xs) h (inr m) = ground (arith, any-false p a xs)

  pub false-any :
      (p : A → Bool) (xs : List A) → ((a : A) → In a xs → p a ≡ false) → any p xs ≡ false
  false-any p [] h = refl
  false-any p (x ∷ xs) h = rw (h x (inl refl)) (false-any p xs (λ a m. h a (inr m)))

module _ {κ} {A : Type 0} (P : A → Type κ) where
  pub All-In : (a : A) (xs : List A) → All P xs → In a xs → P a
  All-In a [] h m = absurd m
  All-In a (x ∷ xs) h (inl e) = rw e h.0
  All-In a (x ∷ xs) h (inr m) = All-In a xs h.1 m

  pub All-of_In : (xs : List A) → ((a : A) → In a xs → P a) → All P xs
  All-of_In [] h = tt
  All-of_In (x ∷ xs) h = (h x (inl refl), All-of_In xs (λ a m. h a (inr m)))

-- Indices in range.
pub lt-get_elem? :
    {A : Type 0} (xs : List A) (i : ℕ) → i < length xs → (a : A) × (get_elem? xs i ≡ some a)
lt-get_elem? [] i p = absurd (omega arith)
lt-get_elem? (x ∷ xs) zero p = (x, refl)
lt-get_elem? (x ∷ xs) (suc i) p = lt-get_elem? xs i (omega arith)

pub get_elem?-lt :
    {A : Type 0} (xs : List A) (i : ℕ) (a : A) → get_elem? xs i ≡ some a → i < length xs
get_elem?-lt [] i a h = cc
get_elem?-lt (x ∷ xs) zero a h = omega arith
get_elem?-lt (x ∷ xs) (suc i) a h = omega (arith, get_elem?-lt xs i a h)

pub In_of-get_elem? : {A : Type 0} (xs : List A) (i : ℕ) (a : A) → get_elem? xs i ≡ some a → In a xs
In_of-get_elem? [] i a h = cc
In_of-get_elem? (x ∷ xs) zero a h = inl (sym (some_inj h))
In_of-get_elem? (x ∷ xs) (suc i) a h = inr (In_of-get_elem? xs i a h)
