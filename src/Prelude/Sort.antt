-- ===== src/Prelude/Sort.antt =====
-- Python's stable `sorted`, as an insertion sort by a Boolean order.
use mimirheim.Prelude.Tests.{if◌then◌else◌, Bool-cases}
use mimirheim.Prelude.Lists.{All, In}
use mathlib.Core.Path.{◌≡◌}
use mathlib.Core.Logic.{◌⊎◌, inl, inr}
use mathlib.Core.Bool.{Bool, true, false}
use mathlib.Core.List.{List, [], ◌∷◌}

module _ {A : Type 0} (le : A → A → Bool) where
  -- `a` stood before the elements of the list, so it goes before those that it equals.
  unfoldable pub insert : A → List A → List A
  insert a [] = a ∷ []
  insert a (x ∷ xs) = if le a x then a ∷ x ∷ xs else x ∷ insert a xs

  unfoldable pub sorted : List A → List A
  unfolding insert
  sorted [] = []
  sorted (x ∷ xs) = insert x (sorted xs)

  abbrev pub Ordered : List A → Type 0
  Ordered [] = Unit
  Ordered (x ∷ xs) = All (λ y. le x y ≡ true) xs × Ordered xs

  In-insert : (a b : A) (xs : List A) → In b (insert a xs) → (b ≡ a) ⊎ In b xs
  unfolding insert
  In-insert a b [] m = m
  In-insert a b (x ∷ xs) m = elim (Bool-cases (le a x)) [
    | inl h ↦ rw h at m
    | inr h ↦ past (rw h at m) (In-insert a b xs)
  ]
    where
      past :
          (b ≡ x) ⊎ In b (insert a xs)
          → (In b (insert a xs) → (b ≡ a) ⊎ In b xs)
          → (b ≡ a) ⊎ ((b ≡ x) ⊎ In b xs)
      past (inl e) ih = inr (inl e)
      past (inr m') ih = elim (ih m') [ inl e ↦ inl e | inr k ↦ inr (inr k) ]

  insert-In : (a b : A) (xs : List A) → (b ≡ a) ⊎ In b xs → In b (insert a xs)
  unfolding insert
  insert-In a b [] m = m
  insert-In a b (x ∷ xs) m = elim (Bool-cases (le a x)) [
    | inl h ↦ rw h m
    | inr h ↦ rw h (past m (insert-In a b xs))
  ]
    where
      past :
          (b ≡ a) ⊎ ((b ≡ x) ⊎ In b xs)
          → ((b ≡ a) ⊎ In b xs → In b (insert a xs))
          → (b ≡ x) ⊎ In b (insert a xs)
      past (inl e) ih = inr (ih (inl e))
      past (inr (inl e)) ih = inl e
      past (inr (inr k)) ih = inr (ih (inr k))

  -- Sorting keeps the elements.
  pub In_of-sorted : (b : A) (xs : List A) → In b (sorted xs) → In b xs
  unfolding sorted
  In_of-sorted b [] m = m
  In_of-sorted b (x ∷ xs) m = elim (In-insert x b (sorted xs) m) [
    | inl e ↦ inl e
    | inr k ↦ inr (In_of-sorted b xs k)
  ]

  pub In-sorted : (b : A) (xs : List A) → In b xs → In b (sorted xs)
  unfolding sorted
  In-sorted b [] m = m
  In-sorted b (x ∷ xs) (inl e) = insert-In x b (sorted xs) (inl e)
  In-sorted b (x ∷ xs) (inr m) = insert-In x b (sorted xs) (inr (In-sorted b xs m))

  All-insert {κ} : (P : A → Type κ) (a : A) (xs : List A) → P a → All P xs → All P (insert a xs)
  unfolding insert
  All-insert P a [] p h = (p, tt)
  All-insert P a (x ∷ xs) p h = elim (Bool-cases (le a x)) [
    | inl e ↦ rw e (p, h)
    | inr e ↦ rw e (h.0, All-insert P a xs p h.1)
  ]

  module _ (total : (x y : A) → (le x y ≡ true) ⊎ (le y x ≡ true))
      (trans : (x y z : A) → le x y ≡ true → le y z ≡ true → le x z ≡ true) where
    below-All :
        (a x : A) (xs : List A)
        → le a x ≡ true
        → All (λ y. le x y ≡ true) xs
        → All (λ y. le a y ≡ true) xs
    below-All a x [] h k = tt
    below-All a x (y ∷ ys) h k = (trans a x y h k.0, below-All a x ys h k.1)

    flip : (a x : A) → le a x ≡ false → le x a ≡ true
    flip a x h = elim (total a x) [ inl p ↦ cc | inr p ↦ p ]

    insert-Ordered : (a : A) (xs : List A) → Ordered xs → Ordered (insert a xs)
    unfolding insert
    insert-Ordered a [] h = (tt, tt)
    insert-Ordered a (x ∷ xs) h = elim (Bool-cases (le a x)) [
      | inl e ↦ rw e ((e, below-All a x xs e h.0), h)
      | inr e ↦
          rw e (All-insert (λ y. le x y ≡ true) a xs (flip a x e) h.0, insert-Ordered a xs h.1)
    ]

    -- With a total and transitive order the result is in order.
    pub sorted-Ordered : (xs : List A) → Ordered (sorted xs)
    unfolding sorted
    sorted-Ordered [] = tt
    sorted-Ordered (x ∷ xs) = insert-Ordered x (sorted xs) (sorted-Ordered xs)
