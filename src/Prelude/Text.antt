-- ===== src/Prelude/Text.antt =====
-- Python's `str` as a list of code points, for the ASCII texts of a configuration.
use Prim.Native.Char.{code}
use Prim.Native.String.{String}
use Prim.Native.Nat.{ℕ, ◌+◌, ◌*◌, ◌-◌}
use mathlib.Core.Path.{◌≡◌, refl, sym}
use mathlib.Core.Logic.{inl, inr}
use mathlib.Core.Bool.{Bool, true, false, ◌&&◌, ◌||◌, not}
use mathlib.Core.List.{List, [], ◌∷◌, ◌++◌}
use native.Mathlib.Omega.{arith}
use mimirheim.Prelude.Tests.{Bool-cases, ◌==◌, leb, if◌then◌else◌}
use mimirheim.Prelude.Lists.{filter, In}

abbrev pub Text : Type 0
Text = List ℕ

abbrev pub codes : String → Text
codes String.[] = []
codes (String.◌∷◌ c s) = code c ∷ codes s

-- `a == b`
abbrev pub same_text : Text → Text → Bool
same_text [] [] = true
same_text [] (d ∷ t) = false
same_text (c ∷ s) [] = false
same_text (c ∷ s) (d ∷ t) = (c == d) && same_text s t

-- `a in names`
abbrev pub member : Text → List Text → Bool
member a [] = false
member a (x ∷ xs) = same_text a x || member a xs

abbrev pub is_blank : Text → Bool
is_blank [] = true
is_blank (c ∷ s) = false

abbrev pub is_space : ℕ → Bool
is_space c = (leb 9 c && leb c 13) || (leb 28 c && leb c 32)

-- `s.lstrip(…)`, of the characters that pass
abbrev pub lstrip : (ℕ → Bool) → Text → Text
lstrip p [] = []
lstrip p (c ∷ s) = let rest = lstrip p s in if p c then rest else c ∷ s

abbrev pub rstrip : (ℕ → Bool) → Text → Text
rstrip p [] = []
rstrip p (c ∷ s) = let rest = rstrip p s in if p c && is_blank rest then [] else c ∷ rest

abbrev pub strip : Text → Text
strip s = rstrip is_space (lstrip is_space s)

abbrev pub lower : Text → Text
lower [] = []
lower (c ∷ s) = (if leb 65 c && leb c 90 then c + 32 else c) ∷ lower s

abbrev pub all_digits : Text → Bool
all_digits [] = true
all_digits (c ∷ s) = leb 48 c && leb c 57 && all_digits s

abbrev pub isdigit : Text → Bool
isdigit s = not (is_blank s) && all_digits s

abbrev pub digits_from : ℕ → Text → ℕ
digits_from n [] = n
digits_from n (c ∷ s) = digits_from (n * 10 + (c - 48)) s

-- `int(s)`, of digits
abbrev pub int : Text → ℕ
int s = digits_from 0 s

abbrev pub contains : ℕ → Text → Bool
contains a [] = false
contains a (c ∷ s) = (a == c) || contains a s

-- `s.partition(a)`: what stands before the first `a`, and after it
abbrev pub partition : ℕ → Text → Text × Text
partition a [] = ([], [])
partition a (c ∷ s) = let rest = partition a s in if a == c then ([], s) else (c ∷ rest.0, rest.1)

abbrev pub cons_head : ℕ → List Text → List Text
cons_head c [] = (c ∷ []) ∷ []
cons_head c (t ∷ ts) = (c ∷ t) ∷ ts

-- the pieces between the characters that pass
abbrev pub split_at : (ℕ → Bool) → Text → List Text
split_at p [] = [] ∷ []
split_at p (c ∷ s) = let rest = split_at p s in if p c then [] ∷ rest else cons_head c rest

-- `s.split(a)`
abbrev pub split : ℕ → Text → List Text
split a s = split_at (λ c. a == c) s

-- `s.split()`
abbrev pub words : Text → List Text
words s = filter (λ t. not (is_blank t)) (split_at is_space s)

-- `a.join(texts)`
abbrev pub join : ℕ → List Text → Text
join a [] = []
join a (t ∷ []) = t
join a (t ∷ u ∷ ts) = t ++ (a ∷ join a (u ∷ ts))

pub same_text-eq : (s t : Text) → same_text s t ≡ true → s ≡ t
same_text-eq [] [] h = refl
same_text-eq [] (d ∷ t) h = cc
same_text-eq (c ∷ s) [] h = cc
same_text-eq (c ∷ s) (d ∷ t) h = cons_eq (ground arith) (same_text-eq s t (ground arith))
  where
    cons_eq : c ≡ d → s ≡ t → c ∷ s ≡ d ∷ t
    cons_eq p q = λ i. p i ∷ q i

pub same_text_refl : (s : Text) → same_text s s ≡ true
same_text_refl [] = refl
same_text_refl (c ∷ s) = ground (arith, same_text_refl s)

pub member-In : (a : Text) (xs : List Text) → member a xs ≡ true → In a xs
member-In a [] h = cc
member-In a (x ∷ xs) h = elim (Bool-cases (same_text a x)) [
  | inl e ↦ inl (same_text-eq a x e)
  | inr e ↦ inr (member-In a xs (rw e at h))
]

pub In-member : (a : Text) (xs : List Text) → In a xs → member a xs ≡ true
In-member a [] m = absurd m
In-member a (x ∷ xs) (inl e) = rw (sym e, same_text_refl a) refl
In-member a (x ∷ xs) (inr m) = ground (arith, In-member a xs m)
