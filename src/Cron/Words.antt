-- ===== src/Cron/Words.antt =====
-- The fields of a text are those that it was joined from.
use mimirheim.Prelude.{
  ℕ, ◌≡◌, refl, ap, ◌∙◌, inl, inr, Bool, true, false, not, List, [], ◌∷◌, ◌++◌, filter, In,
  In_of-filter, arith, Bool-cases, any,
}
use mimirheim.Prelude.Text.{Text, is_blank, is_space, cons_head, split_at, words, join}

-- A field: some characters, none of them a space.
abbrev pub IsField : Text → Type 0
IsField t = (any is_space t ≡ false) × (is_blank t ≡ false)

module _ (p : ℕ → Bool) where
  no_space-cons : (c : ℕ) (t : Text) → any p (c ∷ t) ≡ false → (p c ≡ false) × (any p t ≡ false)
  no_space-cons c t h = (ground arith, ground arith)

  split_at-append :
      (t rest : Text) (c : ℕ)
      → any p t ≡ false
      → p c ≡ true
      → split_at p (t ++ (c ∷ rest)) ≡ t ∷ split_at p rest
  split_at-append [] rest c h q = rw q refl
  split_at-append (x ∷ t) rest c h q =
      let (a, b) = no_space-cons x t h in rw (a, split_at-append t rest c b q) refl

  split_at_whole : (t : Text) → any p t ≡ false → split_at p t ≡ t ∷ []
  split_at_whole [] h = refl
  split_at_whole (x ∷ t) h = let (a, b) = no_space-cons x t h in rw (a, split_at_whole t b) refl

  pieces_free : (s t : Text) → In t (split_at p s) → any p t ≡ false
  pieces_free [] t (inl e) = ap (any p) e
  pieces_free [] t (inr m) = absurd m
  pieces_free (c ∷ s) t m = elim (Bool-cases (p c)) [
    | inl e ↦ elim (rw e at m) [ inl q ↦ ap (any p) q | inr i ↦ pieces_free s t i ]
    | inr e ↦ longer (split_at p s) (pieces_free s) e (rw e at m)
  ]
    where
      longer :
          (rest : List Text)
          → ((u : Text) → In u rest → any p u ≡ false)
          → p c ≡ false
          → In t (cons_head c rest)
          → any p t ≡ false
      longer [] free e (inl q) = ap (any p) q ∙ rw e refl
      longer [] free e (inr i) = absurd i
      longer (u ∷ us) free e (inl q) = ap (any p) q ∙ rw e (free u (inl refl))
      longer (u ∷ us) free e (inr i) = free t (inr i)

pub words-IsField : (s t : Text) → In t (words s) → IsField t
words-IsField s t m =
    let (i, q) = In_of-filter (λ t. not (is_blank t)) t (split_at is_space s) m in
    (pieces_free is_space s t i, ground arith)

-- Five fields joined by spaces are read again.
pub words-join :
    (a b c d e : Text)
    → IsField a
    → IsField b
    → IsField c
    → IsField d
    → IsField e
    → words (join 32 (a ∷ b ∷ c ∷ d ∷ e ∷ [])) ≡ a ∷ b ∷ c ∷ d ∷ e ∷ []
words-join a b c d e (p, p2) (q, q2) (r, r2) (s, s2) (t, t2) =
    ap (filter (λ t. not (is_blank t))) (
      split_at-append is_space a _ 32 p refl
      ∙ ap (λ ts. a ∷ ts)
          (split_at-append is_space b _ 32 q refl
            ∙ ap (λ ts. b ∷ ts)
                (split_at-append is_space c _ 32 r refl
                  ∙ ap (λ ts. c ∷ ts)
                      (split_at-append is_space d _ 32 s refl
                        ∙ ap (λ ts. d ∷ ts) (split_at_whole is_space e t)))))
    ∙ rw (p2, q2, r2, s2, t2) refl
