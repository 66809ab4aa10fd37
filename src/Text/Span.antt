-- ===== src/Text/Span.antt =====
-- The characters at the start of a text that satisfy a test, which is how `\s*` and `\d+` match.
use model_lib.Prelude.{
  ℕ, ◌≡◌, refl, ap, Bool, true, false, [], ◌∷◌, ◌++◌, if◌then◌else◌, All, Bool-cases, inl, inr,
}
use model_lib.Text.{Bytes}

module _ (p : ℕ → Bool) where
  unfoldable pub span : Bytes → Bytes × Bytes
  span [] = ([], [])
  span (c ∷ cs) = let rest = span cs in if p c then (c ∷ rest.0, rest.1) else ([], c ∷ cs)

  -- A text that does not start with such a character.
  abbrev pub starts : Bytes → Bool
  starts [] = false
  starts (c ∷ cs) = p c

  abbrev pub Satisfies : Bytes → Type 0
  Satisfies = All (λ c. p c ≡ true)

  pub span-append : (xs ys : Bytes) → Satisfies xs → starts ys ≡ false → span (xs ++ ys) ≡ (xs, ys)
  unfolding span
  span-append [] [] h s = refl
  span-append [] (y ∷ ys) h s = rw s refl
  span-append (x ∷ xs) ys h s = rw (h.0, span-append xs ys h.1 s) refl

  pub span_sound :
      (text : Bytes)
      → (text ≡ (span text).0 ++ (span text).1)
        × Satisfies (span text).0
        × (starts (span text).1 ≡ false)
  unfolding span
  span_sound [] = (refl, tt, refl)
  span_sound (c ∷ cs) = elim (Bool-cases (p c)) [
    | inl yes' ↦
        let (same, all, stop) = span_sound cs in rw yes' (ap (◌∷◌ c) same, (yes', all), stop)
    | inr no' ↦ rw no' (refl, tt, no')
  ]
