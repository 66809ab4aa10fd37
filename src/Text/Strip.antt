-- ===== src/Text/Strip.antt =====
-- `bytes.strip(chars)`: what goes at both ends and what stays.
use model_lib.Prelude.{
  ℕ, ◌≡◌, refl, sym, ap, ◌∙◌, Bool, false, [], ◌∷◌, ◌++◌, if◌then◌else◌, All, Bool-cases, inl, inr,
}
use mathlib.Core.List.{append-nil}
use model_lib.Text.{Bytes}
use model_lib.Text.Span.{span, Satisfies, span-append, span_sound}

module _ (p : ℕ → Bool) where
  -- A character at the end goes where nothing is left after it.
  unfoldable pub rstrip_cons : ℕ → Bytes → Bytes
  rstrip_cons c [] = if p c then [] else c ∷ []
  rstrip_cons c (d ∷ ds) = c ∷ d ∷ ds

  unfoldable pub rstrip_by : Bytes → Bytes
  unfolding rstrip_cons
  rstrip_by [] = []
  rstrip_by (c ∷ cs) = rstrip_cons c (rstrip_by cs)

  unfoldable pub strip_by : Bytes → Bytes
  unfolding span rstrip_by
  strip_by text = rstrip_by (span p text).1

  rstrip_cons_sound :
      (c : ℕ) (kept gone : Bytes)
      → Satisfies p gone
      → (rest : Bytes) × (c ∷ (kept ++ gone) ≡ rstrip_cons c kept ++ rest) × Satisfies p rest
  unfolding rstrip_cons
  rstrip_cons_sound c (d ∷ ds) gone h = (gone, refl, h)
  rstrip_cons_sound c [] gone h = elim (Bool-cases (p c)) [
    | inl yes' ↦ rw yes' (c ∷ gone, refl, (yes', h))
    | inr no' ↦ rw no' (gone, refl, h)
  ]

  rstrip_by_sound :
      (text : Bytes) → (gone : Bytes) × (text ≡ rstrip_by text ++ gone) × Satisfies p gone
  unfolding rstrip_by
  rstrip_by_sound [] = ([], refl, tt)
  rstrip_by_sound (c ∷ cs) =
      let (gone, same, h) = rstrip_by_sound cs in
      let (rest, whole, k) = rstrip_cons_sound c (rstrip_by cs) gone h in
      (rest, ap (◌∷◌ c) same ∙ whole, k)

  -- A text is what stays, with stripped characters around it.
  pub strip_by_sound :
      (text : Bytes)
      → (before after : Bytes) × (text ≡ before ++ (strip_by text ++ after))
        × Satisfies p before
        × Satisfies p after
  unfolding strip_by
  strip_by_sound text =
      let (same, h, _) = span_sound p text in
      let (gone, rest, k) = rstrip_by_sound (span p text).1 in
      ((span p text).0, gone, same ∙ ap (λ t. (span p text).0 ++ t) rest, h, k)

  rstrip_by-all : (text : Bytes) → Satisfies p text → rstrip_by text ≡ []
  unfolding rstrip_by rstrip_cons
  rstrip_by-all [] h = refl
  rstrip_by-all (c ∷ cs) h = rw (rstrip_by-all cs h.1, h.0) refl

  pub strip_by-all : (text : Bytes) → Satisfies p text → strip_by text ≡ []
  unfolding strip_by
  strip_by-all text h =
      ap (λ t. rstrip_by (span p t).1) (sym (append-nil text))
      ∙ ap (λ r. rstrip_by r.1) (span-append p text [] h refl)

  pub strip_by-one :
      (before : Bytes) (c : ℕ) (after : Bytes)
      → Satisfies p before
      → p c ≡ false
      → Satisfies p after
      → strip_by (before ++ c ∷ after) ≡ c ∷ []
  unfolding strip_by rstrip_by rstrip_cons
  strip_by-one before c after h k l =
      ap (λ r. rstrip_by r.1) (span-append p before (c ∷ after) h k)
      ∙ rw (rstrip_by-all after l, k) refl

  rstrip_by-none : (text : Bytes) → All (λ c. p c ≡ false) text → rstrip_by text ≡ text
  unfolding rstrip_by rstrip_cons
  rstrip_by-none [] h = refl
  rstrip_by-none (c ∷ []) h = rw h.0 refl
  rstrip_by-none (c ∷ d ∷ ds) h = rw (rstrip_by-none (d ∷ ds) h.1) refl

  pub strip_by-none : (text : Bytes) → All (λ c. p c ≡ false) text → strip_by text ≡ text
  unfolding strip_by
  strip_by-none [] h = unfold span rstrip_by in refl
  strip_by-none (c ∷ cs) h =
      ap (λ r. rstrip_by r.1) (span-append p [] (c ∷ cs) tt h.0) ∙ rstrip_by-none (c ∷ cs) h
