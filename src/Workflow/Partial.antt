-- ===== src/Workflow/Partial.antt =====
-- A row of the 2D camera whose first bytes arrive alone.
use model_lib.Prelude.{
  ℕ, ◌≡◌, ◌≤◌, refl, ap, ◌∙◌, Bool, true, false, ◌||◌, [], ◌∷◌, none, some, ltb, length, arith, All,
}
use model_lib.Text.{Bytes, is_digit, is_space}
use model_lib.Text.Ends.{strip-printed}
use model_lib.Text.Span.{Satisfies, span-append}
use model_lib.Text.Strip.{strip_by-none}
use model_lib.Text.Integer.{split_on, cons_first}
use model_lib.Workflow.Camera2d.{is_ready_line}
use model_lib.Workflow.Frames.{
  is_line_blank, is_byte_space, find_end, find_line, pop_candidate, pop_stripped, pop_2d_frame,
  looks_like_2d_line, looks_like_2d_text, first_is_number, is_number, all_digits,
}

-- Digits only.
abbrev pub AreDigits : Bytes → Type 0
AreDigits = Satisfies is_digit

map-digits :
    (p : ℕ → Bool)
    → ((d : ℕ) → is_digit d ≡ true → p d ≡ false)
    → (ds : Bytes) → AreDigits ds
    → All (λ c. p c ≡ false) ds
map-digits p f [] h = tt
map-digits p f (d ∷ ds) h = (f d h.0, map-digits p f ds h.1)

digit-space : (d : ℕ) → is_digit d ≡ true → is_space d ≡ false
unfolding is_space
digit-space d h = ground arith

digit-byte_space : (d : ℕ) → is_digit d ≡ true → is_byte_space d ≡ false
unfolding is_byte_space
digit-byte_space d h = ground arith

digit-line_blank : (d : ℕ) → is_digit d ≡ true → is_line_blank d ≡ false
unfolding is_line_blank
digit-line_blank d h = ground arith

find_end-digits : (ds : Bytes) → AreDigits ds → find_end ds ≡ none
unfolding find_end
find_end-digits [] h = refl
find_end-digits (c ∷ []) h = refl
find_end-digits (c ∷ d ∷ ds) h = ground (arith, find_end-digits (d ∷ ds) h.1, h.0)

find_line-digits : (ds : Bytes) → AreDigits ds → find_line ds ≡ none
unfolding find_line
find_line-digits [] h = refl
find_line-digits (c ∷ cs) h = ground (arith, find_line-digits cs h.1, h.0)

split_on-digits : (ds : Bytes) → AreDigits ds → split_on b',' ds ≡ ds ∷ []
unfolding split_on cons_first
split_on-digits [] h = refl
split_on-digits (c ∷ cs) h = rw (split_on-digits cs h.1) (ground (arith, h.0))

all_digits-digits : (ds : Bytes) → AreDigits ds → all_digits ds ≡ true
unfolding all_digits
all_digits-digits [] h = refl
all_digits-digits (c ∷ cs) h = ground (arith, all_digits-digits cs h.1, h.0)

first_is_number-digits :
    (d : ℕ) (ds : Bytes) → AreDigits (d ∷ ds) → first_is_number (split_on b',' (d ∷ ds)) ≡ true
unfolding first_is_number is_number
first_is_number-digits d ds h =
    ap first_is_number (split_on-digits (d ∷ ds) h)
    ∙ ap is_number (strip-printed d ds (map-digits is_space digit-space (d ∷ ds) h))
    ∙ all_digits-digits (d ∷ ds) h

or_right : (b c : Bool) → c ≡ true → (b || c) ≡ true
or_right b c h = ground arith

looks_like_2d_line-digits :
    (d : ℕ) (ds : Bytes)
    → AreDigits (d ∷ ds)
    → length (d ∷ ds) ≤ 128
    → looks_like_2d_line (d ∷ ds) ≡ true
unfolding looks_like_2d_line looks_like_2d_text
looks_like_2d_line-digits d ds h short =
    ap looks_like_2d_text (strip-printed d ds (map-digits is_space digit-space (d ∷ ds) h))
    ∙ rw (the_length d ds short)
        (or_right (is_ready_line (d ∷ ds)) _ (first_is_number-digits d ds h))
  where
    the_length : (d : ℕ) (ds : Bytes) → length (d ∷ ds) ≤ 128 → ltb 128 (length (d ∷ ds)) ≡ false
    the_length d ds l = ground (arith, l)

pop_candidate-digits :
    (d : ℕ) (ds : Bytes)
    → AreDigits (d ∷ ds)
    → length (d ∷ ds) ≤ 128
    → pop_candidate (d ∷ ds) ≡ (some (d ∷ ds), [])
unfolding pop_candidate
pop_candidate-digits d ds h short =
    rw
      (
        strip_by-none is_byte_space (d ∷ ds) (map-digits is_byte_space digit-byte_space (d ∷ ds) h),
        looks_like_2d_line-digits d ds h short,
      )
      refl

-- Where the buffer holds digits only, up to 128 of them, they are taken as a frame at once: the first
-- digits of a row that arrive before the rest are not kept for it.
pub pop_2d_frame-digits :
    (d : ℕ) (ds : Bytes)
    → AreDigits (d ∷ ds)
    → length (d ∷ ds) ≤ 128
    → pop_2d_frame (d ∷ ds) ≡ (some (d ∷ ds), [])
unfolding pop_2d_frame pop_stripped
pop_2d_frame-digits d ds h short =
    ap (λ r. pop_stripped r.1) (span-append is_line_blank [] (d ∷ ds) tt (digit-line_blank d h.0))
    ∙ rw (find_end-digits (d ∷ ds) h, find_line-digits (d ∷ ds) h, pop_stripped)
        (pop_candidate-digits d ds h short)
