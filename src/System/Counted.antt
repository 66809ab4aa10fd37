-- ===== src/System/Counted.antt =====
-- A completion with a count, from the text of the arm to the number in the main program.
use model_lib.Prelude.{
  ℕ, zero, suc, ◌≡◌, refl, sym, ap, ◌∙◌, [], ◌∷◌, ◌++◌, some, length, All, arith,
}
use mathlib.Core.List.{append-nil}
use model_lib.Text.{Bytes, is_space, is_digit, strip, bytes_eq}
use model_lib.Text.Ends.{IsBlank}
use model_lib.Text.Span.{span, Satisfies}
use model_lib.Text.Decimal.{decimal, read_decimal, IsDigit, decimal-IsDigit, read_decimal-decimal}
use model_lib.Arms.Separators.{IsSeparator, match_separated_complete}
use model_lib.Arms.Commands.{
  match_separated, match_count, find_commands, is_data, drop_repeats, extract_commands,
}
use model_lib.System.Commands.{completion, parse_arm_command}
use model_lib.System.Understood.{counted, strip-counted, parse_arm_command-counted}

match_count-counted :
    (sep : Bytes) (d : ℕ) (ds : Bytes)
    → IsSeparator sep
    → Satisfies is_digit (d ∷ ds)
    → match_count (sep ++ d ∷ ds) ≡ (sep ++ d ∷ ds, [])
unfolding match_count
match_count-counted sep d ds s h =
    rw
      (
        ap (λ t. match_separated (span is_space (sep ++ t))) (sym (append-nil (d ∷ ds)))
            ∙ match_separated_complete sep d ds [] s h refl,
        match_count,
      )
      refl

find_commands-empty : (n : ℕ) → find_commands n [] ≡ []
unfolding find_commands
find_commands-empty zero = refl
find_commands-empty (suc n) = refl

extract_commands-single :
    (raw_text rest : Bytes)
    → strip raw_text ≡ b'1' ∷ rest
    → match_count rest ≡ (rest, [])
    → extract_commands raw_text ≡ (b'1' ∷ rest) ∷ []
unfolding extract_commands find_commands drop_repeats is_data bytes_eq
extract_commands-single raw_text rest e m =
    rw (e, m, extract_commands, find_commands, find_commands-empty (length rest)) refl

digits-Satisfies : (ds : Bytes) → All IsDigit ds → Satisfies is_digit ds
digits-Satisfies [] h = tt
digits-Satisfies (d ∷ ds) h = (ground (arith, h.0), digits-Satisfies ds h.1)

counted-number :
    (digits sep blanks : Bytes) (n : ℕ)
    → IsSeparator sep
    → Satisfies is_digit digits
    → IsBlank blanks
    → read_decimal digits ≡ some n
    → (extract_commands (counted sep digits ++ blanks) ≡ counted sep digits ∷ [])
      × (parse_arm_command (counted sep digits) ≡ completion (some n))
unfolding read_decimal
counted-number [] sep blanks n s h b r = absurd (ground (arith, r))
counted-number (d ∷ ds) sep blanks n s h b r = (
  extract_commands-single (counted sep (d ∷ ds) ++ blanks) (sep ++ d ∷ ds)
      (strip-counted sep d ds blanks h b) (match_count-counted sep d ds s h),
  parse_arm_command-counted sep d ds s h ∙ ap completion r,
)

-- A 1, a separator and a printed number, with any white space after them, is taken as one command,
-- and the main program reads it as a completion with that number. A separator is white space, or a
-- comma or colon with white space around it: so a 1 in the next line counts as the number of the
-- first.
pub extract_commands-decimal :
    (n : ℕ) (sep blanks : Bytes)
    → IsSeparator sep
    → IsBlank blanks
    → (extract_commands (counted sep (decimal n) ++ blanks) ≡ counted sep (decimal n) ∷ [])
      × (parse_arm_command (counted sep (decimal n)) ≡ completion (some n))
extract_commands-decimal n sep blanks s b =
    counted-number (decimal n) sep blanks n s (digits-Satisfies (decimal n) (decimal-IsDigit n)) b
      (read_decimal-decimal n)
