-- ===== src/Text/Integer.antt =====
-- Python's `int(text)` and `text.split(c)`, on ASCII.
use model_lib.Prelude.{
  ℕ, zero, suc, ◌+◌, ◌-◌, ◌*◌, Bool, true, false, ◌&&◌, List, [], ◌∷◌, Option, none, some, ◌==◌,
  if◌then◌else◌,
}
use model_lib.Text.{Bytes, is_digit, strip}

-- An `int`.
pub data ℤ : Type 0 where
  pos negsuc : ℕ → ℤ

-- The digits after a first one: one underscore may stand between two digits.
unfoldable pub digits_value : ℕ → Bool → Bytes → Option ℕ
digits_value acc true [] = some acc
digits_value acc false [] = none
digits_value acc after_digit (c ∷ cs) =
    let digit = digits_value (acc * 10 + (c - 48)) true cs in
    let underscore = digits_value acc false cs in
    if is_digit c then digit else if c == b'_' && after_digit then underscore else none

unfoldable pub negate : ℕ → ℤ
negate zero = pos 0
negate (suc n) = negsuc n

unfoldable pub signed : Bytes → Option ℤ
unfolding digits_value negate
signed [] = none
signed (c ∷ cs) =
    if c == b'-'
    then elim (digits_value 0 false cs) [ none ↦ none | some n ↦ some (negate n) ]
    else elim (digits_value 0 false (if c == b'+' then cs else c ∷ cs)) [
      | none ↦ none
      | some n ↦ some (pos n)
    ]

-- `none` stands for the `ValueError`.
unfoldable pub int_of_text : Bytes → Option ℤ
unfolding signed
int_of_text text = signed (strip text)

-- One more character in front of the first piece.
unfoldable pub cons_first : ℕ → List Bytes → List Bytes
cons_first c [] = (c ∷ []) ∷ []
cons_first c (piece ∷ pieces) = (c ∷ piece) ∷ pieces

unfoldable pub split_on : ℕ → Bytes → List Bytes
unfolding cons_first
split_on separator [] = [] ∷ []
split_on separator (c ∷ cs) =
    let rest = split_on separator cs in if c == separator then [] ∷ rest else cons_first c rest
