-- ===== src/Text/Decimal.antt =====
-- Decimal texts of natural numbers, printed and read back.
use model_lib.Prelude.{
  ℕ, zero, suc, ◌≡◌, refl, ◌∙◌, ◌+◌, ◌-◌, ◌*◌, ◌/◌, ◌%◌, ◌<◌, ◌≤◌, ◌&&◌, List, [], ◌∷◌, ◌++◌,
  Option, none, some, arith, leb, ltb, if◌then◌else◌, All, All-append, Bool-cases, inl, inr, length,
  length-append,
}

-- The decimal digits of `n`, by fuel above `n`.
unfoldable pub digits_fuel : ℕ → ℕ → List ℕ
digits_fuel zero n = []
digits_fuel (suc f) n =
    let rest = digits_fuel f (n / 10) in
    if ltb n 10 then (48 + n) ∷ [] else rest ++ (48 + n % 10) ∷ []

-- `str(n)`.
unfoldable pub decimal : ℕ → List ℕ
unfolding digits_fuel
decimal n = digits_fuel (suc n) n

-- `f"{n:04d}"` of a number below 10000.
unfoldable pub decimal4 : ℕ → List ℕ
decimal4 n = (48 + n / 1000 % 10) ∷ (48 + n / 100 % 10) ∷ (48 + n / 10 % 10) ∷ (48 + n % 10) ∷ []

-- `int(s)` of a text of digits: the value so far is the accumulator, and `none` stands for the
-- `ValueError` at a character that is no digit.
unfoldable pub read_from : ℕ → List ℕ → Option ℕ
read_from acc [] = some acc
read_from acc (c ∷ cs) =
    let rest = read_from (acc * 10 + (c - 48)) cs in if leb 48 c && leb c 57 then rest else none

unfoldable pub read_decimal : List ℕ → Option ℕ
unfolding read_from
read_decimal [] = none
read_decimal (c ∷ cs) = read_from 0 (c ∷ cs)

abbrev pub IsDigit : ℕ → Type 0
IsDigit c = (48 ≤ c) × (c ≤ 57)

digits_fuel-IsDigit : (f n : ℕ) → All IsDigit (digits_fuel f n)
unfolding digits_fuel
digits_fuel-IsDigit zero n = tt
digits_fuel-IsDigit (suc f) n = elim (Bool-cases (ltb n 10)) [
  | inl small ↦ rw small (ground arith, tt)
  | inr large ↦ rw large (
      All-append IsDigit (digits_fuel f (n / 10)) _ (digits_fuel-IsDigit f (n / 10))
        (omega arith, tt))
]

pub decimal-IsDigit : (n : ℕ) → All IsDigit (decimal n)
unfolding decimal
decimal-IsDigit n = digits_fuel-IsDigit (suc n) n

read_from-append :
    (acc c : ℕ) (xs : List ℕ) (v : ℕ)
    → read_from acc xs ≡ some v
    → IsDigit c
    → read_from acc (xs ++ c ∷ []) ≡ some (v * 10 + (c - 48))
unfolding read_from
read_from-append acc c [] v h d = ground arith
read_from-append acc c (x ∷ xs) v h d =
    ground (arith, read_from-append (acc * 10 + (x - 48)) c xs v)

read_from-digits : (f n : ℕ) → n < f → read_from 0 (digits_fuel f n) ≡ some n
unfolding digits_fuel read_from
read_from-digits zero n h = absurd (omega arith)
read_from-digits (suc f) n h = ground (
  arith,
  read_from-digits f (n / 10),
  read_from-append 0 (48 + n % 10) (digits_fuel f (n / 10)) (n / 10),
)

read_decimal-read_from : (xs : List ℕ) (v : ℕ) → 0 < length xs → read_decimal xs ≡ read_from 0 xs
unfolding read_decimal
read_decimal-read_from [] v h = absurd (omega arith)
read_decimal-read_from (x ∷ xs) v h = refl

length-decimal : (n : ℕ) → 0 < length (decimal n)
unfolding decimal
length-decimal n = ground (arith, length-append {0} (digits_fuel n (n / 10)) ((48 + n % 10) ∷ []))

-- What `f"{n}"` prints, `int` reads back.
pub read_decimal-decimal : (n : ℕ) → read_decimal (decimal n) ≡ some n
unfolding decimal
read_decimal-decimal n =
    read_decimal-read_from (decimal n) n (length-decimal n)
    ∙ read_from-digits (suc n) n (omega arith)
