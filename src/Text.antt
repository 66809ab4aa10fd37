-- ===== src/Text.antt =====
-- Byte strings and the text operations that the protocols use: Python's `bytes`, `str.strip`,
-- `str.isdigit`, `f"{n}"`, `f"{n:04d}"`, `int(s)` and `int.from_bytes(b, "big")`.
-- A text is its list of code points. `bytes.decode(..., errors="ignore")` is the identity here:
-- that is exact on ASCII, which is what the line protocols carry.
pub mod Decimal
pub mod Ends
pub mod Integer
pub mod Span
pub mod Strip
use model_lib.Prelude.{
  ltb, ℕ, ◌≡◌, refl, ◌+◌, ◌*◌, ◌/◌, ◌%◌, Bool, true, false, ◌&&◌, ◌||◌, List, [], ◌∷◌, arith, leb,
  ◌==◌, if◌then◌else◌,
}

abbrev pub Bytes : Type 0
Bytes = List ℕ

-- `str.isspace` of an ASCII character, which is what `str.strip` removes.
unfoldable pub is_space : ℕ → Bool
is_space c = (leb 9 c && leb c 13) || (leb 28 c && leb c 32)

abbrev pub is_digit : ℕ → Bool
is_digit c = leb 48 c && leb c 57

unfoldable pub lstrip : Bytes → Bytes
unfolding is_space
lstrip [] = []
lstrip (c ∷ cs) = let rest = lstrip cs in if is_space c then rest else c ∷ cs

-- Without the white space at the end.
unfoldable pub rstrip : Bytes → Bytes
unfolding is_space
rstrip [] = []
rstrip (c ∷ cs) = elim (rstrip cs) [ [] ↦ if is_space c then [] else c ∷ [] | d ∷ ds ↦ c ∷ d ∷ ds ]

abbrev pub strip : Bytes → Bytes
strip cs = rstrip (lstrip cs)

-- Two bytes, most significant first.
abbrev pub from_be16 : ℕ → ℕ → ℕ
from_be16 hi lo = hi * 256 + lo

abbrev pub hi_byte : ℕ → ℕ
hi_byte n = n / 256

abbrev pub lo_byte : ℕ → ℕ
lo_byte n = n % 256

-- `encode("ascii")` does not raise.
unfoldable pub is_ascii : Bytes → Bool
is_ascii [] = true
is_ascii (c ∷ cs) = ltb c 128 && is_ascii cs

unfoldable pub bytes_eq : Bytes → Bytes → Bool
bytes_eq [] [] = true
bytes_eq (a ∷ as') (b ∷ bs) = a == b && bytes_eq as' bs
bytes_eq _ _ = false

-- The characters that satisfy a test, in order.
unfoldable pub keep : (ℕ → Bool) → Bytes → Bytes
keep p [] = []
keep p (c ∷ cs) = let rest = keep p cs in if p c then c ∷ rest else rest

-- `s.endswith(c)`, and `s[:-1]`.
unfoldable pub ends_with : ℕ → Bytes → Bool
ends_with c [] = false
ends_with c (x ∷ []) = x == c
ends_with c (x ∷ y ∷ ys) = ends_with c (y ∷ ys)

unfoldable pub drop_last : Bytes → Bytes
drop_last [] = []
drop_last (x ∷ []) = []
drop_last (x ∷ y ∷ ys) = x ∷ drop_last (y ∷ ys)
