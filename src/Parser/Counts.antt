-- ===== src/Parser/Counts.antt =====
-- The camera count of a payload: `extract_camera_count_from_payload` and what it uses.
use model_lib.Prelude.{
  ℕ, ◌+◌, ◌-◌, ◌*◌, Bool, true, false, ◌&&◌, ◌||◌, List, [], ◌∷◌, map, Option, none, some, leb,
  ◌==◌, if◌then◌else◌, length,
}
use model_lib.Text.{Bytes, is_digit, lstrip, strip, bytes_eq, from_be16}
use model_lib.Text.Decimal.{read_decimal}
use model_lib.Queue.History.{Outcome, returned, value_error}

abbrev pub Extractor : Type 0
Extractor = Bytes → Option ℕ

unfoldable pub extract_camera_count_binary : Bytes → Option ℕ
extract_camera_count_binary (a ∷ b ∷ c ∷ d ∷ rest) = some (from_be16 c d)
extract_camera_count_binary _ = none

-- `\w` and the case of letters, on ASCII.
abbrev pub is_word : ℕ → Bool
is_word c = is_digit c || ((leb 65 c && leb c 90) || ((leb 97 c && leb c 122) || c == 95))

abbrev pub upper_char : ℕ → ℕ
upper_char c = if leb 97 c && leb c 122 then c - 32 else c

abbrev pub lower_char : ℕ → ℕ
lower_char c = if leb 65 c && leb c 90 then c + 32 else c

-- The text after a keyword, whatever the case of its letters.
unfoldable pub after_word : Bytes → Bytes → Option Bytes
after_word [] text = some text
after_word (k ∷ ks) [] = none
after_word (k ∷ ks) (c ∷ cs) =
    let rest = after_word ks cs in if upper_char c == k then rest else none

-- The digits in front, and what follows them.
unfoldable pub span_digits : Bytes → Bytes × Bytes
span_digits [] = ([], [])
span_digits (c ∷ cs) =
    let rest = span_digits cs in if is_digit c then (c ∷ rest.0, rest.1) else ([], c ∷ cs)

-- `\b` between a digit and a text.
unfoldable pub is_boundary : Bytes → Bool
is_boundary [] = true
is_boundary (c ∷ cs) = if is_word c then false else true

unfoldable pub bounded_number : Bytes × Bytes → Option ℕ
unfolding is_boundary
bounded_number (digits, rest) = if is_boundary rest then read_decimal digits else none

-- `\s*[:=]\s*(\d+)\b`
unfoldable pub after_separator : Bytes → Option ℕ
unfolding bounded_number span_digits lstrip
after_separator [] = none
after_separator (c ∷ cs) =
    if c == b':' || c == b'=' then bounded_number (span_digits (lstrip cs)) else none

abbrev pub count_word : Bytes
count_word = b'C' ∷ b'O' ∷ b'U' ∷ b'N' ∷ b'T' ∷ []

abbrev pub cnt_word : Bytes
cnt_word = b'C' ∷ b'N' ∷ b'T' ∷ []

-- The expression at this place. `COUNT` and `CNT` never match at the same place.
unfoldable pub match_here : Bytes → Option ℕ
unfolding after_word after_separator lstrip
match_here text = elim (after_word count_word text) [
  | some rest ↦ after_separator (lstrip rest)
  | none ↦ elim (after_word cnt_word text) [
    | some rest ↦ after_separator (lstrip rest)
    | none ↦ none
  ]
]

-- `re.search`, with whether a word character stands before.
unfoldable pub search_count : Bool → Bytes → Option ℕ
unfolding match_here
search_count after_word_char [] = none
search_count after_word_char (c ∷ cs) =
    let rest = search_count (is_word c) cs in
    if after_word_char then rest else elim (match_here (c ∷ cs)) [ some n ↦ some n | none ↦ rest ]

unfoldable pub extract_camera_count_ascii : Bytes → Option ℕ
unfolding search_count
extract_camera_count_ascii payload = search_count false payload

unfoldable pub count_printable : Bytes → ℕ
count_printable [] = 0
count_printable (b ∷ bs) =
    (if (leb 32 b && leb b 126) || (b == 9 || (b == 10 || b == 13)) then 1 else 0)
    + count_printable bs

-- A share of at least 0.85, without division.
unfoldable pub is_mostly_printable_text : Bytes → Bool
unfolding count_printable
is_mostly_printable_text [] = false
is_mostly_printable_text (b ∷ bs) = leb (17 * length (b ∷ bs)) (20 * count_printable (b ∷ bs))

-- The mode `auto`.
unfoldable pub automatic_count : Extractor
unfolding extract_camera_count_ascii is_mostly_printable_text extract_camera_count_binary
automatic_count payload = elim (extract_camera_count_ascii payload) [
  | some n ↦ some n
  | none ↦ if is_mostly_printable_text payload then none else extract_camera_count_binary payload
]

-- `camera_count_extractors`, by the text of the mode.
unfoldable pub find_extractor : Bytes → List (Bytes × Extractor) → Option Extractor
unfolding bytes_eq
find_extractor mode [] = none
find_extractor mode ((name, extractor) ∷ rest) =
    if bytes_eq name mode then some extractor else find_extractor mode rest

-- `str(mode).strip().lower()`
abbrev pub mode_key : Bytes → Bytes
mode_key mode = map lower_char (strip mode)

abbrev pub auto_mode : Bytes
auto_mode = b'a' ∷ b'u' ∷ b't' ∷ b'o' ∷ []

abbrev pub disabled_mode : Bytes
disabled_mode = b'd' ∷ b'i' ∷ b's' ∷ b'a' ∷ b'b' ∷ b'l' ∷ b'e' ∷ b'd' ∷ []

unfoldable pub extract_by_mode : List (Bytes × Extractor) → Bytes → Extractor
unfolding find_extractor automatic_count
extract_by_mode extractors key payload =
    if bytes_eq key disabled_mode
    then none
    else if bytes_eq key auto_mode || bytes_eq key []
    then automatic_count payload
    else (elim (find_extractor key extractors) [
      | some extractor ↦ extractor payload
      | none ↦ automatic_count payload
    ])

unfoldable pub extract_camera_count_from_payload : List (Bytes × Extractor) → Bytes → Extractor
unfolding extract_by_mode
extract_camera_count_from_payload extractors mode [] = none
extract_camera_count_from_payload extractors mode (b ∷ bs) =
    extract_by_mode extractors (mode_key mode) (b ∷ bs)

-- `camera_count_extractors[key] = extractor`
unfoldable pub put_extractor :
    Bytes → Extractor → List (Bytes × Extractor) → List (Bytes × Extractor)
put_extractor key extractor [] = (key, extractor) ∷ []
put_extractor key extractor ((name, old) ∷ rest) =
    let later = put_extractor key extractor rest in
    if bytes_eq name key then (name, extractor) ∷ rest else (name, old) ∷ later

unfoldable pub register_camera_count_extractor :
    Bytes → Extractor → List (Bytes × Extractor) → Outcome (List (Bytes × Extractor))
unfolding put_extractor
register_camera_count_extractor mode extractor extractors = elim (mode_key mode) [
  | [] ↦ value_error
  | c ∷ cs ↦ returned (put_extractor (c ∷ cs) extractor extractors)
]
