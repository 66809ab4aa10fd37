-- ===== src/Arms/Commands.antt =====
-- The commands in a text from an arm: `SimpleArmController._extract_commands`, with the matching of
-- its pattern `data|1(?:\s*[,:\s]\s*\d+)?` (upper and lower case) written out.
use model_lib.Prelude.{
  ℕ, zero, suc, Bool, false, ◌&&◌, ◌||◌, List, [], ◌∷◌, ◌++◌, map, Option, none, some, ◌==◌,
  if◌then◌else◌, length,
}
use model_lib.Text.{Bytes, is_space, is_digit, strip, bytes_eq}
use model_lib.Parser.Counts.{lower_char}
use model_lib.Text.Span.{span}

-- `\d+` after a separator: the separator, the digits and what follows them.
unfoldable pub with_digits : Bytes → Bytes × Bytes → Option (Bytes × Bytes × Bytes)
with_digits separator ([], rest) = none
with_digits separator (d ∷ ds, rest) = some (separator, d ∷ ds, rest)

unfoldable pub match_digits : Bytes → Bytes → Option (Bytes × Bytes × Bytes)
unfolding span with_digits
match_digits separator text = with_digits separator (span is_digit text)

-- The white space is the separator.
unfoldable pub match_blank : Bytes → Bytes → Option (Bytes × Bytes × Bytes)
unfolding match_digits
match_blank [] text = none
match_blank (s ∷ ss) text = match_digits (s ∷ ss) text

abbrev pub is_mark : ℕ → Bool
is_mark c = c == b',' || c == b':'

-- `\s*[,:\s]\s*\d+` after the white space in front: after a comma or a colon there may be more of
-- it; without one of them the white space is the separator.
unfoldable pub match_separated : Bytes × Bytes → Option (Bytes × Bytes × Bytes)
unfolding span match_digits match_blank
match_separated (spaces, []) = none
match_separated (spaces, c ∷ cs) =
    let (more, rest) = span is_space cs in
    let marked = match_digits (spaces ++ c ∷ more) rest in
    if is_mark c then marked else match_blank spaces (c ∷ cs)

-- The optional count after a 1.
unfoldable pub match_count : Bytes → Bytes × Bytes
unfolding span match_separated
match_count text = elim (match_separated (span is_space text)) [
  | none ↦ ([], text)
  | some m ↦ (m.0 ++ m.1, m.2)
]

abbrev pub is_letter : ℕ → ℕ → Bool
is_letter l c = lower_char c == l

-- `data`
unfoldable pub match_data : Bytes → Option (Bytes × Bytes)
match_data (c0 ∷ c1 ∷ c2 ∷ c3 ∷ rest) =
    if (is_letter b'd' c0 && is_letter b'a' c1) && (is_letter b't' c2 && is_letter b'a' c3)
    then some (c0 ∷ c1 ∷ c2 ∷ c3 ∷ [], rest)
    else none
match_data _ = none

-- A match at the start of a text, and what follows it.
unfoldable pub match_command : Bytes → Option (Bytes × Bytes)
unfolding match_count match_data
match_command [] = none
match_command (c ∷ cs) =
    if c == b'1' then some (c ∷ (match_count cs).0, (match_count cs).1) else match_data (c ∷ cs)

-- `pattern.finditer(text)`, by fuel.
unfoldable pub find_commands : ℕ → Bytes → List Bytes
unfolding match_command
find_commands zero text = []
find_commands (suc n) [] = []
find_commands (suc n) (c ∷ cs) = elim (match_command (c ∷ cs)) [
  | none ↦ find_commands n cs
  | some m ↦ m.0 ∷ find_commands n m.1
]

abbrev pub data_word : Bytes
data_word = b'd' ∷ b'a' ∷ b't' ∷ b'a' ∷ []

-- `cmd.lower() == "data"`
unfoldable pub is_data : Bytes → Bool
unfolding bytes_eq
is_data cmd = bytes_eq (map lower_char cmd) data_word

-- The second loop, with `pending_data`: a request goes where one is open already. After a command a
-- request is open exactly where the command is one.
unfoldable pub drop_repeats : Bool → List Bytes → List Bytes
unfolding is_data
drop_repeats pending [] = []
drop_repeats pending (cmd ∷ cmds) =
    let rest = drop_repeats (is_data cmd) cmds in
    if is_data cmd && pending then rest else cmd ∷ rest

unfoldable pub extract_commands : Bytes → List Bytes
unfolding find_commands drop_repeats
extract_commands raw_text =
    let text = strip raw_text in drop_repeats false (find_commands (length text) text)
