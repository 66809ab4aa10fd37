-- ===== src/System/Commands.antt =====
-- How `arm_command_callback` of 队列管理/src/main.py reads a command.
use model_lib.Prelude.{ℕ, [], ◌∷◌, map, Option, none, some, ◌==◌, if◌then◌else◌}
use model_lib.Text.{Bytes, is_space, strip, bytes_eq}
use model_lib.Text.Span.{span}
use model_lib.Text.Decimal.{read_decimal}
use model_lib.Parser.Counts.{lower_char}
use model_lib.Arms.Commands.{data_word, match_separated}

pub data ArmCommand : Type 0 where
  data_request ignored : ArmCommand
  completion : Option ℕ → ArmCommand

-- The digits have to be the end of the text.
unfoldable pub counted_to_end : Bytes × Bytes × Bytes → ArmCommand
counted_to_end (separator, digits, []) = completion (read_decimal digits)
counted_to_end (separator, digits, c ∷ cs) = ignored

-- `(?:\s*[,:\s]\s*(\d+))?$`
unfoldable pub parse_count : Bytes → ArmCommand
unfolding match_separated span counted_to_end
parse_count [] = completion none
parse_count (c ∷ cs) = elim (match_separated (span is_space (c ∷ cs))) [
  | none ↦ ignored
  | some m ↦ counted_to_end m
]

-- `^1(?:\s*[,:\s]\s*(\d+))?$`
unfoldable pub parse_completion : Bytes → ArmCommand
unfolding parse_count
parse_completion [] = ignored
parse_completion (c ∷ cs) = if c == b'1' then parse_count cs else ignored

unfoldable pub parse_arm_command : Bytes → ArmCommand
unfolding parse_completion bytes_eq
parse_arm_command command =
    let cmd = map lower_char (strip command) in
    if bytes_eq cmd data_word then data_request else parse_completion cmd
