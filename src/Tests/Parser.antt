-- ===== src/Tests/Parser.antt =====
-- The parser on small messages. The floats here are numbers below 256, in the last byte.
use model_lib.Prelude.{
  ltb, ◌*◌, ◌/◌, if◌then◌else◌, arith, ℕ, ◌≡◌, ◌⊎◌, ◌↔◌, ◌<◌, refl, ◌++◌, true, false, [], ◌∷◌,
  none, some, length,
}
use model_lib.Dict
use model_lib.Text.{is_ascii, Bytes}
use model_lib.Text.Integer.{pos}
use model_lib.Queue.History.{returned, value_error}
use model_lib.Parser.{
  arm, validate_data_format, command_count_pointer, command_pointer_count, other_order,
  parse_plc_enqueue_data, ParsedPlcEnqueueData, detect_pointer_changes,
}
use model_lib.Parser.Arm.{
  FloatOps, ProcessedArmData, fits, pack_points, pack_arm_data, unpack_arm_data,
}
use model_lib.Text.Decimal.{decimal}
use model_lib.Parser.Counts.{automatic_count, count_word, cnt_word, is_boundary}
use model_lib.Parser.Printed.{has_no_keyword, ends_in_word, automatic_count-decimal}
use model_lib.Parser.Frames.{
  IsRounding, unpack_arm_data-pack_arm_data, unpack_arm_data-error_iff,
  parse_plc_enqueue_data-orders,
}
use model_lib.Parser.Changes.{change_of, detect_pointer_changes-get}

-- A codec of even numbers below 256 that rounds odd ones down.
abbrev small_floats : FloatOps ℕ
small_floats = record {
  encode = λ n. if ltb n 256 then some (0, 0, 0, 2 * (n / 2)) else none;
  decode = λ b. b.3;
  rounded = λ n. 2 * (n / 2);
  truncate = λ n. some (pos n);
}

small_floats-IsRounding : IsRounding small_floats
small_floats-IsRounding x e h = ground (arith, h)

abbrev two_points : ProcessedArmData ℕ
two_points = record { flag = pos 1; sensor_count = 300; pulse_pointer = 7; points = 11 ∷ 12 ∷ [] }

abbrev packed : Bytes
packed = 0 ∷ 1 ∷ 1 ∷ 44 ∷ 0 ∷ 7 ∷ 0 ∷ 0 ∷ 0 ∷ 10 ∷ 0 ∷ 0 ∷ 0 ∷ 12 ∷ b'E' ∷ []

unpack_arm_data-pack_arm_data_example :
    (unpack_arm_data small_floats packed ≡ returned (record two_points { points = 10 ∷ 12 ∷ [] }))
    × (validate_data_format packed arm ≡ true)
unfolding pack_arm_data fits pack_points
unpack_arm_data-pack_arm_data_example =
    unpack_arm_data-pack_arm_data small_floats small_floats-IsRounding two_points packed refl

unpack_arm_data-error_iff_example :
    (unpack_arm_data small_floats (b'E' ∷ []) ≡ value_error)
    ↔ (validate_data_format (b'E' ∷ []) arm ≡ false)
unpack_arm_data-error_iff_example = unpack_arm_data-error_iff small_floats (b'E' ∷ [])

abbrev frame : Bytes
frame = 0 ∷ 11 ∷ 0 ∷ 5 ∷ 0 ∷ 7 ∷ []

parse_plc_enqueue_data-orders_example :
    ((parse_plc_enqueue_data command_pointer_count frame ≡ value_error)
      ↔ ((length frame < 6) ⊎ (command_pointer_count ≡ other_order)))
    × ((d e : ParsedPlcEnqueueData)
        → parse_plc_enqueue_data command_count_pointer frame ≡ returned d
        → parse_plc_enqueue_data command_pointer_count frame ≡ returned e
        → (d.command ≡ e.command)
          × (d.sensor_count ≡ e.enqueue_pointer)
          × (d.enqueue_pointer ≡ e.sensor_count)
          × (d.additional_data ≡ e.additional_data))
parse_plc_enqueue_data-orders_example = parse_plc_enqueue_data-orders command_pointer_count frame

abbrev pointers : Dict.Dict ℕ
pointers = (1, 7) ∷ (2, 9) ∷ []

detect_pointer_changes-get_example :
    (Dict.get 2 (detect_pointer_changes pointers (some ((1, 7) ∷ (2, 8) ∷ []))) ≡ some 9)
    × (Dict.get 2 (detect_pointer_changes pointers none) ≡ some 9)
unfolding Dict.get change_of
detect_pointer_changes-get_example =
    detect_pointer_changes-get pointers ((1, 7) ∷ (2, 8) ∷ []) 2 (refl, (refl, tt))

-- `CMD:11,` before the count.
abbrev command_before : Bytes
command_before = b'C' ∷ b'M' ∷ b'D' ∷ b':' ∷ b'1' ∷ b'1' ∷ b',' ∷ []

automatic_count-decimal_example :
    (automatic_count (command_before ++ (count_word ++ b':' ∷ (decimal 37 ++ b' ' ∷ []))) ≡ some 37)
    × (automatic_count (command_before ++ (cnt_word ++ b'=' ∷ (decimal 37 ++ b' ' ∷ []))) ≡ some 37)
unfolding is_boundary is_ascii has_no_keyword ends_in_word
automatic_count-decimal_example =
    automatic_count-decimal 37 command_before (b' ' ∷ []) refl refl refl refl
