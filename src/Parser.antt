-- ===== src/Parser.antt =====
-- `utils/data_parser.py`: the binary messages of the PLC and of the arms.
pub mod Arm
pub mod Frames
pub mod Changes
pub mod Counts
pub mod Printed
pub mod Registry
use model_lib.Prelude.{
  ℕ, ◌≡◌, Bool, true, false, ◌&&◌, List, [], ◌∷◌, Option, none, some, leb, ◌==◌, if◌then◌else◌,
  length,
}
use model_lib.Dict
use model_lib.Text.{Bytes, from_be16, ends_with}
use model_lib.Queue.History.{Outcome, returned, value_error}

-- The setting `enqueue_field_order`; `other_order` stands for every other text.
pub data FieldOrder : Type 0 where
  command_count_pointer command_pointer_count other_order : FieldOrder

pub record ParsedPlcEnqueueData : Type 0 where
  pub command : ℕ
  pub sensor_count : ℕ
  pub enqueue_pointer : ℕ
  pub additional_data : Bytes

-- The fields two and three by the configured order.
unfoldable pub order_fields : FieldOrder → ℕ → ℕ → ℕ → Bytes → Outcome ParsedPlcEnqueueData
order_fields command_count_pointer c f g rest =
    returned (record { command = c; sensor_count = f; enqueue_pointer = g; additional_data = rest })
order_fields command_pointer_count c f g rest =
    returned (record { command = c; sensor_count = g; enqueue_pointer = f; additional_data = rest })
order_fields other_order c f g rest = value_error

unfoldable pub parse_plc_enqueue_data : FieldOrder → Bytes → Outcome ParsedPlcEnqueueData
unfolding order_fields
parse_plc_enqueue_data order (a ∷ b ∷ c ∷ d ∷ e ∷ f ∷ rest) =
    order_fields order (from_be16 a b) (from_be16 c d) (from_be16 e f) rest
parse_plc_enqueue_data order _ = value_error

-- The dictionary `arm_pointers`.
unfoldable pub parse_plc_dequeue_data : Bytes → Outcome (Dict.Dict ℕ)
parse_plc_dequeue_data (a ∷ b ∷ c ∷ d ∷ []) =
    returned ((1, from_be16 a b) ∷ (2, from_be16 c d) ∷ [])
parse_plc_dequeue_data _ = value_error

-- The loop of `detect_pointer_changes`, with the changes so far.
unfoldable pub changes_from : Dict.Dict ℕ → Dict.Dict ℕ → Dict.Dict ℕ → Dict.Dict ℕ
unfolding Dict.get Dict.put
changes_from last [] changes = changes
changes_from last ((arm_id, pointer) ∷ rest) changes =
    changes_from last rest
      (if pointer == Dict.get_or arm_id 0 last then changes else Dict.put arm_id pointer changes)

unfoldable pub detect_pointer_changes : Dict.Dict ℕ → Option (Dict.Dict ℕ) → Dict.Dict ℕ
unfolding changes_from
detect_pointer_changes current none = current
detect_pointer_changes current (some last) = changes_from last current []

-- The argument `data_type`; `other_type` stands for every other text.
pub data DataType : Type 0 where
  arm plc_enqueue plc_dequeue other_type : DataType

unfoldable pub validate_data_format : Bytes → DataType → Bool
unfolding ends_with
validate_data_format data_bytes arm = leb 7 (length data_bytes) && ends_with b'E' data_bytes
validate_data_format data_bytes plc_enqueue = leb 6 (length data_bytes)
validate_data_format data_bytes plc_dequeue = length data_bytes == 4
validate_data_format data_bytes other_type = false
