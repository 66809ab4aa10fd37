-- ===== src/Queue/Defaults.antt =====
-- The default payloads, and the slots that are filled with them.
use model_lib.Prelude.{ℕ, [], ◌∷◌, ◌++◌, Option, none, some, if◌then◌else◌, take, is_some}
use model_lib.Dict
use model_lib.Text.{Bytes, is_digit, keep}
use model_lib.Text.Decimal.{decimal, decimal4, read_decimal}
use model_lib.Queue.State.{
  Manager, Store, Config, ArmQueueItem, ItemStatus, FillReason, Source, queue_of,
}
use model_lib.Queue.History.{update_item, with_store}

-- The number of the first four digits, and 0 where there is none. (The digits are ASCII.)
unfoldable pub marker_of : Bytes → ℕ
unfolding keep read_decimal
marker_of raw = elim (read_decimal (take 4 (keep is_digit raw))) [ none ↦ 0 | some v ↦ v ]

unfoldable pub default_marker_for_arm : Config → ℕ → ℕ
unfolding marker_of Dict.get
default_marker_for_arm config arm_id = marker_of (
    Dict.get_or arm_id (b'(' ∷ b'0' ∷ b'0' ∷ b'0' ∷ b'0' ∷ b')' ∷ b'E' ∷ [])
      config.default_payloads)

-- `(mmmm,c)E`, with count 0 where there is none.
unfoldable pub default_payload_for_arm : Config → ℕ → Option ℕ → Bytes
unfolding default_marker_for_arm decimal4 decimal
default_payload_for_arm config arm_id count =
    b'('
    ∷ (decimal4 (default_marker_for_arm config arm_id)
        ++ b',' ∷ (elim count [ none ↦ b'0' ∷ [] | some n ↦ decimal n ] ++ b')' ∷ b'E' ∷ []))

abbrev pub fill : Bytes → ItemStatus → ArmQueueItem → ArmQueueItem
fill bytes st item = record item { payload = some bytes; source = Source.default; status = st }

-- Fills the item behind a reference, unless it has data.
unfoldable pub fill_if_empty : ℕ → Bytes → ItemStatus → Store → Store
fill_if_empty r bytes st s =
    if is_some (s.heap r).payload then s else update_item r (fill bytes st) s

-- `_fill_default_for_slot_locked`.
unfoldable pub fill_default_for_slot : ℕ → ℕ → FillReason → Manager → Manager
fill_default_for_slot arm_id pointer reason m = elim (Dict.get pointer (queue_of m.store arm_id)) [
  | none ↦ m
  | some r ↦
      with_store
        (fill_if_empty r (default_payload_for_arm m.config arm_id (some (m.store.heap r).count))
          (ItemStatus.timeout_default_for reason))
        m
]

-- One turn of the loop of `_fill_both_arms_default_locked`.
unfoldable pub fill_waiting : ℕ → Option ℕ → Option ℕ → Manager → Manager
fill_waiting arm_id none count m = m
fill_waiting arm_id (some pointer) count m = elim (Dict.get pointer (queue_of m.store arm_id)) [
  | none ↦ m
  | some r ↦
      with_store
        (fill_if_empty r (default_payload_for_arm m.config arm_id count) ItemStatus.timeout_default)
        m
]

unfoldable pub fill_both_arms_default : Manager → Manager
unfolding fill_waiting
fill_both_arms_default m =
    let pointer = m.current_waiting_pointer in
    let count = m.current_waiting_count in
    let m1 = fill_waiting 1 pointer count m in
    let m2 = fill_waiting 2 pointer count m1 in
    record m2 { current_waiting_pointer = none; current_waiting_count = none }
