-- ===== src/Queue/Camera.antt =====
-- Camera data into the queues: `store_camera_data` and `ingest_camera_data`.
use model_lib.Prelude.{
  ℕ, ◌+◌, ◌-◌, Bool, true, false, ◌&&◌, ◌||◌, ◌∷◌, Option, none, some, ◌==◌, if◌then◌else◌,
}
use model_lib.Dict
use model_lib.Text.{Bytes, strip, is_digit, ends_with, drop_last}
use model_lib.Queue.State.{Manager, Store, ArmQueueItem, ItemStatus, Source, queue_of}
use model_lib.Queue.History.{update_item, with_store, send_done}

-- A late payload is refused if the item is out of the queue or timed out.
unfoldable pub is_late : Manager → ArmQueueItem → Bool
is_late m item = (item.dequeued || item.timed_out) && m.config.drop_late_camera_data

abbrev pub camera_ready_item : Bytes → ℕ → ArmQueueItem → ArmQueueItem
camera_ready_item bytes now item = record item {
  payload = some bytes;
  updated_at = now;
  status = ItemStatus.camera_ready;
  source = Source.camera;
}

unfoldable pub store_camera_data : ℕ → ℕ → Bytes → ℕ → ℕ → Manager → Manager × Bool
unfolding is_late
store_camera_data sensor_count pulse_pointer camera_data arm_id now m =
    elim (Dict.get pulse_pointer (queue_of m.store arm_id)) [
      | none ↦ (m, false)
      | some r ↦
          if is_late m (m.store.heap r)
          then (
            record m {
              stats = record (m.stats) { late_camera_discards = m.stats.late_camera_discards + 1 };
            },
            false,
          )
          else (with_store (update_item r (camera_ready_item camera_data now)) m, true)
    ]

-- The arm in the first digit after the bracket: 1 or 2.
unfoldable pub arm_of_text : Bytes → Option ℕ
arm_of_text (open_bracket ∷ c ∷ cs) =
    if open_bracket == b'(' && (is_digit c && (c - 48 == 1 || c - 48 == 2))
    then some (c - 48)
    else none
arm_of_text _ = none

unfoldable pub extract_arm_id : Bytes → Option ℕ
unfolding arm_of_text
extract_arm_id camera_data =
    let text = strip camera_data in
    arm_of_text (if ends_with b'E' text then drop_last text else text)

abbrev pub by_camera : Bytes → ArmQueueItem → ArmQueueItem
by_camera bytes item = record item {
  payload = some bytes;
  source = Source.camera;
  status = ItemStatus.camera_data;
}

-- `self.arm_data_queues.get(arm_id, {}).get(pointer)`, where the pointer may be `None`.
unfoldable pub find_item : Store → ℕ → Option ℕ → Option ℕ
find_item s arm_id none = none
find_item s arm_id (some pointer) = Dict.get pointer (queue_of s arm_id)

unfoldable pub ingest_camera_data : Bytes → Manager → Manager × Bool
unfolding find_item
ingest_camera_data camera_data m = elim (extract_arm_id camera_data) [
  | none ↦ (m, false)
  | some arm_id ↦ elim (find_item m.store arm_id m.current_waiting_pointer) [
    | none ↦ (m, false)
    | some r ↦
        let stored = send_done arm_id (with_store (update_item r (by_camera camera_data)) m) in
        (record stored { current_waiting_pointer = none }, true)
  ]
]
