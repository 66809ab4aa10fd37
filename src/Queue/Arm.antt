-- ===== src/Queue/Arm.antt =====
-- What the arms ask for: `handle_arm_data_request` and `handle_arm_completion`. Each runs one
-- section under the lock, sends a feedback code, and runs a second section under the lock.
use model_lib.Prelude.{
  ℕ, ◌+◌, ◌%◌, ◌^◌, Bool, true, false, not, ◌&&◌, List, [], ◌∷◌, Option, none, some, ◌==◌,
  if◌then◌else◌, length, is_some, opt_eq,
}
use model_lib.Dict
use model_lib.Text.{Bytes}
use model_lib.Queue.State.{
  Manager, Store, ArmQueueItem, DequeueCache, ItemStatus, ArmStatus, FillReason, EventKind,
}
use model_lib.Queue.History.{
  Note, Outcome, returned, value_error, normal_status, done_status, append_history,
  update_arm_status, update_item, with_store, send_done, send_plc_feedback, build_arm_feedback_code,
}
use model_lib.Queue.Defaults.{default_payload_for_arm, fill_default_for_slot}
use model_lib.Queue.Dequeue.{process_arm_dequeue, is_dequeue_timeout}

abbrev arm_note : EventKind → Bool → ℕ → Option ℕ → Option ℕ → List ℕ → Option Bytes → Note
arm_note kind warning arm_id pointer count numbers bytes = record {
  kind = kind;
  is_warning = warning;
  arm_id = some arm_id;
  pointer = pointer;
  count = count;
  numbers = numbers;
  payload = bytes;
}

-- What the first section of a data request hands to the rest.
pub record Prepared : Type 0 where
  pub bytes : Bytes
  pub pointer : Option ℕ
  pub count : Option ℕ

-- There is no cache: with `send_default_on_empty_request` the default goes out, with count 0.
unfoldable pub request_without_cache : ℕ → ℕ → Manager → Manager × Option Prepared
request_without_cache arm_id now m =
    let noted =
      append_history (arm_note EventKind.data_request_empty true arm_id none none [] none) now
        (update_arm_status arm_id ArmStatus.no_data_to_send m) in
    if m.config.send_default_on_empty_request
    then (
      send_done arm_id (update_arm_status arm_id ArmStatus.default_sent_no_cache noted),
      some (record {
        bytes = default_payload_for_arm m.config arm_id none;
        pointer = none;
        count = none;
      }),
    )
    else (noted, none)

-- With `dequeue_timeout` an item that still has no data is filled.
unfoldable pub fill_on_request : ℕ → ℕ → Manager → Manager
fill_on_request arm_id r m =
    if not (is_some (m.store.heap r).payload) && is_dequeue_timeout m
    then send_done arm_id
        (fill_default_for_slot arm_id (m.store.heap r).pointer FillReason.dequeue_request m)
    else m

abbrev pub sent_item : ℕ → ArmQueueItem → ArmQueueItem
sent_item now item = record item {
  send_count = item.send_count + 1;
  status = ItemStatus.data_sent;
  updated_at = now;
}

unfoldable pub mark_sent : ℕ → DequeueCache → ℕ → Store → Store
mark_sent arm_id cache now s = update_item cache.queue_item (sent_item now) (record s {
  arm_caches =
      Dict.put arm_id (record cache { data_sent = true; send_count = cache.send_count + 1 })
        s.arm_caches;
})

-- An item without data yields none; otherwise its data is sent.
unfoldable pub answer_cached : ℕ → DequeueCache → ℕ → Manager → Manager × Option Prepared
unfolding mark_sent
answer_cached arm_id cache now m =
    let item = m.store.heap cache.queue_item in
    elim item.payload [
      | none ↦ (
        append_history
            (arm_note EventKind.data_request_empty true arm_id (some item.pointer) (some item.count)
              [] none)
            now (update_arm_status arm_id ArmStatus.no_data_to_send m),
        none,
      )
      | some bytes ↦ (
        update_arm_status arm_id ArmStatus.data_sent (with_store (mark_sent arm_id cache now) m),
        some (record { bytes = bytes; pointer = some item.pointer; count = some item.count }),
      )
    ]

unfoldable pub request_with_cache : ℕ → DequeueCache → ℕ → Manager → Manager × Option Prepared
unfolding fill_on_request answer_cached
request_with_cache arm_id cache now m =
    answer_cached arm_id cache now (fill_on_request arm_id cache.queue_item m)

unfoldable pub request_locked : ℕ → ℕ → Manager → Manager × Option Prepared
unfolding request_without_cache request_with_cache
request_locked arm_id now m = elim (Dict.get arm_id m.store.arm_caches) [
  | none ↦ request_without_cache arm_id now m
  | some cache ↦ request_with_cache arm_id cache now m
]

-- The second section: the row of the history, and the cache again if the pointer has moved on.
unfoldable pub refresh_cache : ℕ → ℕ → Manager → Manager
refresh_cache arm_id now m = elim (Dict.get arm_id m.last_dequeue_pointers) [
  | none ↦ m
  | some pointer ↦
      if opt_eq (Dict.get arm_id m.arm_positions) pointer
      then m
      else process_arm_dequeue arm_id pointer now m
]

unfoldable pub after_sending : ℕ → Prepared → ℕ → Manager → Manager
unfolding refresh_cache
after_sending arm_id p now m = refresh_cache arm_id now (
    append_history
      (arm_note EventKind.data_sent false arm_id p.pointer p.count (length p.bytes ∷ [])
        (some p.bytes))
      now m)

unfoldable pub finish_request : ℕ → Manager → Option Prepared → ℕ → Manager × Outcome (Option Bytes)
unfolding after_sending
finish_request arm_id m none now = (m, returned none)
finish_request arm_id m (some p) now = elim (build_arm_feedback_code arm_id normal_status) [
  | value_error ↦ (m, value_error)
  | returned code ↦ (after_sending arm_id p now (send_plc_feedback code m), returned (some p.bytes))
]

unfoldable pub handle_arm_data_request : ℕ → ℕ → Manager → Manager × Outcome (Option Bytes)
unfolding request_locked finish_request
handle_arm_data_request arm_id now m =
    let (m1, prepared) = request_locked arm_id now m in finish_request arm_id m1 prepared now

-- A reported count that differs from the item's.
unfoldable pub is_mismatch : Manager → Option ℕ → ℕ → Bool
is_mismatch m none expected = false
is_mismatch m (some reported) expected =
    m.config.completion_count_validation && not (reported == expected)

unfoldable pub note_mismatch : ℕ → Option ℕ → ArmQueueItem → ℕ → Manager → Manager
unfolding is_mismatch
note_mismatch arm_id none item now m = m
note_mismatch arm_id (some reported) item now m =
    if is_mismatch m (some reported) item.count
    then append_history
        (arm_note EventKind.count_mismatch true arm_id (some item.pointer) (some item.count)
          (item.count ∷ reported ∷ []) none)
        now m
    else m

-- Counts are 16-bit numbers, so that 0 follows 65535.
abbrev pub next_count : ℕ → ℕ
next_count n = (n + 1) % 2 ^ 16

unfoldable pub note_jump : ℕ → Option ℕ → ArmQueueItem → ℕ → Manager → Manager
note_jump arm_id none item now m = m
note_jump arm_id (some last) item now m =
    if item.count == next_count last
    then m
    else append_history
        (arm_note EventKind.count_jump true arm_id (some item.pointer) (some item.count)
          (last ∷ item.count ∷ []) none)
        now m

abbrev pub completed_item : Bool → ℕ → ArmQueueItem → ArmQueueItem
completed_item mismatch now item = record item {
  confirmed = true;
  dequeued = true;
  status =
      if mismatch then ItemStatus.task_completed_with_count_mismatch else ItemStatus.task_completed;
  updated_at = now;
}

unfoldable pub mark_completed : ℕ → DequeueCache → Bool → ℕ → Store → Store
mark_completed arm_id cache mismatch now s =
    update_item cache.queue_item (completed_item mismatch now)
      (record s { arm_caches = Dict.put arm_id (record cache { confirmed = true }) s.arm_caches })

-- The first section of a completion with a cache; `completed_tasks` counts a cache once.
unfoldable pub complete_locked : ℕ → DequeueCache → Option ℕ → ℕ → Manager → Manager
unfolding note_mismatch note_jump mark_completed
complete_locked arm_id cache reported now m =
    let item = m.store.heap cache.queue_item in
    let noted =
      note_jump arm_id (Dict.get_or arm_id none m.arm_last_confirmed_count) item now
        (note_mismatch arm_id reported item now m) in
    let marked =
      update_arm_status arm_id ArmStatus.task_completed
        (with_store (mark_completed arm_id cache (is_mismatch m reported item.count) now) noted) in
    record marked {
      arm_last_confirmed_count = Dict.put arm_id (some item.count) marked.arm_last_confirmed_count;
      stats = record (marked.stats) {
        completed_tasks = marked.stats.completed_tasks + (if cache.confirmed then 0 else 1);
      };
    }

-- The second section: a row of the history from the item as it is then.
unfoldable pub note_done : ℕ → DequeueCache → Option ℕ → ℕ → Manager → Manager
note_done arm_id cache reported now m =
    let item = m.store.heap cache.queue_item in
    append_history
      (arm_note EventKind.task_done false arm_id (some item.pointer) (some item.count)
        (elim reported [ none ↦ [] | some n ↦ n ∷ [] ]) item.payload)
      now m

unfoldable pub finish_completion :
    ℕ → DequeueCache → Option ℕ → ℕ → Manager → Manager × Outcome Bool
unfolding note_done
finish_completion arm_id cache reported now m = elim (build_arm_feedback_code arm_id done_status) [
  | value_error ↦ (m, value_error)
  | returned code ↦ (note_done arm_id cache reported now (send_plc_feedback code m), returned true)
]

unfoldable pub handle_arm_completion : ℕ → Option ℕ → ℕ → Manager → Manager × Outcome Bool
unfolding complete_locked finish_completion
handle_arm_completion arm_id reported now m = elim (Dict.get arm_id m.store.arm_caches) [
  | none ↦ (update_arm_status arm_id ArmStatus.no_active_task m, returned false)
  | some cache ↦
      finish_completion arm_id cache reported now (complete_locked arm_id cache reported now m)
]
