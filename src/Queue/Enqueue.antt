-- ===== src/Queue/Enqueue.antt =====
-- Enqueueing: `enqueue_item`, `handle_plc_command` and the eviction of the oldest pair.
use model_lib.Prelude.{
  ℕ, ◌+◌, Bool, true, false, not, ◌&&◌, List, [], ◌∷◌, ◌++◌, Option, none, some, ltb, leb, ◌==◌,
  if◌then◌else◌, length, is_some, or_else,
}
use model_lib.Dict
use model_lib.Dict.{Dict}
use model_lib.Queue.State.{
  Manager, Store, ArmQueueItem, DequeueCache, ArmStatus, ItemStatus, Source, EventKind,
  camera_trigger,
}
use model_lib.Queue.History.{Note, append_history, update_arm_status, with_store}
use model_lib.Queue.Defaults.{fill_both_arms_default}

-- `_validate_pointer_consistency`: a warning count, never a refusal.
unfoldable pub validate_pointer : ℕ → Manager → Manager
validate_pointer pointer m =
    if leb pointer 0
    then record m {
      stats = record (m.stats) { validation_warnings = m.stats.validation_warnings + 1 };
    }
    else m

-- `min(queue, key=enqueue_seq)`, with the best entry so far.
unfoldable pub oldest_from : (ℕ → ArmQueueItem) → ℕ × ℕ → Dict ℕ → ℕ × ℕ
oldest_from heap best [] = best
oldest_from heap best (e ∷ d) =
    oldest_from heap (if ltb (heap e.1).enqueue_seq (heap best.1).enqueue_seq then e else best) d

-- The pointer of the entry with the least sequence number.
unfoldable pub oldest_pointer : (ℕ → ArmQueueItem) → Dict ℕ → Option ℕ
oldest_pointer heap [] = none
oldest_pointer heap (e ∷ d) = some (oldest_from heap e d).0

-- The loop over a copy of `arm_caches`: caches of an item at the pointer go.
unfoldable pub evict_caches : ℕ → List (ℕ × DequeueCache) → Manager → Manager
evict_caches pointer [] m = m
evict_caches pointer ((arm_id, cache) ∷ cs) m = evict_caches pointer cs (
    if (m.store.heap cache.queue_item).pointer == pointer
    then update_arm_status arm_id ArmStatus.cache_evicted
        (with_store (λ s. record s { arm_caches = Dict.erase arm_id s.arm_caches }) m)
    else m)

unfoldable pub drop_pair : ℕ → Store → Store
drop_pair pointer s = record s {
  arm1_queue = Dict.erase pointer s.arm1_queue;
  arm2_queue = Dict.erase pointer s.arm2_queue;
}

abbrev overflow_note : ℕ → Note
overflow_note pointer = record {
  kind = EventKind.overflow_drop;
  is_warning = true;
  arm_id = none;
  pointer = some pointer;
  count = none;
  numbers = [];
  payload = none;
}

unfoldable pub remove_oldest_pair : ℕ → Manager → Manager
unfolding oldest_pointer drop_pair
remove_oldest_pair now m = elim (oldest_pointer m.store.heap m.store.arm1_queue) [
  | none ↦ m
  | some pointer ↦
      let dropped = with_store (drop_pair pointer) m in
      let evicted = evict_caches pointer m.store.arm_caches dropped in
      append_history (overflow_note pointer) now (record evicted {
        stats = record (evicted.stats) { overflow_drops = evicted.stats.overflow_drops + 1 };
      })
]

unfoldable pub new_item : ℕ → ℕ → ℕ → ℕ → ArmQueueItem
new_item sensor_count pulse_pointer seq now = record {
  pointer = pulse_pointer;
  count = sensor_count;
  enqueue_seq = seq;
  created_at = now;
  updated_at = now;
  payload = none;
  status = ItemStatus.waiting_camera;
  timed_out = false;
  dequeued = false;
  send_count = 0;
  confirmed = false;
  source = Source.pending;
}

-- The counter goes up, and each arm gets a new item under the pointer.
unfoldable pub add_pair : ℕ → ℕ → ℕ → Store → Store
unfolding new_item
add_pair sensor_count pulse_pointer now s =
    let r = s.next_ref in
    let item = new_item sensor_count pulse_pointer (s.enqueue_seq_counter + 1) now in
    record s {
      heap = λ q. if r == q then item else if r + 1 == q then item else s.heap q;
      next_ref = r + 2;
      arm1_queue = Dict.put pulse_pointer r s.arm1_queue;
      arm2_queue = Dict.put pulse_pointer (r + 1) s.arm2_queue;
      enqueue_seq_counter = s.enqueue_seq_counter + 1;
    }

abbrev enqueue_note : ℕ → ℕ → Note
enqueue_note sensor_count pulse_pointer = record {
  kind = EventKind.enqueue;
  is_warning = false;
  arm_id = none;
  pointer = some pulse_pointer;
  count = some sensor_count;
  numbers = [];
  payload = none;
}

-- Whether a new pointer finds the queue full.
unfoldable pub needs_room : ℕ → Manager → Bool
needs_room pulse_pointer m =
    not (Dict.contains pulse_pointer m.store.arm1_queue)
    && leb m.config.queue_length (length m.store.arm1_queue)

unfoldable pub enqueue_pair : ℕ → ℕ → ℕ → Manager → Manager
unfolding needs_room
enqueue_pair sensor_count pulse_pointer now m =
    let checked = validate_pointer pulse_pointer m in
    let roomy =
      if needs_room pulse_pointer checked then remove_oldest_pair now checked else checked in
    let added = with_store (add_pair sensor_count pulse_pointer now) roomy in
    append_history (enqueue_note sensor_count pulse_pointer) now
      (record added { stats = record (added.stats) { total_items = added.stats.total_items + 1 } })

unfoldable pub enqueue_item : ℕ → ℕ → ℕ → Manager → Manager × Bool
enqueue_item sensor_count pulse_pointer now m =
    (enqueue_pair sensor_count pulse_pointer now m, true)

-- Command 01: a cycle that still waits is closed with the defaults, and a new one starts.
unfoldable pub start_cycle : ℕ → ℕ → ℕ → Manager → Manager
start_cycle sensor_count pulse_pointer now m =
    let closed = if is_some m.current_waiting_pointer then fill_both_arms_default m else m in
    let added = enqueue_pair sensor_count pulse_pointer now closed in
    record added {
      current_waiting_pointer = some pulse_pointer;
      current_waiting_count = some sensor_count;
      current_cycle_count = some sensor_count;
    }

-- The part under the lock: the new state, and the count that the camera is triggered with.
unfoldable pub plc_command_locked : ℕ → ℕ → ℕ → ℕ → Manager → Manager × ℕ
unfolding start_cycle
plc_command_locked command sensor_count pulse_pointer now m =
    if command == 1
    then (start_cycle sensor_count pulse_pointer now m, sensor_count)
    else if command == 11
    then (
      record m {
        current_waiting_pointer = some pulse_pointer;
        current_waiting_count = some (or_else m.current_cycle_count sensor_count);
      },
      or_else m.current_cycle_count sensor_count,
    )
    else if command == 12
    then (record m { current_waiting_pointer = none }, or_else m.current_cycle_count sensor_count)
    else (m, sensor_count)

-- `_normalize_plc_command` maps 1 to 0x01 and keeps the rest.
unfoldable pub normalize_plc_command : ℕ → ℕ
normalize_plc_command command = if command == 1 then 0x01 else command

unfoldable pub handle_plc_command : ℕ → ℕ → ℕ → ℕ → Manager → Manager × Bool
unfolding plc_command_locked normalize_plc_command
handle_plc_command command sensor_count pulse_pointer now m =
    let (m1, trigger_count) =
      plc_command_locked (normalize_plc_command command) sensor_count pulse_pointer now m in
    (
      if m1.callbacks.has_camera
          then record m1 {
            effects =
                m1.effects ++ camera_trigger (normalize_plc_command command) trigger_count ∷ [];
          }
          else m1,
      true,
    )
