-- ===== src/Tests/Queue.antt =====
-- A line with two arms: a cycle, its camera data, a pointer message, a request and a completion.
use model_lib.Prelude.{
  All, ◌≤◌, ℕ, ◌+◌, ◌≡◌, ◌⊎◌, ◌↔◌, ◌<◌, ◌≢◌, refl, true, false, ◌&&◌, List, [], ◌∷◌, ◌++◌, none,
  some, arith, if◌then◌else◌, inr, length,
}
use model_lib.Dict
use model_lib.Text
use model_lib.Text.Decimal
use model_lib.Text.{Bytes}
use model_lib.Queue.State.{Manager, Config, DequeueCache, dequeue_timeout, plc_stage}
use model_lib.Queue.History.{
  returned, value_error, normal_status, done_status, build_arm_feedback_code, done_message,
  push_event, append_history, update_arm_status, send_plc_feedback, send_plc_stage_feedback,
  send_done,
}
use model_lib.Queue.Defaults.{
  default_marker_for_arm, default_payload_for_arm, fill_both_arms_default, marker_of, fill_if_empty,
  fill_default_for_slot, fill_waiting,
}
use model_lib.Queue.Enqueue.{
  enqueue_item, handle_plc_command, validate_pointer, oldest_from, oldest_pointer, evict_caches,
  drop_pair, remove_oldest_pair, new_item, add_pair, needs_room, enqueue_pair, start_cycle,
  plc_command_locked, normalize_plc_command,
}
use model_lib.Queue.Camera.{
  store_camera_data, extract_arm_id, find_item, ingest_camera_data, is_late, arm_of_text,
}
use model_lib.Queue.Dequeue.{
  process_arm_dequeue, handle_dequeue_pointers, insert_by_seq, sort_by_seq, index_of, candidate,
  target_found, select_prefetch_item, dequeue_miss, prefetch_wait, make_cache, cache_ready,
  after_selection, pointer_changed, note_pointer, dequeue_pointers,
}
use model_lib.Queue.Arm.{
  handle_arm_data_request, handle_arm_completion, request_without_cache, fill_on_request, mark_sent,
  answer_cached, request_with_cache, request_locked, refresh_cache, after_sending, finish_request,
  is_mismatch, note_mismatch, note_jump, mark_completed, complete_locked, note_done,
  finish_completion,
}
use model_lib.Queue.Calls.{
  Call, sets_callbacks, commands, ingests, points, new_manager, step, run, set_callbacks,
  get_arm_status,
}
use model_lib.Queue.Invariant.Valid.{IsValid}
use model_lib.Queue.Invariant.Completion.{run-new_manager-IsValid}
use model_lib.Queue.Requests.{Holds, with_feedback, normal_code, handle_arm_data_request-Holds}
use model_lib.Queue.Completions.{Completed, done_code, handle_arm_completion-Completed}
use model_lib.Queue.Answers.{handle_arm_data_request-total}
use model_lib.Queue.Pointers.{handle_dequeue_pointers_twice}
use model_lib.Queue.Eviction.{enqueue_pair-evicts}
use model_lib.Queue.Late.{store_camera_data-late_iff}
use model_lib.Queue.Ingest.{Matches, ingest_camera_data-once}
use model_lib.Queue.Timeouts.{fill_both_arms_default_lem}
use model_lib.Queue.Codes.{extract_arm_id-default_payload, build_arm_feedback_code_faithful}

program : Unit {0}
unfolding Dict.get Dict.put Dict.erase Text.is_space Text.lstrip Text.rstrip Text.bytes_eq Text.keep
    Text.ends_with Text.drop_last Decimal.digits_fuel Decimal.decimal Decimal.decimal4
    Decimal.read_from Decimal.read_decimal push_event append_history update_arm_status
    send_plc_feedback send_plc_stage_feedback send_done build_arm_feedback_code marker_of
    default_marker_for_arm default_payload_for_arm fill_if_empty fill_default_for_slot fill_waiting
    fill_both_arms_default validate_pointer oldest_from oldest_pointer evict_caches drop_pair
    remove_oldest_pair new_item add_pair needs_room enqueue_pair enqueue_item start_cycle
    plc_command_locked normalize_plc_command handle_plc_command is_late store_camera_data
    arm_of_text extract_arm_id find_item ingest_camera_data insert_by_seq sort_by_seq index_of
    candidate target_found select_prefetch_item dequeue_miss prefetch_wait make_cache cache_ready
    after_selection process_arm_dequeue pointer_changed note_pointer dequeue_pointers
    handle_dequeue_pointers request_without_cache fill_on_request mark_sent answer_cached
    request_with_cache request_locked refresh_cache after_sending finish_request
    handle_arm_data_request is_mismatch note_mismatch note_jump mark_completed complete_locked
    note_done finish_completion handle_arm_completion new_manager set_callbacks get_arm_status step
    run
program = tt

-- `(1000)E`
abbrev marker : ℕ → Bytes
marker digit = b'(' ∷ digit ∷ b'0' ∷ b'0' ∷ b'0' ∷ b')' ∷ b'E' ∷ []

abbrev pub config : Config
config = record {
  queue_length = 3;
  timeout_mode = dequeue_timeout;
  drop_late_camera_data = true;
  history_limit = 20;
  prefetch_offset = 0;
  prefetch_drop_first = false;
  completion_count_validation = true;
  send_default_on_empty_request = true;
  default_payloads = (1, marker b'1') ∷ (2, marker b'2') ∷ [];
}

abbrev all_callbacks : Call
all_callbacks =
    sets_callbacks (record { has_camera = true; has_plc_feedback = true; has_plc_stage = true })

-- Command 01 with count 5 for pointer 7.
abbrev opening : List (ℕ × Call)
opening = (1, all_callbacks) ∷ (2, commands 1 5 7) ∷ []

abbrev opened : Manager
opened = run opening (new_manager config)

abbrev pub points_1 : Bytes
points_1 = marker b'1'

-- The camera data of arm 1 and the pointer message: arm 1 is at 7.
abbrev reaching : List (ℕ × Call)
reaching = opening ++ (3, ingests points_1) ∷ (4, points (0 ∷ 7 ∷ 0 ∷ 0 ∷ [])) ∷ []

abbrev pub reached : Manager
reached = run reaching (new_manager config)

run-new_manager-IsValid_example : IsValid reached
run-new_manager-IsValid_example = run-new_manager-IsValid config reaching

handle_dequeue_pointers_twice_example :
    handle_dequeue_pointers
      (0 ∷ 7 ∷ 0 ∷ 0 ∷ [])
      9
      (handle_dequeue_pointers (0 ∷ 7 ∷ 0 ∷ 0 ∷ []) 4 opened)
    ≡ handle_dequeue_pointers (0 ∷ 7 ∷ 0 ∷ 0 ∷ []) 4 opened
handle_dequeue_pointers_twice_example =
    handle_dequeue_pointers_twice (0 ∷ 7 ∷ 0 ∷ 0 ∷ []) 4 9 opened

build_arm_feedback_code_faithful_example :
    ((build_arm_feedback_code 1 normal_status ≡ value_error)
      ↔ ((1 < 1) ⊎ (9 < 1) ⊎ ((normal_status ≢ normal_status) × (normal_status ≢ done_status))))
    × ((code : Bytes)
        → build_arm_feedback_code 1 normal_status ≡ returned code
        → (code ≡ (48 + 1) ∷ normal_status)
          × (length code ≡ 2)
          × (build_arm_feedback_code 2 done_status ≡ returned code
              → (◌≡◌ {A = ℕ} 1 2) × (normal_status ≡ done_status)))
build_arm_feedback_code_faithful_example =
    build_arm_feedback_code_faithful 1 2 normal_status done_status

extract_arm_id-default_payload_example :
    extract_arm_id (default_payload_for_arm config 2 (some 37)) ≡ some 2
unfolding program
extract_arm_id-default_payload_example =
    extract_arm_id-default_payload config 2 (some 37) (inr refl) (omega arith) (omega arith)

fill_both_arms_default_lem_example :
    let n = fill_both_arms_default opened in
    ((n.store.heap 0).payload ≡ some (default_payload_for_arm config 1 (some 5)))
    × ((n.store.heap 1).payload ≡ some (default_payload_for_arm config 2 (some 5)))
    × ((x : ℕ) → 0 ≢ x → 1 ≢ x → n.store.heap x ≡ opened.store.heap x)
    × (n.current_waiting_pointer ≡ none)
unfolding program
fill_both_arms_default_lem_example =
    fill_both_arms_default_lem opened 7 0 1 refl refl refl (λ e. ground arith)

ingest_camera_data-once_example :
    let n = (ingest_camera_data points_1 opened).0 in
    ((n.store.heap 0).payload ≡ some points_1)
    × (n.effects ≡ opened.effects ++ plc_stage (done_message 1) ∷ [])
    × ((ingest_camera_data points_1 opened).1 ≡ true)
    × (ingest_camera_data (marker b'2') n ≡ (n, false))
unfolding program Matches
ingest_camera_data-once_example =
    ingest_camera_data-once points_1 (marker b'2') opened 1 7 0 (refl, refl, refl)

abbrev pub cache_1 : DequeueCache
cache_1 = record {
  queue_item = 0;
  arm_id = 1;
  trigger_pointer = 7;
  prefetch_offset = 0;
  data_sent = false;
  confirmed = false;
  cache_time = 4;
  send_count = 0;
}

pub reached-cached : Dict.get 1 reached.store.arm_caches ≡ some cache_1
unfolding program
reached-cached = refl

pub reached-told : reached.callbacks.has_plc_feedback ≡ true
unfolding program
reached-told = refl

pub reached-Holds : Holds reached 1 points_1
unfolding program
reached-Holds = record { cache = cache_1; cached = reached-cached; ready = refl; current = refl }

handle_arm_data_request-Holds_example :
    ((handle_arm_data_request 1 8 reached).1 ≡ returned (some points_1))
    × Holds (handle_arm_data_request 1 8 reached).0 1 points_1
    × ((handle_arm_data_request 1 8 reached).0.effects ≡ with_feedback reached (normal_code 1))
handle_arm_data_request-Holds_example =
    handle_arm_data_request-Holds reached 1 8 points_1 (omega arith, omega arith) reached-Holds

handle_arm_completion-Completed_example :
    ((handle_arm_completion 1 (some 6) 9 reached).1 ≡ returned true)
    × Completed reached (handle_arm_completion 1 (some 6) 9 reached).0 1 cache_1
    × ((handle_arm_completion 1 (some 6) 9 reached).0.effects ≡ with_feedback reached (done_code 1))
handle_arm_completion-Completed_example =
    handle_arm_completion-Completed reached 1 cache_1 (some 6) 9 (omega arith, omega arith)
      reached-cached

handle_arm_data_request-total_example :
    (bytes : Bytes) × ((reached.store.heap cache_1.queue_item).payload ≡ some bytes)
    × ((handle_arm_data_request 1 8 reached).1 ≡ returned (some bytes))
unfolding program
handle_arm_data_request-total_example =
    handle_arm_data_request-total reached 1 8 cache_1 run-new_manager-IsValid_example refl
      (omega arith, omega arith) reached-cached

abbrev late_manager : Manager
late_manager = (handle_arm_completion 1 (some 5) 9 reached).0

store_camera_data-late_iff_example :
    let late = (reached.store.heap 0).dequeued && config.drop_late_camera_data in
    let (n, stored) = store_camera_data 5 7 points_1 1 10 reached in
    ((stored ≡ false) ↔ (late ≡ true))
    × ((n.store.heap 0).payload ≡ (if late then (reached.store.heap 0).payload else some points_1))
    × (n.stats.late_camera_discards ≡ (
        if late
        then reached.stats.late_camera_discards + 1
        else reached.stats.late_camera_discards))
unfolding program
store_camera_data-late_iff_example =
    store_camera_data-late_iff reached 5 7 1 10 0 points_1 (run-new_manager-IsValid config reaching)
      refl

-- A queue of one pair, which is full.
abbrev full : Manager
full = run opening (new_manager (record config { queue_length = 1 }))

full-IsValid : IsValid full
full-IsValid = run-new_manager-IsValid (record config { queue_length = 1 }) opening

enqueue_pair-evicts_example :
    let n = (enqueue_pair 6 9 3 full).store in
    (p r : ℕ) × (Dict.get p full.store.arm1_queue ≡ some r)
    × All
        (λ (x : ℕ × ℕ). (full.store.heap r).enqueue_seq ≤ (full.store.heap x.1).enqueue_seq)
        full.store.arm1_queue
    × (n.arm1_queue ≡ Dict.put 9 full.store.next_ref (Dict.erase p full.store.arm1_queue))
    × (n.arm2_queue ≡ Dict.put 9 (full.store.next_ref + 1) (Dict.erase p full.store.arm2_queue))
unfolding program
enqueue_pair-evicts_example = enqueue_pair-evicts 6 9 3 full (7, 0) [] full-IsValid refl refl
