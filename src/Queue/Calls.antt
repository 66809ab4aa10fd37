-- ===== src/Queue/Calls.antt =====
-- The manager as its callers see it: the constructor, `set_callbacks`, and any sequence of calls.
-- A call runs as a whole: threads are sequences of calls here.
use Prim.Native.Nat.{max}
use model_lib.Prelude.{ℕ, false, List, [], ◌∷◌, Option, none}
use model_lib.Dict
use model_lib.Dict.{Dict}
use model_lib.Text.{Bytes}
use model_lib.Queue.State.{Manager, Store, Config, Callbacks, Stats, ArmStatus}
use model_lib.Queue.Enqueue.{enqueue_item, handle_plc_command, new_item}
use model_lib.Queue.Camera.{store_camera_data, ingest_camera_data}
use model_lib.Queue.Dequeue.{handle_dequeue_pointers, process_arm_dequeue}
use model_lib.Queue.Arm.{handle_arm_data_request, handle_arm_completion}

abbrev pub empty_store : Store
unfolding new_item
empty_store = record {
  heap = λ _. new_item 0 0 0 0;
  next_ref = 0;
  arm1_queue = [];
  arm2_queue = [];
  arm_caches = [];
  enqueue_seq_counter = 0;
}

abbrev pub no_stats : Stats
no_stats = record {
  total_items = 0;
  validation_warnings = 0;
  completed_tasks = 0;
  dequeue_operations = 0;
  overflow_drops = 0;
  late_camera_discards = 0;
}

-- `default_payloads or {1: "(1000)E", 2: "(2000)E"}`
abbrev pub default_marker : ℕ → Bytes
default_marker digit = b'(' ∷ digit ∷ b'0' ∷ b'0' ∷ b'0' ∷ b')' ∷ b'E' ∷ []

unfoldable pub payloads_or_default : Dict.Dict Bytes → Dict.Dict Bytes
payloads_or_default [] = (1, default_marker b'1') ∷ (2, default_marker b'2') ∷ []
payloads_or_default (p ∷ ps) = p ∷ ps

-- `EnhancedQueueManager(...)`: the history keeps ten rows at least.
unfoldable pub new_manager : Config → Manager
unfolding new_item payloads_or_default
new_manager c = record {
  config = record c {
    history_limit = max 10 c.history_limit;
    default_payloads = payloads_or_default c.default_payloads;
  };
  callbacks = record { has_camera = false; has_plc_feedback = false; has_plc_stage = false };
  store = empty_store;
  arm_positions = [];
  arm_statuses = [];
  last_dequeue_pointers = [];
  current_cycle_count = none;
  current_waiting_count = none;
  current_waiting_pointer = none;
  history_seq = 0;
  event_history = [];
  arm_prefetch_warmed = (1, false) ∷ (2, false) ∷ [];
  arm_last_confirmed_count = (1, none) ∷ (2, none) ∷ [];
  stats = no_stats;
  effects = [];
}

unfoldable pub set_callbacks : Callbacks → Manager → Manager
set_callbacks cs m = record m { callbacks = cs }

-- `none` is the text `"UNKNOWN"`.
unfoldable pub get_arm_status : ℕ → Manager → Option ArmStatus
get_arm_status arm_id m = Dict.get arm_id m.arm_statuses

pub data Call : Type 0 where
  sets_callbacks : Callbacks → Call
  enqueues : ℕ → ℕ → Call
  commands : ℕ → ℕ → ℕ → Call
  stores : ℕ → ℕ → Bytes → ℕ → Call
  ingests : Bytes → Call
  points : Bytes → Call
  prepares : ℕ → ℕ → Call
  requests : ℕ → Call
  completes : ℕ → Option ℕ → Call

-- The state after a call at a time.
unfoldable pub step : ℕ × Call → Manager → Manager
step (now, sets_callbacks cs) m = set_callbacks cs m
step (now, enqueues sensor_count pointer) m = (enqueue_item sensor_count pointer now m).0
step (now, commands command sensor_count pointer) m =
    (handle_plc_command command sensor_count pointer now m).0
step (now, stores sensor_count pointer bytes arm_id) m =
    (store_camera_data sensor_count pointer bytes arm_id now m).0
step (now, ingests bytes) m = (ingest_camera_data bytes m).0
step (now, points bytes) m = handle_dequeue_pointers bytes now m
step (now, prepares arm_id target) m = process_arm_dequeue arm_id target now m
step (now, requests arm_id) m = (handle_arm_data_request arm_id now m).0
step (now, completes arm_id reported) m = (handle_arm_completion arm_id reported now m).0

unfoldable pub run : List (ℕ × Call) → Manager → Manager
run [] m = m
run (c ∷ cs) m = run cs (step c m)
