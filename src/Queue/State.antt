-- ===== src/Queue/State.antt =====
-- The data of `EnhancedQueueManager`. An `ArmQueueItem` is an object that a queue and an output
-- cache share, so the items live on a heap and the dictionaries hold references. Times are what
-- `time.time()` returned, as numbers.
use model_lib.Prelude.{ℕ, Bool, List, [], Option, if◌then◌else◌, ◌==◌}
use model_lib.Dict.{Dict}
use model_lib.Text.{Bytes}

-- Why a slot was filled with the default payload.
pub data FillReason : Type 0 where
  dequeue_pointer_reached dequeue_request : FillReason

pub data ItemStatus : Type 0 where
  waiting_camera timeout_default camera_ready camera_data data_sent : ItemStatus
  task_completed task_completed_with_count_mismatch : ItemStatus
  timeout_default_for : FillReason → ItemStatus

pub data Source : Type 0 where
  pending camera default : Source

-- `data` is the field `payload`.
pub record ArmQueueItem : Type 0 where
  pub pointer : ℕ
  pub count : ℕ
  pub enqueue_seq : ℕ
  pub created_at : ℕ
  pub updated_at : ℕ
  pub payload : Option Bytes
  pub status : ItemStatus
  pub timed_out : Bool
  pub dequeued : Bool
  pub send_count : ℕ
  pub confirmed : Bool
  pub source : Source

-- `queue_item` is a reference.
pub record DequeueCache : Type 0 where
  pub queue_item : ℕ
  pub arm_id : ℕ
  pub trigger_pointer : ℕ
  pub prefetch_offset : ℕ
  pub data_sent : Bool
  pub confirmed : Bool
  pub cache_time : ℕ
  pub send_count : ℕ

pub data ArmStatus : Type 0 where
  no_data_available waiting_for_request no_data_to_send default_sent_no_cache : ArmStatus
  data_sent no_active_task task_completed cache_evicted : ArmStatus

-- The code only compares the mode with `dequeue_timeout`.
pub data TimeoutMode : Type 0 where
  cycle_timeout dequeue_timeout : TimeoutMode

pub record Config : Type 0 where
  pub queue_length : ℕ
  pub timeout_mode : TimeoutMode
  pub drop_late_camera_data : Bool
  pub history_limit : ℕ
  pub prefetch_offset : ℕ
  pub prefetch_drop_first : Bool
  pub completion_count_validation : Bool
  pub send_default_on_empty_request : Bool
  pub default_payloads : Dict Bytes

-- Which callbacks `set_callbacks` has set.
pub record Callbacks : Type 0 where
  pub has_camera : Bool
  pub has_plc_feedback : Bool
  pub has_plc_stage : Bool

pub record Stats : Type 0 where
  pub total_items : ℕ
  pub validation_warnings : ℕ
  pub completed_tasks : ℕ
  pub dequeue_operations : ℕ
  pub overflow_drops : ℕ
  pub late_camera_discards : ℕ

pub data EventKind : Type 0 where
  enqueue dequeue_miss prefetch_wait dequeue_cache data_request_empty data_sent : EventKind
  count_mismatch count_jump task_done overflow_drop : EventKind

-- A row of `event_history`, with the payload that its `history_data` text is made from. `numbers`
-- are the values that the message text shows.
pub record Event : Type 0 where
  pub seq : ℕ
  pub ts : ℕ
  pub kind : EventKind
  pub is_warning : Bool
  pub arm_id : Option ℕ
  pub pointer : Option ℕ
  pub count : Option ℕ
  pub numbers : List ℕ
  pub payload : Option Bytes

-- The calls of the three callbacks, oldest first. A callback's exception is caught and logged, so
-- the call is all that the manager does.
pub data Effect : Type 0 where
  camera_trigger : ℕ → ℕ → Effect
  plc_feedback plc_stage : Bytes → Effect

-- The queues, their items and the output caches.
pub record Store : Type 0 where
  pub heap : ℕ → ArmQueueItem
  pub next_ref : ℕ
  pub arm1_queue : Dict ℕ
  pub arm2_queue : Dict ℕ
  pub arm_caches : Dict DequeueCache
  pub enqueue_seq_counter : ℕ

pub record Manager : Type 0 where
  pub config : Config
  pub callbacks : Callbacks
  pub store : Store
  pub arm_positions : Dict ℕ
  pub arm_statuses : Dict ArmStatus
  pub last_dequeue_pointers : Dict ℕ
  pub current_cycle_count : Option ℕ
  pub current_waiting_count : Option ℕ
  pub current_waiting_pointer : Option ℕ
  pub history_seq : ℕ
  pub event_history : List Event
  pub arm_prefetch_warmed : Dict Bool
  pub arm_last_confirmed_count : Dict (Option ℕ)
  pub stats : Stats
  pub effects : List Effect

-- `self.arm_data_queues.get(arm_id, {})`.
abbrev pub queue_of : Store → ℕ → Dict ℕ
queue_of s arm_id = if arm_id == 1 then s.arm1_queue else if arm_id == 2 then s.arm2_queue else []
