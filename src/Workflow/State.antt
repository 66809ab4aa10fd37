-- ===== src/Workflow/State.antt =====
-- The state of `EnqueueWorkflowCoordinator`, with the queue manager that it calls.
use model_lib.Prelude.{ℕ, Bool, false, List, [], ◌∷◌, ◌++◌, Option, none}
use model_lib.Dict.{Dict}
use model_lib.Text.{Bytes}
use model_lib.Queue.State.{Manager}

-- `arm_ready` is a set that only ever gets 1 and 2: the two fields say which are in it.
pub record EnqueueCycle : Type 0 where
  pub count : ℕ
  pub pointer : ℕ
  pub part_type : Option Bytes
  pub ready_received : Bool
  pub request_sent_to_2d : Bool
  pub end_received : Bool
  pub end_sent_to_3d : Bool
  pub done_sent_to_plc : Bool
  pub arm1_ready : Bool
  pub arm2_ready : Bool

-- The code only compares the policy with `legacy`.
pub data UnknownEnqueuePolicy : Type 0 where
  ignore legacy : UnknownEnqueuePolicy

-- What the coordinator sends, oldest first: to the two cameras, and the feedback to the PLC. The
-- second argument says what `send_to_camera` returned.
pub data Sending : Type 0 where
  to_2d to_3d : Bytes → Bool → Sending
  enqueue_feedback : Bytes → Sending

pub record Coordinator : Type 0 where
  pub queue_manager : Manager
  pub unknown_enqueue_policy : UnknownEnqueuePolicy
  pub cycles : Dict EnqueueCycle
  pub active_2d_window_count : Option ℕ
  pub sendings : List Sending

abbrev pub new_cycle : ℕ → ℕ → EnqueueCycle
new_cycle count pointer = record {
  count = count;
  pointer = pointer;
  part_type = none;
  ready_received = false;
  request_sent_to_2d = false;
  end_received = false;
  end_sent_to_3d = false;
  done_sent_to_plc = false;
  arm1_ready = false;
  arm2_ready = false;
}

abbrev pub new_coordinator : Manager → UnknownEnqueuePolicy → Coordinator
new_coordinator m policy = record {
  queue_manager = m;
  unknown_enqueue_policy = policy;
  cycles = [];
  active_2d_window_count = none;
  sendings = [];
}

abbrev pub sends : Sending → Coordinator → Coordinator
sends s w = record w { sendings = w.sendings ++ s ∷ [] }
