-- ===== src/System/Callbacks.antt =====
-- The callbacks that `setup_module_callbacks` of 队列管理/src/main.py sets up, in the mode with one
-- camera (`legacy_single_camera`). A message that the queue manager hands to its PLC callbacks goes
-- through the PLC handler. In the mode with two cameras the callbacks are the coordinator's methods.
use model_lib.Prelude.{
  ℕ, Bool, true, false, ◌||◌, List, [], ◌∷◌, Option, none, some, ◌==◌, if◌then◌else◌, length, drop,
}
use model_lib.Dict
use model_lib.Text.{Bytes, hi_byte, lo_byte}
use model_lib.Queue.State.{Manager, Effect, camera_trigger, plc_feedback, plc_stage}
use model_lib.Queue.History.{Outcome, returned, value_error}
use model_lib.Queue.Enqueue.{handle_plc_command, normalize_plc_command}
use model_lib.Queue.Camera.{ingest_camera_data}
use model_lib.Queue.Dequeue.{handle_dequeue_pointers}
use model_lib.Queue.Arm.{handle_arm_data_request, handle_arm_completion}
use model_lib.Parser.{FieldOrder, ParsedPlcEnqueueData, parse_plc_enqueue_data}
use model_lib.Plc.Sending.{PlcHandler, send_dequeue_feedback, send_enqueue_feedback}
use model_lib.Cameras.Server.{CameraServer, send_to_camera}
use model_lib.Arms.Link.{ArmInfo, Received, receive_step, lose}
use model_lib.Arms.Commands.{extract_commands}
use model_lib.Arms.Controller.{ArmController, send_to_arm}
use model_lib.System.Commands.{ArmCommand, data_request, completion, ignored, parse_arm_command}

pub record System : Type 0 where
  pub queue_manager : Manager
  pub plc_handler : PlcHandler
  pub camera_server : CameraServer
  pub arm_controller : ArmController
  pub field_order : FieldOrder

-- `plc_feedback_callback` and `plc_stage_callback`; the queue manager logs an exception of theirs and
-- goes on. There is no camera callback.
unfoldable pub deliver_effect : Effect → PlcHandler → PlcHandler
unfolding send_dequeue_feedback send_enqueue_feedback
deliver_effect (plc_feedback code) h = elim (send_dequeue_feedback code h) [
  | returned r ↦ r.0
  | value_error ↦ h
]
deliver_effect (plc_stage code) h = (send_enqueue_feedback code h).0
deliver_effect (camera_trigger command count) h = h

unfoldable pub deliver : List Effect → PlcHandler → PlcHandler
unfolding deliver_effect
deliver [] h = h
deliver (e ∷ es) h = deliver es (deliver_effect e h)

-- The queue manager after a call, which has handed out the messages that are new.
unfoldable pub with_manager : Manager → System → System
unfolding deliver
with_manager m s = record s {
  queue_manager = m;
  plc_handler = deliver (drop (length s.queue_manager.effects) m.effects) s.plc_handler;
}

-- The message that starts the camera.
abbrev pub trigger_payload : ℕ → ℕ → Bytes
trigger_payload command count =
    hi_byte command ∷ lo_byte command ∷ hi_byte count ∷ lo_byte count ∷ []

-- `works` says whether a send on a socket succeeds.
unfoldable pub trigger_camera : (ℕ → Bool) → ParsedPlcEnqueueData → System → System
unfolding send_to_camera normalize_plc_command
trigger_camera works parsed s =
    let normalized = normalize_plc_command parsed.command in
    let payload = trigger_payload normalized parsed.sensor_count in
    if normalized == 1 || (normalized == 11 || normalized == 12)
    then record s {
      camera_server = record s.camera_server {
        channel_2d = (send_to_camera works payload s.camera_server.channel_2d).0;
      };
    }
    else s

unfoldable pub on_parsed : (ℕ → Bool) → ℕ → Outcome ParsedPlcEnqueueData → System → System
unfolding with_manager trigger_camera
on_parsed works now value_error s = s
on_parsed works now (returned parsed) s =
    let r =
      handle_plc_command parsed.command parsed.sensor_count parsed.enqueue_pointer now
        s.queue_manager in
    trigger_camera works parsed (with_manager r.0 s)

unfoldable pub plc_enqueue_callback : (ℕ → Bool) → Bytes → ℕ → System → System
unfolding on_parsed
plc_enqueue_callback works plc_data_bytes now s =
    on_parsed works now (parse_plc_enqueue_data s.field_order plc_data_bytes) s

unfoldable pub plc_dequeue_callback : Bytes → ℕ → System → System
unfolding with_manager
plc_dequeue_callback plc_data_bytes now s =
    with_manager (handle_dequeue_pointers plc_data_bytes now s.queue_manager) s

-- The count of the payload is handed on, but the queue manager does not read it.
unfoldable pub camera_data_callback : Bytes → System → System
unfolding with_manager
camera_data_callback raw_data s = with_manager (ingest_camera_data raw_data s.queue_manager).0 s

unfoldable pub send_answer : (ℕ → Bool) → ℕ → Option Bytes → System → System
unfolding send_to_arm
send_answer works arm_id none s = s
send_answer works arm_id (some payload) s = record s {
  arm_controller = (send_to_arm works arm_id payload s.arm_controller).0;
}

-- Whether the callback returns, or an exception of the queue manager goes through it.
unfoldable pub after_request :
    (ℕ → Bool) → ℕ → Manager × Outcome (Option Bytes) → System → System × Bool
unfolding with_manager send_answer
after_request works arm_id (m, value_error) s = (with_manager m s, false)
after_request works arm_id (m, returned answer) s =
    (send_answer works arm_id answer (with_manager m s), true)

unfoldable pub after_completion : Manager × Outcome Bool → System → System × Bool
unfolding with_manager
after_completion (m, value_error) s = (with_manager m s, false)
after_completion (m, returned answer) s = (with_manager m s, true)

unfoldable pub on_arm_command : (ℕ → Bool) → ℕ → ArmCommand → ℕ → System → System × Bool
unfolding after_request after_completion
on_arm_command works arm_id data_request now s =
    after_request works arm_id (handle_arm_data_request arm_id now s.queue_manager) s
on_arm_command works arm_id (completion reported) now s =
    after_completion (handle_arm_completion arm_id reported now s.queue_manager) s
on_arm_command works arm_id ignored now s = (s, true)

unfoldable pub arm_command_callback : (ℕ → Bool) → ℕ → Bytes → ℕ → System → System × Bool
unfolding on_arm_command parse_arm_command
arm_command_callback works arm_id command now s =
    on_arm_command works arm_id (parse_arm_command command) now s

-- The loop of `_receive_loop` over the commands of a text, up to an exception.
unfoldable pub run_commands : (ℕ → Bool) → ℕ → List Bytes → ℕ → System → System × Bool
unfolding arm_command_callback
run_commands works arm_id [] now s = (s, true)
run_commands works arm_id (cmd ∷ cmds) now s =
    let next = arm_command_callback works arm_id cmd now s in
    let rest = run_commands works arm_id cmds now next.0 in if next.1 then rest else next

abbrev pub put_arm : ℕ → ArmInfo → System → System
put_arm arm_id arm s = record s {
  arm_controller = record s.arm_controller { arms = Dict.put arm_id arm s.arm_controller.arms };
}

unfoldable pub lose_arm : ℕ → System → System
unfolding lose
lose_arm arm_id s = elim (Dict.get arm_id s.arm_controller.arms) [
  | none ↦ s
  | some arm ↦ put_arm arm_id (lose s.arm_controller.connection_mode arm) s
]

-- After an exception the receiver thread gives the connection up.
unfoldable pub take_text : (ℕ → Bool) → ℕ → Option Bytes → ℕ → System → System
unfolding run_commands extract_commands lose_arm
take_text works arm_id none now s = s
take_text works arm_id (some text) now s =
    let r = run_commands works arm_id (extract_commands text) now s in
    if r.1 then r.0 else lose_arm arm_id r.0

-- One round of the receiver thread of an arm, with what it brings about.
unfoldable pub receive_from_arm : (ℕ → Bool) → ℕ → Received → ℕ → System → System
unfolding receive_step take_text
receive_from_arm works arm_id received now s = elim (Dict.get arm_id s.arm_controller.arms) [
  | none ↦ s
  | some arm ↦
      let r = receive_step s.arm_controller.connection_mode s.arm_controller.running received arm in
      take_text works arm_id r.1 now (put_arm arm_id r.0 s)
]
