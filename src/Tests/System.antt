-- ===== src/Tests/System.antt =====
-- The system on small inputs: what an arm asks for.
use model_lib.Prelude.{ℕ, List, ◌≡◌, refl, true, false, [], ◌∷◌, ◌++◌, none, some, All, arith}
use model_lib.Text.{Bytes, lstrip, rstrip, bytes_eq, is_space}
use model_lib.Text.Decimal.{decimal}
use model_lib.Plc.Sending.{deliveries, dequeue}
use model_lib.Parser.{command_count_pointer, ParsedPlcEnqueueData}
use model_lib.Cameras.Server.{new_camera_server, bytes}
use model_lib.Queue.Requests.{normal_code}
use model_lib.Queue.Completions.{done_code}
use model_lib.Arms.Link.{Attempt, ready, active, passive, chunk, failed}
use model_lib.Dict
use model_lib.Arms.Reach.{new_arm}
use model_lib.Arms.Controller.{
  send_to_arm, ArmConfig, ArmController, config_dict, passive_word, default_name, new_controller,
  constructed, find_mode, normal_mode, normalize_config, set_default_id, add_arms, build_arm,
}
use model_lib.Queue.State.{Callbacks}
use model_lib.System.Events.{
  Moment, SystemEvent, plc_enqueues, plc_dequeues, plc_accepts, plc_works, plc_ends, camera_accepts,
  camera_receives, arm_accepts, arm_receives, run_system,
}
use model_lib.System.Invariant.{IsValid}
use model_lib.System.Runs.{started, run_system-started-IsValid}
use model_lib.Arms.Commands.{data_word, extract_commands}
use model_lib.Arms.Separators.{IsSeparator, is_blank}
use model_lib.System.Commands.{
  data_request, completion, parse_arm_command, parse_completion, parse_count,
}
use model_lib.System.Understood.{IsUnderstood, counted, extract_commands-IsUnderstood}
use model_lib.System.Counted.{extract_commands-decimal}
use model_lib.System.Callbacks.{System, arm_command_callback}
use model_lib.System.Feedback.{arm_command_callback-request, arm_command_callback-completion}
use model_lib.Tests.Queue.{
  config, reached, points_1, cache_1, reached-Holds, reached-cached, reached-told,
}
use model_lib.Tests.Plc.{plc}

-- `data`, `1,5` and `1` in one text.
abbrev text : Bytes
text = data_word ++ b'1' ∷ b',' ∷ b'5' ∷ 10 ∷ b'1' ∷ []

extract_commands-IsUnderstood_example : All IsUnderstood (extract_commands text)
extract_commands-IsUnderstood_example = extract_commands-IsUnderstood text

line_end : IsSeparator (10 ∷ [])
unfolding is_space
line_end = is_blank (refl, tt)

-- A 1 and another one in the next line.
extract_commands-decimal_example :
    (extract_commands (counted (10 ∷ []) (decimal 1) ++ []) ≡ counted (10 ∷ []) (decimal 1) ∷ [])
    × (parse_arm_command (counted (10 ∷ []) (decimal 1)) ≡ completion (some 1))
extract_commands-decimal_example = extract_commands-decimal 1 (10 ∷ []) [] line_end tt

-- Arm 1 has reached a pointer and its link is down.
abbrev system : System
system = record {
  queue_manager = reached;
  plc_handler = plc;
  camera_server = new_camera_server false;
  arm_controller = record {
    arms = (1, new_arm 1 [] 8001 [] []) ∷ [];
    running = true;
    connection_mode = active;
  };
  field_order = command_count_pointer;
}

data_word-request : parse_arm_command data_word ≡ data_request
unfolding parse_arm_command bytes_eq lstrip rstrip is_space
data_word-request = refl

arm_command_callback-request_example :
    let (next, ok) = arm_command_callback (λ s. true) 1 data_word 8 system in
    (ok ≡ true)
    × (next.plc_handler.sent ≡ plc.sent ++ deliveries dequeue (normal_code 1) plc.connections)
    × (next.arm_controller ≡ (send_to_arm (λ s. true) 1 points_1 system.arm_controller).0)
arm_command_callback-request_example =
    arm_command_callback-request (λ s. true) 1 data_word 8 system points_1
      (omega arith, omega arith) reached-Holds reached-told data_word-request

one-completion : parse_arm_command (b'1' ∷ []) ≡ completion none
unfolding parse_arm_command parse_completion parse_count bytes_eq lstrip rstrip is_space
one-completion = refl

arm_command_callback-completion_example :
    let (next, ok) = arm_command_callback (λ s. true) 1 (b'1' ∷ []) 9 system in
    (ok ≡ true)
    × (next.plc_handler.sent ≡ plc.sent ++ deliveries dequeue (done_code 1) plc.connections)
    × (next.arm_controller ≡ system.arm_controller)
arm_command_callback-completion_example =
    arm_command_callback-completion (λ s. true) 1 (b'1' ∷ []) 9 system cache_1 none
      (omega arith, omega arith) reached-cached reached-told one-completion

abbrev all_set : Callbacks
all_set = record { has_camera = false; has_plc_feedback = true; has_plc_stage = true }

abbrev one_arm : ArmConfig
one_arm = record { id = none; host = some []; port = some 8001; name = none; bind_host = none }

abbrev made : ArmController
made = record {
  arms = (1, new_arm 1 [] 8001 (default_name 1) []) ∷ [];
  running = false;
  connection_mode = passive;
}

made_of_config : new_controller (config_dict ((1, one_arm) ∷ [])) passive_word [] ≡ constructed made
unfolding new_controller find_mode normal_mode bytes_eq lstrip rstrip is_space normalize_config
    set_default_id add_arms build_arm new_arm Dict.put
made_of_config = refl

-- All sockets take data, or all of them fail.
abbrev good : ℕ → Moment
good t = record { now = t; works = λ s. true; alive = λ s. true }

abbrev bad : ℕ → Moment
bad t = record { now = t; works = λ s. false; alive = λ s. false }

-- The PLC connects and announces a piece, the camera and an arm connect, the arm sends commands, asks
-- again when the sends begin to fail, and goes; one connection of the PLC ends.
abbrev events : List (Moment × SystemEvent)
events =
    (good 1, plc_accepts dequeue 2 true)
    ∷ (good 1, plc_enqueues (0 ∷ 1 ∷ 0 ∷ 5 ∷ 0 ∷ 7 ∷ []))
    ∷ (good 2, camera_accepts 20 [])
    ∷ (good 3, camera_receives (bytes points_1))
    ∷ (good 4, arm_accepts 1 30 [])
    ∷ (good 5, plc_dequeues (0 ∷ 7 ∷ 0 ∷ 0 ∷ []))
    ∷ (good 6, arm_receives 1 (chunk text))
    ∷ (bad 7, plc_works 2 false)
    ∷ (bad 7, arm_receives 1 (chunk data_word))
    ∷ (bad 8, arm_receives 1 failed)
    ∷ (bad 9, plc_ends 2)
    ∷ []

abbrev answers : ℕ → Attempt
answers id = ready 3

run_system-started-IsValid_example :
    IsValid
      (run_system events (started config all_set command_count_pointer (some 2) answers 0 made))
run_system-started-IsValid_example =
    run_system-started-IsValid config all_set command_count_pointer
      (config_dict ((1, one_arm) ∷ [])) passive_word [] made (some 2) answers 0 events
      made_of_config

-- Command 11 with count 517 at pointer 7, with a byte that follows.
abbrev frame : Bytes
frame = 0 ∷ 11 ∷ 2 ∷ 5 ∷ 0 ∷ 7 ∷ 255 ∷ []

abbrev parsed : ParsedPlcEnqueueData
parsed = record {
  command = 11;
  sensor_count = 517;
  enqueue_pointer = 7;
  additional_data = 255 ∷ [];
}
