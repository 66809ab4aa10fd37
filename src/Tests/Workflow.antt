-- ===== src/Tests/Workflow.antt =====
-- One cycle from command 11 to `Done`.
use model_lib.Prelude.{ℕ, ◌≡◌, refl, true, false, List, [], ◌∷◌, ◌++◌, none, some}
use model_lib.Dict
use model_lib.Text
use model_lib.Text.{Bytes, is_ascii, is_space, lstrip, rstrip}
use model_lib.Text.Decimal
use model_lib.Text.Integer
use model_lib.Text.Integer.{pos}
use model_lib.Queue.State.{Config, cycle_timeout}
use model_lib.Queue.Calls
use model_lib.Queue.Calls.{Call, new_manager, sets_callbacks}
use model_lib.Queue.Camera.{store_camera_data, is_late}
use model_lib.Queue.Enqueue.{
  enqueue_item, enqueue_pair, validate_pointer, needs_room, add_pair, new_item,
}
use model_lib.Queue.History.{append_history, push_event}
use model_lib.Workflow.State.{
  EnqueueCycle, Coordinator, ignore, new_coordinator, to_2d, to_3d, enqueue_feedback, new_cycle,
  sends,
}
use model_lib.Workflow.Commands
use model_lib.Workflow.Commands.{
  end_message, no_type, found_cycle, handle_start, handle_end, send_3d_end, note_end,
  normalize_2d_type,
}
use model_lib.Workflow.Camera2d
use model_lib.Workflow.Camera2d.{result, handle_parsed}
use model_lib.Workflow.Camera3d
use model_lib.Workflow.Camera3d.{try_send_done, done_feedback}
use model_lib.Workflow.Events.{Input, commands, frame_2d, frame_3d, step, run}
use model_lib.Workflow.Invariant.{IsValid}
use model_lib.Workflow.Invariant.Storing.{run-new_coordinator-IsValid}
use model_lib.Workflow.Ends.{type_at_end, handle_end_once}
use model_lib.Workflow.Done.{try_send_done_once}

abbrev config : Config
config = record {
  queue_length = 3;
  timeout_mode = cycle_timeout;
  drop_late_camera_data = true;
  history_limit = 20;
  prefetch_offset = 0;
  prefetch_drop_first = false;
  completion_count_validation = true;
  send_default_on_empty_request = true;
  default_payloads = [];
}

-- `(1000,5)EA(2000,5)E`
abbrev points_of_both : Bytes
points_of_both =
    b'(' ∷ b'1' ∷ b'0' ∷ b'0' ∷ b'0' ∷ b',' ∷ b'5' ∷ b')' ∷ b'E' ∷ b'A' ∷ b'(' ∷ b'2' ∷ b'0' ∷ b'0'
    ∷ b'0' ∷ b',' ∷ b'5' ∷ b')' ∷ b'E' ∷ []

-- `5,01,02`
abbrev type_of_part : Bytes
type_of_part = b'5' ∷ b',' ∷ b'0' ∷ b'1' ∷ b',' ∷ b'0' ∷ b'2' ∷ []

abbrev inputs : List (ℕ × Input)
inputs =
    (1, commands 11 5 7 true)
    ∷ (2, frame_2d (b'R' ∷ b'E' ∷ b'A' ∷ b'D' ∷ b'Y' ∷ []) true true)
    ∷ (3, frame_2d type_of_part true true)
    ∷ (4, commands 12 5 7 true)
    ∷ (5, frame_3d points_of_both)
    ∷ []

abbrev pub start : Coordinator
start = new_coordinator (Calls.run [] (new_manager config)) ignore

run-new_coordinator-IsValid_example : IsValid (run inputs start)
run-new_coordinator-IsValid_example = run-new_coordinator-IsValid config [] ignore inputs

abbrev opened : Coordinator
opened = handle_start 5 7 1 true start

-- After command 12, and a type that comes too late.
abbrev after_late : Coordinator
after_late =
    handle_parsed (some (result (pos 5) (b'7' ∷ []))) true true (handle_end 5 7 true opened)

abbrev marked : EnqueueCycle
marked = record (new_cycle 5 7) { end_received = true; end_sent_to_3d = true }

handle_end_once_example :
    let after = handle_end 5 7 true opened in
    (after.sendings ≡ opened.sendings ++ to_3d (end_message 5 (type_at_end none)) true ∷ [])
    × (Dict.get 5 after.cycles ≡ some marked)
    × (handle_end 5 9 true after_late ≡ note_end 5 9 after_late)
    × ((handle_end 5 9 true after_late).sendings ≡ after_late.sendings)
    × (handle_parsed (some (result (pos 5) (b'8' ∷ []))) true true after_late
        ≡ sends (to_2d (b'O' ∷ b'K' ∷ []) true) after_late)
unfolding handle_start Commands.put_cycle Dict.put Dict.get Calls.run handle_end send_3d_end
    note_end normalize_2d_type handle_parsed is_ascii is_space lstrip rstrip
handle_end_once_example =
    handle_end_once 5 7 true opened refl refl refl after_late marked refl refl 9 (b'8' ∷ []) true
      true

abbrev complete : EnqueueCycle
complete = record (new_cycle 5 7) { arm1_ready = true; arm2_ready = true }

abbrev waiting : Coordinator
waiting = record start { cycles = (5, complete) ∷ [] }

try_send_done_once_example :
    let after = try_send_done 5 waiting in
    (after.sendings ≡ enqueue_feedback done_feedback ∷ [])
    × (Dict.get 5 after.cycles ≡ none)
    × (try_send_done 5 after ≡ after)
unfolding Dict.get
try_send_done_once_example = try_send_done_once 5 waiting complete (refl, tt) refl refl

-- What goes out in that cycle.
cycle_sendings :
    (run inputs start).sendings
    ≡ to_3d (b'1' ∷ b'1' ∷ b',' ∷ b'5' ∷ []) true
      ∷ to_2d (b'(' ∷ b'5' ∷ b')' ∷ b'E' ∷ []) true
      ∷ to_2d (b'O' ∷ b'K' ∷ []) true
      ∷ to_3d (b'1' ∷ b'2' ∷ b',' ∷ b'5' ∷ b',' ∷ b'0' ∷ b'1' ∷ b',' ∷ b'0' ∷ b'2' ∷ []) true
      ∷ enqueue_feedback done_feedback
      ∷ []
unfolding Dict.get Dict.put Dict.erase Text.is_space Text.lstrip Text.rstrip Text.bytes_eq Text.keep
    Text.ends_with Text.drop_last Decimal.digits_fuel Decimal.decimal Decimal.decimal4
    Decimal.read_from Decimal.read_decimal Integer.digits_value Integer.negate Integer.signed
    Integer.int_of_text Integer.cons_first Integer.split_on Commands.normalize_2d_type
    Commands.put_cycle Commands.handle_start Commands.send_3d_end Commands.note_end
    Commands.handle_end Commands.unknown_command Commands.handle_plc_enqueue Camera2d.starts_with
    Camera2d.digit_run Camera2d.first_digits Camera2d.non_empty Camera2d.join Camera2d.is_ready_line
    Camera2d.without_terminator Camera2d.without_brackets Camera2d.count_of_part
    Camera2d.type_of_parts Camera2d.result_of_parts Camera2d.parse_body Camera2d.parse_2d_text
    Camera2d.parse_2d_payload Camera2d.ready_for Camera2d.handle_2d_ready Camera2d.take_type
    Camera2d.take_result Camera2d.handle_parsed Camera2d.handle_2d_frame Camera3d.arm_and_count
    Camera3d.parse_3d_text Camera3d.parse_3d_segment Camera3d.add_count Camera3d.store_for_cycle
    Camera3d.store_parsed Camera3d.store_segments Camera3d.try_send_done Camera3d.try_all
    Camera3d.with_text Camera3d.handle_3d_frame Calls.new_manager Calls.run store_camera_data
    is_late enqueue_item enqueue_pair validate_pointer needs_room add_pair new_item append_history
    push_event step run
cycle_sendings = refl
