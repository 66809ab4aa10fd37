-- ===== src/Workflow/Commands.antt =====
-- The commands 11 and 12 of the PLC. `sent` is what `send_to_camera` returns.
use model_lib.Prelude.{
  ℕ, Bool, true, false, ◌||◌, [], ◌∷◌, ◌++◌, Option, none, some, ◌==◌, if◌then◌else◌, opt_eq,
}
use model_lib.Dict
use model_lib.Text.{Bytes, strip, is_ascii}
use model_lib.Text.Decimal.{decimal}
use model_lib.Queue.Enqueue.{enqueue_item, handle_plc_command}
use model_lib.Workflow.State.{
  EnqueueCycle, Coordinator, UnknownEnqueuePolicy, ignore, legacy, to_3d, new_cycle, sends,
}

abbrev pub no_type : Bytes
no_type = b'0' ∷ b'0' ∷ b',' ∷ b'0' ∷ b'0' ∷ []

abbrev pub text_or_no_type : Bytes → Bytes
text_or_no_type [] = no_type
text_or_no_type (c ∷ cs) = c ∷ cs

unfoldable pub normalize_2d_type : Option Bytes → Bytes
normalize_2d_type none = no_type
normalize_2d_type (some text) = text_or_no_type (strip text)

-- `bool(text)` of a text that may be `None`.
abbrev pub is_truthy : Option Bytes → Bool
is_truthy none = false
is_truthy (some []) = false
is_truthy (some (c ∷ cs)) = true

-- `a or b`.
abbrev pub first_truthy : Option Bytes → Option Bytes → Option Bytes
first_truthy a b = if is_truthy a then a else b

abbrev pub start_message : ℕ → Bytes
start_message count = b'1' ∷ b'1' ∷ b',' ∷ decimal count

abbrev pub end_message : ℕ → Bytes → Bytes
end_message count text = b'1' ∷ b'2' ∷ b',' ∷ (decimal count ++ b',' ∷ text)

unfoldable pub put_cycle : ℕ → EnqueueCycle → Coordinator → Coordinator
put_cycle count cycle w = record w { cycles = Dict.put count cycle w.cycles }

-- `_handle_start`.
unfoldable pub handle_start : ℕ → ℕ → ℕ → Bool → Coordinator → Coordinator
unfolding put_cycle
handle_start sensor_count pulse_pointer now sent w =
    let opened = record (put_cycle sensor_count (new_cycle sensor_count pulse_pointer) w) {
      active_2d_window_count = some sensor_count;
      queue_manager = (enqueue_item sensor_count pulse_pointer now w.queue_manager).0;
    } in
    sends (to_3d (start_message sensor_count) sent) opened

-- `_send_3d_end`: the mark is taken back if the message did not go out, and stays where the encoding
-- of the text raises, which goes on to the caller.
unfoldable pub send_3d_end : ℕ → Option Bytes → Bool → Coordinator → Coordinator
unfolding put_cycle normalize_2d_type is_ascii
send_3d_end sensor_count override sent w = elim (Dict.get sensor_count w.cycles) [
  | none ↦ w
  | some cycle ↦
      if cycle.end_sent_to_3d
      then w
      else (let text = normalize_2d_type (first_truthy override cycle.part_type) in
          if is_ascii text
          then sends (to_3d (end_message cycle.count text) sent)
              (put_cycle sensor_count (record cycle { end_sent_to_3d = sent }) w)
          else put_cycle sensor_count (record cycle { end_sent_to_3d = true }) w)
]

-- The cycle that command 12 finds or makes.
abbrev pub found_cycle : ℕ → ℕ → Coordinator → EnqueueCycle
found_cycle sensor_count pulse_pointer w = elim (Dict.get sensor_count w.cycles) [
  | none ↦ new_cycle sensor_count pulse_pointer
  | some cycle ↦ cycle
]

abbrev pub ended : ℕ → EnqueueCycle → EnqueueCycle
ended pulse_pointer cycle = record cycle { pointer = pulse_pointer; end_received = true }

-- The first section of `_handle_end`: the end is noted and the window is closed.
unfoldable pub note_end : ℕ → ℕ → Coordinator → Coordinator
unfolding put_cycle
note_end sensor_count pulse_pointer w =
    record (put_cycle sensor_count (ended pulse_pointer (found_cycle sensor_count pulse_pointer w))
      w) {
        active_2d_window_count =
            if opt_eq w.active_2d_window_count sensor_count then none else w.active_2d_window_count;
      }

unfoldable pub handle_end : ℕ → ℕ → Bool → Coordinator → Coordinator
unfolding note_end send_3d_end
handle_end sensor_count pulse_pointer sent w =
    send_3d_end sensor_count
      (if is_truthy (found_cycle sensor_count pulse_pointer w).part_type
        then none
        else some no_type)
      sent (note_end sensor_count pulse_pointer w)

-- An unknown command, by the policy.
unfoldable pub unknown_command : UnknownEnqueuePolicy → ℕ → ℕ → ℕ → ℕ → Coordinator → Coordinator
unknown_command ignore command sensor_count pulse_pointer now w = w
unknown_command legacy command sensor_count pulse_pointer now w = record w {
  queue_manager = (handle_plc_command command sensor_count pulse_pointer now w.queue_manager).0;
}

unfoldable pub handle_plc_enqueue : ℕ → ℕ → ℕ → ℕ → Bool → Coordinator → Coordinator
unfolding handle_start handle_end unknown_command
handle_plc_enqueue command sensor_count pulse_pointer now sent w =
    if command == 11 || command == 17
    then handle_start sensor_count pulse_pointer now sent w
    else if command == 12 || command == 18
    then handle_end sensor_count pulse_pointer sent w
    else unknown_command w.unknown_enqueue_policy command sensor_count pulse_pointer now w
