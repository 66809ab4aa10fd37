-- ===== src/Workflow/Camera3d.antt =====
-- The frames of the 3D camera: the points of the two arms, and the feedback `Done`.
use model_lib.Prelude.{
  ℕ, ◌/◌, ◌&&◌, ◌||◌, List, [], ◌∷◌, ◌++◌, map, Option, none, some, ◌==◌, if◌then◌else◌,
}
use model_lib.Dict
use model_lib.Text.{Bytes, strip, ends_with, drop_last}
use model_lib.Text.Integer.{ℤ, pos, negsuc, int_of_text, split_on}
use model_lib.Queue.Camera.{store_camera_data}
use model_lib.Workflow.State.{EnqueueCycle, Coordinator, enqueue_feedback, sends}
use model_lib.Workflow.Commands.{put_cycle}
use model_lib.Workflow.Camera2d.{without_brackets, non_empty}

-- The arm and the count, from the first two fields. The arm is the thousands of the flag.
unfoldable pub arm_and_count : List Bytes → Option (ℕ × ℤ)
arm_and_count (flag ∷ count ∷ rest) = elim (int_of_text flag) [
  | some (pos f) ↦ elim (int_of_text count) [
    | some n ↦ if f / 1000 == 1 || f / 1000 == 2 then some (f / 1000, n) else none
    | none ↦ none
  ]
  | some (negsuc f) ↦ none
  | none ↦ none
]
arm_and_count _ = none

-- The text of a segment, which ends in the terminator.
abbrev pub with_terminator : Bytes → Bytes
with_terminator text = if ends_with b'E' text then text else text ++ b'E' ∷ []

unfoldable pub parse_3d_text : Bytes → Option (ℕ × ℤ × Bytes)
unfolding arm_and_count without_brackets non_empty split_on
parse_3d_text [] = none
parse_3d_text (c ∷ cs) =
    let text = with_terminator (c ∷ cs) in
    let body = without_brackets (strip (drop_last text)) in
    elim (arm_and_count (non_empty (map strip (split_on b',' body)))) [
      | none ↦ none
      | some (arm_id, count) ↦ some (arm_id, count, text)
    ]

unfoldable pub parse_3d_segment : Bytes → Option (ℕ × ℤ × Bytes)
unfolding parse_3d_text
parse_3d_segment segment = parse_3d_text (strip segment)

-- `cycle.arm_ready.add(arm_id)`
abbrev pub arm_added : ℕ → EnqueueCycle → EnqueueCycle
arm_added arm_id cycle = record cycle {
  arm1_ready = cycle.arm1_ready || arm_id == 1;
  arm2_ready = cycle.arm2_ready || arm_id == 2;
}

-- `touched_counts.add(count)`
unfoldable pub add_count : ℕ → List ℕ → List ℕ
add_count n [] = n ∷ []
add_count n (k ∷ ks) = if k == n then k ∷ ks else k ∷ add_count n ks

-- The payload goes to the pointer of the cycle; the arm is ready if the queue took it.
unfoldable pub store_for_cycle :
    ℕ → ℕ → Bytes → ℕ → EnqueueCycle → Coordinator × List ℕ → Coordinator × List ℕ
unfolding put_cycle add_count
store_for_cycle arm_id count bytes now cycle (w, touched) =
    let r = store_camera_data count cycle.pointer bytes arm_id now w.queue_manager in
    let stored = record w { queue_manager = r.0 } in
    if r.1
    then (put_cycle count (arm_added arm_id cycle) stored, add_count count touched)
    else (stored, touched)

unfoldable pub store_parsed :
    Option (ℕ × ℤ × Bytes) → ℕ → Coordinator × List ℕ → Coordinator × List ℕ
unfolding store_for_cycle
store_parsed (some (arm_id, pos count, bytes)) now (w, touched) = elim (Dict.get count w.cycles) [
  | none ↦ (w, touched)
  | some cycle ↦ store_for_cycle arm_id count bytes now cycle (w, touched)
]
store_parsed _ now state = state

unfoldable pub store_segments : List Bytes → ℕ → Coordinator × List ℕ → Coordinator × List ℕ
unfolding store_parsed parse_3d_segment
store_segments [] now state = state
store_segments (segment ∷ segments) now state =
    store_segments segments now (store_parsed (parse_3d_segment segment) now state)

abbrev pub done_feedback : Bytes
done_feedback = b'D' ∷ b'o' ∷ b'n' ∷ b'e' ∷ []

-- `_try_send_done`: the cycle is closed when both arms are ready.
unfoldable pub try_send_done : ℕ → Coordinator → Coordinator
try_send_done count w = elim (Dict.get count w.cycles) [
  | none ↦ w
  | some cycle ↦
      if cycle.done_sent_to_plc
      then w
      else if cycle.arm1_ready && cycle.arm2_ready
      then sends (enqueue_feedback done_feedback) (record w { cycles = Dict.erase count w.cycles })
      else w
]

unfoldable pub try_all : List ℕ → Coordinator → Coordinator
unfolding try_send_done
try_all [] w = w
try_all (count ∷ counts) w = try_all counts (try_send_done count w)

-- The pieces with more than white space.
unfoldable pub with_text : List Bytes → List Bytes
with_text [] = []
with_text (piece ∷ pieces) = elim (strip piece) [
  | [] ↦ with_text pieces
  | c ∷ cs ↦ piece ∷ with_text pieces
]

unfoldable pub handle_3d_frame : Bytes → ℕ → Coordinator → Coordinator
unfolding store_segments try_all with_text split_on
handle_3d_frame frame now w =
    let r = store_segments (with_text (split_on b'A' (strip frame))) now (w, []) in try_all r.1 r.0
