-- ===== src/Workflow/Camera2d.antt =====
-- The frames of the 2D camera: READY, and the type of a part.
use model_lib.Prelude.{
  ℕ, ◌-◌, Bool, true, false, ◌&&◌, ◌||◌, List, [], ◌∷◌, ◌++◌, map, Option, none, some, leb, ◌==◌,
  if◌then◌else◌,
}
use model_lib.Dict
use model_lib.Text.{Bytes, strip, is_digit, bytes_eq, ends_with, drop_last}
use model_lib.Text.Decimal.{decimal, read_decimal}
use model_lib.Text.Integer.{ℤ, pos, negsuc, int_of_text, split_on}
use model_lib.Workflow.State.{EnqueueCycle, Coordinator, to_2d, sends}
use model_lib.Workflow.Commands.{no_type, put_cycle, send_3d_end}

abbrev upper : Bytes → Bytes
upper = map (λ c. if leb 97 c && leb c 122 then c - 32 else c)

abbrev ready_text : Bytes
ready_text = b'R' ∷ b'E' ∷ b'A' ∷ b'D' ∷ b'Y' ∷ []

unfoldable pub starts_with : ℕ → Bytes → Bool
starts_with c [] = false
starts_with c (x ∷ xs) = x == c

abbrev pub tail : Bytes → Bytes
tail [] = []
tail (x ∷ xs) = xs

-- `re.search(r"\d+", text).group(0)`: the first run of digits, empty where there is none.
unfoldable pub digit_run : Bytes → Bytes
digit_run [] = []
digit_run (c ∷ cs) = let rest = digit_run cs in if is_digit c then c ∷ rest else []

unfoldable pub first_digits : Bytes → Bytes
unfolding digit_run
first_digits [] = []
first_digits (c ∷ cs) =
    let rest = first_digits cs in if is_digit c then digit_run (c ∷ cs) else rest

-- The pieces that are not empty.
unfoldable pub non_empty : List Bytes → List Bytes
non_empty [] = []
non_empty ([] ∷ pieces) = non_empty pieces
non_empty ((c ∷ cs) ∷ pieces) = (c ∷ cs) ∷ non_empty pieces

-- `",".join(pieces)`
unfoldable pub join : List Bytes → Bytes
join [] = []
join (piece ∷ []) = piece
join (piece ∷ next ∷ pieces) = piece ++ b',' ∷ join (next ∷ pieces)

-- What a frame says.
pub data Frame2d : Type 0 where
  ready : Frame2d
  result : ℤ → Bytes → Frame2d

unfoldable pub is_ready_line : Bytes → Bool
unfolding bytes_eq
is_ready_line text =
    let u = upper text in
    bytes_eq u ready_text
    || bytes_eq u (b'(' ∷ (ready_text ++ b')' ∷ b'E' ∷ []))
    || bytes_eq u (ready_text ++ b'E' ∷ [])
    || bytes_eq u (b'(' ∷ (ready_text ++ b')' ∷ []))

unfoldable pub without_terminator : Bytes → Bytes
without_terminator text = if ends_with b'E' text then strip (drop_last text) else text

unfoldable pub without_brackets : Bytes → Bytes
unfolding starts_with
without_brackets text =
    if starts_with b'(' text && ends_with b')' text then strip (drop_last (tail text)) else text

unfoldable pub count_of_part : Bytes → Option ℤ
unfolding int_of_text first_digits
count_of_part part = elim (int_of_text part) [
  | some n ↦ some n
  | none ↦ elim (read_decimal (first_digits part)) [ none ↦ none | some n ↦ some (pos n) ]
]

unfoldable pub type_of_parts : List Bytes → Bytes
unfolding join non_empty
type_of_parts parts = elim (non_empty parts) [ [] ↦ no_type | p ∷ ps ↦ join (p ∷ ps) ]

-- The count and the type of the parts between the commas.
unfoldable pub result_of_parts : List Bytes → Option Frame2d
unfolding count_of_part type_of_parts
result_of_parts [] = none
result_of_parts (part ∷ parts) = elim (count_of_part part) [
  | none ↦ none
  | some count ↦ some (result count (type_of_parts parts))
]

unfoldable pub parse_body : Bytes → Option Frame2d
unfolding result_of_parts split_on
parse_body body =
    if bytes_eq (upper body) ready_text
    then some ready
    else result_of_parts (map strip (split_on b',' body))

unfoldable pub parse_2d_text : Bytes → Option Frame2d
unfolding is_ready_line parse_body without_terminator without_brackets
parse_2d_text [] = none
parse_2d_text (c ∷ cs) =
    if is_ready_line (c ∷ cs)
    then some ready
    else parse_body (without_brackets (without_terminator (c ∷ cs)))

unfoldable pub parse_2d_payload : Bytes → Option Frame2d
unfolding parse_2d_text
parse_2d_payload payload = parse_2d_text (strip payload)

abbrev pub request_message : ℕ → Bytes
request_message count = b'(' ∷ (decimal count ++ b')' ∷ b'E' ∷ [])

-- The cycle after a READY; the request mark is taken back if the message did not go out.
abbrev pub requested : Bool → EnqueueCycle → EnqueueCycle
requested sent cycle = record cycle { ready_received = true; request_sent_to_2d = sent }

unfoldable pub ready_for : ℕ → Bool → Coordinator → Coordinator
unfolding put_cycle
ready_for count sent w = elim (Dict.get count w.cycles) [
  | none ↦ w
  | some cycle ↦
      if cycle.end_received
      then w
      else if cycle.request_sent_to_2d
      then w
      else sends (to_2d (request_message count) sent) (put_cycle count (requested sent cycle) w)
]

unfoldable pub handle_2d_ready : Bool → Coordinator → Coordinator
unfolding ready_for
handle_2d_ready sent w = elim w.active_2d_window_count [
  | none ↦ w
  | some count ↦ ready_for count sent w
]

abbrev pub typed : Bytes → EnqueueCycle → EnqueueCycle
typed part_type cycle = record cycle { part_type = some part_type }

-- The type of a cycle that is still open; where the end was received but could not be sent, it is
-- sent now.
unfoldable pub take_type : ℕ → Bytes → Bool → Coordinator → Coordinator
unfolding put_cycle send_3d_end
take_type count part_type sent w = elim (Dict.get count w.cycles) [
  | none ↦ w
  | some cycle ↦
      if cycle.end_sent_to_3d
      then w
      else (let stored = put_cycle count (typed part_type cycle) w in
          if cycle.end_received then send_3d_end count none sent stored else stored)
]

-- No cycle has a negative count.
unfoldable pub take_result : ℤ → Bytes → Bool → Coordinator → Coordinator
unfolding take_type
take_result (pos count) part_type sent w = take_type count part_type sent w
take_result (negsuc n) part_type sent w = w

unfoldable pub handle_parsed : Option Frame2d → Bool → Bool → Coordinator → Coordinator
unfolding handle_2d_ready take_result
handle_parsed none replied sent w = w
handle_parsed (some ready) replied sent w = handle_2d_ready sent w
handle_parsed (some (result count part_type)) replied sent w =
    take_result count part_type sent (sends (to_2d (b'O' ∷ b'K' ∷ []) replied) w)

-- `replied` is what `send_to_camera` returned for the answer OK, and `sent` for the other message.
unfoldable pub handle_2d_frame : Bytes → Bool → Bool → Coordinator → Coordinator
unfolding parse_2d_payload handle_parsed
handle_2d_frame frame replied sent w = handle_parsed (parse_2d_payload frame) replied sent w
