-- ===== src/Workflow/Frames.antt =====
-- How the frames of the cameras are cut out of the received bytes: `on_camera_payload`,
-- `_drain_2d_frames`, `_drain_3d_frames`, `_pop_2d_frame_locked` and `_looks_like_2d_line` of
-- 队列管理/src/core/enqueue_workflow.py.
use model_lib.Prelude.{
  ℕ, zero, suc, ◌+◌, Bool, true, false, not, ◌&&◌, ◌||◌, List, [], ◌∷◌, ◌++◌, map, Option, none,
  some, ltb, leb, ◌==◌, if◌then◌else◌, length,
}
use model_lib.Text.{Bytes, is_digit, strip}
use model_lib.Text.Span.{span}
use model_lib.Text.Strip.{strip_by}
use model_lib.Text.Integer.{split_on}
use model_lib.Workflow.State.{Coordinator}
use model_lib.Workflow.Camera2d.{is_ready_line}
use model_lib.Workflow.Events.{Input, frame_2d, frame_3d, run}
use model_lib.Cameras.Server.{CameraKey, camera_2d, camera_3d}

-- `[^()]`
unfoldable pub not_bracket : ℕ → Bool
not_bracket c = not (c == b'(' || c == b')')

-- The end of `\([^()]*\)E`, after the characters that are no brackets.
unfoldable pub match_close : Bytes → Bytes → Option (Bytes × Bytes)
match_close body (c ∷ d ∷ rest) =
    if c == b')' && d == b'E' then some (b'(' ∷ (body ++ b')' ∷ b'E' ∷ []), rest) else none
match_close body _ = none

-- `\([^()]*\)E` at the start of a text, and what follows it.
unfoldable pub match_group : Bytes → Option (Bytes × Bytes)
unfolding match_close span not_bracket
match_group [] = none
match_group (c ∷ cs) =
    if c == b'(' then match_close (span not_bracket cs).0 (span not_bracket cs).1 else none

unfoldable pub match_second : Bytes → Bytes → Option (Bytes × Bytes)
unfolding match_group
match_second first [] = none
match_second first (c ∷ cs) = elim (match_group cs) [
  | none ↦ none
  | some m ↦ if c == b'A' then some (first ++ b'A' ∷ m.0, m.1) else none
]

-- `\([^()]*\)EA\([^()]*\)E` at the start of a text.
unfoldable pub match_frame : Bytes → Option (Bytes × Bytes)
unfolding match_group match_second
match_frame text = elim (match_group text) [ none ↦ none | some m ↦ match_second m.0 m.1 ]

-- `re.search`: the first frame of the 3D camera, and what follows it.
unfoldable pub search_frame : Bytes → Option (Bytes × Bytes)
unfolding match_frame
search_frame [] = none
search_frame (c ∷ cs) = elim (match_frame (c ∷ cs)) [ some m ↦ some m | none ↦ search_frame cs ]

-- A frame, if there is one, and what stays in the buffer.
unfoldable pub pop_3d_frame : Bytes → Option Bytes × Bytes
unfolding search_frame
pop_3d_frame buffer = elim (search_frame buffer) [
  | none ↦ (none, buffer)
  | some m ↦ (some m.0, m.1)
]

-- What `lstrip(b"\r\n\t ")` removes, and what `bytes.strip()` removes.
unfoldable pub is_line_blank : ℕ → Bool
is_line_blank c = (c == 13 || c == 10) || (c == 9 || c == 32)

unfoldable pub is_byte_space : ℕ → Bool
is_byte_space c = (leb 9 c && leb c 13) || c == 32

-- The text up to the first `)E`, and what follows it.
unfoldable pub find_end : Bytes → Option (Bytes × Bytes)
find_end (c ∷ d ∷ cs) =
    let rest = find_end (d ∷ cs) in
    let later : Option (Bytes × Bytes) = elim rest [ none ↦ none | some m ↦ some (c ∷ m.0, m.1) ] in
    if c == b')' && d == b'E' then some (c ∷ d ∷ [], cs) else later
find_end _ = none

-- What follows a carriage return: a line feed belongs to it.
unfoldable pub after_return : Bytes → Bytes
after_return [] = []
after_return (c ∷ cs) = if c == 10 then cs else c ∷ cs

-- The text up to the first line end, and what follows that.
unfoldable pub find_line : Bytes → Option (Bytes × Bytes)
unfolding after_return
find_line [] = none
find_line (c ∷ cs) =
    let later : Option (Bytes × Bytes) = elim (find_line cs) [
      | none ↦ none
      | some m ↦ some (c ∷ m.0, m.1)
    ] in
    if c == 10 then some ([], cs) else if c == 13 then some ([], after_return cs) else later

-- `re.fullmatch(r"\d+", text)`
unfoldable pub all_digits : Bytes → Bool
all_digits [] = true
all_digits (c ∷ cs) = is_digit c && all_digits cs

unfoldable pub is_number : Bytes → Bool
unfolding all_digits
is_number [] = false
is_number (c ∷ cs) = all_digits (c ∷ cs)

unfoldable pub first_is_number : List Bytes → Bool
unfolding is_number
first_is_number [] = false
first_is_number (part ∷ parts) = is_number (strip part)

unfoldable pub looks_like_2d_text : Bytes → Bool
unfolding is_ready_line first_is_number split_on
looks_like_2d_text [] = false
looks_like_2d_text (c ∷ cs) =
    if ltb 128 (length (c ∷ cs))
    then false
    else is_ready_line (c ∷ cs) || first_is_number (split_on b',' (c ∷ cs))

unfoldable pub looks_like_2d_line : Bytes → Bool
unfolding looks_like_2d_text
looks_like_2d_line payload = looks_like_2d_text (strip payload)

-- A line as a frame, where there is more than white space in it.
unfoldable pub line_frame : Bytes → Option Bytes
line_frame [] = none
line_frame (c ∷ cs) = some (c ∷ cs)

-- Without an end of any kind, the whole buffer where it looks like a frame.
unfoldable pub pop_candidate : Bytes → Option Bytes × Bytes
unfolding looks_like_2d_line strip_by is_byte_space
pop_candidate buffer =
    let candidate = strip_by is_byte_space buffer in
    if looks_like_2d_line candidate then (some candidate, []) else (none, buffer)

unfoldable pub pop_stripped : Bytes → Option Bytes × Bytes
unfolding find_end find_line line_frame pop_candidate strip_by is_byte_space
pop_stripped [] = (none, [])
pop_stripped (c ∷ cs) = elim (find_end (c ∷ cs)) [
  | some m ↦ (some m.0, m.1)
  | none ↦ elim (find_line (c ∷ cs)) [
    | some m ↦ (line_frame (strip_by is_byte_space m.0), m.1)
    | none ↦ pop_candidate (c ∷ cs)
  ]
]

-- `_pop_2d_frame_locked`
unfoldable pub pop_2d_frame : Bytes → Option Bytes × Bytes
unfolding pop_stripped span is_line_blank
pop_2d_frame buffer = pop_stripped (span is_line_blank buffer).1

-- The loops that drain a buffer, by fuel: the frames, and what stays.
unfoldable pub drain : (Bytes → Option Bytes × Bytes) → ℕ → Bytes → List Bytes × Bytes
drain pop zero buffer = ([], buffer)
drain pop (suc n) buffer = elim (pop buffer).0 [
  | none ↦ ([], (pop buffer).1)
  | some frame ↦ let rest = drain pop n (pop buffer).1 in (frame ∷ rest.0, rest.1)
]

-- The coordinator with its receive buffers.
pub record Receiver : Type 0 where
  pub coordinator : Coordinator
  pub buffer_2d : Bytes
  pub buffer_3d : Bytes

-- The frames of the 2D camera with what the sends for the n-th one return.
unfoldable pub inputs_2d : (ℕ → Bool × Bool) → ℕ → ℕ → List Bytes → List (ℕ × Input)
inputs_2d sent now n [] = []
inputs_2d sent now n (f ∷ fs) =
    (now, frame_2d f (sent n).0 (sent n).1) ∷ inputs_2d sent now (n + 1) fs

abbrev pub inputs_3d : ℕ → List Bytes → List (ℕ × Input)
inputs_3d now = map (λ f. (now, frame_3d f))

-- Every round of a loop takes at least one byte out of the buffer, so its length is fuel enough; one
-- round more finds the buffer without a frame.
unfoldable pub on_camera_payload : CameraKey → Bytes → (ℕ → Bool × Bool) → ℕ → Receiver → Receiver
unfolding drain pop_2d_frame pop_3d_frame inputs_2d run
on_camera_payload key [] sent now r = r
on_camera_payload camera_2d (b ∷ bs) sent now r =
    let all = r.buffer_2d ++ b ∷ bs in
    let (frames, rest) = drain pop_2d_frame (suc (length all)) all in
    record r { coordinator = run (inputs_2d sent now 0 frames) r.coordinator; buffer_2d = rest }
on_camera_payload camera_3d (b ∷ bs) sent now r =
    let all = r.buffer_3d ++ b ∷ bs in
    let (frames, rest) = drain pop_3d_frame (suc (length all)) all in
    record r { coordinator = run (inputs_3d now frames) r.coordinator; buffer_3d = rest }
