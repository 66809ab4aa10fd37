-- ===== src/Tests/Plc.antt =====
-- The PLC handler on small inputs.
use model_lib.Prelude.{List, ◌≡◌, refl, Bool, true, false, [], ◌∷◌, some}
use model_lib.Text.{Bytes}
use model_lib.Queue.History.{returned, value_error, normal_status, build_arm_feedback_code}
use model_lib.Parser.{parse_plc_dequeue_data, detect_pointer_changes}
use model_lib.Plc.Stream.{Socket, all_bytes}
use model_lib.Plc.Servers.{listening, not_bound, PlcServers, new_plc_servers, get_plc_status}
use model_lib.Plc.Served.{PlcEvent, started, accepted, ended, plc_events}
use model_lib.Plc.Connections.{all_frames}
use model_lib.Plc.Frames.{IsCut, all_frames-IsCut}
use model_lib.Plc.Pointers.{
  parse_and_detect_dequeue_changes, parse_and_detect_dequeue_changes-detect,
}
use model_lib.Plc.Sending.{
  PlcHandler, enqueue, dequeue, deliveries, send_dequeue_feedback, send_dequeue_feedback-deliveries,
}

-- The same six bytes in two chunks and in one.
abbrev in_two : Socket
in_two = (0, 11 ∷ 0 ∷ []) ∷ (5, 0 ∷ 7 ∷ 0 ∷ []) ∷ []

abbrev in_one : Socket
in_one = (0, 11 ∷ 0 ∷ 5 ∷ 0 ∷ 7 ∷ 0 ∷ []) ∷ []

all_frames-IsCut_example :
    IsCut 6 (all_bytes in_two) (all_frames 6 in_two)
    × (all_bytes in_two ≡ all_bytes in_one → all_frames 6 in_two ≡ all_frames 6 in_one)
all_frames-IsCut_example = all_frames-IsCut 5 in_two in_one

abbrev frame : Bytes
frame = 0 ∷ 7 ∷ 0 ∷ 9 ∷ []

parse_and_detect_dequeue_changes-detect_example :
    ((parse_and_detect_dequeue_changes frame ((1, 7) ∷ [])).1
      ≡ (elim (parse_plc_dequeue_data frame) [
        | value_error ↦ []
        | returned current ↦ detect_pointer_changes current (some ((1, 7) ∷ []))
      ]))
    × ((parse_and_detect_dequeue_changes frame
          (parse_and_detect_dequeue_changes frame ((1, 7) ∷ [])).0).1
        ≡ [])
parse_and_detect_dequeue_changes-detect_example =
    parse_and_detect_dequeue_changes-detect frame ((1, 7) ∷ [])

abbrev pub plc : PlcHandler
plc = record {
  connections =
      (1, record { connection_type = enqueue; connected = true; works = true })
      ∷ (2, record { connection_type = dequeue; connected = true; works = true })
      ∷ (3, record { connection_type = dequeue; connected = true; works = false })
      ∷ [];
  sent = [];
}

abbrev code : Bytes
code = b'1' ∷ b'N' ∷ []

send_dequeue_feedback-deliveries_example :
    (n : PlcHandler) × (success : Bool) × (send_dequeue_feedback code plc ≡ returned (n, success))
    × (n.sent ≡ (2, code) ∷ [])
    × (success ≡ true)
unfolding deliveries build_arm_feedback_code
send_dequeue_feedback-deliveries_example =
    send_dequeue_feedback-deliveries 1 normal_status code plc refl

-- A start whose second port is taken, a good start, a client on each port, one that leaves.
abbrev morning : List PlcEvent
morning =
    started (listening 1) (not_bound 2)
    ∷ started (listening 3) (listening 4)
    ∷ accepted enqueue 1 true
    ∷ accepted dequeue 2 true
    ∷ accepted dequeue 3 true
    ∷ ended 2
    ∷ []

abbrev served : PlcServers
served = plc_events morning new_plc_servers

served_counts : get_plc_status served ≡ record {
  running = true;
  active_connections = 2;
  enqueue_connections = 1;
  dequeue_connections = 1;
}
unfolding get_plc_status plc_events
served_counts = refl
