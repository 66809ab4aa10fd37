-- ===== src/Plc/Connections.antt =====
-- The loops over a connection of the PLC: `_handle_enqueue_connection` and
-- `_handle_dequeue_connection`, up to the end of the stream. Meanwhile the handler runs, no other
-- thread closes the connection, and the callback is set and raises nothing. The records for the log
-- and the HMI are left out.
use model_lib.Prelude.{ℕ, zero, suc, List, [], ◌∷◌, none, some, if◌then◌else◌, length}
use model_lib.Dict
use model_lib.Text.{Bytes}
use model_lib.Plc.Stream.{Socket, all_bytes, recv_exact}
use model_lib.Plc.Pointers.{parse_and_detect_dequeue_changes}
use model_lib.Plc.Sending.{PlcHandler, close_connection}

-- A frame in front of those after it; the loop ends where `_recv_exact` gives none.
unfoldable pub next_frames : Bytes → List Bytes → List Bytes
next_frames [] rest = []
next_frames (b ∷ bs) rest = (b ∷ bs) ∷ rest

-- The frames that the loop reads, by fuel.
unfoldable pub read_frames : ℕ → ℕ → Socket → List Bytes
unfolding next_frames recv_exact
read_frames zero size s = []
read_frames (suc n) size s = let r = recv_exact size s in next_frames r.0 (read_frames n size r.1)

-- Every frame takes a byte, so the bytes of the stream are fuel enough.
abbrev pub all_frames : ℕ → Socket → List Bytes
all_frames size s = read_frames (suc (length (all_bytes s))) size s

-- `_handle_enqueue_connection`: the connection is closed in the end; beside, the frames that the
-- callback gets.
unfoldable pub handle_enqueue_connection : ℕ → Socket → PlcHandler → PlcHandler × List Bytes
unfolding Dict.get read_frames close_connection
handle_enqueue_connection id s h = elim (Dict.get id h.connections) [
  | none ↦ (h, [])
  | some conn ↦ (close_connection id h, if conn.connected then all_frames 6 s else [])
]

-- A frame goes to the callback where a pointer changed.
unfoldable pub take_changes : List Bytes → Dict.Dict ℕ → Dict.Dict ℕ × List Bytes
unfolding parse_and_detect_dequeue_changes
take_changes [] last = (last, [])
take_changes (frame ∷ frames) last =
    let (noted, changed) = parse_and_detect_dequeue_changes frame last in
    let (final, handed) = take_changes frames noted in
    (final, elim changed [ [] ↦ handed | c ∷ cs ↦ frame ∷ handed ])

-- `_handle_dequeue_connection`: likewise, with `last_dequeue_pointers` before and after.
unfoldable pub handle_dequeue_connection :
    ℕ → Socket → PlcHandler × Dict.Dict ℕ → PlcHandler × Dict.Dict ℕ × List Bytes
unfolding Dict.get read_frames close_connection take_changes
handle_dequeue_connection id s (h, last) = elim (Dict.get id h.connections) [
  | none ↦ (h, last, [])
  | some conn ↦
      let (noted, handed) = take_changes (if conn.connected then all_frames 4 s else []) last in
      (close_connection id h, noted, handed)
]
