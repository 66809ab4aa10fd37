-- ===== src/Cameras/Server.antt =====
-- The cameras' TCP server: `DualCameraServer` of 队列管理/src/core/camera_server.py.
-- A socket is a number, and what the operating system answers is an argument. A channel has, with its
-- `CameraClientState`, its listening socket, the socket that its receiver thread reads (none where
-- there is no such thread), the sockets that were closed and the payloads that went out.
use model_lib.Prelude.{
  ℕ, Bool, true, false, ◌&&◌, ◌||◌, List, [], ◌∷◌, ◌++◌, map, Option, none, some, leb, ◌==◌,
  if◌then◌else◌, length,
}
use model_lib.Text.{Bytes, bytes_eq}
use model_lib.Text.Strip.{strip_by}
use model_lib.Parser.Counts.{upper_char}
use model_lib.Arms.Link.{opt_list}

pub record Channel : Type 0 where
  pub client_socket : Option ℕ
  pub address : Option Bytes
  pub connected : Bool
  pub server : Option ℕ
  pub reading : Option ℕ
  pub closed : List ℕ
  pub sent : List (ℕ × Bytes)

pub data CameraKey : Type 0 where
  camera_2d camera_3d : CameraKey

pub record CameraServer : Type 0 where
  pub channel_2d : Channel
  pub channel_3d : Channel
  pub camera3d_enabled : Bool
  pub running : Bool

abbrev pub new_channel : Channel
new_channel = record {
  client_socket = none;
  address = none;
  connected = false;
  server = none;
  reading = none;
  closed = [];
  sent = [];
}

abbrev pub new_camera_server : Bool → CameraServer
new_camera_server camera3d_enabled = record {
  channel_2d = new_channel;
  channel_3d = new_channel;
  camera3d_enabled = camera3d_enabled;
  running = false;
}

-- `_mark_disconnected`
unfoldable pub mark_disconnected : Channel → Channel
mark_disconnected c = record c {
  client_socket = none;
  address = none;
  connected = false;
  closed = opt_list c.client_socket ++ c.closed;
}

-- The body of `_accept_loop` for a client: it takes the place of the one before it, which is closed.
-- A receiver thread that runs already is left alone, so it still reads the socket that it read.
unfoldable pub accept : ℕ → Bytes → Channel → Channel
accept client address c = record c {
  client_socket = some client;
  address = some address;
  connected = true;
  closed = opt_list c.client_socket ++ c.closed;
  reading = elim c.reading [ none ↦ some client | some s ↦ some s ];
}

-- The characters that `_is_heartbeat` strips: `\r`, `\n`, the zero byte and the blank.
unfoldable pub is_filler : ℕ → Bool
is_filler c = (c == 13 || c == 10) || (c == 0 || c == 32)

abbrev pub heartbeat_max_len : ℕ
heartbeat_max_len = 4

unfoldable pub all_zero : Bytes → Bool
all_zero [] = true
all_zero (c ∷ cs) = c == 0 && all_zero cs

abbrev pub is_nil : Bytes → Bool
is_nil [] = true
is_nil (c ∷ cs) = false

unfoldable pub is_heartbeat : Bytes → Bool
unfolding all_zero is_filler strip_by bytes_eq
is_heartbeat data' =
    let stripped = strip_by is_filler data' in
    is_nil data'
    || ((leb (length data') heartbeat_max_len && all_zero data')
        || (is_nil stripped
            || (bytes_eq (map upper_char stripped) (b'H' ∷ []) && length stripped == 1)))

-- What `recv` answers to the receiver thread; no bytes are the end of the stream. A callback that
-- raises is a failure that comes next.
pub data CameraReceived : Type 0 where
  bytes : Bytes → CameraReceived
  failure : CameraReceived

-- The head of the loop: the thread goes on with the socket that the channel has now, or ends.
unfoldable pub next_round : Bool → Channel → Channel
next_round running c = record c {
  reading = if running && c.connected then c.client_socket else none;
}

-- The thread ends after `_mark_disconnected`.
unfoldable pub end_receiver : Channel → Channel
unfolding mark_disconnected
end_receiver c = record (mark_disconnected c) { reading = none }

-- One round of `_recv_loop`, and the data for the callback.
unfoldable pub camera_receive : Bool → CameraReceived → Channel → Channel × Option Bytes
unfolding end_receiver next_round is_heartbeat
camera_receive running failure c = (end_receiver c, none)
camera_receive running (bytes []) c = (end_receiver c, none)
camera_receive running (bytes (b ∷ bs)) c =
    (next_round running c, if is_heartbeat (b ∷ bs) then none else some (b ∷ bs))

-- `works` says whether `sendall` on the socket succeeds.
unfoldable pub send_on : (ℕ → Bool) → Bytes → ℕ → Channel → Channel × Bool
unfolding mark_disconnected
send_on works payload s c =
    if works s
    then (record c { sent = c.sent ++ (s, payload) ∷ [] }, true)
    else (mark_disconnected c, false)

unfoldable pub send_to_camera : (ℕ → Bool) → Bytes → Channel → Channel × Bool
unfolding send_on
send_to_camera works [] c = (c, false)
send_to_camera works (b ∷ bs) c = elim c.client_socket [
  | none ↦ (c, false)
  | some s ↦ if c.connected then send_on works (b ∷ bs) s c else (c, false)
]

-- What `stop` does with one channel.
unfoldable pub stop_channel : Channel → Channel
unfolding mark_disconnected
stop_channel c =
    let d = mark_disconnected c in
    record d { server = none; closed = opt_list d.server ++ d.closed }

unfoldable pub stop_server : CameraServer → CameraServer
unfolding stop_channel
stop_server s = record s {
  running = false;
  channel_2d = stop_channel s.channel_2d;
  channel_3d = stop_channel s.channel_3d;
}

abbrev pub with_2d : Option ℕ → CameraServer → CameraServer
with_2d server s = record s { channel_2d = record s.channel_2d { server = server } }

abbrev pub with_3d : Option ℕ → CameraServer → CameraServer
with_3d server s = record s { channel_3d = record s.channel_3d { server = server } }

-- The second half of `start`.
unfoldable pub start_3d : Option ℕ → CameraServer → CameraServer × Bool
unfolding stop_server
start_3d none s = if s.camera3d_enabled then (stop_server s, false) else (s, true)
start_3d (some b) s = if s.camera3d_enabled then (with_3d (some b) s, true) else (s, true)

unfoldable pub start_2d : Option ℕ → Option ℕ → CameraServer → CameraServer × Bool
unfolding stop_server start_3d
start_2d none bound_3d s = (stop_server s, false)
start_2d (some a) bound_3d s = start_3d bound_3d (with_2d (some a) s)

-- The arguments are the listening sockets, or none where creating or binding one raises.
unfoldable pub start_server : Option ℕ → Option ℕ → CameraServer → CameraServer × Bool
unfolding start_2d
start_server bound_2d bound_3d s =
    if s.running then (s, true) else start_2d bound_2d bound_3d (record s { running = true })

-- `get_status`: the channels that are reported, and whether they are connected.
unfoldable pub get_status : CameraServer → List (CameraKey × Bool × Option Bytes)
get_status s =
    let first : CameraKey × Bool × Option Bytes =
      (camera_2d, s.channel_2d.connected, s.channel_2d.address) in
    let second : CameraKey × Bool × Option Bytes =
      (camera_3d, s.channel_3d.connected, s.channel_3d.address) in
    if s.camera3d_enabled then first ∷ second ∷ [] else first ∷ []
