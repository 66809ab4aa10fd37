-- ===== src/Cameras/Connection.antt =====
-- The connection of a channel: what holds between two steps, and what a send does.
use model_lib.Prelude.{
  ℕ, ◌≡◌, refl, Bool, true, false, not, ◌&&◌, ◌||◌, List, [], ◌∷◌, ◌++◌, none, some, if◌then◌else◌,
  is_some, arith,
}
use model_lib.Text.{Bytes}
use model_lib.Arms.Link.{opt_list}
use model_lib.Cameras.Server.{
  Channel, new_channel, CameraReceived, bytes, failure, mark_disconnected, accept, is_nil,
  next_round, end_receiver, camera_receive, send_on, send_to_camera,
}

-- What happens to a channel while the server runs.
pub data ChannelEvent : Type 0 where
  accepts : ℕ → Bytes → ChannelEvent
  receives : CameraReceived → ChannelEvent
  sends : (ℕ → Bool) → Bytes → ChannelEvent

unfoldable pub channel_step : ChannelEvent → Channel → Channel
unfolding accept camera_receive send_to_camera
channel_step (accepts client address) c = accept client address c
channel_step (receives r) c = (camera_receive true r c).0
channel_step (sends works payload) c = (send_to_camera works payload c).0

unfoldable pub run_channel : List ChannelEvent → Channel → Channel
unfolding channel_step
run_channel [] c = c
run_channel (e ∷ es) c = run_channel es (channel_step e c)

-- A channel is connected exactly where it has a socket, and an address; and then a thread reads.
abbrev pub IsValid : Channel → Type 0
IsValid c =
    (is_some c.client_socket ≡ c.connected)
    × (is_some c.address ≡ c.connected)
    × (c.connected ≡ true → is_some c.reading ≡ true)

pub camera_receive-IsValid :
    (r : CameraReceived) (c : Channel) → IsValid c → IsValid (camera_receive true r c).0
unfolding camera_receive end_receiver next_round mark_disconnected
camera_receive-IsValid failure c v = ground arith
camera_receive-IsValid (bytes []) c v = ground arith
camera_receive-IsValid (bytes (b ∷ bs)) c v = ground arith

pub send_to_camera-IsValid :
    (works : ℕ → Bool) (payload : Bytes) (c : Channel)
    → IsValid c
    → IsValid (send_to_camera works payload c).0
unfolding send_to_camera send_on mark_disconnected
send_to_camera-IsValid works [] c v = v
send_to_camera-IsValid works (b ∷ bs) c v = ground arith

pub accept-IsValid :
    (client : ℕ) (address : Bytes) (c : Channel) → IsValid c → IsValid (accept client address c)
unfolding accept
accept-IsValid client address c v = ground arith

channel_step-IsValid : (e : ChannelEvent) (c : Channel) → IsValid c → IsValid (channel_step e c)
unfolding channel_step
channel_step-IsValid (accepts client address) c v = accept-IsValid client address c v
channel_step-IsValid (receives r) c v = camera_receive-IsValid r c v
channel_step-IsValid (sends works payload) c v = send_to_camera-IsValid works payload c v

run_channel-IsValid :
    (es : List ChannelEvent) (c : Channel) → IsValid c → IsValid (run_channel es c)
unfolding run_channel
run_channel-IsValid [] c v = v
run_channel-IsValid (e ∷ es) c v =
    run_channel-IsValid es (channel_step e c) (channel_step-IsValid e c v)

-- Whatever clients, data, failures and sends come to a channel in any order, it counts as connected
-- exactly where it has a client's socket, and an address, and then a thread reads.
pub run_channel-new_channel-IsValid :
    (es : List ChannelEvent) → IsValid (run_channel es new_channel)
run_channel-new_channel-IsValid es = run_channel-IsValid es new_channel (ground arith)

send_to_camera-connected :
    (works : ℕ → Bool) (payload : Bytes) (c : Channel) (s : ℕ)
    → c.client_socket ≡ some s
    → c.connected ≡ true
    → let (next, ok) = send_to_camera works payload c in
      (ok ≡ (not (is_nil payload) && works s))
      × (next.sent ≡ (if ok then c.sent ++ (s, payload) ∷ [] else c.sent))
      × (next.connected ≡ (is_nil payload || works s))
      × (next.closed ≡ (if next.connected then c.closed else s ∷ c.closed))
unfolding send_to_camera send_on mark_disconnected
send_to_camera-connected works [] c s h k = ground arith
send_to_camera-connected works (b ∷ bs) c s h k = ground arith

-- Over a channel that is not connected nothing is sent. Over a connected one a send reports success
-- exactly where there is a payload and the socket takes it; then the payload went out once. Otherwise
-- nothing goes out, and a socket that refuses a payload is closed and the channel disconnected.
pub send_to_camera-sent :
    (works : ℕ → Bool) (payload : Bytes) (c : Channel)
    → ((c.connected && is_some c.client_socket) ≡ false
        → send_to_camera works payload c ≡ (c, false))
      × ((s : ℕ)
          → c.client_socket ≡ some s
          → c.connected ≡ true
          → let (next, ok) = send_to_camera works payload c in
            (ok ≡ (not (is_nil payload) && works s))
            × (next.sent ≡ (if ok then c.sent ++ (s, payload) ∷ [] else c.sent))
            × (next.connected ≡ (is_nil payload || works s))
            × (next.closed ≡ (if next.connected then c.closed else s ∷ c.closed)))
unfolding send_to_camera
send_to_camera-sent works [] c = (λ h. refl, send_to_camera-connected works [] c)
send_to_camera-sent works (b ∷ bs) c =
    (λ h. ground arith, send_to_camera-connected works (b ∷ bs) c)

-- A client that takes the place of a connected one loses its connection: the thread still reads the
-- socket before it, which is closed, and when that read fails the thread closes the new client's
-- socket and ends.
pub accept-camera_receive-replaced :
    (client : ℕ) (address : Bytes) (c : Channel) (s : ℕ)
    → c.reading ≡ some s
    → ((accept client address c).reading ≡ some s)
      × let next = (camera_receive true failure (accept client address c)).0 in
        (next.connected ≡ false)
        × (next.reading ≡ none)
        × (next.closed ≡ client ∷ (opt_list c.client_socket ++ c.closed))
unfolding accept camera_receive end_receiver mark_disconnected
accept-camera_receive-replaced client address c s h = (rw h refl, (refl, refl, refl))
