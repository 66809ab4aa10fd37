-- ===== src/Tests/Cameras.antt =====
-- The camera server on small inputs.
use model_lib.Prelude.{
  ℕ, ◌≡◌, ◌↔◌, refl, true, false, not, ◌&&◌, ◌||◌, [], ◌∷◌, ◌++◌, none, some, is_some,
  if◌then◌else◌,
}
use model_lib.Text.{Bytes}
use model_lib.Arms.Link.{opt_list}
use model_lib.Cameras.Server.{
  Channel, new_channel, accept, failure, camera_receive, send_to_camera, is_nil, is_heartbeat,
}
use model_lib.Cameras.Heartbeat.{IsHeartbeat, is_heartbeat_iff}
use model_lib.Cameras.Connection.{send_to_camera-sent, accept-camera_receive-replaced}

-- ` h`, with an end of line.
abbrev letter_h : Bytes
letter_h = 32 ∷ b'h' ∷ 13 ∷ 10 ∷ []

is_heartbeat_iff_example : (is_heartbeat letter_h ≡ true) ↔ IsHeartbeat letter_h
is_heartbeat_iff_example = is_heartbeat_iff letter_h

-- A channel with a client on socket 5.
abbrev with_client : Channel
with_client = record new_channel {
  client_socket = some 5;
  address = some [];
  connected = true;
  reading = some 5;
}

send_to_camera-sent_example :
    ((with_client.connected && is_some with_client.client_socket) ≡ false
      → send_to_camera (λ s. false) letter_h with_client ≡ (with_client, false))
    × ((s : ℕ)
        → with_client.client_socket ≡ some s
        → with_client.connected ≡ true
        → let (next, ok) = send_to_camera (λ s. false) letter_h with_client in
          (ok ≡ (not (is_nil letter_h) && false))
          × (next.sent ≡ (if ok then with_client.sent ++ (s, letter_h) ∷ [] else with_client.sent))
          × (next.connected ≡ (is_nil letter_h || false))
          × (next.closed ≡ (if next.connected then with_client.closed else s ∷ with_client.closed)))
send_to_camera-sent_example = send_to_camera-sent (λ s. false) letter_h with_client

accept-camera_receive-replaced_example :
    ((accept 6 [] with_client).reading ≡ some 5)
    × let next = (camera_receive true failure (accept 6 [] with_client)).0 in
      (next.connected ≡ false)
      × (next.reading ≡ none)
      × (next.closed ≡ 6 ∷ (opt_list with_client.client_socket ++ with_client.closed))
accept-camera_receive-replaced_example = accept-camera_receive-replaced 6 [] with_client 5 refl
