-- ===== src/Cameras/Started.antt =====
-- How the server starts and stops.
use model_lib.Prelude.{
  ℕ, ◌≡◌, true, false, not, ◌&&◌, ◌||◌, Option, none, some, if◌then◌else◌, is_some, arith,
}
use model_lib.Cameras.Server.{
  Channel, CameraServer, mark_disconnected, stop_channel, stop_server, start_3d, start_2d,
  start_server,
}

abbrev pub IsClosed : Channel → Type 0
IsClosed c = (c.client_socket ≡ none) × (c.server ≡ none) × (c.connected ≡ false)

abbrev pub IsStopped : CameraServer → Type 0
IsStopped s = (s.running ≡ false) × IsClosed s.channel_2d × IsClosed s.channel_3d

-- A server that does not run starts exactly where the port of the 2D camera, and that of the 3D
-- camera if it is enabled, can be listened on. Then it runs and listens on those; otherwise it has
-- stopped, without a listener or a client.
pub start_server-running :
    (a b : Option ℕ) (s : CameraServer)
    → s.running ≡ false
    → s.channel_3d.server ≡ none
    → let (next, ok) = start_server a b s in
      (ok ≡ (is_some a && (not s.camera3d_enabled || is_some b)))
      × (ok ≡ true
          → (next.running ≡ true)
            × (next.channel_2d.server ≡ a)
            × (next.channel_3d.server ≡ (if s.camera3d_enabled then b else none)))
      × (ok ≡ false → IsStopped next)
unfolding start_server start_2d start_3d stop_server stop_channel mark_disconnected
start_server-running none b s h k = ground arith
start_server-running (some a) none s h k = ground arith
start_server-running (some a) (some b) s h k = ground arith
