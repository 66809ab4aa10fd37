-- ===== src/System/Events.antt =====
-- What happens to the system in the mode with one camera, in any order.
use model_lib.Prelude.{ℕ, Bool, true, List, [], ◌∷◌, Option, none, some}
use model_lib.Dict
use model_lib.Text.{Bytes}
use model_lib.Cameras.Server.{CameraReceived, accept, camera_receive}
use model_lib.Plc.Sending.{ConnectionType, PlcHandler, close_connection}
use model_lib.Plc.Servers.{add_connection}
use model_lib.Arms.Link.{ArmInfo, Attempt, Received, attach_passive_connection, connect_first}
use model_lib.Arms.Controller.{reconnect_round}
use model_lib.System.Callbacks.{
  System, put_arm, plc_enqueue_callback, plc_dequeue_callback, camera_data_callback,
  receive_from_arm,
}

-- What the devices answer while an event is handled: the time, the sockets that take data, and the
-- sockets that `_is_socket_alive` finds alive.
pub record Moment : Type 0 where
  pub now : ℕ
  pub works : ℕ → Bool
  pub alive : ℕ → Bool

-- The messages of the PLC, its connections that come, that take data or fail from now on, and that
-- end, the clients and data of the 2D camera, the attempts to connect to the
-- arms with what the operating system answers, the clients in passive mode, and what arms send.
pub data SystemEvent : Type 0 where
  plc_enqueues plc_dequeues : Bytes → SystemEvent
  plc_accepts : ConnectionType → ℕ → Bool → SystemEvent
  plc_works : ℕ → Bool → SystemEvent
  plc_ends : ℕ → SystemEvent
  camera_accepts : ℕ → Bytes → SystemEvent
  camera_receives : CameraReceived → SystemEvent
  arm_connects : ℕ → Attempt → SystemEvent
  arms_reconnect : (ℕ → Attempt) → SystemEvent
  arm_accepts : ℕ → ℕ → Bytes → SystemEvent
  arm_receives : ℕ → Received → SystemEvent

-- The data that the camera's receiver thread hands on.
unfoldable pub hand_on : Option Bytes → System → System
unfolding camera_data_callback
hand_on none s = s
hand_on (some raw_data) s = camera_data_callback raw_data s

-- A step on the link to one arm.
unfoldable pub on_link : ℕ → (ArmInfo → ArmInfo) → System → System
on_link arm_id f s = elim (Dict.get arm_id s.arm_controller.arms) [
  | none ↦ s
  | some arm ↦ put_arm arm_id (f arm) s
]

-- A connection whose `sendall` succeeds, or raises, from now on.
unfoldable pub set_works : ℕ → Bool → PlcHandler → PlcHandler
unfolding Dict.get Dict.put
set_works id sends h = elim (Dict.get id h.connections) [
  | none ↦ h
  | some c ↦ record h { connections = Dict.put id (record c { works = sends }) h.connections }
]

unfoldable pub system_step : Moment × SystemEvent → System → System
unfolding plc_enqueue_callback plc_dequeue_callback accept camera_receive hand_on on_link
    receive_from_arm add_connection set_works close_connection
system_step (m, plc_enqueues b) s = plc_enqueue_callback m.works b m.now s
system_step (m, plc_dequeues b) s = plc_dequeue_callback b m.now s
system_step (m, plc_accepts t id sends) s = record s {
  plc_handler = add_connection t id sends s.plc_handler;
}
system_step (m, plc_works id sends) s = record s { plc_handler = set_works id sends s.plc_handler }
system_step (m, plc_ends id) s = record s { plc_handler = close_connection id s.plc_handler }
system_step (m, camera_accepts client address) s = record s {
  camera_server = record s.camera_server {
    channel_2d = accept client address s.camera_server.channel_2d;
  };
}
system_step (m, camera_receives r) s =
    let c = camera_receive true r s.camera_server.channel_2d in
    hand_on c.1 (record s { camera_server = record s.camera_server { channel_2d = c.0 } })
system_step (m, arm_connects arm_id answer) s =
    on_link arm_id (λ arm. (connect_first s.arm_controller.connection_mode answer m.now arm).0) s
system_step (m, arms_reconnect answer) s = record s {
  arm_controller = reconnect_round answer m.now s.arm_controller;
}
system_step (m, arm_accepts arm_id client address) s =
    on_link arm_id (attach_passive_connection m.alive client address m.now) s
system_step (m, arm_receives arm_id r) s = receive_from_arm m.works arm_id r m.now s

unfoldable pub run_system : List (Moment × SystemEvent) → System → System
unfolding system_step
run_system [] s = s
run_system (e ∷ es) s = run_system es (system_step e s)
