-- ===== src/System/Runs.antt =====
-- The whole system from its start, whatever happens.
use model_lib.Prelude.{
  ℕ, ◌≡◌, refl, sym, subst, false, List, [], ◌∷◌, map, Option, none, some, arith, All, if_then,
}
use model_lib.Dict
use model_lib.Text.{Bytes}
use model_lib.Queue.State.{Config, Callbacks}
use model_lib.Queue.Calls.{Call, new_manager, sets_callbacks}
use model_lib.Queue.Calls
use model_lib.Queue.Invariant.Completion.{run-new_manager-IsValid}
use model_lib.Queue.Invariant.Dequeue.{handle_dequeue_pointers-IsValid}
use model_lib.Parser.{FieldOrder, parse_plc_enqueue_data}
use model_lib.Plc.Servers.{new_plc_servers}
use model_lib.Cameras.Server.{
  new_camera_server, start_server, start_2d, start_3d, stop_server, stop_channel, mark_disconnected,
}
use model_lib.Cameras.Connection as Connection
use model_lib.Cameras.Connection.{
  accepts, accept-IsValid, camera_receive-IsValid, run_channel-new_channel-IsValid,
}
use model_lib.Arms.Link.{ArmInfo, Attempt, ConnectionMode, reconnect_arm}
use model_lib.Arms.Valid as Links
use model_lib.Arms.Reach.{Reach-IsValid}
use model_lib.Arms.Controller.{
  ArmsConfig, ArmController, new_controller, constructed, connect_all, connect_arms,
  reconnect_round,
}
use model_lib.Arms.Built.{IsNew, IsNew-Reach}
use model_lib.Arms.Constructed.{new_controller-IsNew}
use model_lib.System.Callbacks.{System, plc_enqueue_callback, plc_dequeue_callback}
use model_lib.System.Events.{Moment, SystemEvent, system_step, run_system}
use model_lib.System.Events.{
  plc_enqueues, plc_dequeues, plc_accepts, plc_works, plc_ends, camera_accepts, camera_receives,
  arm_connects, arms_reconnect, arm_accepts, arm_receives,
}
use model_lib.System.Delivered.{
  add_connection-IsValidPlc, close_connection-IsValidPlc, set_works-IsValidPlc,
}
use model_lib.System.Kept.{hand_on-IsValid, receive_from_arm-IsValid}
use model_lib.System.Invariant.{
  IsValid, IsValidArm, with_manager-IsValid, on_parsed-IsValid, on_link-IsValid,
}

reconnect-All :
    (mode : ConnectionMode) (answer : ℕ → Attempt) (now : ℕ) (arms : Dict.Dict ArmInfo)
    → All IsValidArm arms
    → All IsValidArm (map (λ e. (e.0, reconnect_arm mode (answer e.0) now e.1)) arms)
reconnect-All mode answer now [] h = tt
reconnect-All mode answer now ((id, arm) ∷ arms) h = (
  Links.reconnect_arm-IsValid mode (answer id) now arm h.0,
  reconnect-All mode answer now arms h.1,
)

connect-All :
    (mode : ConnectionMode) (answer : ℕ → Attempt) (now : ℕ) (arms : Dict.Dict ArmInfo)
    → All IsValidArm arms
    → All IsValidArm (connect_arms mode answer now arms).0
unfolding connect_arms
connect-All mode answer now [] h = tt
connect-All mode answer now ((id, arm) ∷ arms) h =
    (Links.connect_first-IsValid mode (answer id) now arm h.0, connect-All mode answer now arms h.1)

reconnect_round-IsValid :
    (answer : ℕ → Attempt) (now : ℕ) (s : System)
    → IsValid s
    → IsValid (record s { arm_controller = reconnect_round answer now s.arm_controller })
unfolding reconnect_round
reconnect_round-IsValid answer now s v =
    let c = s.arm_controller in
    let next : ArmController = record c {
      arms = map (λ e. (e.0, reconnect_arm c.connection_mode (answer e.0) now e.1)) c.arms;
    } in
    subst (λ a. IsValid (record s { arm_controller = a })) (sym (if_then c.running next c v.runs))
      (record {
        queues = v.queues;
        plc = v.plc;
        channel = v.channel;
        arms = reconnect-All c.connection_mode answer now c.arms v.arms;
        runs = v.runs;
      })

system_step-IsValid :
    (e : Moment × SystemEvent) (s : System) → IsValid s → IsValid (system_step e s)
unfolding system_step plc_enqueue_callback plc_dequeue_callback
system_step-IsValid (m, plc_enqueues b) s v =
    on_parsed-IsValid m.works m.now (parse_plc_enqueue_data s.field_order b) s v
system_step-IsValid (m, plc_dequeues b) s v =
    with_manager-IsValid _ s (handle_dequeue_pointers-IsValid b m.now s.queue_manager v.queues) v
system_step-IsValid (m, plc_accepts t id sends) s v = record {
  queues = v.queues;
  plc = add_connection-IsValidPlc t id sends s.plc_handler v.plc;
  channel = v.channel;
  arms = v.arms;
  runs = v.runs;
}
system_step-IsValid (m, plc_works id sends) s v = record {
  queues = v.queues;
  plc = set_works-IsValidPlc id sends s.plc_handler v.plc;
  channel = v.channel;
  arms = v.arms;
  runs = v.runs;
}
system_step-IsValid (m, plc_ends id) s v = record {
  queues = v.queues;
  plc = close_connection-IsValidPlc id s.plc_handler v.plc;
  channel = v.channel;
  arms = v.arms;
  runs = v.runs;
}
system_step-IsValid (m, camera_accepts client address) s v = record {
  queues = v.queues;
  plc = v.plc;
  channel = accept-IsValid client address s.camera_server.channel_2d v.channel;
  arms = v.arms;
  runs = v.runs;
}
system_step-IsValid (m, camera_receives r) s v = hand_on-IsValid _ _ (record {
  queues = v.queues;
  plc = v.plc;
  channel = camera_receive-IsValid r s.camera_server.channel_2d v.channel;
  arms = v.arms;
  runs = v.runs;
})
system_step-IsValid (m, arm_connects arm_id answer) s v =
    on_link-IsValid arm_id _ s
      (Links.connect_first-IsValid s.arm_controller.connection_mode answer m.now) v
system_step-IsValid (m, arms_reconnect answer) s v = reconnect_round-IsValid answer m.now s v
system_step-IsValid (m, arm_accepts arm_id client address) s v =
    on_link-IsValid arm_id _ s
      (Links.attach_passive_connection-IsValid m.alive client address m.now) v
system_step-IsValid (m, arm_receives arm_id r) s v =
    receive_from_arm-IsValid m.works arm_id r m.now s v

run_system-IsValid :
    (es : List (Moment × SystemEvent)) (s : System) → IsValid s → IsValid (run_system es s)
unfolding run_system
run_system-IsValid [] s v = v
run_system-IsValid (e ∷ es) s v =
    run_system-IsValid es (system_step e s) (system_step-IsValid e s v)

-- The system after the modules were made, with the socket on which the camera's port is listened on
-- (or none, which does not stop the start), and after `connect_all` has run.
unfoldable pub started :
    Config → Callbacks → FieldOrder → Option ℕ → (ℕ → Attempt) → ℕ → ArmController → System
unfolding connect_all start_server
started config callbacks order bound answer now arms = record {
  queue_manager = Calls.run ((now, sets_callbacks callbacks) ∷ []) (new_manager config);
  plc_handler = new_plc_servers.handler;
  camera_server = (start_server bound none (new_camera_server false)).0;
  arm_controller = (connect_all answer now arms).0;
  field_order = order;
}

new-All : (mode : ConnectionMode) (arms : Dict.Dict ArmInfo) → All IsNew arms → All IsValidArm arms
new-All mode [] h = tt
new-All mode ((id, arm) ∷ arms) h =
    (Reach-IsValid (IsNew-Reach mode id arm h.0), new-All mode arms h.1)

start_server-IsValid :
    (bound : Option ℕ)
    → Connection.IsValid (start_server bound none (new_camera_server false)).0.channel_2d
unfolding start_server start_2d start_3d stop_server stop_channel mark_disconnected
start_server-IsValid none = ground arith
start_server-IsValid (some b) = ground arith

-- From a system whose modules were made from any configuration that the arm controller does not
-- refuse: whatever the PLC, the camera and the arms send, in any order, with connections of the PLC,
-- the camera and the arms that come, end and begin to fail at any event, between two events the
-- queues keep their invariant, the PLC's connections have distinct names and count as connected, the
-- camera's channel counts as connected exactly where it has a client, and every connected arm has a
-- socket and a receiver.
pub run_system-started-IsValid :
    (config : Config) (callbacks : Callbacks) (order : FieldOrder) (arms_config : ArmsConfig)
    (mode listen_host : Bytes) (c : ArmController) (bound : Option ℕ) (answer : ℕ → Attempt)
    (now : ℕ) (es : List (Moment × SystemEvent))
    → new_controller arms_config mode listen_host ≡ constructed c
    → IsValid (run_system es (started config callbacks order bound answer now c))
unfolding started connect_all
run_system-started-IsValid config callbacks order arms_config mode listen_host c bound answer now es
      made =
    let (_, _, _, new, _) = (new_controller-IsNew arms_config mode listen_host).2 c made in
    run_system-IsValid es (started config callbacks order bound answer now c) (record {
      queues = run-new_manager-IsValid config ((now, sets_callbacks callbacks) ∷ []);
      plc = (tt, tt);
      channel = start_server-IsValid bound;
      arms = connect-All c.connection_mode answer now c.arms (new-All c.connection_mode c.arms new);
      runs = refl;
    })
