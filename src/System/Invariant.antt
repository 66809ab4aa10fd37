-- ===== src/System/Invariant.antt =====
-- What holds of the whole system between two events.
use model_lib.Prelude.{
  ℕ, ◌≡◌, sym, subst, Bool, true, Option, none, some, All, OnSome-some, Option-cases, Bool-cases,
  inl, inr, if_then, if_else, ◌||◌, ◌==◌, length, drop,
}
use model_lib.Dict
use model_lib.Dict.Distinct.{All-put, get-OnSome}
use model_lib.Text.{Bytes}
use model_lib.Queue.State.{Manager}
use model_lib.Queue.History.{Outcome, returned, value_error}
use model_lib.Queue.Enqueue.{normalize_plc_command}
use model_lib.Queue.Invariant.Valid
use model_lib.Queue.Invariant.Enqueue.{handle_plc_command-IsValid}
use model_lib.Parser.{ParsedPlcEnqueueData}
use model_lib.Cameras.Server.{send_to_camera}
use model_lib.Cameras.Connection as Connection
use model_lib.Cameras.Connection.{send_to_camera-IsValid, camera_receive-IsValid}
use model_lib.System.Events.{on_link}
use model_lib.System.Delivered.{IsValidPlc, deliver-connections}
use model_lib.Arms.Link.{ArmInfo, send_data}
use model_lib.Arms.Valid as Links
use model_lib.Arms.Controller.{send_to_arm}
use model_lib.System.Callbacks.{
  System, with_manager, trigger_camera, trigger_payload, on_parsed, send_answer, put_arm,
}

abbrev pub IsValidArm : ℕ × ArmInfo → Type 0
IsValidArm e = Links.IsValid e.1

-- The queues are well formed, so are the PLC's connections, the camera's channel and each arm's link,
-- and the arm controller runs.
pub record IsValid (s : System) : Type 0 where
  pub queues : Valid.IsValid s.queue_manager
  pub plc : IsValidPlc s.plc_handler.connections
  pub channel : Connection.IsValid s.camera_server.channel_2d
  pub arms : All IsValidArm s.arm_controller.arms
  pub runs : s.arm_controller.running ≡ true

pub with_manager-IsValid :
    (m : Manager) (s : System) → Valid.IsValid m → IsValid s → IsValid (with_manager m s)
unfolding with_manager
with_manager-IsValid m s q v = record {
  queues = q;
  plc =
      subst IsValidPlc
        (sym (deliver-connections (drop (length s.queue_manager.effects) m.effects) s.plc_handler))
        v.plc;
  channel = v.channel;
  arms = v.arms;
  runs = v.runs;
}

pub put_arm-IsValid :
    (arm_id : ℕ) (arm : ArmInfo) (s : System)
    → Links.IsValid arm
    → IsValid s
    → IsValid (put_arm arm_id arm s)
put_arm-IsValid arm_id arm s a v = record {
  queues = v.queues;
  plc = v.plc;
  channel = v.channel;
  arms = All-put IsValidArm arm_id arm s.arm_controller.arms (λ j e. a) v.arms;
  runs = v.runs;
}

-- A step on the link to one arm keeps what a step on a link keeps.
pub on_link-IsValid :
    (arm_id : ℕ) (f : ArmInfo → ArmInfo) (s : System)
    → ((arm : ArmInfo) → Links.IsValid arm → Links.IsValid (f arm))
    → IsValid s
    → IsValid (on_link arm_id f s)
unfolding on_link
on_link-IsValid arm_id f s keeps v = elim (Option-cases (Dict.get arm_id s.arm_controller.arms)) [
  | inl e ↦ rw (e, on_link) v
  | inr (arm, e) ↦
      let found =
        OnSome-some Links.IsValid _ arm
          (get-OnSome Links.IsValid arm_id s.arm_controller.arms v.arms) e in
      rw (e, on_link) (put_arm-IsValid arm_id (f arm) s (keeps arm found) v)
]

trigger_camera-IsValid :
    (works : ℕ → Bool) (parsed : ParsedPlcEnqueueData) (s : System)
    → IsValid s
    → IsValid (trigger_camera works parsed s)
unfolding trigger_camera
trigger_camera-IsValid works parsed s v =
    let n = normalize_plc_command parsed.command in
    let payload = trigger_payload n parsed.sensor_count in
    let sent : System = record s {
      camera_server = record s.camera_server {
        channel_2d = (send_to_camera works payload s.camera_server.channel_2d).0;
      };
    } in
    let kept : IsValid sent = record {
      queues = v.queues;
      plc = v.plc;
      channel = send_to_camera-IsValid works payload s.camera_server.channel_2d v.channel;
      arms = v.arms;
      runs = v.runs;
    } in
    elim (Bool-cases (n == 1 || (n == 11 || n == 12))) [
      | inl yes' ↦ subst IsValid (sym (if_then (n == 1 || (n == 11 || n == 12)) sent s yes')) kept
      | inr no' ↦ subst IsValid (sym (if_else (n == 1 || (n == 11 || n == 12)) sent s no')) v
    ]

pub on_parsed-IsValid :
    (works : ℕ → Bool) (now : ℕ) (r : Outcome ParsedPlcEnqueueData) (s : System)
    → IsValid s
    → IsValid (on_parsed works now r s)
unfolding on_parsed
on_parsed-IsValid works now value_error s v = v
on_parsed-IsValid works now (returned parsed) s v = trigger_camera-IsValid works parsed _ (
    with_manager-IsValid _ s
      (handle_plc_command-IsValid parsed.command parsed.sensor_count parsed.enqueue_pointer now
        s.queue_manager v.queues)
      v)

pub send_answer-IsValid :
    (works : ℕ → Bool) (arm_id : ℕ) (answer : Option Bytes) (s : System)
    → IsValid s
    → IsValid (send_answer works arm_id answer s)
unfolding send_answer send_to_arm
send_answer-IsValid works arm_id none s v = v
send_answer-IsValid works arm_id (some payload) s v =
    elim (Option-cases (Dict.get arm_id s.arm_controller.arms)) [
      | inl e ↦ rw (e, send_to_arm) v
      | inr (arm, e) ↦
          let found =
            OnSome-some Links.IsValid _ arm
              (get-OnSome Links.IsValid arm_id s.arm_controller.arms v.arms) e in
          rw (e, send_to_arm)
            (put_arm-IsValid arm_id (send_data works payload arm).0 s
              (Links.send_data-IsValid works payload arm found) v)
    ]
