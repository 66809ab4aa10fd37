-- ===== src/Arms/Abandoned.antt =====
-- The sockets that a link drops without closing them, step by step.
use model_lib.Prelude.{
  ℕ, ◌≡◌, refl, Bool, ◌&&◌, [], ◌∷◌, ◌++◌, arith, Bool-cases, inl, inr, if_then, if_else,
}
use model_lib.Text.{Bytes}
use model_lib.Arms.Link.{
  ArmInfo, ConnectionMode, active, passive, Received, chunk, timed_out, failed, Attempt, refused,
  broken, ready, is_down, close_sock, fail_attempt, listen, start_arm_listener, dial, connect_arm,
  take_over, attach_passive_connection, handle_disconnect, send_data, receive_step, on_received,
  lose, receive_if, connect_first, reconnect_arm, stop_arm, start_receiver, close_server_sock,
}
use model_lib.Arms.Sockets.{asks, dropped, when}

listen-abandoned :
    (answer : Attempt) (arm : ArmInfo)
    → (start_arm_listener answer arm).0.abandoned
      ≡ when (asks passive arm) (dropped answer) ++ arm.abandoned
unfolding start_arm_listener listen fail_attempt
listen-abandoned refused arm = ground arith
listen-abandoned (broken s) arm = ground arith
listen-abandoned (ready s) arm = ground arith

connect_arm-abandoned :
    (mode : ConnectionMode) (answer : Attempt) (now : ℕ) (arm : ArmInfo)
    → (receive_if (connect_arm mode answer now arm)).0.abandoned
      ≡ when (asks mode arm) (dropped answer) ++ arm.abandoned
unfolding connect_arm receive_if start_receiver close_sock dial fail_attempt start_arm_listener
    listen
connect_arm-abandoned active refused now arm = ground arith
connect_arm-abandoned active (broken s) now arm = ground arith
connect_arm-abandoned active (ready s) now arm = ground arith
connect_arm-abandoned passive refused now arm = ground arith
connect_arm-abandoned passive (broken s) now arm = ground arith
connect_arm-abandoned passive (ready s) now arm = ground arith

pub connect_first-abandoned :
    (mode : ConnectionMode) (answer : Attempt) (now : ℕ) (arm : ArmInfo)
    → (connect_first mode answer now arm).0.abandoned
      ≡ when (asks mode arm) (dropped answer) ++ arm.abandoned
unfolding connect_first
connect_first-abandoned active answer now arm = connect_arm-abandoned active answer now arm
connect_first-abandoned passive answer now arm = listen-abandoned answer arm

pub reconnect_arm-abandoned :
    (mode : ConnectionMode) (answer : Attempt) (now : ℕ) (arm : ArmInfo)
    → (reconnect_arm mode answer now arm).abandoned
      ≡ when (is_down arm.status && asks mode arm) (dropped answer) ++ arm.abandoned
unfolding reconnect_arm
reconnect_arm-abandoned mode answer now arm =
    let next = (receive_if (connect_arm mode answer now arm)).0 in
    elim (Bool-cases (is_down arm.status)) [
      | inl down ↦
          rw (if_then (is_down arm.status) next arm down, down)
            (connect_arm-abandoned mode answer now arm)
      | inr up ↦ rw (if_else (is_down arm.status) next arm up, up) refl
    ]

pub attach_passive_connection-abandoned :
    (alive : ℕ → Bool) (client : ℕ) (addr : Bytes) (now : ℕ) (arm : ArmInfo)
    → (attach_passive_connection alive client addr now arm).abandoned ≡ arm.abandoned
unfolding attach_passive_connection take_over start_receiver close_sock
attach_passive_connection-abandoned alive client addr now arm = ground arith

pub send_data-abandoned :
    (works : ℕ → Bool) (payload : Bytes) (arm : ArmInfo)
    → (send_data works payload arm).0.abandoned ≡ arm.abandoned
unfolding send_data
send_data-abandoned works payload arm = ground arith

on_received-abandoned :
    (mode : ConnectionMode) (received : Received) (arm : ArmInfo)
    → (on_received mode received arm).0.abandoned ≡ arm.abandoned
unfolding on_received lose handle_disconnect close_sock
on_received-abandoned active (chunk []) arm = refl
on_received-abandoned passive (chunk []) arm = refl
on_received-abandoned mode (chunk (c ∷ cs)) arm = refl
on_received-abandoned mode timed_out arm = refl
on_received-abandoned active failed arm = refl
on_received-abandoned passive failed arm = refl

pub receive_step-abandoned :
    (mode : ConnectionMode) (running : Bool) (received : Received) (arm : ArmInfo)
    → (receive_step mode running received arm).0.abandoned ≡ arm.abandoned
unfolding receive_step
receive_step-abandoned mode running received arm =
    ground (arith, on_received-abandoned mode received arm)

pub stop_arm-abandoned : (arm : ArmInfo) → (stop_arm arm).abandoned ≡ arm.abandoned
unfolding stop_arm close_sock close_server_sock
stop_arm-abandoned arm = refl
