-- ===== src/Arms/Valid.antt =====
-- What holds of the link to an arm between two steps, and that each step keeps it.
use model_lib.Prelude.{
  ℕ, ◌≡◌, Bool, true, false, ◌&&◌, Option, none, is_some, if_then, if_else, [], ◌∷◌, Bool-cases,
  inl, inr, arith,
}
use model_lib.Text.{Bytes}
use model_lib.Arms.Link.{
  ArmStatus, ArmInfo, ConnectionMode, active, passive, Received, listening, busy, is_connected,
  is_down, close_sock, listen, start_arm_listener, dial, connect_arm, take_over, has_live,
  attach_passive_connection, handle_disconnect, send_data, receive_step, on_received, lose,
  may_receive, receive_if, connect_first, reconnect_arm, stop_arm, start_receiver,
  close_server_sock, chunk, timed_out, failed, Attempt, refused, broken, ready, fail_attempt,
}

abbrev pub is_listening : ArmStatus → Bool
is_listening listening = true
is_listening _ = false

abbrev pub is_busy : ArmStatus → Bool
is_busy busy = true
is_busy _ = false

-- A connected arm has a socket and a receiver thread, a listening one has a listening socket, and no
-- send is under way.
abbrev pub IsValid : ArmInfo → Type 0
IsValid arm =
    (is_connected arm.status ≡ true → is_some arm.sock ≡ true)
    × (is_connected arm.status ≡ true → arm.receiving ≡ true)
    × (is_listening arm.status ≡ true → is_some arm.server_sock ≡ true)
    × (is_busy arm.status ≡ false)

start_arm_listener-IsValid :
    (answer : Attempt) (arm : ArmInfo) → IsValid arm → IsValid (start_arm_listener answer arm).0
unfolding start_arm_listener listen fail_attempt
start_arm_listener-IsValid refused arm v = ground arith
start_arm_listener-IsValid (broken s) arm v = ground arith
start_arm_listener-IsValid (ready s) arm v = ground arith

dial-IsValid :
    (answer : Attempt) (now : ℕ) (arm : ArmInfo) → IsValid (receive_if (dial answer now arm)).0
unfolding dial fail_attempt receive_if start_receiver
dial-IsValid refused now arm = ground arith
dial-IsValid (broken s) now arm = ground arith
dial-IsValid (ready s) now arm = ground arith

connect_arm-IsValid :
    (mode : ConnectionMode) (answer : Attempt) (now : ℕ) (arm : ArmInfo)
    → IsValid arm
    → IsValid (receive_if (connect_arm mode answer now arm)).0
unfolding connect_arm receive_if start_receiver start_arm_listener listen fail_attempt
connect_arm-IsValid passive refused now arm v = ground arith
connect_arm-IsValid passive (broken s) now arm v = ground arith
connect_arm-IsValid passive (ready s) now arm v = ground arith
connect_arm-IsValid active answer now arm v =
    let stands = is_connected arm.status && is_some arm.sock in
    elim (Bool-cases stands) [
      | inl yes' ↦
          rw (if_then stands (arm, true) (dial answer now (close_sock arm)) yes') (ground arith)
      | inr no' ↦
          rw (if_else stands (arm, true) (dial answer now (close_sock arm)) no')
            (dial-IsValid answer now (close_sock arm))
    ]

pub connect_first-IsValid :
    (mode : ConnectionMode) (answer : Attempt) (now : ℕ) (arm : ArmInfo)
    → IsValid arm
    → IsValid (connect_first mode answer now arm).0
unfolding connect_first
connect_first-IsValid active answer now arm v = connect_arm-IsValid active answer now arm v
connect_first-IsValid passive answer now arm v = start_arm_listener-IsValid answer arm v

pub reconnect_arm-IsValid :
    (mode : ConnectionMode) (answer : Attempt) (now : ℕ) (arm : ArmInfo)
    → IsValid arm
    → IsValid (reconnect_arm mode answer now arm)
unfolding reconnect_arm
reconnect_arm-IsValid mode answer now arm v =
    let next = (receive_if (connect_arm mode answer now arm)).0 in
    elim (Bool-cases (is_down arm.status)) [
      | inl down ↦
          rw (if_then (is_down arm.status) next arm down)
            (connect_arm-IsValid mode answer now arm v)
      | inr up ↦ rw (if_else (is_down arm.status) next arm up) v
    ]

pub attach_passive_connection-IsValid :
    (alive : ℕ → Bool) (client : ℕ) (addr : Bytes) (now : ℕ) (arm : ArmInfo)
    → IsValid arm
    → IsValid (attach_passive_connection alive client addr now arm)
unfolding attach_passive_connection take_over start_receiver close_sock
attach_passive_connection-IsValid alive client addr now arm v =
    elim (Bool-cases (has_live alive arm)) [
      | inl live ↦ rw (if_then (has_live alive arm) _ (take_over client addr now arm) live) v
      | inr dead ↦
          rw (if_else (has_live alive arm) (record arm { closed = client ∷ arm.closed }) _ dead)
            (ground arith)
    ]

pub send_data-IsValid :
    (works : ℕ → Bool) (payload : Bytes) (arm : ArmInfo)
    → IsValid arm
    → IsValid (send_data works payload arm).0
unfolding send_data
send_data-IsValid works payload arm v = ground arith

pub lose-IsValid : (mode : ConnectionMode) (arm : ArmInfo) → IsValid (lose mode arm)
unfolding lose handle_disconnect close_sock
lose-IsValid active arm = ground arith
lose-IsValid passive arm = ground arith

on_received-IsValid :
    (mode : ConnectionMode) (received : Received) (arm : ArmInfo)
    → IsValid arm
    → IsValid (on_received mode received arm).0
unfolding on_received
on_received-IsValid mode (chunk []) arm v = lose-IsValid mode arm
on_received-IsValid mode (chunk (c ∷ cs)) arm v = v
on_received-IsValid mode timed_out arm v = v
on_received-IsValid mode failed arm v = lose-IsValid mode arm

-- While the controller runs, only a thread whose connection is gone ends.
pub receive_step-IsValid :
    (mode : ConnectionMode) (received : Received) (arm : ArmInfo)
    → IsValid arm
    → IsValid (receive_step mode true received arm).0
unfolding receive_step
receive_step-IsValid mode received arm v =
    let ended : ArmInfo × Option Bytes = (record arm { receiving = false }, none) in
    let next = on_received mode received arm in
    elim (Bool-cases (may_receive true arm)) [
      | inl on ↦
          rw (if_then (may_receive true arm) next ended on)
            (on_received-IsValid mode received arm v)
      | inr off ↦ rw (if_else (may_receive true arm) next ended off) (ground arith)
    ]

pub stop_arm-IsValid : (arm : ArmInfo) → IsValid (stop_arm arm)
unfolding stop_arm close_sock close_server_sock
stop_arm-IsValid arm = ground arith
