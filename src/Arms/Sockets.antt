-- ===== src/Arms/Sockets.antt =====
-- The sockets that the link uses and those that it closed, step by step: they are those that it had,
-- with the new ones.
use model_lib.Prelude.{
  ℕ, ◌≡◌, refl, Bool, true, false, ◌&&◌, not, List, [], ◌∷◌, ◌++◌, Option, none, some, is_some,
  if_then, if_else, Bool-cases, inl, inr, arith,
}
use mathlib.Core.List.{Perm, perm_middle}
use mathlib.Core.List.Perm
use model_lib.Text.{Bytes}
use model_lib.Arms.Link.{
  ArmInfo, ConnectionMode, active, passive, Received, is_connected, is_down, opt_list, close_sock,
  listen, start_arm_listener, dial, connect_arm, take_over, has_live, attach_passive_connection,
  handle_disconnect, send_data, receive_step, on_received, lose, may_receive, receive_if,
  connect_first, reconnect_arm, stop_arm, start_receiver, close_server_sock, chunk, timed_out,
  failed, Attempt, refused, broken, ready, fail_attempt,
}

-- The sockets that the link uses, and all that it used.
abbrev pub in_use : ArmInfo → List ℕ
in_use arm = opt_list arm.sock ++ opt_list arm.server_sock

abbrev pub sockets : ArmInfo → List ℕ
sockets arm = opt_list arm.sock ++ (opt_list arm.server_sock ++ arm.closed)

-- A new connection is asked for.
abbrev pub asks : ConnectionMode → ArmInfo → Bool
asks active arm = not (is_connected arm.status && is_some arm.sock)
asks passive arm = not (is_some arm.server_sock)

-- The socket that an attempt gives, and the one that it makes and cannot connect or bind.
abbrev pub given : Attempt → List ℕ
given (ready s) = s ∷ []
given _ = []

abbrev pub dropped : Attempt → List ℕ
dropped (broken s) = s ∷ []
dropped _ = []

-- What there is of them where a new connection is asked for.
abbrev pub when : Bool → List ℕ → List ℕ
when true xs = xs
when false xs = []

module _ {ℓ} {A : Type ℓ} where
  move_front : (xs ys zs : List A) → Perm (xs ++ (ys ++ zs)) (ys ++ (xs ++ zs))
  move_front [] ys zs = Perm.refl (ys ++ zs)
  move_front (x ∷ xs) ys zs =
      Perm.trans (Perm.cons x (move_front xs ys zs)) (Perm.symm (perm_middle ys (xs ++ zs)))

  below_two : (x : A) (xs ys zs : List A) → Perm (x ∷ (xs ++ (ys ++ zs))) (xs ++ (ys ++ (x ∷ zs)))
  below_two x xs ys zs =
      Perm.symm (Perm.trans (Perm.append_left xs (perm_middle ys zs)) (perm_middle xs (ys ++ zs)))

close_sock-sockets : (arm : ArmInfo) → Perm (sockets arm) (sockets (close_sock arm))
unfolding close_sock
close_sock-sockets arm = move_front (opt_list arm.sock) (opt_list arm.server_sock) arm.closed

take_over-sockets :
    (client : ℕ) (addr : Bytes) (now : ℕ) (arm : ArmInfo)
    → Perm (client ∷ sockets arm) (sockets (take_over client addr now arm))
unfolding take_over start_receiver close_sock
take_over-sockets client addr now arm = Perm.cons client (close_sock-sockets arm)

handle_disconnect-sockets :
    (mode : ConnectionMode) (arm : ArmInfo)
    → Perm (sockets arm) (sockets (handle_disconnect mode arm))
unfolding handle_disconnect close_sock
handle_disconnect-sockets active arm = close_sock-sockets arm
handle_disconnect-sockets passive arm = close_sock-sockets arm

no_socket : (o : Option ℕ) → is_some o ≡ false → o ≡ none
no_socket none h = refl
no_socket (some s) h = ground arith

pub attach_passive_connection-sockets :
    (alive : ℕ → Bool) (client : ℕ) (addr : Bytes) (now : ℕ) (arm : ArmInfo)
    → Perm (client ∷ sockets arm) (sockets (attach_passive_connection alive client addr now arm))
unfolding attach_passive_connection
attach_passive_connection-sockets alive client addr now arm =
    elim (Bool-cases (has_live alive arm)) [
      | inl live ↦
          rw (if_then (has_live alive arm) _ (take_over client addr now arm) live)
            (below_two client (opt_list arm.sock) (opt_list arm.server_sock) arm.closed)
      | inr dead ↦
          rw (if_else (has_live alive arm) (record arm { closed = client ∷ arm.closed }) _ dead)
            (take_over-sockets client addr now arm)
    ]

dial-sockets :
    (answer : Attempt) (now : ℕ) (arm : ArmInfo)
    → arm.sock ≡ none
    → Perm (given answer ++ sockets arm) (sockets (dial answer now arm).0)
unfolding dial fail_attempt
dial-sockets refused now arm h = Perm.refl (sockets arm)
dial-sockets (broken s) now arm h = Perm.refl (sockets arm)
dial-sockets (ready s) now arm h = rw h (Perm.refl (s ∷ (opt_list arm.server_sock ++ arm.closed)))

listen-sockets :
    (answer : Attempt) (arm : ArmInfo)
    → arm.server_sock ≡ none
    → Perm (given answer ++ sockets arm) (sockets (listen answer arm).0)
unfolding listen fail_attempt
listen-sockets refused arm h = Perm.refl (sockets arm)
listen-sockets (broken s) arm h = Perm.refl (sockets arm)
listen-sockets (ready s) arm h = rw h (Perm.symm (perm_middle (opt_list arm.sock) arm.closed))

start_arm_listener-sockets :
    (answer : Attempt) (arm : ArmInfo)
    → Perm
        (when (not (is_some arm.server_sock)) (given answer) ++ sockets arm)
        (sockets (start_arm_listener answer arm).0)
unfolding start_arm_listener
start_arm_listener-sockets answer arm = elim (Bool-cases (is_some arm.server_sock)) [
  | inl some' ↦
      rw (if_then (is_some arm.server_sock) (arm, true) (listen answer arm) some', some')
        (Perm.refl (sockets arm))
  | inr none' ↦
      rw (if_else (is_some arm.server_sock) (arm, true) (listen answer arm) none', none')
        (listen-sockets answer arm (no_socket arm.server_sock none'))
]

connect_arm-sockets :
    (mode : ConnectionMode) (answer : Attempt) (now : ℕ) (arm : ArmInfo)
    → Perm
        (when (asks mode arm) (given answer) ++ sockets arm)
        (sockets (connect_arm mode answer now arm).0)
unfolding connect_arm close_sock
connect_arm-sockets passive answer now arm = start_arm_listener-sockets answer arm
connect_arm-sockets active answer now arm =
    let stands = is_connected arm.status && is_some arm.sock in
    elim (Bool-cases stands) [
      | inl yes' ↦
          rw (if_then stands (arm, true) (dial answer now (close_sock arm)) yes', yes')
            (Perm.refl (sockets arm))
      | inr no' ↦
          rw (if_else stands (arm, true) (dial answer now (close_sock arm)) no', no')
            (Perm.trans (Perm.append_left (given answer) (close_sock-sockets arm))
              (dial-sockets answer now (close_sock arm) refl))
    ]

receive_if-sockets : (r : ArmInfo × Bool) → Perm (sockets r.0) (sockets (receive_if r).0)
unfolding receive_if start_receiver
receive_if-sockets (arm, true) = Perm.refl (sockets arm)
receive_if-sockets (arm, false) = Perm.refl (sockets arm)

pub connect_first-sockets :
    (mode : ConnectionMode) (answer : Attempt) (now : ℕ) (arm : ArmInfo)
    → Perm
        (when (asks mode arm) (given answer) ++ sockets arm)
        (sockets (connect_first mode answer now arm).0)
unfolding connect_first
connect_first-sockets active answer now arm =
    Perm.trans (connect_arm-sockets active answer now arm)
      (receive_if-sockets (connect_arm active answer now arm))
connect_first-sockets passive answer now arm = start_arm_listener-sockets answer arm

pub reconnect_arm-sockets :
    (mode : ConnectionMode) (answer : Attempt) (now : ℕ) (arm : ArmInfo)
    → Perm
        (when (is_down arm.status && asks mode arm) (given answer) ++ sockets arm)
        (sockets (reconnect_arm mode answer now arm))
unfolding reconnect_arm
reconnect_arm-sockets mode answer now arm =
    let next = (receive_if (connect_arm mode answer now arm)).0 in
    elim (Bool-cases (is_down arm.status)) [
      | inl down ↦
          rw (if_then (is_down arm.status) next arm down, down)
            (Perm.trans (connect_arm-sockets mode answer now arm)
              (receive_if-sockets (connect_arm mode answer now arm)))
      | inr up ↦ rw (if_else (is_down arm.status) next arm up, up) (Perm.refl (sockets arm))
    ]

pub send_data-sockets :
    (works : ℕ → Bool) (payload : Bytes) (arm : ArmInfo)
    → sockets (send_data works payload arm).0 ≡ sockets arm
unfolding send_data
send_data-sockets works payload arm = ground arith

on_received-sockets :
    (mode : ConnectionMode) (received : Received) (arm : ArmInfo)
    → Perm (sockets arm) (sockets (on_received mode received arm).0)
unfolding on_received lose
on_received-sockets mode (chunk []) arm = handle_disconnect-sockets mode arm
on_received-sockets mode (chunk (c ∷ cs)) arm = Perm.refl (sockets arm)
on_received-sockets mode timed_out arm = Perm.refl (sockets arm)
on_received-sockets mode failed arm = handle_disconnect-sockets mode arm

pub receive_step-sockets :
    (mode : ConnectionMode) (running : Bool) (received : Received) (arm : ArmInfo)
    → Perm (sockets arm) (sockets (receive_step mode running received arm).0)
unfolding receive_step
receive_step-sockets mode running received arm =
    let ended : ArmInfo × Option Bytes = (record arm { receiving = false }, none) in
    let next = on_received mode received arm in
    elim (Bool-cases (may_receive running arm)) [
      | inl on ↦
          rw (if_then (may_receive running arm) next ended on)
            (on_received-sockets mode received arm)
      | inr off ↦ rw (if_else (may_receive running arm) next ended off) (Perm.refl (sockets arm))
    ]

pub stop_arm-sockets : (arm : ArmInfo) → Perm (sockets arm) (stop_arm arm).closed
unfolding stop_arm close_sock close_server_sock
stop_arm-sockets arm = move_front (opt_list arm.sock) (opt_list arm.server_sock) arm.closed

pub stop_arm-all_sockets : (arm : ArmInfo) → Perm (sockets arm) (sockets (stop_arm arm))
unfolding stop_arm close_sock close_server_sock
stop_arm-all_sockets arm = stop_arm-sockets arm
