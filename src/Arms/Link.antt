-- ===== src/Arms/Link.antt =====
-- The link to one arm: `ArmInfo` and the methods of `SimpleArmController` on it, of
-- 队列管理/src/core/arm_controller.py.
-- A socket is a number. How the calls on a new socket go is an argument.
-- An `ArmInfo` also keeps what the code keeps beside it for the arm: whether its receiver and accept
-- threads run, the sockets that were closed, those that it dropped without closing them, and the
-- payloads that went out with their socket.
use model_lib.Prelude.{
  ℕ, Bool, true, false, ◌&&◌, List, [], ◌∷◌, ◌++◌, Option, none, some, if◌then◌else◌, is_some,
}
use model_lib.Text.{Bytes}

pub data ArmStatus : Type 0 where
  disconnected listening connecting connected busy error : ArmStatus

abbrev pub is_connected : ArmStatus → Bool
is_connected connected = true
is_connected _ = false

-- `arm.status in (ArmStatus.DISCONNECTED, ArmStatus.ERROR)`
abbrev pub is_down : ArmStatus → Bool
is_down disconnected = true
is_down error = true
is_down _ = false

pub record ArmInfo : Type 0 where
  pub id : ℕ
  pub host : Bytes
  pub port : ℕ
  pub name : Bytes
  pub bind_host : Bytes
  pub status : ArmStatus
  pub sock : Option ℕ
  pub server_sock : Option ℕ
  pub client_addr : Option Bytes
  pub last_heartbeat : ℕ
  pub receiving : Bool
  pub accepting : Bool
  pub closed : List ℕ
  pub abandoned : List ℕ
  pub sent : List (ℕ × Bytes)

-- How the calls on a new socket go: `socket` raises, or a later call does (`connect`, `bind` or
-- `listen`), or all succeed.
pub data Attempt : Type 0 where
  refused : Attempt
  broken ready : ℕ → Attempt

pub data ConnectionMode : Type 0 where
  active passive : ConnectionMode

-- A socket that there may be.
abbrev pub opt_list {ℓ} : {A : Type ℓ} → Option A → List A
opt_list none = []
opt_list (some a) = a ∷ []

-- `sock.close()` and `arm.sock = None`, where there is a socket.
unfoldable pub close_sock : ArmInfo → ArmInfo
close_sock arm = record arm { sock = none; closed = opt_list arm.sock ++ arm.closed }

unfoldable pub close_server_sock : ArmInfo → ArmInfo
close_server_sock arm = record arm {
  server_sock = none;
  closed = opt_list arm.server_sock ++ arm.closed;
}

-- A thread that runs already is left alone.
unfoldable pub start_receiver : ArmInfo → ArmInfo
start_receiver arm = record arm { receiving = true }

-- The status after an exception; a socket whose `connect` or `bind` raised is only a local variable,
-- which is dropped without a `close`.
unfoldable pub fail_attempt : List ℕ → ArmInfo → ArmInfo
fail_attempt dropped arm = record arm { status = error; abandoned = dropped ++ arm.abandoned }

-- The listening socket is kept once it listens.
unfoldable pub listen : Attempt → ArmInfo → ArmInfo × Bool
unfolding fail_attempt
listen refused arm = (fail_attempt [] arm, false)
listen (broken s) arm = (fail_attempt (s ∷ []) arm, false)
listen (ready s) arm =
    (record arm { server_sock = some s; status = listening; accepting = true }, true)

-- A listener that stands already is kept.
unfoldable pub start_arm_listener : Attempt → ArmInfo → ArmInfo × Bool
unfolding listen
start_arm_listener bound arm = if is_some arm.server_sock then (arm, true) else listen bound arm

-- The part of `_connect_arm` after the lock.
unfoldable pub dial : Attempt → ℕ → ArmInfo → ArmInfo × Bool
unfolding fail_attempt
dial refused now arm = (fail_attempt [] arm, false)
dial (broken s) now arm = (fail_attempt (s ∷ []) arm, false)
dial (ready s) now arm =
    (record arm { sock = some s; status = connected; last_heartbeat = now }, true)

-- `answer` is about the socket that connects, or the one that listens in passive mode.
unfoldable pub connect_arm : ConnectionMode → Attempt → ℕ → ArmInfo → ArmInfo × Bool
unfolding start_arm_listener close_sock dial
connect_arm passive answer now arm = start_arm_listener answer arm
connect_arm active answer now arm =
    if is_connected arm.status && is_some arm.sock
    then (arm, true)
    else dial answer now (close_sock arm)

-- The client takes over.
unfoldable pub take_over : ℕ → Bytes → ℕ → ArmInfo → ArmInfo
unfolding close_sock start_receiver
take_over client addr now arm = start_receiver (record (close_sock arm) {
  sock = some client;
  client_addr = some addr;
  status = connected;
  last_heartbeat = now;
})

-- `alive` is what `_is_socket_alive` says of a socket.
abbrev pub has_live : (ℕ → Bool) → ArmInfo → Bool
has_live alive arm = is_connected arm.status && (elim arm.sock [ none ↦ false | some s ↦ alive s ])

-- A client that comes while the socket in use lives is closed.
unfoldable pub attach_passive_connection : (ℕ → Bool) → ℕ → Bytes → ℕ → ArmInfo → ArmInfo
unfolding take_over
attach_passive_connection alive client addr now arm =
    if has_live alive arm
    then record arm { closed = client ∷ arm.closed }
    else take_over client addr now arm

unfoldable pub handle_disconnect : ConnectionMode → ArmInfo → ArmInfo
unfolding close_sock
handle_disconnect active arm = record (close_sock arm) { client_addr = none; status = disconnected }
handle_disconnect passive arm = record (close_sock arm) {
  client_addr = none;
  status = if is_some arm.server_sock then listening else disconnected;
}

-- `works` says whether `sendall` on the socket succeeds; otherwise it raises. The status is BUSY in
-- between, which no one sees here.
unfoldable pub send_data : (ℕ → Bool) → Bytes → ArmInfo → ArmInfo × Bool
send_data works payload arm = elim arm.sock [
  | none ↦ (arm, false)
  | some s ↦
      if is_connected arm.status
      then if works s
        then (record arm { status = connected; sent = arm.sent ++ (s, payload) ∷ [] }, true)
        else (record arm { status = error }, false)
      else (arm, false)
]

-- What `recv` answers to the receiver thread; no bytes are the end of the stream.
pub data Received : Type 0 where
  chunk : Bytes → Received
  timed_out failed : Received

-- The thread leaves the loop after `_handle_disconnect`.
unfoldable pub lose : ConnectionMode → ArmInfo → ArmInfo
unfolding handle_disconnect
lose mode arm = record (handle_disconnect mode arm) { receiving = false }

-- The text to take commands from, if any.
unfoldable pub on_received : ConnectionMode → Received → ArmInfo → ArmInfo × Option Bytes
unfolding lose
on_received mode (chunk []) arm = (lose mode arm, none)
on_received mode (chunk (c ∷ cs)) arm = (arm, some (c ∷ cs))
on_received mode timed_out arm = (arm, none)
on_received mode failed arm = (lose mode arm, none)

-- The receiver thread goes on.
abbrev pub may_receive : Bool → ArmInfo → Bool
may_receive running arm = running && (is_connected arm.status && is_some arm.sock)

-- One round of `_receive_loop`.
unfoldable pub receive_step : ConnectionMode → Bool → Received → ArmInfo → ArmInfo × Option Bytes
unfolding on_received
receive_step mode running received arm =
    if may_receive running arm
    then on_received mode received arm
    else (record arm { receiving = false }, none)

-- What `stop` does with one arm; its threads are no longer kept.
unfoldable pub stop_arm : ArmInfo → ArmInfo
unfolding close_sock close_server_sock
stop_arm arm = record (close_server_sock (close_sock arm)) {
  status = disconnected;
  client_addr = none;
  receiving = false;
  accepting = false;
}

-- The receiver is started where the connection stands.
unfoldable pub receive_if : ArmInfo × Bool → ArmInfo × Bool
unfolding start_receiver
receive_if (arm, ok) = if ok then (start_receiver arm, true) else (arm, false)

-- The body of the loop of `connect_all`.
unfoldable pub connect_first : ConnectionMode → Attempt → ℕ → ArmInfo → ArmInfo × Bool
unfolding connect_arm receive_if start_arm_listener
connect_first active answer now arm = receive_if (connect_arm active answer now arm)
connect_first passive answer now arm = start_arm_listener answer arm

-- One arm in a round of `_reconnect_loop`.
unfoldable pub reconnect_arm : ConnectionMode → Attempt → ℕ → ArmInfo → ArmInfo
unfolding connect_arm receive_if
reconnect_arm mode answer now arm =
    if is_down arm.status then (receive_if (connect_arm mode answer now arm)).0 else arm
