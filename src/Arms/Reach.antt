-- ===== src/Arms/Reach.antt =====
-- How the link to one arm gets from state to state: which steps each connection mode has.
use model_lib.Prelude.{
  ℕ, ◌≡◌, refl, ap, ◌∙◌, subst, sym, Bool, true, false, ◌&&◌, List, [], ◌∷◌, ◌++◌, none, arith,
}
use mathlib.Core.List.{Perm}
use mathlib.Core.List.Perm
use model_lib.Text.{Bytes}
use model_lib.Arms.Link.{
  ArmInfo, ConnectionMode, active, passive, Received, Attempt, disconnected, is_down,
  attach_passive_connection, send_data, receive_step, connect_first, reconnect_arm, stop_arm,
}
use model_lib.Arms.Sockets.{
  sockets, asks, given, dropped, when, connect_first-sockets, reconnect_arm-sockets,
  attach_passive_connection-sockets, send_data-sockets, receive_step-sockets, stop_arm-sockets,
  stop_arm-all_sockets,
}
use model_lib.Arms.Abandoned.{
  connect_first-abandoned, reconnect_arm-abandoned, attach_passive_connection-abandoned,
  receive_step-abandoned, send_data-abandoned, stop_arm-abandoned,
}
use model_lib.Arms.Valid.{
  IsValid, connect_first-IsValid, reconnect_arm-IsValid, attach_passive_connection-IsValid,
  send_data-IsValid, receive_step-IsValid, stop_arm-IsValid,
}

-- The values of a new `ArmInfo`.
unfoldable pub new_arm : ℕ → Bytes → ℕ → Bytes → Bytes → ArmInfo
new_arm id host port name bind_host = record {
  id = id;
  host = host;
  port = port;
  name = name;
  bind_host = bind_host;
  status = disconnected;
  sock = none;
  server_sock = none;
  client_addr = none;
  last_heartbeat = 0;
  receiving = false;
  accepting = false;
  closed = [];
  abandoned = [];
  sent = [];
}

-- The states that the link reaches, with the sockets that connected, listened or were accepted, and
-- those whose `connect` or `bind` raised, the newest first. Only the active mode has the thread that connects again, and only the passive mode the one
-- that accepts clients.
pub data Reach : ConnectionMode → List ℕ → List ℕ → ArmInfo → Type 0 where
  initial :
      {mode : ConnectionMode} (id : ℕ) (host : Bytes) (port : ℕ) (name bind_host : Bytes)
      → Reach mode [] [] (new_arm id host port name bind_host)
  connects :
      {mode : ConnectionMode} {opened left : List ℕ} {arm : ArmInfo}
      → Reach mode opened left arm
      → (answer : Attempt) (now : ℕ)
      → Reach mode
          (when (asks mode arm) (given answer) ++ opened)
          (when (asks mode arm) (dropped answer) ++ left)
          (connect_first mode answer now arm).0
  reconnects :
      {opened left : List ℕ} {arm : ArmInfo}
      → Reach active opened left arm
      → (answer : Attempt) (now : ℕ)
      → Reach active
          (when (is_down arm.status && asks active arm) (given answer) ++ opened)
          (when (is_down arm.status && asks active arm) (dropped answer) ++ left)
          (reconnect_arm active answer now arm)
  accepts :
      {opened left : List ℕ} {arm : ArmInfo}
      → Reach passive opened left arm
      → (alive : ℕ → Bool) (client : ℕ) (addr : Bytes) (now : ℕ)
      → Reach passive (client ∷ opened) left (attach_passive_connection alive client addr now arm)
  receives :
      {mode : ConnectionMode} {opened left : List ℕ} {arm : ArmInfo}
      → Reach mode opened left arm
      → (received : Received) → Reach mode opened left (receive_step mode true received arm).0
  sends :
      {mode : ConnectionMode} {opened left : List ℕ} {arm : ArmInfo}
      → Reach mode opened left arm
      → (works : ℕ → Bool) (payload : Bytes)
      → Reach mode opened left (send_data works payload arm).0
  stops :
      {mode : ConnectionMode} {opened left : List ℕ} {arm : ArmInfo}
      → Reach mode opened left arm
      → Reach mode opened left (stop_arm arm)

sockets_kept :
    {opened : List ℕ} {before after : List ℕ} (new : List ℕ)
    → Perm opened before
    → Perm (new ++ before) after
    → Perm (new ++ opened) after
sockets_kept new h k = Perm.trans (Perm.append_left new h) k

kept :
    {mode : ConnectionMode} {opened left : List ℕ} {arm : ArmInfo}
    → Reach mode opened left arm
    → Perm opened (sockets arm)
unfolding new_arm
kept (initial id host port name bind_host) = Perm.refl []
kept (connects {mode = mode} {arm = arm} r answer now) =
    sockets_kept _ (kept r) (connect_first-sockets mode answer now arm)
kept (reconnects {arm = arm} r answer now) =
    sockets_kept _ (kept r) (reconnect_arm-sockets active answer now arm)
kept (accepts {arm = arm} r alive client addr now) =
    sockets_kept (client ∷ []) (kept r)
      (attach_passive_connection-sockets alive client addr now arm)
kept (receives {mode = mode} {arm = arm} r received) =
    Perm.trans (kept r) (receive_step-sockets mode true received arm)
kept (sends {opened = opened} {arm = arm} r works payload) =
    subst (λ xs. Perm opened xs) (sym (send_data-sockets works payload arm)) (kept r)
kept (stops {arm = arm} r) = Perm.trans (kept r) (stop_arm-all_sockets arm)

left_open :
    {mode : ConnectionMode} {opened left : List ℕ} {arm : ArmInfo}
    → Reach mode opened left arm
    → arm.abandoned ≡ left
unfolding new_arm
left_open (initial id host port name bind_host) = refl
left_open (connects {mode = mode} {arm = arm} r answer now) =
    connect_first-abandoned mode answer now arm
    ∙ ap (λ l. when (asks mode arm) (dropped answer) ++ l) (left_open r)
left_open (reconnects {arm = arm} r answer now) =
    reconnect_arm-abandoned active answer now arm
    ∙ ap (λ l. when (is_down arm.status && asks active arm) (dropped answer) ++ l) (left_open r)
left_open (accepts {arm = arm} r alive client addr now) =
    attach_passive_connection-abandoned alive client addr now arm ∙ left_open r
left_open (receives {mode = mode} {arm = arm} r received) =
    receive_step-abandoned mode true received arm ∙ left_open r
left_open (sends {arm = arm} r works payload) = send_data-abandoned works payload arm ∙ left_open r
left_open (stops {arm = arm} r) = stop_arm-abandoned arm ∙ left_open r

-- Whatever steps the link to an arm takes in either mode, every socket that connected, listens or was
-- accepted is either in use by the link or closed, none twice and no other one, so a stop after them
-- closes every one that is not closed yet. The sockets whose `connect` or `bind` raised are the ones
-- that the link drops without closing them, and a stop does not close them either.
pub Reach-sockets :
    {mode : ConnectionMode} {opened left : List ℕ} {arm : ArmInfo}
    → Reach mode opened left arm
    → Perm opened (sockets arm)
      × Perm opened (stop_arm arm).closed
      × (arm.abandoned ≡ left)
      × ((stop_arm arm).abandoned ≡ left)
Reach-sockets {arm = arm} r =
    let all = kept r in
    (all, Perm.trans all (stop_arm-sockets arm), left_open r, stop_arm-abandoned arm ∙ left_open r)

-- Whatever steps the link takes, an arm that counts as connected has a socket and a receiver thread,
-- one that counts as listening has a listening socket, and none stays busy.
pub Reach-IsValid :
    {mode : ConnectionMode} {opened left : List ℕ} {arm : ArmInfo}
    → Reach mode opened left arm
    → IsValid arm
unfolding new_arm
Reach-IsValid (initial id host port name bind_host) = ground arith
Reach-IsValid (connects {mode = mode} {arm = arm} r answer now) =
    connect_first-IsValid mode answer now arm (Reach-IsValid r)
Reach-IsValid (reconnects {arm = arm} r answer now) =
    reconnect_arm-IsValid active answer now arm (Reach-IsValid r)
Reach-IsValid (accepts {arm = arm} r alive client addr now) =
    attach_passive_connection-IsValid alive client addr now arm (Reach-IsValid r)
Reach-IsValid (receives {mode = mode} {arm = arm} r received) =
    receive_step-IsValid mode received arm (Reach-IsValid r)
Reach-IsValid (sends {arm = arm} r works payload) =
    send_data-IsValid works payload arm (Reach-IsValid r)
Reach-IsValid (stops {arm = arm} r) = stop_arm-IsValid arm
