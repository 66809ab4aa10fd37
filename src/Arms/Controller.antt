-- ===== src/Arms/Controller.antt =====
-- The arms together: the configuration, `connect_all`, `_reconnect_loop`, `stop`, `get_all_status`
-- and `send_data` of `SimpleArmController`.
use model_lib.Prelude.{
  ◌>>=◌, ℕ, ◌+◌, Bool, true, false, List, [], ◌∷◌, map, Option, none, some, ◌==◌, if◌then◌else◌,
  length,
}
use model_lib.Dict
use model_lib.Text.{Bytes, strip, bytes_eq}
use model_lib.Text.Decimal.{decimal}
use model_lib.Parser.Counts.{lower_char}
use model_lib.Arms.Link.{
  ArmStatus, ArmInfo, ConnectionMode, active, passive, connect_first, reconnect_arm, stop_arm,
  send_data, Attempt,
}
use model_lib.Arms.Reach.{new_arm}

-- The dictionary of an arm; a key that is not there is none.
pub record ArmConfig : Type 0 where
  pub id : Option ℕ
  pub host : Option Bytes
  pub port : Option ℕ
  pub name : Option Bytes
  pub bind_host : Option Bytes

pub data ArmsConfig : Type 0 where
  config_list : List ArmConfig → ArmsConfig
  config_dict : Dict.Dict ArmConfig → ArmsConfig

pub record ArmController : Type 0 where
  pub arms : Dict.Dict ArmInfo
  pub running : Bool
  pub connection_mode : ConnectionMode

-- How the constructor ends: with a controller, or with the exception for the mode or a missing key.
pub data Construction : Type 0 where
  constructed : ArmController → Construction
  unsupported_mode missing_key : Construction

abbrev pub active_word : Bytes
active_word = b'a' ∷ b'c' ∷ b't' ∷ b'i' ∷ b'v' ∷ b'e' ∷ []

abbrev pub passive_word : Bytes
passive_word = b'p' ∷ b'a' ∷ b's' ∷ b's' ∷ b'i' ∷ b'v' ∷ b'e' ∷ []

-- `(connection_mode or "active").strip().lower()`
unfoldable pub normal_mode : Bytes → Bytes
normal_mode [] = active_word
normal_mode (c ∷ cs) = map lower_char (strip (c ∷ cs))

unfoldable pub find_mode : Bytes → Option ConnectionMode
unfolding normal_mode bytes_eq
find_mode text =
    if bytes_eq (normal_mode text) active_word
    then some active
    else if bytes_eq (normal_mode text) passive_word
    then some passive
    else none

-- `item.setdefault("id", arm_id)`
unfoldable pub set_default_id : ℕ × ArmConfig → ArmConfig
set_default_id (arm_id, cfg) = record cfg {
  id = elim cfg.id [ none ↦ some arm_id | some i ↦ some i ];
}

unfoldable pub normalize_config : ArmsConfig → List ArmConfig
unfolding set_default_id
normalize_config (config_list cs) = cs
normalize_config (config_dict d) = map set_default_id d

-- `Arm_{id}`
abbrev pub default_name : ℕ → Bytes
default_name id = b'A' ∷ b'r' ∷ b'm' ∷ b'_' ∷ decimal id

abbrev pub with_default {ℓ} : {A : Type ℓ} → Option A → A → A
with_default none d = d
with_default (some a) d = a

-- The `ArmInfo` of a configuration, where its id, host and port are there.
unfoldable pub build_arm : Bytes → ArmConfig → Option ArmInfo
unfolding new_arm
build_arm default_listen_host cfg = do
  id ← cfg.id
  host ← cfg.host
  port ← cfg.port
  some (
      new_arm id host port (with_default cfg.name (default_name id))
        (with_default cfg.bind_host default_listen_host))

unfoldable pub add_arms : Bytes → List ArmConfig → Dict.Dict ArmInfo → Option (Dict.Dict ArmInfo)
unfolding build_arm
add_arms listen_host [] arms = some arms
add_arms listen_host (cfg ∷ cfgs) arms = do
  arm ← build_arm listen_host cfg
  add_arms listen_host cfgs (Dict.put arm.id arm arms)

unfoldable pub new_controller : ArmsConfig → Bytes → Bytes → Construction
unfolding find_mode normalize_config add_arms
new_controller arms_config mode listen_host = elim (find_mode mode) [
  | none ↦ unsupported_mode
  | some m ↦ elim (add_arms listen_host (normalize_config arms_config) []) [
    | none ↦ missing_key
    | some arms ↦ constructed (record { arms = arms; running = false; connection_mode = m })
  ]
]

-- The result of `connect_all`; `errors` holds the ids of the arms in place of the messages.
pub record ConnectResult : Type 0 where
  pub success : Bool
  pub connected_count : ℕ
  pub listening_count : ℕ
  pub total_count : ℕ
  pub errors : List ℕ

-- The loop over the arms, with the number of successes and the arms that failed. `answer` is what
-- the operating system says for an arm.
unfoldable pub connect_arms :
    ConnectionMode → (ℕ → Attempt) → ℕ → Dict.Dict ArmInfo → Dict.Dict ArmInfo × ℕ × List ℕ
connect_arms mode answer now [] = ([], 0, [])
connect_arms mode answer now ((id, arm) ∷ arms) =
    let (next, ok) = connect_first mode (answer id) now arm in
    let (rest, count, errors) = connect_arms mode answer now arms in
    ((id, next) ∷ rest, if ok then count + 1 else count, if ok then errors else id ∷ errors)

-- The successes of the active mode are connections, and those of the passive mode listeners.
abbrev pub if_active : ConnectionMode → ℕ → ℕ
if_active active n = n
if_active passive n = 0

abbrev pub if_passive : ConnectionMode → ℕ → ℕ
if_passive active n = 0
if_passive passive n = n

unfoldable pub connect_all : (ℕ → Attempt) → ℕ → ArmController → ArmController × ConnectResult
unfolding connect_arms
connect_all answer now c =
    let (arms, success_count, errors) = connect_arms c.connection_mode answer now c.arms in
    (
      record c { running = true; arms = arms },
      record {
        success = success_count == length c.arms;
        connected_count = if_active c.connection_mode success_count;
        listening_count = if_passive c.connection_mode success_count;
        total_count = length c.arms;
        errors = errors;
      },
    )

-- One pass of `_reconnect_loop` over the arms; the thread that runs it is there in active mode only.
unfoldable pub reconnect_round : (ℕ → Attempt) → ℕ → ArmController → ArmController
reconnect_round answer now c =
    if c.running
    then record c {
      arms = map (λ e. (e.0, reconnect_arm c.connection_mode (answer e.0) now e.1)) c.arms;
    }
    else c

unfoldable pub stop : ArmController → ArmController
stop c = record c { running = false; arms = map (λ e. (e.0, stop_arm e.1)) c.arms }

abbrev pub get_all_status : ArmController → Dict.Dict ArmStatus
get_all_status c = map (λ e. (e.0, e.1.status)) c.arms

-- `send_data` to an arm by its id.
unfoldable pub send_to_arm : (ℕ → Bool) → ℕ → Bytes → ArmController → ArmController × Bool
unfolding Dict.get Dict.put
send_to_arm works arm_id payload c = elim (Dict.get arm_id c.arms) [
  | none ↦ (c, false)
  | some arm ↦
      let (next, ok) = send_data works payload arm in
      (record c { arms = Dict.put arm_id next c.arms }, ok)
]
