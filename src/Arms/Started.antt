-- ===== src/Arms/Started.antt =====
-- What `connect_all` and `stop` leave behind.
use model_lib.Prelude.{
  ℕ, ◌≡◌, refl, ap, ◌∙◌, ◌+◌, ◌↔◌, Bool, true, false, List, [], ◌∷◌, map, ◌==◌, if◌then◌else◌,
  length, is_some, All, arith,
}
use mathlib.Core.List.{map-map}
use model_lib.Dict
use model_lib.Arms.Link.{
  ArmInfo, ConnectionMode, active, passive, connect_first, connect_arm, receive_if, start_receiver,
  start_arm_listener, listen, dial, close_sock, close_server_sock, stop_arm, is_connected,
  disconnected, Attempt, refused, broken, ready, fail_attempt,
}
use model_lib.Arms.Sockets.{in_use}
use model_lib.Arms.Controller.{
  ArmController, connect_arms, connect_all, stop, if_active, if_passive,
}

-- The link stands after the first attempt to connect.
abbrev pub stands : ConnectionMode → ArmInfo → Bool
stands active arm = is_connected arm.status
stands passive arm = is_some arm.server_sock

-- The links that stand.
unfoldable pub count_standing : ConnectionMode → Dict.Dict ArmInfo → ℕ
count_standing mode [] = 0
count_standing mode ((id, arm) ∷ arms) =
    let rest = count_standing mode arms in if stands mode arm then rest + 1 else rest

connect_first-stands :
    (mode : ConnectionMode) (answer : Attempt) (now : ℕ) (arm : ArmInfo)
    → stands mode (connect_first mode answer now arm).0 ≡ (connect_first mode answer now arm).1
unfolding connect_first connect_arm receive_if start_receiver start_arm_listener listen dial
    close_sock fail_attempt
connect_first-stands active refused now arm = ground arith
connect_first-stands active (broken s) now arm = ground arith
connect_first-stands active (ready s) now arm = ground arith
connect_first-stands passive refused now arm = ground arith
connect_first-stands passive (broken s) now arm = ground arith
connect_first-stands passive (ready s) now arm = ground arith

connect_arms-counts :
    (mode : ConnectionMode) (answer : ℕ → Attempt) (now : ℕ) (arms : Dict.Dict ArmInfo)
    → let (next, count, errors) = connect_arms mode answer now arms in
      (count ≡ count_standing mode next) × (count + length errors ≡ length arms)
unfolding connect_arms count_standing
connect_arms-counts mode answer now [] = (refl, omega arith)
connect_arms-counts mode answer now ((id, arm) ∷ arms) =
    ground (
      arith,
      connect_arms-counts mode answer now arms,
      connect_first-stands mode (answer id) now arm,
    )

no_errors : (n m : ℕ) (errors : List ℕ) → n + length errors ≡ m → ((n == m) ≡ true) ↔ (errors ≡ [])
no_errors n m [] h = (λ k. refl, λ k. ground arith)
no_errors n m (e ∷ es) h = (λ k. absurd (ground arith), λ k. absurd (ground arith))

all_successes : (mode : ConnectionMode) (n : ℕ) → if_active mode n + if_passive mode n ≡ n
all_successes active n = omega arith
all_successes passive n = omega arith

-- `connect_all` reports a success exactly where no arm failed. The connections or listeners that it
-- counts are those that stand afterwards, and with the arms that failed they are all arms.
pub connect_all-ConnectResult :
    (answer : ℕ → Attempt) (now : ℕ) (c : ArmController)
    → let (next, r) = connect_all answer now c in
      ((r.success ≡ true) ↔ (r.errors ≡ []))
      × (r.connected_count + r.listening_count ≡ count_standing c.connection_mode next.arms)
      × (r.connected_count + r.listening_count + length r.errors ≡ r.total_count)
unfolding connect_all
connect_all-ConnectResult answer now c =
    let (counted, total) = connect_arms-counts c.connection_mode answer now c.arms in
    let (_, successes, errors) = connect_arms c.connection_mode answer now c.arms in
    (
      no_errors successes (length c.arms) errors total,
      all_successes c.connection_mode successes ∙ counted,
      ap (λ n. n + length errors) (all_successes c.connection_mode successes) ∙ total,
    )

abbrev pub IsStopped : ℕ × ArmInfo → Type 0
IsStopped e = (in_use e.1 ≡ []) × (e.1.status ≡ disconnected)

map-Stopped : (arms : Dict.Dict ArmInfo) → All IsStopped (map (λ e. (e.0, stop_arm e.1)) arms)
unfolding stop_arm close_sock close_server_sock
map-Stopped [] = tt
map-Stopped ((id, arm) ∷ arms) = ((refl, refl), map-Stopped arms)

-- After a stop the controller does not run, has the same ids, and no arm has a socket or counts as
-- connected.
pub stop-Stopped :
    (c : ArmController)
    → ((stop c).running ≡ false)
      × (Dict.keys (stop c).arms ≡ Dict.keys c.arms)
      × All IsStopped (stop c).arms
unfolding stop
stop-Stopped c = (refl, map-map _ _ c.arms, map-Stopped c.arms)
