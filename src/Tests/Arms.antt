-- ===== src/Tests/Arms.antt =====
-- The arm controller on small inputs.
use model_lib.Prelude.{ℕ, ◌≢◌, ◌⊎◌, ◌≡◌, ◌↔◌, true, false, List, [], ◌∷◌, none, some, All, arith}
use mathlib.Core.List.{Perm}
use model_lib.Dict.Distinct.{Distinct}
use model_lib.Text.{Bytes}
use model_lib.Arms.Link.{
  ArmInfo, broken, ready, passive, connect_first, attach_passive_connection, stop_arm,
}
use model_lib.Arms.Sockets.{sockets}
use model_lib.Arms.Valid.{IsValid}
use model_lib.Arms.Reach.{Reach, initial, connects, accepts, new_arm, Reach-sockets, Reach-IsValid}
use model_lib.Arms.Controller.{
  ArmConfig, ArmsConfig, ArmController, config_dict, new_controller, unsupported_mode, missing_key,
  constructed, passive_word, active_word, normal_mode, normalize_config, build_arm,
}
use model_lib.Arms.Built.{IsNew, all_complete, last_of}
use model_lib.Arms.Constructed.{mode_word, new_controller-IsNew}
use model_lib.Dict
use model_lib.Arms.Commands.{find_commands, drop_repeats, data_word}
use model_lib.Arms.Scanning.{Scan, find_commands-Scan}
use model_lib.Arms.Rounds.{completions, open_requests, alternates, drop_repeats_lem}

-- An arm in passive mode: a port that is taken, a listener, and a client.
abbrev listener : ArmInfo
listener =
    (connect_first passive (ready 5) 1
      (connect_first passive (broken 4) 0 (new_arm 1 [] 8001 [] [])).0).0

abbrev attached : ArmInfo
attached = attach_passive_connection (λ s. true) 7 [] 2 listener

linked : Reach passive (7 ∷ 5 ∷ []) (4 ∷ []) attached
unfolding new_arm connect_first
linked =
    accepts (connects (connects (initial 1 [] 8001 [] []) (broken 4) 0) (ready 5) 1) (λ s. true) 7
      [] 2

Reach-sockets_example :
    Perm (7 ∷ 5 ∷ []) (sockets attached)
    × Perm (7 ∷ 5 ∷ []) (stop_arm attached).closed
    × (attached.abandoned ≡ 4 ∷ [])
    × ((stop_arm attached).abandoned ≡ 4 ∷ [])
Reach-sockets_example = Reach-sockets linked

Reach-IsValid_example : IsValid attached
Reach-IsValid_example = Reach-IsValid linked

abbrev one_arm : ArmConfig
one_arm = record { id = none; host = some []; port = some 8001; name = none; bind_host = none }

abbrev arms_config : ArmsConfig
arms_config = config_dict ((1, one_arm) ∷ [])

new_controller-IsNew_example :
    let r = new_controller arms_config passive_word [] in
    let cfgs = normalize_config arms_config in
    ((r ≡ unsupported_mode)
      ↔ ((normal_mode passive_word ≢ active_word) × (normal_mode passive_word ≢ passive_word)))
    × ((r ≡ missing_key) ↔ (
        ((normal_mode passive_word ≡ active_word) ⊎ (normal_mode passive_word ≡ passive_word))
        × (all_complete cfgs ≡ false)))
    × ((c : ArmController)
        → r ≡ constructed c
        → (c.running ≡ false)
          × (normal_mode passive_word ≡ mode_word c.connection_mode)
          × Distinct c.arms
          × All IsNew c.arms
          × ((id : ℕ)
              → Dict.get id c.arms
                ≡ (elim (last_of id cfgs) [ none ↦ none | some cfg ↦ build_arm [] cfg ])))
new_controller-IsNew_example = new_controller-IsNew arms_config passive_word []

-- `data1,5`
abbrev two_commands : Bytes
two_commands = b'd' ∷ b'a' ∷ b't' ∷ b'a' ∷ b'1' ∷ b',' ∷ b'5' ∷ []

abbrev split_up : List Bytes
split_up = data_word ∷ (b'1' ∷ b',' ∷ b'5' ∷ []) ∷ []

find_commands-Scan_example :
    Scan two_commands (find_commands 7 two_commands)
    × ((cmds : List Bytes) → Scan two_commands cmds → cmds ≡ find_commands 7 two_commands)
find_commands-Scan_example = find_commands-Scan 7 two_commands (omega arith)

drop_repeats_lem_example :
    (completions (drop_repeats false (data_word ∷ split_up)) ≡ completions (data_word ∷ split_up))
    × (open_requests false (drop_repeats false (data_word ∷ split_up))
        ≡ open_requests false (data_word ∷ split_up))
    × (alternates false (drop_repeats false (data_word ∷ split_up)) ≡ true)
    × (alternates false (data_word ∷ split_up) ≡ true
        → drop_repeats false (data_word ∷ split_up) ≡ data_word ∷ split_up)
drop_repeats_lem_example = drop_repeats_lem false (data_word ∷ split_up)
