-- ===== src/System/Kept.antt =====
-- Every event keeps the system well formed.
use model_lib.Prelude.{
  ℕ, ◌≡◌, sym, subst, Bool, true, List, [], ◌∷◌, Option, none, some, OnSome-some, Option-cases,
  Bool-cases, inl, inr, if_then, if_else,
}
use model_lib.Dict
use model_lib.Dict.Distinct.{get-OnSome}
use model_lib.Text.{Bytes}
use model_lib.Queue.State.{Manager}
use model_lib.Queue.History.{Outcome, returned, value_error}
use model_lib.Queue.Arm.{handle_arm_data_request, handle_arm_completion}
use model_lib.Queue.Invariant.Valid
use model_lib.Queue.Invariant.Arm.{handle_arm_data_request-IsValid}
use model_lib.Queue.Invariant.Camera.{ingest_camera_data-IsValid}
use model_lib.Queue.Invariant.Completion.{handle_arm_completion-IsValid}
use model_lib.Arms.Link.{ArmInfo, ConnectionMode, Received, receive_step, lose}
use model_lib.Arms.Valid as Links
use model_lib.Arms.Commands.{extract_commands}
use model_lib.System.Commands.{ArmCommand, data_request, completion, ignored, parse_arm_command}
use model_lib.System.Callbacks.{
  System, with_manager, camera_data_callback, after_request, after_completion, on_arm_command,
  arm_command_callback, run_commands, put_arm, lose_arm, take_text, receive_from_arm,
}
use model_lib.System.Events.{hand_on, on_link}
use model_lib.System.Invariant.{
  IsValid, with_manager-IsValid, send_answer-IsValid, put_arm-IsValid, on_link-IsValid,
}

after_request-IsValid :
    (works : ℕ → Bool) (arm_id : ℕ) (r : Manager × Outcome (Option Bytes)) (s : System)
    → Valid.IsValid r.0
    → IsValid s
    → IsValid (after_request works arm_id r s).0
unfolding after_request
after_request-IsValid works arm_id (m, value_error) s q v = with_manager-IsValid m s q v
after_request-IsValid works arm_id (m, returned answer) s q v =
    send_answer-IsValid works arm_id answer (with_manager m s) (with_manager-IsValid m s q v)

after_completion-IsValid :
    (r : Manager × Outcome Bool) (s : System)
    → Valid.IsValid r.0
    → IsValid s
    → IsValid (after_completion r s).0
unfolding after_completion
after_completion-IsValid (m, value_error) s q v = with_manager-IsValid m s q v
after_completion-IsValid (m, returned answer) s q v = with_manager-IsValid m s q v

on_arm_command-IsValid :
    (works : ℕ → Bool) (arm_id : ℕ) (c : ArmCommand) (now : ℕ) (s : System)
    → IsValid s
    → IsValid (on_arm_command works arm_id c now s).0
unfolding on_arm_command
on_arm_command-IsValid works arm_id data_request now s v =
    after_request-IsValid works arm_id (handle_arm_data_request arm_id now s.queue_manager) s
      (handle_arm_data_request-IsValid arm_id now s.queue_manager v.queues) v
on_arm_command-IsValid works arm_id (completion reported) now s v =
    after_completion-IsValid (handle_arm_completion arm_id reported now s.queue_manager) s
      (handle_arm_completion-IsValid arm_id reported now s.queue_manager v.queues) v
on_arm_command-IsValid works arm_id ignored now s v = v

run_commands-IsValid :
    (works : ℕ → Bool) (arm_id : ℕ) (cmds : List Bytes) (now : ℕ) (s : System)
    → IsValid s
    → IsValid (run_commands works arm_id cmds now s).0
unfolding run_commands arm_command_callback
run_commands-IsValid works arm_id [] now s v = v
run_commands-IsValid works arm_id (cmd ∷ cmds) now s v =
    let next = arm_command_callback works arm_id cmd now s in
    let rest = run_commands works arm_id cmds now next.0 in
    let after = on_arm_command-IsValid works arm_id (parse_arm_command cmd) now s v in
    elim (Bool-cases next.1) [
      | inl ok ↦
          subst (λ r. IsValid r.0) (sym (if_then next.1 rest next ok))
            (run_commands-IsValid works arm_id cmds now next.0 after)
      | inr raised ↦ subst (λ r. IsValid r.0) (sym (if_else next.1 rest next raised)) after
    ]

lose_arm-IsValid : (arm_id : ℕ) (s : System) → IsValid s → IsValid (lose_arm arm_id s)
unfolding lose_arm on_link
lose_arm-IsValid arm_id s v =
    on_link-IsValid arm_id (lose s.arm_controller.connection_mode) s
      (λ arm a. Links.lose-IsValid s.arm_controller.connection_mode arm) v

take_text-IsValid :
    (works : ℕ → Bool) (arm_id : ℕ) (text : Option Bytes) (now : ℕ) (s : System)
    → IsValid s
    → IsValid (take_text works arm_id text now s)
unfolding take_text
take_text-IsValid works arm_id none now s v = v
take_text-IsValid works arm_id (some text) now s v =
    let r = run_commands works arm_id (extract_commands text) now s in
    let after = run_commands-IsValid works arm_id (extract_commands text) now s v in
    elim (Bool-cases r.1) [
      | inl ok ↦ subst IsValid (sym (if_then r.1 r.0 (lose_arm arm_id r.0) ok)) after
      | inr raised ↦
          subst IsValid (sym (if_else r.1 r.0 (lose_arm arm_id r.0) raised))
            (lose_arm-IsValid arm_id r.0 after)
    ]

receive_step-IsValid :
    (mode : ConnectionMode) (running : Bool) (r : Received) (arm : ArmInfo)
    → running ≡ true
    → Links.IsValid arm
    → Links.IsValid (receive_step mode running r arm).0
receive_step-IsValid mode running r arm e a =
    subst (λ b. Links.IsValid (receive_step mode b r arm).0) (sym e)
      (Links.receive_step-IsValid mode r arm a)

pub receive_from_arm-IsValid :
    (works : ℕ → Bool) (arm_id : ℕ) (r : Received) (now : ℕ) (s : System)
    → IsValid s
    → IsValid (receive_from_arm works arm_id r now s)
unfolding receive_from_arm
receive_from_arm-IsValid works arm_id r now s v =
    elim (Option-cases (Dict.get arm_id s.arm_controller.arms)) [
      | inl e ↦ rw (e, receive_from_arm) v
      | inr (arm, e) ↦
          let found =
            OnSome-some Links.IsValid _ arm
              (get-OnSome Links.IsValid arm_id s.arm_controller.arms v.arms) e in
          let step = receive_step s.arm_controller.connection_mode s.arm_controller.running r arm in
          rw (e, receive_from_arm)
            (take_text-IsValid works arm_id step.1 now (put_arm arm_id step.0 s) (
              put_arm-IsValid arm_id step.0 s
                (receive_step-IsValid s.arm_controller.connection_mode s.arm_controller.running r
                  arm v.runs found)
                v))
    ]

pub hand_on-IsValid : (data' : Option Bytes) (s : System) → IsValid s → IsValid (hand_on data' s)
unfolding hand_on camera_data_callback
hand_on-IsValid none s v = v
hand_on-IsValid (some b) s v =
    with_manager-IsValid _ s (ingest_camera_data-IsValid b s.queue_manager v.queues) v
