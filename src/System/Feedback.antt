-- ===== src/System/Feedback.antt =====
-- What a command of an arm brings about at the PLC and at the arm.
use model_lib.Prelude.{
  ℕ, ◌+◌, ◌≡◌, refl, ap, ◌∙◌, Bool, true, false, List, [], ◌∷◌, ◌++◌, Option, some, ◌||◌, ltb,
  length, drop, if_then, arith,
}
use model_lib.Dict
use model_lib.Text.{Bytes}
use model_lib.Queue.State.{Manager, DequeueCache, plc_feedback}
use model_lib.Queue.History.{
  Outcome, returned, value_error, normal_status, done_status, is_feedback_status,
  build_arm_feedback_code,
}
use model_lib.Queue.Requests.{IsArm, Holds, normal_code, handle_arm_data_request-Holds}
use model_lib.Queue.Arm.{handle_arm_data_request, handle_arm_completion}
use model_lib.Queue.Completions.{done_code, handle_arm_completion-Completed}
use model_lib.Plc.Sending.{PlcHandler, dequeue, deliveries, send_dequeue_feedback-deliveries}
use model_lib.Arms.Controller.{send_to_arm}
use model_lib.System.Commands.{data_request, completion, parse_arm_command}
use model_lib.System.Callbacks.{
  System, deliver_effect, deliver, with_manager, send_answer, after_request, after_completion,
  on_arm_command, arm_command_callback,
}

module _ {ℓ} {A : Type ℓ} where
  drop-append : (xs ys : List A) → drop (length xs) (xs ++ ys) ≡ ys
  drop-append [] ys = refl
  drop-append (x ∷ xs) ys = drop-append xs ys

deliver_effect-feedback :
    (arm_id : ℕ) (status : Bytes) (code : Bytes) (h : PlcHandler)
    → build_arm_feedback_code arm_id status ≡ returned code
    → (deliver_effect (plc_feedback code) h).sent ≡ h.sent ++ deliveries dequeue code h.connections
unfolding deliver_effect
deliver_effect-feedback arm_id status code h built =
    let (n, ok, result, sent, _) = send_dequeue_feedback-deliveries arm_id status code h built in
    rw (result, deliver_effect) sent

-- The queue manager has handed out one feedback code.
with_manager-feedback :
    (arm_id : ℕ) (status : Bytes) (code : Bytes) (m : Manager) (s : System)
    → build_arm_feedback_code arm_id status ≡ returned code
    → m.effects ≡ s.queue_manager.effects ++ plc_feedback code ∷ []
    → (with_manager m s).plc_handler.sent
      ≡ s.plc_handler.sent ++ deliveries dequeue code s.plc_handler.connections
unfolding with_manager deliver
with_manager-feedback arm_id status code m s built e =
    ap (λ es. (deliver (drop (length s.queue_manager.effects) es) s.plc_handler).sent) e
    ∙ ap (λ es. (deliver es s.plc_handler).sent)
        (drop-append s.queue_manager.effects (plc_feedback code ∷ []))
    ∙ deliver_effect-feedback arm_id status code s.plc_handler built

code-IsArm :
    (arm_id : ℕ) (status : Bytes)
    → IsArm arm_id
    → is_feedback_status status ≡ true
    → build_arm_feedback_code arm_id status ≡ returned ((48 + arm_id) ∷ status)
unfolding build_arm_feedback_code
code-IsArm arm_id status ok known =
    let no_error : (ltb arm_id 1 || ltb 9 arm_id) ≡ false = ground arith in
    rw (no_error, known) refl

after_request-answered :
    (works : ℕ → Bool) (arm_id : ℕ) (r : Manager × Outcome (Option Bytes)) (s : System)
    (answer : Option Bytes)
    → r.1 ≡ returned answer
    → after_request works arm_id r s ≡ (send_answer works arm_id answer (with_manager r.0 s), true)
unfolding after_request
after_request-answered works arm_id (m, value_error) s answer e = absurd (ground (arith, e))
after_request-answered works arm_id (m, returned a) s answer e =
    let same : a ≡ answer = cc in
    ap (λ a. (send_answer works arm_id a (with_manager m s), true)) same

after_completion-answered :
    (r : Manager × Outcome Bool) (s : System) (answer : Bool)
    → r.1 ≡ returned answer
    → after_completion r s ≡ (with_manager r.0 s, true)
unfolding after_completion
after_completion-answered (m, value_error) s answer e = absurd (ground (arith, e))
after_completion-answered (m, returned a) s answer e = refl

-- A request for data, however it is written, from an arm whose cache is current and has data: the
-- callback ends without an exception, each working dequeue connection of the PLC gets one `XN`, and
-- the data go to the arm's link. The PLC gets its `XN` whether the link takes the data or not.
pub arm_command_callback-request :
    (works : ℕ → Bool) (arm_id : ℕ) (command : Bytes) (now : ℕ) (s : System) (bytes : Bytes)
    → IsArm arm_id
    → Holds s.queue_manager arm_id bytes
    → s.queue_manager.callbacks.has_plc_feedback ≡ true
    → parse_arm_command command ≡ data_request
    → let (next, ok) = arm_command_callback works arm_id command now s in
      (ok ≡ true)
      × (next.plc_handler.sent
          ≡ s.plc_handler.sent ++ deliveries dequeue (normal_code arm_id) s.plc_handler.connections)
      × (next.arm_controller ≡ (send_to_arm works arm_id bytes s.arm_controller).0)
unfolding arm_command_callback on_arm_command send_answer with_manager
arm_command_callback-request works arm_id command now s bytes arm h told asked =
    let (result, _, effects) =
      handle_arm_data_request-Holds s.queue_manager arm_id now bytes arm h in
    let r = handle_arm_data_request arm_id now s.queue_manager in
    let done =
      ap (λ c. on_arm_command works arm_id c now s) asked
      ∙ after_request-answered works arm_id r s (some bytes) result in
    let fed =
      with_manager-feedback arm_id normal_status (normal_code arm_id) r.0 s
        (code-IsArm arm_id normal_status arm refl)
        (effects ∙ if_then s.queue_manager.callbacks.has_plc_feedback _ _ told) in
    (
      ap (λ n. n.1) done,
      ap (λ n. n.0.plc_handler.sent) done ∙ fed,
      ap (λ n. n.0.arm_controller) done,
    )

-- A completion, however it is written and whatever count it has, from an arm with a cache: the
-- callback ends without an exception, each working dequeue connection of the PLC gets one `XD`, and
-- no arm gets anything.
pub arm_command_callback-completion :
    (works : ℕ → Bool) (arm_id : ℕ) (command : Bytes) (now : ℕ) (s : System) (c : DequeueCache)
    (reported : Option ℕ)
    → IsArm arm_id
    → Dict.get arm_id s.queue_manager.store.arm_caches ≡ some c
    → s.queue_manager.callbacks.has_plc_feedback ≡ true
    → parse_arm_command command ≡ completion reported
    → let (next, ok) = arm_command_callback works arm_id command now s in
      (ok ≡ true)
      × (next.plc_handler.sent
          ≡ s.plc_handler.sent ++ deliveries dequeue (done_code arm_id) s.plc_handler.connections)
      × (next.arm_controller ≡ s.arm_controller)
unfolding arm_command_callback on_arm_command with_manager
arm_command_callback-completion works arm_id command now s c reported arm cached told asked =
    let (result, _, effects) =
      handle_arm_completion-Completed s.queue_manager arm_id c reported now arm cached in
    let r = handle_arm_completion arm_id reported now s.queue_manager in
    let done =
      ap (λ c. on_arm_command works arm_id c now s) asked
      ∙ after_completion-answered r s true result in
    let fed =
      with_manager-feedback arm_id done_status (done_code arm_id) r.0 s
        (code-IsArm arm_id done_status arm refl)
        (effects ∙ if_then s.queue_manager.callbacks.has_plc_feedback _ _ told) in
    (
      ap (λ n. n.1) done,
      ap (λ n. n.0.plc_handler.sent) done ∙ fed,
      ap (λ n. n.0.arm_controller) done,
    )
