-- ===== src/Queue/History.antt =====
-- What every method of the manager uses: the history ring, the arm statuses and the messages to
-- the PLC.
use model_lib.Prelude.{
  false, ℕ, ◌+◌, ◌-◌, Bool, ◌||◌, List, [], ◌∷◌, ◌++◌, Option, ltb, ◌==◌, if◌then◌else◌, length,
  drop,
}
use model_lib.Dict
use model_lib.Text.{Bytes}
use model_lib.Queue.State.{
  Manager, Store, ArmQueueItem, ArmStatus, Event, EventKind, plc_feedback, plc_stage,
}

-- `deque(maxlen=limit).append`.
unfoldable pub push_event : ℕ → List Event → Event → List Event
push_event limit events e = let all = events ++ e ∷ [] in drop (length all - limit) all

-- What a call of `_append_history_locked` says; the sequence number and the time are added.
pub record Note : Type 0 where
  pub kind : EventKind
  pub is_warning : Bool
  pub arm_id : Option ℕ
  pub pointer : Option ℕ
  pub count : Option ℕ
  pub numbers : List ℕ
  pub payload : Option Bytes

unfoldable pub append_history : Note → ℕ → Manager → Manager
append_history n now m = record m {
  history_seq = m.history_seq + 1;
  event_history = push_event m.config.history_limit m.event_history (record {
    seq = m.history_seq + 1;
    ts = now;
    kind = n.kind;
    is_warning = n.is_warning;
    arm_id = n.arm_id;
    pointer = n.pointer;
    count = n.count;
    numbers = n.numbers;
    payload = n.payload;
  });
}

unfoldable pub update_arm_status : ℕ → ArmStatus → Manager → Manager
update_arm_status arm_id status m = record m {
  arm_statuses = Dict.put arm_id status m.arm_statuses;
}

-- A message goes out only if the callback is set.
unfoldable pub send_plc_feedback : Bytes → Manager → Manager
send_plc_feedback message m =
    if m.callbacks.has_plc_feedback
    then record m { effects = m.effects ++ plc_feedback message ∷ [] }
    else m

unfoldable pub send_plc_stage_feedback : Bytes → Manager → Manager
send_plc_stage_feedback message m =
    if m.callbacks.has_plc_stage
    then record m { effects = m.effects ++ plc_stage message ∷ [] }
    else m

-- `"1Done"` for arm 1, `"2Done"` for arm 2, nothing for another.
abbrev pub done_message : ℕ → Bytes
done_message arm_id = (48 + arm_id) ∷ b'D' ∷ b'o' ∷ b'n' ∷ b'e' ∷ []

unfoldable pub send_done : ℕ → Manager → Manager
unfolding send_plc_stage_feedback
send_done arm_id m =
    if arm_id == 1 || arm_id == 2 then send_plc_stage_feedback (done_message arm_id) m else m

-- The two statuses of a feedback code.
abbrev pub normal_status : Bytes
normal_status = b'N' ∷ []

abbrev pub done_status : Bytes
done_status = b'D' ∷ []

-- `status in ("N", "D")`
abbrev pub is_feedback_status : Bytes → Bool
is_feedback_status (c ∷ []) = c == b'N' || c == b'D'
is_feedback_status _ = false

-- A result, or the `ValueError` that was raised.
pub data Outcome {ℓ} (A : Type ℓ) : Type ℓ where
  returned : A → Outcome A
  value_error : Outcome A

unfoldable pub build_arm_feedback_code : ℕ → Bytes → Outcome Bytes
build_arm_feedback_code arm_id status =
    if ltb arm_id 1 || ltb 9 arm_id
    then value_error
    else if is_feedback_status status
    then returned ((48 + arm_id) ∷ status)
    else value_error

-- An assignment to the fields of the object behind a reference.
abbrev pub update_item : ℕ → (ArmQueueItem → ArmQueueItem) → Store → Store
update_item r f s = record s { heap = λ q. if r == q then f (s.heap q) else s.heap q }

abbrev pub with_store : (Store → Store) → Manager → Manager
with_store f m = record m { store = f m.store }
