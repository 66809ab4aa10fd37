-- ===== src/Queue/Invariant/Valid.antt =====
-- The invariant of the whole state, and the helpers of the handlers: each keeps it.
use Prim.Native.Nat.{max}
use model_lib.Prelude.{
  ℕ, ◌≤◌, refl, Bool, true, false, ◌||◌, List, Option, none, some, ◌==◌, if◌then◌else◌, length,
  is_some, Bool-cases, Option-cases, inl, inr,
}
use model_lib.Dict
use model_lib.Text.{Bytes}
use model_lib.Queue.State.{
  Manager, Store, Config, Event, ArmQueueItem, ArmStatus, FillReason, ItemStatus, queue_of,
}
use model_lib.Queue.History.{
  Note, append_history, update_arm_status, send_plc_feedback, send_done, with_store, update_item,
}
use model_lib.Queue.Defaults.{
  fill, fill_if_empty, fill_default_for_slot, fill_waiting, fill_both_arms_default,
}
use model_lib.Queue.Invariant.Ring.{IsRing, push_event-IsRing}
use model_lib.Queue.Invariant.Shape.{IsSound}
use model_lib.Queue.Invariant.Stores.{Keeps, update_item-IsSound}
use model_lib.Queue.State.{TimeoutMode}

abbrev pub fills : Config → Bool
fills c = elim c.timeout_mode [
  | TimeoutMode.dequeue_timeout ↦ true
  | TimeoutMode.cycle_timeout ↦ false
]

pub record Valid (c : Config) (s : Store) (seq : ℕ) (events : List Event) : Type 0 where
  pub sound : IsSound (fills c) s
  pub bounded : length s.arm1_queue ≤ max 1 c.queue_length
  pub ring : IsRing c.history_limit seq events

abbrev pub IsValid : Manager → Type 0
IsValid m = Valid m.config m.store m.history_seq m.event_history

pub append_history-IsValid :
    (n : Note) (now : ℕ) (m : Manager) → IsValid m → IsValid (append_history n now m)
unfolding append_history
append_history-IsValid n now m v = record {
  sound = v.sound;
  bounded = v.bounded;
  ring = push_event-IsRing m.config.history_limit m.history_seq m.event_history _ v.ring refl;
}

pub update_arm_status-IsValid :
    (arm_id : ℕ) (st : ArmStatus) (m : Manager)
    → IsValid m
    → IsValid (update_arm_status arm_id st m)
unfolding update_arm_status
update_arm_status-IsValid arm_id st m v = v

pub send_plc_feedback-IsValid :
    (b : Bytes) (m : Manager) → IsValid m → IsValid (send_plc_feedback b m)
unfolding send_plc_feedback
send_plc_feedback-IsValid b m v = elim (Bool-cases m.callbacks.has_plc_feedback) [
  | inl e ↦ rw e v
  | inr e ↦ rw e v
]

pub send_done-IsValid : (arm_id : ℕ) (m : Manager) → IsValid m → IsValid (send_done arm_id m)
unfolding send_done
send_done-IsValid arm_id m v = elim (Bool-cases (arm_id == 1 || arm_id == 2)) [
  | inl e ↦ elim (Bool-cases m.callbacks.has_plc_stage) [
    | inl f ↦ rw (e, f) v
    | inr f ↦ rw (e, f) v
  ]
  | inr e ↦ rw e v
]

-- An assignment to an item.
pub update_item-IsValid :
    (r : ℕ) (f : ArmQueueItem → ArmQueueItem) (m : Manager)
    → Keeps (m.store.heap r) (f (m.store.heap r))
    → IsValid m
    → IsValid (with_store (update_item r f) m)
update_item-IsValid r f m k v = record {
  sound = update_item-IsSound (fills m.config) m.store r f k v.sound;
  bounded = v.bounded;
  ring = v.ring;
}

fill_if_empty-IsValid :
    (r : ℕ) (b : Bytes) (st : ItemStatus) (m : Manager)
    → IsValid m
    → IsValid (with_store (fill_if_empty r b st) m)
unfolding fill_if_empty
fill_if_empty-IsValid r b st m v = elim (Bool-cases (is_some (m.store.heap r).payload)) [
  | inl e ↦ rw e v
  | inr e ↦ rw e (
      update_item-IsValid r (fill b st) m
        (record {
          pointer = refl;
          count = refl;
          enqueue_seq = refl;
          timed_out = refl;
          payload = λ h. refl;
        })
        v)
]

pub fill_default_for_slot-IsValid :
    (arm_id pointer : ℕ) (reason : FillReason) (m : Manager)
    → IsValid m
    → IsValid (fill_default_for_slot arm_id pointer reason m)
unfolding fill_default_for_slot
fill_default_for_slot-IsValid arm_id pointer reason m v =
    elim (Option-cases (Dict.get pointer (queue_of m.store arm_id))) [
      | inl e ↦ rw (e, fill_default_for_slot) v
      | inr (r, e) ↦ rw (e, fill_default_for_slot) (fill_if_empty-IsValid r _ _ m v)
    ]

fill_waiting-IsValid :
    (arm_id : ℕ) (pointer count : Option ℕ) (m : Manager)
    → IsValid m
    → IsValid (fill_waiting arm_id pointer count m)
unfolding fill_waiting
fill_waiting-IsValid arm_id none count m v = v
fill_waiting-IsValid arm_id (some p) count m v =
    elim (Option-cases (Dict.get p (queue_of m.store arm_id))) [
      | inl e ↦ rw (e, fill_waiting) v
      | inr (r, e) ↦ rw (e, fill_waiting) (fill_if_empty-IsValid r _ _ m v)
    ]

pub fill_both_arms_default-IsValid : (m : Manager) → IsValid m → IsValid (fill_both_arms_default m)
unfolding fill_both_arms_default
fill_both_arms_default-IsValid m v =
    fill_waiting-IsValid 2 m.current_waiting_pointer m.current_waiting_count _
      (fill_waiting-IsValid 1 m.current_waiting_pointer m.current_waiting_count m v)

-- Both branches of a test on the state.
pub if-IsValid : (b : Bool) (m n : Manager) → IsValid m → IsValid n → IsValid (if b then m else n)
if-IsValid true m n vm vn = vm
if-IsValid false m n vm vn = vn

pub if-IsValid_fst :
    {A : Type 0} (b : Bool) (x y : Manager × A)
    → IsValid x.0
    → IsValid y.0
    → IsValid (if b then x else y).0
if-IsValid_fst true x y vx vy = vx
if-IsValid_fst false x y vx vy = vy
