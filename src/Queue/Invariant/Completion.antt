-- ===== src/Queue/Invariant/Completion.antt =====
-- Completions keep the invariant, and so does any sequence of calls.
use model_lib.Prelude.{
  ℕ, ◌≡◌, refl, ◌∙◌, true, ◌||◌, List, [], ◌∷◌, Option, none, some, arith, ltb, ◌==◌, Bool-cases,
  Option-cases, inl, inr,
}
use model_lib.Dict
use model_lib.Queue.State.{Manager, Config, DequeueCache, ArmQueueItem}
use model_lib.Queue.History.{build_arm_feedback_code, update_arm_status, append_history}
use model_lib.Queue.Enqueue.{enqueue_item}
use model_lib.Queue.Arm.{
  is_mismatch, note_mismatch, note_jump, next_count, completed_item, mark_completed,
  complete_locked, finish_completion, handle_arm_completion,
}
use model_lib.Queue.Calls.{
  Call, sets_callbacks, enqueues, commands, stores, ingests, points, prepares, requests, completes,
  new_manager, set_callbacks, step, run,
}
use model_lib.Queue.Invariant.Enqueue.{enqueue_pair-IsValid, handle_plc_command-IsValid}
use model_lib.Queue.Invariant.Camera.{store_camera_data-IsValid, ingest_camera_data-IsValid}
use model_lib.Queue.Invariant.Dequeue.{process_arm_dequeue-IsValid, handle_dequeue_pointers-IsValid}
use model_lib.Queue.Invariant.Arm.{cached-CacheOk, mark-IsValid, handle_arm_data_request-IsValid}
use model_lib.Queue.Invariant.Valid.{IsValid, append_history-IsValid, send_plc_feedback-IsValid}

-- The warnings of a completion only add rows to the history.
pub record Notes (m n : Manager) : Type 0 where
  pub valid : IsValid m → IsValid n
  pub store : n.store ≡ m.store

note_mismatch-Notes :
    (arm_id : ℕ) (reported : Option ℕ) (item : ArmQueueItem) (now : ℕ) (m : Manager)
    → Notes m (note_mismatch arm_id reported item now m)
unfolding note_mismatch
note_mismatch-Notes arm_id none item now m = record { valid = λ v. v; store = refl }
note_mismatch-Notes arm_id (some r) item now m =
    elim (Bool-cases (is_mismatch m (some r) item.count)) [
      | inl e ↦
          rw (e, note_mismatch)
            (record {
              valid = λ v. append_history-IsValid _ now m v;
              store = unfold append_history in refl;
            })
      | inr e ↦ rw (e, note_mismatch) (record { valid = λ v. v; store = refl })
    ]

note_jump-Notes :
    (arm_id : ℕ) (last : Option ℕ) (item : ArmQueueItem) (now : ℕ) (m : Manager)
    → Notes m (note_jump arm_id last item now m)
unfolding note_jump
note_jump-Notes arm_id none item now m = record { valid = λ v. v; store = refl }
note_jump-Notes arm_id (some l) item now m = elim (Bool-cases (item.count == next_count l)) [
  | inl e ↦ rw (e, note_jump) (record { valid = λ v. v; store = refl })
  | inr e ↦
      rw (e, note_jump)
        (record {
          valid = λ v. append_history-IsValid _ now m v;
          store = unfold append_history in refl;
        })
]

-- The state of a completion after its warnings.
abbrev noted : ℕ → DequeueCache → Option ℕ → ℕ → Manager → Manager
noted arm_id c reported now m =
    note_jump arm_id (Dict.get_or arm_id none m.arm_last_confirmed_count)
      (m.store.heap c.queue_item) now
      (note_mismatch arm_id reported (m.store.heap c.queue_item) now m)

noted-Notes :
    (arm_id : ℕ) (c : DequeueCache) (reported : Option ℕ) (now : ℕ) (m : Manager)
    → Notes m (noted arm_id c reported now m)
noted-Notes arm_id c reported now m =
    let a = note_mismatch-Notes arm_id reported (m.store.heap c.queue_item) now m in
    let b =
      note_jump-Notes arm_id (Dict.get_or arm_id none m.arm_last_confirmed_count)
        (m.store.heap c.queue_item) now
        (note_mismatch arm_id reported (m.store.heap c.queue_item) now m) in
    record { valid = λ v. b.valid (a.valid v); store = b.store ∙ a.store }

complete_locked-IsValid :
    (arm_id : ℕ) (c : DequeueCache) (reported : Option ℕ) (now : ℕ) (m : Manager)
    → IsValid m
    → Dict.get arm_id m.store.arm_caches ≡ some c
    → IsValid (complete_locked arm_id c reported now m)
unfolding complete_locked update_arm_status mark_completed
complete_locked-IsValid arm_id c reported now m v e =
    let n = noted-Notes arm_id c reported now m in
    let vn = n.valid v in
    let o = cached-CacheOk arm_id c (noted arm_id c reported now m) vn (rw (n.store) e) in
    mark-IsValid arm_id (record c { confirmed = true })
      (completed_item (is_mismatch m reported (m.store.heap c.queue_item).count) now)
      (noted arm_id c reported now m) (record { known = o.known; owner = o.owner; ready = o.ready })
      (record {
        pointer = refl;
        count = refl;
        enqueue_seq = refl;
        timed_out = refl;
        payload = λ h. h;
      })
      vn

finish_completion-IsValid :
    (arm_id : ℕ) (c : DequeueCache) (reported : Option ℕ) (now : ℕ) (m : Manager)
    → IsValid m
    → IsValid (finish_completion arm_id c reported now m).0
unfolding finish_completion build_arm_feedback_code
finish_completion-IsValid arm_id c reported now m v =
    elim (Bool-cases (ltb arm_id 1 || ltb 9 arm_id)) [
      | inl e ↦ rw (e, finish_completion, build_arm_feedback_code) v
      | inr e ↦
          rw (e, finish_completion, build_arm_feedback_code)
            (append_history-IsValid _ now _ (send_plc_feedback-IsValid _ m v))
    ]

pub handle_arm_completion-IsValid :
    (arm_id : ℕ) (reported : Option ℕ) (now : ℕ) (m : Manager)
    → IsValid m
    → IsValid (handle_arm_completion arm_id reported now m).0
unfolding handle_arm_completion update_arm_status
handle_arm_completion-IsValid arm_id reported now m v =
    elim (Option-cases (Dict.get arm_id m.store.arm_caches)) [
      | inl e ↦ rw (e, handle_arm_completion) v
      | inr (c, e) ↦
          rw (e, handle_arm_completion)
            (finish_completion-IsValid arm_id c reported now _
              (complete_locked-IsValid arm_id c reported now m v e))
    ]

new_manager-IsValid : (c : Config) → IsValid (new_manager c)
unfolding new_manager
new_manager-IsValid c = record {
  sound = record {
    paired = tt;
    distinct1 = tt;
    distinct2 = tt;
    caches = tt;
    never_timed_out = λ r. refl;
  };
  bounded = omega arith;
  ring = record { size = omega arith; numbered = tt };
}

pub step-IsValid : (c : ℕ × Call) (m : Manager) → IsValid m → IsValid (step c m)
unfolding step set_callbacks enqueue_item
step-IsValid (now, sets_callbacks cs) m v = v
step-IsValid (now, enqueues count p) m v = enqueue_pair-IsValid count p now m v
step-IsValid (now, commands k count p) m v = handle_plc_command-IsValid k count p now m v
step-IsValid (now, stores count p b arm_id) m v = store_camera_data-IsValid count p b arm_id now m v
step-IsValid (now, ingests b) m v = ingest_camera_data-IsValid b m v
step-IsValid (now, points b) m v = handle_dequeue_pointers-IsValid b now m v
step-IsValid (now, prepares arm_id t) m v = process_arm_dequeue-IsValid arm_id t now m v
step-IsValid (now, requests arm_id) m v = handle_arm_data_request-IsValid arm_id now m v
step-IsValid (now, completes arm_id r) m v = handle_arm_completion-IsValid arm_id r now m v

run-IsValid : (cs : List (ℕ × Call)) (m : Manager) → IsValid m → IsValid (run cs m)
unfolding run
run-IsValid [] m v = v
run-IsValid (c ∷ cs) m v = run-IsValid cs (step c m) (step-IsValid c m v)

-- After any calls on a new manager the invariant holds: the two queues have the same pointers, each
-- once, with items of one enqueueing; they hold no more than the length (or one item, where that is
-- 0); every cache knows its arm and, with `dequeue_timeout`, has data; no item is ever marked as
-- timed out; and the history is the last rows, numbered without a gap, as many as its limit allows.
pub run-new_manager-IsValid : (c : Config) (cs : List (ℕ × Call)) → IsValid (run cs (new_manager c))
run-new_manager-IsValid c cs = run-IsValid cs (new_manager c) (new_manager-IsValid c)
