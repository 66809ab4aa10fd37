-- ===== src/Queue/Completions.antt =====
-- Completions: counted once for a cache, answered each time.
use mathlib.Core.Path.{ap₂}
use model_lib.Prelude.{
  ℕ, ◌+◌, ◌≡◌, refl, ap, ◌∙◌, true, false, ◌||◌, [], ◌∷◌, ◌++◌, Option, none, some, arith, ltb,
  ==_refl, if◌then◌else◌, Bool-cases, inl, inr,
}
use model_lib.Dict
use model_lib.Dict.{get-put}
use model_lib.Text.{Bytes}
use model_lib.Queue.State.{Manager, DequeueCache, Callbacks, ArmQueueItem, plc_feedback}
use model_lib.Queue.History.{
  returned, build_arm_feedback_code, send_plc_feedback, update_arm_status, append_history,
}
use model_lib.Queue.Arm.{
  note_mismatch, note_jump, mark_completed, complete_locked, note_done, finish_completion,
  handle_arm_completion,
}
use model_lib.Queue.Requests.{IsArm, with_feedback, feedback-effects}

-- What the warnings of a completion leave alone.
record Quiet (m n : Manager) : Type 0 where
  stats : n.stats ≡ m.stats
  effects : n.effects ≡ m.effects
  callbacks : n.callbacks ≡ m.callbacks

note_mismatch-Quiet :
    (arm_id : ℕ) (reported : Option ℕ) (item : ArmQueueItem) (now : ℕ) (m : Manager)
    → Quiet m (note_mismatch arm_id reported item now m)
unfolding note_mismatch append_history
note_mismatch-Quiet arm_id reported item now m = ground arith

note_jump-Quiet :
    (arm_id : ℕ) (last : Option ℕ) (item : ArmQueueItem) (now : ℕ) (m : Manager)
    → Quiet m (note_jump arm_id last item now m)
unfolding note_jump append_history
note_jump-Quiet arm_id last item now m = ground arith

abbrev pub done_code : ℕ → Bytes
done_code arm_id = (48 + arm_id) ∷ b'D' ∷ []

-- A completion of a cache, from one state to the other.
pub record Completed (m n : Manager) (arm_id : ℕ) (c : DequeueCache) : Type 0 where
  pub counted : n.stats.completed_tasks ≡ m.stats.completed_tasks + (if c.confirmed then 0 else 1)
  pub cached : Dict.get arm_id n.store.arm_caches ≡ some (record c { confirmed = true })
  pub confirmed : (n.store.heap c.queue_item).confirmed ≡ true
  pub dequeued : (n.store.heap c.queue_item).dequeued ≡ true
  pub payload : (n.store.heap c.queue_item).payload ≡ (m.store.heap c.queue_item).payload
  pub remembered :
      Dict.get arm_id n.arm_last_confirmed_count ≡ some (some (m.store.heap c.queue_item).count)

note_mismatch-store :
    (arm_id : ℕ) (reported : Option ℕ) (item : ArmQueueItem) (now : ℕ) (m : Manager)
    → (note_mismatch arm_id reported item now m).store ≡ m.store
unfolding note_mismatch append_history
note_mismatch-store arm_id reported item now m = ground arith

note_jump-store :
    (arm_id : ℕ) (last : Option ℕ) (item : ArmQueueItem) (now : ℕ) (m : Manager)
    → (note_jump arm_id last item now m).store ≡ m.store
unfolding note_jump append_history
note_jump-store arm_id last item now m = ground arith

complete_locked-Completed :
    (m : Manager) (arm_id : ℕ) (c : DequeueCache) (reported : Option ℕ) (now : ℕ)
    → Completed m (complete_locked arm_id c reported now m) arm_id c
      × ((complete_locked arm_id c reported now m).effects ≡ m.effects)
      × ((complete_locked arm_id c reported now m).callbacks ≡ m.callbacks)
unfolding complete_locked mark_completed update_arm_status
complete_locked-Completed m arm_id c reported now =
    let item = m.store.heap c.queue_item in
    let last = Dict.get_or arm_id none m.arm_last_confirmed_count in
    let n1 = note_mismatch arm_id reported item now m in
    let a = note_mismatch-Quiet arm_id reported item now m in
    let b = note_jump-Quiet arm_id last item now n1 in
    let store =
      note_jump-store arm_id last item now n1 ∙ note_mismatch-store arm_id reported item now m in
    (
      record {
        counted =
            ap (λ st. st.completed_tasks + (if c.confirmed then 0 else 1)) (b.stats ∙ a.stats);
        cached = rw (get-put arm_id arm_id _ _, ==_refl arm_id);
        confirmed = rw (==_refl c.queue_item);
        dequeued = rw (==_refl c.queue_item);
        payload = rw (==_refl c.queue_item) (ap (λ s. (s.heap c.queue_item).payload) store);
        remembered = rw (get-put arm_id arm_id _ _, ==_refl arm_id);
      },
      b.effects ∙ a.effects,
      b.callbacks ∙ a.callbacks,
    )

feedback-Completed :
    (m n : Manager) (arm_id : ℕ) (c : DequeueCache) (code : Bytes)
    → Completed m n arm_id c
    → Completed m (send_plc_feedback code n) arm_id c
unfolding send_plc_feedback
feedback-Completed m n arm_id c code h = elim (Bool-cases n.callbacks.has_plc_feedback) [
  | inl e ↦ simp e (record {
    counted = h.counted;
    cached = h.cached;
    confirmed = h.confirmed;
    dequeued = h.dequeued;
    payload = h.payload;
    remembered = h.remembered;
  })
  | inr e ↦ simp e h
]

note_done-Completed :
    (m n : Manager) (arm_id : ℕ) (c : DequeueCache) (reported : Option ℕ) (now : ℕ)
    → Completed m n arm_id c
    → Completed m (note_done arm_id c reported now n) arm_id c
      × ((note_done arm_id c reported now n).effects ≡ n.effects)
unfolding note_done append_history
note_done-Completed m n arm_id c reported now h = (
  record {
    counted = h.counted;
    cached = h.cached;
    confirmed = h.confirmed;
    dequeued = h.dequeued;
    payload = h.payload;
    remembered = h.remembered;
  },
  refl,
)

finish_completion-effects :
    (arm_id : ℕ) (c : DequeueCache) (reported : Option ℕ) (now : ℕ) (m n : Manager)
    → IsArm arm_id
    → Completed m n arm_id c
    → ((finish_completion arm_id c reported now n).1 ≡ returned true)
      × Completed m (finish_completion arm_id c reported now n).0 arm_id c
      × ((finish_completion arm_id c reported now n).0.effects ≡ with_feedback n (done_code arm_id))
unfolding finish_completion build_arm_feedback_code
finish_completion-effects arm_id c reported now m n ok h =
    let no_error : (ltb arm_id 1 || ltb 9 arm_id) ≡ false = ground arith in
    let told = send_plc_feedback (done_code arm_id) n in
    let (kept, same) =
      note_done-Completed m told arm_id c reported now
        (feedback-Completed m n arm_id c (done_code arm_id) h) in
    rw (no_error, finish_completion, build_arm_feedback_code)
      (refl, kept, same ∙ feedback-effects n (done_code arm_id))

-- A completion by an arm 1 to 9 with a cache returns true, whatever count it reports, and sends the
-- PLC exactly one feedback code `XD`. The cache and its item end confirmed and the item dequeued, its
-- data unchanged, its count remembered; the task is counted if and only if the cache was not
-- confirmed yet, so that a repeated completion is answered and not counted again.
pub handle_arm_completion-Completed :
    (m : Manager) (arm_id : ℕ) (c : DequeueCache) (reported : Option ℕ) (now : ℕ)
    → IsArm arm_id
    → Dict.get arm_id m.store.arm_caches ≡ some c
    → ((handle_arm_completion arm_id reported now m).1 ≡ returned true)
      × Completed m (handle_arm_completion arm_id reported now m).0 arm_id c
      × ((handle_arm_completion arm_id reported now m).0.effects
          ≡ with_feedback m (done_code arm_id))
unfolding handle_arm_completion
handle_arm_completion-Completed m arm_id c reported now ok e =
    let n = complete_locked arm_id c reported now m in
    let (done, effects, callbacks) = complete_locked-Completed m arm_id c reported now in
    let (result, kept, sent) = finish_completion-effects arm_id c reported now m n ok done in
    rw (e, handle_arm_completion)
      (
        result,
        kept,
        sent
            ∙ ap₂
                (λ es (cs : Callbacks).
                  if cs.has_plc_feedback then es ++ plc_feedback (done_code arm_id) ∷ [] else es)
                effects callbacks,
      )
