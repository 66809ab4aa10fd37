-- ===== src/Queue/Ingest.antt =====
-- The data of a single camera, by the waiting pointer.
use model_lib.Prelude.{
  ℕ, ◌≡◌, refl, ap, ◌∙◌, true, false, ◌||◌, [], ◌∷◌, ◌++◌, none, some, arith, ◌==◌, ==_refl,
  if◌then◌else◌, Bool-cases, Option-cases, inl, inr,
}
use mathlib.Core.List.{append-nil}
use model_lib.Text.{Bytes, strip, ends_with, drop_last}
use model_lib.Queue.State.{Manager, Store, ArmQueueItem, plc_stage}
use model_lib.Queue.History.{
  send_done, with_store, update_item, send_plc_stage_feedback, done_message,
}
use model_lib.Queue.Camera.{extract_arm_id, arm_of_text, find_item, by_camera, ingest_camera_data}

find_item-none : (m : Manager) (arm_id : ℕ) → find_item m.store arm_id none ≡ none
unfolding find_item
find_item-none m arm_id = refl

-- While no pointer waits, camera data are dropped and nothing changes.
pub ingest_dropped :
    (bytes : Bytes) (m : Manager)
    → m.current_waiting_pointer ≡ none
    → ingest_camera_data bytes m ≡ (m, false)
unfolding ingest_camera_data
ingest_dropped bytes m h = elim (Option-cases (extract_arm_id bytes)) [
  | inl e ↦ rw (e, ingest_camera_data)
  | inr e ↦ rw (e.1, ap (find_item m.store e.0) h ∙ find_item-none m e.0, ingest_camera_data)
]

-- The payload reaches the item of its arm at the waiting pointer.
unfoldable pub Matches : Bytes → Manager → ℕ → ℕ → ℕ → Type 0
Matches bytes m arm_id p r =
    (extract_arm_id bytes ≡ some arm_id)
    × (m.current_waiting_pointer ≡ some p)
    × (find_item m.store arm_id (some p) ≡ some r)

ingest_stored :
    (bytes : Bytes) (m : Manager) (arm_id p r : ℕ)
    → Matches bytes m arm_id p r
    → ingest_camera_data bytes m ≡ (
      record (send_done arm_id (with_store (update_item r (by_camera bytes)) m)) {
        current_waiting_pointer = none;
      },
      true,
    )
unfolding ingest_camera_data Matches
ingest_stored bytes m arm_id p r (e, w, f) =
    rw (e, ap (find_item m.store arm_id) w ∙ f, ingest_camera_data)

arm_of_text-1_or_2 :
    (cs : Bytes) (arm_id : ℕ) → arm_of_text cs ≡ some arm_id → (arm_id == 1 || arm_id == 2) ≡ true
unfolding arm_of_text
arm_of_text-1_or_2 (b ∷ c ∷ cs) arm_id h = grind arith
arm_of_text-1_or_2 (b ∷ []) arm_id h = ground arith
arm_of_text-1_or_2 [] arm_id h = ground arith

extract_arm_id-1_or_2 :
    (bytes : Bytes) (arm_id : ℕ)
    → extract_arm_id bytes ≡ some arm_id
    → (arm_id == 1 || arm_id == 2) ≡ true
unfolding extract_arm_id
extract_arm_id-1_or_2 bytes arm_id h =
    arm_of_text-1_or_2
      (if ends_with b'E' (strip bytes) then drop_last (strip bytes) else strip bytes) arm_id h

send_done-store : (arm_id : ℕ) (m : Manager) → (send_done arm_id m).store ≡ m.store
unfolding send_done send_plc_stage_feedback
send_done-store arm_id m = ground arith

send_done-effects :
    (arm_id : ℕ) (m : Manager)
    → (arm_id == 1 || arm_id == 2) ≡ true
    → (send_done arm_id m).effects
      ≡ m.effects
        ++ (if m.callbacks.has_plc_stage then plc_stage (done_message arm_id) ∷ [] else [])
unfolding send_done send_plc_stage_feedback
send_done-effects arm_id m h =
    rw h (elim (Bool-cases m.callbacks.has_plc_stage) [
      | inl e ↦ simp e
      | inr e ↦ simp (e, append-nil)
    ])

update_item_self :
    (r : ℕ) (f : ArmQueueItem → ArmQueueItem) (s : Store)
    → (update_item r f s).heap r ≡ f (s.heap r)
update_item_self r f s = rw (==_refl r)

-- A payload that reaches an item is stored in it and ends the wait: the item holds the payload, the
-- stage message of its arm is sent once if that callback is set, and the next camera payload,
-- whatever it holds, is dropped without any change.
pub ingest_camera_data-once :
    (bytes next : Bytes) (m : Manager) (arm_id p r : ℕ)
    → Matches bytes m arm_id p r
    → let n = (ingest_camera_data bytes m).0 in
      ((n.store.heap r).payload ≡ some bytes)
      × (n.effects
          ≡ m.effects
            ++ (if m.callbacks.has_plc_stage then plc_stage (done_message arm_id) ∷ [] else []))
      × ((ingest_camera_data bytes m).1 ≡ true)
      × (ingest_camera_data next n ≡ (n, false))
unfolding Matches
ingest_camera_data-once bytes next m arm_id p r h =
    let n = with_store (update_item r (by_camera bytes)) m in
    let e = ingest_stored bytes m arm_id p r h in
    let first = ap (λ x. x.0) e in
    (
      ap (λ x. (x.store.heap r).payload) first
          ∙ ap (λ x. (x.heap r).payload) (send_done-store arm_id n)
          ∙ ap (λ i. i.payload) (update_item_self r (by_camera bytes) m.store),
      ap (λ x. x.effects) first
          ∙ send_done-effects arm_id n (extract_arm_id-1_or_2 bytes arm_id h.0),
      ap (λ x. x.1) e,
      ingest_dropped next (ingest_camera_data bytes m).0
          (ap (λ x. x.current_waiting_pointer) first),
    )
