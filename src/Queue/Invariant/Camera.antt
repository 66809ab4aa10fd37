-- ===== src/Queue/Invariant/Camera.antt =====
-- Camera data keeps the invariant.
use model_lib.Prelude.{ℕ, refl, Bool-cases, Option-cases, inl, inr}
use model_lib.Dict
use model_lib.Text.{Bytes}
use model_lib.Queue.State.{Manager, queue_of}
use model_lib.Queue.Camera.{
  is_late, store_camera_data, ingest_camera_data, extract_arm_id, find_item, by_camera,
  camera_ready_item,
}
use model_lib.Queue.Invariant.Valid.{IsValid, update_item-IsValid, send_done-IsValid}

pub store_camera_data-IsValid :
    (count pointer : ℕ) (bytes : Bytes) (arm_id now : ℕ) (m : Manager)
    → IsValid m
    → IsValid (store_camera_data count pointer bytes arm_id now m).0
unfolding store_camera_data
store_camera_data-IsValid count pointer bytes arm_id now m v =
    elim (Option-cases (Dict.get pointer (queue_of m.store arm_id))) [
      | inl e ↦ rw (e, store_camera_data) v
      | inr (r, e) ↦ elim (Bool-cases (is_late m (m.store.heap r))) [
        | inl late ↦ rw (e, late, store_camera_data) v
        | inr fresh ↦
            rw (e, fresh, store_camera_data)
              (update_item-IsValid r (camera_ready_item bytes now) m
                (record {
                  pointer = refl;
                  count = refl;
                  enqueue_seq = refl;
                  timed_out = refl;
                  payload = λ h. refl;
                })
                v)
      ]
    ]

pub ingest_camera_data-IsValid :
    (bytes : Bytes) (m : Manager) → IsValid m → IsValid (ingest_camera_data bytes m).0
unfolding ingest_camera_data
ingest_camera_data-IsValid bytes m v = elim (Option-cases (extract_arm_id bytes)) [
  | inl e ↦ rw (e, ingest_camera_data) v
  | inr (arm_id, e) ↦ elim (Option-cases (find_item m.store arm_id m.current_waiting_pointer)) [
    | inl f ↦ rw (e, f, ingest_camera_data) v
    | inr (r, f) ↦
        rw (e, f, ingest_camera_data)
          (send_done-IsValid arm_id _ (
            update_item-IsValid r (by_camera bytes) m
              (record {
                pointer = refl;
                count = refl;
                enqueue_seq = refl;
                timed_out = refl;
                payload = λ h. refl;
              })
              v))
  ]
]
