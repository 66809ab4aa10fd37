-- ===== src/Queue/Late.antt =====
-- Camera data that come late.
use model_lib.Prelude.{
  ℕ, ◌+◌, ◌≡◌, refl, ◌↔◌, true, false, ◌&&◌, some, arith, ==_refl, if◌then◌else◌, Bool-cases, inl,
  inr,
}
use model_lib.Dict
use model_lib.Text.{Bytes}
use model_lib.Queue.State.{Manager, queue_of}
use model_lib.Queue.Camera.{is_late, store_camera_data}
use model_lib.Queue.Invariant.Valid.{IsValid}

-- In a valid state `timed_out` is false, so that only `dequeued` makes an item late.
is_late-valid :
    (m : Manager) (r : ℕ)
    → IsValid m
    → is_late m (m.store.heap r) ≡ ((m.store.heap r).dequeued && m.config.drop_late_camera_data)
unfolding is_late
is_late-valid m r v = ground (arith, v.sound.never_timed_out r)

-- In a valid state `store_camera_data` for an item that stands in the queue of the arm returns false
-- exactly when the item is dequeued and late data are dropped. It then keeps every item and counts
-- the discard; otherwise it writes the data.
pub store_camera_data-late_iff :
    (m : Manager) (count pointer arm_id now r : ℕ) (bytes : Bytes)
    → IsValid m
    → Dict.get pointer (queue_of m.store arm_id) ≡ some r
    → let late = (m.store.heap r).dequeued && m.config.drop_late_camera_data in
      let (n, stored) = store_camera_data count pointer bytes arm_id now m in
      ((stored ≡ false) ↔ (late ≡ true))
      × ((n.store.heap r).payload ≡ (if late then (m.store.heap r).payload else some bytes))
      × (n.stats.late_camera_discards
          ≡ (if late then m.stats.late_camera_discards + 1 else m.stats.late_camera_discards))
unfolding store_camera_data
store_camera_data-late_iff m count pointer arm_id now r bytes v e =
    elim (Bool-cases ((m.store.heap r).dequeued && m.config.drop_late_camera_data)) [
      | inl late ↦
          rw (e, store_camera_data, is_late-valid m r v, late) ((λ _. refl, λ _. refl), refl, refl)
      | inr fresh ↦
          rw (e, store_camera_data, is_late-valid m r v, fresh)
            ((λ h. cc, λ h. cc), rw (==_refl r), refl)
    ]
