-- ===== src/Workflow/Emptied.antt =====
-- The loops of `on_camera_payload` end, and hand on the frames in their order.
use model_lib.Prelude.{ℕ, suc, ◌≡◌, refl, Bool, List, ◌∷◌, ◌++◌, length, arith}
use model_lib.Text.{Bytes}
use model_lib.Cameras.Server.{camera_2d, camera_3d}
use model_lib.Workflow.Events.{run}
use model_lib.Workflow.Frames.{
  pop_2d_frame, pop_3d_frame, drain, Receiver, inputs_2d, inputs_3d, on_camera_payload,
}
use model_lib.Workflow.Draining.{Drains, drain-Drains, Drains-unique}
use model_lib.Workflow.Fragments.{pop_3d_frame-Shrinks}
use model_lib.Workflow.Lines.{pop_2d_frame-Shrinks}

-- After a payload that is not empty, the loop of its camera ends. The frames that a loop without a
-- bound takes out of the buffer and the payload, until the search for a frame finds none, go to the
-- coordinator in their order, and what such a loop leaves is the buffer. There is one such list of
-- frames only.
pub on_camera_payload-Drains :
    (b : ℕ) (bs : Bytes) (sent : ℕ → Bool × Bool) (now : ℕ) (r : Receiver)
    → ((fs : List Bytes) × (rest : Bytes) × Drains pop_2d_frame (r.buffer_2d ++ b ∷ bs) fs rest
        × (on_camera_payload camera_2d (b ∷ bs) sent now r ≡ record r {
          coordinator = run (inputs_2d sent now 0 fs) r.coordinator;
          buffer_2d = rest;
        })
        × ((gs : List Bytes) (t : Bytes)
            → Drains pop_2d_frame (r.buffer_2d ++ b ∷ bs) gs t
            → (fs ≡ gs) × (rest ≡ t)))
      × ((fs : List Bytes) × (rest : Bytes) × Drains pop_3d_frame (r.buffer_3d ++ b ∷ bs) fs rest
          × (on_camera_payload camera_3d (b ∷ bs) sent now r
              ≡ record r { coordinator = run (inputs_3d now fs) r.coordinator; buffer_3d = rest })
          × ((gs : List Bytes) (t : Bytes)
              → Drains pop_3d_frame (r.buffer_3d ++ b ∷ bs) gs t
              → (fs ≡ gs) × (rest ≡ t)))
unfolding on_camera_payload
on_camera_payload-Drains b bs sent now r =
    let all_2d : Bytes = r.buffer_2d ++ b ∷ bs in
    let all_3d : Bytes = r.buffer_3d ++ b ∷ bs in
    let out_2d = drain pop_2d_frame (suc (length all_2d)) all_2d in
    let out_3d = drain pop_3d_frame (suc (length all_3d)) all_3d in
    let d =
      drain-Drains pop_2d_frame pop_2d_frame-Shrinks (suc (length all_2d)) all_2d (omega arith) in
    let e =
      drain-Drains pop_3d_frame pop_3d_frame-Shrinks (suc (length all_3d)) all_3d (omega arith) in
    (
      (out_2d.0, out_2d.1, d, refl, λ gs t. Drains-unique pop_2d_frame d),
      (out_3d.0, out_3d.1, e, refl, λ gs t. Drains-unique pop_3d_frame e),
    )
