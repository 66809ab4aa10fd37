-- ===== src/Tests/Frames.antt =====
-- The frames of the cameras on small inputs.
use model_lib.Prelude.{ℕ, ◌≡◌, refl, Bool, true, List, [], ◌∷◌, some, arith}
use model_lib.Text.{Bytes}
use model_lib.Cameras.Server.{camera_2d, camera_3d}
use model_lib.Workflow.Events.{run}
use model_lib.Workflow.Frames.{
  Receiver, on_camera_payload, pop_2d_frame, pop_3d_frame, inputs_2d, inputs_3d,
}
use model_lib.Workflow.Draining.{Drains}
use model_lib.Workflow.Arrival.{receive_3d, joined, receive_3d-joined}
use model_lib.Workflow.Emptied.{on_camera_payload-Drains}
use model_lib.Workflow.Partial.{pop_2d_frame-digits}
use model_lib.Tests.Workflow.{start}

abbrev receiver : Receiver
receiver = record { coordinator = start; buffer_2d = []; buffer_3d = [] }

abbrev all_sent : ℕ → Bool × Bool
all_sent n = (true, true)

-- `(1000,5)EA(20` and `00,5)E`
abbrev first_part : Bytes
first_part =
    b'(' ∷ b'1' ∷ b'0' ∷ b'0' ∷ b'0' ∷ b',' ∷ b'5' ∷ b')' ∷ b'E' ∷ b'A' ∷ b'(' ∷ b'2' ∷ b'0' ∷ []

abbrev second_part : Bytes
second_part = b'0' ∷ b'0' ∷ b',' ∷ b'5' ∷ b')' ∷ b'E' ∷ []

receive_3d-joined_example :
    receive_3d all_sent 1 (first_part ∷ second_part ∷ []) receiver
    ≡ on_camera_payload camera_3d (joined (first_part ∷ second_part ∷ [])) all_sent 1 receiver
receive_3d-joined_example = receive_3d-joined all_sent 1 (first_part ∷ second_part ∷ []) receiver

on_camera_payload-Drains_example :
    ((fs : List Bytes) × (rest : Bytes) × Drains pop_2d_frame (b'5' ∷ second_part) fs rest
      × (on_camera_payload camera_2d (b'5' ∷ second_part) all_sent 1 receiver ≡ record receiver {
        coordinator = run (inputs_2d all_sent 1 0 fs) start;
        buffer_2d = rest;
      })
      × ((gs : List Bytes) (t : Bytes)
          → Drains pop_2d_frame (b'5' ∷ second_part) gs t
          → (fs ≡ gs) × (rest ≡ t)))
    × ((fs : List Bytes) × (rest : Bytes) × Drains pop_3d_frame (b'5' ∷ second_part) fs rest
        × (on_camera_payload camera_3d (b'5' ∷ second_part) all_sent 1 receiver
            ≡ record receiver { coordinator = run (inputs_3d 1 fs) start; buffer_3d = rest })
        × ((gs : List Bytes) (t : Bytes)
            → Drains pop_3d_frame (b'5' ∷ second_part) gs t
            → (fs ≡ gs) × (rest ≡ t)))
on_camera_payload-Drains_example = on_camera_payload-Drains b'5' second_part all_sent 1 receiver

-- `12`, of a row that goes on.
pop_2d_frame-digits_example : pop_2d_frame (b'1' ∷ b'2' ∷ []) ≡ (some (b'1' ∷ b'2' ∷ []), [])
pop_2d_frame-digits_example = pop_2d_frame-digits b'1' (b'2' ∷ []) (refl, (refl, tt)) (omega arith)
