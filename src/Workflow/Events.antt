-- ===== src/Workflow/Events.antt =====
-- The coordinator as its callers see it: the commands of the PLC and the frames of the cameras.
use model_lib.Prelude.{ℕ, Bool, List, [], ◌∷◌}
use model_lib.Text.{Bytes}
use model_lib.Workflow.State.{Coordinator}
use model_lib.Workflow.Commands.{handle_plc_enqueue}
use model_lib.Workflow.Camera2d.{handle_2d_frame}
use model_lib.Workflow.Camera3d.{handle_3d_frame}

-- The flags say which messages to a camera went out.
pub data Input : Type 0 where
  commands : ℕ → ℕ → ℕ → Bool → Input
  frame_2d : Bytes → Bool → Bool → Input
  frame_3d : Bytes → Input

unfoldable pub step : ℕ × Input → Coordinator → Coordinator
step (now, commands command count pointer sent) w =
    handle_plc_enqueue command count pointer now sent w
step (now, frame_2d frame replied sent) w = handle_2d_frame frame replied sent w
step (now, frame_3d frame) w = handle_3d_frame frame now w

unfoldable pub run : List (ℕ × Input) → Coordinator → Coordinator
unfolding step
run [] w = w
run (i ∷ is) w = run is (step i w)
