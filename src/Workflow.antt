-- ===== src/Workflow.antt =====
-- `core/enqueue_workflow.py`: the cycles from command 11 to command 12 with the two cameras.
pub mod State
pub mod Commands
pub mod Camera2d
pub mod Camera3d
pub mod Events
pub mod Invariant
pub mod Done
pub mod Ends
pub mod Frames
pub mod Brackets
pub mod Draining
pub mod Fragments
pub mod Arrival
pub mod Lines
pub mod Partial
pub mod Emptied
