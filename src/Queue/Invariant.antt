-- ===== src/Queue/Invariant.antt =====
-- The invariant of the manager, and that every call keeps it.
pub mod Ring
pub mod Shape
pub mod Stores
pub mod Valid
pub mod Enqueue
pub mod Camera
pub mod Chosen
pub mod Dequeue
pub mod Arm
pub mod Completion
use model_lib.Prelude.{ℕ}
