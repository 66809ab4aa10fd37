-- ===== src/Tests.antt =====
-- Runs of the program on small inputs, with the theorems applied to them.
pub mod Queue
pub mod Parser
pub mod Workflow
pub mod Plc
pub mod Arms
pub mod Cameras
pub mod System
pub mod Frames
