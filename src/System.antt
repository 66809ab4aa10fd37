-- ===== src/System.antt =====
-- How 队列管理/src/main.py connects the modules.
pub mod Commands
pub mod Callbacks
pub mod Feedback
pub mod Events
pub mod Delivered
pub mod Invariant
pub mod Kept
pub mod Runs
pub mod Trigger
pub mod Understood
pub mod Counted
