-- ===== src/Queue.antt =====
-- 队列管理/src/core/queue_manager.py: the dual-arm queue manager. `State` holds its data, and each
-- other child a group of its methods, or what is proved of them.
pub mod State
pub mod History
pub mod Defaults
pub mod Enqueue
pub mod Camera
pub mod Dequeue
pub mod Arm
pub mod Calls
pub mod Oldest
pub mod Pointers
pub mod Requests
pub mod Invariant
pub mod Answers
pub mod Completions
pub mod Late
pub mod Timeouts
pub mod Ingest
pub mod Codes
pub mod Eviction
