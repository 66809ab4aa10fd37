-- ===== src/Arms.antt =====
-- The arm controller: `SimpleArmController` of 队列管理/src/core/arm_controller.py.
pub mod Link
pub mod Sockets
pub mod Valid
pub mod Abandoned
pub mod Reach
pub mod Controller
pub mod Built
pub mod Constructed
pub mod Started
pub mod Commands
pub mod Separators
pub mod Scanning
pub mod Rounds
