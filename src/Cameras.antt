-- ===== src/Cameras.antt =====
-- The camera server: `DualCameraServer` of 队列管理/src/core/camera_server.py.
pub mod Server
pub mod Heartbeat
pub mod Connection
pub mod Started
