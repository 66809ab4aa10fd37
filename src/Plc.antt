-- ===== src/Plc.antt =====
-- `core/plc_handler.py`: the two ports of the PLC.
pub mod Stream
pub mod Reading
pub mod Pointers
pub mod Sending
pub mod Connections
pub mod Frames
pub mod Servers
pub mod Served
