-- ===== src/Protocol.antt =====
-- What one side writes and the other side reads: theorems across the two programs.
pub mod Exposure
pub mod Handshake
pub mod Assignment
pub mod Arguments
pub mod Update
pub mod Calls
pub mod Setting
