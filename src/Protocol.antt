-- ===== src/Protocol.antt =====
-- The client and the server together: a packet that one makes, at the other's handler.
pub mod Challenge
pub mod Roster
pub mod Mirror
pub mod Turn
pub mod Tests
