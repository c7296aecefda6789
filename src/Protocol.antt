-- ===== src/Protocol.antt =====
-- The wire protocol, crates/proxygit-common/src/protocol.rs.
pub mod Message
pub mod Frame
pub mod Payload
pub mod Sparse
